-- ===== src/Evidence/Jury/Verdict.antt =====
-- evidence/jury.py: what the verdict of a Jury evaluation says about the plan it judges.
use civitas.Prelude.{false, true, ◌≡◌, leb, Bool, not, ◌&&◌, ◌||◌, arith, if◌then◌else◌}
use civitas.Contracts.{JuryRequest, JuryState}
use civitas.Evidence.Dissent.{nonempty}
use civitas.Evidence.Jury.{
  JuryInputs, IntegrityCalculation, IntegrityPolicy, is_infeasible, critical_ids, unresolved_high,
  dissent_failed, invalidated, externally_supported, evaluate_gates, failed_reasons, has_reason,
  reason_index, state_of,
}

module _ (policy : IntegrityPolicy) (request : JuryRequest) (inputs : JuryInputs)
    (calculation : IntegrityCalculation) where
  -- The plan itself cannot stand.
  unfoldable pub refuted : Bool
  refuted =
      is_infeasible request.candidate_plan.feasibility
      || nonempty inputs.gate_facts.hard_constraint_violations
      || invalidated inputs

  -- An operator has to decide.
  unfoldable pub reserved : Bool
  reserved =
      request.autonomy_budget_exhausted && inputs.gate_facts.unresolved_uncertainty
      || inputs.gate_facts.human_approval_required

  -- The evidence for the plan has a gap.
  unfoldable pub unsettled : Bool
  unsettled =
      unresolved_high inputs (critical_ids inputs request.supporting_claim_ids)
        calculation.contradictions
      || not (externally_supported request calculation)
      || nonempty inputs.gate_facts.stale_execution_claim_ids
      || dissent_failed inputs

  unfoldable pub ruling : JuryState
  unfolding refuted reserved unsettled
  ruling =
      if refuted
      then JuryState.reject
      else if reserved
      then JuryState.escalate
      else if unsettled
      then JuryState.investigate
      else if leb policy.approval_threshold calculation.score
      then JuryState.approve
      else if leb policy.investigation_threshold calculation.score
      then JuryState.investigate
      else if request.autonomy_budget_exhausted
      then JuryState.escalate
      else JuryState.investigate

  -- The verdict on the nine gates: a refuted plan is rejected, a reserved one goes to an operator,
  -- an unsettled one is investigated; what is left is approved from the approval threshold on, and
  -- below the investigation threshold goes to an operator where the autonomy budget is exhausted;
  -- in every other case it is investigated.
  pub verdict_ruling :
      (state_of policy request calculation (evaluate_gates request inputs calculation)).0 ≡ ruling
  unfolding state_of evaluate_gates failed_reasons has_reason reason_index ruling
  verdict_ruling = ground arith

  pub ruling-approve :
      refuted ≡ false
      → reserved ≡ false
      → unsettled ≡ false
      → leb policy.approval_threshold calculation.score ≡ true
      → ruling ≡ JuryState.approve
  unfolding ruling
  ruling-approve r o u s = ground arith
