-- ===== src/Evidence/Jury/Evaluation.antt =====
-- evidence/jury.py: JuryEvaluator.evaluate and required_investigation.
pub mod Approval
use civitas.Prelude.{
  ℕ, Bool, true, false, not, ◌||◌, Option, none, some, List, [], ◌∷◌, ◌++◌, map, keep, String, ◌<>◌,
  str_eq, contains, unique, Result, ok, raise_if, value_error, ◌>>◌, if◌then◌else◌,
}
use civitas.Contracts.{
  JuryRequest, JuryEvaluation, JuryGateResult, JuryState, ReasonCode, EvidenceRecord,
}
use civitas.Evidence.Dissent.{nonempty}
use civitas.Evidence.Jury.{
  JuryInputs, IntegrityCalculation, IntegrityPolicy, evaluate_gates, has_reason, state_of,
  unique_reason_codes,
}
use civitas.Evidence.Jury.Integrity.{Sources, Freshness, calculate}

unfoldable pub required_investigation :
    List ReasonCode → IntegrityCalculation → JuryInputs → List String
required_investigation reasons calculation inputs =
    let support =
      if has_reason reasons ReasonCode.critical_claim_unsupported
      then (if nonempty calculation.unsupported_critical_claim_ids
          then map (λ id. "Obtain external support for critical claim " <> id <> ".")
              calculation.unsupported_critical_claim_ids
          else "Obtain external support for the candidate plan's material supplier, price, capacity, and lead-time claims."
            ∷ [])
      else [] in
    let contradictions =
      if has_reason reasons ReasonCode.critical_contradiction_unresolved
      then map
          (λ item.
            "Resolve contradiction " <> item.contradiction_id
            <> " using stronger, current evidence.")
          (keep (λ item. not (contains inputs.resolved_contradiction_ids item.contradiction_id))
            calculation.contradictions)
      else [] in
    let stale =
      if has_reason reasons ReasonCode.stale_execution_data
      then map (λ id. "Refresh execution-critical claim " <> id <> ".")
          inputs.gate_facts.stale_execution_claim_ids
      else [] in
    let dissent =
      if has_reason reasons ReasonCode.dissent_check_failed
      then "Run all required Dissent checks in a fresh read-only clean-room context." ∷ []
      else [] in
    let threshold =
      if has_reason reasons ReasonCode.integrity_below_approval_threshold
      then "Collect additional independent, fresh evidence for material claims." ∷ []
      else [] in
    unique (support ++ contradictions ++ stale ++ dissent ++ threshold)

-- `replace(inputs, evidence=…)`: the evidence that the request names.
unfoldable pub scoped : JuryRequest → JuryInputs → JuryInputs
scoped request inputs = record inputs {
  evidence = keep (λ r. contains request.evidence_ids r.evidence_id) inputs.evidence;
}

module _ (sources : Sources) (freshness : Freshness) (policy : IntegrityPolicy) where
  -- The evaluation once the request is accepted.
  unfoldable pub evaluation : JuryRequest → JuryInputs → String → ℕ → JuryEvaluation
  evaluation request inputs evaluation_id calculated_at =
      let scoped_inputs = scoped request inputs in
      let calculation =
        calculate sources freshness scoped_inputs calculated_at request.supporting_claim_ids in
      let gates = evaluate_gates request scoped_inputs calculation in
      let decided = state_of policy request calculation gates in
      let reasons = unique_reason_codes gates decided.1 in
      record {
        evaluation_id = evaluation_id;
        planning_run_id = request.planning_run_id;
        plan_id = request.candidate_plan.plan_id;
        policy_version = policy.version;
        implementation_version = policy.implementation_version;
        calculated_at = calculated_at;
        components = calculation.components;
        integrity_score = calculation.score;
        gates = gates;
        state = decided.0;
        reason_codes = reasons;
        required_investigation = required_investigation reasons calculation scoped_inputs;
      }

  unfoldable pub evaluate : JuryRequest → JuryInputs → String → ℕ → Result JuryEvaluation
  unfolding evaluation
  evaluate request inputs evaluation_id calculated_at = do
    raise_if (not (str_eq request.policy_version policy.version))
        (value_error "request policy does not match evaluator policy")
    raise_if (not (str_eq request.candidate_plan.planning_run_id request.planning_run_id))
        (value_error "candidate plan and Jury request must belong to the same planning run")
    ok (evaluation request inputs evaluation_id calculated_at)
