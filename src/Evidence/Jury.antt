-- ===== src/Evidence/Jury.antt =====
-- evidence/jury.py: the data of an evaluation, the gates and the state they lead to.
mod Verdict
mod Bounds
pub mod Samples
mod Tests
pub mod Evaluation
pub mod Integrity
use civitas.Prelude.{
  ℕ, ◌+◌, ◌*◌, leb, ◌==◌, Bool, true, false, not, ◌&&◌, ◌||◌, Option, none, some, is_some, List, [],
  ◌∷◌, ◌++◌, any, String, contains, if◌then◌else◌,
}
use civitas.Contracts.{
  FeasibilityStatus, IntegrityComponents, JuryGateResult, JuryRequest, JuryState, ReasonCode,
  TypedClaim, EvidenceRecord,
}
use civitas.Evidence.Dissent.{DissentReport, completed, nonempty}

pub data ContradictionSeverity : Type 0 where
  low medium high : ContradictionSeverity

pub record Contradiction : Type 0 where
  pub contradiction_id : String
  pub left_claim_id : String
  pub right_claim_id : String
  pub severity : ContradictionSeverity

-- Thresholds are percentages in hundredths.
pub record IntegrityPolicy : Type 0 where
  pub version : String
  pub implementation_version : String
  pub approval_threshold : ℕ
  pub investigation_threshold : ℕ

pub record GateFacts : Type 0 where
  pub hard_constraint_violations : List String
  pub stale_execution_claim_ids : List String
  pub human_approval_required : Bool
  pub unresolved_uncertainty : Bool

pub record JuryInputs : Type 0 where
  pub claims : List TypedClaim
  pub evidence : List EvidenceRecord
  pub dissent : Option DissentReport
  pub critical_claim_ids : Option (List String)
  pub resolved_contradiction_ids : List String
  pub gate_facts : GateFacts

pub record IntegrityCalculation : Type 0 where
  pub components : IntegrityComponents
  pub score : ℕ
  pub contradictions : List Contradiction
  pub unsupported_critical_claim_ids : List String
  pub stale_claim_ids : List String

abbrev pub is_infeasible : FeasibilityStatus → Bool
is_infeasible FeasibilityStatus.infeasible = true
is_infeasible status = false

abbrev is_high : ContradictionSeverity → Bool
is_high ContradictionSeverity.high = true
is_high severity = false

-- `inputs.critical_claim_ids`, or by default the request's claims.
unfoldable pub critical_ids : JuryInputs → List String → List String
critical_ids inputs default = elim inputs.critical_claim_ids [ none ↦ default | some ids ↦ ids ]

unfoldable pub unresolved_high : JuryInputs → List String → List Contradiction → Bool
unresolved_high inputs critical items =
    any
      (λ item.
        is_high item.severity
        && not (contains inputs.resolved_contradiction_ids item.contradiction_id)
        && (contains critical item.left_claim_id || contains critical item.right_claim_id))
      items

unfoldable pub dissent_failed : JuryInputs → Bool
unfolding completed
dissent_failed inputs = elim inputs.dissent [ none ↦ true | some report ↦ not (completed report) ]

unfoldable pub invalidated : JuryInputs → Bool
invalidated inputs = elim inputs.dissent [
  | none ↦ false
  | some report ↦ report.establishes_invalidity
]

unfoldable pub externally_supported : JuryRequest → IntegrityCalculation → Bool
externally_supported request calculation =
    (if request.require_critical_external_support
      then nonempty request.supporting_claim_ids
      else true)
    && not (nonempty calculation.unsupported_critical_claim_ids)

-- `_gate`
unfoldable pub gate : String → Bool → ReasonCode → JuryGateResult
gate code passed reason = record {
  gate_code = code;
  passed = passed;
  reason_codes = if passed then [] else reason ∷ [];
}

unfoldable pub evaluate_gates :
    JuryRequest → JuryInputs → IntegrityCalculation → List JuryGateResult
unfolding gate
evaluate_gates request inputs calculation =
    let facts = inputs.gate_facts in
    let critical = critical_ids inputs request.supporting_claim_ids in
    gate "solver_feasibility" (not (is_infeasible request.candidate_plan.feasibility))
      ReasonCode.solver_infeasible
    ∷ gate "hard_constraints" (not (nonempty facts.hard_constraint_violations))
        ReasonCode.hard_constraint_violation
    ∷ gate "critical_contradictions"
        (not (unresolved_high inputs critical calculation.contradictions))
        ReasonCode.critical_contradiction_unresolved
    ∷ gate "critical_external_support" (externally_supported request calculation)
        ReasonCode.critical_claim_unsupported
    ∷ gate "execution_freshness" (not (nonempty facts.stale_execution_claim_ids))
        ReasonCode.stale_execution_data
    ∷ gate "autonomy_bounds"
        (not (request.autonomy_budget_exhausted && facts.unresolved_uncertainty))
        ReasonCode.autonomy_budget_exhausted
    ∷ gate "human_approval" (not facts.human_approval_required) ReasonCode.human_approval_required
    ∷ gate "proposal_validity" (not (invalidated inputs))
        ReasonCode.strong_evidence_invalidates_plan
    ∷ gate "dissent_completion" (not (dissent_failed inputs)) ReasonCode.dissent_check_failed
    ∷ []

-- The position of a code in the enumeration, by which two codes are compared.
unfoldable pub reason_index : ReasonCode → ℕ
reason_index ReasonCode.solver_infeasible = 0
reason_index ReasonCode.hard_constraint_violation = 1
reason_index ReasonCode.critical_contradiction_unresolved = 2
reason_index ReasonCode.critical_claim_unsupported = 3
reason_index ReasonCode.stale_execution_data = 4
reason_index ReasonCode.autonomy_budget_exhausted = 5
reason_index ReasonCode.human_approval_required = 6
reason_index ReasonCode.strong_evidence_invalidates_plan = 7
reason_index ReasonCode.dissent_check_failed = 8
reason_index ReasonCode.integrity_below_approval_threshold = 9
reason_index ReasonCode.integrity_below_investigation_threshold = 10

-- `reason in reasons`
unfoldable pub has_reason : List ReasonCode → ReasonCode → Bool
unfolding reason_index
has_reason [] reason = false
has_reason (r ∷ rs) reason = reason_index reason == reason_index r || has_reason rs reason

-- `[reason for gate in gates if not gate.passed for reason in gate.reason_codes]`
unfoldable pub failed_reasons : List JuryGateResult → List ReasonCode
failed_reasons [] = []
failed_reasons (g ∷ gs) =
    let rest = failed_reasons gs in if g.passed then rest else g.reason_codes ++ rest

abbrev is_nonempty : List ReasonCode → Bool
is_nonempty [] = false
is_nonempty (r ∷ rs) = true

-- `_state`
unfoldable pub state_of :
    IntegrityPolicy
    → JuryRequest
    → IntegrityCalculation
    → List JuryGateResult
    → JuryState × Option ReasonCode
unfolding failed_reasons has_reason
state_of policy request calculation gates =
    let failed = failed_reasons gates in
    if has_reason failed ReasonCode.solver_infeasible
      || has_reason failed ReasonCode.hard_constraint_violation
      || has_reason failed ReasonCode.strong_evidence_invalidates_plan
    then (JuryState.reject, none)
    else if has_reason failed ReasonCode.autonomy_budget_exhausted
        || has_reason failed ReasonCode.human_approval_required
    then (JuryState.escalate, none)
    else if is_nonempty failed
    then (JuryState.investigate, none)
    else if leb policy.approval_threshold calculation.score
    then (JuryState.approve, none)
    else if leb policy.investigation_threshold calculation.score
    then (JuryState.investigate, some ReasonCode.integrity_below_approval_threshold)
    else if request.autonomy_budget_exhausted
    then (JuryState.escalate, some ReasonCode.autonomy_budget_exhausted)
    else (JuryState.investigate, some ReasonCode.integrity_below_investigation_threshold)

unfoldable pub unique_reasons_from : List ReasonCode → List ReasonCode → List ReasonCode
unfolding has_reason
unique_reasons_from seen [] = []
unique_reasons_from seen (r ∷ rs) =
    let rest = unique_reasons_from seen rs in
    let longer = r ∷ unique_reasons_from (r ∷ seen) rs in if has_reason seen r then rest else longer

abbrev pub optional : Option ReasonCode → List ReasonCode
optional none = []
optional (some reason) = reason ∷ []

-- `_unique_reason_codes`
unfoldable pub unique_reason_codes : List JuryGateResult → Option ReasonCode → List ReasonCode
unfolding failed_reasons unique_reasons_from
unique_reason_codes gates threshold_reason =
    unique_reasons_from [] (failed_reasons gates ++ optional threshold_reason)
