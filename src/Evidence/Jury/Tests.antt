-- ===== src/Evidence/Jury/Tests.antt =====
-- The Jury on one well-supported plan.
use civitas.Prelude.{
  unique, sorted, contains, intersects, is_blank, lookup, ◌∙◌, ◌≡◌, ◌↔◌, refl, true, false, none,
  some, [], ◌∷◌, ok,
}
use civitas.Contracts.{JuryRequest, JuryEvaluation, JuryState}
use civitas.Workflow.Samples.{plan}
use civitas.Evidence.Jury.Samples.{policy, freshness, sources, claim, evidence, dissent}
use civitas.Evidence.Dissent.{completed, robustness_score}
use civitas.Evidence.Jury.{JuryInputs, IntegrityCalculation}
use civitas.Evidence.Jury.Integrity.{
  claim_by_id, claim_is_fresh, is_fresh, provenance_score, provenance_fields, relevant_evidence,
  source_groups, source_type, calculate,
}
use civitas.Evidence.Jury.Bounds.{IsMeasured, calculate-IsPercentages}
use civitas.Evidence.Jury.Verdict.{
  refuted, reserved, unsettled, ruling, ruling-approve, verdict_ruling,
}
use civitas.Evidence.Scores.{weighted_score, rounded, percentage, average}
use civitas.Evidence.Jury.Evaluation.{evaluation, evaluate, scoped}
use civitas.Evidence.Jury.Evaluation.Approval.{
  judged, measured, Approved, evaluate-Approves, evaluate-Explains,
}
use civitas.Evidence.Jury.{
  evaluate_gates, state_of, critical_ids, invalidated, unresolved_high, externally_supported,
  dissent_failed,
}

abbrev inputs : JuryInputs
inputs = record {
  claims = claim ∷ [];
  evidence = evidence ∷ [];
  dissent = some dissent;
  critical_claim_ids = none;
  resolved_contradiction_ids = [];
  gate_facts = record {
    hard_constraint_violations = [];
    stale_execution_claim_ids = [];
    human_approval_required = false;
    unresolved_uncertainty = false;
  };
}

abbrev request : JuryRequest
request = record {
  planning_run_id = "run-1";
  candidate_plan = plan;
  supporting_claim_ids = "claim-1" ∷ [];
  evidence_ids = "evidence-1" ∷ [];
  policy_version = "decision-integrity-v1";
  autonomy_budget_exhausted = false;
  require_critical_external_support = true;
}

abbrev verdict : JuryEvaluation
verdict = judged sources freshness policy request inputs "jury-1" 100

accepted : evaluate sources freshness policy request inputs "jury-1" 100 ≡ ok verdict
unfolding evaluate
accepted = refl

scored : (measured sources freshness policy request inputs "jury-1" 100).score ≡ 10000
unfolding scoped calculate weighted_score rounded percentage average critical_ids unique sorted
    contains intersects is_blank completed robustness_score claim_by_id claim_is_fresh is_fresh
    provenance_score provenance_fields relevant_evidence source_groups source_type lookup
scored = refl

abbrev inputs' : JuryInputs
inputs' = scoped request inputs

abbrev calculation : IntegrityCalculation
calculation = measured sources freshness policy request inputs "jury-1" 100

stands : refuted policy request inputs' calculation ≡ false
unfolding refuted scoped invalidated
stands = refl

unreserved : reserved policy request inputs' calculation ≡ false
unfolding reserved scoped
unreserved = refl

settled : unsettled policy request inputs' calculation ≡ false
unfolding unsettled scoped calculate unresolved_high externally_supported dissent_failed completed
    unique sorted critical_ids source_groups claim_by_id contains
settled = refl

approved : verdict.state ≡ JuryState.approve
unfolding evaluation
approved =
    verdict_ruling policy request inputs' calculation
    ∙ ruling-approve policy request inputs' calculation stands unreserved settled (rw scored refl)

calculate-IsPercentages_example :
    IsMeasured sources freshness inputs 100 [] (calculate sources freshness inputs 100 [])
calculate-IsPercentages_example = calculate-IsPercentages sources freshness inputs 100 []

verdict_ruling_example :
    (state_of policy request
      (calculate sources freshness inputs 100 [])
      (evaluate_gates request inputs (calculate sources freshness inputs 100 []))).0
    ≡ ruling policy request inputs (calculate sources freshness inputs 100 [])
verdict_ruling_example =
    verdict_ruling policy request inputs (calculate sources freshness inputs 100 [])

evaluate-Approves_example : Approved sources freshness policy request inputs "jury-1" 100 verdict
evaluate-Approves_example =
    evaluate-Approves sources freshness policy request inputs "jury-1" 100 verdict accepted approved

evaluate-Explains_example : (verdict.reason_codes ≡ []) ↔ (verdict.state ≡ JuryState.approve)
evaluate-Explains_example =
    evaluate-Explains sources freshness policy request inputs "jury-1" 100 verdict accepted
