-- ===== src/Execution/Guarded/Cleared.antt =====
-- execution/guarded.py: what the guards have found of a request that is admitted.
use civitas.Prelude.{
  ℕ, ◌≤◌, ◌<◌, ◌≡◌, ◌≢◌, refl, ap, ◌∙◌, subst, Bool, true, false, not, Bool-cases, Option-cases,
  Result-cases, Option, none, some, inl, inr, List, [], ◌∷◌, map, any, contains, String, str_eq_iff,
  All, ok, arith,
}
use civitas.Contracts.{FeasibilityStatus, CandidatePlan, JuryState}
use civitas.Approval.{OperatorContext}
use civitas.Evidence.Jury.{IntegrityPolicy, is_infeasible}
use civitas.Execution.{ExecutionRequest}
use civitas.Execution.Guarded.{
  PlanningRunModel, CandidatePlanModel, JuryDecisionModel, RecordedGate, Database,
}
use civitas.Execution.Guarded.Readiness.{is_approved}
use civitas.Execution.Guarded.Ownership.{all-All, NamesOwnRows, validate-NamesOwnRows}
use civitas.Execution.Guarded.Admission.{
  required_jury_gates, run_by_id, plan_by_id, decision_by_id, audit_for, load_plan,
  validate_plan_organization, check_decision, is_positive, admitted, check_plan, admit_new, admit,
  check_approval_arguments,
}

-- A recorded decision that lets its plan be executed.
pub record IsApproved (policy : IntegrityPolicy) (run : PlanningRunModel) (plan : CandidatePlan)
    (decision : JuryDecisionModel) : Type 0 where
  pub of_run : decision.planning_run_id ≡ run.id
  pub of_plan : decision.plan_id ≡ plan.plan_id
  pub of_policy : decision.policy_version ≡ policy.version
  pub gates_passed : All (λ g. g.passed ≡ true) decision.gate_results
  pub gates_complete :
      All
        (λ code. contains (map (λ g. g.gate_code) decision.gate_results) code ≡ true)
        required_jury_gates
  pub above_threshold : policy.approval_threshold ≤ decision.integrity_score
  pub dissent : (score : ℕ) × (decision.dissent_robustness ≡ some score) × (0 < score)

none_failed :
    (gates : List RecordedGate)
    → any (λ g. not g.passed) gates ≡ false
    → All (λ g. g.passed ≡ true) gates
none_failed [] h = tt
none_failed (g ∷ gs) h = elim (Bool-cases g.passed) [
  | inl passed ↦ (passed, none_failed gs (ground arith))
  | inr failed ↦ absurd (ground arith)
]

is_positive-some :
    (o : Option ℕ) → is_positive o ≡ true → (score : ℕ) × (o ≡ some score) × (0 < score)
is_positive-some none h = absurd (ground arith)
is_positive-some (some score) h = (score, refl, ground arith)

check_decision-IsApproved :
    (policy : IntegrityPolicy) (run : PlanningRunModel) (plan : CandidatePlan)
    (decision : JuryDecisionModel)
    → check_decision policy run plan decision ≡ ok tt
    → IsApproved policy run plan decision
unfolding check_decision
check_decision-IsApproved policy run plan decision h = record {
  of_run = ground (arith, str_eq_iff decision.planning_run_id run.id);
  of_plan = ground (arith, str_eq_iff decision.plan_id plan.plan_id);
  of_policy = ground (arith, str_eq_iff decision.policy_version policy.version);
  gates_passed = none_failed decision.gate_results (ground arith);
  gates_complete =
      all-All (contains (map (λ g. g.gate_code) decision.gate_results)) required_jury_gates
        (ground arith);
  above_threshold = ground arith;
  dissent = is_positive-some decision.dissent_robustness (ground arith);
}

-- A plan that the run may execute: selected, not infeasible, and of the organization's own rows.
pub record IsExecutable (db : Database) (run : PlanningRunModel) (request : ExecutionRequest)
    (plan : CandidatePlan) : Type 0 where
  pub run_ready : run.status ≡ "ready_for_approval"
  pub row : CandidatePlanModel
  pub found : plan_by_id request.approved_plan_id db ≡ some row
  pub of_run : row.planning_run_id ≡ run.id
  pub selected : row.selected ≡ true
  pub feasible : row.feasibility ≢ FeasibilityStatus.infeasible
  pub loaded : plan ≡ load_plan row db
  pub owned : NamesOwnRows db run.organization_id plan

not_infeasible :
    (f : FeasibilityStatus) → is_infeasible f ≡ false → f ≢ FeasibilityStatus.infeasible
not_infeasible f h e = absurd (ground arith)

check_plan-IsExecutable :
    (db : Database) (run : PlanningRunModel) (context : Option OperatorContext)
    (request : ExecutionRequest) (plan : CandidatePlan)
    → check_plan db run context request ≡ ok plan
    → IsExecutable db run request plan
unfolding check_plan
check_plan-IsExecutable db run context request plan h =
    elim (Option-cases (plan_by_id request.approved_plan_id db)) [
      | inl unknown ↦ absurd (ground arith)
      | inr (row, found) ↦
          elim (Result-cases
            (validate_plan_organization db (load_plan row db) run.organization_id)) [
              | inl (e, foreign) ↦ absurd (ground arith)
              | inr (t, valid) ↦
                  let same : plan ≡ load_plan row db = ground arith in
                  let owned = validate-NamesOwnRows db plan run.organization_id (ground arith) in
                  record {
                    run_ready = ground (arith, str_eq_iff run.status "ready_for_approval");
                    row = row;
                    found = found;
                    of_run = ground (arith, str_eq_iff row.planning_run_id run.id);
                    selected = ground arith;
                    feasible = not_infeasible row.feasibility (ground arith);
                    loaded = same;
                    owned = owned;
                  }
            ]
    ]

-- What is known of an admitted request.
pub record IsAdmitted (policy : IntegrityPolicy) (db : Database) (request : ExecutionRequest)
    (run : PlanningRunModel) (plan : CandidatePlan) : Type 0 where
  pub run_found : run_by_id request.planning_run_id db ≡ some run
  pub key_new : audit_for run.organization_id request.idempotency_key db.audits ≡ none
  pub executable : IsExecutable db run request plan
  pub decision : JuryDecisionModel
  pub decision_found : decision_by_id request.jury_evaluation_id db ≡ some decision
  pub approved : IsApproved policy run plan decision
  pub final : decision.final_state ≡ JuryState.approve

approved_state : (s : JuryState) → is_approved s ≡ true → s ≡ JuryState.approve
approved_state JuryState.approve h = refl
approved_state JuryState.investigate h = absurd (ground arith)
approved_state JuryState.escalate h = absurd (ground arith)
approved_state JuryState.reject h = absurd (ground arith)

module _ (policy : IntegrityPolicy) (now : ℕ) (db : Database) (context : Option OperatorContext)
    (request : ExecutionRequest) (run : PlanningRunModel) (plan : CandidatePlan) where
  admit_new-IsAdmitted :
      (here : PlanningRunModel)
      → run_by_id request.planning_run_id db ≡ some here
      → audit_for here.organization_id request.idempotency_key db.audits ≡ none
      → admit_new policy now db here context request ≡ ok (admitted run plan)
      → IsAdmitted policy db request run plan
  unfolding admit_new
  admit_new-IsAdmitted here known new h = elim (Result-cases (check_plan db here context request)) [
    | inl (e, bad) ↦ absurd (ground arith)
    | inr (checked, good) ↦ elim (Option-cases (decision_by_id request.jury_evaluation_id db)) [
      | inl unknown ↦ absurd (ground arith)
      | inr (decision, found) ↦ elim (Result-cases (check_decision policy here checked decision)) [
        | inl (e, bad) ↦ absurd (ground arith)
        | inr (t, passed) ↦ elim (Bool-cases (is_approved decision.final_state)) [
          | inr other ↦ absurd (ground arith)
          | inl approves ↦
              let same_run : here ≡ run = ground arith in
              let same_plan : checked ≡ plan = ground arith in
              record {
                run_found = known ∙ ap some same_run;
                key_new =
                    subst
                      (λ r. audit_for r.organization_id request.idempotency_key db.audits ≡ none)
                      same_run new;
                executable = check_plan-IsExecutable db run context request plan (
                    subst (λ r. check_plan db r context request ≡ ok plan) same_run
                      (good ∙ ap ok same_plan));
                decision = decision;
                decision_found = found;
                approved = check_decision-IsApproved policy run plan decision (
                    subst (λ r. check_decision policy r plan decision ≡ ok tt) same_run
                      (subst (λ p. check_decision policy here p decision ≡ ok tt) same_plan
                        passed));
                final = approved_state decision.final_state approves;
              }
        ]
      ]
    ]
  ]

  pub admit-IsAdmitted :
      (requires_approval : Bool) (approval_receipt_id : Option String)
      → admit policy requires_approval now db context approval_receipt_id request
        ≡ ok (admitted run plan)
      → IsAdmitted policy db request run plan
  unfolding admit
  admit-IsAdmitted requires_approval approval_receipt_id h =
      elim (Result-cases (check_approval_arguments requires_approval context approval_receipt_id)) [
        | inl (e, bad) ↦ absurd (ground arith)
        | inr (t, given) ↦ elim (Option-cases (run_by_id request.planning_run_id db)) [
          | inl unknown ↦ absurd (ground arith)
          | inr (here, known) ↦
              elim (Option-cases
                (audit_for here.organization_id request.idempotency_key db.audits)) [
                  | inr (audit, used) ↦ absurd (ground arith)
                  | inl new ↦ admit_new-IsAdmitted here known new (ground arith)
                ]
        ]
      ]
