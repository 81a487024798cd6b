-- ===== src/Execution/Guarded/Admission.antt =====
-- execution/guarded.py: the guards of GuardedExecutionService.execute, up to the Jury decision.
use civitas.Prelude.{
  ℕ, ltb, Bool, true, false, not, ◌&&◌, ◌||◌, Option, none, some, is_some, List, [], ◌∷◌, ◌++◌, map,
  keep, all, any, String, ◌<>◌, str_eq, contains, Result, ok, raise, raise_if, or_raise, ◌>>=◌,
  ◌>>◌, value_error, if◌then◌else◌,
}
use civitas.Contracts.{CandidatePlan, same_object}
use civitas.Approval.{OperatorContext, first}
use civitas.Evidence.Jury.{IntegrityPolicy, is_infeasible}
use civitas.Execution.{ExecutionState, ExecutionRequest}
use civitas.Execution.Guarded.{
  PlanningRunModel, CandidatePlanModel, JuryDecisionModel, RecordedGate, ExecutionAuditModel, Owned,
  Database, GuardedExecutionOutcome,
}
use civitas.Execution.Guarded.Readiness.{is_approved, blocked}

abbrev pub required_jury_gates : List String
required_jury_gates =
    "solver_feasibility" ∷ "hard_constraints" ∷ "critical_contradictions"
    ∷ "critical_external_support" ∷ "execution_freshness" ∷ "autonomy_bounds" ∷ "human_approval"
    ∷ "proposal_validity" ∷ "dissent_completion" ∷ []

-- `context is not None and approval_receipt_id is not None`, where the service needs an approval;
-- both or none otherwise.
unfoldable pub check_approval_arguments :
    Bool → Option OperatorContext → Option String → Result (Unit {0})
check_approval_arguments requires_approval context approval_receipt_id = do
  raise_if
      (if is_some context then not (is_some approval_receipt_id) else is_some approval_receipt_id)
      (value_error "context and approval receipt must be provided together")
  raise_if (requires_approval && (not (is_some context) || not (is_some approval_receipt_id)))
      (value_error "persisted approval receipt is required for execution")
  ok tt

-- `session.get(…)`: the row with the primary key.
abbrev pub run_by_id : String → Database → Option PlanningRunModel
run_by_id id db = first (λ r. str_eq r.id id) db.planning_runs

abbrev pub plan_by_id : String → Database → Option CandidatePlanModel
plan_by_id id db = first (λ r. str_eq r.id id) db.candidate_plans

abbrev pub decision_by_id : String → Database → Option JuryDecisionModel
decision_by_id id db = first (λ r. str_eq r.id id) db.jury_decisions

-- The audit of the organization's idempotency key.
unfoldable pub audit_for : String → String → List ExecutionAuditModel → Option ExecutionAuditModel
audit_for organization_id idempotency_key audits =
    first
      (λ a. str_eq a.organization_id organization_id && str_eq a.idempotency_key idempotency_key)
      audits

abbrev pub same_optional : Option String → Option String → Bool
same_optional none none = true
same_optional (some a) (some b) = str_eq a b
same_optional a b = false

unfoldable pub is_same_request : ExecutionRequest → Option String → ExecutionAuditModel → Bool
is_same_request request approval_receipt_id audit =
    str_eq audit.planning_run_id request.planning_run_id
    && str_eq audit.approved_plan_id request.approved_plan_id
    && str_eq audit.jury_decision_id request.jury_evaluation_id
    && str_eq audit.approval_policy_version request.approval_policy_version
    && same_object audit.action request.action
    && same_optional audit.approval_receipt_id approval_receipt_id

abbrev pub instant_or : Option ℕ → ℕ → ℕ
instant_or none default_instant = default_instant
instant_or (some instant) default_instant = instant

unfoldable pub duplicate_outcome : ExecutionAuditModel → GuardedExecutionOutcome
duplicate_outcome audit = record {
  result = record {
    execution_id = audit.id;
    state = ExecutionState.duplicate;
    attempted_at = instant_or audit.attempted_at audit.requested_at;
    completed_at = audit.completed_at;
    external_references = audit.external_references;
    failure_code = audit.failure_code;
    detail = some "duplicate idempotency key";
  };
  decision = "duplicate";
  reasons = [];
  required_investigation = [];
}

-- `_load_plan`, of a row that was found.
unfoldable pub load_plan : CandidatePlanModel → Database → CandidatePlan
load_plan row db = record {
  plan_id = row.id;
  planning_run_id = row.planning_run_id;
  feasibility = row.feasibility;
  procurement = map (λ r. r.line) (keep (λ r. str_eq r.plan_id row.id) db.procurement_lines);
  distribution = map (λ r. r.line) (keep (λ r. str_eq r.plan_id row.id) db.distribution_lines);
  shortage_base_units = row.shortage_base_units;
  metrics = row.metrics;
  solver_version = row.solver_version;
}

-- Whether the organization owns a row with the id.
unfoldable pub owns : String → List Owned → String → Bool
owns organization_id rows id =
    any (λ o. str_eq o.id id && str_eq o.organization_id organization_id) rows

unfoldable pub check_owned : String → List Owned → List String → String → Result (Unit {0})
check_owned organization_id rows ids label = do
  raise_if (not (all (owns organization_id rows) ids))
      (value_error ("plan contains an unknown or cross-organization " <> label))
  ok tt

abbrev pub flatten : List (List String) → List String
flatten [] = []
flatten (xs ∷ xss) = xs ++ flatten xss

abbrev pub lots_of_plan : CandidatePlan → List String
lots_of_plan plan = flatten (map (λ l. l.source_lot_ids) plan.distribution)

-- `_validate_plan_organization`
unfoldable pub validate_plan_organization : Database → CandidatePlan → String → Result (Unit {0})
unfolding check_owned
validate_plan_organization db plan organization_id = do
  check_owned organization_id db.suppliers (map (λ l. l.supplier_id) plan.procurement) "supplier"
  check_owned organization_id db.skus
      (map (λ l. l.sku_id) plan.procurement ++ map (λ l. l.sku_id) plan.distribution) "SKU"
  check_owned organization_id db.warehouses
      (map (λ l. l.destination_warehouse_id) plan.procurement
        ++ map (λ l. l.source_warehouse_id) plan.distribution
        ++ map (λ l. l.destination_warehouse_id) plan.distribution)
      "warehouse"
  check_owned organization_id
      (map (λ l. record { id = l.id; organization_id = l.organization_id }) db.stock.lots)
      (lots_of_plan plan) "inventory lot"

abbrev pub no_gates : List RecordedGate → Bool
no_gates [] = true
no_gates (g ∷ gs) = false

-- `isinstance(score, (int, float)) and score > 0`
abbrev pub is_positive : Option ℕ → Bool
is_positive none = false
is_positive (some score) = ltb 0 score

-- The guards on the recorded Jury decision, up to its state.
unfoldable pub check_decision :
    IntegrityPolicy → PlanningRunModel → CandidatePlan → JuryDecisionModel → Result (Unit {0})
check_decision policy run plan decision = do
  raise_if
      (not (str_eq decision.planning_run_id run.id) || not (str_eq decision.plan_id plan.plan_id))
      (value_error "jury evaluation does not approve this planning run and plan")
  raise_if (not (str_eq decision.policy_version policy.version))
      (value_error "jury evaluation uses an unsupported integrity policy")
  raise_if (no_gates decision.gate_results || any (λ g. not g.passed) decision.gate_results)
      (value_error "jury evaluation has missing or failed hard gates")
  raise_if (not (all (contains (map (λ g. g.gate_code) decision.gate_results)) required_jury_gates))
      (value_error "jury evaluation does not contain every required hard gate")
  raise_if (ltb decision.integrity_score policy.approval_threshold)
      (value_error "jury evaluation is below the approval threshold")
  raise_if (not (is_positive decision.dissent_robustness))
      (value_error "jury evaluation lacks a completed Dissent attestation")
  ok tt

-- The run and the plan of a request that may go on, or an outcome that ends it.
pub data Admission : Type 0 where
  answered : GuardedExecutionOutcome → Admission
  admitted : PlanningRunModel → CandidatePlan → Admission

abbrev pub other_organization : Option OperatorContext → String → Bool
other_organization none organization_id = false
other_organization (some context) organization_id =
    not (str_eq context.organization_id organization_id)

-- The guards on the run and its selected plan.
unfoldable pub check_plan :
    Database → PlanningRunModel → Option OperatorContext → ExecutionRequest → Result CandidatePlan
unfolding load_plan
check_plan db run context request = do
  raise_if (not (str_eq run.status "ready_for_approval"))
      (value_error "planning run is not approved")
  raise_if (other_organization context run.organization_id) (value_error "planning run not found")
  raise_if (not (str_eq request.approval_policy_version "approval-v1"))
      (value_error "unsupported approval policy version")
  row ← or_raise (plan_by_id request.approved_plan_id db) (value_error "approved plan not found")
  raise_if (not (str_eq row.planning_run_id run.id))
      (value_error "approved plan does not belong to the planning run")
  raise_if (not row.selected) (value_error "approved plan was not selected")
  raise_if (is_infeasible row.feasibility) (value_error "infeasible plans cannot be executed")
  validate_plan_organization db (load_plan row db) run.organization_id
  ok (load_plan row db)

-- The guards on a request whose key is new.
unfoldable pub admit_new :
    IntegrityPolicy
    → ℕ
    → Database
    → PlanningRunModel
    → Option OperatorContext
    → ExecutionRequest
    → Result Admission
admit_new policy now db run context request = do
  plan ← check_plan db run context request
  decision ←
      or_raise (decision_by_id request.jury_evaluation_id db)
        (value_error "jury evaluation not found")
  check_decision policy run plan decision
  ok (
      if is_approved decision.final_state
      then admitted run plan
      else answered (
          blocked request now "jury_not_approved" "execution requires an approved jury decision"
            "investigate" ("jury_not_approved" ∷ []) []))

-- `execute`, up to the consumption of the approval.
unfoldable pub admit :
    IntegrityPolicy
    → Bool
    → ℕ
    → Database
    → Option OperatorContext
    → Option String
    → ExecutionRequest
    → Result Admission
admit policy requires_approval now db context approval_receipt_id request = do
  check_approval_arguments requires_approval context approval_receipt_id
  run ← or_raise (run_by_id request.planning_run_id db) (value_error "planning run not found")
  elim (audit_for run.organization_id request.idempotency_key db.audits) [
    | none ↦ admit_new policy now db run context request
    | some audit ↦
        if is_same_request request approval_receipt_id audit
        then ok (answered (duplicate_outcome audit))
        else raise (value_error "idempotency key was reused for a different execution request")
  ]
