-- ===== src/Execution.antt =====
-- execution/service.py: GuardedExecutionService. What the tool server and the clock answer to one
-- call of `execute` is a record; the keys of the writes that the server answered are kept, newest
-- first, beside the service's own state. A call ends before the next one begins: calls that overlap
-- at an `await` are not modelled.
pub mod AtMostOnce
pub mod Cases
pub mod Freshness
pub mod Guarded
pub mod Replay
mod Tests
use civitas.Prelude.{
  ℕ, ◌==◌, Bool, true, false, not, ◌&&◌, Option, none, some, List, [], ◌∷◌, map, String, ◌<>◌,
  str_eq, subset, unique, ℤ, pos, negsuc, Dict, lookup, insert, Error, freshness_revalidation,
  Result, ok, raise, raise_if, ◌>>=◌, ◌>>◌, if◌then◌else◌,
}
use civitas.Contracts.{CandidatePlan, DistributionLine, JsonObject, JsonValue, get, str}

pub data ExecutionState : Type 0 where
  pending succeeded failed compensation_required compensated duplicate : ExecutionState

pub record ExecutionRequest : Type 0 where
  pub execution_id : String
  pub planning_run_id : String
  pub approved_plan_id : String
  pub jury_evaluation_id : String
  pub idempotency_key : String
  pub approval_policy_version : String
  pub requested_at : ℕ
  pub action : JsonObject

pub record ExecutionResult : Type 0 where
  pub execution_id : String
  pub state : ExecutionState
  pub attempted_at : ℕ
  pub completed_at : Option ℕ
  pub external_references : List String
  pub failure_code : Option String
  pub detail : Option String

pub record RevalidationSnapshot : Type 0 where
  pub inventory_lot_ids : List String
  pub offer_ids : List String
  pub lead_time_days : Dict ℤ
  pub warehouse_capacity_units : Dict ℤ

-- The answers to one call: the two readings of the clock, what the reads of `_revalidate` gave,
-- and the payload of the write.
pub record Answers : Type 0 where
  pub attempted_at : ℕ
  pub completed_at : ℕ
  pub revalidated : Result RevalidationSnapshot
  pub order : Result JsonObject

pub record Service : Type 0 where
  pub results_by_key : Dict ExecutionResult
  pub writes : List String

-- `expected.get(k) == actual.get(k)` on the answers
abbrev pub same_int : Option ℤ → Option ℤ → Bool
same_int none none = true
same_int (some (pos n)) (some (pos m)) = n == m
same_int (some (negsuc n)) (some (negsuc m)) = n == m
same_int a b = false

unfoldable pub check_lead_times :
    RevalidationSnapshot → RevalidationSnapshot → List String → Result (Unit {0})
check_lead_times expected actual [] = ok tt
check_lead_times expected actual (supplier_id ∷ ids) =
    let rest = check_lead_times expected actual ids in
    if same_int (lookup supplier_id expected.lead_time_days)
      (lookup supplier_id actual.lead_time_days)
    then rest
    else raise (
        freshness_revalidation
          ("Lead time changed for " <> supplier_id <> "; approved action is no longer current."))

unfoldable pub check_capacities :
    RevalidationSnapshot → RevalidationSnapshot → List String → Result (Unit {0})
check_capacities expected actual [] = ok tt
check_capacities expected actual (warehouse_id ∷ ids) =
    let rest = check_capacities expected actual ids in
    if same_int (lookup warehouse_id expected.warehouse_capacity_units)
      (lookup warehouse_id actual.warehouse_capacity_units)
    then rest
    else raise (
        freshness_revalidation
          ("Warehouse capacity changed for " <> warehouse_id <> "; replan before execution."))

unfoldable pub check_lots : RevalidationSnapshot → List DistributionLine → Result (Unit {0})
check_lots actual [] = ok tt
check_lots actual (line ∷ lines) =
    let rest = check_lots actual lines in
    if subset line.source_lot_ids actual.inventory_lot_ids
    then rest
    else raise (
        freshness_revalidation
          "A source lot referenced by the approved transfer is no longer available.")

-- `_ensure_unchanged`
unfoldable pub ensure_unchanged :
    RevalidationSnapshot → RevalidationSnapshot → CandidatePlan → Result (Unit {0})
ensure_unchanged expected actual approved_plan = do
  raise_if (not (subset expected.offer_ids actual.offer_ids)) (
      freshness_revalidation
        "Supplier offers changed since approval; execution requires investigation.")
  check_lead_times expected actual (unique (map (λ l. l.supplier_id) approved_plan.procurement))
  check_capacities expected actual
      (unique (map (λ l. l.destination_warehouse_id) approved_plan.procurement))
  check_lots actual approved_plan.distribution

-- The reference in the payload of an order.
unfoldable pub references_of : JsonObject → List String
references_of payload = elim (get payload "order_id") [
  | none ↦ []
  | some value ↦ elim value [ str order_id ↦ order_id ∷ [] | _ ↦ [] ]
]

-- `_commit_writes`: a plan without procurement lines writes nothing.
unfoldable pub commit_writes :
    Answers → ExecutionRequest → CandidatePlan → List String → Result (List String) × List String
commit_writes answers request approved_plan writes = elim approved_plan.procurement [
  | [] ↦ (ok [], writes)
  | line ∷ lines ↦ elim answers.order [
    | raise e ↦ (raise e, writes)
    | ok payload ↦ (ok (references_of payload), request.idempotency_key ∷ writes)
  ]
]

-- The body of the `try`.
unfoldable pub attempt :
    Answers
    → ExecutionRequest
    → CandidatePlan
    → RevalidationSnapshot
    → List String
    → Result (List String) × List String
attempt answers request approved_plan expected_snapshot writes = elim answers.revalidated [
  | raise e ↦ (raise e, writes)
  | ok refreshed ↦ elim (ensure_unchanged expected_snapshot refreshed approved_plan) [
    | raise e ↦ (raise e, writes)
    | ok t ↦ commit_writes answers request approved_plan writes
  ]
]

abbrev pub result_of :
    Answers
    → ExecutionRequest
    → ExecutionState
    → List String
    → Option String
    → String
    → ExecutionResult
result_of answers request state references failure_code detail = record {
  execution_id = request.execution_id;
  state = state;
  attempted_at = answers.attempted_at;
  completed_at = some answers.completed_at;
  external_references = references;
  failure_code = failure_code;
  detail = some detail;
}

-- The result of a failed revalidation.
abbrev pub failed_of : Answers → ExecutionRequest → String → ExecutionResult
failed_of answers request message =
    result_of answers request ExecutionState.failed [] (some "freshness_revalidation_failed")
      message

-- `except FreshnessRevalidationError as exc: … str(exc)`
abbrev pub freshness_message : Error → Option String
freshness_message (freshness_revalidation message) = some message
freshness_message e = none

-- The handler: a failed revalidation is a result, any other exception is raised.
unfoldable pub settle :
    Answers
    → ExecutionRequest
    → Dict ExecutionResult
    → Result (List String) × List String
    → Result ExecutionResult × Service
settle answers request results (ok references, writes) =
    let succeeded =
      result_of answers request ExecutionState.succeeded references none
        "Execution committed after freshness revalidation." in
    (
      ok succeeded,
      record { results_by_key = insert request.idempotency_key succeeded results; writes = writes },
    )
settle answers request results (raise e, writes) = elim (freshness_message e) [
  | none ↦ (raise e, record { results_by_key = results; writes = writes })
  | some message ↦
      let failed = failed_of answers request message in
      (
        ok failed,
        record { results_by_key = insert request.idempotency_key failed results; writes = writes },
      )
]

-- The result of a key that was used before.
unfoldable pub duplicate_of : Answers → ExecutionRequest → ExecutionResult → ExecutionResult
duplicate_of answers request existing = record {
  execution_id = request.execution_id;
  state = ExecutionState.duplicate;
  attempted_at = answers.attempted_at;
  completed_at = some answers.attempted_at;
  external_references = existing.external_references;
  failure_code = none;
  detail = some "Duplicate idempotency key reused; prior execution preserved.";
}

unfoldable pub execute :
    Answers
    → ExecutionRequest
    → CandidatePlan
    → RevalidationSnapshot
    → Service
    → Result ExecutionResult × Service
execute answers request approved_plan expected_snapshot s =
    elim (lookup request.idempotency_key s.results_by_key) [
      | some existing ↦
          let again = duplicate_of answers request existing in
          (
            ok again,
            record s { results_by_key = insert request.idempotency_key again s.results_by_key },
          )
      | none ↦
          settle answers request s.results_by_key
            (attempt answers request approved_plan expected_snapshot s.writes)
    ]
