-- ===== src/Execution/Tests.antt =====
-- The execution service on one order that is sent twice.
use civitas.Prelude.{
  ◌≤◌, ◌≡◌, ◌≢◌, refl, ap, none, some, [], ◌∷◌, count, ok, lookup, insert, arith, pos, unique,
  subset, length,
}
use civitas.Contracts.{CandidatePlan, ProcurementLine, str, end, field}
use civitas.Workflow.Samples.{plan}
use civitas.Execution.{
  ExecutionState, ExecutionRequest, ExecutionResult, RevalidationSnapshot, Answers, execute, settle,
  attempt, commit_writes, ensure_unchanged, check_lead_times, check_capacities, check_lots,
  references_of,
}
use civitas.Execution.AtMostOnce.{Call, run_calls, new_service, writes_at_most_once}
use civitas.Execution.Replay.{call_on, replay_keeps_references}
use civitas.Execution.Freshness.{Supports, write_was_current}

abbrev line : ProcurementLine
line = record {
  supplier_id = "acme";
  sku_id = "sku";
  destination_warehouse_id = "north";
  arrival_bucket_start = 10;
  quantity = record { value = 5; unit = "unit" };
  landed_cost = 50;
}

abbrev order_plan : CandidatePlan
order_plan = record plan { procurement = line ∷ [] }

abbrev snapshot : RevalidationSnapshot
snapshot = record {
  inventory_lot_ids = [];
  offer_ids = "offer-1" ∷ [];
  lead_time_days = ("acme", pos 3) ∷ [];
  warehouse_capacity_units = ("north", pos 40) ∷ [];
}

abbrev answers : Answers
answers = record {
  attempted_at = 1;
  completed_at = 2;
  revalidated = ok snapshot;
  order = ok (field "order_id" (str "order-1") end);
}

abbrev request : ExecutionRequest
request = record {
  execution_id = "execution-1";
  planning_run_id = "run-1";
  approved_plan_id = "plan-a";
  jury_evaluation_id = "jury-1";
  idempotency_key = "key-1";
  approval_policy_version = "v1";
  requested_at = 0;
  action = end;
}

abbrev call : Call
call = record {
  answers = answers;
  request = request;
  approved_plan = order_plan;
  expected_snapshot = snapshot;
}

sent : (run_calls (call ∷ call ∷ []) new_service).writes ≡ "key-1" ∷ []
unfolding run_calls execute settle attempt commit_writes ensure_unchanged check_lead_times
    check_capacities check_lots lookup subset unique insert
sent = refl

writes_at_most_once_example : count "key-1" (run_calls (call ∷ call ∷ []) new_service).writes ≤ 1
writes_at_most_once_example = writes_at_most_once (call ∷ call ∷ []) "key-1"

moves : (execute answers request order_plan snapshot new_service).1.writes ≢ new_service.writes
unfolding execute settle attempt commit_writes ensure_unchanged check_lead_times check_capacities
    check_lots lookup subset unique
moves h = let counted : 1 ≡ 0 = ap length h in absurd (omega (arith, counted))

write_was_current_example :
    (refreshed : RevalidationSnapshot) × (lookup "key-1" new_service.results_by_key ≡ none)
    × (answers.revalidated ≡ ok refreshed)
    × Supports snapshot refreshed order_plan
write_was_current_example = write_was_current answers request order_plan snapshot new_service moves

abbrev bought : ExecutionResult
bought = record {
  execution_id = "execution-1";
  state = ExecutionState.succeeded;
  attempted_at = 1;
  completed_at = some 2;
  external_references = "order-1" ∷ [];
  failure_code = none;
  detail = some "Execution committed after freshness revalidation.";
}

buys : (call_on call new_service).0 ≡ ok bought
unfolding execute settle attempt commit_writes ensure_unchanged check_lead_times check_capacities
    check_lots lookup subset unique references_of
buys = refl

-- Another key, sent in between.
abbrev other_call : Call
other_call = record call { request = record request { idempotency_key = "key-2" } }

replay_keeps_references_example :
    let later = run_calls (other_call ∷ []) (call_on call new_service).1 in
    (twin : ExecutionResult) × ((call_on call later).0 ≡ ok twin)
    × (twin.state ≡ ExecutionState.duplicate)
    × (twin.external_references ≡ "order-1" ∷ [])
    × ((call_on call later).1.writes ≡ later.writes)
replay_keeps_references_example =
    replay_keeps_references call (other_call ∷ []) call new_service buys refl
