-- ===== src/Execution/Guarded/Samples.antt =====
-- An execution that is approved, reserves one line and sends one write.
use civitas.Prelude.{true, none, some, [], ◌∷◌, map, String, ◌<>◌, pos, ok, Result}
use civitas.Contracts.{
  FeasibilityStatus, CandidatePlan, ProcurementLine, DistributionLine, JuryState, end,
}
use civitas.Approval.{ApprovedTotals, OperatorContext, ApprovalReceiptModel, Ledger}
use civitas.Inventory.{ExpiryKind, InventoryStatus, InventoryLot, Stock, receipt_of}
use civitas.Inventory.Reserving.{Reservation, movement_of, reservation_of}
use civitas.Evidence.Jury.Samples.{policy, freshness, sources, claim, evidence}
use civitas.Execution.{ExecutionState}
use civitas.Execution.Guarded.{
  PlanningRunModel, CandidatePlanModel, JuryDecisionModel, Database, RefreshBundle,
  GuardedExecutionOutcome,
}
use civitas.Execution.Guarded.Admission.{required_jury_gates}
use civitas.Execution.Guarded.Ports.{McpToolResult, Configuration, Call, Ports}
use civitas.Execution.Guarded.Approvals.{close, outcome_of}
use civitas.Execution.Guarded.Writes.{write_row, reservation_for}
use civitas.Execution.Guarded.Service.{World}

abbrev pub procurement_line : ProcurementLine
procurement_line = record {
  supplier_id = "acme";
  sku_id = "milk";
  destination_warehouse_id = "north";
  arrival_bucket_start = 200000000000;
  quantity = record { value = 5; unit = "unit" };
  landed_cost = 60;
}

abbrev pub distribution_line : DistributionLine
distribution_line = record {
  sku_id = "milk";
  source_warehouse_id = "north";
  destination_warehouse_id = "south";
  departure_bucket_start = 100000000000;
  arrival_bucket_start = 200000000000;
  quantity = record { value = 3; unit = "unit" };
  source_lot_ids = "lot-1" ∷ [];
}

abbrev pub plan_row : CandidatePlanModel
plan_row = record {
  id = "plan-a";
  planning_run_id = "run-1";
  feasibility = FeasibilityStatus.fully_feasible;
  shortage_base_units = 0;
  metrics = [];
  solver_version = "civitas-cp-sat-v1";
  selected = true;
}

abbrev pub run : PlanningRunModel
run = record { id = "run-1"; organization_id = "org"; status = "ready_for_approval" }

abbrev pub plan : CandidatePlan
plan = record {
  plan_id = "plan-a";
  planning_run_id = "run-1";
  feasibility = FeasibilityStatus.fully_feasible;
  procurement = procurement_line ∷ [];
  distribution = distribution_line ∷ [];
  shortage_base_units = 0;
  metrics = [];
  solver_version = "civitas-cp-sat-v1";
}

abbrev pub decision : JuryDecisionModel
decision = record {
  id = "jury-1";
  planning_run_id = "run-1";
  plan_id = "plan-a";
  policy_version = "decision-integrity-v1";
  integrity_score = 9000;
  dissent_robustness = some 8000;
  gate_results = map (λ code. record { gate_code = code; passed = true }) required_jury_gates;
  final_state = JuryState.approve;
}

abbrev pub lot : InventoryLot
lot = record {
  id = "lot-1";
  organization_id = "org";
  sku_id = "milk";
  warehouse_id = "north";
  received_at = 1;
  manufactured_at = none;
  expires_at = 900;
  expiry_kind = ExpiryKind.use_by;
  initial_quantity = 8;
  unit_of_measure = "unit";
  status = InventoryStatus.available;
  source_reference = none;
}

abbrev pub totals : ApprovedTotals
totals = record {
  currency = "USD";
  maximum_landed_cost = 60;
  maximum_procurement_lines = 1;
  maximum_distribution_lines = 1;
}

abbrev pub receipt : ApprovalReceiptModel
receipt = record {
  id = "receipt-1";
  challenge_id = "challenge-1";
  organization_id = "org";
  operator_id = "alice";
  planning_run_id = "run-1";
  selected_plan_hash = "hash of plan-a";
  policy_version = "approval-v1";
  approved_totals = totals;
  approved_at = 20;
  expires_at = 110;
  consumed_at = none;
  consumed_idempotency_key = none;
}

abbrev pub spent : Ledger
spent = record {
  challenges = [];
  receipts =
      record receipt { consumed_at = some 100; consumed_idempotency_key = some "key-1" } ∷ [];
}

abbrev pub stock : Stock
stock = record {
  lots = lot ∷ [];
  movements = receipt_of lot "m1" "receipt-1" "order-1" ∷ [];
  reservations = [];
}

abbrev pub database : Database
database = record {
  planning_runs =
      record { id = "run-1"; organization_id = "org"; status = "ready_for_approval" } ∷ [];
  candidate_plans = plan_row ∷ [];
  procurement_lines = record { plan_id = "plan-a"; line = procurement_line } ∷ [];
  distribution_lines = record { plan_id = "plan-a"; line = distribution_line } ∷ [];
  jury_decisions = decision ∷ [];
  suppliers = record { id = "acme"; organization_id = "org" } ∷ [];
  skus = record { id = "milk"; organization_id = "org" } ∷ [];
  warehouses =
      record { id = "north"; organization_id = "org" }
      ∷ record { id = "south"; organization_id = "org" }
      ∷ [];
  stock = record {
    lots = lot ∷ [];
    movements = receipt_of lot "m1" "receipt-1" "order-1" ∷ [];
    reservations = [];
  };
  approvals = record { challenges = []; receipts = receipt ∷ [] };
  audits = [];
  events = [];
  provider_writes = [];
}

abbrev pub operator : OperatorContext
operator = record {
  organization_id = "org";
  operator_id = "alice";
  authentication_subject = "alice@org";
  authenticated_at = 0;
  roles = [];
  correlation_id = none;
}

abbrev pub call : Call
call = record {
  request = record {
    execution_id = "execution-1";
    planning_run_id = "run-1";
    approved_plan_id = "plan-a";
    jury_evaluation_id = "jury-1";
    idempotency_key = "key-1";
    approval_policy_version = "approval-v1";
    requested_at = 90;
    action = end;
  };
  context = some operator;
  approval_receipt_id = some "receipt-1";
  write_mcp = some (record {
    execution_context = some (record {
      execution_id = "execution-1";
      approval_receipt_id = "receipt-1";
      approved_plan_hash = "hash of plan-a";
    });
  });
}

abbrev pub configuration : Configuration
configuration = record {
  requires_approval = true;
  policy = policy;
  freshness = freshness;
  sources = sources;
  selected_plan_hash = λ plan. "hash of " <> plan.plan_id;
}

abbrev pub refreshed : RefreshBundle
refreshed = record {
  claims = claim ∷ [];
  evidence = evidence ∷ [];
  observed_unit_prices = ("acme:milk:north", pos 12) ∷ [];
  constraints =
      ("offer:acme:milk:north:available", pos 10)
      ∷ ("lead:acme:milk:north:days", pos 1)
      ∷ ("warehouse:south:milk", pos 10)
      ∷ ("transport:north:south:milk", pos 10)
      ∷ [];
}

abbrev pub accepts : String → Result McpToolResult
accepts key = ok (record { succeeded = true; payload = end; error_code = none })

abbrev pub ports : Ports
ports = record {
  rejected_at = 100;
  consumed_at = 100;
  attempted_at = 100;
  assessed_at = 100;
  reserved_at = λ line. 100;
  write_attempted_at = λ key. 100;
  write_completed_at = λ key. 100;
  finished_at = 100;
  refresh = ok refreshed;
  provider = accepts;
  new_id = λ name. name;
  show = λ n. "number";
  message = λ e. "failure";
}

abbrev pub world : World
world = record { database = database; calls = [] }

abbrev pub taken : Reservation
taken = reservation_for ports "org" call.request 0 distribution_line

abbrev pub reserved_stock : Stock
reserved_stock = record {
  lots = stock.lots;
  movements =
      movement_of ports.new_id taken (record { lot_id = "lot-1"; quantity = 3; expires_at = 900 })
      ∷ stock.movements;
  reservations = reservation_of ports.new_id taken "unit" ∷ [];
}

abbrev pub outcome : GuardedExecutionOutcome
outcome = outcome_of ports call ExecutionState.succeeded [] none none "execute" [] []

abbrev pub ready_database : Database
ready_database = record database { approvals = spent; stock = reserved_stock }

abbrev pub after : Database
after =
    close ports call "org" ExecutionState.succeeded 100 none none []
      (some "all provider writes completed")
      (record ready_database {
        provider_writes =
            write_row ports "org" call.request plan "acme" ExecutionState.succeeded 100 none none
            ∷ [];
      })
