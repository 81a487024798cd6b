-- ===== src/Execution/Guarded/Approvals.antt =====
-- execution/guarded.py: the consumption of the approval, the audit rows and the outcomes.
use civitas.Prelude.{
  ℕ, false, not, ◌||◌, Option, none, some, is_some, List, ◌∷◌, String, str_eq, length, lookup,
  value_error, runtime_error, Result, ok, raise, raise_if, or_raise, ◌>>=◌, ◌>>◌, if◌then◌else◌,
}
use civitas.Contracts.{CandidatePlan}
use civitas.Approval.{ApprovedTotals, Ledger}
use civitas.Approval.Service.{consume_for_execution}
use civitas.Execution.{ExecutionState}
use civitas.Execution.Guarded.{
  PlanningRunModel, ExecutionAuditModel, ExecutionAuditEventModel, Database,
  GuardedExecutionOutcome,
}
use civitas.Execution.Guarded.Readiness.{approved_total}
use civitas.Execution.Guarded.Ports.{Configuration, Call, Connection, Ports}

-- `str(plan.metrics.get("currency", "USD"))`
abbrev pub currency_of : (ℕ → String) → Option ℕ → String
currency_of show none = "USD"
currency_of show (some metric) = show metric

-- `approved_totals` of application/plan_identity.py
unfoldable pub approved_totals : (ℕ → String) → CandidatePlan → ApprovedTotals
approved_totals show plan = record {
  currency = currency_of show (lookup "currency" plan.metrics);
  maximum_landed_cost = approved_total plan.procurement;
  maximum_procurement_lines = length plan.procurement;
  maximum_distribution_lines = length plan.distribution;
}

-- `_ensure_execution_connection_binding`
unfoldable pub ensure_connection_binding :
    Connection → String → Option String → String → Result (Unit {0})
ensure_connection_binding connection execution_id approval_receipt_id selected_hash =
    elim connection.execution_context [
      | none ↦ raise (value_error "execution provider connection is not approval-bound")
      | some binding ↦
          raise_if
            (not (str_eq binding.execution_id execution_id)
              || not (elim approval_receipt_id [
                | none ↦ false
                | some receipt_id ↦ str_eq binding.approval_receipt_id receipt_id
              ])
              || not (str_eq binding.approved_plan_hash selected_hash))
            (value_error "execution provider connection binding does not match approved action")
    ]

-- The consumption of the approval receipt, where the service has an approval service, and the check
-- of the connection that a caller gave.
unfoldable pub consume_approval :
    Configuration → Ports → Call → PlanningRunModel → CandidatePlan → Ledger → Result Ledger
unfolding approved_totals
consume_approval configuration ports call run plan ledger =
    if not configuration.requires_approval then ok ledger else do
      context ← or_raise call.context (runtime_error "AssertionError")
      receipt_id ← or_raise call.approval_receipt_id (runtime_error "AssertionError")
      consumed ←
          consume_for_execution ports.consumed_at context receipt_id call.request.idempotency_key
            (some run.id) (configuration.selected_plan_hash plan)
            call.request.approval_policy_version (approved_totals ports.show plan) ledger
      raise_if (not (is_some call.write_mcp))
          (value_error "approval-bound execution provider connection is required")
      ok consumed.1

unfoldable pub check_connection : Configuration → Call → CandidatePlan → Result (Unit {0})
unfolding ensure_connection_binding
check_connection configuration call plan = elim call.write_mcp [
  | none ↦ ok tt
  | some connection ↦
      ensure_connection_binding connection call.request.execution_id call.approval_receipt_id
        (configuration.selected_plan_hash plan)
]

-- The audit of the call in its last state.
unfoldable pub audit_of :
    Ports
    → Call
    → String
    → ExecutionState
    → ℕ
    → Option String
    → Option String
    → List String
    → ExecutionAuditModel
audit_of ports call organization_id state completed_at failure_code compensation references =
    record {
      id = call.request.execution_id;
      organization_id = organization_id;
      planning_run_id = call.request.planning_run_id;
      approved_plan_id = call.request.approved_plan_id;
      jury_decision_id = call.request.jury_evaluation_id;
      approval_receipt_id = call.approval_receipt_id;
      idempotency_key = call.request.idempotency_key;
      approval_policy_version = call.request.approval_policy_version;
      action = call.request.action;
      state = state;
      requested_at = call.request.requested_at;
      attempted_at = some ports.attempted_at;
      completed_at = some completed_at;
      failure_code = failure_code;
      compensation_status = compensation;
      external_references = references;
    }

-- `_record_event`
unfoldable pub record_event :
    Ports → Call → ℕ → ℕ → ExecutionState → Option String → Option String → ExecutionAuditEventModel
record_event ports call sequence occurred_at state reason_code detail = record {
  id = ports.new_id (ports.show sequence);
  execution_id = call.request.execution_id;
  sequence = sequence;
  occurred_at = occurred_at;
  state = state;
  reason_code = reason_code;
  detail = detail;
}

-- The rows that the transaction leaves when the execution ends in the state.
unfoldable pub close :
    Ports
    → Call
    → String
    → ExecutionState
    → ℕ
    → Option String
    → Option String
    → List String
    → Option String
    → Database
    → Database
unfolding audit_of record_event
close ports call organization_id state completed_at failure_code compensation references detail db =
    record db {
      audits =
          audit_of ports call organization_id state completed_at failure_code compensation
            references
          ∷ db.audits;
      events =
          record_event ports call 2 completed_at state failure_code detail
          ∷ record_event ports call 1 ports.attempted_at ExecutionState.pending none
              (some "approval bound; freshness revalidation started")
          ∷ db.events;
    }

-- A result of the call that ends with the rows of `close`.
unfoldable pub outcome_of :
    Ports
    → Call
    → ExecutionState
    → List String
    → Option String
    → Option String
    → String
    → List String
    → List String
    → GuardedExecutionOutcome
outcome_of ports call state references failure_code detail decision reasons required = record {
  result = record {
    execution_id = call.request.execution_id;
    state = state;
    attempted_at = ports.attempted_at;
    completed_at = some ports.finished_at;
    external_references = references;
    failure_code = failure_code;
    detail = detail;
  };
  decision = decision;
  reasons = reasons;
  required_investigation = required;
}
