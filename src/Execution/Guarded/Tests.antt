-- ===== src/Execution/Guarded/Tests.antt =====
-- An execution that succeeds, step by step, and is asked for again.
use civitas.Prelude.{
  insufficient_inventory, arith, sym, ap, ◌∙◌, ℕ, ◌≡◌, ◌≢◌, ◌⊎◌, refl, true, false, none, some,
  List, [], ◌∷◌, map, String, ◌<>◌, pos, ok, Result, Error,
}
use civitas.Contracts.{CandidatePlan, DistributionLine, same_object}
use civitas.Approval.{ApprovedTotals, OperatorContext, ApprovalReceiptModel, Ledger}
use civitas.Inventory.{ExpiryKind, InventoryStatus, InventoryLot, Stock, receipt_of}
use civitas.Inventory.Reserving.{Reservation, movement_of, reservation_of}
use civitas.Evidence.Jury.Samples.{policy, freshness, sources}
use civitas.Execution.{ExecutionState}
use civitas.Execution.Guarded.{
  PlanningRunModel, CandidatePlanModel, JuryDecisionModel, Database, RefreshBundle,
  GuardedExecutionOutcome,
}
use civitas.Execution.Guarded.Admission.{
  admit, admitted, check_approval_arguments, audit_for, admit_new, check_plan,
  validate_plan_organization, owns, load_plan, check_decision,
}
use civitas.Execution.Guarded.Readiness.{assess_readiness, ready}
use civitas.Execution.Guarded.Approvals.{consume_approval, check_connection, close}
use civitas.Execution.Guarded.Writes.{
  reserve_lines, all_reserved, refused, write_groups, write_answer,
}
use civitas.Execution.Guarded.Service.{revalidate, send_writes, reserve_and_send, perform, execute}
use civitas.Execution.Guarded.Recorded.{IsRecorded, execute_records_writes}
use civitas.Execution.Guarded.History.{IsConsistent, run_calls, run_calls-IsConsistent}
use civitas.Execution.Guarded.Refused.{RefusedAt, refused_keeps_reservations}
use civitas.Execution.Guarded.Replay.{execute_again}
use civitas.Execution.Guarded.Sent.{IsCleared, execute-IsCleared}
use civitas.Execution.Guarded.Samples.{
  distribution_line, run, plan, spent, stock, database, operator, call, configuration, refreshed,
  ports, world, reserved_stock, outcome, ready_database, after,
}

admits :
    admit policy true 100 database (some operator) (some "receipt-1") call.request
    ≡ ok (admitted run plan)
unfolding admit check_approval_arguments audit_for admit_new check_plan validate_plan_organization
    owns load_plan check_decision civitas.Prelude.contains
admits = refl

is_ready :
    assess_readiness sources freshness policy call.request plan refreshed "jury" 100
    ≡ ok (ready call.request 100)
unfolding assess_readiness civitas.Execution.Guarded.Readiness.stale_claim_ids
    civitas.Prelude.lookup civitas.Execution.Guarded.Readiness.assess_procurement
    civitas.Execution.Guarded.Readiness.assess_distribution civitas.Prelude.◌+ℤ◌
    civitas.Execution.Guarded.Readiness.approved_total civitas.Evidence.Dissent.make_plan
    civitas.Prelude.is_blank civitas.Evidence.Dissent.record_fresh_retrieval
    civitas.Evidence.Dissent.record_plan civitas.Evidence.Dissent.compare_with_existing_graph
    civitas.Evidence.Jury.Evaluation.evaluate ready civitas.Evidence.Jury.state_of
    civitas.Evidence.Jury.evaluate_gates civitas.Evidence.Jury.Evaluation.scoped
    civitas.Evidence.Jury.unresolved_high civitas.Evidence.Jury.Integrity.calculate
    civitas.Evidence.Dissent.completed civitas.Evidence.Dissent.robustness_score
    civitas.Evidence.Jury.Evaluation.evaluation
    civitas.Evidence.Jury.Evaluation.required_investigation
    civitas.Evidence.Jury.Integrity.claim_by_id civitas.Evidence.Jury.Integrity.claim_is_fresh
    civitas.Evidence.Jury.Integrity.is_fresh civitas.Evidence.Jury.Integrity.provenance_fields
    civitas.Evidence.Jury.Integrity.provenance_score
    civitas.Evidence.Jury.Integrity.relevant_evidence civitas.Evidence.Jury.Integrity.source_groups
    civitas.Evidence.Jury.Integrity.source_type civitas.Evidence.Jury.critical_ids
    civitas.Evidence.Jury.dissent_failed civitas.Evidence.Jury.externally_supported
    civitas.Evidence.Jury.failed_reasons civitas.Evidence.Jury.gate civitas.Evidence.Jury.has_reason
    civitas.Evidence.Jury.invalidated civitas.Evidence.Jury.reason_index
    civitas.Evidence.Jury.unique_reason_codes civitas.Evidence.Jury.unique_reasons_from
    civitas.Evidence.Scores.average civitas.Evidence.Scores.percentage
    civitas.Evidence.Scores.rounded civitas.Evidence.Scores.weighted_score
    civitas.Execution.Guarded.Readiness.assess_line civitas.Execution.Guarded.Readiness.blocked
    civitas.Execution.Guarded.Readiness.is_stale civitas.Execution.Guarded.Readiness.rerun_jury
    civitas.Execution.Guarded.Readiness.revalidation_dissent
    civitas.Execution.Guarded.Readiness.ttl_for civitas.Prelude.contains civitas.Prelude.intersects
    civitas.Prelude.unique civitas.Prelude.sorted
is_ready = refl

consumes : consume_approval configuration ports call run plan database.approvals ≡ ok spent
unfolding consume_approval civitas.Approval.Service.consume_for_execution civitas.Prelude.lookup
    civitas.Execution.Guarded.Readiness.approved_total
consumes = refl

reserves :
    reserve_lines ports "org" call.request 0 plan.distribution stock
    ≡ ok (all_reserved reserved_stock)
unfolding reserve_lines civitas.Inventory.Reserving.reserve_fefo civitas.Inventory.fefo_order
    civitas.Inventory.is_eligible civitas.Prelude.excess civitas.Inventory.balance_of
    civitas.Inventory.sum_of civitas.Prelude.◌+ℤ◌ civitas.Inventory.Reserving.allocate
reserves = refl

binds : check_connection configuration call plan ≡ ok tt
unfolding check_connection
binds = refl

validates :
    revalidate configuration ports call run plan database ≡ ok (spent, ready call.request 100)
unfolding revalidate
validates = rw (consumes, binds, is_ready, revalidate) refl

writes :
    send_writes ports call run plan ready_database [] ≡ (ok (outcome, after), "key-1:acme" ∷ [])
unfolding send_writes write_groups write_answer civitas.Prelude.unique
    civitas.Execution.references_of
writes = refl

performs :
    perform configuration ports call run plan database [] ≡ (ok (outcome, after), "key-1:acme" ∷ [])
unfolding perform ready
performs = rw (validates, perform, reserves, reserve_and_send, writes) refl

executes :
    execute configuration ports call world
    ≡ (ok outcome, record { database = after; calls = "key-1:acme" ∷ [] })
unfolding execute
executes = rw (admits, performs, execute) refl

was_sent : (execute configuration ports call world).1.calls ≢ []
was_sent none_sent =
    let cons : "key-1:acme" ∷ [] ≡ [] = sym (ap (λ o. o.1.calls) executes) ∙ none_sent in
    absurd (ground arith)

was_audited : (execute configuration ports call world).1.database.audits ≢ []
unfolding close
was_audited none_audited =
    let cons : after.audits ≡ [] = sym (ap (λ o. o.1.database.audits) executes) ∙ none_audited in
    absurd (ground arith)

returns : (execute configuration ports call world).0 ≡ ok outcome
returns = ap (λ o. o.0) executes

execute-IsCleared_example : IsCleared configuration ports call database
execute-IsCleared_example = execute-IsCleared configuration ports call world was_sent

execute_records_writes_example :
    ((execute configuration ports call world).1 ≡ world)
    ⊎ IsRecorded call.request outcome database
        (execute configuration ports call world).1.database
        []
        (execute configuration ports call world).1.calls
execute_records_writes_example =
    execute_records_writes configuration ports call world outcome returns

run_calls-IsConsistent_example :
    IsConsistent (run_calls configuration ((ports, call) ∷ (ports, call) ∷ []) world).database
run_calls-IsConsistent_example =
    run_calls-IsConsistent configuration ((ports, call) ∷ (ports, call) ∷ []) world
      (record { events = tt; distinct = tt })

whole : same_object call.request.action call.request.action ≡ true
unfolding same_object
whole = refl

execute_again_example :
    (made : GuardedExecutionOutcome) × (twin : GuardedExecutionOutcome) × ((execute configuration
        ports call world).0
      ≡ ok made)
    × (execute configuration ports
          (record call { write_mcp = none })
          (run_calls configuration ((ports, call) ∷ []) (execute configuration ports call world).1)
        ≡ (
          ok twin,
          run_calls configuration ((ports, call) ∷ []) (execute configuration ports call world).1,
        ))
    × (twin.result.state ≡ ExecutionState.duplicate)
    × (twin.result.external_references ≡ made.result.external_references)
    × (twin.result.failure_code ≡ made.result.failure_code)
execute_again_example =
    execute_again configuration ports ports call none ((ports, call) ∷ []) world was_audited whole

abbrev too_much : DistributionLine
too_much = record distribution_line {
  destination_warehouse_id = "west";
  quantity = record { value = 100; unit = "unit" };
}

abbrev greedy : CandidatePlan
greedy = record plan { distribution = distribution_line ∷ too_much ∷ [] }

refuses :
    reserve_lines ports "org" call.request 0 greedy.distribution stock
    ≡ ok (refused (insufficient_inventory 100 5) reserved_stock)
unfolding reserve_lines civitas.Inventory.Reserving.reserve_fefo civitas.Inventory.fefo_order
    civitas.Inventory.is_eligible civitas.Prelude.excess civitas.Inventory.balance_of
    civitas.Inventory.sum_of civitas.Prelude.◌+ℤ◌ civitas.Inventory.Reserving.allocate
refuses = refl

refused_keeps_reservations_example :
    (failed : GuardedExecutionOutcome) × (db' : Database) × (reserve_and_send ports call run greedy
        database []
      ≡ (ok (failed, db'), []))
    × (failed.result.state ≡ ExecutionState.failed)
    × (failed.result.failure_code ≡ some "inventory_reservation_failed")
    × (db'.stock ≡ reserved_stock)
    × RefusedAt ports "org" call.request 0 greedy.distribution stock reserved_stock
        (insufficient_inventory 100 5)
refused_keeps_reservations_example =
    refused_keeps_reservations ports call run greedy database [] (insufficient_inventory 100 5)
      reserved_stock refuses
