-- ===== src/Execution/Guarded/Service.antt =====
-- execution/guarded.py: GuardedExecutionService.execute. A call holds the advisory lock of its key
-- in one transaction: it is one step, and a raised error leaves the database as it was, but not what
-- the provider was sent. The locks of the suppliers and the warehouses change no row.
use civitas.Prelude.{
  Bool, none, some, List, [], ◌∷◌, any, String, str_eq, runtime_error, Result, ok, raise, raise_if,
  ◌>>=◌, ◌>>◌, if◌then◌else◌,
}
use civitas.Contracts.{CandidatePlan}
use civitas.Approval.{Ledger}
use civitas.Execution.{ExecutionState}
use civitas.Execution.Guarded.{PlanningRunModel, Database, GuardedExecutionOutcome}
use civitas.Execution.Guarded.Readiness.{assess_readiness}
use civitas.Execution.Guarded.Admission.{answered, admitted, admit}
use civitas.Execution.Guarded.Approvals.{consume_approval, check_connection, close, outcome_of}
use civitas.Execution.Guarded.Ports.{Configuration, Call, Ports}
use civitas.Execution.Guarded.Writes.{
  all_reserved, refused, reserve_lines, suppliers_of, write_groups,
}

-- A world: the database, and the keys of the writes that were sent to the provider, newest first.
pub record World : Type 0 where
  pub database : Database
  pub calls : List String

-- The stage of the provider writes, on reserved stock.
unfoldable pub send_writes :
    Ports
    → Call
    → PlanningRunModel
    → CandidatePlan
    → Database
    → List String
    → Result (GuardedExecutionOutcome × Database) × List String
send_writes ports call run plan db calls =
    let (outcome, calls') =
      write_groups ports run.organization_id call.request plan (suppliers_of plan) []
        db.provider_writes calls in
    (
      outcome >>= λ written.
          let db' = record db { provider_writes = written.provider_writes } in
          ok (elim written.failure [
            | some message ↦ (
              outcome_of ports call ExecutionState.compensation_required written.external_references
                  (some "provider_write_failed") (some "execution wrote partial external state")
                  "compensate" ("provider_write_failed" ∷ []) [],
              close ports call run.organization_id ExecutionState.compensation_required
                  ports.finished_at (some "provider_write_failed") (some "required")
                  written.external_references (some message) db',
            )
            | none ↦ (
              outcome_of ports call ExecutionState.succeeded written.external_references none none
                  "execute" [] [],
              close ports call run.organization_id ExecutionState.succeeded ports.finished_at none
                  none written.external_references (some "all provider writes completed") db',
            )
          ]),
      calls',
    )

-- The stage of the reservations.
unfoldable pub reserve_and_send :
    Ports
    → Call
    → PlanningRunModel
    → CandidatePlan
    → Database
    → List String
    → Result (GuardedExecutionOutcome × Database) × List String
unfolding send_writes
reserve_and_send ports call run plan db calls =
    elim (reserve_lines ports run.organization_id call.request 0 plan.distribution db.stock) [
      | raise e ↦ (raise e, calls)
      | ok reserved ↦ elim reserved [
        | refused e stock ↦ (
          ok (
            outcome_of ports call ExecutionState.failed [] (some "inventory_reservation_failed")
                (some (ports.message e)) "investigate" ("inventory_reservation_failed" ∷ [])
                ("Revalidate inventory availability." ∷ []),
            close ports call run.organization_id ExecutionState.failed ports.finished_at
                (some "inventory_reservation_failed") none [] (some (ports.message e))
                (record db { stock = stock }),
          ),
          calls,
        )
        | all_reserved stock ↦ send_writes ports call run plan (record db { stock = stock }) calls
      ]
    ]

abbrev pub is_execute : GuardedExecutionOutcome → Bool
is_execute outcome = str_eq outcome.decision "execute"

-- From the consumption of the approval to the revalidation of the refreshed facts.
unfoldable pub revalidate :
    Configuration
    → Ports
    → Call
    → PlanningRunModel
    → CandidatePlan
    → Database
    → Result (Ledger × GuardedExecutionOutcome)
revalidate configuration ports call run plan db = do
  approvals ← consume_approval configuration ports call run plan db.approvals
  check_connection configuration call plan
  raise_if (any (λ a. str_eq a.id call.request.execution_id) db.audits)
      (runtime_error "execution_audits_pkey")
  refresh ← ports.refresh
  readiness ←
      assess_readiness configuration.sources configuration.freshness configuration.policy
        call.request plan refresh (ports.new_id "jury") ports.assessed_at
  ok (approvals, readiness)

-- The transaction of a call that is admitted.
unfoldable pub perform :
    Configuration
    → Ports
    → Call
    → PlanningRunModel
    → CandidatePlan
    → Database
    → List String
    → Result (GuardedExecutionOutcome × Database) × List String
unfolding revalidate reserve_and_send
perform configuration ports call run plan db calls =
    elim (revalidate configuration ports call run plan db) [
      | raise e ↦ (raise e, calls)
      | ok (approvals, readiness) ↦
          let db' = record db { approvals = approvals } in
          if is_execute readiness then reserve_and_send ports call run plan db' calls else (
            ok (
              readiness,
              close ports call run.organization_id ExecutionState.failed ports.assessed_at
                  readiness.result.failure_code none [] readiness.result.detail db',
            ),
            calls,
          )
    ]

-- The commit, or the rollback of a call that raises.
abbrev pub commit :
    Database
    → Result (GuardedExecutionOutcome × Database) × List String
    → Result GuardedExecutionOutcome × World
commit db (ok (outcome, db'), calls) = (ok outcome, record { database = db'; calls = calls })
commit db (raise e, calls) = (raise e, record { database = db; calls = calls })

unfoldable pub execute :
    Configuration → Ports → Call → World → Result GuardedExecutionOutcome × World
unfolding perform
execute configuration ports call world =
    elim (admit configuration.policy configuration.requires_approval ports.rejected_at
      world.database call.context call.approval_receipt_id call.request) [
        | raise e ↦ (raise e, world)
        | ok admission ↦ elim admission [
          | answered outcome ↦ (ok outcome, world)
          | admitted run plan ↦
              commit world.database
                (perform configuration ports call run plan world.database world.calls)
        ]
      ]
