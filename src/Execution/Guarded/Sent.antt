-- ===== src/Execution/Guarded/Sent.antt =====
-- execution/guarded.py: what is sent to the provider was cleared by every guard.
use civitas.Prelude.{
  ◌≡◌, ◌≢◌, refl, ◌∙◌, true, Bool-cases, Result-cases, inl, inr, List, String, Result, ok, raise,
}
use civitas.Contracts.{CandidatePlan}
use civitas.Approval.{Ledger}
use civitas.Inventory.{Stock}
use civitas.Execution.Guarded.{PlanningRunModel, Database, RefreshBundle, GuardedExecutionOutcome}
use civitas.Execution.Guarded.Fresh.{IsFresh, assess_readiness-IsFresh}
use civitas.Execution.Guarded.Admission.{answered, admitted, admit}
use civitas.Execution.Guarded.Cleared.{IsAdmitted, admit-IsAdmitted}
use civitas.Execution.Guarded.Bound.{
  IsPaid, consume_approval-IsPaid, IsBound, check_connection-IsBound,
}
use civitas.Execution.Guarded.Revalidated.{revalidate-parts}
use civitas.Execution.Guarded.Ports.{Configuration, Call, Ports}
use civitas.Execution.Guarded.Writes.{all_reserved, refused, reserve_lines}
use civitas.Execution.Guarded.Service.{
  World, reserve_and_send, is_execute, revalidate, perform, commit, execute,
}

-- The guards that a call has passed before its first write is sent.
pub record IsCleared (configuration : Configuration) (ports : Ports) (call : Call) (db : Database)
    : Type 0 where
  pub run : PlanningRunModel
  pub plan : CandidatePlan
  pub admission : IsAdmitted configuration.policy db call.request run plan
  pub approvals : Ledger
  pub paid : IsPaid configuration ports call run plan db.approvals approvals
  pub bound : IsBound configuration call plan
  pub refresh : RefreshBundle
  pub refreshed : ports.refresh ≡ ok refresh
  pub fresh :
      IsFresh configuration.sources configuration.freshness configuration.policy call.request plan
        refresh
        (ports.new_id "jury")
        ports.assessed_at
  pub stock : Stock
  pub reserved :
      reserve_lines ports run.organization_id call.request 0 plan.distribution db.stock
      ≡ ok (all_reserved stock)

module _ (configuration : Configuration) (ports : Ports) (call : Call) where
  reserve_and_send-reserved :
      (run : PlanningRunModel) (plan : CandidatePlan) (db : Database) (calls : List String)
      → (reserve_and_send ports call run plan db calls).1 ≢ calls
      → (stock : Stock) × (reserve_lines ports run.organization_id call.request 0 plan.distribution
            db.stock
          ≡ ok (all_reserved stock))
  unfolding reserve_and_send
  reserve_and_send-reserved run plan db calls sent =
      elim (Result-cases
        (reserve_lines ports run.organization_id call.request 0 plan.distribution db.stock)) [
          | inl (e, failed) ↦ absurd (sent (rw (failed, reserve_and_send) refl))
          | inr (all_reserved stock, reserved) ↦ (stock, reserved)
          | inr (refused e stock, reserved) ↦ absurd (sent (rw (reserved, reserve_and_send) refl))
        ]

  perform-sent :
      (run : PlanningRunModel) (plan : CandidatePlan) (db : Database) (calls : List String)
      → (perform configuration ports call run plan db calls).1 ≢ calls
      → (approvals : Ledger) × (readiness : GuardedExecutionOutcome) × (revalidate configuration
            ports call run plan db
          ≡ ok (approvals, readiness))
        × (is_execute readiness ≡ true)
        × (stock : Stock) × (reserve_lines ports run.organization_id call.request 0
              plan.distribution db.stock
            ≡ ok (all_reserved stock))
  unfolding perform
  perform-sent run plan db calls sent =
      elim (Result-cases (revalidate configuration ports call run plan db)) [
        | inl (e, failed) ↦ absurd (sent (rw (failed, perform) refl))
        | inr ((approvals, readiness), validated) ↦ elim (Bool-cases (is_execute readiness)) [
          | inr stops ↦ absurd (sent (rw (validated, perform, stops) refl))
          | inl goes ↦
              let shape : (perform configuration ports call run plan db calls).1
                  ≡ (reserve_and_send ports call run plan (record db { approvals = approvals })
                      calls).1 =
                rw (validated, perform, goes) refl in
              let (stock, reserved) =
                reserve_and_send-reserved run plan (record db { approvals = approvals }) calls
                  (λ same. sent (shape ∙ same)) in
              (approvals, readiness, validated, goes, stock, reserved)
        ]
      ]

  commit-calls :
      (db : Database) (r : Result (GuardedExecutionOutcome × Database) × List String)
      → (commit db r).1.calls ≡ r.1
  commit-calls db (ok (outcome, db'), calls) = refl
  commit-calls db (raise e, calls) = refl

-- If a call of `execute` sends anything to the provider, then: its run is found, is ready for
-- approval, and no audit has its organization's idempotency key; the plan is the run's own, selected,
-- not infeasible, and every supplier, article, warehouse and lot that it names is a row of the run's
-- organization; the recorded Jury decision is of that run and plan, approves, is above the threshold,
-- has every required gate, no failed gate and a completed Dissent score; where the service needs an
-- approval, the operator's receipt was consumed for this key, run, plan, policy and totals, and a
-- connection was given; a connection that was given is bound to this execution, receipt and plan;
-- the refreshed claims are current, every supplier still offers its lines in time, every destination
-- and lane has room, the refreshed cost is within the approved one and the Jury's rerun approves; and
-- all the distribution lines were reserved.
pub execute-IsCleared :
    (configuration : Configuration) (ports : Ports) (call : Call) (world : World)
    → (execute configuration ports call world).1.calls ≢ world.calls
    → IsCleared configuration ports call world.database
unfolding execute
execute-IsCleared configuration ports call world sent =
    let db = world.database in
    elim (Result-cases (
      admit configuration.policy configuration.requires_approval ports.rejected_at db call.context
        call.approval_receipt_id call.request)) [
          | inl (e, failed) ↦ absurd (sent (rw (failed, execute) refl))
          | inr (answered outcome, done) ↦ absurd (sent (rw (done, execute) refl))
          | inr (admitted run plan, done) ↦
              let performed = perform configuration ports call run plan db world.calls in
              let shape : (execute configuration ports call world).1.calls ≡ performed.1 =
                rw (done, execute) (commit-calls configuration ports call db performed) in
              let (approvals, readiness, validated, goes, stock, reserved) =
                perform-sent configuration ports call run plan db world.calls
                  (λ same. sent (shape ∙ same)) in
              let parts =
                revalidate-parts configuration ports call run plan db approvals readiness
                  validated in
              record {
                run = run;
                plan = plan;
                admission =
                    admit-IsAdmitted configuration.policy ports.rejected_at db call.context
                      call.request run plan configuration.requires_approval call.approval_receipt_id
                      done;
                approvals = approvals;
                paid =
                    consume_approval-IsPaid configuration ports call run plan db.approvals approvals
                      parts.0;
                bound = check_connection-IsBound configuration call plan parts.1;
                refresh = parts.2;
                refreshed = parts.3;
                fresh =
                    assess_readiness-IsFresh configuration.sources configuration.freshness
                      configuration.policy call.request plan parts.2 (ports.new_id "jury")
                      ports.assessed_at readiness parts.4 goes;
                stock = stock;
                reserved = reserved;
              }
        ]
