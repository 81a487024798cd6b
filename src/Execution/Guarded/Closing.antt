-- ===== src/Execution/Guarded/Closing.antt =====
-- execution/guarded.py: how a transaction of execute that commits has ended.
use civitas.Prelude.{
  ℕ, ◌≡◌, ◌⊎◌, refl, sym, ap, ◌∙◌, subst, Bool-cases, Result-cases, Option-cases, Option, none,
  some, inl, inr, List, [], ◌∷◌, String, ok, arith,
}
use civitas.Contracts.{CandidatePlan}
use civitas.Execution.{ExecutionState}
use civitas.Execution.Guarded.{
  PlanningRunModel, Database, GuardedExecutionOutcome, ExecutionAuditModel,
  ExecutionAuditEventModel,
}
use civitas.Execution.Guarded.Ports.{Configuration, Call, Ports}
use civitas.Execution.Guarded.Writes.{
  all_reserved, refused, reserve_lines, write_groups, suppliers_of,
}
use civitas.Execution.Guarded.Approvals.{audit_of, record_event, close, outcome_of}
use civitas.Execution.Guarded.Revalidated.{revalidate-parts, assess_readiness-IsFailure}
use civitas.Execution.Guarded.Service.{
  send_writes, reserve_and_send, is_execute, revalidate, perform,
}

-- The states in which an execution can end.
abbrev pub IsFinal : ExecutionState → Type 0
IsFinal state =
    (state ≡ ExecutionState.succeeded)
    ⊎ (state ≡ ExecutionState.failed)
    ⊎ (state ≡ ExecutionState.compensation_required)

-- The two events of an audit.
abbrev pub Begins : ExecutionAuditModel → ExecutionAuditEventModel → Type 0
Begins a e = (e.execution_id ≡ a.id) × (e.sequence ≡ 1) × (e.state ≡ ExecutionState.pending)

abbrev pub Ends : ExecutionAuditModel → ExecutionAuditEventModel → Type 0
Ends a e =
    (e.execution_id ≡ a.id)
    × (e.sequence ≡ 2)
    × (e.state ≡ a.state)
    × IsFinal a.state
    × (a.completed_at ≡ some e.occurred_at)
    × (e.reason_code ≡ a.failure_code)

-- What a committed transaction of the call adds: one audit with two events.
pub record IsClosedBy (call : Call) (run : PlanningRunModel) (outcome : GuardedExecutionOutcome)
    (db db' : Database) : Type 0 where
  pub audit : ExecutionAuditModel
  pub first : ExecutionAuditEventModel
  pub last : ExecutionAuditEventModel
  pub audits : db'.audits ≡ audit ∷ db.audits
  pub events : db'.events ≡ last ∷ first ∷ db.events
  pub begins : Begins audit first
  pub ends : Ends audit last
  pub of_call :
      (audit.id ≡ call.request.execution_id)
      × (audit.organization_id ≡ run.organization_id)
      × (audit.planning_run_id ≡ call.request.planning_run_id)
      × (audit.approved_plan_id ≡ call.request.approved_plan_id)
      × (audit.jury_decision_id ≡ call.request.jury_evaluation_id)
      × (audit.approval_receipt_id ≡ call.approval_receipt_id)
      × (audit.idempotency_key ≡ call.request.idempotency_key)
      × (audit.approval_policy_version ≡ call.request.approval_policy_version)
      × (audit.action ≡ call.request.action)
  pub told :
      (outcome.result.state ≡ audit.state)
      × (outcome.result.external_references ≡ audit.external_references)
      × (outcome.result.failure_code ≡ audit.failure_code)
  pub runs : db'.planning_runs ≡ db.planning_runs

module _ (ports : Ports) (call : Call) (run : PlanningRunModel) where
  -- Rows of `close` on a database that differs in other tables only.
  close-IsClosedBy :
      (state : ExecutionState) (at : ℕ) (failure compensation : Option String)
      (references : List String) (detail : Option String) (outcome : GuardedExecutionOutcome)
      (db db' : Database)
      → IsFinal state
      → outcome.result.state ≡ state
      → outcome.result.external_references ≡ references
      → outcome.result.failure_code ≡ failure
      → db'.audits ≡ db.audits
      → db'.events ≡ db.events
      → db'.planning_runs ≡ db.planning_runs
      → IsClosedBy call run outcome db
          (close ports call run.organization_id state at failure compensation references detail db')
  unfolding close audit_of record_event
  close-IsClosedBy state at failure compensation references detail outcome db db' final told_state
        told_references told_failure audits events runs =
      record {
        audit = audit_of ports call run.organization_id state at failure compensation references;
        first =
            record_event ports call 1 ports.attempted_at ExecutionState.pending none
              (some "approval bound; freshness revalidation started");
        last = record_event ports call 2 at state failure detail;
        audits =
            ap
              (λ as'.
                audit_of ports call run.organization_id state at failure compensation references
                ∷ as')
              audits;
        events =
            ap
              (λ es.
                record_event ports call 2 at state failure detail
                ∷ record_event ports call 1 ports.attempted_at ExecutionState.pending none
                    (some "approval bound; freshness revalidation started")
                ∷ es)
              events;
        begins = (refl, refl, refl);
        ends = (refl, refl, refl, final, refl, refl);
        of_call = (refl, refl, refl, refl, refl, refl, refl, refl, refl);
        told = (told_state, told_references, told_failure);
        runs = runs;
      }

  moved :
      (told outcome : GuardedExecutionOutcome) (db closed db' : Database)
      → IsClosedBy call run told db closed
      → told ≡ outcome
      → closed ≡ db'
      → IsClosedBy call run outcome db db'
  moved told outcome db closed db' made same_outcome same_db =
      subst (λ o. IsClosedBy call run o db db') same_outcome
        (subst (λ d. IsClosedBy call run told db d) same_db made)

  send_writes-IsClosedBy :
      (plan : CandidatePlan) (db : Database) (calls calls' : List String)
      (outcome : GuardedExecutionOutcome) (db' : Database)
      → send_writes ports call run plan db calls ≡ (ok (outcome, db'), calls')
      → IsClosedBy call run outcome db db'
  unfolding send_writes outcome_of
  send_writes-IsClosedBy plan db calls calls' outcome db' h =
      let sent =
        write_groups ports run.organization_id call.request plan (suppliers_of plan) []
          db.provider_writes calls in
      elim (Result-cases sent.0) [
        | inl (e, failed) ↦ absurd (ground arith)
        | inr (written, wrote) ↦ elim (Option-cases written.failure) [
          | inl fine ↦
              let references = written.external_references in
              let final = record db { provider_writes = written.provider_writes } in
              let detail = some "all provider writes completed" in
              let told =
                outcome_of ports call ExecutionState.succeeded references none none "execute" []
                  [] in
              moved told outcome db _ db'
                (close-IsClosedBy ExecutionState.succeeded ports.finished_at none none references
                  detail told db final (inl refl) refl refl refl refl refl refl)
                (ground arith) (ground arith)
          | inr (message, failure) ↦
              let references = written.external_references in
              let final = record db { provider_writes = written.provider_writes } in
              let told =
                outcome_of ports call ExecutionState.compensation_required references
                  (some "provider_write_failed") (some "execution wrote partial external state")
                  "compensate" ("provider_write_failed" ∷ []) [] in
              moved told outcome db _ db'
                (close-IsClosedBy ExecutionState.compensation_required ports.finished_at
                  (some "provider_write_failed") (some "required") references (some message) told db
                  final (inr (inr refl)) refl refl refl refl refl refl)
                (ground arith) (ground arith)
        ]
      ]

  reserve_and_send-IsClosedBy :
      (plan : CandidatePlan) (db : Database) (calls calls' : List String)
      (outcome : GuardedExecutionOutcome) (db' : Database)
      → reserve_and_send ports call run plan db calls ≡ (ok (outcome, db'), calls')
      → IsClosedBy call run outcome db db'
  unfolding reserve_and_send outcome_of
  reserve_and_send-IsClosedBy plan db calls calls' outcome db' h =
      elim (Result-cases
        (reserve_lines ports run.organization_id call.request 0 plan.distribution db.stock)) [
          | inl (e, failed) ↦ absurd (ground arith)
          | inr (all_reserved stock, reserved) ↦
              let sent =
                send_writes-IsClosedBy plan (record db { stock = stock }) calls calls' outcome db'
                  (sym (rw (reserved, reserve_and_send) refl) ∙ h) in
              record {
                audit = sent.audit;
                first = sent.first;
                last = sent.last;
                audits = sent.audits;
                events = sent.events;
                begins = sent.begins;
                ends = sent.ends;
                of_call = sent.of_call;
                told = sent.told;
                runs = sent.runs;
              }
          | inr (refused e stock, reserved) ↦
              let told =
                outcome_of ports call ExecutionState.failed [] (some "inventory_reservation_failed")
                  (some (ports.message e)) "investigate" ("inventory_reservation_failed" ∷ [])
                  ("Revalidate inventory availability." ∷ []) in
              moved told outcome db _ db'
                (close-IsClosedBy ExecutionState.failed ports.finished_at
                  (some "inventory_reservation_failed") none [] (some (ports.message e)) told db
                  (record db { stock = stock }) (inr (inl refl)) refl refl refl refl refl refl)
                (ground arith) (ground arith)
        ]

module _ (configuration : Configuration) (ports : Ports) (call : Call)
    (run : PlanningRunModel) where
  pub perform-IsClosedBy :
      (plan : CandidatePlan) (db : Database) (calls calls' : List String)
      (outcome : GuardedExecutionOutcome) (db' : Database)
      → perform configuration ports call run plan db calls ≡ (ok (outcome, db'), calls')
      → IsClosedBy call run outcome db db'
  unfolding perform
  perform-IsClosedBy plan db calls calls' outcome db' h =
      elim (Result-cases (revalidate configuration ports call run plan db)) [
        | inl (e, failed) ↦ absurd (ground arith)
        | inr ((approvals, readiness), validated) ↦
            let db1 = record db { approvals = approvals } in
            elim (Bool-cases (is_execute readiness)) [
              | inl goes ↦
                  let sent =
                    reserve_and_send-IsClosedBy ports call run plan db1 calls calls' outcome db'
                      (rw (validated, perform, goes) at h) in
                  record {
                    audit = sent.audit;
                    first = sent.first;
                    last = sent.last;
                    audits = sent.audits;
                    events = sent.events;
                    begins = sent.begins;
                    ends = sent.ends;
                    of_call = sent.of_call;
                    told = sent.told;
                    runs = sent.runs;
                  }
              | inr stops ↦
                  let parts =
                    revalidate-parts configuration ports call run plan db approvals readiness
                      validated in
                  let (failed, bare) =
                    assess_readiness-IsFailure configuration call.request plan parts.2
                      (ports.new_id "jury") ports.assessed_at readiness parts.4 stops in
                  moved ports call run readiness outcome db _ db'
                    (close-IsClosedBy ports call run ExecutionState.failed ports.assessed_at
                      readiness.result.failure_code none [] readiness.result.detail readiness db db1
                      (inr (inl refl)) failed bare refl refl refl refl)
                    (ground arith) (ground arith)
            ]
      ]
