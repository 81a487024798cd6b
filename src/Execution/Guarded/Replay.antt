-- ===== src/Execution/Guarded/Replay.antt =====
-- execution/guarded.py: what a request that was executed before is answered.
use civitas.Prelude.{
  ◌≡◌, ◌≢◌, refl, sym, ap, ◌∙◌, subst, true, ◌&&◌, Bool-cases, Result-cases, Option, none, some,
  inl, inr, List, [], ◌∷◌, String, str_eq, str_eq_iff, str_eq_refl, ok, arith,
}
use civitas.Contracts.{CandidatePlan, same_object}
use civitas.Approval.{first}
use civitas.Execution.{ExecutionState}
use civitas.Execution.Guarded.{
  PlanningRunModel, Database, GuardedExecutionOutcome, ExecutionAuditModel,
}
use civitas.Execution.Guarded.Admission.{
  answered, admitted, admit, audit_for, is_same_request, duplicate_outcome, run_by_id,
  check_approval_arguments, same_optional,
}
use civitas.Execution.Guarded.Cleared.{admit-IsAdmitted}
use civitas.Execution.Guarded.Ports.{Configuration, Call, Ports, Connection}
use civitas.Execution.Guarded.Closing.{IsClosedBy}
use civitas.Execution.Guarded.History.{execute-cases, run_calls}
use civitas.Execution.Guarded.Service.{World, execute}

-- The key of the run's organization has the audit.
abbrev pub HasAudit : Call → PlanningRunModel → ExecutionAuditModel → Database → Type 0
HasAudit call run audit db =
    (run_by_id call.request.planning_run_id db ≡ some run)
    × (audit_for run.organization_id call.request.idempotency_key db.audits ≡ some audit)

audit_for-keep :
    (organization_id key : String) (new : ExecutionAuditModel) (audits : List ExecutionAuditModel)
    {audit : ExecutionAuditModel}
    → audit_for organization_id key audits ≡ some audit
    → audit_for new.organization_id new.idempotency_key audits ≡ none
    → audit_for organization_id key (new ∷ audits) ≡ some audit
unfolding audit_for
audit_for-keep organization_id key new audits found fresh =
    elim (Bool-cases
      (str_eq new.organization_id organization_id && str_eq new.idempotency_key key)) [
        | inr other ↦ ground (arith, other, found)
        | inl same ↦
            let o : new.organization_id ≡ organization_id =
              ground (arith, same, str_eq_iff new.organization_id organization_id) in
            let k : new.idempotency_key ≡ key =
              ground (arith, same, str_eq_iff new.idempotency_key key) in
            let gone : audit_for organization_id key audits ≡ none =
              sym (λ i. audit_for (o i) (k i) audits) ∙ fresh in
            absurd (ground (arith, sym found ∙ gone))
      ]

audit_for-head :
    (audit : ExecutionAuditModel) (audits : List ExecutionAuditModel) (organization_id key : String)
    → audit.organization_id ≡ organization_id
    → audit.idempotency_key ≡ key
    → audit_for organization_id key (audit ∷ audits) ≡ some audit
unfolding audit_for
audit_for-head audit audits organization_id key o k =
    ground (
      arith,
      str_eq_iff audit.organization_id organization_id,
      str_eq_iff audit.idempotency_key key,
    )

module _ (configuration : Configuration) (first_call : Call) (run : PlanningRunModel)
    (audit : ExecutionAuditModel) where
  execute-HasAudit :
      (ports : Ports) (call : Call) (world : World)
      → HasAudit first_call run audit world.database
      → HasAudit first_call run audit (execute configuration ports call world).1.database
  execute-HasAudit ports call world (found, audited) =
      elim (execute-cases configuration ports call world) [
        | inl same ↦ subst (HasAudit first_call run audit) (sym same) (found, audited)
        | inr (other, plan, outcome, done, told, closed) ↦
            let (_, organization, _, _, _, _, key, _, _) = closed.of_call in
            let known =
              admit-IsAdmitted configuration.policy ports.rejected_at world.database call.context
                call.request other plan configuration.requires_approval call.approval_receipt_id
                done in
            let new : audit_for closed.audit.organization_id closed.audit.idempotency_key
                  world.database.audits
                ≡ none =
              (λ i. audit_for (organization i) (key i) world.database.audits) ∙ known.key_new in
            (
              ap (first (λ r. str_eq r.id first_call.request.planning_run_id)) closed.runs ∙ found,
              ap (audit_for run.organization_id first_call.request.idempotency_key) closed.audits
                  ∙ audit_for-keep run.organization_id first_call.request.idempotency_key
                      closed.audit world.database.audits audited new,
            )
      ]

  run_calls-HasAudit :
      (calls : List (Ports × Call)) (world : World)
      → HasAudit first_call run audit world.database
      → HasAudit first_call run audit (run_calls configuration calls world).database
  unfolding run_calls
  run_calls-HasAudit [] world has = has
  run_calls-HasAudit ((ports, call) ∷ calls) world has =
      run_calls-HasAudit calls (execute configuration ports call world).1
        (execute-HasAudit ports call world has)

same_optional_refl : (o : Option String) → same_optional o o ≡ true
same_optional_refl none = refl
same_optional_refl (some s) = str_eq_refl s

-- The request of an audit is recognised.
closed-is_same :
    (call : Call) (run : PlanningRunModel) (outcome : GuardedExecutionOutcome) (db db' : Database)
    (closed : IsClosedBy call run outcome db db')
    → same_object call.request.action call.request.action ≡ true
    → is_same_request call.request call.approval_receipt_id closed.audit ≡ true
unfolding is_same_request
closed-is_same call run outcome db db' closed whole =
    let (_, _, p, a, j, receipt, _, v, action) = closed.of_call in
    let same_receipt : same_optional closed.audit.approval_receipt_id call.approval_receipt_id
        ≡ true =
      ap (λ o. same_optional o call.approval_receipt_id) receipt
      ∙ same_optional_refl call.approval_receipt_id in
    let same_action : same_object closed.audit.action call.request.action ≡ true =
      ap (λ o. same_object o call.request.action) action ∙ whole in
    ground (
      arith,
      same_receipt,
      same_action,
      str_eq_iff closed.audit.planning_run_id call.request.planning_run_id,
      str_eq_iff closed.audit.approved_plan_id call.request.approved_plan_id,
      str_eq_iff closed.audit.jury_decision_id call.request.jury_evaluation_id,
      str_eq_iff closed.audit.approval_policy_version call.request.approval_policy_version,
    )

module _ (configuration : Configuration) (ports : Ports) (call : Call) (world : World) where
  admit-given :
      (run : PlanningRunModel) (plan : CandidatePlan)
      → admit configuration.policy configuration.requires_approval ports.rejected_at world.database
          call.context call.approval_receipt_id call.request
        ≡ ok (admitted run plan)
      → check_approval_arguments configuration.requires_approval call.context
          call.approval_receipt_id
        ≡ ok tt
  unfolding admit
  admit-given run plan h =
      elim (Result-cases (
        check_approval_arguments configuration.requires_approval call.context
          call.approval_receipt_id)) [
            | inl (e, bad) ↦ absurd (ground arith)
            | inr (t, given) ↦ given
          ]

  execute-answers :
      (run : PlanningRunModel) (audit : ExecutionAuditModel)
      → check_approval_arguments configuration.requires_approval call.context
          call.approval_receipt_id
        ≡ ok tt
      → HasAudit call run audit world.database
      → is_same_request call.request call.approval_receipt_id audit ≡ true
      → execute configuration ports call world ≡ (ok (duplicate_outcome audit), world)
  unfolding execute admit
  execute-answers run audit given (found, audited) same =
      let answer : admit configuration.policy configuration.requires_approval ports.rejected_at
            world.database call.context call.approval_receipt_id call.request
          ≡ ok (answered (duplicate_outcome audit)) =
        ground (arith, given, found, audited, same) in
      rw (answer, execute) refl

-- Once a call has written an audit, then, whatever calls come between, the same request by the same
-- operator and receipt, over any connection and with any answers of the ports, is answered as a
-- duplicate with the references and the failure code of the first outcome, and changes neither the
-- database nor what the provider was sent. The action is one that equals itself: no object in it
-- repeats a key.
pub execute_again :
    (configuration : Configuration) (ports again : Ports) (call : Call)
    (write_mcp : Option Connection) (between : List (Ports × Call)) (world : World)
    → (execute configuration ports call world).1.database.audits ≢ world.database.audits
    → same_object call.request.action call.request.action ≡ true
    → (outcome : GuardedExecutionOutcome) × (twin : GuardedExecutionOutcome) × ((execute
          configuration ports call world).0
        ≡ ok outcome)
      × (execute configuration again
            (record call { write_mcp = write_mcp })
            (run_calls configuration between (execute configuration ports call world).1)
          ≡ (ok twin, run_calls configuration between (execute configuration ports call world).1))
      × (twin.result.state ≡ ExecutionState.duplicate)
      × (twin.result.external_references ≡ outcome.result.external_references)
      × (twin.result.failure_code ≡ outcome.result.failure_code)
unfolding duplicate_outcome
execute_again configuration ports again call write_mcp between world wrote whole =
    elim (execute-cases configuration ports call world) [
      | inl same ↦ absurd (wrote (ap (λ db. db.audits) same))
      | inr (run, plan, outcome, done, told, closed) ↦
          let after = (execute configuration ports call world).1 in
          let later = run_calls configuration between after in
          let (_, organization, _, _, _, _, key, _, _) = closed.of_call in
          let known =
            admit-IsAdmitted configuration.policy ports.rejected_at world.database call.context
              call.request run plan configuration.requires_approval call.approval_receipt_id done in
          let has : HasAudit call run closed.audit after.database = (
            ap (first (λ r. str_eq r.id call.request.planning_run_id)) closed.runs
                ∙ known.run_found,
            ap (audit_for run.organization_id call.request.idempotency_key) closed.audits
                ∙ audit_for-head closed.audit world.database.audits run.organization_id
                    call.request.idempotency_key organization key,
          ) in
          let (found, audited) =
            run_calls-HasAudit configuration call run closed.audit between after has in
          (
            outcome,
            duplicate_outcome closed.audit,
            told,
            execute-answers configuration again (record call { write_mcp = write_mcp }) later run
                closed.audit (admit-given configuration ports call world run plan done)
                (found, audited)
                (closed-is_same call run outcome world.database after.database closed whole),
            refl,
            sym closed.told.1,
            sym closed.told.2,
          )
    ]
