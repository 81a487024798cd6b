-- ===== src/Execution/Guarded/History.antt =====
-- execution/guarded.py: sequences of calls of execute on one world.
use civitas.Prelude.{
  ◌≡◌, ◌⊎◌, refl, sym, ap, ◌∙◌, subst, Result-cases, none, inl, inr, List, [], ◌∷◌, ok,
}
use civitas.Contracts.{CandidatePlan}
use civitas.Execution.Guarded.{
  PlanningRunModel, Database, GuardedExecutionOutcome, ExecutionAuditModel,
  ExecutionAuditEventModel,
}
use civitas.Execution.Guarded.Admission.{answered, admitted, admit, audit_for}
use civitas.Execution.Guarded.Cleared.{admit-IsAdmitted}
use civitas.Execution.Guarded.Ports.{Configuration, Call, Ports}
use civitas.Execution.Guarded.Closing.{IsClosedBy, Begins, Ends, perform-IsClosedBy}
use civitas.Execution.Guarded.Service.{World, perform, commit, execute}

-- Each audit has its two events, the newest first.
abbrev pub HasEvents : List ExecutionAuditModel → List ExecutionAuditEventModel → Type 0
HasEvents [] [] = Unit
HasEvents [] (e ∷ es) = ⊥
HasEvents (a ∷ as') [] = ⊥
HasEvents (a ∷ as') (e ∷ []) = ⊥
HasEvents (a ∷ as') (last ∷ first_event ∷ es) =
    Begins a first_event × Ends a last × HasEvents as' es

abbrev pub HasDistinctKeys : List ExecutionAuditModel → Type 0
HasDistinctKeys [] = Unit
HasDistinctKeys (a ∷ as') =
    (audit_for a.organization_id a.idempotency_key as' ≡ none) × HasDistinctKeys as'

pub record IsConsistent (db : Database) : Type 0 where
  pub events : HasEvents db.audits db.events
  pub distinct : HasDistinctKeys db.audits

module _ (configuration : Configuration) where
  -- A call changes nothing, or it commits the rows of a transaction that was admitted.
  pub execute-cases :
      (ports : Ports) (call : Call) (world : World)
      → ((execute configuration ports call world).1.database ≡ world.database)
        ⊎ ((run : PlanningRunModel) × (plan : CandidatePlan) × (outcome : GuardedExecutionOutcome)
            × (admit configuration.policy configuration.requires_approval ports.rejected_at
                  world.database call.context call.approval_receipt_id call.request
                ≡ ok (admitted run plan))
            × ((execute configuration ports call world).0 ≡ ok outcome)
            × IsClosedBy call run outcome world.database
                (execute configuration ports call world).1.database)
  unfolding execute
  execute-cases ports call world =
      let db = world.database in
      elim (Result-cases (
        admit configuration.policy configuration.requires_approval ports.rejected_at db call.context
          call.approval_receipt_id call.request)) [
            | inl (e, failed) ↦ inl (rw (failed, execute) refl)
            | inr (answered outcome, done) ↦ inl (rw (done, execute) refl)
            | inr (admitted run plan, done) ↦
                let performed = perform configuration ports call run plan db world.calls in
                let shape : execute configuration ports call world ≡ commit db performed =
                  rw (done, execute) refl in
                elim (Result-cases performed.0) [
                  | inl (e, failed) ↦ inl (
                      ap (λ o. o.1.database) shape
                      ∙ ap (λ o. (commit db (o, performed.1)).1.database) failed)
                  | inr ((outcome, db'), made) ↦
                      let closed =
                        perform-IsClosedBy configuration ports call run plan db world.calls
                          performed.1 outcome db' (λ i. (made i, performed.1)) in
                      let after : execute configuration ports call world
                          ≡ (ok outcome, record { database = db'; calls = performed.1 }) =
                        shape ∙ ap (λ o. commit db (o, performed.1)) made in
                      inr (
                        run,
                        plan,
                        outcome,
                        done,
                        ap (λ o. o.0) after,
                        subst (IsClosedBy call run outcome db) (sym (ap (λ o. o.1.database) after))
                            closed,
                      )
                ]
          ]

  -- Every call keeps the audits consistent.
  pub execute-IsConsistent :
      (ports : Ports) (call : Call) (world : World)
      → IsConsistent world.database
      → IsConsistent (execute configuration ports call world).1.database
  execute-IsConsistent ports call world consistent = elim (execute-cases ports call world) [
    | inl same ↦ subst IsConsistent (sym same) consistent
    | inr (run, plan, outcome, done, told, closed) ↦
        let (_, organization, _, _, _, _, key, _, _) = closed.of_call in
        let known =
          admit-IsAdmitted configuration.policy ports.rejected_at world.database call.context
            call.request run plan configuration.requires_approval call.approval_receipt_id done in
        let new : audit_for closed.audit.organization_id closed.audit.idempotency_key
              world.database.audits
            ≡ none =
          (λ i. audit_for (organization i) (key i) world.database.audits) ∙ known.key_new in
        record {
          events =
              subst
                (λ as'. HasEvents as' (execute configuration ports call world).1.database.events)
                (sym closed.audits)
                (subst (HasEvents (closed.audit ∷ world.database.audits)) (sym closed.events)
                  (closed.begins, closed.ends, consistent.events));
          distinct = subst HasDistinctKeys (sym closed.audits) (new, consistent.distinct);
        }
  ]

  unfoldable pub run_calls : List (Ports × Call) → World → World
  run_calls [] world = world
  run_calls ((ports, call) ∷ calls) world =
      run_calls calls (execute configuration ports call world).1

  -- Whatever calls are made, one after the other, on a database in which every audit has its two
  -- events and no two audits have the same organization and idempotency key, this stays so: the
  -- first event is pending, the second has the state, the failure code and the instant of the audit,
  -- and that state is succeeded, failed or compensation_required.
  pub run_calls-IsConsistent :
      (calls : List (Ports × Call)) (world : World)
      → IsConsistent world.database
      → IsConsistent (run_calls calls world).database
  unfolding run_calls
  run_calls-IsConsistent [] world consistent = consistent
  run_calls-IsConsistent ((ports, call) ∷ calls) world consistent =
      run_calls-IsConsistent calls (execute configuration ports call world).1
        (execute-IsConsistent ports call world consistent)
