-- ===== src/Execution/Guarded/Recorded.antt =====
-- execution/guarded.py: the rows of provider_writes tell what was sent to the provider.
use civitas.Prelude.{
  ◌≡◌, ◌⊎◌, refl, sym, ap, ◌∙◌, subst, Bool-cases, Result-cases, Option-cases, Option, none, some,
  inl, inr, List, [], ◌∷◌, ◌++◌, map, any, All, All-append, String, str_eq, ok, arith, ◌&&◌,
}
use civitas.Contracts.{CandidatePlan}
use civitas.Execution.{ExecutionState, ExecutionRequest}
use civitas.Execution.Guarded.{
  PlanningRunModel, Database, GuardedExecutionOutcome, ProviderWriteModel,
}
use civitas.Execution.Guarded.Ports.{Configuration, Call, Ports}
use civitas.Execution.Guarded.Writes.{
  all_reserved, refused, reserve_lines, write_groups, write_answer, write_key, write_row, Written,
  suppliers_of, reference_in,
}
use civitas.Execution.Guarded.Approvals.{close, outcome_of}
use civitas.Execution.Guarded.Admission.{answered, admitted, admit}
use civitas.Execution.Guarded.Revalidated.{revalidate-parts, assess_readiness-IsFailure}
use civitas.Execution.Guarded.Service.{
  World, send_writes, reserve_and_send, is_execute, revalidate, perform, commit, execute,
}

abbrev pub Succeeded : ProviderWriteModel → Type 0
Succeeded w = w.state ≡ ExecutionState.succeeded

-- The new rows that an outcome in the state speaks of, the newest first: all succeeded; the newest
-- is to be compensated, and the others succeeded; or there are none.
abbrev pub IsTally : ExecutionState → List ProviderWriteModel → Type 0
IsTally ExecutionState.succeeded new = All Succeeded new
IsTally ExecutionState.compensation_required new =
    (w : ProviderWriteModel) × (older : List ProviderWriteModel) × (new ≡ w ∷ older)
    × (w.state ≡ ExecutionState.compensation_required)
    × All Succeeded older
IsTally state new = new ≡ []

-- The rows that a loop over suppliers adds, and its calls.
abbrev pub IsLogged :
    ExecutionRequest
    → List ProviderWriteModel
    → List ProviderWriteModel
    → List String
    → List String
    → List ProviderWriteModel
    → Type 0
IsLogged request rows rows' calls calls' new =
    (rows' ≡ new ++ rows)
    × (calls' ≡ map (λ w. w.idempotency_key) new ++ calls)
    × All (λ w. w.execution_id ≡ request.execution_id) new

-- The state of an execution whose loop over the suppliers ended so.
abbrev pub state_of_writes : Option String → ExecutionState
state_of_writes none = ExecutionState.succeeded
state_of_writes (some message) = ExecutionState.compensation_required

append_last {ℓ} :
    {A : Type ℓ} (xs : List A) (y : A) (ys : List A) → (xs ++ y ∷ []) ++ ys ≡ xs ++ (y ∷ ys)
append_last [] y ys = refl
append_last (x ∷ xs) y ys = ap (λ zs. x ∷ zs) (append_last xs y ys)

map-append_last :
    (new : List ProviderWriteModel) (w : ProviderWriteModel) (calls : List String)
    → map (λ r. r.idempotency_key) (new ++ w ∷ []) ++ calls
      ≡ map (λ r. r.idempotency_key) new ++ (w.idempotency_key ∷ calls)
map-append_last [] w calls = refl
map-append_last (r ∷ new) w calls = ap (λ ks. r.idempotency_key ∷ ks) (map-append_last new w calls)

IsTally-append :
    (failure : Option String) (new : List ProviderWriteModel) (w : ProviderWriteModel)
    → IsTally (state_of_writes failure) new
    → Succeeded w
    → IsTally (state_of_writes failure) (new ++ w ∷ [])
IsTally-append none new w all done = All-append Succeeded new (w ∷ []) all (done, tt)
IsTally-append (some message) new w (last, older, shape, failed, all) done = (
  last,
  older ++ w ∷ [],
  ap (λ ws. ws ++ w ∷ []) shape,
  failed,
  All-append Succeeded older (w ∷ []) all (done, tt),
)

IsLogged-append :
    (request : ExecutionRequest) (rows rows' : List ProviderWriteModel) (calls calls' : List String)
    (w : ProviderWriteModel) (new : List ProviderWriteModel)
    → w.execution_id ≡ request.execution_id
    → IsLogged request (w ∷ rows) rows' (w.idempotency_key ∷ calls) calls' new
    → IsLogged request rows rows' calls calls' (new ++ w ∷ [])
IsLogged-append request rows rows' calls calls' w new of_request (shape, sent, all) = (
  shape ∙ sym (append_last new w rows),
  sent ∙ sym (map-append_last new w calls),
  All-append (λ r. r.execution_id ≡ request.execution_id) new (w ∷ []) all (of_request, tt),
)

module _ (ports : Ports) (organization_id : String) (request : ExecutionRequest)
    (plan : CandidatePlan) where
  write_groups-IsLogged :
      (suppliers references : List String) (rows : List ProviderWriteModel)
      (calls calls' : List String) (written : Written)
      → write_groups ports organization_id request plan suppliers references rows calls
        ≡ (ok written, calls')
      → (new : List ProviderWriteModel) × IsLogged request rows written.provider_writes calls calls'
          new
        × IsTally (state_of_writes written.failure) new
  unfolding write_groups write_row
  write_groups-IsLogged [] references rows calls calls' written h =
      let failure : none ≡ written.failure = ground arith in
      ([], (ground arith, ground arith, tt), subst (λ o. IsTally (state_of_writes o) []) failure tt)
  write_groups-IsLogged (supplier_id ∷ suppliers) references rows calls calls' written h =
      let key = write_key request supplier_id in
      elim (Bool-cases (
        any (λ w. str_eq w.organization_id organization_id && str_eq w.idempotency_key key) rows)) [
          | inl clash ↦ absurd (ground arith)
          | inr fresh ↦ elim (Result-cases (write_answer ports key)) [
            | inl (e, failed) ↦
                let row =
                  write_row ports organization_id request plan supplier_id
                    ExecutionState.compensation_required ports.finished_at none
                    (some "provider_write_failed") in
                let failure : some (ports.message e) ≡ written.failure = ground arith in
                (
                  row ∷ [],
                  (ground arith, ground arith, (refl, tt)),
                  subst (λ o. IsTally (state_of_writes o) (row ∷ [])) failure
                      (row, [], refl, refl, tt),
                )
            | inr (found, sent) ↦
                let row =
                  write_row ports organization_id request plan supplier_id ExecutionState.succeeded
                    (ports.write_completed_at key) (reference_in found) none in
                let rest : write_groups ports organization_id request plan suppliers
                      (references ++ found) (row ∷ rows) (key ∷ calls)
                    ≡ (ok written, calls') =
                  ground arith in
                let (new, logged, tally) =
                  write_groups-IsLogged suppliers (references ++ found) (row ∷ rows) (key ∷ calls)
                    calls' written rest in
                (
                  new ++ row ∷ [],
                  IsLogged-append request rows written.provider_writes calls calls' row new refl
                      logged,
                  IsTally-append written.failure new row tally refl,
                )
          ]
        ]

-- What a committed transaction of the request recorded of the provider: the rows it adds, whose keys
-- are the ones it sent, in the order of sending, and the state that it ended in.
pub record IsRecorded (request : ExecutionRequest) (outcome : GuardedExecutionOutcome)
    (db db' : Database) (calls calls' : List String) : Type 0 where
  pub new : List ProviderWriteModel
  pub logged : IsLogged request db.provider_writes db'.provider_writes calls calls' new
  pub tally : IsTally outcome.result.state new

module _ (ports : Ports) (call : Call) (run : PlanningRunModel) (plan : CandidatePlan) where
  send_writes-IsRecorded :
      (db db' : Database) (calls calls' : List String) (outcome : GuardedExecutionOutcome)
      → send_writes ports call run plan db calls ≡ (ok (outcome, db'), calls')
      → IsRecorded call.request outcome db db' calls calls'
  unfolding send_writes close outcome_of
  send_writes-IsRecorded db db' calls calls' outcome h =
      let loop =
        write_groups ports run.organization_id call.request plan (suppliers_of plan) []
          db.provider_writes calls in
      elim (Result-cases loop.0) [
        | inl (e, failed) ↦ absurd (ground arith)
        | inr (written, done) ↦
            let (new, logged, tally) =
              write_groups-IsLogged ports run.organization_id call.request plan (suppliers_of plan)
                [] db.provider_writes calls loop.1 written (λ i. (done i, loop.1)) in
            let same : (written.provider_writes ≡ db'.provider_writes)
                × (loop.1 ≡ calls')
                × (state_of_writes written.failure ≡ outcome.result.state) =
              elim (Option-cases written.failure) [
                | inl whole ↦ (ground arith, ground arith, ground arith)
                | inr (message, broken) ↦ (ground arith, ground arith, ground arith)
              ] in
            record {
              new = new;
              logged = (sym same.0 ∙ logged.0, sym same.1 ∙ logged.1, logged.2);
              tally = subst (λ s. IsTally s new) same.2 tally;
            }
      ]

  reserve_and_send-IsRecorded :
      (db db' : Database) (calls calls' : List String) (outcome : GuardedExecutionOutcome)
      → reserve_and_send ports call run plan db calls ≡ (ok (outcome, db'), calls')
      → IsRecorded call.request outcome db db' calls calls'
  unfolding reserve_and_send close outcome_of
  reserve_and_send-IsRecorded db db' calls calls' outcome h =
      elim (Result-cases
        (reserve_lines ports run.organization_id call.request 0 plan.distribution db.stock)) [
          | inl (e, failed) ↦ absurd (ground arith)
          | inr (all_reserved stock, reserved) ↦
              let sent =
                send_writes-IsRecorded (record db { stock = stock }) db' calls calls' outcome
                  (ground arith) in
              record { new = sent.new; logged = sent.logged; tally = sent.tally }
          | inr (refused e stock, reserved) ↦
              let state : ExecutionState.failed ≡ outcome.result.state = ground arith in
              record {
                new = [];
                logged = (ground arith, ground arith, tt);
                tally = subst (λ s. IsTally s []) state refl;
              }
        ]

module _ (configuration : Configuration) (ports : Ports) (call : Call) where
  perform-IsRecorded :
      (run : PlanningRunModel) (plan : CandidatePlan) (db db' : Database)
      (calls calls' : List String) (outcome : GuardedExecutionOutcome)
      → perform configuration ports call run plan db calls ≡ (ok (outcome, db'), calls')
      → IsRecorded call.request outcome db db' calls calls'
  unfolding perform close
  perform-IsRecorded run plan db db' calls calls' outcome h =
      elim (Result-cases (revalidate configuration ports call run plan db)) [
        | inl (e, failed) ↦ absurd (ground arith)
        | inr ((approvals, readiness), validated) ↦ elim (Bool-cases (is_execute readiness)) [
          | inl goes ↦
              let sent =
                reserve_and_send-IsRecorded ports call run plan
                  (record db { approvals = approvals }) db' calls calls' outcome
                  (rw (validated, perform, goes) at h) in
              record { new = sent.new; logged = sent.logged; tally = sent.tally }
          | inr stops ↦
              let parts =
                revalidate-parts configuration ports call run plan db approvals readiness
                  validated in
              let (failed, bare) =
                assess_readiness-IsFailure configuration call.request plan parts.2
                  (ports.new_id "jury") ports.assessed_at readiness parts.4 stops in
              let state : ExecutionState.failed ≡ outcome.result.state = ground arith in
              record {
                new = [];
                logged = (ground arith, ground arith, tt);
                tally = subst (λ s. IsTally s []) state refl;
              }
        ]
      ]

  -- If a call of `execute` returns an outcome, either it changed nothing, or the rows that it added
  -- to provider_writes are of its execution, their keys are the keys that it sent to the provider, in
  -- the same order, and its state says how the writes went: succeeded when all the rows succeeded;
  -- compensation_required when the last is to be compensated and all the others succeeded; and no
  -- row was added, nor anything sent, in any other state.
  pub execute_records_writes :
      (world : World) (outcome : GuardedExecutionOutcome)
      → (execute configuration ports call world).0 ≡ ok outcome
      → ((execute configuration ports call world).1 ≡ world)
        ⊎ IsRecorded call.request outcome world.database
            (execute configuration ports call world).1.database
            world.calls
            (execute configuration ports call world).1.calls
  unfolding execute
  execute_records_writes world outcome returned =
      let db = world.database in
      elim (Result-cases (
        admit configuration.policy configuration.requires_approval ports.rejected_at db call.context
          call.approval_receipt_id call.request)) [
            | inl (e, failed) ↦ inl (rw (failed, execute) refl)
            | inr (answered earlier, done) ↦ inl (rw (done, execute) refl)
            | inr (admitted run plan, done) ↦
                let performed = perform configuration ports call run plan db world.calls in
                let shape : execute configuration ports call world ≡ commit db performed =
                  rw (done, execute) refl in
                elim (Result-cases performed.0) [
                  | inl (e, failed) ↦ absurd (ground arith)
                  | inr ((outcome', db'), made) ↦
                      let after : execute configuration ports call world
                          ≡ (ok outcome', record { database = db'; calls = performed.1 }) =
                        shape ∙ ap (λ o. commit db (o, performed.1)) made in
                      let same : outcome' ≡ outcome = ground arith in
                      let recorded =
                        perform-IsRecorded run plan db db' world.calls performed.1 outcome'
                          (λ i. (made i, performed.1)) in
                      inr (
                        subst
                          (λ w. IsRecorded call.request outcome db w.database world.calls w.calls)
                          (sym (ap (λ o. o.1) after))
                          (subst (λ o. IsRecorded call.request o db db' world.calls performed.1)
                            same recorded))
                ]
          ]
