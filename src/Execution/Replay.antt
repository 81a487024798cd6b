-- ===== src/Execution/Replay.antt =====
-- execution/service.py: what a key that was used before is answered.
use civitas.Prelude.{
  ◌≡◌, ◌≢◌, refl, sym, ap, ◌∙◌, subst, Bool-cases, Option-cases, none, some, List, [], ◌∷◌, String,
  str_eq, str_eq_iff, Dict, lookup, insert, lookup-insert_self, lookup-insert_ne, Result, ok, raise,
  inl, inr, arith,
}
use civitas.Execution.{
  ExecutionState, ExecutionResult, Service, attempt, failed_of, freshness_message, settle,
  duplicate_of, execute,
}
use civitas.Execution.Cases.{execute-found, execute-fresh}
use civitas.Execution.AtMostOnce.{Call, run_calls}

-- One call of `execute` on a state.
abbrev pub call_on : Call → Service → Result ExecutionResult × Service
call_on c s = execute c.answers c.request c.approved_plan c.expected_snapshot s

-- The key has a result with these references.
abbrev pub Remembers : String → List String → Service → Type 0
Remembers key references s =
    (r : ExecutionResult) × (lookup key s.results_by_key ≡ some r)
    × (r.external_references ≡ references)

insert-same :
    (key k : String) (r : ExecutionResult) (d : Dict ExecutionResult)
    → key ≡ k
    → lookup key (insert k r d) ≡ some r
insert-same key k r d one =
    subst (λ j. lookup j (insert k r d) ≡ some r) (sym one) (lookup-insert_self k r d)

module _ (c : Call) (s : Service) where
  settle-ne :
      (outcome : Result (List String)) (writes : List String) (key : String)
      → key ≢ c.request.idempotency_key
      → lookup key (settle c.answers c.request s.results_by_key (outcome, writes)).1.results_by_key
        ≡ lookup key s.results_by_key
  unfolding settle
  settle-ne (ok references) writes key apart = lookup-insert_ne key _ _ s.results_by_key apart
  settle-ne (raise e) writes key apart = elim (Option-cases (freshness_message e)) [
    | inl other ↦ ground arith
    | inr (message, failed) ↦
        let shape : (settle c.answers c.request s.results_by_key (raise e, writes)).1.results_by_key
            ≡ insert c.request.idempotency_key (failed_of c.answers c.request message)
                s.results_by_key =
          ground arith in
        ap (lookup key) shape ∙ lookup-insert_ne key _ _ s.results_by_key apart
  ]

  settle-Remembers :
      (outcome : Result (List String)) (writes : List String) {r : ExecutionResult}
      → (settle c.answers c.request s.results_by_key (outcome, writes)).0 ≡ ok r
      → lookup c.request.idempotency_key
          (settle c.answers c.request s.results_by_key (outcome, writes)).1.results_by_key
        ≡ some r
  unfolding settle
  settle-Remembers (ok references) writes {r} returned =
      let same : _ ≡ r = ground (arith, returned) in
      lookup-insert_self c.request.idempotency_key _ s.results_by_key ∙ ap some same
  settle-Remembers (raise e) writes {r} returned = elim (Option-cases (freshness_message e)) [
    | inl other ↦ absurd (ground arith)
    | inr (message, failed) ↦
        let same : failed_of c.answers c.request message ≡ r = ground arith in
        let shape : (settle c.answers c.request s.results_by_key (raise e, writes)).1.results_by_key
            ≡ insert c.request.idempotency_key (failed_of c.answers c.request message)
                s.results_by_key =
          ground arith in
        ap (lookup c.request.idempotency_key) shape
        ∙ lookup-insert_self c.request.idempotency_key _ s.results_by_key
        ∙ ap some same
  ]

-- The state after a call that returned a result remembers that result under the call's key.
call_on-Stores :
    (c : Call) (s : Service) {r : ExecutionResult}
    → (call_on c s).0 ≡ ok r
    → lookup c.request.idempotency_key (call_on c s).1.results_by_key ≡ some r
call_on-Stores c s {r} returned =
    elim (Option-cases (lookup c.request.idempotency_key s.results_by_key)) [
      | inr (existing, found) ↦
          let out = execute-found c.answers c.request c.approved_plan c.expected_snapshot s found in
          let returns : ok (duplicate_of c.answers c.request existing) ≡ ok r =
            sym (ap (λ o. o.0) out) ∙ returned in
          let same : duplicate_of c.answers c.request existing ≡ r = ground arith in
          ap (λ o. lookup c.request.idempotency_key o.1.results_by_key) out
          ∙ lookup-insert_self c.request.idempotency_key _ s.results_by_key
          ∙ ap some same
      | inl fresh ↦
          let out = execute-fresh c.answers c.request c.approved_plan c.expected_snapshot s fresh in
          let tried = attempt c.answers c.request c.approved_plan c.expected_snapshot s.writes in
          ap (λ o. lookup c.request.idempotency_key o.1.results_by_key) out
          ∙ settle-Remembers c s tried.0 tried.1 (sym (ap (λ o. o.0) out) ∙ returned)
    ]

-- A call keeps the references of every key that has a result.
call_on-Remembers :
    (key : String) (references : List String) (c : Call) (s : Service)
    → Remembers key references s
    → Remembers key references (call_on c s).1
unfolding duplicate_of
call_on-Remembers key references c s (r, known, same) =
    elim (Option-cases (lookup c.request.idempotency_key s.results_by_key)) [
      | inr (existing, found) ↦
          subst (λ o. Remembers key references o.1)
            (sym (execute-found c.answers c.request c.approved_plan c.expected_snapshot s found))
            (elim (Bool-cases (str_eq key c.request.idempotency_key)) [
              | inl equal ↦
                  let one : key ≡ c.request.idempotency_key = grind (arith, str_eq_iff) in
                  let there : lookup key s.results_by_key ≡ some existing =
                    ap (λ k. lookup k s.results_by_key) one ∙ found in
                  let twin : existing ≡ r = ground arith in
                  (
                    duplicate_of c.answers c.request existing,
                    insert-same key c.request.idempotency_key _ s.results_by_key one,
                    ap (λ x. x.external_references) twin ∙ same,
                  )
              | inr other ↦
                  let apart : key ≢ c.request.idempotency_key = λ e. grind (arith, str_eq_iff) in
                  (r, lookup-insert_ne key _ _ s.results_by_key apart ∙ known, same)
            ])
      | inl fresh ↦
          let apart : key ≢ c.request.idempotency_key = λ e.
            let gone : lookup key s.results_by_key ≡ none =
              ap (λ k. lookup k s.results_by_key) e ∙ fresh in
            absurd (ground arith) in
          let tried = attempt c.answers c.request c.approved_plan c.expected_snapshot s.writes in
          subst (λ o. Remembers key references o.1)
            (sym (execute-fresh c.answers c.request c.approved_plan c.expected_snapshot s fresh))
            (r, settle-ne c s tried.0 tried.1 key apart ∙ known, same)
    ]

run_calls-Remembers :
    (key : String) (references : List String) (calls : List Call) (s : Service)
    → Remembers key references s
    → Remembers key references (run_calls calls s)
unfolding run_calls
run_calls-Remembers key references [] s known = known
run_calls-Remembers key references (c ∷ cs) s known =
    run_calls-Remembers key references cs (call_on c s).1
      (call_on-Remembers key references c s known)

-- Once a call has returned a result, then, whatever calls come between, a later call with the same
-- idempotency key returns a duplicate with the references of that result, whatever plan, snapshot
-- and answers it is given, and writes nothing.
pub replay_keeps_references :
    (first : Call) (between : List Call) (again : Call) (s : Service) {r : ExecutionResult}
    → (call_on first s).0 ≡ ok r
    → again.request.idempotency_key ≡ first.request.idempotency_key
    → (twin : ExecutionResult) × ((call_on again (run_calls between (call_on first s).1)).0
        ≡ ok twin)
      × (twin.state ≡ ExecutionState.duplicate)
      × (twin.external_references ≡ r.external_references)
      × ((call_on again (run_calls between (call_on first s).1)).1.writes
          ≡ (run_calls between (call_on first s).1).writes)
unfolding duplicate_of
replay_keeps_references first between again s {r} returned key =
    let after = (call_on first s).1 in
    let later = run_calls between after in
    let (existing, known, same) =
      run_calls-Remembers first.request.idempotency_key r.external_references between after
        (r, call_on-Stores first s returned, refl) in
    let found : lookup again.request.idempotency_key later.results_by_key ≡ some existing =
      ap (λ k. lookup k later.results_by_key) key ∙ known in
    let out =
      execute-found again.answers again.request again.approved_plan again.expected_snapshot later
        found in
    (
      duplicate_of again.answers again.request existing,
      ap (λ o. o.0) out,
      refl,
      same,
      ap (λ o. o.1.writes) out,
    )
