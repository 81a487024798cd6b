-- ===== src/Execution/Cases.antt =====
-- execution/service.py: the cases of a call, and what each does to the results and the writes.
use civitas.Prelude.{
  ◌≡◌, ◌≢◌, refl, sym, ◌∙◌, subst, Bool-cases, Option-cases, Result-cases, none, some, List, [],
  ◌∷◌, String, str_eq, str_eq_iff, Dict, lookup, insert, lookup-insert_self, lookup-insert_ne,
  Result, ok, raise, inl, inr, ◌⊎◌, arith,
}
use civitas.Contracts.{CandidatePlan}
use civitas.Execution.{
  ExecutionRequest, ExecutionResult, RevalidationSnapshot, Answers, Service, ensure_unchanged,
  commit_writes, attempt, references_of, freshness_message, failed_of, settle, duplicate_of,
  execute,
}

List-cases {ℓ} : {A : Type ℓ} (xs : List A) → (xs ≡ []) ⊎ ((x : A) × (ys : List A) × (xs ≡ x ∷ ys))
List-cases [] = inl refl
List-cases (x ∷ xs) = inr (x, xs, refl)

commit_writes-cases :
    (answers : Answers) (request : ExecutionRequest) (plan : CandidatePlan) (writes : List String)
    → ((commit_writes answers request plan writes).1 ≡ writes)
      ⊎ ((references : List String) × (commit_writes answers request plan writes
            ≡ (ok references, request.idempotency_key ∷ writes)))
unfolding commit_writes
commit_writes-cases answers request plan writes = elim (List-cases plan.procurement) [
  | inl nothing ↦ inl (ground arith)
  | inr (line, lines, bought) ↦ elim (Result-cases answers.order) [
    | inl (e, refused) ↦ inl (ground arith)
    | inr (payload, placed) ↦ inr (references_of payload, ground arith)
  ]
]

-- What the body of the `try` does to the writes: nothing, or one write of the request's key, and
-- that only when the refreshed facts support the plan.
pub attempt-cases :
    (answers : Answers) (request : ExecutionRequest) (plan : CandidatePlan)
    (expected : RevalidationSnapshot) (writes : List String)
    → ((attempt answers request plan expected writes).1 ≡ writes)
      ⊎ ((refreshed : RevalidationSnapshot) × (references : List String) × (answers.revalidated
            ≡ ok refreshed)
          × (ensure_unchanged expected refreshed plan ≡ ok tt)
          × (attempt answers request plan expected writes
              ≡ (ok references, request.idempotency_key ∷ writes)))
unfolding attempt
attempt-cases answers request plan expected writes = elim (Result-cases answers.revalidated) [
  | inl (e, unread) ↦ inl (ground arith)
  | inr (refreshed, read) ↦ elim (Result-cases (ensure_unchanged expected refreshed plan)) [
    | inl (e, changed) ↦ inl (ground arith)
    | inr (t, unchanged) ↦ elim (commit_writes-cases answers request plan writes) [
      | inl kept ↦ inl (ground arith)
      | inr (references, written) ↦ inr (refreshed, references, read, unchanged, ground arith)
    ]
  ]
]

pub insert-none :
    (key k : String) (r : ExecutionResult) (d : Dict ExecutionResult)
    → lookup key (insert k r d) ≡ none
    → lookup key d ≡ none
insert-none key k r d h = elim (Bool-cases (str_eq key k)) [
  | inl same ↦
      let one : key ≡ k = grind (arith, str_eq_iff) in
      let there : lookup key (insert k r d) ≡ some r =
        subst (λ j. lookup j (insert k r d) ≡ some r) (sym one) (lookup-insert_self k r d) in
      absurd (ground arith)
  | inr other ↦
      let apart : key ≢ k = λ one. grind (arith, str_eq_iff) in
      sym (lookup-insert_ne key k r d apart) ∙ h
]

module _ (answers : Answers) (request : ExecutionRequest) (results : Dict ExecutionResult) where
  pub settle-writes :
      (outcome : Result (List String)) (writes : List String)
      → (settle answers request results (outcome, writes)).1.writes ≡ writes
  unfolding settle
  settle-writes (ok references) writes = refl
  settle-writes (raise e) writes = elim (Option-cases (freshness_message e)) [
    | inl other ↦ ground arith
    | inr (message, failed) ↦ ground arith
  ]

  pub settle-none :
      (outcome : Result (List String)) (writes : List String) (key : String)
      → lookup key (settle answers request results (outcome, writes)).1.results_by_key ≡ none
      → lookup key results ≡ none
  unfolding settle
  settle-none (ok references) writes key h = insert-none key request.idempotency_key _ results h
  settle-none (raise e) writes key h = elim (Option-cases (freshness_message e)) [
    | inl other ↦ ground arith
    | inr (message, failed) ↦
        let shape : (settle answers request results (raise e, writes)).1.results_by_key
            ≡ insert request.idempotency_key (failed_of answers request message) results =
          ground arith in
        insert-none key request.idempotency_key (failed_of answers request message) results
          (subst (λ d. lookup key d ≡ none) shape h)
  ]

  pub settle-stored :
      (references writes : List String)
      → (r : ExecutionResult) × (lookup request.idempotency_key
            (settle answers request results (ok references, writes)).1.results_by_key
          ≡ some r)
  unfolding settle
  settle-stored references writes = (_, lookup-insert_self request.idempotency_key _ results)

-- The state after `execute` on a key that has a result, and on one that has none.
pub execute-found :
    (answers : Answers) (request : ExecutionRequest) (plan : CandidatePlan)
    (expected : RevalidationSnapshot) (s : Service) {existing : ExecutionResult}
    → lookup request.idempotency_key s.results_by_key ≡ some existing
    → execute answers request plan expected s ≡ (
      ok (duplicate_of answers request existing),
      record s {
        results_by_key =
            insert request.idempotency_key (duplicate_of answers request existing) s.results_by_key;
      },
    )
unfolding execute
execute-found answers request plan expected s found = ground arith

pub execute-fresh :
    (answers : Answers) (request : ExecutionRequest) (plan : CandidatePlan)
    (expected : RevalidationSnapshot) (s : Service)
    → lookup request.idempotency_key s.results_by_key ≡ none
    → execute answers request plan expected s
      ≡ settle answers request s.results_by_key (attempt answers request plan expected s.writes)
unfolding execute
execute-fresh answers request plan expected s fresh = ground arith
