-- ===== src/Execution/AtMostOnce.antt =====
-- execution/service.py: what holds of the writes, whatever calls were made.
use civitas.Prelude.{
  ◌≤◌, ◌≡◌, refl, sym, ◌∙◌, subst, Bool-cases, Option-cases, none, List, [], ◌∷◌, String, str_eq,
  str_eq_iff, count, lookup, Result, ok, inl, inr, arith,
}
use civitas.Contracts.{CandidatePlan}
use civitas.Execution.Cases.{
  attempt-cases, insert-none, settle-writes, settle-none, settle-stored, execute-found,
  execute-fresh,
}
use civitas.Execution.{
  ExecutionRequest, RevalidationSnapshot, Answers, Service, attempt, settle, execute,
}

-- The writes of a key are at most one, and none where the key has no result.
abbrev pub Once : Service → Type 0
Once s =
    (key : String)
    → (count key s.writes ≤ 1) × (lookup key s.results_by_key ≡ none → count key s.writes ≡ 0)

Once-kept :
    (answers : Answers) (request : ExecutionRequest) (s : Service) (outcome : Result (List String))
    (writes : List String)
    → writes ≡ s.writes
    → Once s
    → Once (settle answers request s.results_by_key (outcome, writes)).1
Once-kept answers request s outcome writes kept once key =
    let same = settle-writes answers request s.results_by_key outcome writes ∙ kept in
    (
      subst (λ w. count key w ≤ 1) (sym same) (once key).0,
      (λ h.
          subst (λ w. count key w ≡ 0) (sym same)
            ((once key).1 (settle-none answers request s.results_by_key outcome writes key h))),
    )

Once-written :
    (answers : Answers) (request : ExecutionRequest) (s : Service) (references : List String)
    → lookup request.idempotency_key s.results_by_key ≡ none
    → Once s
    → Once
        (settle answers request s.results_by_key
          (ok references, request.idempotency_key ∷ s.writes)).1
unfolding count
Once-written answers request s references fresh once key =
    let k = request.idempotency_key in
    let written = k ∷ s.writes in
    let same = settle-writes answers request s.results_by_key (ok references) written in
    let before = once key in
    let zero_before = (once k).1 fresh in
    (
      subst (λ w. count key w ≤ 1) (sym same) (grind (arith, str_eq_iff)),
      (λ h.
          subst (λ w. count key w ≡ 0) (sym same)
            (elim (Bool-cases (str_eq key k)) [
              | inl same_key ↦
                  let one : key ≡ k = grind (arith, str_eq_iff) in
                  let stored = settle-stored answers request s.results_by_key references written in
                  let gone =
                    subst
                      (λ j.
                        lookup j
                          (settle answers request s.results_by_key
                            (ok references, written)).1.results_by_key
                        ≡ none)
                      one h in
                  absurd (ground arith)
              | inr other ↦
                  let nothing =
                    before.1 (
                      settle-none answers request s.results_by_key (ok references) written key h) in
                  ground arith
            ])),
    )

-- Every call of `execute`, whatever the clock and the server answer to it, keeps the writes of
-- each key at one at most, and keeps a result for every key that was written.
pub execute-Once :
    (answers : Answers) (request : ExecutionRequest) (plan : CandidatePlan)
    (expected : RevalidationSnapshot) (s : Service)
    → Once s
    → Once (execute answers request plan expected s).1
execute-Once answers request plan expected s once =
    elim (Option-cases (lookup request.idempotency_key s.results_by_key)) [
      | inr (existing, found) ↦ rw (execute-found answers request plan expected s found) (λ key. (
        (once key).0,
        λ h. (once key).1 (insert-none key request.idempotency_key _ s.results_by_key h),
      ))
      | inl fresh ↦
          subst (λ o. Once o.1) (sym (execute-fresh answers request plan expected s fresh))
            (elim (attempt-cases answers request plan expected s.writes) [
              | inl kept ↦
                  Once-kept answers request s (attempt answers request plan expected s.writes).0
                    (attempt answers request plan expected s.writes).1 kept once
              | inr (refreshed, references, read, unchanged, done) ↦
                  subst (λ o. Once (settle answers request s.results_by_key o).1) (sym done)
                    (Once-written answers request s references fresh once)
            ])
    ]

-- One call of `execute`, with what was answered to it.
pub record Call : Type 0 where
  pub answers : Answers
  pub request : ExecutionRequest
  pub approved_plan : CandidatePlan
  pub expected_snapshot : RevalidationSnapshot

unfoldable pub run_calls : List Call → Service → Service
run_calls [] s = s
run_calls (c ∷ cs) s =
    run_calls cs (execute c.answers c.request c.approved_plan c.expected_snapshot s).1

abbrev pub new_service : Service
new_service = record { results_by_key = []; writes = [] }

run_calls-Once : (calls : List Call) (s : Service) → Once s → Once (run_calls calls s)
unfolding run_calls
run_calls-Once [] s once = once
run_calls-Once (c ∷ cs) s once =
    run_calls-Once cs _
      (execute-Once c.answers c.request c.approved_plan c.expected_snapshot s once)

-- However often `execute` is called on a new service, one call after the other, with whatever keys,
-- plans and answers, the server has answered at most one write of each idempotency key.
pub writes_at_most_once :
    (calls : List Call) (key : String) → count key (run_calls calls new_service).writes ≤ 1
unfolding count
writes_at_most_once calls key =
    (run_calls-Once calls new_service (λ k. (omega arith, λ h. refl)) key).0
