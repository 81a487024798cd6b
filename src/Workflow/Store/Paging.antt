-- ===== src/Workflow/Store/Paging.antt =====
-- workflow/checkpointing.py: `list_events` over the log of a run, as a polling client reads it.
use civitas.Prelude.{
  ℕ, zero, suc, ◌+◌, ◌≤◌, ◌<◌, ltb, ◌≡◌, refl, sym, inl, inr, List, [], ◌∷◌, ◌++◌, String, arith,
  lookup, take, ok, Bool-cases, Option-cases, ltb→lt, drop, drop-nil, take_add, ◌∙◌, All,
}
use civitas.Contracts.{WorkflowEvent}
use civitas.Workflow.Store.Leases.{Store, after, list_events}
use civitas.Workflow.Store.Invariant.{IsValid, lookup-RunValid}
use civitas.Workflow.Store.Runs.{Contiguous}

-- The cursor that a page hands on: the last event's number, or the cursor it was asked with.
abbrev pub next_cursor : ℕ → List WorkflowEvent → ℕ
next_cursor cursor [] = cursor
next_cursor cursor (event ∷ events) = next_cursor event.sequence events

-- Behind a cursor, a contiguous log is a contiguous log.
after_all :
    (run_id : String) (a b cursor : ℕ) (events : List WorkflowEvent)
    → Contiguous run_id a events b
    → cursor < a
    → after cursor events ≡ events
unfolding after
after_all run_id a b cursor [] h lt = refl
after_all run_id a b cursor (e ∷ es) h lt = ground (arith, after_all run_id (a + 1) b cursor es h.2)

-- The events behind a cursor have later numbers than the cursor.
after-later :
    (cursor : ℕ) (events : List WorkflowEvent)
    → All (λ e. cursor ≤ e.sequence) (after cursor events)
unfolding after
after-later cursor [] = tt
after-later cursor (e ∷ es) = elim (Bool-cases (ltb cursor e.sequence)) [
  | inl later ↦ rw later (omega (arith, ltb→lt cursor e.sequence later), after-later cursor es)
  | inr early ↦ rw early (after-later cursor es)
]

-- A page hands on a cursor that is not before any bound of its events.
next_cursor-ge :
    (bound cursor n : ℕ) (events : List WorkflowEvent)
    → bound ≤ cursor
    → All (λ e. bound ≤ e.sequence) events
    → bound ≤ next_cursor cursor (take n events)
next_cursor-ge bound cursor zero events le h = le
next_cursor-ge bound cursor (suc n) [] le h = le
next_cursor-ge bound cursor (suc n) (e ∷ es) le h = next_cursor-ge bound e.sequence n es h.0 h.1

Contiguous-later :
    (run_id : String) (a b bound : ℕ) (events : List WorkflowEvent)
    → Contiguous run_id a events b
    → bound ≤ a
    → All (λ e. bound ≤ e.sequence) events
Contiguous-later run_id a b bound [] h le = tt
Contiguous-later run_id a b bound (e ∷ es) h le =
    (omega (arith, h.1), Contiguous-later run_id (a + 1) b bound es h.2 (omega arith))

-- In a log that lies behind the cursor whole, a page's cursor drops what the page showed.
after_page :
    (run_id : String) (a b cursor n : ℕ) (events : List WorkflowEvent)
    → Contiguous run_id a events b
    → cursor < a
    → after (next_cursor cursor (take n events)) events ≡ drop n events
unfolding after
after_page run_id a b cursor zero events h lt = after_all run_id a b cursor events h lt
after_page run_id a b cursor (suc n) [] h lt = refl
after_page run_id a b cursor (suc n) (e ∷ es) h lt =
    let passed =
      next_cursor-ge e.sequence e.sequence n es (omega arith)
        (Contiguous-later run_id (a + 1) b e.sequence es h.2 (omega (arith, h.1))) in
    ground (arith, passed, after_page run_id (a + 1) b e.sequence n es h.2 (omega (arith, h.1)))

after-skip :
    (cursor : ℕ) (e : WorkflowEvent) (es : List WorkflowEvent)
    → e.sequence ≤ cursor
    → after cursor (e ∷ es) ≡ after cursor es
unfolding after
after-skip cursor e es h = ground arith

after-nil : (cursor : ℕ) → after cursor [] ≡ []
unfolding after
after-nil cursor = refl

-- The same from any cursor.
after-after :
    (run_id : String) (a b cursor n : ℕ) (events : List WorkflowEvent)
    → Contiguous run_id a events b
    → after (next_cursor cursor (take n (after cursor events))) events
      ≡ drop n (after cursor events)
after-after run_id a b cursor n [] h = rw (after-nil, after-nil) (sym (drop-nil n))
after-after run_id a b cursor n (e ∷ es) h = elim (Bool-cases (ltb cursor e.sequence)) [
  | inl later ↦
      let lt : cursor < a = omega (arith, h.1, ltb→lt cursor e.sequence later) in
      rw (after_all run_id a b cursor (e ∷ es) h lt) (after_page run_id a b cursor n (e ∷ es) h lt)
  | inr early ↦
      let le : e.sequence ≤ cursor = ground arith in
      rw (after-skip cursor e es le) (
        after-skip _ e es (
          omega (
            arith,
            next_cursor-ge cursor cursor n (after cursor es) (omega arith) (after-later cursor es),
            le,
          ))
        ∙ after-after run_id (a + 1) b cursor n es h.2)
]

-- In a valid store, two pages, the second from where the first ended, are one page of the joint length: a client
-- that polls with the cursors that it is given sees every event once, in order.
pub list_events_pages :
    (s : Store) (run_id : String) (cursor n m : ℕ) {page rest : List WorkflowEvent}
    → IsValid s
    → list_events run_id cursor n s ≡ ok page
    → list_events run_id (next_cursor cursor page) m s ≡ ok rest
    → list_events run_id cursor (n + m) s ≡ ok (page ++ rest)
unfolding list_events
list_events_pages s run_id cursor n m {page} {rest} v first second =
    elim (Option-cases (lookup run_id s.runs)) [
      | inl missing ↦ ground arith
      | inr (run, found) ↦
          let r = lookup-RunValid s run_id v found in
          let shown : (page ≡ take n (after cursor run.events))
              × (rest ≡ take m (after (next_cursor cursor page) run.events)) =
            ground arith in
          let joint : take (n + m) (after cursor run.events) ≡ page ++ rest =
            rw (shown.1, shown.0, after-after run_id r.first _ cursor n run.events r.logged)
              (take_add n m (after cursor run.events)) in
          ground (arith, joint)
    ]
