-- ===== src/Workflow/Store/Runs.antt =====
-- workflow/checkpointing.py: the event log of a run, and the successful commit taken apart.
use civitas.Prelude.{
  ℕ, ◌+◌, ◌≤◌, ◌≡◌, true, ◌↔◌, inl, inr, none, some, List, [], ◌∷◌, ◌++◌, String, str_eq_iff, arith,
  lookup, insert, Option-cases, ok,
}
use civitas.Contracts.{WorkflowEvent}
use civitas.Workflow.Models.{WorkflowCheckpoint}
use civitas.Workflow.Store.Leases.{
  WorkflowLease, StoredRun, Store, owns_lease, check_events, commit_transition,
}

-- The events of one run, numbered from `first` up to just below `next`.
abbrev pub Contiguous : String → ℕ → List WorkflowEvent → ℕ → Type 0
Contiguous run_id first [] next = first ≡ next
Contiguous run_id first (event ∷ events) next =
    (event.planning_run_id ≡ run_id)
    × (event.sequence ≡ first)
    × Contiguous run_id (first + 1) events next

pub Contiguous-append :
    (run_id : String) (a b c : ℕ) (xs ys : List WorkflowEvent)
    → Contiguous run_id a xs b
    → Contiguous run_id b ys c
    → Contiguous run_id a (xs ++ ys) c
Contiguous-append run_id a b c [] ys h k = rw h k
Contiguous-append run_id a b c (x ∷ xs) ys h k =
    (h.0, h.1, Contiguous-append run_id (a + 1) b c xs ys h.2 k)

pub Contiguous-le :
    (run_id : String) (a b : ℕ) (xs : List WorkflowEvent) → Contiguous run_id a xs b → a ≤ b
Contiguous-le run_id a b [] h = omega arith
Contiguous-le run_id a b (x ∷ xs) h = omega (arith, Contiguous-le run_id (a + 1) b xs h.2)

pub check_events-Contiguous :
    (run_id : String) (n m : ℕ) (events : List WorkflowEvent)
    → (check_events run_id n events ≡ ok m) ↔ Contiguous run_id n events m
unfolding check_events
check_events-Contiguous run_id n m [] = (λ h. ground arith, λ h. ground arith)
check_events-Contiguous run_id n m (e ∷ es) =
    let (there, back) = check_events-Contiguous run_id (n + 1) m es in
    (
      λ h. ground (arith, str_eq_iff e.planning_run_id run_id, there),
      λ h. ground (arith, str_eq_iff e.planning_run_id run_id, back h.2),
    )

-- What a successful commit has checked, about the run that it found.
pub record Commits (lease : WorkflowLease) (checkpoint : WorkflowCheckpoint)
    (events : List WorkflowEvent) (now : ℕ) (s s' : Store) : Type 0 where
  pub run : StoredRun
  pub found : lookup lease.planning_run_id s.runs ≡ some run
  pub owned : owns_lease (some run) lease now ≡ true
  pub scoped : checkpoint.planning_run_id ≡ lease.planning_run_id
  pub numbered :
      Contiguous lease.planning_run_id
        (run.checkpoint.event_sequence + 1)
        events
        (checkpoint.event_sequence + 1)
  pub stored : s' ≡ record s {
    runs =
        insert lease.planning_run_id
          (record run { checkpoint = checkpoint; events = run.events ++ events; lease = none })
          s.runs;
  }

module _ (lease : WorkflowLease) (checkpoint : WorkflowCheckpoint) (events : List WorkflowEvent)
    (now : ℕ) (s s' : Store) where
  -- A commit that returns has passed every check, and stores the transition whole.
  pub commit_transition-Commits :
      commit_transition lease checkpoint events now s ≡ ok s'
      → Commits lease checkpoint events now s s'
  unfolding commit_transition
  commit_transition-Commits h = elim (Option-cases (lookup lease.planning_run_id s.runs)) [
    | inl missing ↦ absurd (ground arith)
    | inr (run, found) ↦ record {
      run = run;
      found = found;
      owned = ground arith;
      scoped = ground (arith, str_eq_iff checkpoint.planning_run_id lease.planning_run_id);
      numbered =
          (check_events-Contiguous lease.planning_run_id (run.checkpoint.event_sequence + 1)
              (checkpoint.event_sequence + 1) events).0
            (ground arith);
      stored = ground arith;
    }
  ]

  -- A commit that meets the checks returns.
  pub commit_transition_of_Commits :
      Commits lease checkpoint events now s s'
      → commit_transition lease checkpoint events now s ≡ ok s'
  unfolding commit_transition
  commit_transition_of_Commits c = ground (
    arith,
    str_eq_iff checkpoint.planning_run_id lease.planning_run_id,
    Contiguous-le lease.planning_run_id (c.run.checkpoint.event_sequence + 1)
        (checkpoint.event_sequence + 1) events c.numbered,
    (check_events-Contiguous lease.planning_run_id (c.run.checkpoint.event_sequence + 1)
          (checkpoint.event_sequence + 1) events).1
        c.numbered,
  )
