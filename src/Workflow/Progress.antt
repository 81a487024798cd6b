-- ===== src/Workflow/Progress.antt =====
-- worker/service.py, process_next: a worker claims a run, advances it and commits the transition.
use civitas.Prelude.{
  ℕ, ◌≡◌, false, refl, ap, ◌∙◌, subst, ◌+◌, true, some, none, Option-cases, inl, inr, List, lookup,
  ok, arith, Memᴰ, All-Memᴰ,
}
use civitas.Contracts.{WorkflowEvent}
use civitas.Workflow.Models.{WorkflowCheckpoint, WorkflowLimits}
use civitas.Workflow.Store.{WorkflowLease, Store, owns_lease, commit_transition}
use civitas.Workflow.Store.Runs.{commit_transition_of_Commits, Contiguous}
use civitas.Workflow.Store.Invariant.{lookup-RunValid}
use civitas.Workflow.Store.Reach.{System, Reach, Reach-IsSound, HeldWell}
use civitas.Workflow.Store.Takeover.{owns_lease-same_lease}
use civitas.Workflow.Orchestrator.{Ports}
use civitas.Workflow.Orchestrator.{advance}
use civitas.Workflow.Orchestrator.Log.{Extends, advance_log-Extends}

unowned :
    (s : Store) (lease : WorkflowLease) (now : ℕ)
    → lookup lease.planning_run_id s.runs ≡ none
    → owns_lease (lookup lease.planning_run_id s.runs) lease now ≡ false
unfolding owns_lease
unowned s lease now missing = ground arith

-- In every state that interleaved workers reach, a transition that `advance` returns from the
-- checkpoint of a lease that was handed out is accepted by the store as long as the lease is owned.
pub transition_commits :
    {y : System} (p : Ports) (limits : WorkflowLimits) (lease : WorkflowLease) (now t : ℕ)
    {updated : WorkflowCheckpoint} {events : List WorkflowEvent} {u : ℕ}
    → Reach y
    → Memᴰ lease y.held
    → owns_lease (lookup lease.planning_run_id y.store.runs) lease now ≡ true
    → advance p limits lease.checkpoint t ≡ ok ((updated, events), u)
    → (s' : Store) × (commit_transition lease updated events now y.store ≡ ok s')
transition_commits {y} p limits lease now t {updated} {events} {u} r mine owned advanced =
    elim (Option-cases (lookup lease.planning_run_id y.store.runs)) [
      | inl missing ↦ absurd (ground (arith, unowned y.store lease now missing))
      | inr (run, found) ↦
          let sound = Reach-IsSound r in
          let owned' : owns_lease (some run) lease now ≡ true =
            subst (λ o. owns_lease o lease now ≡ true) found owned in
          let shown =
            (All-Memᴰ (HeldWell y.store) sound.leases mine).1 run found
              (owns_lease-same_lease run lease now owned') in
          let valid = lookup-RunValid y.store lease.planning_run_id sound.valid found in
          let extends : Extends lease.checkpoint (ok ((updated, events), u)) =
            subst (Extends lease.checkpoint) advanced
              (advance_log-Extends p limits lease.checkpoint t) in
          let named : lease.checkpoint.planning_run_id ≡ lease.planning_run_id =
            ap (λ c. c.planning_run_id) shown.0 ∙ valid.scoped in
          (
            _,
            commit_transition_of_Commits lease updated events now y.store _ (record {
              run = run;
              found = found;
              owned = owned';
              scoped = extends.0 ∙ named;
              numbered =
                  subst
                    (λ id.
                      Contiguous id (run.checkpoint.event_sequence + 1) events
                        (updated.event_sequence + 1))
                    named
                    (subst
                      (λ n.
                        Contiguous lease.checkpoint.planning_run_id (n + 1) events
                          (updated.event_sequence + 1))
                      (ap (λ c. c.event_sequence) shown.0) extends.1);
              stored = refl;
            }),
          )
    ]
