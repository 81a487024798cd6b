-- ===== src/Workflow/Store/Takeover.antt =====
-- workflow/checkpointing.py: what a lease is good for, in every state that interleaved workers reach.
use civitas.Prelude.{
  ℕ, ◌+◌, ◌≤◌, ◌≡◌, refl, sym, true, false, none, some, List, ◌++◌, String, arith, lookup, inl, inr,
  Bool-cases, ok, raise, checkpoint_conflict, All-Memᴰ, Memᴰ, lookup-insert_self,
}
use civitas.Contracts.{WorkflowEvent}
use civitas.Workflow.Models.{WorkflowCheckpoint}
use civitas.Workflow.Store.Leases.{
  WorkflowLease, StoredRun, Store, same_lease, owns_lease, claim, commit_transition,
}
use civitas.Workflow.Store.Runs.{commit_transition-Commits}
use civitas.Workflow.Store.Transitions.{Claims, claim-Claims}
use civitas.Workflow.Store.Ownership.{superseded}
use civitas.Workflow.Store.Reach.{System, Reach, HeldWell, Reach-IsSound}

pub owns_lease-same_lease :
    (run : StoredRun) (lease : WorkflowLease) (now : ℕ)
    → owns_lease (some run) lease now ≡ true
    → same_lease run.lease lease ≡ true
unfolding owns_lease
owns_lease-same_lease run lease now h = ground arith

superseded-owns_lease :
    (worker_id : String) (now lease_for : ℕ) (s s' : Store) (issued stale : WorkflowLease)
    (later : ℕ) (run : StoredRun)
    → Claims worker_id now lease_for s issued s'
    → stale.token ≤ s.next_token
    → run.lease ≡ some issued
    → owns_lease (some run) stale later ≡ false
superseded-owns_lease worker_id now lease_for s s' issued stale later run c old e =
    elim (Bool-cases (owns_lease (some run) stale later)) [
      | inl owned ↦ absurd (
          superseded worker_id now lease_for s s' issued stale c old
            (rw e at (owns_lease-same_lease run stale later owned)))
      | inr free ↦ free
    ]

-- A lease that does not own its run is refused, whatever it brings.
commit_transition-disowned :
    (lease : WorkflowLease) (checkpoint : WorkflowCheckpoint) (events : List WorkflowEvent)
    (now : ℕ) (s : Store)
    → owns_lease (lookup lease.planning_run_id s.runs) lease now ≡ false
    → commit_transition lease checkpoint events now s
      ≡ raise (checkpoint_conflict "workflow lease is no longer valid")
unfolding commit_transition
commit_transition-disowned lease checkpoint events now s h = ground arith

-- No update is lost: in every reachable state, a commit that succeeds with a lease that was handed
-- out replaces the very checkpoint that the lease carried, appends its events to the log, and
-- frees the run.
pub commit_replaces_what_was_read :
    {y : System} (lease : WorkflowLease) (checkpoint : WorkflowCheckpoint)
    (events : List WorkflowEvent) (now : ℕ) {s' : Store}
    → Reach y
    → Memᴰ lease y.held
    → commit_transition lease checkpoint events now y.store ≡ ok s'
    → (run : StoredRun) × (lookup lease.planning_run_id y.store.runs ≡ some run)
      × (run.checkpoint ≡ lease.checkpoint)
      × (lookup lease.planning_run_id s'.runs
          ≡ some
              (record run { checkpoint = checkpoint; events = run.events ++ events; lease = none }))
commit_replaces_what_was_read {y} lease checkpoint events now {s'} r mine done =
    let c = commit_transition-Commits lease checkpoint events now y.store s' done in
    let shown =
      (All-Memᴰ (HeldWell y.store) (Reach-IsSound r).leases mine).1 c.run c.found
        (owns_lease-same_lease c.run lease now c.owned) in
    (
      c.run,
      c.found,
      sym shown.0,
      rw c.stored (lookup-insert_self lease.planning_run_id _ y.store.runs),
    )

-- A claim takes the run over: in every reachable state, no lease on the run that was out before
-- the claim can commit right after it, whatever it brings and whatever its clock says.
pub commit_after_takeover :
    {y : System} (worker_id : String) (now lease_for : ℕ) {issued : WorkflowLease} {s' : Store}
    (stale : WorkflowLease) (checkpoint : WorkflowCheckpoint) (events : List WorkflowEvent)
    (later : ℕ)
    → Reach y
    → Memᴰ stale y.held
    → claim worker_id now lease_for y.store ≡ (some issued, s')
    → stale.planning_run_id ≡ issued.planning_run_id
    → commit_transition stale checkpoint events later s'
      ≡ raise (checkpoint_conflict "workflow lease is no longer valid")
commit_after_takeover {y} worker_id now lease_for {issued} {s'} stale checkpoint events later r mine
      done same =
    let c = claim-Claims worker_id now lease_for y.store done in
    let old = (All-Memᴰ (HeldWell y.store) (Reach-IsSound r).leases mine).0 in
    let there : lookup stale.planning_run_id s'.runs
        ≡ some (record c.run { attempt_count = c.run.attempt_count + 1; lease = some issued }) =
      rw (same, c.stored, c.issued) (lookup-insert_self c.run_id _ y.store.runs) in
    commit_transition-disowned stale checkpoint events later s' (
      rw there
        (superseded-owns_lease worker_id now lease_for y.store s' issued stale later _ c old refl))
