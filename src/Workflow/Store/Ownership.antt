-- ===== src/Workflow/Store/Ownership.antt =====
-- workflow/checkpointing.py: leases in the hands of workers. A lease that still owns its run
-- carries the checkpoint that the store holds.
use civitas.Prelude.{
  Option, ℕ, ◌+◌, ◌≤◌, ◌≡◌, sym, subst, ◌∙◌, true, none, some, inl, inr, List, [], ◌∷◌, String,
  arith, lookup, insert, Bool-cases, Dict, lookup-insert_self, lookup-insert_ne, str_eq, str_eq_iff,
}
use civitas.Contracts.{WorkflowEvent}
use civitas.Workflow.Models.{WorkflowCheckpoint, WorkflowLimits}
use civitas.Workflow.Store.Leases.{
  release, WorkflowLease, StoredRun, Store, same_lease, owns_lease, expire, recover_runs,
}
use civitas.Workflow.Store.Runs.{Commits}
use civitas.Workflow.Store.Transitions.{Claims, Renews, Enqueues, release-cases, expire-cases}

-- If the lease owns its run, it shows that run as it is stored.
abbrev pub Shows : StoredRun → WorkflowLease → Type 0
Shows run lease =
    same_lease run.lease lease ≡ true
    → (lease.checkpoint ≡ run.checkpoint) × (lease.attempt_count ≡ run.attempt_count)

abbrev pub IsCurrent : Dict StoredRun → WorkflowLease → Type 0
IsCurrent runs lease =
    (run : StoredRun) → lookup lease.planning_run_id runs ≡ some run → Shows run lease

-- A run with no lease is owned by none.
not-same_lease : (lease : WorkflowLease) → same_lease none lease ≡ true → ⊥
unfolding same_lease
not-same_lease lease owned = cc

disowned :
    (old run : StoredRun) (lease : WorkflowLease)
    → run ≡ record old { lease = none }
    → same_lease run.lease lease ≡ true
    → ⊥
disowned old run lease e owned = not-same_lease lease (rw e at owned)

-- Who owns a run after a renewal owned it before.
owned_before :
    (run : StoredRun) (renewing lease : WorkflowLease) (now expires_at : ℕ)
    → owns_lease (some run) renewing now ≡ true
    → same_lease (some (record renewing { expires_at = expires_at })) lease ≡ true
    → same_lease run.lease lease ≡ true
unfolding same_lease owns_lease
owned_before run renewing lease now expires_at o h = grind (arith, str_eq_iff)

-- A lease with a token that was out before does not own the run that is claimed now.
pub superseded :
    (worker_id : String) (now lease_for : ℕ) (s s' : Store) (issued lease : WorkflowLease)
    → Claims worker_id now lease_for s issued s'
    → lease.token ≤ s.next_token
    → same_lease (some issued) lease ≡ true
    → ⊥
unfolding same_lease
superseded worker_id now lease_for s s' issued lease c old owned = ground (arith, c.issued)

-- A lease stays current when a run is replaced, if it shows the new run wherever that is its own.
IsCurrent-insert :
    (runs : Dict StoredRun) (run_id : String) (new : StoredRun) (lease : WorkflowLease)
    → IsCurrent runs lease
    → (lease.planning_run_id ≡ run_id → Shows new lease)
    → IsCurrent (insert run_id new runs) lease
IsCurrent-insert runs run_id new lease c shows run found owned =
    elim (Bool-cases (str_eq lease.planning_run_id run_id)) [
      | inl same ↦
          let e : lease.planning_run_id ≡ run_id = (str_eq_iff _ _).0 same in
          let n : new ≡ run = ground (arith, lookup-insert_self run_id new runs) in
          subst (λ r. Shows r lease) n (shows e) owned
      | inr other ↦
          c run
            (sym (
                lookup-insert_ne lease.planning_run_id run_id new runs
                  (λ e. ground (arith, str_eq_iff lease.planning_run_id run_id)))
              ∙ found)
            owned
    ]

lookup-recover_runs :
    (now : ℕ) (run_id : String) (runs : Dict StoredRun) (run : StoredRun)
    → lookup run_id (recover_runs now runs).0 ≡ some run
    → (old : StoredRun) × (lookup run_id runs ≡ some old) × (run ≡ (expire now old).0)
unfolding lookup recover_runs
lookup-recover_runs now run_id [] run h = absurd (ground arith)
lookup-recover_runs now run_id ((i, r) ∷ runs) run h = elim (Bool-cases (str_eq run_id i)) [
  | inl here ↦ (r, ground arith, ground arith)
  | inr there ↦
      let (old, found, e) = lookup-recover_runs now run_id runs run (rw there at h) in
      (old, rw there found, e)
]

-- Dropping expired leases leaves every lease current.
pub IsCurrent-recover_runs :
    (now : ℕ) (runs : Dict StoredRun) (lease : WorkflowLease)
    → IsCurrent runs lease
    → IsCurrent (recover_runs now runs).0 lease
IsCurrent-recover_runs now runs lease c run found owned =
    let (old, before, e) = lookup-recover_runs now lease.planning_run_id runs run found in
    elim (expire-cases now old) [
      | inl kept ↦ subst (λ r. Shows r lease) (sym (e ∙ kept)) (c old before) owned
      | inr dropped ↦ absurd (disowned old run lease (e ∙ dropped) owned)
    ]

-- What has happened to the runs since a lease was handed out keeps it current: `claim`.
pub IsCurrent-claim :
    (worker_id : String) (now lease_for : ℕ) (s s' : Store) (issued lease : WorkflowLease)
    → Claims worker_id now lease_for s issued s'
    → lease.token ≤ s.next_token
    → IsCurrent s.runs lease
    → IsCurrent s'.runs lease
IsCurrent-claim worker_id now lease_for s s' issued lease c old current = rw c.stored (
    IsCurrent-insert s.runs c.run_id _ lease current
      (λ e owned. absurd (superseded worker_id now lease_for s s' issued lease c old owned)))

pub issued-IsCurrent :
    (worker_id : String) (now lease_for : ℕ) (s s' : Store) (issued : WorkflowLease)
    → Claims worker_id now lease_for s issued s'
    → IsCurrent s'.runs issued
issued-IsCurrent worker_id now lease_for s s' issued c run found owned =
    let same : run ≡ record c.run { attempt_count = c.run.attempt_count + 1; lease = some issued } =
      ground (
        arith,
        c.issued,
        c.stored,
        lookup-insert_self c.run_id
            (record c.run { attempt_count = c.run.attempt_count + 1; lease = some issued }) s.runs,
      ) in
    ground (arith, same, c.issued)

pub IsCurrent-renew :
    (now lease_for : ℕ) (s s' : Store) (renewing renewed lease : WorkflowLease)
    → Renews renewing now lease_for s renewed s'
    → IsCurrent s.runs lease
    → IsCurrent s'.runs lease
IsCurrent-renew now lease_for s s' renewing renewed lease r current = rw r.stored (
    IsCurrent-insert s.runs renewing.planning_run_id _ lease current (λ e owned.
      current r.run (rw e r.found)
        (owned_before r.run renewing lease now (now + lease_for) r.owned (rw r.extended at owned))))

-- The renewed lease is as current as the one that it replaces.
pub renewed-IsCurrent :
    (runs : Dict StoredRun) (lease : WorkflowLease) (expires_at : ℕ)
    → IsCurrent runs lease
    → IsCurrent runs (record lease { expires_at = expires_at })
unfolding same_lease
renewed-IsCurrent runs lease expires_at current run found owned = current run found (ground arith)

pub IsCurrent-commit :
    (committing : WorkflowLease) (checkpoint : WorkflowCheckpoint) (events : List WorkflowEvent)
    (now : ℕ) (s s' : Store) (lease : WorkflowLease)
    → Commits committing checkpoint events now s s'
    → IsCurrent s.runs lease
    → IsCurrent s'.runs lease
IsCurrent-commit committing checkpoint events now s s' lease c current = rw c.stored (
    IsCurrent-insert s.runs committing.planning_run_id _ lease current
      (λ e owned. absurd (not-same_lease lease owned)))

pub IsCurrent-enqueue :
    (checkpoint : WorkflowCheckpoint) (limits : Option WorkflowLimits) (s s' : Store)
    (lease : WorkflowLease)
    → Enqueues checkpoint limits s s'
    → IsCurrent s.runs lease
    → IsCurrent s'.runs lease
IsCurrent-enqueue checkpoint limits s s' lease e current = rw e.stored (
    IsCurrent-insert s.runs checkpoint.planning_run_id _ lease current
      (λ e owned. absurd (not-same_lease lease owned)))

pub IsCurrent-release :
    (releasing : WorkflowLease) (s : Store) (lease : WorkflowLease)
    → IsCurrent s.runs lease
    → IsCurrent (release releasing s).runs lease
IsCurrent-release releasing s lease current = elim (release-cases releasing s) [
  | inl same ↦ rw same current
  | inr (run, found, owned, done) ↦ rw done (
      IsCurrent-insert s.runs releasing.planning_run_id _ lease current
        (λ e mine. absurd (not-same_lease lease mine)))
]
