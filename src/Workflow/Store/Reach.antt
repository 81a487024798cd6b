-- ===== src/Workflow/Store/Reach.antt =====
-- workflow/checkpointing.py: workers that share one store. A worker acts with a lease that `claim`
-- or `renew` has returned to it; any number of workers may interleave, and clocks may disagree.
use civitas.Prelude.{
  ℕ, ◌+◌, ◌≤◌, ◌≡◌, Option, some, inl, inr, List, [], ◌∷◌, String, arith, All, ok, All-mono,
  All-Memᴰ, Memᴰ,
}
use civitas.Contracts.{WorkflowEvent}
use civitas.Workflow.Models.{WorkflowCheckpoint, WorkflowLimits}
use civitas.Workflow.Store.Leases.{
  WorkflowLease, Store, init, enqueue, claim, renew, commit_transition, release, recover_abandoned,
}
use civitas.Workflow.Store.Runs.{Commits, commit_transition-Commits}
use civitas.Workflow.Store.Transitions.{
  Claims, claim-Claims, Renews, renew-Renews, Enqueues, enqueue-Enqueues, release-cases,
}
use civitas.Workflow.Store.Invariant.{
  IsValid, init-IsValid, enqueue-IsValid, claim-IsValid, renew-IsValid, commit_transition-IsValid,
  release-IsValid, recover_abandoned-IsValid,
}
use civitas.Workflow.Store.Ownership.{
  IsCurrent, IsCurrent-claim, issued-IsCurrent, IsCurrent-renew, renewed-IsCurrent,
  IsCurrent-commit, IsCurrent-recover_runs, IsCurrent-enqueue, IsCurrent-release,
}

-- The store, and every lease that it has handed out.
pub record System : Type 0 where
  pub store : Store
  pub held : List WorkflowLease

pub data Step (y z : System) : Type 0 where
  enqueue_step :
      (checkpoint : WorkflowCheckpoint) (limits : Option WorkflowLimits)
      → enqueue checkpoint limits y.store ≡ ok z.store
      → z.held ≡ y.held
      → Step y z
  claim_step :
      (worker_id : String) (now lease_for : ℕ) (lease : WorkflowLease)
      → claim worker_id now lease_for y.store ≡ (some lease, z.store)
      → z.held ≡ lease ∷ y.held
      → Step y z
  renew_step :
      (lease renewed : WorkflowLease) (now lease_for : ℕ)
      → Memᴰ lease y.held
      → renew lease now lease_for y.store ≡ ok (renewed, z.store)
      → z.held ≡ renewed ∷ y.held
      → Step y z
  commit_step :
      (lease : WorkflowLease) (checkpoint : WorkflowCheckpoint) (events : List WorkflowEvent)
      (now : ℕ)
      → Memᴰ lease y.held
      → commit_transition lease checkpoint events now y.store ≡ ok z.store
      → z.held ≡ y.held
      → Step y z
  release_step :
      (lease : WorkflowLease) → z.store ≡ release lease y.store → z.held ≡ y.held → Step y z
  recover_step :
      (now : ℕ) → z.store ≡ (recover_abandoned now y.store).1 → z.held ≡ y.held → Step y z

pub data Reach : System → Type 0 where
  start : Reach (record { store = init; held = [] })
  next : {y z : System} → Reach y → Step y z → Reach z

-- A lease that is out has an old token, and is current.
abbrev pub HeldWell : Store → WorkflowLease → Type 0
HeldWell s lease = (lease.token ≤ s.next_token) × IsCurrent s.runs lease

pub record IsSound (y : System) : Type 0 where
  pub valid : IsValid y.store
  pub leases : All (HeldWell y.store) y.held

enqueue-HeldWell :
    (checkpoint : WorkflowCheckpoint) (limits : Option WorkflowLimits) (s s' : Store)
    (lease : WorkflowLease)
    → Enqueues checkpoint limits s s'
    → HeldWell s lease
    → HeldWell s' lease
enqueue-HeldWell checkpoint limits s s' lease e h =
    (rw e.stored h.0, IsCurrent-enqueue checkpoint limits s s' lease e h.1)

claim-HeldWell :
    (worker_id : String) (now lease_for : ℕ) (s s' : Store) (issued lease : WorkflowLease)
    → Claims worker_id now lease_for s issued s'
    → HeldWell s lease
    → HeldWell s' lease
claim-HeldWell worker_id now lease_for s s' issued lease c h = (
  rw c.stored (omega (arith, h.0)),
  IsCurrent-claim worker_id now lease_for s s' issued lease c h.0 h.1,
)

renew-HeldWell :
    (now lease_for : ℕ) (s s' : Store) (renewing renewed lease : WorkflowLease)
    → Renews renewing now lease_for s renewed s'
    → HeldWell s lease
    → HeldWell s' lease
renew-HeldWell now lease_for s s' renewing renewed lease r h =
    (rw r.stored h.0, IsCurrent-renew now lease_for s s' renewing renewed lease r h.1)

commit-HeldWell :
    (committing : WorkflowLease) (checkpoint : WorkflowCheckpoint) (events : List WorkflowEvent)
    (now : ℕ) (s s' : Store) (lease : WorkflowLease)
    → Commits committing checkpoint events now s s'
    → HeldWell s lease
    → HeldWell s' lease
commit-HeldWell committing checkpoint events now s s' lease c h =
    (rw c.stored h.0, IsCurrent-commit committing checkpoint events now s s' lease c h.1)

release-HeldWell :
    (releasing : WorkflowLease) (s : Store) (lease : WorkflowLease)
    → HeldWell s lease
    → HeldWell (release releasing s) lease
release-HeldWell releasing s lease h = (
  elim (release-cases releasing s) [ inl same ↦ rw same h.0 | inr (_, _, _, done) ↦ rw done h.0 ],
  IsCurrent-release releasing s lease h.1,
)

recover-HeldWell :
    (now : ℕ) (s : Store) (lease : WorkflowLease)
    → HeldWell s lease
    → HeldWell (recover_abandoned now s).1 lease
unfolding recover_abandoned
recover-HeldWell now s lease h = (h.0, IsCurrent-recover_runs now s.runs lease h.1)

pub Step-IsSound : {y z : System} → Step y z → IsSound y → IsSound z
Step-IsSound {y} {z} (enqueue_step checkpoint limits done same) i =
    let e = enqueue-Enqueues checkpoint limits y.store z.store done in
    record {
      valid = enqueue-IsValid checkpoint limits y.store z.store i.valid done;
      leases = rw same (
          All-mono (HeldWell y.store) (HeldWell z.store)
            (λ l. enqueue-HeldWell checkpoint limits y.store z.store l e) y.held i.leases);
    }
Step-IsSound {y} {z} (claim_step worker_id now lease_for lease done same) i =
    let c = claim-Claims worker_id now lease_for y.store done in
    record {
      valid = rw done at (claim-IsValid worker_id now lease_for y.store i.valid);
      leases = rw same (
        (
          rw (c.stored, c.issued) (omega arith),
          issued-IsCurrent worker_id now lease_for y.store z.store lease c,
        ),
        All-mono (HeldWell y.store) (HeldWell z.store)
            (λ l. claim-HeldWell worker_id now lease_for y.store z.store lease l c) y.held i.leases,
      );
    }
Step-IsSound {y} {z} (renew_step lease renewed now lease_for mine done same) i =
    let r = renew-Renews lease now lease_for y.store done in
    let kept = renew-HeldWell now lease_for y.store z.store lease renewed in
    let (old, current) = All-Memᴰ (HeldWell y.store) i.leases mine in
    record {
      valid = renew-IsValid lease now lease_for y.store i.valid done;
      leases = rw same (
        kept renewed r
            (rw r.extended (old, renewed-IsCurrent y.store.runs lease (now + lease_for) current)),
        All-mono (HeldWell y.store) (HeldWell z.store) (λ l. kept l r) y.held i.leases,
      );
    }
Step-IsSound {y} {z} (commit_step lease checkpoint events now mine done same) i =
    let c = commit_transition-Commits lease checkpoint events now y.store z.store done in
    record {
      valid = commit_transition-IsValid lease checkpoint events now y.store z.store i.valid done;
      leases = rw same (
          All-mono (HeldWell y.store) (HeldWell z.store)
            (λ l. commit-HeldWell lease checkpoint events now y.store z.store l c) y.held i.leases);
    }
Step-IsSound {y} {z} (release_step lease done same) i = record {
  valid = rw done (release-IsValid lease y.store i.valid);
  leases =
      rw (same, done)
        (All-mono (HeldWell y.store) (HeldWell (release lease y.store))
          (release-HeldWell lease y.store) y.held i.leases);
}
Step-IsSound {y} {z} (recover_step now done same) i = record {
  valid = rw done (recover_abandoned-IsValid now y.store i.valid);
  leases =
      rw (same, done)
        (All-mono (HeldWell y.store) (HeldWell (recover_abandoned now y.store).1)
          (recover-HeldWell now y.store) y.held i.leases);
}

-- In every state that interleaved workers can reach, each run stands under its own id with a
-- gap-free event log that ends at the checkpoint's event number, and each lease that still owns
-- its run carries the stored checkpoint.
pub Reach-IsSound : {y : System} → Reach y → IsSound y
Reach-IsSound start = record { valid = init-IsValid; leases = tt }
Reach-IsSound (next r step) = Step-IsSound step (Reach-IsSound r)
