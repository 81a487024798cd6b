-- ===== src/Workflow/Store/Invariant.antt =====
-- workflow/checkpointing.py: what holds of the store between two calls, whatever the callers pass.
use civitas.Prelude.{
  ℕ, ◌+◌, ◌≤◌, ◌≡◌, refl, true, Option, none, some, inl, inr, List, [], ◌∷◌, String, arith, lookup,
  insert, All, All-lookup, All-insert, All-mono, ok,
}
use civitas.Contracts.{WorkflowEvent}
use civitas.Workflow.Models.{WorkflowCheckpoint, WorkflowLimits}
use civitas.Workflow.Store.Leases.{
  WorkflowLease, StoredRun, Store, owns_lease, init, enqueue, claim, renew, commit_transition,
  release, recover_runs, recover_abandoned,
}
use civitas.Workflow.Store.Transitions.{
  Claims, claim-cases, release-cases, expire-cases, enqueue-Enqueues, claim-Claims, renew-Renews,
}
use civitas.Workflow.Store.Runs.{Contiguous, Contiguous-append, commit_transition-Commits}

-- A stored lease is one for the run that holds it, under a token that was handed out.
abbrev pub LeaseBound : ℕ → String → Option WorkflowLease → Type 0
LeaseBound next_token run_id none = Unit
LeaseBound next_token run_id (some lease) =
    (lease.planning_run_id ≡ run_id) × (lease.token ≤ next_token)

-- A run is stored under its own id, and its log ends at the checkpoint's event number.
pub record RunValid (next_token : ℕ) (entry : String × StoredRun) : Type 0 where
  pub scoped : entry.1.checkpoint.planning_run_id ≡ entry.0
  pub first : ℕ
  pub logged : Contiguous entry.0 first entry.1.events (entry.1.checkpoint.event_sequence + 1)
  pub leased : LeaseBound next_token entry.0 entry.1.lease

abbrev pub IsValid : Store → Type 0
IsValid s = All (RunValid s.next_token) s.runs

pub init-IsValid : IsValid init
unfolding init
init-IsValid = tt

pub lookup-RunValid :
    (s : Store) (run_id : String) {run : StoredRun}
    → IsValid s
    → lookup run_id s.runs ≡ some run
    → RunValid s.next_token (run_id, run)
lookup-RunValid s run_id v found = All-lookup (RunValid s.next_token) run_id s.runs v found

-- A run in the store may be replaced by a valid one.
insert-IsValid :
    (s : Store) (run_id : String) (run : StoredRun)
    → IsValid s
    → RunValid s.next_token (run_id, run)
    → IsValid (record s { runs = insert run_id run s.runs })
insert-IsValid s run_id run v r = All-insert (RunValid s.next_token) run_id run s.runs v r

pub enqueue-IsValid :
    (checkpoint : WorkflowCheckpoint) (limits : Option WorkflowLimits) (s s' : Store)
    → IsValid s
    → enqueue checkpoint limits s ≡ ok s'
    → IsValid s'
enqueue-IsValid checkpoint limits s s' v h =
    let e = enqueue-Enqueues checkpoint limits s s' h in
    rw e.stored (
      insert-IsValid s checkpoint.planning_run_id _ v (record {
        scoped = refl;
        first = checkpoint.event_sequence + 1;
        logged = refl;
        leased = tt;
      }))

unleased-RunValid :
    (n : ℕ) (run_id : String) (run : StoredRun)
    → RunValid n (run_id, run)
    → RunValid n (run_id, record run { lease = none })
unleased-RunValid n run_id run r = record {
  scoped = r.scoped;
  first = r.first;
  logged = r.logged;
  leased = tt;
}

pub commit_transition-IsValid :
    (lease : WorkflowLease) (checkpoint : WorkflowCheckpoint) (events : List WorkflowEvent)
    (now : ℕ) (s s' : Store)
    → IsValid s
    → commit_transition lease checkpoint events now s ≡ ok s'
    → IsValid s'
commit_transition-IsValid lease checkpoint events now s s' v h =
    let c = commit_transition-Commits lease checkpoint events now s s' h in
    let old = lookup-RunValid s lease.planning_run_id v c.found in
    rw c.stored (
      insert-IsValid s lease.planning_run_id _ v (record {
        scoped = c.scoped;
        first = old.first;
        logged =
            Contiguous-append lease.planning_run_id old.first (c.run.checkpoint.event_sequence + 1)
              (checkpoint.event_sequence + 1) c.run.events events old.logged c.numbered;
        leased = tt;
      }))

-- A lease that owns a run has the token of the one that is stored there.
owned_token :
    (n : ℕ) (run_id : String) (run : StoredRun) (lease : WorkflowLease) (now : ℕ)
    → LeaseBound n run_id run.lease
    → owns_lease (some run) lease now ≡ true
    → lease.token ≤ n
unfolding owns_lease
owned_token n run_id run lease now b h = ground arith

pub renew-IsValid :
    (lease : WorkflowLease) (now lease_for : ℕ) (s : Store) {renewed : WorkflowLease} {s' : Store}
    → IsValid s
    → renew lease now lease_for s ≡ ok (renewed, s')
    → IsValid s'
renew-IsValid lease now lease_for s {renewed} {s'} v h =
    let r = renew-Renews lease now lease_for s h in
    let old = lookup-RunValid s lease.planning_run_id v r.found in
    rw r.stored (
      insert-IsValid s lease.planning_run_id _ v (record {
        scoped = old.scoped;
        first = old.first;
        logged = old.logged;
        leased = rw r.extended (
          refl,
          owned_token s.next_token lease.planning_run_id r.run lease now old.leased r.owned,
        );
      }))

pub release-IsValid : (lease : WorkflowLease) (s : Store) → IsValid s → IsValid (release lease s)
release-IsValid lease s v = elim (release-cases lease s) [
  | inl same ↦ rw same v
  | inr (run, found, owned, done) ↦ rw done (
      insert-IsValid s lease.planning_run_id _ v (
        unleased-RunValid s.next_token lease.planning_run_id run
          (lookup-RunValid s lease.planning_run_id v found)))
]

recover_runs-IsValid :
    (n now : ℕ) (runs : List (String × StoredRun))
    → All (RunValid n) runs
    → All (RunValid n) (recover_runs now runs).0
unfolding recover_runs
recover_runs-IsValid n now [] v = tt
recover_runs-IsValid n now ((run_id, run) ∷ runs) v = (
  elim (expire-cases now run) [
    | inl kept ↦ rw kept v.0
    | inr dropped ↦ rw dropped (unleased-RunValid n run_id run v.0)
  ],
  recover_runs-IsValid n now runs v.1,
)

pub recover_abandoned-IsValid :
    (now : ℕ) (s : Store) → IsValid s → IsValid (recover_abandoned now s).1
unfolding recover_abandoned
recover_abandoned-IsValid now s v = recover_runs-IsValid s.next_token now s.runs v

LeaseBound-suc :
    (n : ℕ) (run_id : String) (lease : Option WorkflowLease)
    → LeaseBound n run_id lease
    → LeaseBound (n + 1) run_id lease
LeaseBound-suc n run_id none b = tt
LeaseBound-suc n run_id (some lease) b = (b.0, omega arith)

-- A later token bound admits what an earlier one did.
RunValid-suc : (n : ℕ) (entry : String × StoredRun) → RunValid n entry → RunValid (n + 1) entry
RunValid-suc n entry r = record {
  scoped = r.scoped;
  first = r.first;
  logged = r.logged;
  leased = LeaseBound-suc n entry.0 entry.1.lease r.leased;
}

claimed-IsValid :
    (worker_id : String) (now lease_for : ℕ) (s : Store) (lease : WorkflowLease) (s' : Store)
    → IsValid s
    → Claims worker_id now lease_for s lease s'
    → IsValid s'
claimed-IsValid worker_id now lease_for s lease s' v c =
    let old = lookup-RunValid s c.run_id v c.found in
    rw (c.stored, c.issued)
      (All-insert (RunValid (s.next_token + 1)) c.run_id _ s.runs
        (All-mono (RunValid s.next_token) (RunValid (s.next_token + 1)) (RunValid-suc s.next_token)
          s.runs v)
        (record {
          scoped = old.scoped;
          first = old.first;
          logged = old.logged;
          leased = (refl, omega arith);
        }))

pub claim-IsValid :
    (worker_id : String) (now lease_for : ℕ) (s : Store)
    → IsValid s
    → IsValid (claim worker_id now lease_for s).1
claim-IsValid worker_id now lease_for s v = elim (claim-cases worker_id now lease_for s) [
  | inl nothing ↦ rw nothing v
  | inr (lease, s', claimed) ↦ rw claimed (
      claimed-IsValid worker_id now lease_for s lease s' v
        (claim-Claims worker_id now lease_for s claimed))
]
