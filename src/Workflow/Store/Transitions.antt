-- ===== src/Workflow/Store/Transitions.antt =====
-- workflow/checkpointing.py: what `claim`, `renew` and `release` have found when they return.
use civitas.Prelude.{
  ℕ, ◌+◌, ◌<◌, ◌≡◌, true, false, Option, none, some, inl, inr, List, [], ◌∷◌, String, arith, lookup,
  insert, keys, All, Option-cases, Bool-cases, ok, Dict, sorted, ◌⊎◌,
}
use civitas.Workflow.Models.{WorkflowCheckpoint, WorkflowLimits}
use civitas.Workflow.Store.Leases.{
  WorkflowLease, StoredRun, Store, same_lease, owns_lease, is_claimable, first_claimable, claim,
  new_lease, leased, renew, release, expire, enqueue, new_run,
}

-- The run that the loop of `claim` takes is in the store and free.
first_claimable-eq-some :
    (ids : List String) (runs : Dict StoredRun) (now : ℕ) (run_id : String) (run : StoredRun)
    → first_claimable ids runs now ≡ some (run_id, run)
    → (lookup run_id runs ≡ some run) × (is_claimable run now ≡ true)
unfolding first_claimable
first_claimable-eq-some [] runs now run_id run h = absurd (ground arith)
first_claimable-eq-some (i ∷ ids) runs now run_id run h = elim (Option-cases (lookup i runs)) [
  | inl missing ↦ first_claimable-eq-some ids runs now run_id run (ground arith)
  | inr (r, found) ↦ elim (Bool-cases (is_claimable r now)) [
    | inl free ↦
        let here : (i ≡ run_id) × (r ≡ run) = ground arith in
        (rw (← here.0, ← here.1) found, rw (← here.1) free)
    | inr busy ↦ first_claimable-eq-some ids runs now run_id run (ground arith)
  ]
]

-- No run of the list is free where the loop finds none.
pub first_claimable-eq-none :
    (ids : List String) (runs : Dict StoredRun) (now : ℕ)
    → first_claimable ids runs now ≡ none
    → All (λ i. (run : StoredRun) → lookup i runs ≡ some run → is_claimable run now ≡ false) ids
unfolding first_claimable
first_claimable-eq-none [] runs now h = tt
first_claimable-eq-none (i ∷ ids) runs now h = (
  λ run found. elim (Bool-cases (is_claimable run now)) [
    | inl free ↦ absurd (ground arith)
    | inr busy ↦ busy
  ],
  first_claimable-eq-none ids runs now (ground arith),
)

pub record Claims (worker_id : String) (now lease_for : ℕ) (s : Store) (lease : WorkflowLease)
    (s' : Store) : Type 0 where
  pub run_id : String
  pub run : StoredRun
  pub found : lookup run_id s.runs ≡ some run
  pub free : is_claimable run now ≡ true
  pub issued : lease ≡ new_lease run_id run worker_id (s.next_token + 1) now lease_for
  pub stored : s' ≡ leased run_id run lease s

pub claim-Claims :
    (worker_id : String) (now lease_for : ℕ) (s : Store) {lease : WorkflowLease} {s' : Store}
    → claim worker_id now lease_for s ≡ (some lease, s')
    → Claims worker_id now lease_for s lease s'
unfolding claim
claim-Claims worker_id now lease_for s {lease} {s'} h =
    elim (Option-cases (first_claimable (sorted (keys s.runs)) s.runs now)) [
      | inl nothing ↦ absurd (ground arith)
      | inr ((run_id, run), taken) ↦
          let (found, free) =
            first_claimable-eq-some (sorted (keys s.runs)) s.runs now run_id run taken in
          record {
            run_id = run_id;
            run = run;
            found = found;
            free = free;
            issued = ground arith;
            stored = ground arith;
          }
    ]

pub record Renews (lease : WorkflowLease) (now lease_for : ℕ) (s : Store) (renewed : WorkflowLease)
    (s' : Store) : Type 0 where
  pub run : StoredRun
  pub positive : 0 < lease_for
  pub found : lookup lease.planning_run_id s.runs ≡ some run
  pub owned : owns_lease (some run) lease now ≡ true
  pub extended : renewed ≡ record lease { expires_at = now + lease_for }
  pub stored : s' ≡ record s {
    runs = insert lease.planning_run_id (record run { lease = some renewed }) s.runs;
  }

pub renew-Renews :
    (lease : WorkflowLease) (now lease_for : ℕ) (s : Store) {renewed : WorkflowLease} {s' : Store}
    → renew lease now lease_for s ≡ ok (renewed, s')
    → Renews lease now lease_for s renewed s'
unfolding renew
renew-Renews lease now lease_for s {renewed} {s'} h =
    elim (Option-cases (lookup lease.planning_run_id s.runs)) [
      | inl missing ↦ absurd (ground arith)
      | inr (run, found) ↦ record {
        run = run;
        positive = ground arith;
        found = found;
        owned = ground arith;
        extended = ground arith;
        stored = ground arith;
      }
    ]

-- `claim` finds nothing and changes nothing, or hands out one new lease.
pub claim-cases :
    (worker_id : String) (now lease_for : ℕ) (s : Store)
    → (claim worker_id now lease_for s ≡ (none, s))
      ⊎ ((lease : WorkflowLease) × (s' : Store) × (claim worker_id now lease_for s
            ≡ (some lease, s')))
unfolding claim
claim-cases worker_id now lease_for s =
    elim (Option-cases (first_claimable (sorted (keys s.runs)) s.runs now)) [
      | inl nothing ↦ inl (ground arith)
      | inr ((run_id, run), taken) ↦
          let lease = new_lease run_id run worker_id (s.next_token + 1) now lease_for in
          inr (lease, leased run_id run lease s, ground arith)
    ]

-- `release` leaves the store alone, or drops the lease that was passed.
pub release-cases :
    (lease : WorkflowLease) (s : Store)
    → (release lease s ≡ s)
      ⊎ ((run : StoredRun) × (lookup lease.planning_run_id s.runs ≡ some run)
          × (same_lease run.lease lease ≡ true)
          × (release lease s ≡ record s {
            runs = insert lease.planning_run_id (record run { lease = none }) s.runs;
          }))
unfolding release
release-cases lease s = elim (Option-cases (lookup lease.planning_run_id s.runs)) [
  | inl missing ↦ inl (ground arith)
  | inr (run, found) ↦ elim (Bool-cases (same_lease run.lease lease)) [
    | inl same ↦ inr (run, found, same, ground arith)
    | inr other ↦ inl (ground arith)
  ]
]

pub expire-cases :
    (now : ℕ) (run : StoredRun)
    → ((expire now run).0 ≡ run) ⊎ ((expire now run).0 ≡ record run { lease = none })
unfolding expire
expire-cases now run = ground arith

pub record Enqueues (checkpoint : WorkflowCheckpoint) (limits : Option WorkflowLimits)
    (s s' : Store) : Type 0 where
  pub fresh : lookup checkpoint.planning_run_id s.runs ≡ none
  pub stored :
      s' ≡ record s { runs = insert checkpoint.planning_run_id (new_run checkpoint limits) s.runs }

pub enqueue-Enqueues :
    (checkpoint : WorkflowCheckpoint) (limits : Option WorkflowLimits) (s s' : Store)
    → enqueue checkpoint limits s ≡ ok s'
    → Enqueues checkpoint limits s s'
unfolding enqueue
enqueue-Enqueues checkpoint limits s s' h = record { fresh = ground arith; stored = ground arith }
