-- ===== src/Workflow/Store/Claiming.antt =====
-- workflow/checkpointing.py: when `claim` finds work, and what it hands out.
use civitas.Prelude.{
  ℕ, ◌≡◌, ◌↔◌, false, none, some, inl, inr, String, arith, lookup, keys, sorted, All-keys-lookup,
  All-of-sorted, ◌<◌, ◌⊎◌, refl, true, Bool-cases, Option,
}
use civitas.Workflow.Store.Leases.{
  WorkflowLease, StoredRun, Store, is_claimable, first_claimable, claim,
}
use civitas.Workflow.Store.Transitions.{first_claimable-eq-none, claim-Claims, claim-cases}

claim-eq-none :
    (worker_id : String) (now lease_for : ℕ) (s : Store)
    → claim worker_id now lease_for s ≡ (none, s)
    → first_claimable (sorted (keys s.runs)) s.runs now ≡ none
unfolding claim
claim-eq-none worker_id now lease_for s h = ground arith

-- A run that is not free: it is finished, or under a lease that runs out later than now.
abbrev pub IsTaken : StoredRun → ℕ → Type 0
IsTaken run now =
    (run.checkpoint.completed ≡ true)
    ⊎ ((lease : WorkflowLease) × (run.lease ≡ some lease) × (now < lease.expires_at))

IsTaken-of :
    (run : StoredRun) (now : ℕ) (lease : Option WorkflowLease)
    → run.lease ≡ lease
    → is_claimable run now ≡ false
    → IsTaken run now
unfolding is_claimable
IsTaken-of run now none e h = inl (ground arith)
IsTaken-of run now (some lease) e h = elim (Bool-cases run.checkpoint.completed) [
  | inl done ↦ inl done
  | inr unfinished ↦ inr (lease, e, ground arith)
]

IsTaken-busy : (run : StoredRun) (now : ℕ) → IsTaken run now → is_claimable run now ≡ false
unfolding is_claimable
IsTaken-busy run now (inl done) = ground arith
IsTaken-busy run now (inr (lease, e, later)) = ground (arith, e, later)

-- `claim` finds nothing, and leaves the store as it is, exactly when every stored run is finished
-- or under a lease that expires later than now.
pub claim-none_iff :
    (worker_id : String) (now lease_for : ℕ) (s : Store)
    → (claim worker_id now lease_for s ≡ (none, s))
      ↔ ((run_id : String) (run : StoredRun) → lookup run_id s.runs ≡ some run → IsTaken run now)
claim-none_iff worker_id now lease_for s = (
  λ nothing run_id run found. IsTaken-of run now run.lease refl (
      All-keys-lookup (λ i. (r : StoredRun) → lookup i s.runs ≡ some r → is_claimable r now ≡ false)
        run_id s.runs
        (All-of-sorted _ (keys s.runs) (
          first_claimable-eq-none (sorted (keys s.runs)) s.runs now
            (claim-eq-none worker_id now lease_for s nothing)))
        found run found),
  λ busy. elim (claim-cases worker_id now lease_for s) [
    | inl nothing ↦ nothing
    | inr (lease, s', claimed) ↦
        let c = claim-Claims worker_id now lease_for s claimed in
        let taken = IsTaken-busy c.run now (busy c.run_id c.run c.found) in
        absurd (ground (arith, taken, c.free))
  ],
)
