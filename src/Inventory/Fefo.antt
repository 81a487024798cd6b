-- ===== src/Inventory/Fefo.antt =====
-- persistence/inventory.py: the loop of reserve_fefo takes what expires first.
use civitas.Prelude.{
  subst, sym, ℕ, ◌-◌, ◌≤◌, ◌<◌, ◌≡◌, ◌⊎◌, inl, inr, refl, List, [], ◌∷◌, All, All-mono, Memᴰ, arith,
}
use civitas.Inventory.{LotBalance, FefoAllocation, available_of}
use civitas.Inventory.Reserving.{allocate}
use civitas.Inventory.Allocation.{allocate-cases, all_of}

-- The rows stand in the order of their expiry.
abbrev pub IsOrdered : List LotBalance → Type 0
IsOrdered [] = Unit
IsOrdered (row ∷ rows) = All (λ r. row.expires_at ≤ r.expires_at) rows × IsOrdered rows

-- Nothing of the row is left free.
abbrev pub IsUsedUp : List FefoAllocation → LotBalance → Type 0
IsUsedUp allocations row = (available_of row ≡ 0) ⊎ Memᴰ (all_of row) allocations

-- A row that expires before the allocation's lot is used up.
abbrev pub FirstExpired : List LotBalance → List FefoAllocation → FefoAllocation → Type 0
FirstExpired rows allocations a =
    All (λ row. row.expires_at < a.expires_at → IsUsedUp allocations row) rows

module _ (row : LotBalance) (rows : List LotBalance) (allocations : List FefoAllocation) where
  -- Nothing expires before the first row.
  first-FirstExpired :
      (a : FefoAllocation)
      → a.expires_at ≡ row.expires_at
      → All (λ r. row.expires_at ≤ r.expires_at) rows
      → FirstExpired (row ∷ rows) allocations a
  first-FirstExpired a same ordered =
      let later : (r : LotBalance)
          → row.expires_at ≤ r.expires_at
          → r.expires_at < a.expires_at
          → IsUsedUp allocations r =
        λ r after before. absurd (omega (arith, same, after, before)) in
      (
        (λ before. absurd (omega (arith, same, before))),
        All-mono (λ r. row.expires_at ≤ r.expires_at)
            (λ r. r.expires_at < a.expires_at → IsUsedUp allocations r) later rows ordered,
      )

  later-FirstExpired :
      (before : List FefoAllocation)
      → ((a : FefoAllocation) → Memᴰ a before → Memᴰ a allocations)
      → IsUsedUp allocations row
      → (a : FefoAllocation) → FirstExpired rows before a
      → FirstExpired (row ∷ rows) allocations a
  later-FirstExpired before kept used a first =
      let lift : (r : LotBalance)
          → (r.expires_at < a.expires_at → IsUsedUp before r)
          → r.expires_at < a.expires_at
          → IsUsedUp allocations r =
        λ r was early. elim (was early) [
          | inl none_free ↦ inl none_free
          | inr taken ↦ inr (kept (all_of r) taken)
        ] in
      (
        (λ early. used),
        All-mono (λ r. r.expires_at < a.expires_at → IsUsedUp before r)
            (λ r. r.expires_at < a.expires_at → IsUsedUp allocations r) lift rows first,
      )

-- First expired, first out.
pub allocate-FirstExpired :
    (rows : List LotBalance) (n : ℕ)
    → 0 < n
    → IsOrdered rows
    → All (FirstExpired rows (allocate rows n)) (allocate rows n)
unfolding allocate
allocate-FirstExpired [] n wanted ordered = tt
allocate-FirstExpired (row ∷ rows) n wanted (first, ordered) =
    elim (allocate-cases row rows n wanted) [
      | inl (none_free, step) ↦
          subst (λ as'. All (FirstExpired (row ∷ rows) as') as') (sym step)
            (All-mono (FirstExpired rows (allocate rows n))
              (FirstExpired (row ∷ rows) (allocate rows n))
              (later-FirstExpired row rows (allocate rows n) (allocate rows n) (λ a m. m)
                (inl none_free))
              (allocate rows n) (allocate-FirstExpired rows n wanted ordered))
      | inr (inl (some_free, less, step)) ↦
          let rest = allocate rows (n - available_of row) in
          subst (λ as'. All (FirstExpired (row ∷ rows) as') as') (sym step)
            (
              first-FirstExpired row rows (all_of row ∷ rest) (all_of row) refl first,
              All-mono (FirstExpired rows rest) (FirstExpired (row ∷ rows) (all_of row ∷ rest))
                  (later-FirstExpired row rows (all_of row ∷ rest) rest (λ a m. Memᴰ.tail m)
                    (inr (Memᴰ.head refl)))
                  rest
                  (allocate-FirstExpired rows (n - available_of row) (omega (arith, less)) ordered),
            )
      | inr (inr (large, step)) ↦
          let last : FefoAllocation = record {
            lot_id = row.lot_id;
            quantity = n;
            expires_at = row.expires_at;
          } in
          subst (λ as'. All (FirstExpired (row ∷ rows) as') as') (sym step)
            (first-FirstExpired row rows (last ∷ []) last refl first, tt)
    ]
