-- ===== src/Inventory/Allocation.antt =====
-- persistence/inventory.py: what the loop of reserve_fefo takes from which balance.
use native.Mathlib.Nat.{min-eq_left, min-eq_right}
use civitas.Prelude.{
  ltb, ltb→lt, true, false, subst, sym, ℕ, ◌+◌, ◌-◌, ◌==◌, min, ◌≤◌, ◌<◌, ◌≡◌, ◌⊎◌, inl, inr, refl,
  Bool-cases, List, [], ◌∷◌, String, str_eq, All, All-mono, Memᴰ, arith, if◌then◌else◌,
}
use civitas.Inventory.{LotBalance, FefoAllocation, available_of}
use civitas.Inventory.Reserving.{total_available, allocate}

-- `sum(a.quantity for a in allocations)`
unfoldable pub total_allocated : List FefoAllocation → ℕ
total_allocated [] = 0
total_allocated (a ∷ as') = a.quantity + total_allocated as'

-- What the allocations take from the lot.
unfoldable pub allocated_to : String → List FefoAllocation → ℕ
allocated_to lot_id [] = 0
allocated_to lot_id (a ∷ as') =
    let rest = allocated_to lot_id as' in if str_eq a.lot_id lot_id then a.quantity + rest else rest

abbrev pub all_of : LotBalance → FefoAllocation
all_of row = record {
  lot_id = row.lot_id;
  quantity = available_of row;
  expires_at = row.expires_at;
}

-- One turn of the loop: nothing is free, or the row is taken whole, or it is enough.
pub allocate-cases :
    (row : LotBalance) (rows : List LotBalance) (n : ℕ)
    → 0 < n
    → ((available_of row ≡ 0) × (allocate (row ∷ rows) n ≡ allocate rows n))
      ⊎ ((0 < available_of row)
          × (available_of row < n)
          × (allocate (row ∷ rows) n ≡ all_of row ∷ allocate rows (n - available_of row)))
      ⊎ ((n ≤ available_of row)
          × (allocate (row ∷ rows) n
              ≡ record { lot_id = row.lot_id; quantity = n; expires_at = row.expires_at } ∷ []))
unfolding allocate
allocate-cases row rows n some_left = elim (Bool-cases (ltb (available_of row) n)) [
  | inl less ↦
      let small = ltb→lt (available_of row) n less in
      let taken : min (available_of row) n ≡ available_of row =
        min-eq_left (omega (arith, small)) in
      elim (Bool-cases (available_of row == 0)) [
        | inl none_free ↦ inl (ground arith, rw (taken, none_free) refl)
        | inr some_free ↦
            let left : (n - available_of row == 0) ≡ false = ground (arith, small) in
            inr (inl (ground arith, small, rw (taken, some_free, left) refl))
      ]
  | inr enough ↦
      let large : n ≤ available_of row = ground arith in
      let taken : min (available_of row) n ≡ n = min-eq_right large in
      let wanted : (n == 0) ≡ false = ground (arith, some_left) in
      let done : (n - n == 0) ≡ true = ground arith in
      inr (inr (large, rw (taken, wanted, done) refl))
]

-- A quantity that the rows can give is given in full.
pub allocate-total :
    (rows : List LotBalance) (n : ℕ)
    → 0 < n
    → n ≤ total_available rows
    → total_allocated (allocate rows n) ≡ n
unfolding total_allocated total_available
allocate-total [] n wanted enough = absurd (omega arith)
allocate-total (row ∷ rows) n wanted enough = elim (allocate-cases row rows n wanted) [
  | inl (none_free, step) ↦
      rw step (allocate-total rows n wanted (omega (arith, none_free, enough)))
  | inr (inl (some_free, less, step)) ↦
      let rest =
        allocate-total rows (n - available_of row) (omega (arith, less)) (omega (arith, enough)) in
      rw step (omega (arith, rest, less))
  | inr (inr (large, step)) ↦ rw step (omega arith)
]

-- An allocation takes something from its row, and no more than is free there.
abbrev pub IsDrawn : List LotBalance → FefoAllocation → Type 0
IsDrawn rows a =
    (row : LotBalance) × Memᴰ row rows
    × (a.lot_id ≡ row.lot_id)
    × (a.expires_at ≡ row.expires_at)
    × (0 < a.quantity)
    × (a.quantity ≤ available_of row)

IsDrawn-later :
    (row : LotBalance) (rows : List LotBalance) (a : FefoAllocation)
    → IsDrawn rows a
    → IsDrawn (row ∷ rows) a
IsDrawn-later row rows a (r, there, lot, expiry, some_taken, fits) =
    (r, Memᴰ.tail there, lot, expiry, some_taken, fits)

pub allocate-IsDrawn :
    (rows : List LotBalance) (n : ℕ) → 0 < n → All (IsDrawn rows) (allocate rows n)
unfolding allocate
allocate-IsDrawn [] n wanted = tt
allocate-IsDrawn (row ∷ rows) n wanted =
    let later : (m : ℕ) → 0 < m → All (IsDrawn (row ∷ rows)) (allocate rows m) = λ m some_left.
      All-mono (IsDrawn rows) (IsDrawn (row ∷ rows)) (IsDrawn-later row rows) (allocate rows m)
        (allocate-IsDrawn rows m some_left) in
    elim (allocate-cases row rows n wanted) [
      | inl (none_free, step) ↦ subst (All (IsDrawn (row ∷ rows))) (sym step) (later n wanted)
      | inr (inl (some_free, less, step)) ↦ subst (All (IsDrawn (row ∷ rows))) (sym step) (
        (row, Memᴰ.head refl, refl, refl, some_free, omega arith),
        later (n - available_of row) (omega (arith, less)),
      )
      | inr (inr (large, step)) ↦
          subst (All (IsDrawn (row ∷ rows))) (sym step)
            ((row, Memᴰ.head refl, refl, refl, wanted, large), tt)
    ]
