-- ===== src/Inventory/Shares.antt =====
-- persistence/inventory.py: what the loop of reserve_fefo takes from one lot.
use civitas.Prelude.{
  false, subst, ℕ, ◌-◌, ◌≤◌, ◌<◌, ◌≡◌, ◌≢◌, inl, inr, refl, Bool-cases, List, [], ◌∷◌, String,
  str_eq, str_eq_iff, All, arith,
}
use civitas.Inventory.{LotBalance, available_of}
use civitas.Inventory.Reserving.{allocate}
use civitas.Inventory.Allocation.{allocate-cases, allocated_to}

-- No lot gives more than every row of it has free, when no two rows are of one lot.
abbrev pub IsDistinct : List LotBalance → Type 0
IsDistinct [] = Unit
IsDistinct (row ∷ rows) = All (λ r. r.lot_id ≢ row.lot_id) rows × IsDistinct rows

abbrev pub FreeAtMost : String → ℕ → LotBalance → Type 0
FreeAtMost lot_id n row = row.lot_id ≡ lot_id → available_of row ≤ n

allocated_to-others :
    (lot_id : String) (rows : List LotBalance) (n : ℕ)
    → All (λ r. r.lot_id ≢ lot_id) rows
    → 0 < n
    → allocated_to lot_id (allocate rows n) ≡ 0
unfolding allocated_to allocate
allocated_to-others lot_id [] n others wanted = refl
allocated_to-others lot_id (row ∷ rows) n (other, others) wanted =
    let apart : str_eq row.lot_id lot_id ≡ false = grind (arith, str_eq_iff) in
    elim (allocate-cases row rows n wanted) [
      | inl (none_free, step) ↦ rw step (allocated_to-others lot_id rows n others wanted)
      | inr (inl (some_free, less, step)) ↦
          let rest =
            allocated_to-others lot_id rows (n - available_of row) others (omega (arith, less)) in
          rw step (ground (arith, rest, apart))
      | inr (inr (large, step)) ↦ rw step (ground (arith, apart))
    ]

pub allocated_to-le :
    (lot_id : String) (free : ℕ) (rows : List LotBalance) (n : ℕ)
    → 0 < n
    → IsDistinct rows
    → All (FreeAtMost lot_id free) rows
    → allocated_to lot_id (allocate rows n) ≤ free
unfolding allocated_to allocate
allocated_to-le lot_id free [] n wanted distinct fits = omega arith
allocated_to-le lot_id free (row ∷ rows) n wanted (apart, distinct) (fit, fits) =
    elim (Bool-cases (str_eq row.lot_id lot_id)) [
      | inl equal ↦
          let one : row.lot_id ≡ lot_id = grind (arith, str_eq_iff) in
          let mine = fit one in
          let others : All (λ r. r.lot_id ≢ lot_id) rows =
            subst (λ k. All (λ r. r.lot_id ≢ k) rows) one apart in
          elim (allocate-cases row rows n wanted) [
            | inl (none_free, step) ↦
                rw step (allocated_to-le lot_id free rows n wanted distinct fits)
            | inr (inl (some_free, less, step)) ↦
                let rest =
                  allocated_to-others lot_id rows (n - available_of row) others
                    (omega (arith, less)) in
                rw step (ground (arith, rest, equal, mine))
            | inr (inr (large, step)) ↦ rw step (ground (arith, equal, mine, large))
          ]
      | inr other ↦ elim (allocate-cases row rows n wanted) [
        | inl (none_free, step) ↦ rw step (allocated_to-le lot_id free rows n wanted distinct fits)
        | inr (inl (some_free, less, step)) ↦
            let rest =
              allocated_to-le lot_id free rows (n - available_of row) (omega (arith, less)) distinct
                fits in
            rw step (ground (arith, rest, other))
        | inr (inr (large, step)) ↦ rw step (ground (arith, other))
      ]
    ]
