-- ===== src/Inventory/Rows.antt =====
-- persistence/inventory.py: the order of the balances, and whose they are.
use civitas.Prelude.{
  ℕ, ◌≤◌, ◌≡◌, ◌≢◌, Bool, true, Bool-cases, inl, inr, List, [], ◌∷◌, map, keep, All, All-mono,
  Option, arith, sym,
}
use civitas.Inventory.{
  InventoryLot, InventoryMovementModel, LotBalance, precedes, place, fefo_order, balance_of,
}
use civitas.Inventory.Fefo.{IsOrdered}
use civitas.Inventory.Shares.{IsDistinct}

All-keep {ℓ κ} :
    {A : Type ℓ} (P : A → Type κ) (p : A → Bool) (xs : List A) → All P xs → All P (keep p xs)
All-keep P p [] h = tt
All-keep P p (x ∷ xs) h = elim (Bool-cases (p x)) [
  | inl q ↦ rw (q, keep) (h.0, All-keep P p xs h.1)
  | inr q ↦ rw (q, keep) (All-keep P p xs h.1)
]

module _ {ℓ} (P : InventoryLot → Type ℓ) where
  All-place :
      (lot : InventoryLot) (lots : List InventoryLot) → P lot → All P lots → All P (place lot lots)
  unfolding place
  All-place lot [] p h = (p, tt)
  All-place lot (l ∷ lots) p h = elim (Bool-cases (precedes lot l)) [
    | inl q ↦ rw (q, place) (p, h)
    | inr q ↦ rw (q, place) (h.0, All-place lot lots p h.1)
  ]

  pub All-fefo_order : (lots : List InventoryLot) → All P lots → All P (fefo_order lots)
  unfolding fefo_order
  All-fefo_order [] h = tt
  All-fefo_order (lot ∷ lots) h = All-place lot (fefo_order lots) h.0 (All-fefo_order lots h.1)

-- Lots in the order of their expiry, and lots of different ids.
abbrev InOrder : List InventoryLot → Type 0
InOrder [] = Unit
InOrder (l ∷ lots) = All (λ k. l.expires_at ≤ k.expires_at) lots × InOrder lots

abbrev pub HaveDistinctIds : List InventoryLot → Type 0
HaveDistinctIds [] = Unit
HaveDistinctIds (l ∷ lots) = All (λ k. k.id ≢ l.id) lots × HaveDistinctIds lots

place-InOrder :
    (lot : InventoryLot) (lots : List InventoryLot) → InOrder lots → InOrder (place lot lots)
unfolding place
place-InOrder lot [] h = (tt, tt)
place-InOrder lot (l ∷ lots) (first, h) = elim (Bool-cases (precedes lot l)) [
  | inl q ↦
      let sooner : lot.expires_at ≤ l.expires_at = ground arith in
      let later : (k : InventoryLot) → l.expires_at ≤ k.expires_at → lot.expires_at ≤ k.expires_at =
        λ k after. omega (arith, sooner, after) in
      rw (q, place)
        ((sooner, All-mono _ (λ k. lot.expires_at ≤ k.expires_at) later lots first), (first, h))
  | inr q ↦
      let sooner : l.expires_at ≤ lot.expires_at = ground arith in
      rw (q, place)
        (
          All-place (λ k. l.expires_at ≤ k.expires_at) lot lots sooner first,
          place-InOrder lot lots h,
        )
]

fefo_order-InOrder : (lots : List InventoryLot) → InOrder (fefo_order lots)
unfolding fefo_order
fefo_order-InOrder [] = tt
fefo_order-InOrder (lot ∷ lots) = place-InOrder lot (fefo_order lots) (fefo_order-InOrder lots)

place-HaveDistinctIds :
    (lot : InventoryLot) (lots : List InventoryLot)
    → All (λ k. k.id ≢ lot.id) lots
    → HaveDistinctIds lots
    → HaveDistinctIds (place lot lots)
unfolding place
place-HaveDistinctIds lot [] fresh h = (tt, tt)
place-HaveDistinctIds lot (l ∷ lots) (apart, fresh) (first, h) =
    elim (Bool-cases (precedes lot l)) [
      | inl q ↦ rw (q, place) ((apart, fresh), (first, h))
      | inr q ↦
          rw (q, place)
            (
              All-place (λ k. k.id ≢ l.id) lot lots (λ e. apart (sym e)) first,
              place-HaveDistinctIds lot lots fresh h,
            )
    ]

fefo_order-HaveDistinctIds :
    (lots : List InventoryLot) → HaveDistinctIds lots → HaveDistinctIds (fefo_order lots)
unfolding fefo_order
fefo_order-HaveDistinctIds [] h = tt
fefo_order-HaveDistinctIds (lot ∷ lots) (fresh, h) =
    place-HaveDistinctIds lot (fefo_order lots) (All-fefo_order (λ k. k.id ≢ lot.id) lots fresh)
      (fefo_order-HaveDistinctIds lots h)

-- The balances of the lots that a query takes.
abbrev pub rows_of :
    Option ℕ
    → List InventoryMovementModel
    → (InventoryLot → Bool)
    → List InventoryLot
    → List LotBalance
rows_of as_of movements taken lots = map (balance_of as_of movements) (keep taken lots)

module _ (as_of : Option ℕ) (movements : List InventoryMovementModel)
    (taken : InventoryLot → Bool) where
  All-rows_of {ℓ} :
      (P : LotBalance → Type ℓ) (lots : List InventoryLot)
      → All (λ l. P (balance_of as_of movements l)) lots
      → All P (rows_of as_of movements taken lots)
  All-rows_of P [] h = tt
  All-rows_of P (l ∷ lots) h = elim (Bool-cases (taken l)) [
    | inl q ↦ rw (q, keep) (h.0, All-rows_of P lots h.1)
    | inr q ↦ rw (q, keep) (All-rows_of P lots h.1)
  ]

  -- What holds of the balance of every lot that is taken.
  pub All-taken {ℓ} :
      (P : LotBalance → Type ℓ) (lots : List InventoryLot)
      → ((l : InventoryLot) → taken l ≡ true → P (balance_of as_of movements l))
      → All P (rows_of as_of movements taken lots)
  All-taken P [] h = tt
  All-taken P (l ∷ lots) h = elim (Bool-cases (taken l)) [
    | inl q ↦ rw (q, keep) (h l q, All-taken P lots h)
    | inr q ↦ rw (q, keep) (All-taken P lots h)
  ]

  -- The same for lots of which something is known.
  pub All-taken_of {ℓ κ} :
      (Q : InventoryLot → Type κ) (P : LotBalance → Type ℓ) (lots : List InventoryLot)
      → All Q lots
      → ((l : InventoryLot) → Q l → taken l ≡ true → P (balance_of as_of movements l))
      → All P (rows_of as_of movements taken lots)
  All-taken_of Q P [] known h = tt
  All-taken_of Q P (l ∷ lots) (here, known) h = elim (Bool-cases (taken l)) [
    | inl q ↦ rw (q, keep) (h l here q, All-taken_of Q P lots known h)
    | inr q ↦ rw (q, keep) (All-taken_of Q P lots known h)
  ]

  IsOrdered-rows :
      (lots : List InventoryLot) → InOrder lots → IsOrdered (rows_of as_of movements taken lots)
  unfolding balance_of
  IsOrdered-rows [] h = tt
  IsOrdered-rows (l ∷ lots) (first, h) = elim (Bool-cases (taken l)) [
    | inl q ↦
        rw (q, keep)
          (All-rows_of (λ r. l.expires_at ≤ r.expires_at) lots first, IsOrdered-rows lots h)
    | inr q ↦ rw (q, keep) (IsOrdered-rows lots h)
  ]

  IsDistinct-rows :
      (lots : List InventoryLot)
      → HaveDistinctIds lots
      → IsDistinct (rows_of as_of movements taken lots)
  unfolding balance_of
  IsDistinct-rows [] h = tt
  IsDistinct-rows (l ∷ lots) (first, h) = elim (Bool-cases (taken l)) [
    | inl q ↦ rw (q, keep) (All-rows_of (λ r. r.lot_id ≢ l.id) lots first, IsDistinct-rows lots h)
    | inr q ↦ rw (q, keep) (IsDistinct-rows lots h)
  ]

  pub rows-IsOrdered :
      (lots : List InventoryLot) → IsOrdered (rows_of as_of movements taken (fefo_order lots))
  rows-IsOrdered lots = IsOrdered-rows (fefo_order lots) (fefo_order-InOrder lots)

  pub rows-IsDistinct :
      (lots : List InventoryLot)
      → HaveDistinctIds lots
      → IsDistinct (rows_of as_of movements taken (fefo_order lots))
  rows-IsDistinct lots h = IsDistinct-rows (fefo_order lots) (fefo_order-HaveDistinctIds lots h)
