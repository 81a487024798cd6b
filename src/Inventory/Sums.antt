-- ===== src/Inventory/Sums.antt =====
-- persistence/inventory.py: the sums behind a balance, and how movements change them.
use civitas.Prelude.{
  ℕ, ◌≤◌, ◌<◌, ◌≡◌, refl, sym, ap, ◌∙◌, true, Bool-cases, inl, inr, List, [], ◌∷◌, ◌++◌, map, some,
  String, str_eq, leb, All, ℤ, pos, neg_part, ◌+ℤ◌, ◌≤ℤ◌, +ℤ_parts, zero-+ℤ, +ℤ_pos_assoc, arith,
}
use civitas.Inventory.{InventoryMovementModel, FefoAllocation, sum_of}
use civitas.Inventory.Reserving.{Reservation, movement_of}
use civitas.Inventory.Allocation.{allocated_to}

abbrev pub on_hand : ℕ → String → List InventoryMovementModel → ℤ
on_hand t lot_id ms = sum_of (λ m. m.quantity_delta) (some t) lot_id ms

abbrev pub reserved : ℕ → String → List InventoryMovementModel → ℤ
reserved t lot_id ms = sum_of (λ m. m.reserved_delta) (some t) lot_id ms

-- No quantity is taken out, and nothing is reserved after the instant.
abbrev pub IsDated : ℕ → InventoryMovementModel → Type 0
IsDated last m = (neg_part m.quantity_delta ≡ 0) × (last < m.occurred_at → m.reserved_delta ≡ pos 0)

pub on_hand-grows :
    (last s t : ℕ) (lot_id : String) (ms : List InventoryMovementModel)
    → s ≤ t
    → All (IsDated last) ms
    → on_hand s lot_id ms ≤ℤ on_hand t lot_id ms
unfolding sum_of
on_hand-grows last s t lot_id [] later h = omega arith
on_hand-grows last s t lot_id (m ∷ ms) later ((up, dated), h) =
    let grows = on_hand-grows last s t lot_id ms later h in
    let sum_s = +ℤ_parts m.quantity_delta (on_hand s lot_id ms) in
    let sum_t = +ℤ_parts m.quantity_delta (on_hand t lot_id ms) in
    elim (Bool-cases (str_eq m.lot_id lot_id)) [
      | inl mine ↦ ground (arith, grows, sum_s, sum_t, up, later)
      | inr other ↦ ground (arith, grows)
    ]

pub reserved-settled :
    (last t : ℕ) (lot_id : String) (ms : List InventoryMovementModel)
    → last ≤ t
    → All (IsDated last) ms
    → reserved t lot_id ms ≡ reserved last lot_id ms
unfolding sum_of
reserved-settled last t lot_id [] later h = refl
reserved-settled last t lot_id (m ∷ ms) later ((up, dated), h) =
    let rest = reserved-settled last t lot_id ms later h in
    elim (Bool-cases (leb m.occurred_at last)) [
      | inl early ↦ ground (arith, rest)
      | inr late ↦
          let nothing : m.reserved_delta ≡ pos 0 = dated (ground arith) in
          let unchanged : m.reserved_delta +ℤ reserved t lot_id ms ≡ reserved t lot_id ms =
            ap (λ d. d +ℤ reserved t lot_id ms) nothing ∙ zero-+ℤ (reserved t lot_id ms) in
          ground (arith, rest, unchanged, late)
    ]

-- The sums after the movements of a reservation.
module _ (new_id : String → String) (r : Reservation) (t : ℕ) (now : r.occurred_at ≤ t) where
  pub reserved-more :
      (lot_id : String) (as' : List FefoAllocation) (ms : List InventoryMovementModel)
      → reserved t lot_id (map (movement_of new_id r) as' ++ ms)
        ≡ pos (allocated_to lot_id as') +ℤ reserved t lot_id ms
  unfolding sum_of allocated_to
  reserved-more lot_id [] ms = sym (zero-+ℤ (reserved t lot_id ms))
  reserved-more lot_id (a ∷ as') ms =
      let rest = reserved-more lot_id as' ms in
      let sums = +ℤ_pos_assoc a.quantity (allocated_to lot_id as') (reserved t lot_id ms) in
      elim (Bool-cases (str_eq a.lot_id lot_id)) [
        | inl mine ↦
            let counted : leb r.occurred_at t ≡ true = ground (arith, now) in
            rw (mine, counted) (ap (λ z. pos a.quantity +ℤ z) rest ∙ sums)
        | inr other ↦ rw other rest
      ]

  pub on_hand-same :
      (lot_id : String) (as' : List FefoAllocation) (ms : List InventoryMovementModel)
      → on_hand t lot_id (map (movement_of new_id r) as' ++ ms) ≡ on_hand t lot_id ms
  unfolding sum_of
  on_hand-same lot_id [] ms = refl
  on_hand-same lot_id (a ∷ as') ms =
      let rest = on_hand-same lot_id as' ms in
      let unchanged = zero-+ℤ (on_hand t lot_id (map (movement_of new_id r) as' ++ ms)) in
      ground (arith, rest, unchanged)
