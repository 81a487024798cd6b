-- ===== src/Inventory/Success.antt =====
-- persistence/inventory.py: when reserve_fefo succeeds.
use civitas.Prelude.{
  ◌≤◌, ◌<◌, ◌≡◌, refl, false, Bool-cases, Option-cases, none, inl, inr, List, [], ◌∷◌, ◌++◌, map,
  keep, any, some, String, str_eq, All, ok, raise, insufficient_inventory, arith,
}
use civitas.Inventory.{
  InventoryLot, InventoryMovementModel, FefoAllocation, Stock, is_eligible, fefo_order,
  add_movements, balances, same_movement,
}
use civitas.Inventory.Reserving.{
  Reservation, is_reserved, allocate, total_available, unit_of, reserve_fefo, movement_of,
  reservation_of,
}
use civitas.Inventory.Rows.{rows_of, All-fefo_order}
use civitas.Inventory.Sound.{rows_for}

unit_of-none :
    (o k w : String) (lots : List InventoryLot)
    → unit_of o k w lots ≡ none
    → All (λ l. is_eligible o (some k) (some w) none l ≡ false) lots
unfolding unit_of
unit_of-none o k w [] h = tt
unit_of-none o k w (l ∷ lots) h = elim (Bool-cases (is_eligible o (some k) (some w) none l)) [
  | inl yes_it_is ↦ absurd (ground arith)
  | inr other ↦ (other, unit_of-none o k w lots (ground arith))
]

-- A lot that no query takes gives no balance.
no_rows :
    (r : Reservation) (s : Stock) (lots : List InventoryLot)
    → All
        (λ l. is_eligible r.organization_id (some r.sku_id) (some r.warehouse_id) none l ≡ false)
        lots
    → total_available (
        rows_of
          (some r.occurred_at)
          s.movements
          (is_eligible r.organization_id (some r.sku_id) (some r.warehouse_id) (some r.occurred_at))
          lots)
      ≡ 0
unfolding total_available
no_rows r s [] h = refl
no_rows r s (l ∷ lots) (other, h) =
    let taken =
      is_eligible r.organization_id (some r.sku_id) (some r.warehouse_id) (some r.occurred_at) in
    let not_taken : taken l ≡ false = unfold is_eligible in ground arith in
    rw (not_taken, keep) (no_rows r s lots h)

unused_key :
    (m : InventoryMovementModel) (movements : List InventoryMovementModel)
    → All (λ n. str_eq m.idempotency_key n.idempotency_key ≡ false) movements
    → any (same_movement m) movements ≡ false
unused_key m [] h = refl
unused_key m (n ∷ ms) (apart, h) = ground (arith, unused_key m ms h)

no_clash :
    (new_id : String → String) (r : Reservation) (as' : List FefoAllocation)
    (movements : List InventoryMovementModel)
    → All (λ n. str_eq r.idempotency_key n.idempotency_key ≡ false) movements
    → any (λ m. any (same_movement m) movements) (map (movement_of new_id r) as') ≡ false
no_clash new_id r [] movements h = refl
no_clash new_id r (a ∷ as') movements h =
    ground
      (arith, unused_key (movement_of new_id r a) movements h, no_clash new_id r as' movements h)

-- A request for a positive quantity under a key that no reservation and no movement of the stock
-- has is granted exactly when the lots that it may use have that much free; otherwise it is refused
-- as InsufficientInventory, with the quantity that is free.
pub reserve_fefo-Grants :
    (new_id : String → String) (r : Reservation) (s : Stock)
    → 0 < r.quantity
    → any (is_reserved r) s.reservations ≡ false
    → All (λ m. str_eq r.idempotency_key m.idempotency_key ≡ false) s.movements
    → (r.quantity ≤ total_available (rows_for r s)
        → (s' : Stock) × (reserve_fefo new_id r s ≡ ok (allocate (rows_for r s) r.quantity, s')))
      × (total_available (rows_for r s) < r.quantity
          → reserve_fefo new_id r s
            ≡ raise (insufficient_inventory r.quantity (total_available (rows_for r s))))
unfolding reserve_fefo balances add_movements
reserve_fefo-Grants new_id r s wanted unused unmoved = (
  λ enough. elim (Option-cases (unit_of r.organization_id r.sku_id r.warehouse_id s.lots)) [
    | inl unknown ↦
        let other = unit_of-none r.organization_id r.sku_id r.warehouse_id s.lots unknown in
        let nothing = no_rows r s (fefo_order s.lots) (All-fefo_order _ s.lots other) in
        absurd (omega (arith, nothing, enough, wanted))
    | inr (unit, known) ↦
        let taken = allocate (rows_for r s) r.quantity in
        let clear = no_clash new_id r taken s.movements unmoved in
        (
          record s {
            movements = map (movement_of new_id r) taken ++ s.movements;
            reservations = reservation_of new_id r unit ∷ s.reservations;
          },
          ground (arith, clear),
        )
  ],
  λ short. ground arith,
)
