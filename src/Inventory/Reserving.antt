-- ===== src/Inventory/Reserving.antt =====
-- persistence/inventory.py: InventoryService.reserve_fefo and reconcile_lot.
use civitas.Prelude.{
  ℕ, ◌+◌, ◌-◌, ◌==◌, min, ltb, Bool, true, false, ◌&&◌, Option, none, some, List, [], ◌∷◌, map, any,
  String, str_eq, ℤ, pos, value_error, duplicate_reservation, insufficient_inventory, Result, ok,
  raise_if, or_raise, ◌>>=◌, ◌>>◌, if◌then◌else◌,
}
use civitas.Inventory.{
  InventoryLot, MovementType, InventoryMovementModel, InventoryReservationModel, Stock, LotBalance,
  FefoAllocation, available_of, add_movements, is_eligible, balances, sum_of,
}

-- `sum(max(row.available, 0) for row in balances)`
unfoldable pub total_available : List LotBalance → ℕ
total_available [] = 0
total_available (row ∷ rows) = available_of row + total_available rows

-- The loop over the balances.
unfoldable pub allocate : List LotBalance → ℕ → List FefoAllocation
allocate [] remaining = []
allocate (row ∷ rows) remaining =
    let allocation = min (available_of row) remaining in
    let skipped = allocate rows remaining in
    let later = allocate rows (remaining - allocation) in
    let taken : FefoAllocation = record {
      lot_id = row.lot_id;
      quantity = allocation;
      expires_at = row.expires_at;
    } in
    if allocation == 0
    then skipped
    else if remaining - allocation == 0
    then taken ∷ []
    else taken ∷ later

-- The request of one reservation; the ids of its rows are fresh ones.
pub record Reservation : Type 0 where
  pub organization_id : String
  pub sku_id : String
  pub warehouse_id : String
  pub quantity : ℕ
  pub occurred_at : ℕ
  pub business_reference : String
  pub idempotency_key : String

abbrev pub is_reserved : Reservation → InventoryReservationModel → Bool
is_reserved r row =
    str_eq row.organization_id r.organization_id && str_eq row.idempotency_key r.idempotency_key

abbrev pub movement_of : (String → String) → Reservation → FefoAllocation → InventoryMovementModel
movement_of new_id r a = record {
  id = new_id a.lot_id;
  organization_id = r.organization_id;
  lot_id = a.lot_id;
  movement_type = MovementType.reservation;
  quantity_delta = pos 0;
  reserved_delta = pos a.quantity;
  occurred_at = r.occurred_at;
  business_reference = r.business_reference;
  idempotency_key = r.idempotency_key;
}

abbrev pub reservation_of : (String → String) → Reservation → String → InventoryReservationModel
reservation_of new_id r unit = record {
  id = new_id "";
  organization_id = r.organization_id;
  sku_id = r.sku_id;
  warehouse_id = r.warehouse_id;
  quantity = r.quantity;
  unit_of_measure = unit;
  occurred_at = r.occurred_at;
  business_reference = r.business_reference;
  idempotency_key = r.idempotency_key;
}

-- `select(unit_of_measure) … limit(1)`: of some lot that the query takes, here the first.
unfoldable pub unit_of : String → String → String → List InventoryLot → Option String
unit_of organization_id sku_id warehouse_id [] = none
unit_of organization_id sku_id warehouse_id (lot ∷ lots) =
    if is_eligible organization_id (some sku_id) (some warehouse_id) none lot
    then some lot.unit_of_measure
    else unit_of organization_id sku_id warehouse_id lots

unfoldable pub reserve_fefo :
    (String → String) → Reservation → Stock → Result (List FefoAllocation × Stock)
unfolding balances total_available add_movements unit_of
reserve_fefo new_id r stock = do
  raise_if (r.quantity == 0) (value_error "quantity must be positive")
  raise_if (any (is_reserved r) stock.reservations) (duplicate_reservation r.idempotency_key)
  rows ←
      balances r.organization_id (some r.sku_id) (some r.warehouse_id) (some r.occurred_at) true
        stock
  raise_if (ltb (total_available rows) r.quantity)
      (insufficient_inventory r.quantity (total_available rows))
  unit ←
      or_raise (unit_of r.organization_id r.sku_id r.warehouse_id stock.lots)
        (insufficient_inventory r.quantity 0)
  stock' ←
      add_movements (map (movement_of new_id r) (allocate rows r.quantity))
        (record stock { reservations = reservation_of new_id r unit ∷ stock.reservations })
  ok (allocate rows r.quantity, stock')

-- `case((movement_type == "receipt", quantity_delta), else_=0)`
abbrev pub receipt_delta : InventoryMovementModel → ℤ
receipt_delta m = elim m.movement_type [ MovementType.receipt ↦ m.quantity_delta | _ ↦ pos 0 ]

-- Whether the join of the lot with its movements has a row.
abbrev pub has_movement : String → List InventoryMovementModel → Bool
has_movement lot_id ms = any (λ m. str_eq m.lot_id lot_id) ms

abbrev pub same_amount : ℕ → ℤ → Bool
same_amount n (pos m) = n == m
same_amount n z = false

unfoldable pub reconcile_lot : String → Stock → Bool
unfolding sum_of
reconcile_lot lot_id stock =
    any
      (λ l.
        str_eq l.id lot_id
        && has_movement lot_id stock.movements
        && same_amount l.initial_quantity (sum_of receipt_delta none lot_id stock.movements))
      stock.lots
