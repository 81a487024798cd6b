-- ===== src/Inventory.antt =====
-- persistence/inventory.py and the inventory tables of persistence/models.py. Quantities are whole
-- base units; the sums of signed movements are the balances. A method runs in one transaction on
-- locked rows: it is one step, and a raised error leaves the tables as they were.
pub mod Reserving
pub mod Allocation
pub mod Fefo
pub mod Shares
pub mod Rows
pub mod Sums
pub mod Sound
pub mod History
pub mod Success
mod Tests
use civitas.Prelude.{
  ℕ, ◌+◌, ◌-◌, ◌==◌, min, ltb, leb, Bool, true, false, not, ◌&&◌, ◌||◌, Option, none, some, List,
  [], ◌∷◌, ◌++◌, map, any, keep, String, str_eq, str_leb, ℤ, pos, ◌+ℤ◌, excess, Error, value_error,
  runtime_error, duplicate_reservation, insufficient_inventory, Result, ok, raise_if, or_raise,
  ◌>>=◌, ◌>>◌, if◌then◌else◌,
}

pub data ExpiryKind : Type 0 where
  use_by best_before : ExpiryKind

pub data InventoryStatus : Type 0 where
  available reserved quarantined expired depleted : InventoryStatus

pub data MovementType : Type 0 where
  receipt reservation release shipment transfer waste adjustment : MovementType

-- `InventoryLot` and its table hold the same columns.
pub record InventoryLot : Type 0 where
  pub id : String
  pub organization_id : String
  pub sku_id : String
  pub warehouse_id : String
  pub received_at : ℕ
  pub manufactured_at : Option ℕ
  pub expires_at : ℕ
  pub expiry_kind : ExpiryKind
  pub initial_quantity : ℕ
  pub unit_of_measure : String
  pub status : InventoryStatus
  pub source_reference : Option String

pub record InventoryMovementModel : Type 0 where
  pub id : String
  pub organization_id : String
  pub lot_id : String
  pub movement_type : MovementType
  pub quantity_delta : ℤ
  pub reserved_delta : ℤ
  pub occurred_at : ℕ
  pub business_reference : String
  pub idempotency_key : String

pub record InventoryReservationModel : Type 0 where
  pub id : String
  pub organization_id : String
  pub sku_id : String
  pub warehouse_id : String
  pub quantity : ℕ
  pub unit_of_measure : String
  pub occurred_at : ℕ
  pub business_reference : String
  pub idempotency_key : String

-- The three tables, the newest row first.
pub record Stock : Type 0 where
  pub lots : List InventoryLot
  pub movements : List InventoryMovementModel
  pub reservations : List InventoryReservationModel

pub record LotBalance : Type 0 where
  pub lot_id : String
  pub sku_id : String
  pub warehouse_id : String
  pub expires_at : ℕ
  pub on_hand : ℤ
  pub reserved : ℤ

pub record FefoAllocation : Type 0 where
  pub lot_id : String
  pub quantity : ℕ
  pub expires_at : ℕ

-- `max(row.available, 0)`
abbrev pub available_of : LotBalance → ℕ
available_of row = excess row.on_hand row.reserved

-- The unique constraint on organization, idempotency key and lot.
abbrev pub same_movement : InventoryMovementModel → InventoryMovementModel → Bool
same_movement a b =
    str_eq a.organization_id b.organization_id
    && str_eq a.idempotency_key b.idempotency_key
    && str_eq a.lot_id b.lot_id

unfoldable pub add_movements : List InventoryMovementModel → Stock → Result Stock
add_movements new stock = do
  raise_if (any (λ m. any (same_movement m) stock.movements) new)
      (runtime_error "uq_inventory_movements_idempotency")
  ok (record stock { movements = new ++ stock.movements })

abbrev pub receipt_of : InventoryLot → String → String → String → InventoryMovementModel
receipt_of lot movement_id idempotency_key business_reference = record {
  id = movement_id;
  organization_id = lot.organization_id;
  lot_id = lot.id;
  movement_type = MovementType.receipt;
  quantity_delta = pos lot.initial_quantity;
  reserved_delta = pos 0;
  occurred_at = lot.received_at;
  business_reference = business_reference;
  idempotency_key = idempotency_key;
}

-- A lot's checks and its primary key are those of the table.
unfoldable pub receive_lot :
    InventoryLot → (movement_id idempotency_key business_reference : String) → Stock → Result Stock
unfolding add_movements
receive_lot lot movement_id idempotency_key business_reference stock = do
  raise_if (any (λ l. str_eq l.id lot.id) stock.lots) (runtime_error "inventory_lots_pkey")
  raise_if (lot.initial_quantity == 0) (runtime_error "ck_inventory_lots_initial_quantity")
  raise_if (leb lot.expires_at lot.received_at) (runtime_error "ck_inventory_lots_expiry")
  add_movements (receipt_of lot movement_id idempotency_key business_reference ∷ [])
      (record stock { lots = lot ∷ stock.lots })

-- The movements that a balance of the lot counts.
abbrev pub is_counted : Option ℕ → String → InventoryMovementModel → Bool
is_counted none lot_id m = str_eq m.lot_id lot_id
is_counted (some as_of) lot_id m = str_eq m.lot_id lot_id && leb m.occurred_at as_of

-- `coalesce(sum(delta), 0)`
unfoldable pub sum_of :
    (InventoryMovementModel → ℤ) → Option ℕ → String → List InventoryMovementModel → ℤ
sum_of delta as_of lot_id [] = pos 0
sum_of delta as_of lot_id (m ∷ ms) =
    let rest = sum_of delta as_of lot_id ms in
    if is_counted as_of lot_id m then delta m +ℤ rest else rest

unfoldable pub balance_of : Option ℕ → List InventoryMovementModel → InventoryLot → LotBalance
balance_of as_of movements lot = record {
  lot_id = lot.id;
  sku_id = lot.sku_id;
  warehouse_id = lot.warehouse_id;
  expires_at = lot.expires_at;
  on_hand = sum_of (λ m. m.quantity_delta) as_of lot.id movements;
  reserved = sum_of (λ m. m.reserved_delta) as_of lot.id movements;
}

-- `order_by(expires_at, id)`
abbrev pub precedes : InventoryLot → InventoryLot → Bool
precedes a b = ltb a.expires_at b.expires_at || (a.expires_at == b.expires_at && str_leb a.id b.id)

unfoldable pub place : InventoryLot → List InventoryLot → List InventoryLot
place lot [] = lot ∷ []
place lot (l ∷ lots) =
    let rest = place lot lots in elim (precedes lot l) [ true ↦ lot ∷ l ∷ lots | false ↦ l ∷ rest ]

unfoldable pub fefo_order : List InventoryLot → List InventoryLot
unfolding place
fefo_order [] = []
fefo_order (lot ∷ lots) = place lot (fefo_order lots)

-- `statement.where(column == value)` where a value is given
abbrev pub matches : Option String → String → Bool
matches none value = true
matches (some wanted) value = str_eq value wanted

-- `status in ("available", "reserved")`
abbrev pub is_usable : InventoryStatus → Bool
is_usable InventoryStatus.available = true
is_usable InventoryStatus.reserved = true
is_usable status = false

-- Whether the query takes the lot; the last two conditions are those of `eligible_only`.
unfoldable pub is_eligible : String → Option String → Option String → Option ℕ → InventoryLot → Bool
is_eligible organization_id sku_id warehouse_id eligible_at lot =
    str_eq lot.organization_id organization_id
    && matches sku_id lot.sku_id
    && matches warehouse_id lot.warehouse_id
    && elim eligible_at [
      | none ↦ true
      | some as_of ↦ is_usable lot.status && ltb as_of lot.expires_at
    ]

unfoldable pub balances :
    String → Option String → Option String → Option ℕ → Bool → Stock → Result (List LotBalance)
balances organization_id sku_id warehouse_id as_of eligible_only stock =
    let rows = λ (eligible_at : Option ℕ). map (balance_of as_of stock.movements) (
      keep (is_eligible organization_id sku_id warehouse_id eligible_at) (fefo_order stock.lots)) in
    elim eligible_only [
      | false ↦ ok (rows none)
      | true ↦ elim as_of [
        | none ↦
            raise_if true (value_error "as_of is required for eligible balance queries") >> ok []
        | some now ↦ ok (rows (some now))
      ]
    ]
