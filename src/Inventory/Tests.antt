-- ===== src/Inventory/Tests.antt =====
-- The inventory on two lots of one SKU: the one that expires first is emptied first.
use civitas.Prelude.{
  ◌≤◌, ◌<◌, ◌≡◌, refl, true, List, [], ◌∷◌, none, String, All, ◌+ℤ◌, excess, ◌≤ℤ◌, ok, raise,
  duplicate_reservation, insufficient_inventory, arith,
}
use civitas.Inventory.{
  LotBalance, ExpiryKind, InventoryStatus, InventoryLot, FefoAllocation, Stock, fefo_order,
  is_eligible, balance_of, sum_of, add_movements, receive_lot, receipt_of,
}
use civitas.Inventory.Reserving.{
  Reservation, reserve_fefo, allocate, total_available, reconcile_lot, movement_of, reservation_of,
}
use civitas.Inventory.Allocation.{total_allocated}
use civitas.Inventory.Fefo.{FirstExpired}
use civitas.Inventory.Sums.{on_hand, reserved}
use civitas.Inventory.Sound.{rows_for}
use civitas.Inventory.History.{
  History, empty_stock, IsOf, Draws, never_oversold, reserve_fefo-Allocates, reserved_once,
}
use civitas.Inventory.Success.{reserve_fefo-Grants}

abbrev late_lot : InventoryLot
late_lot = record {
  id = "late";
  organization_id = "org";
  sku_id = "milk";
  warehouse_id = "north";
  received_at = 1;
  manufactured_at = none;
  expires_at = 90;
  expiry_kind = ExpiryKind.use_by;
  initial_quantity = 8;
  unit_of_measure = "unit";
  status = InventoryStatus.available;
  source_reference = none;
}

abbrev soon_lot : InventoryLot
soon_lot = record late_lot { id = "soon"; received_at = 2; expires_at = 50; initial_quantity = 5 }

abbrev one_lot : Stock
one_lot = record {
  lots = late_lot ∷ [];
  movements = receipt_of late_lot "m1" "receipt-1" "order-1" ∷ [];
  reservations = [];
}

abbrev two_lots : Stock
two_lots = record {
  lots = soon_lot ∷ late_lot ∷ [];
  movements =
      receipt_of soon_lot "m2" "receipt-2" "order-2"
      ∷ receipt_of late_lot "m1" "receipt-1" "order-1"
      ∷ [];
  reservations = [];
}

receives_late : receive_lot late_lot "m1" "receipt-1" "order-1" empty_stock ≡ ok one_lot
unfolding receive_lot add_movements
receives_late = refl

receives_soon : receive_lot soon_lot "m2" "receipt-2" "order-2" one_lot ≡ ok two_lots
unfolding receive_lot add_movements
receives_soon = refl

abbrev six : Reservation
six = record {
  organization_id = "org";
  sku_id = "milk";
  warehouse_id = "north";
  quantity = 6;
  occurred_at = 10;
  business_reference = "execution-1";
  idempotency_key = "key-1";
}

abbrev new_id : String → String
new_id s = s

abbrev five_and_one : List FefoAllocation
five_and_one =
    record { lot_id = "soon"; quantity = 5; expires_at = 50 }
    ∷ record { lot_id = "late"; quantity = 1; expires_at = 90 }
    ∷ []

abbrev reserved_six : Stock
reserved_six = record {
  lots = soon_lot ∷ late_lot ∷ [];
  movements =
      movement_of new_id six (record { lot_id = "soon"; quantity = 5; expires_at = 50 })
      ∷ movement_of new_id six (record { lot_id = "late"; quantity = 1; expires_at = 90 })
      ∷ receipt_of soon_lot "m2" "receipt-2" "order-2"
      ∷ receipt_of late_lot "m1" "receipt-1" "order-1"
      ∷ [];
  reservations = reservation_of new_id six "unit" ∷ [];
}

reserves_six : reserve_fefo new_id six two_lots ≡ ok (five_and_one, reserved_six)
unfolding reserve_fefo fefo_order is_eligible excess balance_of sum_of ◌+ℤ◌ allocate
reserves_six = refl

reconciles : reconcile_lot "soon" reserved_six ≡ true
unfolding reconcile_lot ◌+ℤ◌
reconciles = refl

past : History empty_stock 10 reserved_six
past =
    History.reserved_some
      (History.received
        (History.received History.opened late_lot "m1" "receipt-1" "order-1" receives_late) soon_lot
        "m2" "receipt-2" "order-2" receives_soon)
      new_id six refl (omega arith) reserves_six

never_oversold_example :
    reserved 20 "late" reserved_six.movements ≤ℤ on_hand 20 "late" reserved_six.movements
never_oversold_example = never_oversold "late" 20 past (omega arith)

reserve_fefo-Allocates_example :
    (total_allocated five_and_one ≡ 6)
    × All (λ a. (row : LotBalance) × IsOf six two_lots row × Draws row a) five_and_one
    × All (FirstExpired (rows_for six two_lots) five_and_one) five_and_one
reserve_fefo-Allocates_example = reserve_fefo-Allocates new_id six two_lots reserves_six

abbrev again : Reservation
again = record six { warehouse_id = "south"; quantity = 1 }

reserved_once_example :
    reserve_fefo new_id again reserved_six ≡ raise (duplicate_reservation "key-1")
reserved_once_example =
    reserved_once new_id new_id six again two_lots reserves_six History.opened refl refl
      (omega arith)

abbrev twenty : Reservation
twenty = record six { quantity = 20; idempotency_key = "key-2" }

reserve_fefo-Grants_example :
    (20 ≤ total_available (rows_for twenty two_lots)
      → (s' : Stock) × (reserve_fefo new_id twenty two_lots
          ≡ ok (allocate (rows_for twenty two_lots) 20, s')))
    × (total_available (rows_for twenty two_lots) < 20
        → reserve_fefo new_id twenty two_lots
          ≡ raise (insufficient_inventory 20 (total_available (rows_for twenty two_lots))))
reserve_fefo-Grants_example =
    reserve_fefo-Grants new_id twenty two_lots (omega arith) refl (refl, (refl, tt))
