-- ===== src/Inventory/History.antt =====
-- persistence/inventory.py: sequences of receipts and reservations.
use civitas.Prelude.{
  ℕ, ◌≤◌, ◌<◌, ◌≡◌, refl, sym, subst, ap, ◌∙◌, true, Option-cases, inl, inr, List, [], ◌∷◌, any,
  some, String, str_eq_iff, All, All-mono, All-Memᴰ, Memᴰ, ◌≤ℤ◌, ok, raise, duplicate_reservation,
  arith,
}
use civitas.Inventory.{
  InventoryLot, FefoAllocation, Stock, LotBalance, balance_of, is_eligible, fefo_order,
  available_of, sum_of, receive_lot, add_movements,
}
use civitas.Inventory.Reserving.{
  Reservation, is_reserved, allocate, unit_of, reserve_fefo, reservation_of,
}
use civitas.Inventory.Allocation.{total_allocated, IsDrawn, allocate-total, allocate-IsDrawn}
use civitas.Inventory.Fefo.{FirstExpired, allocate-FirstExpired}
use civitas.Inventory.Rows.{rows-IsOrdered, All-taken_of, All-fefo_order}
use civitas.Inventory.Sums.{on_hand, reserved}
use civitas.Inventory.Sound.{
  IsSound, rows_for, reserve_fefo-adds, receive_lot-adds, reserve-IsSound, receive-IsSound,
}

-- A stock that receipts and reservations have made of another one, and the instant of the last
-- reservation: a clock that does not go back. A call that raises changes nothing.
pub data History (start : Stock) : ℕ → Stock → Type 0 where
  opened : History start 0 start
  received :
      {last : ℕ} {s s' : Stock}
      → History start last s
      → (lot : InventoryLot) (movement_id key reference : String)
      → receive_lot lot movement_id key reference s ≡ ok s'
      → History start last s'
  reserved_some :
      {last now : ℕ} {s s' : Stock} {as' : List FefoAllocation}
      → History start last s
      → (new_id : String → String) (r : Reservation) → now ≡ r.occurred_at
      → last ≤ now
      → reserve_fefo new_id r s ≡ ok (as', s')
      → History start now s'

abbrev pub empty_stock : Stock
empty_stock = record { lots = []; movements = []; reservations = [] }

empty-IsSound : IsSound 0 empty_stock
unfolding sum_of
empty-IsSound = record { distinct = tt; dated = tt; covered = λ lot_id t later. omega arith }

History-IsSound : {last : ℕ} {s : Stock} → History empty_stock last s → IsSound last s
History-IsSound opened = empty-IsSound
History-IsSound (received {last} {s} past lot movement_id key reference done) =
    receive-IsSound lot movement_id key reference last s (History-IsSound past) done
History-IsSound (reserved_some {last} {now} {s} {s'} past new_id r same later done) =
    subst (λ t. IsSound t s') (sym same)
      (reserve-IsSound new_id r last s (subst (λ t. last ≤ t) same later) (History-IsSound past)
        done)

-- Whatever lots were received and reserved on an empty stock, by a clock that does not go back, at
-- no instant from the last reservation on is more of a lot reserved than is on hand.
pub never_oversold :
    {last : ℕ} {s : Stock} (lot_id : String) (t : ℕ)
    → History empty_stock last s
    → last ≤ t
    → reserved t lot_id s.movements ≤ℤ on_hand t lot_id s.movements
never_oversold {last} {s} lot_id t past later = (History-IsSound past).covered lot_id t later

-- The lot of a balance: it is of the stock, and the query takes it.
abbrev pub IsOf : Reservation → Stock → LotBalance → Type 0
IsOf r s row =
    (l : InventoryLot) × Memᴰ l s.lots
    × (is_eligible r.organization_id (some r.sku_id) (some r.warehouse_id) (some r.occurred_at) l
        ≡ true)
    × (row ≡ balance_of (some r.occurred_at) s.movements l)

all_members {ℓ} : {A : Type ℓ} (xs : List A) → All (λ x. Memᴰ x xs) xs
all_members [] = tt
all_members (x ∷ xs) = (
  Memᴰ.head refl,
  All-mono (λ y. Memᴰ y xs) (λ y. Memᴰ y (x ∷ xs)) (λ y m. Memᴰ.tail m) xs (all_members xs),
)

rows-IsOf : (r : Reservation) (s : Stock) → All (IsOf r s) (rows_for r s)
rows-IsOf r s =
    All-taken_of (some r.occurred_at) s.movements
      (is_eligible r.organization_id (some r.sku_id) (some r.warehouse_id) (some r.occurred_at))
      (λ l. Memᴰ l s.lots) (IsOf r s) (fefo_order s.lots)
      (All-fefo_order (λ l. Memᴰ l s.lots) s.lots (all_members s.lots))
      (λ l there eligible. (l, there, eligible, refl))

-- The allocation takes a positive amount that is free of the balance.
abbrev pub Draws : LotBalance → FefoAllocation → Type 0
Draws row a =
    (a.lot_id ≡ row.lot_id)
    × (a.expires_at ≡ row.expires_at)
    × (0 < a.quantity)
    × (a.quantity ≤ available_of row)

-- A reservation that succeeds allocates the requested quantity; each allocation takes a positive
-- amount that was free from a lot of the stock that the query takes (of the organization, the SKU
-- and the warehouse, usable and not expired); and every such lot that expires before the lot of an
-- allocation is used up.
pub reserve_fefo-Allocates :
    (new_id : String → String) (r : Reservation) (s : Stock) {as' : List FefoAllocation}
    {s' : Stock}
    → reserve_fefo new_id r s ≡ ok (as', s')
    → (total_allocated as' ≡ r.quantity)
      × All (λ a. (row : LotBalance) × IsOf r s row × Draws row a) as'
      × All (FirstExpired (rows_for r s) as') as'
reserve_fefo-Allocates new_id r s {as'} {s'} done =
    let (wanted, enough, unused, which, lots, movements) = reserve_fefo-adds new_id r s done in
    let rows = rows_for r s in
    let now = some r.occurred_at in
    let taken = is_eligible r.organization_id (some r.sku_id) (some r.warehouse_id) now in
    let source : (a : FefoAllocation)
        → IsDrawn rows a
        → (row : LotBalance) × IsOf r s row × Draws row a =
      λ a (row, there, lot, expiry, some_taken, fits).
        (row, All-Memᴰ (IsOf r s) (rows-IsOf r s) there, (lot, expiry, some_taken, fits)) in
    subst
      (λ b.
        (total_allocated b ≡ r.quantity)
        × All (λ a. (row : LotBalance) × IsOf r s row × Draws row a) b
        × All (FirstExpired rows b) b)
      (sym which)
      (
        allocate-total rows r.quantity wanted enough,
        All-mono (IsDrawn rows) (λ a. (row : LotBalance) × IsOf r s row × Draws row a) source
            (allocate rows r.quantity) (allocate-IsDrawn rows r.quantity wanted),
        allocate-FirstExpired rows r.quantity wanted (rows-IsOrdered now s.movements taken s.lots),
      )

-- A success records its key, and every later state keeps the record.
reserve_fefo-records :
    (new_id : String → String) (r : Reservation) (s : Stock) {as' : List FefoAllocation}
    {s' : Stock}
    → reserve_fefo new_id r s ≡ ok (as', s')
    → (unit : String) × (s'.reservations ≡ reservation_of new_id r unit ∷ s.reservations)
unfolding reserve_fefo add_movements
reserve_fefo-records new_id r s done =
    elim (Option-cases (unit_of r.organization_id r.sku_id r.warehouse_id s.lots)) [
      | inl unknown ↦ absurd (ground arith)
      | inr (unit, known) ↦ (unit, ground arith)
    ]

reserve_fefo-refuses :
    (new_id : String → String) (r : Reservation) (s : Stock)
    → 0 < r.quantity
    → any (is_reserved r) s.reservations ≡ true
    → reserve_fefo new_id r s ≡ raise (duplicate_reservation r.idempotency_key)
unfolding reserve_fefo
reserve_fefo-refuses new_id r s wanted used = ground arith

History-keeps :
    (r : Reservation) {start : Stock} {last : ℕ} {s : Stock}
    → History start last s
    → any (is_reserved r) start.reservations ≡ true
    → any (is_reserved r) s.reservations ≡ true
History-keeps r opened used = used
History-keeps r (received {last} {s} past lot movement_id key reference done) used =
    let (new, lots, movements, same) = receive_lot-adds lot movement_id key reference s done in
    ap (any (is_reserved r)) same ∙ History-keeps r past used
History-keeps r (reserved_some {last} {now} {s} {s'} past new_id r' same later done) used =
    let (unit, records) = reserve_fefo-records new_id r' s done in
    let before = History-keeps r past used in
    ap (any (is_reserved r)) records ∙ ground (arith, before)

-- Once a reservation has succeeded, then, whatever is received and reserved after it, a request with
-- its organization and idempotency key, for any positive quantity of any lots, is refused as a
-- duplicate.
pub reserved_once :
    (new_id new_id' : String → String) (r r' : Reservation) (s : Stock) {as' : List FefoAllocation}
    {s' s'' : Stock} {last : ℕ}
    → reserve_fefo new_id r s ≡ ok (as', s')
    → History s' last s''
    → r'.organization_id ≡ r.organization_id
    → r'.idempotency_key ≡ r.idempotency_key
    → 0 < r'.quantity
    → reserve_fefo new_id' r' s'' ≡ raise (duplicate_reservation r'.idempotency_key)
reserved_once new_id new_id' r r' s {as'} {s'} {s''} done past organization key wanted =
    let (unit, records) = reserve_fefo-records new_id r s done in
    let used : any (is_reserved r') s'.reservations ≡ true =
      ap (any (is_reserved r')) records
      ∙ ground (
        arith,
        str_eq_iff r.organization_id r'.organization_id,
        str_eq_iff r.idempotency_key r'.idempotency_key,
      ) in
    reserve_fefo-refuses new_id' r' s'' wanted (History-keeps r' past used)
