-- ===== src/Inventory/Sound.antt =====
-- persistence/inventory.py: receipts and reservations keep the stock from being oversold.
use civitas.Prelude.{
  ℕ, ◌≤◌, ◌<◌, ◌≡◌, ◌≢◌, refl, sym, subst, ◌∙◌, false, List, [], ◌∷◌, ◌++◌, map, any, some, String,
  str_eq, str_eq_iff, All, All-mono, All-append, pos, ◌+ℤ◌, ◌≤ℤ◌, +ℤ_parts, zero-+ℤ, excess, ok,
  arith,
}
use civitas.Inventory.{
  InventoryLot, InventoryMovementModel, FefoAllocation, Stock, LotBalance, balance_of, receipt_of,
  sum_of, is_eligible, fefo_order, balances, receive_lot, add_movements,
}
use civitas.Inventory.Reserving.{
  Reservation, movement_of, is_reserved, allocate, total_available, reserve_fefo,
}
use civitas.Inventory.Allocation.{allocated_to}
use civitas.Inventory.Shares.{FreeAtMost, allocated_to-le}
use civitas.Inventory.Rows.{HaveDistinctIds, rows_of, All-taken, rows-IsDistinct}
use civitas.Inventory.Sums.{
  on_hand, reserved, IsDated, on_hand-grows, reserved-settled, reserved-more, on_hand-same,
}

-- The balances that a reservation looks at.
abbrev pub rows_for : Reservation → Stock → List LotBalance
rows_for r s =
    rows_of (some r.occurred_at) s.movements
      (is_eligible r.organization_id (some r.sku_id) (some r.warehouse_id) (some r.occurred_at))
      (fefo_order s.lots)

-- A reservation that succeeds had enough, and adds the movements of its allocations.
pub reserve_fefo-adds :
    (new_id : String → String) (r : Reservation) (s : Stock) {as' : List FefoAllocation}
    {s' : Stock}
    → reserve_fefo new_id r s ≡ ok (as', s')
    → (0 < r.quantity)
      × (r.quantity ≤ total_available (rows_for r s))
      × (any (is_reserved r) s.reservations ≡ false)
      × (as' ≡ allocate (rows_for r s) r.quantity)
      × (s'.lots ≡ s.lots)
      × (s'.movements ≡ map (movement_of new_id r) as' ++ s.movements)
unfolding reserve_fefo balances add_movements
reserve_fefo-adds new_id r s h = ground arith

-- A receipt that succeeds adds a new lot and its movement.
pub receive_lot-adds :
    (lot : InventoryLot) (movement_id key reference : String) (s : Stock) {s' : Stock}
    → receive_lot lot movement_id key reference s ≡ ok s'
    → (any (λ l. str_eq l.id lot.id) s.lots ≡ false)
      × (s'.lots ≡ lot ∷ s.lots)
      × (s'.movements ≡ receipt_of lot movement_id key reference ∷ s.movements)
      × (s'.reservations ≡ s.reservations)
unfolding receive_lot add_movements
receive_lot-adds lot movement_id key reference s h = ground arith

-- At every instant from the last reservation on, no lot has more reserved than it holds.
abbrev pub IsCovered : ℕ → List InventoryMovementModel → Type 0
IsCovered last ms =
    (lot_id : String) (t : ℕ) → last ≤ t → reserved t lot_id ms ≤ℤ on_hand t lot_id ms

pub record IsSound (last : ℕ) (s : Stock) : Type 0 where
  pub distinct : HaveDistinctIds s.lots
  pub dated : All (IsDated last) s.movements
  pub covered : IsCovered last s.movements

any-false-All :
    (id : String) (lots : List InventoryLot)
    → any (λ l. str_eq l.id id) lots ≡ false
    → All (λ l. l.id ≢ id) lots
any-false-All id [] h = tt
any-false-All id (l ∷ lots) h =
    (λ e. grind (arith, str_eq_iff), any-false-All id lots (ground arith))

IsDated-later :
    (last now : ℕ) (m : InventoryMovementModel) → last ≤ now → IsDated last m → IsDated now m
IsDated-later last now m later (up, dated) = (up, λ after. dated (omega arith))

reservation-IsDated :
    (new_id : String → String) (r : Reservation) (as' : List FefoAllocation)
    → All (IsDated r.occurred_at) (map (movement_of new_id r) as')
reservation-IsDated new_id r [] = tt
reservation-IsDated new_id r (a ∷ as') =
    ((refl, λ after. absurd (omega arith)), reservation-IsDated new_id r as')

-- What the allocations take from a lot was free at the instant of the reservation.
allocated-free :
    (r : Reservation) (s : Stock) (lot_id : String)
    → HaveDistinctIds s.lots
    → 0 < r.quantity
    → allocated_to lot_id (allocate (rows_for r s) r.quantity)
      ≤ excess
          (on_hand r.occurred_at lot_id s.movements)
          (reserved r.occurred_at lot_id s.movements)
unfolding balance_of
allocated-free r s lot_id distinct wanted =
    let now = some r.occurred_at in
    let taken = is_eligible r.organization_id (some r.sku_id) (some r.warehouse_id) now in
    let free =
      excess (on_hand r.occurred_at lot_id s.movements)
        (reserved r.occurred_at lot_id s.movements) in
    let fits : All (FreeAtMost lot_id free) (rows_for r s) =
      All-taken now s.movements taken (FreeAtMost lot_id free) (fefo_order s.lots)
        (λ l eligible one.
          subst
            (λ k.
              excess (on_hand r.occurred_at l.id s.movements)
                (reserved r.occurred_at l.id s.movements)
              ≤ excess (on_hand r.occurred_at k s.movements) (reserved r.occurred_at k s.movements))
            one (omega arith)) in
    allocated_to-le lot_id free (rows_for r s) r.quantity wanted
      (rows-IsDistinct now s.movements taken s.lots distinct) fits

reserve-IsCovered :
    (new_id : String → String) (r : Reservation) (last : ℕ) (ms : List InventoryMovementModel)
    (as' : List FefoAllocation)
    → last ≤ r.occurred_at
    → All (IsDated last) ms
    → IsCovered last ms
    → ((lot_id : String)
        → allocated_to lot_id as'
          ≤ excess (on_hand r.occurred_at lot_id ms) (reserved r.occurred_at lot_id ms))
    → IsCovered r.occurred_at (map (movement_of new_id r) as' ++ ms)
unfolding excess
reserve-IsCovered new_id r last ms as' later dated covered fits lot_id t now =
    let n = allocated_to lot_id as' in
    let held = covered lot_id r.occurred_at later in
    let grown = on_hand-grows last r.occurred_at t lot_id ms now dated in
    let settled : reserved t lot_id ms ≡ reserved r.occurred_at lot_id ms =
      reserved-settled last t lot_id ms (omega (arith, later, now)) dated
      ∙ sym (reserved-settled last r.occurred_at lot_id ms later dated) in
    let sums = +ℤ_parts (pos n) (reserved r.occurred_at lot_id ms) in
    let fit = fits lot_id in
    let goal : pos n +ℤ reserved r.occurred_at lot_id ms ≤ℤ on_hand t lot_id ms =
      omega (arith, held, grown, sums, fit) in
    rw
      (
        reserved-more new_id r t now lot_id as' ms,
        on_hand-same new_id r t now lot_id as' ms,
        settled,
      )
      goal

pub reserve-IsSound :
    (new_id : String → String) (r : Reservation) (last : ℕ) (s : Stock) {as' : List FefoAllocation}
    {s' : Stock}
    → last ≤ r.occurred_at
    → IsSound last s
    → reserve_fefo new_id r s ≡ ok (as', s')
    → IsSound r.occurred_at s'
reserve-IsSound new_id r last s {as'} {s'} later sound done =
    let (wanted, enough, unused, which, lots, movements) = reserve_fefo-adds new_id r s done in
    record {
      distinct = subst HaveDistinctIds (sym lots) sound.distinct;
      dated = subst (All (IsDated r.occurred_at)) (sym movements) (
          All-append (IsDated r.occurred_at) (map (movement_of new_id r) as') s.movements
            (reservation-IsDated new_id r as')
            (All-mono (IsDated last) (IsDated r.occurred_at)
              (λ m. IsDated-later last r.occurred_at m later) s.movements sound.dated));
      covered = subst (IsCovered r.occurred_at) (sym movements) (
          reserve-IsCovered new_id r last s.movements as' later sound.dated sound.covered (λ lot_id.
            subst
              (λ a.
                allocated_to lot_id a
                ≤ excess (on_hand r.occurred_at lot_id s.movements)
                    (reserved r.occurred_at lot_id s.movements))
              (sym which) (allocated-free r s lot_id sound.distinct wanted)));
    }

pub receive-IsSound :
    (lot : InventoryLot) (movement_id key reference : String) (last : ℕ) (s : Stock) {s' : Stock}
    → IsSound last s
    → receive_lot lot movement_id key reference s ≡ ok s'
    → IsSound last s'
unfolding sum_of
receive-IsSound lot movement_id key reference last s {s'} sound done =
    let (new, lots, movements, same) = receive_lot-adds lot movement_id key reference s done in
    let m = receipt_of lot movement_id key reference in
    let covers : IsCovered last (m ∷ s.movements) = λ lot_id t later.
      let held = sound.covered lot_id t later in
      let sum_q = +ℤ_parts (pos lot.initial_quantity) (on_hand t lot_id s.movements) in
      let none_reserved = zero-+ℤ (reserved t lot_id s.movements) in
      ground (arith, held, sum_q, none_reserved) in
    record {
      distinct = subst HaveDistinctIds (sym lots) (any-false-All lot.id s.lots new, sound.distinct);
      dated = subst (All (IsDated last)) (sym movements) ((refl, λ after. refl), sound.dated);
      covered = subst (IsCovered last) (sym movements) covers;
    }
