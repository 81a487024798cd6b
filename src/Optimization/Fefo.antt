-- ===== src/Optimization/Fefo.antt =====
-- optimization/verifier.py: ConstraintVerifier._verify_fefo.
use civitas.Prelude.{
  ℕ, suc, ltb, leb, ◌==◌, Bool, not, ◌&&◌, ◌||◌, List, [], ◌∷◌, ◌++◌, String, ◌<>◌, str_eq, str_leb,
  ℤ, pos, if◌then◌else◌,
}
use civitas.Optimization.{OptimizationProblem, PlanningBucket, InventoryLot}
use civitas.Optimization.Allocations.{when, is_available, begins_late, plus_at, Totals}

-- The available lots of one SKU in one warehouse.
pub record LotGroup : Type 0 where
  pub sku_id : String
  pub warehouse_id : String
  pub lots : List InventoryLot

-- `groups[(lot.sku_id, lot.warehouse_id)].append(lot)`
unfoldable pub add_to_groups : InventoryLot → List LotGroup → List LotGroup
add_to_groups lot [] =
    record { sku_id = lot.sku_id; warehouse_id = lot.warehouse_id; lots = lot ∷ [] } ∷ []
add_to_groups lot (g ∷ gs) =
    let rest = add_to_groups lot gs in
    if str_eq lot.sku_id g.sku_id && str_eq lot.warehouse_id g.warehouse_id
    then record g { lots = g.lots ++ lot ∷ [] } ∷ gs
    else g ∷ rest

unfoldable pub group_lots : List LotGroup → List InventoryLot → List LotGroup
unfolding add_to_groups
group_lots groups [] = groups
group_lots groups (lot ∷ lots) =
    group_lots (if is_available lot.status then add_to_groups lot groups else groups) lots

-- `sorted(group_lots, key=lambda item: (item.expires_at, item.lot_id))`
abbrev pub is_older : InventoryLot → InventoryLot → Bool
is_older a b =
    ltb a.expires_at b.expires_at || (a.expires_at == b.expires_at && str_leb a.lot_id b.lot_id)

unfoldable pub place_lot : InventoryLot → List InventoryLot → List InventoryLot
place_lot lot [] = lot ∷ []
place_lot lot (l ∷ lots) =
    let rest = place_lot lot lots in if is_older lot l then lot ∷ l ∷ lots else l ∷ rest

unfoldable pub ordered_lots : List InventoryLot → List InventoryLot
unfolding place_lot
ordered_lots [] = []
ordered_lots (lot ∷ lots) = place_lot lot (ordered_lots lots)

-- A lot that could still be used before a newer one.
abbrev pub is_left : Totals String → ℕ → InventoryLot → Bool
is_left cumulative_used end_instant older =
    not (begins_late older.available_from end_instant)
    && leb end_instant older.expires_at
    && ltb (cumulative_used older.lot_id) older.quantity

-- The loop over the older lots.
unfoldable pub check_older : Totals String → ℕ → InventoryLot → List InventoryLot → List String
check_older cumulative_used end_instant newer [] = []
check_older cumulative_used end_instant newer (older ∷ lots) =
    when (is_left cumulative_used end_instant older)
      ("FEFO violation: " <> newer.lot_id <> " used before " <> older.lot_id)
    ++ check_older cumulative_used end_instant newer lots

-- The loop over the newer lots, with the lots before them in the order.
unfoldable pub check_newer :
    (String → ℕ) → Totals String → ℕ → List InventoryLot → List InventoryLot → List String
unfolding check_older
check_newer used cumulative_used end_instant before [] = []
check_newer used cumulative_used end_instant before (newer ∷ lots) =
    (if used newer.lot_id == 0 then [] else check_older cumulative_used end_instant newer before)
    ++ check_newer used cumulative_used end_instant (before ++ newer ∷ []) lots

-- The loop that adds a bucket's use to what the lots have used.
unfoldable pub use_lots : (String → ℕ) → List InventoryLot → Totals String → Totals String
use_lots used [] cumulative_used = cumulative_used
use_lots used (lot ∷ lots) cumulative_used =
    use_lots used lots (plus_at lot.lot_id (used lot.lot_id) cumulative_used)

-- The loop over the buckets, from an index on.
unfoldable pub check_buckets :
    (String → ℤ → ℕ) → List InventoryLot → ℕ → List PlanningBucket → Totals String → List String
unfolding check_newer use_lots
check_buckets allocated lots index [] cumulative_used = []
check_buckets allocated lots index (bucket ∷ buckets) cumulative_used =
    let used = λ (id : String). allocated id (pos index) in
    let cumulative = use_lots used lots cumulative_used in
    check_newer used cumulative bucket.ends_at [] lots
    ++ check_buckets allocated lots (suc index) buckets cumulative

unfoldable pub check_groups : (String → ℤ → ℕ) → List PlanningBucket → List LotGroup → List String
unfolding check_buckets ordered_lots
check_groups allocated buckets [] = []
check_groups allocated buckets (g ∷ gs) =
    check_buckets allocated (ordered_lots g.lots) 0 buckets (λ id. 0)
    ++ check_groups allocated buckets gs

-- `_verify_fefo`
unfoldable pub verify_fefo : OptimizationProblem → (String → ℤ → ℕ) → List String
unfolding check_groups group_lots
verify_fefo problem allocation_by_lot_and_bucket =
    check_groups allocation_by_lot_and_bucket problem.buckets (group_lots [] problem.inventory_lots)
