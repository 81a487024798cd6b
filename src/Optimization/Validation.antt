-- ===== src/Optimization/Validation.antt =====
-- optimization/validation.py.
use civitas.Prelude.{
  is_empty, ℕ, ltb, leb, ◌==◌, Bool, true, not, ◌&&◌, ◌||◌, List, [], ◌∷◌, ◌++◌, map, keep, String,
  ◌<>◌, str_eq, str_leb, contains, count, unique, sorted, Result, ok, raise_if, ◌>>◌, value_error,
}
use civitas.Optimization.{
  OptimizationProblem, PlanningBucket, Demand, SupplierOffer, WarehouseCapacity, TransportLane,
}

-- `', '.join(values)`
unfoldable pub joined : List String → String
joined [] = ""
joined (x ∷ []) = x
joined (x ∷ y ∷ xs) = x <> ", " <> joined (y ∷ xs)

-- `_unique`
unfoldable pub check_unique : String → List String → Result (Unit {0})
unfolding unique count sorted joined
check_unique label values =
    let duplicates = sorted (keep (λ v. ltb 1 (count v values)) (unique values)) in
    raise_if (not (is_empty duplicates))
      (value_error ("duplicate " <> label <> ": " <> joined duplicates))

-- The loop of a check over a list.
abbrev pub each {ℓ} : {A : Type ℓ} → (A → Result (Unit {0})) → List A → Result (Unit {0})
each check [] = ok tt
each check (x ∷ xs) = check x >> each check xs

-- Whether the list is what `sorted` makes of it by start and id.
abbrev pub follows : PlanningBucket → PlanningBucket → Bool
follows left right =
    ltb left.starts_at right.starts_at
    || (left.starts_at == right.starts_at && str_leb left.bucket_id right.bucket_id)

unfoldable pub is_ordered : List PlanningBucket → Bool
is_ordered [] = true
is_ordered (b ∷ []) = true
is_ordered (b ∷ c ∷ bs) = follows b c && is_ordered (c ∷ bs)

unfoldable pub check_bucket : PlanningBucket → Result (Unit {0})
check_bucket bucket = do
  raise_if (leb bucket.ends_at bucket.starts_at)
      (value_error ("bucket " <> bucket.bucket_id <> " has an invalid interval"))
  raise_if (bucket.urgency == 0) (value_error "bucket urgency must be positive")

unfoldable pub check_gaps : List PlanningBucket → Result (Unit {0})
check_gaps [] = ok tt
check_gaps (left ∷ []) = ok tt
check_gaps (left ∷ right ∷ buckets) = do
  raise_if (ltb right.starts_at left.ends_at) (value_error "planning buckets cannot overlap")
  check_gaps (right ∷ buckets)

unfoldable pub check_demand : List String → Demand → Result (Unit {0})
unfolding contains
check_demand bucket_ids demand = do
  raise_if (not (contains bucket_ids demand.bucket_id))
      (value_error ("demand " <> demand.demand_id <> " references an unknown bucket"))
  raise_if (ltb demand.quantity demand.minimum_service)
      (value_error "minimum service cannot exceed demand")
  raise_if (demand.priority == 0) (value_error "demand priority must be positive")

unfoldable pub check_offer : List String → SupplierOffer → Result (Unit {0})
unfolding contains
check_offer bucket_ids offer = do
  raise_if (not (contains bucket_ids offer.arrival_bucket_id))
      (value_error ("offer " <> offer.offer_id <> " references an unknown bucket"))
  raise_if (offer.pack_size == 0) (value_error "offer pack size must be positive")
  raise_if (ltb offer.capacity offer.minimum_order)
      (value_error "minimum order cannot exceed offer capacity")

unfoldable pub check_capacity : List String → WarehouseCapacity → Result (Unit {0})
unfolding contains
check_capacity bucket_ids capacity =
    raise_if (not (contains bucket_ids capacity.bucket_id))
      (value_error "warehouse capacity references an unknown bucket")

unfoldable pub check_lane : TransportLane → Result (Unit {0})
check_lane lane =
    raise_if (str_eq lane.source_warehouse_id lane.destination_warehouse_id)
      (value_error "transport lanes must connect different warehouses")

unfoldable pub check_volume : String × ℕ → Result (Unit {0})
check_volume (sku_id, volume) =
    raise_if (str_eq sku_id "" || volume == 0)
      (value_error "SKU volume factors must have a name and be positive")

unfoldable pub validate_problem : OptimizationProblem → Result (Unit {0})
unfolding check_unique is_ordered check_bucket check_gaps check_demand check_offer check_capacity
    check_lane check_volume
validate_problem problem = do
  raise_if (is_empty problem.buckets) (value_error "at least one planning bucket is required")
  raise_if (problem.maximum_alternatives == 0 || ltb 20 problem.maximum_alternatives)
      (value_error "maximum_alternatives must be between 1 and 20")
  check_unique "bucket_id" (map (λ b. b.bucket_id) problem.buckets)
  check_unique "demand_id" (map (λ d. d.demand_id) problem.demands)
  check_unique "lot_id" (map (λ l. l.lot_id) problem.inventory_lots)
  check_unique "offer_id" (map (λ o. o.offer_id) problem.supplier_offers)
  check_unique "lane_id" (map (λ l. l.lane_id) problem.transport_lanes)
  check_unique "source ID across lots and offers"
      (map (λ l. l.lot_id) problem.inventory_lots ++ map (λ o. o.offer_id) problem.supplier_offers)
  check_unique "warehouse capacity key"
      (map (λ c. c.warehouse_id <> ":" <> c.bucket_id) problem.warehouse_capacities)
  raise_if (not (is_ordered problem.buckets))
      (value_error "buckets must be ordered by start time and bucket_id")
  each check_bucket problem.buckets
  check_gaps problem.buckets
  each (check_demand (map (λ b. b.bucket_id) problem.buckets)) problem.demands
  each (check_offer (map (λ b. b.bucket_id) problem.buckets)) problem.supplier_offers
  each (check_capacity (map (λ b. b.bucket_id) problem.buckets)) problem.warehouse_capacities
  each check_lane problem.transport_lanes
  each check_volume problem.sku_volume
