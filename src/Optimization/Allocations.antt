-- ===== src/Optimization/Allocations.antt =====
-- optimization/verifier.py: the two loops of ConstraintVerifier.verify over the lines of an
-- alternative. The ids of a problem that was validated are unique, and the buckets that its parts
-- name are there: a dict by id is a search, and the default of a missing bucket is never read.
use civitas.Prelude.{
  ℕ, zero, suc, ◌+◌, ◌%◌, ltb, leb, ◌==◌, Bool, true, false, not, ◌&&◌, ◌||◌, Option, none, some,
  List, [], ◌∷◌, ◌++◌, is_empty, String, ◌<>◌, str_eq, contains, ℤ, pos, negsuc, minus, leb_ℤ, eq_ℤ,
  if◌then◌else◌,
}
use civitas.Optimization.{
  LotStatus, OptimizationProblem, PlanningBucket, Demand, InventoryLot, SupplierOffer,
  TransportLane, ProcurementDecision, AllocationDecision,
}

-- `{item.id: item for item in items}.get(id)`
unfoldable pub by_id {ℓ} : {A : Type ℓ} → (A → String) → String → List A → Option A
by_id id_of id [] = none
by_id id_of id (x ∷ xs) = if str_eq (id_of x) id then some x else by_id id_of id xs

module _ (problem : OptimizationProblem) where
  abbrev pub demand_of : String → Option Demand
  demand_of id = by_id (λ d. d.demand_id) id problem.demands

  abbrev pub lot_of : String → Option InventoryLot
  lot_of id = by_id (λ l. l.lot_id) id problem.inventory_lots

  abbrev pub offer_of : String → Option SupplierOffer
  offer_of id = by_id (λ o. o.offer_id) id problem.supplier_offers

  -- `lanes.get(lane_id or "")`
  abbrev pub lane_of : Option String → Option TransportLane
  lane_of none = by_id (λ l. l.lane_id) "" problem.transport_lanes
  lane_of (some id) = by_id (λ l. l.lane_id) id problem.transport_lanes

-- `bucket_index[id]`
unfoldable pub index_of : String → List PlanningBucket → ℕ
index_of id [] = 0
index_of id (b ∷ bs) = let rest = index_of id bs in if str_eq b.bucket_id id then 0 else suc rest

-- `buckets[id].end`
unfoldable pub end_of : String → List PlanningBucket → ℕ
end_of id [] = 0
end_of id (b ∷ bs) = let rest = end_of id bs in if str_eq b.bucket_id id then b.ends_at else rest

-- `_available_index`
unfoldable pub available_index : List PlanningBucket → Option ℕ → ℕ
available_index buckets none = 0
available_index [] (some available_from) = 0
available_index (b ∷ bs) (some available_from) =
    let rest = available_index bs (some available_from) in
    if ltb available_from b.ends_at then 0 else suc rest

-- `violations.append(text)` under a condition
abbrev pub when : Bool → String → List String
when true text = text ∷ []
when false text = []

abbrev pub is_positive : ℤ → Bool
is_positive (pos zero) = false
is_positive (pos (suc n)) = true
is_positive (negsuc n) = false

-- `quantity % pack_size` is not zero.
abbrev pub is_broken : ℤ → ℕ → Bool
is_broken (pos n) pack_size = not (n % pack_size == 0)
is_broken (negsuc n) pack_size = not (suc n % pack_size == 0)

-- The loop over the procurements.
unfoldable pub check_procurement : OptimizationProblem → ProcurementDecision → List String
unfolding by_id
check_procurement problem procurement = elim (offer_of problem procurement.offer_id) [
  | none ↦ ("unknown offer " <> procurement.offer_id) ∷ []
  | some offer ↦
      when
        (not (is_positive procurement.quantity)
          || not (leb_ℤ procurement.quantity (pos offer.capacity)))
        ("offer " <> offer.offer_id <> " exceeds its valid quantity range")
      ++ when (is_broken procurement.quantity offer.pack_size)
          ("offer " <> offer.offer_id <> " violates pack size")
      ++ when (not (leb_ℤ (pos offer.minimum_order) procurement.quantity))
          ("offer " <> offer.offer_id <> " violates minimum order")
]

unfoldable pub check_procurements : OptimizationProblem → List ProcurementDecision → List String
unfolding check_procurement
check_procurements problem [] = []
check_procurements problem (p ∷ ps) = check_procurement problem p ++ check_procurements problem ps

-- A `defaultdict(int)`, by the value that it answers.
abbrev pub Totals : Type 0 → Type 0
Totals K = K → ℕ

-- `totals[id] += n`
abbrev pub plus_at : String → ℕ → Totals String → Totals String
plus_at id n totals = λ j. if str_eq j id then totals j + n else totals j

-- `totals[(id, index)] += n`; an index may be negative.
abbrev pub plus_at_index : String → ℤ → ℕ → (String → ℤ → ℕ) → String → ℤ → ℕ
plus_at_index id index n totals =
    λ j i. if str_eq j id && eq_ℤ i index then totals j i + n else totals j i

-- What the loop over the allocations has counted and found.
pub record Tally : Type 0 where
  pub allocated_by_source : Totals String
  pub allocated_by_demand : Totals String
  pub allocated_by_lane : Totals String
  pub allocation_by_lot_and_bucket : String → ℤ → ℕ
  pub violations : List String

abbrev pub nothing : Tally
nothing = record {
  allocated_by_source = λ id. 0;
  allocated_by_demand = λ id. 0;
  allocated_by_lane = λ id. 0;
  allocation_by_lot_and_bucket = λ id index. 0;
  violations = [];
}

-- `lane.sku_ids and sku_id not in lane.sku_ids`
abbrev pub excludes : TransportLane → String → Bool
excludes lane sku_id = not (is_empty lane.sku_ids) && not (contains lane.sku_ids sku_id)

abbrev pub is_available : LotStatus → Bool
is_available LotStatus.available = true
is_available status = false

-- `available_from is not None and available_from >= end`
abbrev pub begins_late : Option ℕ → ℕ → Bool
begins_late none end_instant = false
begins_late (some available_from) end_instant = leb end_instant available_from

-- `expires_at is not None and expires_at < end`
abbrev pub ends_early : Option ℕ → ℕ → Bool
ends_early none end_instant = false
ends_early (some expires_at) end_instant = ltb expires_at end_instant

module _ (problem : OptimizationProblem) (allocation : AllocationDecision) (n : ℕ)
    (demand : Demand) where
  -- The checks on a lot, apart from its lane.
  unfoldable pub check_lot : InventoryLot → List String
  unfolding end_of
  check_lot lot =
      let served = end_of demand.bucket_id problem.buckets in
      when (not (is_available lot.status)) ("lot " <> lot.lot_id <> " is not available")
      ++ when (not (str_eq lot.sku_id demand.sku_id)) ("lot " <> lot.lot_id <> " has the wrong SKU")
      ++ when (ltb lot.expires_at served)
          ("lot " <> lot.lot_id <> " expires before demand is served")
      ++ when (begins_late lot.available_from served)
          ("lot " <> lot.lot_id <> " is not yet available")

  unfoldable pub check_lane : InventoryLot → TransportLane → List String
  unfolding index_of available_index contains
  check_lane lot lane =
      when
        (not (str_eq lane.source_warehouse_id lot.warehouse_id)
          || not (str_eq lane.destination_warehouse_id demand.warehouse_id)
          || excludes lane lot.sku_id)
        ("lane " <> lane.lane_id <> " is not eligible")
      ++ when
          (ltb (index_of demand.bucket_id problem.buckets)
            (available_index problem.buckets lot.available_from + lane.transit_buckets))
          ("lane " <> lane.lane_id <> " arrives too late")

  -- The branch of a lot. A lot of another warehouse is used when its lane departs.
  unfoldable pub allocate_lot : InventoryLot → Tally → Tally
  unfolding check_lot check_lane index_of by_id
  allocate_lot lot tally =
      let served = pos (index_of demand.bucket_id problem.buckets) in
      let found = tally.violations ++ check_lot lot in
      let use_at =
        λ (index : ℤ). plus_at_index lot.lot_id index n tally.allocation_by_lot_and_bucket in
      if str_eq lot.warehouse_id demand.warehouse_id
      then record tally {
        allocation_by_lot_and_bucket = use_at served;
        violations = found ++ elim allocation.lane_id [
          | none ↦ []
          | some id ↦ "local allocation cannot specify a lane" ∷ []
        ];
      }
      else elim (lane_of problem allocation.lane_id) [
        | none ↦ record tally {
          allocation_by_lot_and_bucket = use_at served;
          violations =
              found ++ ("allocation from " <> lot.lot_id <> " requires a transport lane") ∷ [];
        }
        | some lane ↦ record tally {
          allocated_by_lane = plus_at lane.lane_id n tally.allocated_by_lane;
          allocation_by_lot_and_bucket = use_at (minus served lane.transit_buckets);
          violations = found ++ check_lane lot lane;
        }
      ]

  unfoldable pub check_offer : SupplierOffer → List String
  unfolding index_of end_of
  check_offer offer =
      elim allocation.lane_id [
        | none ↦ []
        | some id ↦ "supplier offer allocation cannot specify a lane" ∷ []
      ]
      ++ when
          (not (str_eq offer.sku_id demand.sku_id)
            || not (str_eq offer.destination_warehouse_id demand.warehouse_id))
          ("offer " <> offer.offer_id <> " is not eligible for demand")
      ++ when
          (ltb (index_of demand.bucket_id problem.buckets)
            (index_of offer.arrival_bucket_id problem.buckets))
          ("offer " <> offer.offer_id <> " arrives too late")
      ++ when (ends_early offer.expires_at (end_of demand.bucket_id problem.buckets))
          ("offer " <> offer.offer_id <> " expires before demand is served")

  -- The branches on the kind of the source.
  unfoldable pub allocate_source : Tally → Tally
  unfolding allocate_lot check_offer by_id
  allocate_source tally =
      let with_violations =
        λ (found : List String). record tally { violations = tally.violations ++ found } in
      if str_eq allocation.source_kind "lot"
      then elim (lot_of problem allocation.source_id) [
        | none ↦ with_violations (("unknown lot " <> allocation.source_id) ∷ [])
        | some lot ↦ allocate_lot lot tally
      ]
      else if str_eq allocation.source_kind "offer"
      then elim (offer_of problem allocation.source_id) [
        | none ↦ with_violations (("unknown offer source " <> allocation.source_id) ∷ [])
        | some offer ↦ with_violations (check_offer offer)
      ]
      else with_violations (("unknown source kind " <> allocation.source_kind) ∷ [])

-- One allocation.
unfoldable pub allocate : OptimizationProblem → Tally → AllocationDecision → Tally
unfolding allocate_source by_id
allocate problem tally allocation = elim allocation.quantity [
  | negsuc n ↦ record tally { violations = tally.violations ++ "allocations must be positive" ∷ [] }
  | pos zero ↦ record tally { violations = tally.violations ++ "allocations must be positive" ∷ [] }
  | pos (suc n) ↦ elim (demand_of problem allocation.demand_id) [
    | none ↦ record tally {
      violations = tally.violations ++ ("unknown demand " <> allocation.demand_id) ∷ [];
    }
    | some demand ↦ allocate_source problem allocation (suc n) demand (record tally {
      allocated_by_demand = plus_at demand.demand_id (suc n) tally.allocated_by_demand;
      allocated_by_source = plus_at allocation.source_id (suc n) tally.allocated_by_source;
    })
  ]
]

unfoldable pub allocate_all : OptimizationProblem → Tally → List AllocationDecision → Tally
unfolding allocate
allocate_all problem tally [] = tally
allocate_all problem tally (a ∷ as') = allocate_all problem (allocate problem tally a) as'
