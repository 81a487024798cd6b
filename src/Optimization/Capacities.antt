-- ===== src/Optimization/Capacities.antt =====
-- optimization/verifier.py: ConstraintVerifier._verify_warehouse_capacity.
use civitas.Prelude.{
  ℕ, zero, suc, ◌+◌, leb, ◌==◌, not, ◌&&◌, Option, none, some, List, [], ◌∷◌, ◌++◌, String, ◌<>◌,
  str_eq, Dict, lookup, ℤ, pos, negsuc, times, minus, ◌+ℤ◌, leb_ℤ, if◌then◌else◌,
}
use civitas.Optimization.{
  OptimizationProblem, PlanningBucket, Demand, InventoryLot, SupplierOffer, WarehouseCapacity,
  TransportLane, AllocationDecision,
}
use civitas.Optimization.Allocations.{
  by_id, demand_of, index_of, available_index, is_available, ends_early, when,
}

-- `problem.sku_volume.get(sku_id, 1)`
abbrev pub volume_of : Dict ℕ → String → ℕ
volume_of sku_volume sku_id = elim (lookup sku_id sku_volume) [ none ↦ 1 | some volume ↦ volume ]

-- The lane that an allocation names, where the problem has it.
abbrev pub known_lane : OptimizationProblem → AllocationDecision → Option TransportLane
known_lane problem allocation = elim allocation.lane_id [
  | none ↦ none
  | some id ↦ by_id (λ l. l.lane_id) id problem.transport_lanes
]

-- `problem.buckets[index].end`
abbrev pub end_at : List PlanningBucket → ℕ → ℕ
end_at [] index = 0
end_at (b ∷ bs) zero = b.ends_at
end_at (b ∷ bs) (suc index) = end_at bs index

-- The index at which an allocation takes from its source.
unfoldable pub use_index : OptimizationProblem → AllocationDecision → Demand → ℤ
unfolding by_id index_of
use_index problem allocation demand =
    let served = pos (index_of demand.bucket_id problem.buckets) in
    elim (known_lane problem allocation) [
      | none ↦ served
      | some lane ↦ minus served lane.transit_buckets
    ]

-- What one allocation adds to `consumed_before[(source_id, index)]`.
unfoldable pub consumption : OptimizationProblem → String → ℕ → AllocationDecision → ℤ
unfolding use_index by_id
consumption problem source_id index allocation = elim (demand_of problem allocation.demand_id) [
  | none ↦ pos 0
  | some demand ↦
      if str_eq allocation.source_id source_id
        && not (leb_ℤ (pos index) (use_index problem allocation demand))
      then allocation.quantity
      else pos 0
]

-- What one allocation adds to `incoming_at[(warehouse_id, index)]`.
unfoldable pub arrival : OptimizationProblem → String → ℕ → AllocationDecision → ℤ
unfolding by_id index_of lookup
arrival problem warehouse_id index allocation = elim (demand_of problem allocation.demand_id) [
  | none ↦ pos 0
  | some demand ↦ elim (known_lane problem allocation) [
    | none ↦ pos 0
    | some lane ↦
        if str_eq demand.warehouse_id warehouse_id
          && index_of demand.bucket_id problem.buckets == index
        then times allocation.quantity (volume_of problem.sku_volume demand.sku_id)
        else pos 0
  ]
]

unfoldable pub total {ℓ} : {A : Type ℓ} → (A → ℤ) → List A → ℤ
total f [] = pos 0
total f (x ∷ xs) = f x +ℤ total f xs

abbrev pub consumed_before : OptimizationProblem → List AllocationDecision → String → ℕ → ℤ
consumed_before problem allocations source_id index =
    total (consumption problem source_id index) allocations

-- `a - b`
abbrev pub less : ℕ → ℤ → ℤ
less n (pos m) = minus (pos n) m
less n (negsuc m) = pos (n + suc m)

abbrev pub less_ℤ : ℤ → ℤ → ℤ
less_ℤ a (pos m) = minus a m
less_ℤ a (negsuc m) = a +ℤ pos (suc m)

-- `orders.get(offer_id, 0)`
abbrev pub ordered_of : Dict ℤ → String → ℤ
ordered_of orders offer_id = elim (lookup offer_id orders) [
  | none ↦ pos 0
  | some quantity ↦ quantity
]

module _ (problem : OptimizationProblem) (orders : Dict ℤ) (allocations : List AllocationDecision)
    (warehouse_id : String) (index : ℕ) where
  -- The room that a lot takes in the warehouse at the index.
  unfoldable pub lot_room : InventoryLot → ℤ
  unfolding available_index consumption total lookup
  lot_room lot =
      if is_available lot.status
        && str_eq lot.warehouse_id warehouse_id
        && leb (available_index problem.buckets lot.available_from) index
        && leb (end_at problem.buckets index) lot.expires_at
      then times (less lot.quantity (consumed_before problem allocations lot.lot_id index))
          (volume_of problem.sku_volume lot.sku_id)
      else pos 0

  unfoldable pub offer_room : SupplierOffer → ℤ
  unfolding index_of consumption total lookup
  offer_room offer =
      if str_eq offer.destination_warehouse_id warehouse_id
        && leb (index_of offer.arrival_bucket_id problem.buckets) index
        && not (ends_early offer.expires_at (end_at problem.buckets index))
      then times
          (less_ℤ (ordered_of orders offer.offer_id)
            (consumed_before problem allocations offer.offer_id index))
          (volume_of problem.sku_volume offer.sku_id)
      else pos 0

  unfoldable pub occupied : ℤ
  unfolding lot_room offer_room arrival total
  occupied =
      total (arrival problem warehouse_id index) allocations
      +ℤ total lot_room problem.inventory_lots
      +ℤ total offer_room problem.supplier_offers

unfoldable pub verify_capacities :
    OptimizationProblem → Dict ℤ → List AllocationDecision → List WarehouseCapacity → List String
unfolding occupied index_of
verify_capacities problem orders allocations [] = []
verify_capacities problem orders allocations (limit ∷ limits) =
    when
      (not (
        leb_ℤ
          (occupied problem orders allocations limit.warehouse_id
            (index_of limit.bucket_id problem.buckets))
          (pos limit.maximum_base_units)))
      ("warehouse " <> limit.warehouse_id <> " exceeds capacity in " <> limit.bucket_id)
    ++ verify_capacities problem orders allocations limits
