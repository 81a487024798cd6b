-- ===== src/Optimization/Allowed.antt =====
-- optimization/verifier.py: what the two loops have checked where they found no violation.
use civitas.Prelude.{
  ℕ, ◌+◌, ◌≤◌, ◌<◌, Bool, true, false, Bool-cases, Option-cases, Option, none, some, [], ◌∷◌, ◌++◌,
  String, ◌<>◌, str_eq, str_eq_iff, pos, ◌≡◌, ◌⊎◌, inl, inr, refl, arith, if◌then◌else◌,
}
use civitas.Optimization.{
  OptimizationProblem, Demand, InventoryLot, SupplierOffer, TransportLane, AllocationDecision,
}
use civitas.Optimization.Allocations.{
  demand_of, lot_of, offer_of, lane_of, index_of, end_of, available_index, Tally, plus_at, excludes,
  is_available, begins_late, ends_early, check_lot, check_lane, check_offer, allocate_lot,
  allocate_source,
}
use civitas.Optimization.Orders.{append_empty, by_id-found}

-- The lot is of the demand's SKU, available before the end of the demand's bucket, and does not
-- expire before that.
pub record LotServes (problem : OptimizationProblem) (demand : Demand) (lot : InventoryLot)
    : Type 0 where
  pub is_free : is_available lot.status ≡ true
  pub of_sku : lot.sku_id ≡ demand.sku_id
  pub lasts : end_of demand.bucket_id problem.buckets ≤ lot.expires_at
  pub in_time : begins_late lot.available_from (end_of demand.bucket_id problem.buckets) ≡ false

-- The lane goes from the lot to the demand, takes the SKU and arrives in time.
pub record LaneServes (problem : OptimizationProblem) (demand : Demand) (lot : InventoryLot)
    (lane : TransportLane) : Type 0 where
  pub departs : lane.source_warehouse_id ≡ lot.warehouse_id
  pub arrives : lane.destination_warehouse_id ≡ demand.warehouse_id
  pub takes : excludes lane lot.sku_id ≡ false
  pub in_time :
      available_index problem.buckets lot.available_from + lane.transit_buckets
      ≤ index_of demand.bucket_id problem.buckets

-- A lot that serves the demand from its warehouse, or on a lane.
abbrev pub FromLot : OptimizationProblem → AllocationDecision → Demand → Type 0
FromLot problem a demand =
    (lot : InventoryLot) × (a.source_kind ≡ "lot")
    × (lot_of problem a.source_id ≡ some lot)
    × LotServes problem demand lot
    × (((lot.warehouse_id ≡ demand.warehouse_id) × (a.lane_id ≡ none))
        ⊎ ((lane : TransportLane) × (lane_of problem a.lane_id ≡ some lane)
            × LaneServes problem demand lot lane))

-- An offer that may serve the demand: of its SKU, delivered to its warehouse in time, and not
-- expired before the end of its bucket.
abbrev pub FromOffer : OptimizationProblem → AllocationDecision → Demand → Type 0
FromOffer problem a demand =
    (offer : SupplierOffer) × (a.source_kind ≡ "offer")
    × (offer_of problem a.source_id ≡ some offer)
    × (a.lane_id ≡ none)
    × (offer.sku_id ≡ demand.sku_id)
    × (offer.destination_warehouse_id ≡ demand.warehouse_id)
    × (index_of offer.arrival_bucket_id problem.buckets ≤ index_of demand.bucket_id problem.buckets)
    × (ends_early offer.expires_at (end_of demand.bucket_id problem.buckets) ≡ false)

abbrev pub IsAllowed : OptimizationProblem → AllocationDecision → Type 0
IsAllowed problem a =
    (demand : Demand) × (n : ℕ) × (demand_of problem a.demand_id ≡ some demand)
    × (a.quantity ≡ pos n)
    × (0 < n)
    × (FromLot problem a demand ⊎ FromOffer problem a demand)

abbrev pub names_lane : Option String → String → Bool
names_lane none id = false
names_lane (some lane_id) id = str_eq lane_id id

module _ (problem : OptimizationProblem) (a : AllocationDecision) (n : ℕ) (demand : Demand) where
  check_offer-FromOffer :
      (offer : SupplierOffer)
      → a.source_kind ≡ "offer"
      → offer_of problem a.source_id ≡ some offer
      → check_offer problem a n demand offer ≡ []
      → FromOffer problem a demand
  unfolding check_offer
  check_offer-FromOffer offer kind found h = (
    offer,
    kind,
    found,
    ground arith,
    ground (arith, str_eq_iff offer.sku_id demand.sku_id),
    ground (arith, str_eq_iff offer.destination_warehouse_id demand.warehouse_id),
    ground arith,
    ground arith,
  )

  check_lot-LotServes :
      (lot : InventoryLot) → check_lot problem a n demand lot ≡ [] → LotServes problem demand lot
  unfolding check_lot
  check_lot-LotServes lot h = record {
    is_free = ground arith;
    of_sku = ground (arith, str_eq_iff lot.sku_id demand.sku_id);
    lasts = ground arith;
    in_time = ground arith;
  }

  check_lane-LaneServes :
      (lot : InventoryLot) (lane : TransportLane)
      → check_lane problem a n demand lot lane ≡ []
      → LaneServes problem demand lot lane
  unfolding check_lane
  check_lane-LaneServes lot lane h = record {
    departs = ground (arith, str_eq_iff lane.source_warehouse_id lot.warehouse_id);
    arrives = ground (arith, str_eq_iff lane.destination_warehouse_id demand.warehouse_id);
    takes = ground arith;
    in_time = ground arith;
  }

  lane-counted :
      (o : Option String) (lane : TransportLane) (totals : String → ℕ)
      → lane_of problem o ≡ some lane
      → (id : String)
      → totals id + (if names_lane o id then n else 0) ≤ plus_at lane.lane_id n totals id
  lane-counted none lane totals known id = ground arith
  lane-counted (some l) lane totals known id =
      let same : lane.lane_id ≡ l = by_id-found (λ x. x.lane_id) l problem.transport_lanes known in
      ground (arith, same, str_eq_iff l id, str_eq_iff id lane.lane_id)

  -- What an allocation from a lot leaves, where it leaves no violation.
  allocate_lot-IsCounted :
      (lot : InventoryLot) (t : Tally)
      → a.source_kind ≡ "lot"
      → lot_of problem a.source_id ≡ some lot
      → (allocate_lot problem a n demand lot t).violations ≡ []
      → (t.violations ≡ [])
        × FromLot problem a demand
        × ((id : String)
            → t.allocated_by_lane id + (if names_lane a.lane_id id then n else 0)
              ≤ (allocate_lot problem a n demand lot t).allocated_by_lane id)
  unfolding allocate_lot check_lot check_lane
  allocate_lot-IsCounted lot t kind found h =
      elim (Bool-cases (str_eq lot.warehouse_id demand.warehouse_id)) [
        | inl local ↦
            let clean : ((t.violations ++ check_lot problem a n demand lot) ++ elim a.lane_id [
              | none ↦ []
              | some id ↦ "local allocation cannot specify a lane" ∷ []
            ])
                ≡ [] =
              rw (local, allocate_lot) at h in
            let (both, lane) =
              append_empty (t.violations ++ check_lot problem a n demand lot) _ clean in
            let (old, served) = append_empty t.violations _ both in
            let no_lane : a.lane_id ≡ none = ground arith in
            let here = (str_eq_iff lot.warehouse_id demand.warehouse_id).0 local in
            (
              old,
              (lot, kind, found, check_lot-LotServes lot served, inl (here, no_lane)),
              (λ id. rw (local, no_lane, allocate_lot) (ground arith)),
            )
        | inr remote ↦ elim (Option-cases (lane_of problem a.lane_id)) [
          | inl missing ↦
              let left : ((t.violations ++ check_lot problem a n demand lot)
                    ++ ("allocation from " <> lot.lot_id <> " requires a transport lane") ∷ [])
                  ≡ [] =
                rw (remote, missing, allocate_lot) at h in
              absurd (
                ground (
                  arith,
                  (append_empty (t.violations ++ check_lot problem a n demand lot) _ left).1,
                ))
          | inr (lane, known) ↦
              let clean : ((t.violations ++ check_lot problem a n demand lot)
                    ++ check_lane problem a n demand lot lane)
                  ≡ [] =
                rw (remote, known, allocate_lot) at h in
              let (both, eligible) =
                append_empty (t.violations ++ check_lot problem a n demand lot) _ clean in
              let (old, served) = append_empty t.violations _ both in
              (
                old,
                (
                  lot,
                  kind,
                  found,
                  check_lot-LotServes lot served,
                  inr (lane, known, check_lane-LaneServes lot lane eligible),
                ),
                (λ id.
                    rw (remote, known, allocate_lot)
                      (lane-counted a.lane_id lane t.allocated_by_lane known id)),
              )
        ]
      ]

  -- A branch of the source leaves the totals by demand and by source.
  abbrev Keeps : Tally → Tally → Type 0
  Keeps t t' =
      (t'.allocated_by_demand ≡ t.allocated_by_demand)
      × (t'.allocated_by_source ≡ t.allocated_by_source)

  allocate_lot-Keeps :
      (lot : InventoryLot) (t : Tally) → Keeps t (allocate_lot problem a n demand lot t)
  unfolding allocate_lot
  allocate_lot-Keeps lot t = elim (Bool-cases (str_eq lot.warehouse_id demand.warehouse_id)) [
    | inl local ↦ rw (local, allocate_lot) (refl, refl)
    | inr remote ↦ elim (Option-cases (lane_of problem a.lane_id)) [
      | inl missing ↦ rw (remote, missing, allocate_lot) (refl, refl)
      | inr (lane, known) ↦ rw (remote, known, allocate_lot) (refl, refl)
    ]
  ]

  pub allocate_source-Keeps : (t : Tally) → Keeps t (allocate_source problem a n demand t)
  unfolding allocate_source
  allocate_source-Keeps t = elim (Bool-cases (str_eq a.source_kind "lot")) [
    | inl from_lot ↦ elim (Option-cases (lot_of problem a.source_id)) [
      | inl missing ↦ rw (from_lot, missing, allocate_source) (refl, refl)
      | inr (lot, found) ↦ rw (from_lot, found, allocate_source) (allocate_lot-Keeps lot t)
    ]
    | inr other ↦ elim (Bool-cases (str_eq a.source_kind "offer")) [
      | inr unknown ↦ rw (other, unknown, allocate_source) (refl, refl)
      | inl from_offer ↦ elim (Option-cases (offer_of problem a.source_id)) [
        | inl missing ↦ rw (other, from_offer, missing, allocate_source) (refl, refl)
        | inr (offer, found) ↦ rw (other, from_offer, found, allocate_source) (refl, refl)
      ]
    ]
  ]

  pub allocate_source-Counts :
      (t : Tally)
      → (allocate_source problem a n demand t).violations ≡ []
      → (t.violations ≡ [])
        × (FromLot problem a demand ⊎ FromOffer problem a demand)
        × ((id : String)
            → t.allocated_by_lane id + (if names_lane a.lane_id id then n else 0)
              ≤ (allocate_source problem a n demand t).allocated_by_lane id)
  unfolding allocate_source
  allocate_source-Counts t h = elim (Bool-cases (str_eq a.source_kind "lot")) [
    | inl from_lot ↦ elim (Option-cases (lot_of problem a.source_id)) [
      | inl missing ↦
          let left : t.violations ++ ("unknown lot " <> a.source_id) ∷ [] ≡ [] =
            rw (from_lot, missing, allocate_source) at h in
          absurd (ground (arith, (append_empty t.violations _ left).1))
      | inr (lot, found) ↦
          let kind = (str_eq_iff a.source_kind "lot").0 from_lot in
          let (old, served, lanes) =
            allocate_lot-IsCounted lot t kind found (rw (from_lot, found, allocate_source) at h) in
          (old, inl served, (λ id. rw (from_lot, found, allocate_source) (lanes id)))
    ]
    | inr other ↦ elim (Bool-cases (str_eq a.source_kind "offer")) [
      | inr unknown ↦
          let left : t.violations ++ ("unknown source kind " <> a.source_kind) ∷ [] ≡ [] =
            rw (other, unknown, allocate_source) at h in
          absurd (ground (arith, (append_empty t.violations _ left).1))
      | inl from_offer ↦ elim (Option-cases (offer_of problem a.source_id)) [
        | inl missing ↦
            let left : t.violations ++ ("unknown offer source " <> a.source_id) ∷ [] ≡ [] =
              rw (other, from_offer, missing, allocate_source) at h in
            absurd (ground (arith, (append_empty t.violations _ left).1))
        | inr (offer, found) ↦
            let clean : t.violations ++ check_offer problem a n demand offer ≡ [] =
              rw (other, from_offer, found, allocate_source) at h in
            let (old, eligible) = append_empty t.violations _ clean in
            let kind = (str_eq_iff a.source_kind "offer").0 from_offer in
            let served = check_offer-FromOffer offer kind found eligible in
            let no_lane : a.lane_id ≡ none = served.3 in
            (
              old,
              inr served,
              (λ id. rw (other, from_offer, found, no_lane, allocate_source) (ground arith)),
            )
      ]
    ]
  ]
