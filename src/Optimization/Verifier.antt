-- ===== src/Optimization/Verifier.antt =====
-- optimization/verifier.py: ConstraintVerifier.verify.
use civitas.Prelude.{
  ℕ, ltb, ◌==◌, Bool, true, false, not, Option, none, some, List, [], ◌∷◌, ◌++◌, is_empty, length,
  String, ◌<>◌, str_eq, Dict, lookup, insert, sorted_set, ℤ, pos, times, sub_ℕ, ◌+ℤ◌, leb_ℤ, eq_ℤ,
  Result, ok, ◌>>◌, if◌then◌else◌,
}
use civitas.Contracts.{FeasibilityStatus}
use civitas.Optimization.{
  OptimizationProblem, PlanningBucket, Demand, InventoryLot, SupplierOffer, TransportLane,
  ProcurementDecision, AllocationDecision, Alternative,
}
use civitas.Optimization.Validation.{validate_problem}
use civitas.Optimization.Allocations.{Totals, nothing, allocate_all, check_procurements, when}
use civitas.Optimization.Fefo.{verify_fefo}
use civitas.Optimization.Capacities.{total, known_lane, ordered_of, verify_capacities}

pub record VerificationResult : Type 0 where
  pub valid : Bool
  pub violations : List String

-- `{item.offer_id: item.quantity for item in alternative.procurements}`
unfoldable pub orders_of : List ProcurementDecision → Dict ℤ → Dict ℤ
unfolding insert
orders_of [] orders = orders
orders_of (p ∷ ps) orders = orders_of ps (insert p.offer_id p.quantity orders)

unfoldable pub check_demands : Totals String → List Demand → List String
check_demands allocated_by_demand [] = []
check_demands allocated_by_demand (demand ∷ demands) =
    let fulfilled = allocated_by_demand demand.demand_id in
    when (ltb demand.quantity fulfilled) ("demand " <> demand.demand_id <> " is over-allocated")
    ++ when (ltb fulfilled demand.minimum_service)
        ("demand " <> demand.demand_id <> " misses minimum service")
    ++ check_demands allocated_by_demand demands

-- `demand.quantity - allocated_by_demand[demand.demand_id]`
abbrev pub shortage_of : Totals String → Demand → ℤ
shortage_of allocated_by_demand demand =
    sub_ℕ demand.quantity (allocated_by_demand demand.demand_id)

-- `buckets[id].urgency`
unfoldable pub urgency_of : String → List PlanningBucket → ℕ
urgency_of id [] = 0
urgency_of id (b ∷ bs) =
    let rest = urgency_of id bs in if str_eq b.bucket_id id then b.urgency else rest

abbrev pub weighted_shortage_of : List PlanningBucket → Totals String → Demand → ℤ
weighted_shortage_of buckets allocated_by_demand demand =
    times (times (shortage_of allocated_by_demand demand) demand.priority)
      (urgency_of demand.bucket_id buckets)

abbrev pub is_fully_feasible : FeasibilityStatus → Bool
is_fully_feasible FeasibilityStatus.fully_feasible = true
is_fully_feasible status = false

abbrev pub is_partially_fulfilled : FeasibilityStatus → Bool
is_partially_fulfilled FeasibilityStatus.partially_fulfilled = true
is_partially_fulfilled status = false

abbrev pub is_expected : ℤ → FeasibilityStatus → Bool
is_expected shortage status =
    if eq_ℤ shortage (pos 0) then is_fully_feasible status else is_partially_fulfilled status

unfoldable pub check_lots : Totals String → List InventoryLot → List String
check_lots allocated_by_source [] = []
check_lots allocated_by_source (lot ∷ lots) =
    when (ltb lot.quantity (allocated_by_source lot.lot_id))
      ("lot " <> lot.lot_id <> " is over-allocated")
    ++ check_lots allocated_by_source lots

unfoldable pub check_orders : Dict ℤ → Totals String → List SupplierOffer → List String
unfolding lookup
check_orders orders allocated_by_source [] = []
check_orders orders allocated_by_source (offer ∷ offers) =
    when (not (leb_ℤ (pos (allocated_by_source offer.offer_id)) (ordered_of orders offer.offer_id)))
      ("offer " <> offer.offer_id <> " allocation exceeds its order")
    ++ check_orders orders allocated_by_source offers

unfoldable pub check_lanes : Totals String → List TransportLane → List String
check_lanes allocated_by_lane [] = []
check_lanes allocated_by_lane (lane ∷ lanes) =
    when (ltb lane.capacity (allocated_by_lane lane.lane_id))
      ("lane " <> lane.lane_id <> " exceeds capacity")
    ++ check_lanes allocated_by_lane lanes

-- The two sums of the total cost.
abbrev pub order_cost : Dict ℤ → SupplierOffer → ℤ
order_cost orders offer = times (ordered_of orders offer.offer_id) offer.unit_cost

abbrev pub lane_cost : OptimizationProblem → AllocationDecision → ℤ
lane_cost problem allocation = elim (known_lane problem allocation) [
  | none ↦ pos 0
  | some lane ↦ times allocation.quantity lane.unit_cost
]

unfoldable pub total_cost : OptimizationProblem → Dict ℤ → List AllocationDecision → ℤ
unfolding total lookup
total_cost problem orders allocations =
    total (order_cost orders) problem.supplier_offers +ℤ total (lane_cost problem) allocations

abbrev pub exceeds : Option ℕ → ℤ → Bool
exceeds none cost = false
exceeds (some budget) cost = not (leb_ℤ cost (pos budget))

-- All that the verifier finds, in the order of the code.
unfoldable pub violations_of : OptimizationProblem → Alternative → List String
unfolding orders_of check_procurements allocate_all check_demands check_lots check_orders
    check_lanes verify_fefo verify_capacities total_cost urgency_of total
violations_of problem alternative =
    let orders = orders_of alternative.procurements [] in
    let tally = allocate_all problem nothing alternative.allocations in
    let computed_shortage = total (shortage_of tally.allocated_by_demand) problem.demands in
    when (not (length orders == length alternative.procurements))
      "procurement contains duplicate offer lines"
    ++ check_procurements problem alternative.procurements
    ++ tally.violations
    ++ check_demands tally.allocated_by_demand problem.demands
    ++ when (not (eq_ℤ computed_shortage alternative.shortage))
        "reported shortage does not match allocations"
    ++ when (not (is_expected computed_shortage alternative.feasibility))
        "reported feasibility does not match allocations"
    ++ when
        (not (
          eq_ℤ
            (total (weighted_shortage_of problem.buckets tally.allocated_by_demand) problem.demands)
            alternative.weighted_shortage))
        "reported weighted shortage does not match allocations"
    ++ check_lots tally.allocated_by_source problem.inventory_lots
    ++ check_orders orders tally.allocated_by_source problem.supplier_offers
    ++ check_lanes tally.allocated_by_lane problem.transport_lanes
    ++ verify_fefo problem tally.allocation_by_lot_and_bucket
    ++ verify_capacities problem orders alternative.allocations problem.warehouse_capacities
    ++ when (exceeds problem.budget (total_cost problem orders alternative.allocations))
        "budget exceeded"

unfoldable pub verify : OptimizationProblem → Alternative → Result VerificationResult
unfolding validate_problem violations_of sorted_set
verify problem alternative = do
  validate_problem problem
  let violations = violations_of problem alternative
  ok (record { valid = is_empty violations; violations = sorted_set violations })
