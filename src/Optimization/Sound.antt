-- ===== src/Optimization/Sound.antt =====
-- optimization/verifier.py: an alternative that the verifier finds valid keeps the constraints.
use civitas.Prelude.{
  ℕ, negsuc, ◌≤◌, true, false, not, Result-cases, Option, none, some, List, [], ◌∷◌, is_empty,
  length, String, ℤ, pos, times, sub_ℕ, eq_ℤ, ◌≤ℤ◌, ◌≡◌, inl, inr, refl, sym, ◌∙◌, ap, subst, All,
  ok, arith,
}
use civitas.Optimization.{
  OptimizationProblem, Demand, InventoryLot, SupplierOffer, TransportLane, WarehouseCapacity,
  AllocationDecision, Alternative,
}
use civitas.Optimization.Validation.{validate_problem}
use civitas.Optimization.Allocations.{
  Totals, nothing, allocate_all, check_procurements, when, index_of,
}
use civitas.Optimization.Allowed.{IsAllowed}
use civitas.Optimization.Orders.{append_empty, IsOrdered, check_procurements-IsOrdered}
use civitas.Optimization.Counted.{served, drawn, carried, allocate_all-AreCounted}
use civitas.Optimization.Capacities.{total, ordered_of, verify_capacities, occupied}
use civitas.Optimization.Fefo.{verify_fefo}
use civitas.Optimization.Verifier.{
  VerificationResult, orders_of, check_demands, shortage_of, weighted_shortage_of, is_expected,
  check_lots, check_orders, check_lanes, urgency_of, total_cost, exceeds, violations_of, verify,
}

-- What the demands, the lots, the orders and the lanes are used for.
abbrev pub IsServed : List AllocationDecision → Demand → Type 0
IsServed allocations d =
    (d.minimum_service ≤ served allocations d.demand_id)
    × (served allocations d.demand_id ≤ d.quantity)

check_demands-IsServed :
    (totals : Totals String) (allocations : List AllocationDecision)
    → ((id : String) → totals id ≡ served allocations id)
    → (demands : List Demand) → check_demands totals demands ≡ []
    → All (IsServed allocations) demands
unfolding check_demands
check_demands-IsServed totals allocations same [] h = tt
check_demands-IsServed totals allocations same (d ∷ ds) h =
    let sum = same d.demand_id in
    (ground (arith, sum), check_demands-IsServed totals allocations same ds (ground arith))

check_lots-AreEnough :
    (totals : Totals String) (allocations : List AllocationDecision)
    → ((id : String) → totals id ≡ drawn allocations id)
    → (lots : List InventoryLot) → check_lots totals lots ≡ []
    → All (λ l. drawn allocations l.lot_id ≤ l.quantity) lots
unfolding check_lots
check_lots-AreEnough totals allocations same [] h = tt
check_lots-AreEnough totals allocations same (l ∷ ls) h =
    let sum = same l.lot_id in
    (ground (arith, sum), check_lots-AreEnough totals allocations same ls (ground arith))

check_orders-AreEnough :
    (orders : List (String × ℤ)) (totals : Totals String) (allocations : List AllocationDecision)
    → ((id : String) → totals id ≡ drawn allocations id)
    → (offers : List SupplierOffer) → check_orders orders totals offers ≡ []
    → All (λ o. pos (drawn allocations o.offer_id) ≤ℤ ordered_of orders o.offer_id) offers
unfolding check_orders
check_orders-AreEnough orders totals allocations same [] h = tt
check_orders-AreEnough orders totals allocations same (o ∷ os) h =
    let sum = same o.offer_id in
    (ground (arith, sum), check_orders-AreEnough orders totals allocations same os (ground arith))

check_lanes-AreEnough :
    (totals : Totals String) (allocations : List AllocationDecision)
    → ((id : String) → carried allocations id ≤ totals id)
    → (lanes : List TransportLane) → check_lanes totals lanes ≡ []
    → All (λ l. carried allocations l.lane_id ≤ l.capacity) lanes
unfolding check_lanes
check_lanes-AreEnough totals allocations within [] h = tt
check_lanes-AreEnough totals allocations within (l ∷ ls) h =
    let sum = within l.lane_id in
    (ground (arith, sum), check_lanes-AreEnough totals allocations within ls (ground arith))

-- A limit on a warehouse holds what the plan stores there.
abbrev pub Holds : OptimizationProblem → Alternative → WarehouseCapacity → Type 0
Holds problem alternative limit =
    occupied problem (orders_of alternative.procurements []) alternative.allocations
      limit.warehouse_id (index_of limit.bucket_id problem.buckets)
    ≤ℤ pos limit.maximum_base_units

verify_capacities-Holds :
    (problem : OptimizationProblem) (alternative : Alternative) (limits : List WarehouseCapacity)
    → verify_capacities problem
        (orders_of alternative.procurements [])
        alternative.allocations
        limits
      ≡ []
    → All (Holds problem alternative) limits
unfolding verify_capacities
verify_capacities-Holds problem alternative [] h = tt
verify_capacities-Holds problem alternative (l ∷ ls) h =
    (ground arith, verify_capacities-Holds problem alternative ls (ground arith))

eq_ℤ-same : (a b : ℤ) → eq_ℤ a b ≡ true → a ≡ b
eq_ℤ-same (pos n) (pos m) h = ground arith
eq_ℤ-same (negsuc n) (negsuc m) h = ground arith
eq_ℤ-same (pos n) (negsuc m) h = absurd (ground arith)
eq_ℤ-same (negsuc n) (pos m) h = absurd (ground arith)

total-ext {ℓ} :
    {A : Type ℓ} (f g : A → ℤ) → ((x : A) → f x ≡ g x) → (xs : List A) → total f xs ≡ total g xs
unfolding total
total-ext f g same [] = refl
total-ext f g same (x ∷ xs) = rw (same x, total-ext f g same xs) refl

-- What the verifier promises of a valid alternative.
pub record KeepsConstraints (problem : OptimizationProblem) (alternative : Alternative)
    : Type 0 where
  pub validated : validate_problem problem ≡ ok tt
  pub distinct : length (orders_of alternative.procurements []) ≡ length alternative.procurements
  pub ordered : All (IsOrdered problem) alternative.procurements
  pub allowed : All (IsAllowed problem) alternative.allocations
  pub served_demands : All (IsServed alternative.allocations) problem.demands
  pub shortage :
      total (shortage_of (served alternative.allocations)) problem.demands ≡ alternative.shortage
  pub feasibility : is_expected alternative.shortage alternative.feasibility ≡ true
  pub weighted_shortage :
      total (weighted_shortage_of problem.buckets (served alternative.allocations)) problem.demands
      ≡ alternative.weighted_shortage
  pub lots : All (λ l. drawn alternative.allocations l.lot_id ≤ l.quantity) problem.inventory_lots
  pub offers :
      All
        (λ o.
          pos (drawn alternative.allocations o.offer_id)
          ≤ℤ ordered_of (orders_of alternative.procurements []) o.offer_id)
        problem.supplier_offers
  pub lanes :
      All (λ l. carried alternative.allocations l.lane_id ≤ l.capacity) problem.transport_lanes
  pub first_expired :
      verify_fefo problem
        (allocate_all problem nothing alternative.allocations).allocation_by_lot_and_bucket
      ≡ []
  pub capacities : All (Holds problem alternative) problem.warehouse_capacities
  pub budget :
      (limit : ℕ)
      → problem.budget ≡ some limit
      → total_cost problem (orders_of alternative.procurements []) alternative.allocations
        ≤ℤ pos limit

nothing_found : (violations : List String) → is_empty violations ≡ true → violations ≡ []
nothing_found [] h = refl
nothing_found (v ∷ vs) h = absurd (ground arith)

within_budget :
    (budget : Option ℕ) (cost : ℤ)
    → exceeds budget cost ≡ false
    → (limit : ℕ) → budget ≡ some limit
    → cost ≤ℤ pos limit
within_budget none cost h limit is_limit = absurd (ground arith)
within_budget (some b) cost h limit is_limit = ground arith

module _ (problem : OptimizationProblem) (alternative : Alternative) where
  violations_of-KeepsConstraints :
      validate_problem problem ≡ ok tt
      → violations_of problem alternative ≡ []
      → KeepsConstraints problem alternative
  unfolding violations_of
  violations_of-KeepsConstraints validated h =
      let allocations = alternative.allocations in
      let orders = orders_of alternative.procurements [] in
      let tally = allocate_all problem nothing allocations in
      let shortage = total (shortage_of tally.allocated_by_demand) problem.demands in
      let weighted =
        total (weighted_shortage_of problem.buckets tally.allocated_by_demand) problem.demands in
      let (h12, cost) =
        append_empty _
          (when (exceeds problem.budget (total_cost problem orders allocations)) "budget exceeded")
          h in
      let (h11, capacities) =
        append_empty _ (verify_capacities problem orders allocations problem.warehouse_capacities)
          h12 in
      let (h10, fefo) =
        append_empty _ (verify_fefo problem tally.allocation_by_lot_and_bucket) h11 in
      let (h9, lanes) =
        append_empty _ (check_lanes tally.allocated_by_lane problem.transport_lanes) h10 in
      let (h8, offers) =
        append_empty _ (check_orders orders tally.allocated_by_source problem.supplier_offers) h9 in
      let (h7, lots) =
        append_empty _ (check_lots tally.allocated_by_source problem.inventory_lots) h8 in
      let (h6, weight) =
        append_empty _
          (when (not (eq_ℤ weighted alternative.weighted_shortage))
            "reported weighted shortage does not match allocations")
          h7 in
      let (h5, status) =
        append_empty _
          (when (not (is_expected shortage alternative.feasibility))
            "reported feasibility does not match allocations")
          h6 in
      let (h4, short) =
        append_empty _
          (when (not (eq_ℤ shortage alternative.shortage))
            "reported shortage does not match allocations")
          h5 in
      let (h3, demands) =
        append_empty _ (check_demands tally.allocated_by_demand problem.demands) h4 in
      let (h2, clean) = append_empty _ tally.violations h3 in
      let (h1, lines) = append_empty _ (check_procurements problem alternative.procurements) h2 in
      let distinct = h1 in
      let counted = allocate_all-AreCounted problem allocations nothing clean in
      let by_demand : (id : String) → tally.allocated_by_demand id ≡ served allocations id =
        λ id. omega (arith, counted.by_demand id) in
      let by_source : (id : String) → tally.allocated_by_source id ≡ drawn allocations id =
        λ id. omega (arith, counted.by_source id) in
      let by_lane : (id : String) → carried allocations id ≤ tally.allocated_by_lane id =
        λ id. omega (arith, counted.by_lane id) in
      let reported : shortage ≡ alternative.shortage = eq_ℤ-same _ _ (ground arith) in
      let reported_weight : weighted ≡ alternative.weighted_shortage =
        eq_ℤ-same _ _ (ground arith) in
      let status' : is_expected shortage alternative.feasibility ≡ true = ground arith in
      record {
        validated = validated;
        distinct = ground arith;
        ordered = check_procurements-IsOrdered problem alternative.procurements lines;
        allowed = counted.allowed;
        served_demands =
            check_demands-IsServed tally.allocated_by_demand allocations by_demand problem.demands
              demands;
        shortage =
            total-ext _ _ (λ d. ap (sub_ℕ d.quantity) (sym (by_demand d.demand_id))) problem.demands
            ∙ reported;
        feasibility = subst (λ s. is_expected s alternative.feasibility ≡ true) reported status';
        weighted_shortage =
            total-ext _ _
              (λ d.
                ap
                  (λ n.
                    times (times (sub_ℕ d.quantity n) d.priority)
                      (urgency_of d.bucket_id problem.buckets))
                  (sym (by_demand d.demand_id)))
              problem.demands
            ∙ reported_weight;
        lots =
            check_lots-AreEnough tally.allocated_by_source allocations by_source
              problem.inventory_lots lots;
        offers =
            check_orders-AreEnough orders tally.allocated_by_source allocations by_source
              problem.supplier_offers offers;
        lanes =
            check_lanes-AreEnough tally.allocated_by_lane allocations by_lane
              problem.transport_lanes lanes;
        first_expired = fefo;
        capacities =
            verify_capacities-Holds problem alternative problem.warehouse_capacities capacities;
        budget =
            within_budget problem.budget (total_cost problem orders allocations) (ground arith);
      }

  -- An alternative that `verify` finds valid keeps the constraints of the problem: the problem is
  -- well-formed; each offer is ordered once, in whole packs between its minimum and its capacity;
  -- each allocation is positive and serves a known demand, from an available lot of its SKU, which
  -- is there and not expired when the demand is served, in its warehouse or over an eligible lane
  -- that arrives in time, or from an offer for it that arrives in time; no demand gets less than
  -- its minimum service or more than its quantity; the FEFO check finds nothing; the shortage, the
  -- weighted shortage and the feasibility are those that it reports; no lot, order, lane or
  -- limited warehouse is over-used; and the cost is within the budget.
  pub verify-KeepsConstraints :
      (result : VerificationResult)
      → verify problem alternative ≡ ok result
      → result.valid ≡ true
      → KeepsConstraints problem alternative
  unfolding verify
  verify-KeepsConstraints result h valid = elim (Result-cases (validate_problem problem)) [
    | inl (e, refused) ↦ absurd (ground arith)
    | inr (t, validated) ↦
        violations_of-KeepsConstraints validated
          (nothing_found (violations_of problem alternative) (ground arith))
  ]
