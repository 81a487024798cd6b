-- ===== src/Optimization/Tests.antt =====
-- The verifier on a plan that serves one demand from a remote lot and from an order.
use civitas.Prelude.{
  ℕ, ◌≤◌, ◌≢◌, ◌+ℤ◌, Memᴰ, String, arith, ◌≡◌, refl, true, false, none, some, [], ◌∷◌, pos, ok,
  String,
}
use civitas.Contracts.{FeasibilityStatus}
use civitas.Optimization.{
  LotStatus, PlanningBucket, Demand, InventoryLot, SupplierOffer, TransportLane,
  OptimizationProblem, AllocationDecision, Alternative,
}
use civitas.Optimization.Allocations.{nothing, allocate_all}
use civitas.Optimization.FirstExpired.{used_from}
use civitas.Optimization.Verified.{verify-UsesFirstExpired}
use civitas.Optimization.Verifier.{VerificationResult, verify}
use civitas.Optimization.Sound.{KeepsConstraints, verify-KeepsConstraints}

abbrev monday : PlanningBucket
monday = record { bucket_id = "monday"; starts_at = 0; ends_at = 10; urgency = 2 }

abbrev tuesday : PlanningBucket
tuesday = record { bucket_id = "tuesday"; starts_at = 10; ends_at = 20; urgency = 1 }

abbrev demand : Demand
demand = record {
  demand_id = "demand";
  sku_id = "milk";
  warehouse_id = "south";
  bucket_id = "tuesday";
  quantity = 6;
  priority = 3;
  minimum_service = 4;
}

abbrev lot : InventoryLot
lot = record {
  lot_id = "lot";
  sku_id = "milk";
  warehouse_id = "north";
  quantity = 3;
  expires_at = 30;
  status = LotStatus.available;
  available_from = none;
  unit_cost = 1;
}

abbrev offer : SupplierOffer
offer = record {
  offer_id = "offer";
  supplier_id = "acme";
  sku_id = "milk";
  destination_warehouse_id = "south";
  arrival_bucket_id = "monday";
  capacity = 8;
  unit_cost = 5;
  pack_size = 2;
  minimum_order = 2;
  expires_at = some 40;
  risk = 0;
  expected_waste_rate = 0;
}

abbrev lane : TransportLane
lane = record {
  lane_id = "lane";
  source_warehouse_id = "north";
  destination_warehouse_id = "south";
  sku_ids = [];
  capacity = 3;
  transit_buckets = 1;
  unit_cost = 1;
}

abbrev problem : OptimizationProblem
problem = record {
  planning_run_id = "run-1";
  buckets = monday ∷ tuesday ∷ [];
  demands = demand ∷ [];
  inventory_lots = lot ∷ [];
  supplier_offers = offer ∷ [];
  warehouse_capacities =
      record { warehouse_id = "south"; bucket_id = "tuesday"; maximum_base_units = 9 } ∷ [];
  transport_lanes = lane ∷ [];
  sku_volume = [];
  budget = some 20;
  shortage_tolerance = 0;
  maximum_alternatives = 5;
}

abbrev plan : Alternative
plan = record {
  alternative_id = "plan-a";
  feasibility = FeasibilityStatus.partially_fulfilled;
  weighted_shortage = pos 3;
  shortage = pos 1;
  procurements = record { offer_id = "offer"; quantity = pos 2 } ∷ [];
  allocations =
      record {
        demand_id = "demand";
        source_id = "lot";
        source_kind = "lot";
        quantity = pos 3;
        lane_id = some "lane";
      }
      ∷ record {
        demand_id = "demand";
        source_id = "offer";
        source_kind = "offer";
        quantity = pos 2;
        lane_id = none;
      }
      ∷ [];
  metrics = [];
}

abbrev verdict : VerificationResult
verdict = record { valid = true; violations = [] }

accepted : verify problem plan ≡ ok verdict
unfolding verify ◌+ℤ◌
accepted = refl

abbrev overdrawn : VerificationResult
overdrawn = record { valid = false; violations = "lot lot is over-allocated" ∷ [] }

refused :
    verify (record problem { inventory_lots = record lot { quantity = 2 } ∷ [] }) plan
    ≡ ok overdrawn
unfolding verify ◌+ℤ◌
refused = refl

verify-KeepsConstraints_example : KeepsConstraints problem plan
verify-KeepsConstraints_example = verify-KeepsConstraints problem plan verdict accepted refl

abbrev old_lot : InventoryLot
old_lot = record lot { lot_id = "old"; quantity = 1; expires_at = 25 }

abbrev two_lots : OptimizationProblem
two_lots = record problem {
  demands = record demand { minimum_service = 3 } ∷ [];
  inventory_lots = lot ∷ old_lot ∷ [];
}

abbrev from_lot : String → ℕ → AllocationDecision
from_lot lot_id n = record {
  demand_id = "demand";
  source_id = lot_id;
  source_kind = "lot";
  quantity = pos n;
  lane_id = some "lane";
}

abbrev uses_both : Alternative
uses_both = record plan {
  weighted_shortage = pos 9;
  shortage = pos 3;
  procurements = [];
  allocations = from_lot "old" 1 ∷ from_lot "lot" 2 ∷ [];
}

both_accepted : verify two_lots uses_both ≡ ok verdict
unfolding verify ◌+ℤ◌
both_accepted = refl

is_used :
    (allocate_all two_lots nothing uses_both.allocations).allocation_by_lot_and_bucket "lot" (pos 0)
    ≢ 0
unfolding allocate_all
is_used none_used = absurd (ground arith)

verify-UsesFirstExpired_example :
    1
    ≤ used_from
        (allocate_all two_lots nothing uses_both.allocations).allocation_by_lot_and_bucket
        "old"
        0
        0
verify-UsesFirstExpired_example =
    verify-UsesFirstExpired two_lots uses_both verdict old_lot lot 0 monday both_accepted refl
      (Memᴰ.tail (Memᴰ.head refl)) (Memᴰ.head refl) refl refl (omega arith) refl is_used refl
      (omega arith)
