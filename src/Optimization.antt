-- ===== src/Optimization.antt =====
-- optimization/models.py: the problem that the solver is given and the alternatives that it answers.
-- The whole numbers of a problem are natural: the negative ones, which validation refuses, are not
-- represented. Those of an alternative may be negative.
pub mod Validation
pub mod Allocations
pub mod Orders
pub mod Allowed
pub mod Counted
pub mod Fefo
pub mod Capacities
pub mod Older
pub mod Groups
pub mod FirstExpired
pub mod Verifier
pub mod Sound
pub mod Verified
mod Tests
use civitas.Prelude.{ℕ, Option, List, String, Dict, ℤ}
use civitas.Contracts.{FeasibilityStatus}

pub data LotStatus : Type 0 where
  available reserved quarantined expired depleted : LotStatus

-- `start` and `end` are `starts_at` and `ends_at`.
pub record PlanningBucket : Type 0 where
  pub bucket_id : String
  pub starts_at : ℕ
  pub ends_at : ℕ
  pub urgency : ℕ

pub record Demand : Type 0 where
  pub demand_id : String
  pub sku_id : String
  pub warehouse_id : String
  pub bucket_id : String
  pub quantity : ℕ
  pub priority : ℕ
  pub minimum_service : ℕ

pub record InventoryLot : Type 0 where
  pub lot_id : String
  pub sku_id : String
  pub warehouse_id : String
  pub quantity : ℕ
  pub expires_at : ℕ
  pub status : LotStatus
  pub available_from : Option ℕ
  pub unit_cost : ℕ

pub record SupplierOffer : Type 0 where
  pub offer_id : String
  pub supplier_id : String
  pub sku_id : String
  pub destination_warehouse_id : String
  pub arrival_bucket_id : String
  pub capacity : ℕ
  pub unit_cost : ℕ
  pub pack_size : ℕ
  pub minimum_order : ℕ
  pub expires_at : Option ℕ
  pub risk : ℕ
  pub expected_waste_rate : ℕ

pub record WarehouseCapacity : Type 0 where
  pub warehouse_id : String
  pub bucket_id : String
  pub maximum_base_units : ℕ

pub record TransportLane : Type 0 where
  pub lane_id : String
  pub source_warehouse_id : String
  pub destination_warehouse_id : String
  pub sku_ids : List String
  pub capacity : ℕ
  pub transit_buckets : ℕ
  pub unit_cost : ℕ

pub record OptimizationProblem : Type 0 where
  pub planning_run_id : String
  pub buckets : List PlanningBucket
  pub demands : List Demand
  pub inventory_lots : List InventoryLot
  pub supplier_offers : List SupplierOffer
  pub warehouse_capacities : List WarehouseCapacity
  pub transport_lanes : List TransportLane
  pub sku_volume : Dict ℕ
  pub budget : Option ℕ
  pub shortage_tolerance : ℕ
  pub maximum_alternatives : ℕ

pub record ProcurementDecision : Type 0 where
  pub offer_id : String
  pub quantity : ℤ

pub record AllocationDecision : Type 0 where
  pub demand_id : String
  pub source_id : String
  pub source_kind : String
  pub quantity : ℤ
  pub lane_id : Option String

pub record Alternative : Type 0 where
  pub alternative_id : String
  pub feasibility : FeasibilityStatus
  pub weighted_shortage : ℤ
  pub shortage : ℤ
  pub procurements : List ProcurementDecision
  pub allocations : List AllocationDecision
  pub metrics : Dict ℤ
