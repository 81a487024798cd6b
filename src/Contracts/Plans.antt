-- ===== src/Contracts/Plans.antt =====
-- contracts/optimization.py and contracts/jury.py: solver input and output, and the Jury's.
use civitas.Prelude.{ℕ, Bool, List, String}
use civitas.Contracts.Json.{JsonObject}

pub data FeasibilityStatus : Type 0 where
  fully_feasible partially_fulfilled infeasible : FeasibilityStatus

pub data JuryState : Type 0 where
  approve investigate escalate reject : JuryState

-- `value` counts base units.
pub record Quantity : Type 0 where
  pub value : ℕ
  pub unit : String

pub record ProcurementLine : Type 0 where
  pub supplier_id : String
  pub sku_id : String
  pub destination_warehouse_id : String
  pub arrival_bucket_start : ℕ
  pub quantity : Quantity
  pub landed_cost : ℕ

pub record DistributionLine : Type 0 where
  pub sku_id : String
  pub source_warehouse_id : String
  pub destination_warehouse_id : String
  pub departure_bucket_start : ℕ
  pub arrival_bucket_start : ℕ
  pub quantity : Quantity
  pub source_lot_ids : List String

pub record CandidatePlan : Type 0 where
  pub plan_id : String
  pub planning_run_id : String
  pub feasibility : FeasibilityStatus
  pub procurement : List ProcurementLine
  pub distribution : List DistributionLine
  pub shortage_base_units : ℕ
  pub metrics : List (String × ℕ)
  pub solver_version : String

pub record OptimizationRequest : Type 0 where
  pub planning_run_id : String
  pub input_data_version : String
  pub objectives_version : String
  pub constraints : JsonObject
  pub maximum_alternatives : ℕ

pub record OptimizationResult : Type 0 where
  pub planning_run_id : String
  pub alternatives : List CandidatePlan
  pub diagnostics : JsonObject

-- Each component is a percentage, in hundredths.
pub record IntegrityComponents : Type 0 where
  pub critical_claim_coverage : ℕ
  pub evidence_independence : ℕ
  pub provenance_completeness : ℕ
  pub evidence_freshness : ℕ
  pub canonical_source_diversity : ℕ
  pub contradiction_resolution : ℕ
  pub dissent_robustness : ℕ

-- `ReasonCode` of evidence/jury.py; the contracts carry its text.
pub data ReasonCode : Type 0 where
  solver_infeasible hard_constraint_violation critical_contradiction_unresolved : ReasonCode
  critical_claim_unsupported stale_execution_data autonomy_budget_exhausted : ReasonCode
  human_approval_required strong_evidence_invalidates_plan dissent_check_failed : ReasonCode
  integrity_below_approval_threshold integrity_below_investigation_threshold : ReasonCode

pub record JuryGateResult : Type 0 where
  pub gate_code : String
  pub passed : Bool
  pub reason_codes : List ReasonCode

pub record JuryRequest : Type 0 where
  pub planning_run_id : String
  pub candidate_plan : CandidatePlan
  pub supporting_claim_ids : List String
  pub evidence_ids : List String
  pub policy_version : String
  pub autonomy_budget_exhausted : Bool
  pub require_critical_external_support : Bool

pub record JuryEvaluation : Type 0 where
  pub evaluation_id : String
  pub planning_run_id : String
  pub plan_id : String
  pub policy_version : String
  pub implementation_version : String
  pub calculated_at : ℕ
  pub components : IntegrityComponents
  pub integrity_score : ℕ
  pub gates : List JuryGateResult
  pub state : JuryState
  pub reason_codes : List ReasonCode
  pub required_investigation : List String
