-- ===== src/Execution/Guarded.antt =====
-- execution/guarded.py and the execution tables of persistence/models.py: the rows, the answers of
-- the ports and the outcomes. The children model the steps of GuardedExecutionService.execute.
pub mod Readiness
pub mod Ports
pub mod Admission
pub mod Writes
pub mod Approvals
pub mod Service
pub mod Fresh
pub mod Cleared
pub mod Ownership
pub mod Bound
pub mod Revalidated
pub mod Sent
pub mod Closing
pub mod Recorded
pub mod History
pub mod Replay
pub mod Refused
mod Samples
mod Tests
use civitas.Prelude.{ℕ, Bool, Option, List, String, Dict, Result, ℤ}
use civitas.Contracts.{
  FeasibilityStatus, CandidatePlan, ProcurementLine, DistributionLine, JuryState, JsonObject,
  TypedClaim, EvidenceRecord,
}
use civitas.Execution.{ExecutionState, ExecutionRequest, ExecutionResult}
use civitas.Approval.{Ledger}
use civitas.Inventory.{Stock}

pub record PlanningRunModel : Type 0 where
  pub id : String
  pub organization_id : String
  pub status : String

pub record CandidatePlanModel : Type 0 where
  pub id : String
  pub planning_run_id : String
  pub feasibility : FeasibilityStatus
  pub shortage_base_units : ℕ
  pub metrics : Dict ℕ
  pub solver_version : String
  pub selected : Bool

-- The lines are rows of their plan.
pub record ProcurementLineModel : Type 0 where
  pub plan_id : String
  pub line : ProcurementLine

pub record DistributionLineModel : Type 0 where
  pub plan_id : String
  pub line : DistributionLine

-- A gate of `gate_results`.
pub record RecordedGate : Type 0 where
  pub gate_code : String
  pub passed : Bool

-- Scores are percentages in hundredths; the component is absent where it is not a number.
pub record JuryDecisionModel : Type 0 where
  pub id : String
  pub planning_run_id : String
  pub plan_id : String
  pub policy_version : String
  pub integrity_score : ℕ
  pub dissent_robustness : Option ℕ
  pub gate_results : List RecordedGate
  pub final_state : JuryState

pub record ExecutionAuditModel : Type 0 where
  pub id : String
  pub organization_id : String
  pub planning_run_id : String
  pub approved_plan_id : String
  pub jury_decision_id : String
  pub approval_receipt_id : Option String
  pub idempotency_key : String
  pub approval_policy_version : String
  pub action : JsonObject
  pub state : ExecutionState
  pub requested_at : ℕ
  pub attempted_at : Option ℕ
  pub completed_at : Option ℕ
  pub failure_code : Option String
  pub compensation_status : Option String
  pub external_references : List String

pub record ExecutionAuditEventModel : Type 0 where
  pub id : String
  pub execution_id : String
  pub sequence : ℕ
  pub occurred_at : ℕ
  pub state : ExecutionState
  pub reason_code : Option String
  pub detail : Option String

-- The payload holds the run, the supplier and the lines.
pub record ProviderWriteModel : Type 0 where
  pub id : String
  pub execution_id : String
  pub organization_id : String
  pub planning_run_id : String
  pub supplier_id : String
  pub lines : List ProcurementLine
  pub idempotency_key : String
  pub state : ExecutionState
  pub attempted_at : ℕ
  pub completed_at : Option ℕ
  pub external_reference : Option String
  pub failure_code : Option String

-- A row of the suppliers, the SKUs, the warehouses or the lots, and the organization that owns it.
pub record Owned : Type 0 where
  pub id : String
  pub organization_id : String

pub record Database : Type 0 where
  pub planning_runs : List PlanningRunModel
  pub candidate_plans : List CandidatePlanModel
  pub procurement_lines : List ProcurementLineModel
  pub distribution_lines : List DistributionLineModel
  pub jury_decisions : List JuryDecisionModel
  pub suppliers : List Owned
  pub skus : List Owned
  pub warehouses : List Owned
  pub stock : Stock
  pub approvals : Ledger
  pub audits : List ExecutionAuditModel
  pub events : List ExecutionAuditEventModel
  pub provider_writes : List ProviderWriteModel

pub record RefreshBundle : Type 0 where
  pub claims : List TypedClaim
  pub evidence : List EvidenceRecord
  pub observed_unit_prices : Dict ℤ
  pub constraints : Dict ℤ

pub record GuardedExecutionOutcome : Type 0 where
  pub result : ExecutionResult
  pub decision : String
  pub reasons : List String
  pub required_investigation : List String
