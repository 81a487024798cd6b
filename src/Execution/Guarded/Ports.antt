-- ===== src/Execution/Guarded/Ports.antt =====
-- execution/guarded.py: what the ports answer to one call of execute.
use civitas.Prelude.{ℕ, Bool, Option, String, Error, Result}
use civitas.Contracts.{CandidatePlan, JsonObject}
use civitas.Approval.{OperatorContext}
use civitas.Evidence.Jury.{IntegrityPolicy}
use civitas.Evidence.Jury.Integrity.{Sources, Freshness}
use civitas.Execution.{ExecutionRequest}
use civitas.Execution.Guarded.{RefreshBundle}

pub record McpToolResult : Type 0 where
  pub succeeded : Bool
  pub payload : JsonObject
  pub error_code : Option String

-- `execution_context` of a provider connection.
pub record ExecutionProviderContext : Type 0 where
  pub execution_id : String
  pub approval_receipt_id : String
  pub approved_plan_hash : String

pub record Connection : Type 0 where
  pub execution_context : Option ExecutionProviderContext

-- The arguments of a call.
pub record Call : Type 0 where
  pub request : ExecutionRequest
  pub context : Option OperatorContext
  pub approval_receipt_id : Option String
  pub write_mcp : Option Connection

-- The service: whether it has an approval service, the policy and the evidence analysis of its Jury,
-- and the digest of a plan.
pub record Configuration : Type 0 where
  pub requires_approval : Bool
  pub policy : IntegrityPolicy
  pub freshness : Freshness
  pub sources : Sources
  pub selected_plan_hash : CandidatePlan → String

-- The readings of the clock in the order of the code, the refreshed inputs, the answer of the
-- provider to a write under a key, fresh ids, and Python's text of numbers and of exceptions.
pub record Ports : Type 0 where
  pub rejected_at : ℕ
  pub consumed_at : ℕ
  pub attempted_at : ℕ
  pub assessed_at : ℕ
  pub reserved_at : ℕ → ℕ
  pub write_attempted_at : String → ℕ
  pub write_completed_at : String → ℕ
  pub finished_at : ℕ
  pub refresh : Result RefreshBundle
  pub provider : String → Result McpToolResult
  pub new_id : String → String
  pub show : ℕ → String
  pub message : Error → String
