-- ===== src/Workflow/Models.antt =====
-- workflow/models.py: what a planning run carries from one transition to the next.
use civitas.Prelude.{ℕ, ℤ, Bool, Option, List, String}
use civitas.Contracts.{
  WorkflowPhase, OptimizationRequest, OptimizationResult, JuryEvaluation, JsonObject,
}

-- `max_cost` is in minor units; 0 switches a bound off, as the fields' defaults do.
pub record WorkflowLimits : Type 0 where
  pub max_cycles : ℕ
  pub max_tool_calls : ℕ
  pub max_cost : ℕ
  pub max_repeated_evidence : ℕ
  pub deadline_at : ℕ

pub record InvestigationOutcome : Type 0 where
  pub optimization_request : OptimizationRequest
  pub completed_task_ids : List String
  pub unavailable_tasks : List String
  pub evidence_ids : List String
  pub evidence_fingerprints : List String
  pub canonical_source_groups : List String
  pub tool_calls_used : ℕ
  pub estimated_cost : ℕ

-- `score` is a Decimal at a fixed scale, which may be negative.
pub record PlanAssessment : Type 0 where
  pub plan_id : String
  pub score : ℤ
  pub reasons : List String

pub record ParliamentProposal : Type 0 where
  pub role : String
  pub preferred_plan_id : Option String
  pub acceptable_plan_ids : List String
  pub assessments : List PlanAssessment
  pub supporting_claim_ids : List String
  pub evidence_ids : List String
  pub reasoning_summary : String

pub record ParliamentChallenge : Type 0 where
  pub role : String
  pub target_role : String
  pub target_plan_id : Option String
  pub reason : String
  pub blocking : Bool

pub record ParliamentConcession : Type 0 where
  pub role : String
  pub from_plan_id : String
  pub to_plan_id : String
  pub reason : String

pub record ParliamentSession : Type 0 where
  pub proposals : List ParliamentProposal
  pub challenges : List ParliamentChallenge
  pub concessions : List ParliamentConcession
  pub selected_plan_id : Option String
  pub repeated_evidence_ids : List String

pub record ParliamentContext : Type 0 where
  pub cycle : ℕ
  pub optimization_request : OptimizationRequest
  pub optimization_result : OptimizationResult
  pub prior_investigations : List String
  pub plan_annotations : JsonObject

pub record WorkflowCheckpoint : Type 0 where
  pub planning_run_id : String
  pub phase : WorkflowPhase
  pub cycle : ℕ
  pub event_sequence : ℕ
  pub optimization_request : OptimizationRequest
  pub optimization_result : Option OptimizationResult
  pub parliament : Option ParliamentSession
  pub jury_evaluation : Option JuryEvaluation
  pub seen_evidence_ids : List String
  pub seen_evidence_fingerprints : List String
  pub seen_canonical_source_groups : List String
  pub repeated_evidence_hits : ℕ
  pub tool_calls_used : ℕ
  pub estimated_cost_used : ℕ
  pub investigation_backlog : List String
  pub completed_investigation_tasks : List String
  pub unavailable_investigation_tasks : List String
  pub final_state : Option WorkflowPhase
  pub completed : Bool
