-- ===== src/Workflow/Orchestrator/Interfaces.antt =====
-- src/civitas/ports and the constructor arguments of `ParliamentWorkflow`. A port may answer
-- differently at each moment, and may raise.
use civitas.Prelude.{ℕ, Option, List, String, Result}
use civitas.Contracts.{OptimizationRequest, OptimizationResult, JuryRequest, JuryEvaluation}
use civitas.Workflow.Models.{
  WorkflowLimits, InvestigationOutcome, ParliamentProposal, ParliamentChallenge,
  ParliamentConcession, ParliamentContext, WorkflowCheckpoint,
}

pub record RoleAgent : Type 0 where
  pub propose : ParliamentContext → Result ParliamentProposal
  pub challenge : ParliamentContext → List ParliamentProposal → Result (List ParliamentChallenge)
  pub concede : ParliamentContext → List ParliamentProposal → Result (Option ParliamentConcession)

pub record Ports : Type 0 where
  pub solve : ℕ → OptimizationRequest → Result OptimizationResult
  pub evaluate : ℕ → JuryRequest → Result JuryEvaluation
  pub new_id : ℕ → String
  pub now : ℕ → ℕ
  pub role_agents : List RoleAgent
  pub replanner : WorkflowCheckpoint → OptimizationRequest
  pub investigator : Option (ℕ → WorkflowCheckpoint → WorkflowLimits → Result InvestigationOutcome)
