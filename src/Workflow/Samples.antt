-- ===== src/Workflow/Samples.antt =====
-- A small planning run: one plan, one role agent, and a Jury that approves at its second look.
use civitas.Prelude.{ltb, none, some, [], ◌∷◌, ok, if◌then◌else◌}
use civitas.Contracts.{
  FeasibilityStatus, JuryState, CandidatePlan, OptimizationRequest, OptimizationResult, JuryRequest,
  JuryEvaluation, end,
}
use civitas.Workflow.Models.{WorkflowLimits, ParliamentProposal}
use civitas.Workflow.Orchestrator.{RoleAgent, Ports}

abbrev pub plan : CandidatePlan
plan = record {
  plan_id = "plan-a";
  planning_run_id = "run-1";
  feasibility = FeasibilityStatus.fully_feasible;
  procurement = [];
  distribution = [];
  shortage_base_units = 0;
  metrics = [];
  solver_version = "civitas-cp-sat-v1";
}

abbrev pub request : OptimizationRequest
request = record {
  planning_run_id = "run-1";
  input_data_version = "v1";
  objectives_version = "v1";
  constraints = end;
  maximum_alternatives = 5;
}

abbrev pub result : OptimizationResult
result = record { planning_run_id = "run-1"; alternatives = plan ∷ []; diagnostics = end }

abbrev pub proposal : ParliamentProposal
proposal = record {
  role = "cost";
  preferred_plan_id = some "plan-a";
  acceptable_plan_ids = "plan-a" ∷ [];
  assessments = [];
  supporting_claim_ids = "claim-1" ∷ [];
  evidence_ids = "evidence-1" ∷ [];
  reasoning_summary = "cost prefers plan-a";
}

abbrev pub evaluation : JuryState → JuryRequest → JuryEvaluation
evaluation state jury_request = record {
  evaluation_id = "jury-1";
  planning_run_id = jury_request.planning_run_id;
  plan_id = jury_request.candidate_plan.plan_id;
  policy_version = jury_request.policy_version;
  implementation_version = "evidence-jury-1.0.0";
  calculated_at = 0;
  components = record {
    critical_claim_coverage = 10000;
    evidence_independence = 10000;
    provenance_completeness = 10000;
    evidence_freshness = 10000;
    canonical_source_diversity = 10000;
    contradiction_resolution = 10000;
    dissent_robustness = 10000;
  };
  integrity_score = 10000;
  gates = [];
  state = state;
  reason_codes = [];
  required_investigation = [];
}

abbrev pub agent : RoleAgent
agent = record {
  propose = λ context. ok proposal;
  challenge = λ context proposals. ok [];
  concede = λ context proposals. ok none;
}

-- Before moment 20 the Jury asks for an investigation.
abbrev pub ports : Ports
ports = record {
  solve = λ t r. ok result;
  evaluate =
      λ t r. ok (evaluation (if ltb t 20 then JuryState.investigate else JuryState.approve) r);
  new_id = λ t. "event";
  now = λ t. t;
  role_agents = agent ∷ [];
  replanner = λ checkpoint. checkpoint.optimization_request;
  investigator = none;
}

abbrev pub limits : WorkflowLimits
limits = record {
  max_cycles = 3;
  max_tool_calls = 0;
  max_cost = 0;
  max_repeated_evidence = 1;
  deadline_at = 1000;
}
