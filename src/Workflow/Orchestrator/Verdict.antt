-- ===== src/Workflow/Orchestrator/Verdict.antt =====
-- workflow/orchestrator.py: the Jury's round, and where its verdict sends the run.
use civitas.Prelude.{Bool, some, [], ◌∷◌, String, Result, ok, ◌>>=◌ as bind}
use civitas.Contracts.{
  WorkflowEventType, WorkflowPhase, Payload, JuryState, JuryRequest, JuryEvaluation,
  OptimizationResult,
}
use civitas.Workflow.Models.{WorkflowLimits, ParliamentSession, WorkflowCheckpoint}
use civitas.Workflow.Orchestrator.Monad.{M, ret, lift, moment, ◌>>=◌}
use civitas.Workflow.Orchestrator.Interfaces.{Ports}
use civitas.Workflow.Orchestrator.Evidence.{
  supporting_claim_ids, supporting_evidence_ids, evidence_required, selected_plan,
}
use civitas.Workflow.Orchestrator.Rounds.{debated}
use civitas.Workflow.Orchestrator.Basics.{Transition, bounds_exhausted, record_event, terminate}

module _ (p : Ports) where
  jury_request :
      WorkflowCheckpoint → ParliamentSession → OptimizationResult → Bool → Result JuryRequest
  jury_request checkpoint parliament result exhausted =
      bind (selected_plan result.alternatives parliament.selected_plan_id) (λ selected. ok (record {
        planning_run_id = checkpoint.planning_run_id;
        candidate_plan = selected;
        supporting_claim_ids = supporting_claim_ids parliament;
        evidence_ids = supporting_evidence_ids parliament;
        policy_version = "decision-integrity-v1";
        autonomy_budget_exhausted = exhausted;
        require_critical_external_support = evidence_required checkpoint.optimization_request;
      }))

  -- The Jury's event, then the end of the run in that phase.
  conclude : WorkflowCheckpoint → JuryEvaluation → WorkflowPhase → String → M Transition
  unfolding record_event terminate
  conclude checkpoint evaluation phase reason = do
    (updated, jury_event) ←
        record_event p (record checkpoint { jury_evaluation = some evaluation })
          WorkflowEventType.jury_evaluated
          (Payload.jury_routed WorkflowPhase.jury checkpoint.cycle evaluation.plan_id
            evaluation.state)
    (completed, terminal_event) ← terminate p updated phase reason
    ret (completed, jury_event ∷ terminal_event ∷ [])

  send_to_investigation : WorkflowCheckpoint → JuryEvaluation → M Transition
  unfolding record_event
  send_to_investigation checkpoint evaluation = do
    (updated, jury_event) ←
        record_event p
          (record checkpoint {
            phase = WorkflowPhase.investigation;
            jury_evaluation = some evaluation;
            investigation_backlog = evaluation.required_investigation;
          })
          WorkflowEventType.jury_evaluated
          (Payload.jury_routed WorkflowPhase.jury checkpoint.cycle evaluation.plan_id
            evaluation.state)
    (updated', investigation_event) ←
        record_event p updated WorkflowEventType.investigation_requested (
          Payload.investigation_round WorkflowPhase.investigation checkpoint.cycle
            evaluation.required_investigation [] [] [])
    ret (updated', jury_event ∷ investigation_event ∷ [])

  -- The routing by the Jury's state.
  route : WorkflowCheckpoint → JuryEvaluation → JuryState → M Transition
  unfolding conclude send_to_investigation
  route checkpoint evaluation JuryState.approve =
      conclude checkpoint evaluation WorkflowPhase.approve "jury_approved"
  route checkpoint evaluation JuryState.reject =
      conclude checkpoint evaluation WorkflowPhase.reject "jury_rejected"
  route checkpoint evaluation JuryState.escalate =
      conclude checkpoint evaluation WorkflowPhase.escalate "jury_escalated"
  route checkpoint evaluation JuryState.investigate = send_to_investigation checkpoint evaluation

  -- `_jury_round`
  unfoldable pub jury_round : WorkflowCheckpoint → WorkflowLimits → M Transition
  unfolding debated jury_request bounds_exhausted route
  jury_round checkpoint limits = do
    (parliament, result) ← lift (debated p checkpoint "concession round must run before jury")
    exhausted ← bounds_exhausted p checkpoint limits
    request ← lift (jury_request checkpoint parliament result exhausted)
    t ← moment
    evaluation ← lift (p.evaluate t request)
    route checkpoint evaluation evaluation.state
