-- ===== src/Workflow/Orchestrator/Machine.antt =====
-- workflow/orchestrator.py: `start`, `advance` and `run`.
use civitas.Prelude.{
  ℕ, zero, suc, ◌==◌, true, false, Option, none, some, List, [], ◌∷◌, ◌++◌, String, raise,
  value_error, if◌then◌else◌,
}
use civitas.Contracts.{
  WorkflowEvent, WorkflowEventType, WorkflowPhase, Payload, OptimizationRequest,
}
use civitas.Workflow.Models.{WorkflowLimits, WorkflowCheckpoint}
use civitas.Workflow.Orchestrator.Monad.{M, ret, lift, ◌>>=◌}
use civitas.Workflow.Orchestrator.Interfaces.{Ports}
use civitas.Workflow.Orchestrator.Basics.{Transition, bounds_exhausted, record_event, terminate}
use civitas.Workflow.Orchestrator.Rounds.{proposal_round, challenge_round, concession_round}
use civitas.Workflow.Orchestrator.Verdict.{jury_round}
use civitas.Workflow.Orchestrator.Investigation.{investigate}

unfoldable pub start : String → OptimizationRequest → WorkflowCheckpoint
start planning_run_id optimization_request = record {
  planning_run_id = planning_run_id;
  phase = WorkflowPhase.proposal;
  cycle = 1;
  event_sequence = 0;
  optimization_request = optimization_request;
  optimization_result = none;
  parliament = none;
  jury_evaluation = none;
  seen_evidence_ids = [];
  seen_evidence_fingerprints = [];
  seen_canonical_source_groups = [];
  repeated_evidence_hits = 0;
  tool_calls_used = 0;
  estimated_cost_used = 0;
  investigation_backlog = [];
  completed_investigation_tasks = [];
  unavailable_investigation_tasks = [];
  final_state = none;
  completed = false;
}

module _ (p : Ports) (limits : WorkflowLimits) where
  -- The chain of phase tests in `advance`.
  unfoldable pub dispatch : WorkflowPhase → WorkflowCheckpoint → M Transition
  dispatch WorkflowPhase.proposal checkpoint = proposal_round p checkpoint
  dispatch WorkflowPhase.challenge checkpoint = challenge_round p checkpoint
  dispatch WorkflowPhase.concession checkpoint = concession_round p checkpoint
  dispatch WorkflowPhase.jury checkpoint = jury_round p checkpoint limits
  dispatch WorkflowPhase.investigation checkpoint = investigate p checkpoint limits
  dispatch phase checkpoint = lift (raise (value_error "unsupported phase"))

  -- The event that opens the log of a run.
  open_log : WorkflowCheckpoint → M Transition
  open_log checkpoint = do
    (updated, event) ←
        record_event p checkpoint WorkflowEventType.run_started
          (Payload.run_started checkpoint.phase checkpoint.cycle)
    ret (updated, event ∷ [])

  unfoldable pub started : WorkflowCheckpoint → M Transition
  unfolding open_log
  started checkpoint =
      if checkpoint.event_sequence == 0 then open_log checkpoint else ret (checkpoint, [])

  -- `advance` behind its first test, on a run that has started.
  unfoldable pub proceed : WorkflowCheckpoint → M Transition
  unfolding dispatch
  proceed checkpoint = do
    exhausted ← bounds_exhausted p checkpoint limits
    elim exhausted [
      | true ↦ do
        (updated, event) ← terminate p checkpoint WorkflowPhase.escalate "bounds_exhausted"
        ret (updated, event ∷ [])
      | false ↦ dispatch checkpoint.phase checkpoint
    ]

  unfoldable pub advance_open : WorkflowCheckpoint → M Transition
  advance_open checkpoint = do
    (checkpoint', startup_events) ← started checkpoint
    (updated, events) ← proceed checkpoint'
    ret (updated, startup_events ++ events)

  unfoldable pub advance : WorkflowCheckpoint → M Transition
  advance checkpoint =
      if checkpoint.completed then ret (checkpoint, []) else advance_open checkpoint

  -- The loop of `run`; `none` means that the fuel ran out.
  unfoldable pub run_loop : ℕ → WorkflowCheckpoint → List WorkflowEvent → M (Option Transition)
  run_loop zero checkpoint events =
      if checkpoint.completed then ret (some (checkpoint, events)) else ret none
  run_loop (suc fuel) checkpoint events = elim checkpoint.completed [
    | true ↦ ret (some (checkpoint, events))
    | false ↦ do
      (checkpoint', new_events) ← advance checkpoint
      run_loop fuel checkpoint' (events ++ new_events)
  ]

  -- `run`, with at most `fuel` rounds of its loop.
  unfoldable pub run : ℕ → WorkflowCheckpoint → M (Option Transition)
  run fuel checkpoint = do
    (checkpoint', events) ← started checkpoint
    run_loop fuel checkpoint' events
