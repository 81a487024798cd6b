-- ===== src/Workflow/Tests.antt =====
-- The workflow on a small run, and the theorems about it at concrete inputs.
use civitas.Prelude.{
  Memᴰ, [], ◌∷◌, true, lookup, insert, ℕ, ◌≡◌, refl, Option, none, some, List, ok, Result, arith,
  length,
}
use civitas.Contracts.{WorkflowPhase, WorkflowEvent, WorkflowEventType, Payload}
use civitas.Parliament.{select_consensus_plan, best_key, key_of}
use civitas.Workflow.Models.{WorkflowCheckpoint, WorkflowLimits}
use civitas.Workflow.Orchestrator.{
  terminate, record_event, bounds_exhausted, proposal_round, challenge_round, concession_round,
  jury_round, selected_plan, investigate, repeated_evidence_ids, start, run, advance, started,
  proceed, advance_open, run_loop,
}
use civitas.Workflow.Orchestrator.Run.{Ends, run-Ends}
use civitas.Workflow.Orchestrator.Log.{Extends}
use civitas.Workflow.Orchestrator.Opening.{Opens, advance-Extends}
use civitas.Workflow.Orchestrator.Coherence.{Moves, advance-Moves, start-IsCoherent}
use civitas.Workflow.Store.{Store, commit_transition, owns_lease, same_lease}
use civitas.Workflow.Store.Tests.{first_lease, claimed, history}
use civitas.Workflow.Progress.{transition_commits}
use civitas.Workflow.Samples.{ports, limits, request}

-- The phase, the cycle and the number of events of a finished run.
abbrev summary :
    Result (Option (WorkflowCheckpoint × List WorkflowEvent) × ℕ) → Option (WorkflowPhase × ℕ × ℕ)
summary (ok (some (c, es), t)) = some (c.phase, c.cycle, length es)
summary _ = none

whole_run :
    summary (run ports limits 16 (start "run-1" request) 0) ≡ some (WorkflowPhase.approve, 2, 12)
unfolding run run_loop advance started proceed advance_open start record_event bounds_exhausted
    proposal_round challenge_round concession_round jury_round selected_plan investigate
    repeated_evidence_ids select_consensus_plan best_key key_of
whole_run = refl

run-Ends_example :
    Ends ports (start "run-1" request) (run ports limits 16 (start "run-1" request) 0)
run-Ends_example = run-Ends ports limits "run-1" request 16 0 (omega arith) (omega arith)

advance-Extends_example :
    Extends (start "run-1" request) (advance ports limits (start "run-1" request) 0)
    × Opens (start "run-1" request) (advance ports limits (start "run-1" request) 0)
advance-Extends_example = advance-Extends ports limits (start "run-1" request) 0

advance-Moves_example :
    Moves limits (start "run-1" request) (advance ports limits (start "run-1" request) 0)
unfolding start
advance-Moves_example =
    advance-Moves ports limits (start "run-1" request) 0 (start-IsCoherent "run-1" request) refl

abbrev overdue : WorkflowLimits
overdue = record limits { deadline_at = 0 }

abbrev escalated : WorkflowCheckpoint
escalated = record (start "run-1" request) {
  phase = WorkflowPhase.escalate;
  event_sequence = 2;
  final_state = some WorkflowPhase.escalate;
  completed = true;
}

abbrev log : List WorkflowEvent
log =
    record {
      event_id = "event";
      planning_run_id = "run-1";
      sequence = 1;
      event_type = WorkflowEventType.run_started;
      occurred_at = 1;
      actor_id = none;
      payload = Payload.run_started WorkflowPhase.proposal 1;
    }
    ∷ record {
      event_id = "event";
      planning_run_id = "run-1";
      sequence = 2;
      event_type = WorkflowEventType.run_completed;
      occurred_at = 4;
      actor_id = none;
      payload = Payload.terminal WorkflowPhase.escalate 1 WorkflowPhase.escalate "bounds_exhausted";
    }
    ∷ []

expires : advance ports overdue first_lease.checkpoint 0 ≡ ok ((escalated, log), 5)
unfolding advance advance_open started proceed start record_event bounds_exhausted terminate
expires = refl

transition_commits_example :
    (s' : Store) × (commit_transition first_lease escalated log 5 claimed ≡ ok s')
unfolding owns_lease same_lease lookup insert
transition_commits_example =
    transition_commits ports overdue first_lease 5 0 history (Memᴰ.head refl) refl expires
