-- ===== src/Workflow/Orchestrator/Basics.antt =====
-- workflow/orchestrator.py: reading the clock, the bounds of a run, recording an event, ending.
use civitas.Prelude.{ℕ, ◌+◌, ltb, leb, Bool, true, ◌&&◌, ◌||◌, none, some, List, String}
use civitas.Contracts.{WorkflowEvent, WorkflowEventType, WorkflowPhase, Payload}
use civitas.Workflow.Models.{WorkflowLimits, WorkflowCheckpoint}
use civitas.Workflow.Orchestrator.Monad.{M, ret, moment, ◌>>=◌}
use civitas.Workflow.Orchestrator.Interfaces.{Ports}

abbrev pub Transition : Type 0
Transition = WorkflowCheckpoint × List WorkflowEvent

module _ (p : Ports) where
  -- `self._clock.now()`
  unfoldable pub read_clock : M ℕ
  read_clock = do t ← moment; ret (p.now t)

  -- `_bounds_exhausted`
  unfoldable pub bounds_exhausted : WorkflowCheckpoint → WorkflowLimits → M Bool
  unfolding read_clock
  bounds_exhausted checkpoint limits = do
    now ← read_clock
    let cost_exhausted = ltb 0 limits.max_cost && ltb limits.max_cost checkpoint.estimated_cost_used
    let tool_exhausted =
        ltb 0 limits.max_tool_calls && leb limits.max_tool_calls checkpoint.tool_calls_used
    ret (
        ltb limits.max_cycles checkpoint.cycle
        || tool_exhausted
        || cost_exhausted
        || leb limits.deadline_at now)

  -- `_record`
  unfoldable pub record_event :
      WorkflowCheckpoint → WorkflowEventType → Payload → M (WorkflowCheckpoint × WorkflowEvent)
  unfolding read_clock
  record_event checkpoint event_type payload = do
    let sequence = checkpoint.event_sequence + 1
    t ← moment
    occurred_at ← read_clock
    ret (
      record checkpoint { event_sequence = sequence },
      record {
        event_id = p.new_id t;
        planning_run_id = checkpoint.planning_run_id;
        sequence = sequence;
        event_type = event_type;
        occurred_at = occurred_at;
        actor_id = none;
        payload = payload;
      },
    )

  -- `_terminate`
  unfoldable pub terminate :
      WorkflowCheckpoint → WorkflowPhase → String → M (WorkflowCheckpoint × WorkflowEvent)
  unfolding record_event
  terminate checkpoint phase reason =
      record_event (record checkpoint { phase = phase; final_state = some phase; completed = true })
        WorkflowEventType.run_completed (Payload.terminal phase checkpoint.cycle phase reason)
