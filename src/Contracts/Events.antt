-- ===== src/Contracts/Events.antt =====
-- contracts/workflow.py and the payload classes of workflow/events.py. A payload is kept as the
-- value that `model_dump` renders.
use civitas.Prelude.{ℕ, Option, List, String}
use civitas.Contracts.Plans.{JuryState}

pub data WorkflowEventType : Type 0 where
  run_started run_completed run_failed task_started task_completed : WorkflowEventType
  evidence_recorded proposal_created jury_evaluated investigation_requested : WorkflowEventType
  execution_updated : WorkflowEventType

pub data WorkflowPhase : Type 0 where
  proposal challenge concession jury investigation approve reject escalate : WorkflowPhase

pub data Payload : Type 0 where
  run_started : (phase : WorkflowPhase) (cycle : ℕ) → Payload
  proposal_round :
      (phase : WorkflowPhase) (cycle proposal_count : ℕ) (repeated_evidence_ids : List String)
      → Payload
  challenge_round : (phase : WorkflowPhase) (cycle challenge_count : ℕ) → Payload
  concession_round :
      (phase : WorkflowPhase) (cycle concession_count : ℕ) (selected_plan_id : String) → Payload
  jury_routed : (phase : WorkflowPhase) (cycle : ℕ) (plan_id : String) (state : JuryState) → Payload
  investigation_round :
      (phase : WorkflowPhase) (cycle : ℕ)
      (required_investigation completed_task_ids unavailable_tasks evidence_ids : List String)
      → Payload
  terminal :
      (phase : WorkflowPhase) (cycle : ℕ) (final_state : WorkflowPhase) (reason : String) → Payload
  worker_failure :
      (phase : WorkflowPhase) (reason_codes : List String) (attempt_count : ℕ)
      (failure_type : String)
      → Payload

pub record WorkflowEvent : Type 0 where
  pub event_id : String
  pub planning_run_id : String
  pub sequence : ℕ
  pub event_type : WorkflowEventType
  pub occurred_at : ℕ
  pub actor_id : Option String
  pub payload : Payload
