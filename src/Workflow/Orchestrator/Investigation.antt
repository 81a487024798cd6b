-- ===== src/Workflow/Orchestrator/Investigation.antt =====
-- workflow/orchestrator.py: the bounded search for evidence, and the next cycle's checkpoint.
use civitas.Prelude.{
  ◌+◌, ltb, leb, Bool, true, false, ◌&&◌, ◌||◌, Option, none, some, [], ◌∷◌, ◌++◌, String, unique,
  intersects, subset, if◌then◌else◌,
}
use civitas.Contracts.{WorkflowEventType, WorkflowPhase, Payload, OptimizationRequest}
use civitas.Workflow.Models.{WorkflowLimits, InvestigationOutcome, WorkflowCheckpoint}
use civitas.Workflow.Orchestrator.Monad.{M, ret, lift, moment, ◌>>=◌}
use civitas.Workflow.Orchestrator.Interfaces.{Ports}
use civitas.Workflow.Orchestrator.Basics.{Transition, record_event, terminate}

-- Whether a round brought evidence again: a known fingerprint, or known source groups only.
unfoldable pub is_repeated : WorkflowCheckpoint → InvestigationOutcome → Bool
unfolding intersects subset
is_repeated checkpoint outcome =
    intersects checkpoint.seen_evidence_fingerprints outcome.evidence_fingerprints
    || (elim outcome.canonical_source_groups [ [] ↦ false | g ∷ gs ↦ true ]
        && subset outcome.canonical_source_groups checkpoint.seen_canonical_source_groups)

-- The next cycle's checkpoint, with an investigator's outcome or with the replanner's request.
abbrev pub replanned :
    WorkflowCheckpoint → OptimizationRequest → Option InvestigationOutcome → WorkflowCheckpoint
replanned checkpoint next_request outcome = record checkpoint {
  phase = WorkflowPhase.proposal;
  cycle = checkpoint.cycle + 1;
  optimization_request = next_request;
  optimization_result = none;
  parliament = none;
  jury_evaluation = none;
  investigation_backlog = [];
  completed_investigation_tasks = elim outcome [
    | none ↦ checkpoint.completed_investigation_tasks
    | some o ↦ unique (checkpoint.completed_investigation_tasks ++ o.completed_task_ids)
  ];
  unavailable_investigation_tasks = [];
  seen_evidence_ids = elim outcome [
    | none ↦ checkpoint.seen_evidence_ids
    | some o ↦ unique (checkpoint.seen_evidence_ids ++ o.evidence_ids)
  ];
  seen_evidence_fingerprints = elim outcome [
    | none ↦ checkpoint.seen_evidence_fingerprints
    | some o ↦ unique (checkpoint.seen_evidence_fingerprints ++ o.evidence_fingerprints)
  ];
  seen_canonical_source_groups = elim outcome [
    | none ↦ checkpoint.seen_canonical_source_groups
    | some o ↦ unique (checkpoint.seen_canonical_source_groups ++ o.canonical_source_groups)
  ];
  repeated_evidence_hits = elim outcome [
    | none ↦ checkpoint.repeated_evidence_hits
    | some o ↦
        if is_repeated checkpoint o
        then checkpoint.repeated_evidence_hits + 1
        else checkpoint.repeated_evidence_hits
  ];
  tool_calls_used =
      checkpoint.tool_calls_used + elim outcome [ none ↦ 0 | some o ↦ o.tool_calls_used ];
  estimated_cost_used =
      checkpoint.estimated_cost_used + elim outcome [ none ↦ 0 | some o ↦ o.estimated_cost ];
}

module _ (p : Ports) where
  stop : WorkflowCheckpoint → String → M Transition
  unfolding terminate
  stop checkpoint reason = do
    (updated, event) ← terminate p checkpoint WorkflowPhase.escalate reason
    ret (updated, event ∷ [])

  replan : WorkflowCheckpoint → OptimizationRequest → Option InvestigationOutcome → M Transition
  unfolding record_event is_repeated unique
  replan checkpoint next_request outcome = do
    (updated, event) ←
        record_event p (replanned checkpoint next_request outcome) WorkflowEventType.task_started (
          Payload.investigation_round WorkflowPhase.proposal (checkpoint.cycle + 1)
            checkpoint.investigation_backlog
            (elim outcome [ none ↦ [] | some o ↦ o.completed_task_ids ]) []
            (elim outcome [ none ↦ [] | some o ↦ o.evidence_ids ]))
    ret (updated, event ∷ [])

  -- An outcome with tasks that no source could answer ends the run.
  use_outcome : WorkflowCheckpoint → InvestigationOutcome → M Transition
  unfolding stop replan
  use_outcome checkpoint outcome = elim outcome.unavailable_tasks [
    | [] ↦ replan checkpoint outcome.optimization_request (some outcome)
    | task ∷ tasks ↦
        stop
          (record checkpoint {
            unavailable_investigation_tasks = outcome.unavailable_tasks;
            tool_calls_used = checkpoint.tool_calls_used + outcome.tool_calls_used;
            estimated_cost_used = checkpoint.estimated_cost_used + outcome.estimated_cost;
          })
          "required_investigation_unavailable"
  ]

  search_evidence : WorkflowCheckpoint → WorkflowLimits → M Transition
  unfolding use_outcome replan
  search_evidence checkpoint limits = elim p.investigator [
    | none ↦ replan checkpoint (p.replanner checkpoint) none
    | some investigate ↦ do
      t ← moment
      outcome ← lift (investigate t checkpoint limits)
      use_outcome checkpoint outcome
  ]

  -- `_investigate`
  unfoldable pub investigate : WorkflowCheckpoint → WorkflowLimits → M Transition
  unfolding stop search_evidence
  investigate checkpoint limits =
      if ltb limits.max_repeated_evidence checkpoint.repeated_evidence_hits
      then stop checkpoint "repeated_evidence"
      else if leb limits.max_cycles checkpoint.cycle
      then stop checkpoint "cycle_limit"
      else search_evidence checkpoint limits
