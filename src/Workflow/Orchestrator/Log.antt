-- ===== src/Workflow/Orchestrator/Log.antt =====
-- workflow/orchestrator.py: the events of one transition, as the store's `commit_transition` wants
-- them.
use civitas.Prelude.{ℕ, ◌+◌, ◌≡◌, ◌++◌, arith, Result, ok, raise, inl, inr, Result-cases, ◌∙◌}
use civitas.Contracts.{WorkflowPhase}
use civitas.Workflow.Models.{WorkflowLimits, WorkflowCheckpoint}
use civitas.Workflow.Store.Runs.{Contiguous, Contiguous-append}
use civitas.Workflow.Orchestrator.Interfaces.{Ports}
use civitas.Workflow.Orchestrator.Basics.{Transition, bounds_exhausted, record_event, terminate}
use civitas.Workflow.Orchestrator.Rounds.{proposal_round, challenge_round, concession_round}
use civitas.Workflow.Orchestrator.Verdict.{jury_round}
use civitas.Workflow.Orchestrator.Investigation.{investigate}
use civitas.Workflow.Orchestrator.Machine.{dispatch, started, proceed, advance_open, advance}

-- A transition that returns stays in its run, and its events carry on the run's numbering up to
-- the new checkpoint's.
abbrev pub Extends : WorkflowCheckpoint → Result (Transition × ℕ) → Type 0
Extends checkpoint (raise e) = Unit
Extends checkpoint (ok ((updated, events), t)) =
    (updated.planning_run_id ≡ checkpoint.planning_run_id)
    × Contiguous checkpoint.planning_run_id (checkpoint.event_sequence + 1) events
        (updated.event_sequence + 1)

module _ (p : Ports) where
  proposal_round-Extends :
      (checkpoint : WorkflowCheckpoint) (t : ℕ) → Extends checkpoint (proposal_round p checkpoint t)
  unfolding proposal_round
  proposal_round-Extends checkpoint t = ground arith

  challenge_round-Extends :
      (checkpoint : WorkflowCheckpoint) (t : ℕ)
      → Extends checkpoint (challenge_round p checkpoint t)
  unfolding challenge_round
  challenge_round-Extends checkpoint t = ground arith

  concession_round-Extends :
      (checkpoint : WorkflowCheckpoint) (t : ℕ)
      → Extends checkpoint (concession_round p checkpoint t)
  unfolding concession_round
  concession_round-Extends checkpoint t = ground arith

  jury_round-Extends :
      (checkpoint : WorkflowCheckpoint) (limits : WorkflowLimits) (t : ℕ)
      → Extends checkpoint (jury_round p checkpoint limits t)
  unfolding jury_round
  jury_round-Extends checkpoint limits t = ground arith

  investigate-Extends :
      (checkpoint : WorkflowCheckpoint) (limits : WorkflowLimits) (t : ℕ)
      → Extends checkpoint (investigate p checkpoint limits t)
  unfolding investigate
  investigate-Extends checkpoint limits t = ground arith

  dispatch-Extends :
      (limits : WorkflowLimits) (phase : WorkflowPhase) (checkpoint : WorkflowCheckpoint) (t : ℕ)
      → Extends checkpoint (dispatch p limits phase checkpoint t)
  unfolding dispatch
  dispatch-Extends limits WorkflowPhase.proposal checkpoint t = proposal_round-Extends checkpoint t
  dispatch-Extends limits WorkflowPhase.challenge checkpoint t =
      challenge_round-Extends checkpoint t
  dispatch-Extends limits WorkflowPhase.concession checkpoint t =
      concession_round-Extends checkpoint t
  dispatch-Extends limits WorkflowPhase.jury checkpoint t = jury_round-Extends checkpoint limits t
  dispatch-Extends limits WorkflowPhase.investigation checkpoint t =
      investigate-Extends checkpoint limits t
  dispatch-Extends limits phase checkpoint t = tt

  pub started-Extends :
      (limits : WorkflowLimits) (checkpoint : WorkflowCheckpoint) (t : ℕ)
      → Extends checkpoint (started p limits checkpoint t)
  unfolding started record_event
  started-Extends limits checkpoint t = ground arith

  proceed-Extends :
      (limits : WorkflowLimits) (checkpoint : WorkflowCheckpoint) (t : ℕ)
      → Extends checkpoint (proceed p limits checkpoint t)
  unfolding proceed terminate bounds_exhausted
  proceed-Extends limits checkpoint t =
      ground (arith, dispatch-Extends limits checkpoint.phase checkpoint (t + 1))

  advance_open-Extends :
      (limits : WorkflowLimits) (checkpoint : WorkflowCheckpoint) (t : ℕ)
      → Extends checkpoint (advance_open p limits checkpoint t)
  unfolding advance_open
  advance_open-Extends limits checkpoint t = elim (Result-cases (started p limits checkpoint t)) [
    | inl (e, raised) ↦ ground arith
    | inr (((middle, events), u), begun) ↦ elim (Result-cases (proceed p limits middle u)) [
      | inl (e, raised) ↦ ground arith
      | inr (((updated, events'), v), done) ↦
          let first : Extends checkpoint (ok ((middle, events), u)) =
            rw begun at (started-Extends limits checkpoint t) in
          let second : Extends middle (ok ((updated, events'), v)) =
            rw done at (proceed-Extends limits middle u) in
          let whole : advance_open p limits checkpoint t ≡ ok ((updated, events ++ events'), v) =
            ground arith in
          rw whole (
            second.0 ∙ first.0,
            Contiguous-append checkpoint.planning_run_id (checkpoint.event_sequence + 1)
                (middle.event_sequence + 1) (updated.event_sequence + 1) events events' first.1
                (rw (← first.0) second.1),
          )
    ]
  ]

  pub advance_log-Extends :
      (limits : WorkflowLimits) (checkpoint : WorkflowCheckpoint) (t : ℕ)
      → Extends checkpoint (advance p limits checkpoint t)
  unfolding advance
  advance_log-Extends limits checkpoint t = ground (arith, advance_open-Extends limits checkpoint t)
