-- ===== src/Workflow/Orchestrator/Coherence.antt =====
-- workflow/orchestrator.py: what every checkpoint of a run satisfies, and how each transition
-- brings the run nearer to its end.
use civitas.Prelude.{
  ℕ, ◌+◌, ◌-◌, ◌*◌, ◌<◌, ◌≡◌, refl, Bool, true, false, Option, none, some, String, arith, Result,
  ok, raise, ◌⊎◌, inl, inr, Result-cases,
}
use civitas.Contracts.{WorkflowPhase, JuryState, JuryEvaluation, OptimizationRequest}
use civitas.Workflow.Models.{WorkflowLimits, WorkflowCheckpoint}
use civitas.Workflow.Orchestrator.Interfaces.{Ports}
use civitas.Workflow.Orchestrator.Basics.{Transition, bounds_exhausted, record_event, terminate}
use civitas.Workflow.Orchestrator.Rounds.{proposal_round, challenge_round, concession_round}
use civitas.Workflow.Orchestrator.Verdict.{jury_round}
use civitas.Workflow.Orchestrator.Investigation.{investigate}
use civitas.Workflow.Orchestrator.Machine.{start, dispatch, started, proceed, advance_open, advance}

abbrev pub is_terminal : WorkflowPhase → Bool
is_terminal WorkflowPhase.approve = true
is_terminal WorkflowPhase.reject = true
is_terminal WorkflowPhase.escalate = true
is_terminal phase = false

abbrev pub final_of : WorkflowPhase → Option WorkflowPhase
final_of WorkflowPhase.approve = some WorkflowPhase.approve
final_of WorkflowPhase.reject = some WorkflowPhase.reject
final_of WorkflowPhase.escalate = some WorkflowPhase.escalate
final_of phase = none

-- The Jury decision that a phase rests on.
abbrev pub Decided : WorkflowPhase → Option JuryEvaluation → Type 0
Decided WorkflowPhase.approve none = ⊥
Decided WorkflowPhase.approve (some evaluation) = evaluation.state ≡ JuryState.approve
Decided WorkflowPhase.reject none = ⊥
Decided WorkflowPhase.reject (some evaluation) = evaluation.state ≡ JuryState.reject
Decided WorkflowPhase.investigation none = ⊥
Decided WorkflowPhase.investigation (some evaluation) = evaluation.state ≡ JuryState.investigate
Decided phase evaluation = Unit

-- A run ends exactly in a terminal phase, which is its final state, and it is approved or rejected
-- only by a Jury evaluation that says so.
pub record IsCoherent (checkpoint : WorkflowCheckpoint) : Type 0 where
  pub ended : checkpoint.completed ≡ is_terminal checkpoint.phase
  pub final : checkpoint.final_state ≡ final_of checkpoint.phase
  pub decided : Decided checkpoint.phase checkpoint.jury_evaluation

abbrev pub rank : WorkflowPhase → ℕ
rank WorkflowPhase.proposal = 5
rank WorkflowPhase.challenge = 4
rank WorkflowPhase.concession = 3
rank WorkflowPhase.jury = 2
rank WorkflowPhase.investigation = 1
rank phase = 0

-- An upper bound on the transitions that are left.
abbrev pub measure : WorkflowLimits → WorkflowCheckpoint → ℕ
measure limits checkpoint = 5 * (limits.max_cycles - checkpoint.cycle) + rank checkpoint.phase

abbrev pub Nearer : WorkflowLimits → WorkflowCheckpoint → WorkflowCheckpoint → Type 0
Nearer limits checkpoint updated =
    (updated.completed ≡ true) ⊎ (measure limits updated < measure limits checkpoint)

abbrev pub Moves : WorkflowLimits → WorkflowCheckpoint → Result (Transition × ℕ) → Type 0
Moves limits checkpoint (raise e) = Unit
Moves limits checkpoint (ok ((updated, events), t)) =
    IsCoherent updated × Nearer limits checkpoint updated

pub start-IsCoherent :
    (run_id : String) (request : OptimizationRequest) → IsCoherent (start run_id request)
unfolding start
start-IsCoherent run_id request = record { ended = refl; final = refl; decided = tt }

module _ (p : Ports) (limits : WorkflowLimits) (checkpoint : WorkflowCheckpoint) (t : ℕ)
    (c : IsCoherent checkpoint) where
  proposal_round-Moves :
      checkpoint.phase ≡ WorkflowPhase.proposal
      → Moves limits checkpoint (proposal_round p checkpoint t)
  unfolding proposal_round
  proposal_round-Moves h = ground arith

  challenge_round-Moves :
      checkpoint.phase ≡ WorkflowPhase.challenge
      → Moves limits checkpoint (challenge_round p checkpoint t)
  unfolding challenge_round
  challenge_round-Moves h = ground arith

  concession_round-Moves :
      checkpoint.phase ≡ WorkflowPhase.concession
      → Moves limits checkpoint (concession_round p checkpoint t)
  unfolding concession_round
  concession_round-Moves h = ground arith

  jury_round-Moves :
      checkpoint.phase ≡ WorkflowPhase.jury
      → Moves limits checkpoint (jury_round p checkpoint limits t)
  unfolding jury_round
  jury_round-Moves h = ground arith

  investigate-Moves :
      checkpoint.phase ≡ WorkflowPhase.investigation
      → Moves limits checkpoint (investigate p checkpoint limits t)
  unfolding investigate
  investigate-Moves h = ground arith

module _ (p : Ports) (limits : WorkflowLimits) where
  dispatch-Moves :
      (phase : WorkflowPhase) (checkpoint : WorkflowCheckpoint) (t : ℕ)
      → IsCoherent checkpoint
      → checkpoint.phase ≡ phase
      → Moves limits checkpoint (dispatch p limits phase checkpoint t)
  unfolding dispatch
  dispatch-Moves WorkflowPhase.proposal checkpoint t c e =
      proposal_round-Moves p limits checkpoint t c e
  dispatch-Moves WorkflowPhase.challenge checkpoint t c e =
      challenge_round-Moves p limits checkpoint t c e
  dispatch-Moves WorkflowPhase.concession checkpoint t c e =
      concession_round-Moves p limits checkpoint t c e
  dispatch-Moves WorkflowPhase.jury checkpoint t c e = jury_round-Moves p limits checkpoint t c e
  dispatch-Moves WorkflowPhase.investigation checkpoint t c e =
      investigate-Moves p limits checkpoint t c e
  dispatch-Moves phase checkpoint t c e = tt

  proceed-Moves :
      (checkpoint : WorkflowCheckpoint) (t : ℕ)
      → IsCoherent checkpoint
      → Moves limits checkpoint (proceed p limits checkpoint t)
  unfolding proceed terminate bounds_exhausted
  proceed-Moves checkpoint t c =
      ground (arith, dispatch-Moves checkpoint.phase checkpoint (t + 1) c refl)

  -- The startup event changes the event number alone.
  abbrev pub Stays : WorkflowCheckpoint → Result (Transition × ℕ) → Type 0
  Stays checkpoint (raise e) = Unit
  Stays checkpoint (ok ((updated, events), t)) =
      updated ≡ record checkpoint { event_sequence = updated.event_sequence }

  pub started-Stays :
      (checkpoint : WorkflowCheckpoint) (t : ℕ) → Stays checkpoint (started p limits checkpoint t)
  unfolding started record_event
  started-Stays checkpoint t = ground arith

  -- A transition of a coherent, unfinished run that returns leaves it coherent, and finished or nearer to
  -- its end.
  pub advance-Moves :
      (checkpoint : WorkflowCheckpoint) (t : ℕ)
      → IsCoherent checkpoint
      → checkpoint.completed ≡ false
      → Moves limits checkpoint (advance p limits checkpoint t)
  unfolding advance advance_open
  advance-Moves checkpoint t c unfinished = elim (Result-cases (started p limits checkpoint t)) [
    | inl (e, raised) ↦ ground arith
    | inr (((middle, events), u), begun) ↦
        let same : Stays checkpoint (ok ((middle, events), u)) =
          rw begun at (started-Stays checkpoint t) in
        let step =
          proceed-Moves middle u
            (rw same (record { ended = c.ended; final = c.final; decided = c.decided })) in
        ground (arith, same, step)
  ]
