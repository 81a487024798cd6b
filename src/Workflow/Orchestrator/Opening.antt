-- ===== src/Workflow/Orchestrator/Opening.antt =====
-- workflow/orchestrator.py: when a transition opens the log of its run.
use civitas.Prelude.{
  ℕ, ◌+◌, ◌<◌, ◌≡◌, ◌≢◌, ◌==◌, refl, true, false, List, [], ◌∷◌, ◌++◌, All, arith, Result, ok,
  raise, inl, inr, ◌⊎◌, Result-cases, Bool-cases,
}
use civitas.Contracts.{WorkflowEvent, WorkflowEventType, WorkflowPhase, Payload}
use civitas.Workflow.Models.{WorkflowLimits, WorkflowCheckpoint}
use civitas.Workflow.Orchestrator.Interfaces.{Ports}
use civitas.Workflow.Orchestrator.Basics.{Transition, bounds_exhausted, record_event, terminate}
use civitas.Workflow.Orchestrator.Rounds.{proposal_round, challenge_round, concession_round}
use civitas.Workflow.Orchestrator.Verdict.{jury_round}
use civitas.Workflow.Orchestrator.Investigation.{investigate}
use civitas.Workflow.Orchestrator.Machine.{dispatch, started, proceed, advance_open, advance}
use civitas.Workflow.Orchestrator.Log.{Extends, advance_log-Extends}

-- An event of the transition itself.
abbrev pub IsLater : WorkflowEvent → Type 0
IsLater event = event.event_type ≢ WorkflowEventType.run_started

-- The transition has one event at least, and none of them opens the log.
abbrev Carries : Result (Transition × ℕ) → Type 0
Carries (raise e) = Unit
Carries (ok ((updated, []), t)) = ⊥
Carries (ok ((updated, event ∷ events), t)) = All IsLater (event ∷ events)

module _ (p : Ports) where
  proposal_round-Carries :
      (checkpoint : WorkflowCheckpoint) (t : ℕ) → Carries (proposal_round p checkpoint t)
  unfolding proposal_round
  proposal_round-Carries checkpoint t = ground arith

  challenge_round-Carries :
      (checkpoint : WorkflowCheckpoint) (t : ℕ) → Carries (challenge_round p checkpoint t)
  unfolding challenge_round
  challenge_round-Carries checkpoint t = ground arith

  concession_round-Carries :
      (checkpoint : WorkflowCheckpoint) (t : ℕ) → Carries (concession_round p checkpoint t)
  unfolding concession_round
  concession_round-Carries checkpoint t = ground arith

  jury_round-Carries :
      (checkpoint : WorkflowCheckpoint) (limits : WorkflowLimits) (t : ℕ)
      → Carries (jury_round p checkpoint limits t)
  unfolding jury_round
  jury_round-Carries checkpoint limits t = ground arith

  investigate-Carries :
      (checkpoint : WorkflowCheckpoint) (limits : WorkflowLimits) (t : ℕ)
      → Carries (investigate p checkpoint limits t)
  unfolding investigate
  investigate-Carries checkpoint limits t = ground arith

  dispatch-Carries :
      (limits : WorkflowLimits) (phase : WorkflowPhase) (checkpoint : WorkflowCheckpoint) (t : ℕ)
      → Carries (dispatch p limits phase checkpoint t)
  unfolding dispatch
  dispatch-Carries limits WorkflowPhase.proposal checkpoint t = proposal_round-Carries checkpoint t
  dispatch-Carries limits WorkflowPhase.challenge checkpoint t =
      challenge_round-Carries checkpoint t
  dispatch-Carries limits WorkflowPhase.concession checkpoint t =
      concession_round-Carries checkpoint t
  dispatch-Carries limits WorkflowPhase.jury checkpoint t = jury_round-Carries checkpoint limits t
  dispatch-Carries limits WorkflowPhase.investigation checkpoint t =
      investigate-Carries checkpoint limits t
  dispatch-Carries limits phase checkpoint t = tt

  proceed-Carries :
      (limits : WorkflowLimits) (checkpoint : WorkflowCheckpoint) (t : ℕ)
      → Carries (proceed p limits checkpoint t)
  unfolding proceed terminate bounds_exhausted
  proceed-Carries limits checkpoint t =
      ground (arith, dispatch-Carries limits checkpoint.phase checkpoint (t + 1))

-- What the events of a call of `advance` say of the log. A finished run is left alone. A run whose
-- log is empty is opened: the first event is the startup event, with the phase and the cycle that
-- the run is in. Otherwise, and behind the startup event, stand the transition's own events.
abbrev pub Opens : WorkflowCheckpoint → Result (Transition × ℕ) → Type 0
Opens checkpoint (raise e) = Unit
Opens checkpoint (ok ((updated, events), t)) =
    ((checkpoint.completed ≡ true) × (updated ≡ checkpoint) × (events ≡ []))
    ⊎ ((checkpoint.completed ≡ false)
        × (0 < checkpoint.event_sequence)
        × (events ≢ [])
        × All IsLater events)
    ⊎ ((first : WorkflowEvent) × (later : List WorkflowEvent) × (checkpoint.completed ≡ false)
        × (checkpoint.event_sequence ≡ 0)
        × (events ≡ first ∷ later)
        × (first.event_type ≡ WorkflowEventType.run_started)
        × (first.payload ≡ Payload.run_started checkpoint.phase checkpoint.cycle)
        × (later ≢ [])
        × All IsLater later)

Carries-parts :
    (updated : WorkflowCheckpoint) (events : List WorkflowEvent) (t : ℕ)
    → Carries (ok ((updated, events), t))
    → (events ≢ []) × All IsLater events
Carries-parts updated [] t h = absurd h
Carries-parts updated (event ∷ events) t h = ((λ e. absurd (ground arith)), h)

-- The startup event alone.
abbrev Starts : WorkflowCheckpoint → Result (Transition × ℕ) → Type 0
Starts checkpoint (raise e) = ⊥
Starts checkpoint (ok ((updated, events), t)) =
    ((0 < checkpoint.event_sequence) × (events ≡ []))
    ⊎ ((first : WorkflowEvent) × (checkpoint.event_sequence ≡ 0)
        × (events ≡ first ∷ [])
        × (first.event_type ≡ WorkflowEventType.run_started)
        × (first.payload ≡ Payload.run_started checkpoint.phase checkpoint.cycle))

module _ (p : Ports) (limits : WorkflowLimits) where
  started-Starts :
      (checkpoint : WorkflowCheckpoint) (t : ℕ) → Starts checkpoint (started p limits checkpoint t)
  unfolding started record_event
  started-Starts checkpoint t = elim (Bool-cases (checkpoint.event_sequence == 0)) [
    | inl new ↦ rw new (inr (_, ground arith, refl, refl, refl))
    | inr old ↦ rw old (inl (ground arith, refl))
  ]

  advance_open-Opens :
      (checkpoint : WorkflowCheckpoint) (t : ℕ)
      → checkpoint.completed ≡ false
      → Opens checkpoint (advance_open p limits checkpoint t)
  unfolding advance_open
  advance_open-Opens checkpoint t unfinished = elim (Result-cases (started p limits checkpoint t)) [
    | inl (e, raised) ↦ ground arith
    | inr (((middle, events), u), begun) ↦ elim (Result-cases (proceed p limits middle u)) [
      | inl (e, raised) ↦ ground arith
      | inr (((updated, events'), v), done) ↦
          let first : Starts checkpoint (ok ((middle, events), u)) =
            rw begun at (started-Starts checkpoint t) in
          let second : Carries (ok ((updated, events'), v)) =
            rw done at (proceed-Carries p limits middle u) in
          let parts = Carries-parts updated events' v second in
          let whole : advance_open p limits checkpoint t ≡ ok ((updated, events ++ events'), v) =
            ground arith in
          rw whole (elim first [
            | inl (old, none_yet) ↦ rw none_yet (inr (inl (unfinished, old, parts.0, parts.1)))
            | inr (event, new, one, kind, content) ↦
                rw one (
                  inr
                    (inr (event, events', unfinished, new, refl, kind, content, parts.0, parts.1)))
          ])
    ]
  ]

  -- One call of `advance` that returns stays in its run and extends the log without a gap. A
  -- finished run is left as it is, with no event; the first call on a run whose log is empty puts
  -- the startup event first, with the run's phase and cycle, and the transition's events behind
  -- it; any other call gives the transition's events alone. A transition has at least one event,
  -- and none of its own is a startup event.
  pub advance-Extends :
      (checkpoint : WorkflowCheckpoint) (t : ℕ)
      → Extends checkpoint (advance p limits checkpoint t)
        × Opens checkpoint (advance p limits checkpoint t)
  unfolding advance
  advance-Extends checkpoint t = (
    advance_log-Extends p limits checkpoint t,
    elim (Bool-cases checkpoint.completed) [
      | inl done ↦
          let left : advance p limits checkpoint t ≡ ok ((checkpoint, []), t) = ground arith in
          rw left (inl (done, refl, refl))
      | inr unfinished ↦
          let opened : advance p limits checkpoint t ≡ advance_open p limits checkpoint t =
            ground arith in
          rw opened (advance_open-Opens checkpoint t unfinished)
    ],
  )
