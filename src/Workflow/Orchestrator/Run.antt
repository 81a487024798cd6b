-- ===== src/Workflow/Orchestrator/Run.antt =====
-- workflow/orchestrator.py: `run` from its start to its end.
use civitas.Prelude.{
  ℕ, zero, suc, ◌+◌, ◌*◌, ◌≤◌, ◌<◌, ◌≡◌, refl, true, false, Option, none, some, List, ◌++◌, String,
  arith, Result, ok, raise, inl, inr, ◌⊎◌, Result-cases, Bool-cases, ◌∙◌, Error,
}
use civitas.Contracts.{OptimizationRequest, WorkflowEvent}
use civitas.Workflow.Models.{WorkflowLimits, WorkflowCheckpoint}
use civitas.Workflow.Store.Runs.{Contiguous, Contiguous-append}
use civitas.Workflow.Orchestrator.Interfaces.{Ports}
use civitas.Workflow.Orchestrator.Basics.{Transition}
use civitas.Workflow.Orchestrator.Machine.{start, started, advance, run_loop, run}
use civitas.Workflow.Orchestrator.Log.{Extends, started-Extends, advance_log-Extends}
use civitas.Workflow.Orchestrator.Faults.{IsPortError}
use civitas.Workflow.Orchestrator.Ready.{IsReady, Readies, advance-Readies}
use civitas.Workflow.Orchestrator.Raises.{started-ok, advance-IsPortError}
use civitas.Workflow.Orchestrator.Coherence.{
  IsCoherent, measure, Moves, Stays, started-Stays, advance-Moves,
}

-- How a run may end: by an exception that a port raised, or finished, coherent and with a whole
-- log. That it stops for want of fuel is ruled out.
abbrev pub Ends : Ports → WorkflowCheckpoint → Result (Option Transition × ℕ) → Type 0
Ends p origin (raise e) = IsPortError p e
Ends p origin (ok (none, t)) = ⊥
Ends p origin (ok (some (final, events), t)) =
    (final.completed ≡ true)
    × IsCoherent final
    × (final.planning_run_id ≡ origin.planning_run_id)
    × Contiguous origin.planning_run_id (origin.event_sequence + 1) events
        (final.event_sequence + 1)

module _ (p : Ports) (limits : WorkflowLimits) (origin : WorkflowCheckpoint) where
  -- The events so far lead from the run's origin to the checkpoint at hand.
  abbrev Leads : WorkflowCheckpoint → List WorkflowEvent → Type 0
  Leads checkpoint events =
      (checkpoint.planning_run_id ≡ origin.planning_run_id)
      × Contiguous origin.planning_run_id (origin.event_sequence + 1) events
          (checkpoint.event_sequence + 1)

  Leads-Extends :
      (checkpoint updated : WorkflowCheckpoint) (events events' : List WorkflowEvent) (t : ℕ)
      → Leads checkpoint events
      → Extends checkpoint (ok ((updated, events'), t))
      → Leads updated (events ++ events')
  Leads-Extends checkpoint updated events events' t l e = (
    e.0 ∙ l.0,
    Contiguous-append origin.planning_run_id (origin.event_sequence + 1)
        (checkpoint.event_sequence + 1) (updated.event_sequence + 1) events events' l.1
        (rw (← l.0) e.1),
  )

  run_loop-completed :
      (fuel : ℕ) (checkpoint : WorkflowCheckpoint) (events : List WorkflowEvent) (t : ℕ)
      → checkpoint.completed ≡ true
      → run_loop p limits fuel checkpoint events t ≡ ok (some (checkpoint, events), t)
  unfolding run_loop
  run_loop-completed zero checkpoint events t h = ground arith
  run_loop-completed (suc fuel) checkpoint events t h = ground arith

  run_loop-raise :
      (fuel : ℕ) (checkpoint : WorkflowCheckpoint) (events : List WorkflowEvent) (t : ℕ) {e : Error}
      → checkpoint.completed ≡ false
      → advance p limits checkpoint t ≡ raise e
      → run_loop p limits (suc fuel) checkpoint events t ≡ raise e
  unfolding run_loop
  run_loop-raise fuel checkpoint events t h k = ground arith

  run_loop-step :
      (fuel : ℕ) (checkpoint : WorkflowCheckpoint) (events : List WorkflowEvent) (t : ℕ)
      {updated : WorkflowCheckpoint} {events' : List WorkflowEvent} {u : ℕ}
      → checkpoint.completed ≡ false
      → advance p limits checkpoint t ≡ ok ((updated, events'), u)
      → run_loop p limits (suc fuel) checkpoint events t
        ≡ run_loop p limits fuel updated (events ++ events') u
  unfolding run_loop
  run_loop-step fuel checkpoint events t h k = ground arith

  run_loop-Ends :
      (fuel : ℕ) (checkpoint : WorkflowCheckpoint) (events : List WorkflowEvent) (t : ℕ)
      → IsCoherent checkpoint
      → IsReady checkpoint
      → Leads checkpoint events
      → (checkpoint.completed ≡ true) ⊎ (measure limits checkpoint < fuel)
      → Ends p origin (run_loop p limits fuel checkpoint events t)
  run_loop-Ends fuel checkpoint events t c ready l (inl done) =
      rw (run_loop-completed fuel checkpoint events t done) (done, c, l.0, l.1)
  run_loop-Ends zero checkpoint events t c ready l (inr less) = absurd (omega arith)
  run_loop-Ends (suc fuel) checkpoint events t c ready l (inr less) =
      elim (Bool-cases checkpoint.completed) [
        | inl done ↦ rw (run_loop-completed (suc fuel) checkpoint events t done) (done, c, l.0, l.1)
        | inr unfinished ↦ elim (Result-cases (advance p limits checkpoint t)) [
          | inl (e, raised) ↦
              rw (run_loop-raise fuel checkpoint events t unfinished raised)
                (advance-IsPortError p limits checkpoint t ready c unfinished raised)
          | inr (((updated, events'), u), done) ↦
              let extends : Extends checkpoint (ok ((updated, events'), u)) =
                rw done at (advance_log-Extends p limits checkpoint t) in
              let moves : Moves limits checkpoint (ok ((updated, events'), u)) =
                rw done at (advance-Moves p limits checkpoint t c unfinished) in
              let next : Readies (ok ((updated, events'), u)) =
                rw done at (advance-Readies p limits checkpoint t ready) in
              rw (run_loop-step fuel checkpoint events t unfinished done) (
                run_loop-Ends fuel updated (events ++ events') u moves.0 next
                  (Leads-Extends checkpoint updated events events' u l extends)
                  (ground (arith, moves.1)))
        ]
      ]

-- A run from its start ends within five transitions for each cycle that its limits allow: it is
-- finished in a terminal phase, which an approval or a rejection has from the Jury, and its events
-- are numbered from 1 to the final checkpoint's number; or it raises an exception that the solver,
-- the Jury, a role agent or the investigator raised; it raises none of its own.
pub run-Ends :
    (p : Ports) (limits : WorkflowLimits) (run_id : String) (request : OptimizationRequest)
    (fuel t : ℕ)
    → 1 ≤ limits.max_cycles
    → 5 * limits.max_cycles < fuel
    → Ends p (start run_id request) (run p limits fuel (start run_id request) t)
unfolding run start
run-Ends p limits run_id request fuel t cycles enough =
    let origin = start run_id request in
    elim (Result-cases (started p limits origin t)) [
      | inl (e, raised) ↦ absurd (started-ok p limits origin t raised)
      | inr (((checkpoint, events), u), begun) ↦
          let same : Stays p limits origin (ok ((checkpoint, events), u)) =
            rw begun at (started-Stays p limits origin t) in
          let extends : Extends origin (ok ((checkpoint, events), u)) =
            rw begun at (started-Extends p limits origin t) in
          let final =
            run_loop-Ends p limits origin fuel checkpoint events u
              (rw same (record { ended = refl; final = refl; decided = tt })) (rw same tt) extends
              (inr (rw same (omega arith))) in
          ground (arith, final)
    ]
