-- ===== src/Workflow/Orchestrator/Ready.antt =====
-- workflow/orchestrator.py: what a checkpoint holds for the round of its phase, and how each
-- transition makes the next one ready.
use civitas.Prelude.{
  ℕ, ◌+◌, ◌≡◌, refl, Option, none, some, List, [], ◌∷◌, arith, Result, ok, raise, inl, inr,
  Result-cases,
}
use civitas.Contracts.{CandidatePlan, OptimizationResult, WorkflowPhase}
use civitas.Workflow.Models.{WorkflowLimits, WorkflowCheckpoint, ParliamentSession}
use civitas.Workflow.Orchestrator.Interfaces.{Ports}
use civitas.Workflow.Orchestrator.Basics.{Transition, bounds_exhausted, terminate}
use civitas.Workflow.Orchestrator.Evidence.{selected_plan}
use civitas.Workflow.Orchestrator.Rounds.{
  concede_all, context_of, proposal_round, challenge_round, concession_round,
}
use civitas.Workflow.Orchestrator.Verdict.{jury_round}
use civitas.Workflow.Orchestrator.Investigation.{investigate}
use civitas.Workflow.Orchestrator.Machine.{dispatch, started, proceed, advance_open, advance}
use civitas.Workflow.Orchestrator.Coherence.{Stays, started-Stays}
use civitas.Workflow.Orchestrator.Faults.{select-selected_plan}

abbrev pub NonEmpty : List CandidatePlan → Type 0
NonEmpty [] = ⊥
NonEmpty (plan ∷ plans) = Unit

-- The session and the solver's result, which has an alternative.
abbrev pub IsDebated : Option ParliamentSession → Option OptimizationResult → Type 0
IsDebated none result = ⊥
IsDebated (some session) none = ⊥
IsDebated (some session) (some result) = NonEmpty result.alternatives

abbrev IsFound : Result CandidatePlan → Type 0
IsFound (ok plan) = Unit
IsFound (raise e) = ⊥

-- The session has selected a plan, which the solver's result has.
abbrev pub HasSelected : Option ParliamentSession → Option OptimizationResult → Type 0
HasSelected none result = ⊥
HasSelected (some session) none = ⊥
HasSelected (some session) (some result) =
    IsFound (selected_plan result.alternatives session.selected_plan_id)

-- What the round of a phase needs of the checkpoint.
abbrev pub Needs : WorkflowPhase → Option ParliamentSession → Option OptimizationResult → Type 0
Needs WorkflowPhase.challenge session result = IsDebated session result
Needs WorkflowPhase.concession session result = IsDebated session result
Needs WorkflowPhase.jury session result = HasSelected session result
Needs phase session result = Unit

abbrev pub IsReady : WorkflowCheckpoint → Type 0
IsReady checkpoint = Needs checkpoint.phase checkpoint.parliament checkpoint.optimization_result

-- A transition that returns has made the next one ready.
abbrev pub Readies : Result (Transition × ℕ) → Type 0
Readies (raise e) = Unit
Readies (ok ((updated, events), t)) = IsReady updated

NonEmpty-parts :
    (alternatives : List CandidatePlan)
    → NonEmpty alternatives
    → (plan : CandidatePlan) × (plans : List CandidatePlan) × (alternatives ≡ plan ∷ plans)
NonEmpty-parts [] h = absurd h
NonEmpty-parts (plan ∷ plans) h = (plan, plans, refl)

pub debated-parts :
    (session : Option ParliamentSession) (result : Option OptimizationResult)
    → IsDebated session result
    → (s : ParliamentSession) × (r : OptimizationResult) × (plan : CandidatePlan) × (plans : List
        CandidatePlan)
      × (session ≡ some s)
      × (result ≡ some r)
      × (r.alternatives ≡ plan ∷ plans)
debated-parts none result h = absurd h
debated-parts (some s) none h = absurd h
debated-parts (some s) (some r) h =
    let (plan, plans, shape) = NonEmpty-parts r.alternatives h in
    (s, r, plan, plans, refl, refl, shape)

pub selected-parts :
    (session : Option ParliamentSession) (result : Option OptimizationResult)
    → HasSelected session result
    → (s : ParliamentSession) × (r : OptimizationResult) × (plan : CandidatePlan) × (session
        ≡ some s)
      × (result ≡ some r)
      × (selected_plan r.alternatives s.selected_plan_id ≡ ok plan)
selected-parts none result h = absurd h
selected-parts (some s) none h = absurd h
selected-parts (some s) (some r) h =
    elim (Result-cases (selected_plan r.alternatives s.selected_plan_id)) [
      | inl (e, raised) ↦ absurd (ground arith)
      | inr (plan, found) ↦ (s, r, plan, refl, refl, found)
    ]

module _ (p : Ports) (checkpoint : WorkflowCheckpoint) (t : ℕ) where
  proposal_round-Readies : Readies (proposal_round p checkpoint t)
  unfolding proposal_round
  proposal_round-Readies = ground arith

  challenge_round-Readies :
      IsDebated checkpoint.parliament checkpoint.optimization_result
      → Readies (challenge_round p checkpoint t)
  unfolding challenge_round
  challenge_round-Readies h = ground arith

  concession_round-Readies :
      IsDebated checkpoint.parliament checkpoint.optimization_result
      → Readies (concession_round p checkpoint t)
  unfolding concession_round
  concession_round-Readies h =
      let (session, result, plan, plans, debated, solved, shape) =
        debated-parts checkpoint.parliament checkpoint.optimization_result h in
      elim (Result-cases
        (concede_all p.role_agents (context_of checkpoint result) session.proposals)) [
          | inl (e, raised) ↦ ground arith
          | inr (concessions, given) ↦
              let (id, found, selected, there) =
                select-selected_plan result plan plans session.proposals concessions shape in
              ground arith
        ]

  jury_round-Readies : (limits : WorkflowLimits) → Readies (jury_round p checkpoint limits t)
  unfolding jury_round
  jury_round-Readies limits = ground arith

  investigate-Readies : (limits : WorkflowLimits) → Readies (investigate p checkpoint limits t)
  unfolding investigate
  investigate-Readies limits = ground arith

module _ (p : Ports) (limits : WorkflowLimits) where
  dispatch-Readies :
      (phase : WorkflowPhase) (checkpoint : WorkflowCheckpoint) (t : ℕ)
      → Needs phase checkpoint.parliament checkpoint.optimization_result
      → Readies (dispatch p limits phase checkpoint t)
  unfolding dispatch
  dispatch-Readies WorkflowPhase.proposal checkpoint t h = proposal_round-Readies p checkpoint t
  dispatch-Readies WorkflowPhase.challenge checkpoint t h = challenge_round-Readies p checkpoint t h
  dispatch-Readies WorkflowPhase.concession checkpoint t h =
      concession_round-Readies p checkpoint t h
  dispatch-Readies WorkflowPhase.jury checkpoint t h = jury_round-Readies p checkpoint t limits
  dispatch-Readies WorkflowPhase.investigation checkpoint t h =
      investigate-Readies p checkpoint t limits
  dispatch-Readies phase checkpoint t h = tt

  proceed-Readies :
      (checkpoint : WorkflowCheckpoint) (t : ℕ)
      → IsReady checkpoint
      → Readies (proceed p limits checkpoint t)
  unfolding proceed terminate bounds_exhausted
  proceed-Readies checkpoint t h =
      ground (arith, dispatch-Readies checkpoint.phase checkpoint (t + 1) h)

  pub advance-Readies :
      (checkpoint : WorkflowCheckpoint) (t : ℕ)
      → IsReady checkpoint
      → Readies (advance p limits checkpoint t)
  unfolding advance advance_open
  advance-Readies checkpoint t ready = elim (Result-cases (started p limits checkpoint t)) [
    | inl (e, raised) ↦ ground arith
    | inr (((middle, events), u), begun) ↦
        let same : Stays p limits checkpoint (ok ((middle, events), u)) =
          rw begun at (started-Stays p limits checkpoint t) in
        let step = proceed-Readies middle u (rw same ready) in ground (arith, step)
  ]
