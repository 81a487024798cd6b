-- ===== src/Workflow/Orchestrator/Raises.antt =====
-- workflow/orchestrator.py: no transition of a run raises an exception but a port's.
use civitas.Prelude.{
  ℕ, ◌+◌, ◌≡◌, sym, ◌∙◌, false, arith, ok, raise, inl, inr, Result-cases, Option-cases, Error, ltb,
  leb, ◌&&◌, ◌||◌, ◌≢◌,
}
use civitas.Contracts.{JuryRequest, WorkflowPhase}
use civitas.Workflow.Models.{WorkflowLimits, WorkflowCheckpoint}
use civitas.Workflow.Orchestrator.Interfaces.{Ports}
use civitas.Workflow.Orchestrator.Basics.{bounds_exhausted, record_event, terminate}
use civitas.Workflow.Orchestrator.Evidence.{
  supporting_claim_ids, supporting_evidence_ids, evidence_required,
}
use civitas.Workflow.Orchestrator.Rounds.{
  concede_all, context_of, proposal_round, challenge_round, concession_round,
}
use civitas.Workflow.Orchestrator.Verdict.{jury_round}
use civitas.Workflow.Orchestrator.Investigation.{investigate}
use civitas.Workflow.Orchestrator.Machine.{dispatch, started, proceed, advance_open, advance}
use civitas.Workflow.Orchestrator.Coherence.{IsCoherent, is_terminal, Stays, started-Stays}
use civitas.Workflow.Orchestrator.Faults.{
  IsPortError, solving, judging, investigating, propose_all-IsPortError, challenge_all-IsPortError,
  concede_all-IsPortError, select-selected_plan,
}
use civitas.Workflow.Orchestrator.Ready.{
  IsDebated, HasSelected, Needs, IsReady, debated-parts, selected-parts,
}

module _ (p : Ports) (checkpoint : WorkflowCheckpoint) (t : ℕ) {e : Error} where
  proposal_round-IsPortError : proposal_round p checkpoint t ≡ raise e → IsPortError p e
  unfolding proposal_round
  proposal_round-IsPortError h = elim (Option-cases checkpoint.optimization_result) [
    | inl unsolved ↦ elim (Result-cases (p.solve t checkpoint.optimization_request)) [
      | inl (e', raised) ↦ solving t checkpoint.optimization_request (ground arith)
      | inr (result, solved) ↦
          propose_all-IsPortError p (context_of checkpoint result) e (ground arith)
    ]
    | inr (result, solved) ↦
        propose_all-IsPortError p (context_of checkpoint result) e (ground arith)
  ]

  challenge_round-IsPortError :
      IsDebated checkpoint.parliament checkpoint.optimization_result
      → challenge_round p checkpoint t ≡ raise e
      → IsPortError p e
  unfolding challenge_round
  challenge_round-IsPortError k h =
      let (session, result, plan, plans, debated, solved, shape) =
        debated-parts checkpoint.parliament checkpoint.optimization_result k in
      challenge_all-IsPortError p (context_of checkpoint result) e session.proposals (ground arith)

  concession_round-IsPortError :
      IsDebated checkpoint.parliament checkpoint.optimization_result
      → concession_round p checkpoint t ≡ raise e
      → IsPortError p e
  unfolding concession_round
  concession_round-IsPortError k h =
      let (session, result, plan, plans, debated, solved, shape) =
        debated-parts checkpoint.parliament checkpoint.optimization_result k in
      elim (Result-cases
        (concede_all p.role_agents (context_of checkpoint result) session.proposals)) [
          | inl (e', raised) ↦
              concede_all-IsPortError p (context_of checkpoint result) e session.proposals
                (ground arith)
          | inr (concessions, given) ↦
              let (id, found, selected, there) =
                select-selected_plan result plan plans session.proposals concessions shape in
              absurd (ground arith)
        ]

  investigate-IsPortError :
      (limits : WorkflowLimits) → investigate p checkpoint limits t ≡ raise e → IsPortError p e
  unfolding investigate
  investigate-IsPortError limits h = elim (Option-cases p.investigator) [
    | inl absent ↦ absurd (ground arith)
    | inr (search, given) ↦ investigating search t checkpoint limits given (ground arith)
  ]

  jury_round-IsPortError :
      (limits : WorkflowLimits)
      → HasSelected checkpoint.parliament checkpoint.optimization_result
      → jury_round p checkpoint limits t ≡ raise e
      → IsPortError p e
  unfolding jury_round
  jury_round-IsPortError limits k h =
      let (session, result, plan, debated, solved, selected) =
        selected-parts checkpoint.parliament checkpoint.optimization_result k in
      let cost_exhausted =
        ltb 0 limits.max_cost && ltb limits.max_cost checkpoint.estimated_cost_used in
      let tool_exhausted =
        ltb 0 limits.max_tool_calls && leb limits.max_tool_calls checkpoint.tool_calls_used in
      let request : JuryRequest = record {
        planning_run_id = checkpoint.planning_run_id;
        candidate_plan = plan;
        supporting_claim_ids = supporting_claim_ids session;
        evidence_ids = supporting_evidence_ids session;
        policy_version = "decision-integrity-v1";
        autonomy_budget_exhausted =
            ltb limits.max_cycles checkpoint.cycle
            || tool_exhausted
            || cost_exhausted
            || leb limits.deadline_at (p.now t);
        require_critical_external_support = evidence_required checkpoint.optimization_request;
      } in
      judging (t + 1) request (ground arith)

module _ (p : Ports) (limits : WorkflowLimits) where
  dispatch-IsPortError :
      (phase : WorkflowPhase) (checkpoint : WorkflowCheckpoint) (t : ℕ) {e : Error}
      → Needs phase checkpoint.parliament checkpoint.optimization_result
      → is_terminal phase ≡ false
      → dispatch p limits phase checkpoint t ≡ raise e
      → IsPortError p e
  unfolding dispatch
  dispatch-IsPortError WorkflowPhase.proposal checkpoint t k o h =
      proposal_round-IsPortError p checkpoint t h
  dispatch-IsPortError WorkflowPhase.challenge checkpoint t k o h =
      challenge_round-IsPortError p checkpoint t k h
  dispatch-IsPortError WorkflowPhase.concession checkpoint t k o h =
      concession_round-IsPortError p checkpoint t k h
  dispatch-IsPortError WorkflowPhase.jury checkpoint t k o h =
      jury_round-IsPortError p checkpoint t limits k h
  dispatch-IsPortError WorkflowPhase.investigation checkpoint t k o h =
      investigate-IsPortError p checkpoint t limits h
  dispatch-IsPortError WorkflowPhase.approve checkpoint t k o h = absurd (ground arith)
  dispatch-IsPortError WorkflowPhase.reject checkpoint t k o h = absurd (ground arith)
  dispatch-IsPortError WorkflowPhase.escalate checkpoint t k o h = absurd (ground arith)

  proceed-IsPortError :
      (checkpoint : WorkflowCheckpoint) (t : ℕ) {e : Error}
      → IsReady checkpoint
      → is_terminal checkpoint.phase ≡ false
      → proceed p limits checkpoint t ≡ raise e
      → IsPortError p e
  unfolding proceed terminate bounds_exhausted
  proceed-IsPortError checkpoint t k o h =
      dispatch-IsPortError checkpoint.phase checkpoint (t + 1) k o (ground arith)

  pub started-ok :
      (checkpoint : WorkflowCheckpoint) (t : ℕ) {e : Error}
      → started p limits checkpoint t ≢ raise e
  unfolding started record_event
  started-ok checkpoint t h = absurd (ground arith)

  -- A transition of a coherent, unfinished run that is ready for it raises an error of a port only.
  pub advance-IsPortError :
      (checkpoint : WorkflowCheckpoint) (t : ℕ) {e : Error}
      → IsReady checkpoint
      → IsCoherent checkpoint
      → checkpoint.completed ≡ false
      → advance p limits checkpoint t ≡ raise e
      → IsPortError p e
  unfolding advance advance_open
  advance-IsPortError checkpoint t ready c unfinished h =
      elim (Result-cases (started p limits checkpoint t)) [
        | inl (e', raised) ↦ absurd (started-ok checkpoint t raised)
        | inr (((middle, events), u), begun) ↦
            let same : Stays p limits checkpoint (ok ((middle, events), u)) =
              rw begun at (started-Stays p limits checkpoint t) in
            proceed-IsPortError middle u (rw same ready) (rw same (sym c.ended ∙ unfinished))
              (ground arith)
      ]
