-- ===== src/Workflow/Orchestrator/Rounds.antt =====
-- workflow/orchestrator.py: the proposal, challenge and concession rounds.
use civitas.Prelude.{
  ◌+◌, Option, none, some, List, [], ◌∷◌, ◌++◌, String, Result, ok, raise, value_error, length,
  sorted_set, ◌>>=◌ as bind,
}
use civitas.Contracts.{WorkflowEventType, WorkflowPhase, Payload, OptimizationResult}
use civitas.Parliament.{select_consensus_plan}
use civitas.Workflow.Models.{
  ParliamentProposal, ParliamentChallenge, ParliamentConcession, ParliamentSession,
  ParliamentContext, WorkflowCheckpoint,
}
use civitas.Workflow.Orchestrator.Monad.{M, ret, lift, moment, ◌>>=◌}
use civitas.Workflow.Orchestrator.Interfaces.{RoleAgent, Ports}
use civitas.Workflow.Orchestrator.Evidence.{
  all_evidence_ids, repeated_evidence_ids, plan_annotations,
}
use civitas.Workflow.Orchestrator.Basics.{Transition, record_event, terminate}

-- `tuple(agent.propose(context) for agent in agents)`
unfoldable pub propose_all : List RoleAgent → ParliamentContext → Result (List ParliamentProposal)
propose_all [] context = ok []
propose_all (agent ∷ agents) context =
    bind (agent.propose context)
      (λ proposal. bind (propose_all agents context) (λ rest. ok (proposal ∷ rest)))

unfoldable pub challenge_all :
    List RoleAgent → ParliamentContext → List ParliamentProposal → Result (List ParliamentChallenge)
challenge_all [] context proposals = ok []
challenge_all (agent ∷ agents) context proposals =
    bind (agent.challenge context proposals)
      (λ own. bind (challenge_all agents context proposals) (λ rest. ok (own ++ rest)))

abbrev with_some {ℓ} : {A : Type ℓ} → Option A → List A → List A
with_some none xs = xs
with_some (some x) xs = x ∷ xs

unfoldable pub concede_all :
    List RoleAgent
    → ParliamentContext
    → List ParliamentProposal
    → Result (List ParliamentConcession)
concede_all [] context proposals = ok []
concede_all (agent ∷ agents) context proposals =
    bind (agent.concede context proposals)
      (λ own. bind (concede_all agents context proposals) (λ rest. ok (with_some own rest)))

abbrev pub context_of : WorkflowCheckpoint → OptimizationResult → ParliamentContext
context_of checkpoint result = record {
  cycle = checkpoint.cycle;
  optimization_request = checkpoint.optimization_request;
  optimization_result = result;
  prior_investigations = checkpoint.investigation_backlog;
  plan_annotations = plan_annotations checkpoint.optimization_request;
}

module _ (p : Ports) where
  -- The optimizer runs only where the checkpoint holds no result yet.
  solve_once : WorkflowCheckpoint → M OptimizationResult
  solve_once checkpoint = elim checkpoint.optimization_result [
    | none ↦ do t ← moment; lift (p.solve t checkpoint.optimization_request)
    | some result ↦ ret result
  ]

  abbrev pub proposed :
      WorkflowCheckpoint → OptimizationResult → List ParliamentProposal → WorkflowCheckpoint
  proposed checkpoint result proposals =
      let repeated = repeated_evidence_ids proposals checkpoint.seen_evidence_ids in
      record checkpoint {
        phase = WorkflowPhase.challenge;
        optimization_result = some result;
        parliament = some (record {
          proposals = proposals;
          challenges = [];
          concessions = [];
          selected_plan_id = none;
          repeated_evidence_ids = repeated;
        });
        tool_calls_used = checkpoint.tool_calls_used + 1;
        seen_evidence_ids = sorted_set (checkpoint.seen_evidence_ids ++ all_evidence_ids proposals);
        repeated_evidence_hits =
            checkpoint.repeated_evidence_hits + elim repeated [ [] ↦ 0 | i ∷ is ↦ 1 ];
      }

  -- `_proposal_round`, from the optimizer's result on.
  debate : WorkflowCheckpoint → OptimizationResult → M Transition
  unfolding record_event propose_all
  debate checkpoint result = do
    proposals ← lift (propose_all p.role_agents (context_of checkpoint result))
    (updated, event) ←
        record_event p (proposed checkpoint result proposals) WorkflowEventType.proposal_created (
          Payload.proposal_round WorkflowPhase.proposal checkpoint.cycle (length proposals)
            (repeated_evidence_ids proposals checkpoint.seen_evidence_ids))
    ret (updated, event ∷ [])

  after_solving : WorkflowCheckpoint → OptimizationResult → M Transition
  unfolding debate terminate
  after_solving checkpoint result = elim result.alternatives [
    | [] ↦ do
      (completed, event) ←
          terminate p (record checkpoint { optimization_result = some result })
            WorkflowPhase.escalate "no_feasible_plan"
      ret (completed, event ∷ [])
    | plan ∷ plans ↦ debate checkpoint result
  ]

  -- `_proposal_round`
  unfoldable pub proposal_round : WorkflowCheckpoint → M Transition
  unfolding solve_once after_solving
  proposal_round checkpoint = do result ← solve_once checkpoint; after_solving checkpoint result

  -- What the later rounds need: the session and the solver's result, or the `ValueError`.
  unfoldable pub debated :
      WorkflowCheckpoint → String → Result (ParliamentSession × OptimizationResult)
  debated checkpoint message = elim checkpoint.parliament [
    | none ↦ raise (value_error message)
    | some parliament ↦ elim checkpoint.optimization_result [
      | none ↦ raise (value_error message)
      | some result ↦ ok (parliament, result)
    ]
  ]

  -- `_challenge_round`
  unfoldable pub challenge_round : WorkflowCheckpoint → M Transition
  unfolding debated challenge_all record_event
  challenge_round checkpoint = do
    (parliament, result) ←
        lift (debated checkpoint "proposal round must run before challenge round")
    challenges ←
        lift (challenge_all p.role_agents (context_of checkpoint result) parliament.proposals)
    (updated, event) ←
        record_event p
          (record checkpoint {
            phase = WorkflowPhase.concession;
            parliament = some (record parliament { challenges = challenges });
          })
          WorkflowEventType.task_completed
          (Payload.challenge_round WorkflowPhase.challenge checkpoint.cycle (length challenges))
    ret (updated, event ∷ [])

  -- `_concession_round`. The agents are handed the support counts, which they take from the
  -- proposals.
  unfoldable pub concession_round : WorkflowCheckpoint → M Transition
  unfolding debated concede_all record_event
  concession_round checkpoint = do
    (parliament, result) ←
        lift (debated checkpoint "challenge round must run before concession round")
    concessions ←
        lift (concede_all p.role_agents (context_of checkpoint result) parliament.proposals)
    selected_plan_id ← lift (select_consensus_plan result parliament.proposals concessions)
    (updated, event) ←
        record_event p
          (record checkpoint {
            phase = WorkflowPhase.jury;
            parliament = some (record parliament {
              concessions = concessions;
              selected_plan_id = some selected_plan_id;
            });
          })
          WorkflowEventType.task_completed
          (Payload.concession_round WorkflowPhase.concession checkpoint.cycle (length concessions)
            selected_plan_id)
    ret (updated, event ∷ [])
