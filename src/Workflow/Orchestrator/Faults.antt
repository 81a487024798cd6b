-- ===== src/Workflow/Orchestrator/Faults.antt =====
-- workflow/orchestrator.py: where the exceptions of a transition come from. The session and the
-- plan that a later round needs are there when its turn comes.
use civitas.Prelude.{
  ℕ, ◌≡◌, refl, ap, ◌∙◌, some, List, [], ◌∷◌, String, str_eq, str_eq_refl, Memᴰ, arith, ok, raise,
  Error, inl, inr, Result-cases, Bool-cases,
}
use civitas.Contracts.{CandidatePlan, OptimizationRequest, OptimizationResult, JuryRequest}
use civitas.Parliament.{select_consensus_plan}
use civitas.Parliament.Best.{select_consensus_plan-Best}
use civitas.Workflow.Models.{
  WorkflowLimits, WorkflowCheckpoint, ParliamentContext, ParliamentProposal, ParliamentConcession,
}
use civitas.Workflow.Orchestrator.Interfaces.{RoleAgent, Ports}
use civitas.Workflow.Orchestrator.Evidence.{selected_plan}
use civitas.Workflow.Orchestrator.Rounds.{propose_all, challenge_all, concede_all}

-- An exception that the solver, the Jury, a role agent or the investigator raised.
pub data IsPortError (p : Ports) (e : Error) : Type 0 where
  solving : (t : ℕ) (request : OptimizationRequest) → p.solve t request ≡ raise e → IsPortError p e
  judging : (t : ℕ) (request : JuryRequest) → p.evaluate t request ≡ raise e → IsPortError p e
  proposing :
      (agent : RoleAgent) (context : ParliamentContext)
      → Memᴰ agent p.role_agents
      → agent.propose context ≡ raise e
      → IsPortError p e
  challenging :
      (agent : RoleAgent) (context : ParliamentContext) (proposals : List ParliamentProposal)
      → Memᴰ agent p.role_agents
      → agent.challenge context proposals ≡ raise e
      → IsPortError p e
  conceding :
      (agent : RoleAgent) (context : ParliamentContext) (proposals : List ParliamentProposal)
      → Memᴰ agent p.role_agents
      → agent.concede context proposals ≡ raise e
      → IsPortError p e
  investigating :
      (investigate : _) (t : ℕ) (checkpoint : WorkflowCheckpoint) (limits : WorkflowLimits)
      → p.investigator ≡ some investigate
      → investigate t checkpoint limits ≡ raise e
      → IsPortError p e

propose_all-raise :
    (agents : List RoleAgent) (context : ParliamentContext) (e : Error)
    → propose_all agents context ≡ raise e
    → (agent : RoleAgent) × Memᴰ agent agents × (agent.propose context ≡ raise e)
unfolding propose_all
propose_all-raise [] context e h = absurd (ground arith)
propose_all-raise (a ∷ agents) context e h = elim (Result-cases (a.propose context)) [
  | inl (e', raised) ↦ (a, Memᴰ.head refl, ground arith)
  | inr (own, given) ↦ elim (Result-cases (propose_all agents context)) [
    | inl (e', later) ↦
        let (agent, there, raised) = propose_all-raise agents context e (ground arith) in
        (agent, Memᴰ.tail there, raised)
    | inr (rest, done) ↦ absurd (ground arith)
  ]
]

challenge_all-raise :
    (agents : List RoleAgent) (context : ParliamentContext) (proposals : List ParliamentProposal)
    (e : Error)
    → challenge_all agents context proposals ≡ raise e
    → (agent : RoleAgent) × Memᴰ agent agents × (agent.challenge context proposals ≡ raise e)
unfolding challenge_all
challenge_all-raise [] context proposals e h = absurd (ground arith)
challenge_all-raise (a ∷ agents) context proposals e h =
    elim (Result-cases (a.challenge context proposals)) [
      | inl (e', raised) ↦ (a, Memᴰ.head refl, ground arith)
      | inr (own, given) ↦ elim (Result-cases (challenge_all agents context proposals)) [
        | inl (e', later) ↦
            let (agent, there, raised) =
              challenge_all-raise agents context proposals e (ground arith) in
            (agent, Memᴰ.tail there, raised)
        | inr (rest, done) ↦ absurd (ground arith)
      ]
    ]

concede_all-raise :
    (agents : List RoleAgent) (context : ParliamentContext) (proposals : List ParliamentProposal)
    (e : Error)
    → concede_all agents context proposals ≡ raise e
    → (agent : RoleAgent) × Memᴰ agent agents × (agent.concede context proposals ≡ raise e)
unfolding concede_all
concede_all-raise [] context proposals e h = absurd (ground arith)
concede_all-raise (a ∷ agents) context proposals e h =
    elim (Result-cases (a.concede context proposals)) [
      | inl (e', raised) ↦ (a, Memᴰ.head refl, ground arith)
      | inr (own, given) ↦ elim (Result-cases (concede_all agents context proposals)) [
        | inl (e', later) ↦
            let (agent, there, raised) =
              concede_all-raise agents context proposals e (ground arith) in
            (agent, Memᴰ.tail there, raised)
        | inr (rest, done) ↦ absurd (ground arith)
      ]
    ]

-- The exception of a round of the agents is one of theirs.
module _ (p : Ports) (context : ParliamentContext) (e : Error) where
  pub propose_all-IsPortError : propose_all p.role_agents context ≡ raise e → IsPortError p e
  propose_all-IsPortError h =
      let (agent, there, raised) = propose_all-raise p.role_agents context e h in
      proposing agent context there raised

  pub challenge_all-IsPortError :
      (proposals : List ParliamentProposal)
      → challenge_all p.role_agents context proposals ≡ raise e
      → IsPortError p e
  challenge_all-IsPortError proposals h =
      let (agent, there, raised) = challenge_all-raise p.role_agents context proposals e h in
      challenging agent context proposals there raised

  pub concede_all-IsPortError :
      (proposals : List ParliamentProposal)
      → concede_all p.role_agents context proposals ≡ raise e
      → IsPortError p e
  concede_all-IsPortError proposals h =
      let (agent, there, raised) = concede_all-raise p.role_agents context proposals e h in
      conceding agent context proposals there raised

selected_plan-found :
    (plans : List CandidatePlan) (plan : CandidatePlan)
    → Memᴰ plan plans
    → (found : CandidatePlan) × (selected_plan plans (some plan.plan_id) ≡ ok found)
unfolding selected_plan
selected_plan-found [] plan there = elim there [ ]
selected_plan-found (p ∷ ps) plan (Memᴰ.head same) =
    (p, rw (ap (λ q. str_eq p.plan_id q.plan_id) same ∙ str_eq_refl p.plan_id) refl)
selected_plan-found (p ∷ ps) plan (Memᴰ.tail there) =
    elim (Bool-cases (str_eq p.plan_id plan.plan_id)) [
      | inl same ↦ (p, ground arith)
      | inr other ↦
          let later = selected_plan-found ps plan there in (later.0, ground (arith, later.1))
    ]

-- The selection gives a plan that the Jury's round finds again.
pub select-selected_plan :
    (result : OptimizationResult) (first : CandidatePlan) (others : List CandidatePlan)
    (proposals : List ParliamentProposal) (concessions : List ParliamentConcession)
    → result.alternatives ≡ first ∷ others
    → (id : String) × (found : CandidatePlan) × (select_consensus_plan result proposals concessions
        ≡ ok id)
      × (selected_plan result.alternatives (some id) ≡ ok found)
select-selected_plan result first others proposals concessions shape =
    let best = select_consensus_plan-Best result first others proposals concessions shape in
    let found = selected_plan-found result.alternatives best.0 best.1 in
    (best.0.plan_id, found.0, best.2, found.1)
