-- ===== src/Parliament.antt =====
-- agents/parliament.py: the votes of the role agents and the plan that they select.
pub mod Selection
pub mod Best
mod Tests
use civitas.Prelude.{
  ℕ, suc, ◌+◌, ltb, ◌==◌, Bool, true, false, ◌&&◌, ◌||◌, Option, none, some, List, [], ◌∷◌, ◌++◌,
  map, String, str_eq, str_ltb, contains, count, Result, ok, raise, value_error, if◌then◌else◌,
}
use civitas.Contracts.{CandidatePlan, OptimizationResult}
use civitas.Workflow.Models.{ParliamentProposal, ParliamentConcession, PlanAssessment}

-- `if proposal.preferred_plan_id`
abbrev named : Option String → List String → List String
named none votes = votes
named (some id) votes = if str_eq id "" then votes else id ∷ votes

unfoldable pub preferred_votes : List ParliamentProposal → List String
preferred_votes [] = []
preferred_votes (p ∷ ps) = named p.preferred_plan_id (preferred_votes ps)

unfoldable pub concession_votes : List String → List ParliamentConcession → List String
concession_votes plan_ids [] = []
concession_votes plan_ids (c ∷ cs) =
    let rest = concession_votes plan_ids cs in
    if contains plan_ids c.to_plan_id then c.to_plan_id ∷ rest else rest

-- `effective_votes`
unfoldable pub effective_votes :
    OptimizationResult → List ParliamentProposal → List ParliamentConcession → List String
unfolding preferred_votes concession_votes
effective_votes result proposals concessions =
    preferred_votes proposals
    ++ concession_votes (map (λ p. p.plan_id) result.alternatives) concessions

-- The position of the plan in a ranking, or the ranking's length.
unfoldable pub rank_in : List PlanAssessment → String → ℕ
rank_in [] plan_id = 0
rank_in (a ∷ rest) plan_id =
    let later = rank_in rest plan_id in if str_eq a.plan_id plan_id then 0 else suc later

unfoldable pub rank_sum : List ParliamentProposal → String → ℕ
unfolding rank_in
rank_sum [] plan_id = 0
rank_sum (p ∷ ps) plan_id = rank_in p.assessments plan_id + rank_sum ps plan_id

-- `(counts.get(plan.plan_id, 0), -rank_sum, plan.plan_id)`
pub record Key : Type 0 where
  pub votes : ℕ
  pub ranks : ℕ
  pub plan_id : String

unfoldable pub key_of : List String → List ParliamentProposal → String → Key
key_of votes proposals plan_id = record {
  votes = count plan_id votes;
  ranks = rank_sum proposals plan_id;
  plan_id = plan_id;
}

-- `key > best_key`
unfoldable pub beats : Key → Key → Bool
beats key best =
    ltb best.votes key.votes
    || key.votes == best.votes
      && (ltb key.ranks best.ranks || key.ranks == best.ranks && str_ltb best.plan_id key.plan_id)

-- The loop over the alternatives.
unfoldable pub best_key : (String → Key) → Option Key → List CandidatePlan → Option Key
unfolding beats
best_key key best [] = best
best_key key none (plan ∷ plans) = best_key key (some (key plan.plan_id)) plans
best_key key (some best) (plan ∷ plans) =
    let better = best_key key (some (key plan.plan_id)) plans in
    let same = best_key key (some best) plans in
    if beats (key plan.plan_id) best then better else same

unfoldable pub select_consensus_plan :
    OptimizationResult → List ParliamentProposal → List ParliamentConcession → Result String
select_consensus_plan result proposals concessions =
    let key = key_of (effective_votes result proposals concessions) proposals in
    elim (best_key key none result.alternatives) [
      | none ↦ raise (value_error "no candidate plans available")
      | some best ↦ ok best.plan_id
    ]
