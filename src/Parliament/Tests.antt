-- ===== src/Parliament/Tests.antt =====
-- The selection between two plans: one vote each, and the ranks decide.
use civitas.Prelude.{◌≡◌, refl, some, List, [], ◌∷◌, ok, Memᴰ, All, pos, String, count}
use civitas.Contracts.{CandidatePlan, OptimizationResult}
use civitas.Workflow.Models.{ParliamentProposal, PlanAssessment}
use civitas.Workflow.Samples.{plan, result}
use civitas.Parliament.{select_consensus_plan, key_of, best_key, effective_votes, rank_sum}
use civitas.Parliament.Best.{IsWeaker, select_consensus_plan-Best}

abbrev other : CandidatePlan
other = record plan { plan_id = "plan-b" }

abbrev two_plans : OptimizationResult
two_plans = record result { alternatives = plan ∷ other ∷ [] }

abbrev assessed : String → PlanAssessment
assessed id = record { plan_id = id; score = pos 0; reasons = [] }

abbrev proposal : String → String → String → ParliamentProposal
proposal role preferred second = record {
  role = role;
  preferred_plan_id = some preferred;
  acceptable_plan_ids = preferred ∷ [];
  assessments = assessed preferred ∷ assessed second ∷ [];
  supporting_claim_ids = [];
  evidence_ids = [];
  reasoning_summary = "";
}

abbrev proposals : List ParliamentProposal
proposals = proposal "cost" "plan-a" "plan-b" ∷ proposal "demand" "plan-b" "plan-a" ∷ []

-- Equal votes and equal ranks: the later id is selected.
tie : select_consensus_plan two_plans proposals [] ≡ ok "plan-b"
unfolding select_consensus_plan best_key key_of count effective_votes rank_sum
tie = refl

select_consensus_plan-Best_example :
    (p : CandidatePlan) × Memᴰ p two_plans.alternatives
    × (select_consensus_plan two_plans proposals [] ≡ ok p.plan_id)
    × All (λ q. IsWeaker proposals [] q.plan_id p.plan_id) two_plans.alternatives
select_consensus_plan-Best_example =
    select_consensus_plan-Best two_plans plan (other ∷ []) proposals [] refl
