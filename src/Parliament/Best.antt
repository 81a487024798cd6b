-- ===== src/Parliament/Best.antt =====
-- agents/parliament.py: the selected plan is the strongest of the alternatives, by its votes, its
-- places in the agents' rankings and its id.
use civitas.Prelude.{
  ℕ, suc, ◌+◌, ◌<◌, ◌≡◌, refl, sym, ap, ◌∙◌, Memᴰ, true, false, Bool-cases, none, some, List, [],
  ◌∷◌, ◌++◌, length, map, All, String, str_eq, str_eq_iff, str_eq_refl, str_ltb, str_ltb-connex,
  contains, count, ok, inl, inr, ◌⊎◌, arith, if◌then◌else◌,
}
use civitas.Contracts.{CandidatePlan, OptimizationResult}
use civitas.Workflow.Models.{ParliamentProposal, ParliamentConcession, PlanAssessment}
use civitas.Parliament.{
  Key, beats, key_of, preferred_votes, concession_votes, effective_votes, rank_in, rank_sum,
  select_consensus_plan,
}
use civitas.Parliament.Selection.{select_consensus_plan-best_key}

-- How many proposals prefer the plan; an empty id is no preference.
abbrev pub preferring : List ParliamentProposal → String → ℕ
preferring [] id = 0
preferring (p ∷ ps) id =
    let rest = preferring ps id in
    elim p.preferred_plan_id [
      | none ↦ rest
      | some chosen ↦ if str_eq chosen "" then rest else if str_eq id chosen then suc rest else rest
    ]

-- How many concessions go to the plan.
abbrev pub conceding : List ParliamentConcession → String → ℕ
conceding [] id = 0
conceding (c ∷ cs) id =
    let rest = conceding cs id in if str_eq id c.to_plan_id then suc rest else rest

-- The votes of a plan.
abbrev pub votes_for : List ParliamentProposal → List ParliamentConcession → String → ℕ
votes_for proposals concessions id = preferring proposals id + conceding concessions id

-- What stands before the plan in a ranking: all of it, where the plan is missing.
abbrev pub before : List PlanAssessment → String → List PlanAssessment
before [] id = []
before (a ∷ rest) id = let later = before rest id in if str_eq a.plan_id id then [] else a ∷ later

-- The plan's places in all rankings, added up.
abbrev pub places : List ParliamentProposal → String → ℕ
places [] id = 0
places (p ∷ ps) id = length (before p.assessments id) + places ps id

-- The first plan comes after the second: it has fewer votes, or as many and worse places, or the
-- same of both and an id that is not later.
abbrev pub IsWeaker : List ParliamentProposal → List ParliamentConcession → String → String → Type 0
IsWeaker proposals concessions q p =
    (votes_for proposals concessions q < votes_for proposals concessions p)
    ⊎ ((votes_for proposals concessions q ≡ votes_for proposals concessions p)
        × ((places proposals p < places proposals q)
            ⊎ ((places proposals q ≡ places proposals p) × ((q ≡ p) ⊎ (str_ltb q p ≡ true)))))

count-append : (id : String) (xs ys : List String) → count id (xs ++ ys) ≡ count id xs + count id ys
unfolding count
count-append id [] ys = omega arith
count-append id (x ∷ xs) ys = let rest = count-append id xs ys in ground arith

count-preferred :
    (id : String) (proposals : List ParliamentProposal)
    → count id (preferred_votes proposals) ≡ preferring proposals id
unfolding count preferred_votes
count-preferred id [] = refl
count-preferred id (p ∷ ps) = let rest = count-preferred id ps in ground arith

count-concessions :
    (id : String) (plan_ids : List String) (concessions : List ParliamentConcession)
    → contains plan_ids id ≡ true
    → count id (concession_votes plan_ids concessions) ≡ conceding concessions id
unfolding count concession_votes
count-concessions id plan_ids [] h = refl
count-concessions id plan_ids (c ∷ cs) h =
    let rest = count-concessions id plan_ids cs h in
    elim (Bool-cases (str_eq id c.to_plan_id)) [
      | inl same ↦
          let named : id ≡ c.to_plan_id = grind (arith, str_eq_iff) in
          let known : contains plan_ids c.to_plan_id ≡ true =
            ap (contains plan_ids) (sym named) ∙ h in
          ground arith
      | inr other ↦ ground arith
    ]

rank_in-before :
    (ranking : List PlanAssessment) (id : String) → rank_in ranking id ≡ length (before ranking id)
unfolding rank_in
rank_in-before [] id = refl
rank_in-before (a ∷ rest) id = let later = rank_in-before rest id in ground arith

rank_sum-places :
    (proposals : List ParliamentProposal) (id : String)
    → rank_sum proposals id ≡ places proposals id
unfolding rank_sum
rank_sum-places [] id = refl
rank_sum-places (p ∷ ps) id =
    let rest = rank_sum-places ps id in let here = rank_in-before p.assessments id in omega arith

contains-of :
    (plans : List CandidatePlan) (q : CandidatePlan)
    → Memᴰ q plans
    → contains (map (λ p. p.plan_id) plans) q.plan_id ≡ true
unfolding contains
contains-of [] q there = elim there [ ]
contains-of (p ∷ ps) q (Memᴰ.head same) =
    let named : str_eq q.plan_id p.plan_id ≡ true =
      ap (λ x. str_eq q.plan_id x.plan_id) (sym same) ∙ str_eq_refl q.plan_id in
    ground arith
contains-of (p ∷ ps) q (Memᴰ.tail there) = let later = contains-of ps q there in ground arith

-- The votes of an alternative.
count-effective :
    (result : OptimizationResult) (proposals : List ParliamentProposal)
    (concessions : List ParliamentConcession) (q : CandidatePlan)
    → Memᴰ q result.alternatives
    → count q.plan_id (effective_votes result proposals concessions)
      ≡ votes_for proposals concessions q.plan_id
unfolding effective_votes
count-effective result proposals concessions q there =
    let ids = map (λ p. p.plan_id) result.alternatives in
    let both =
      count-append q.plan_id (preferred_votes proposals) (concession_votes ids concessions) in
    let own = count-preferred q.plan_id proposals in
    let given =
      count-concessions q.plan_id ids concessions (contains-of result.alternatives q there) in
    omega arith

not-beats :
    (a b : Key)
    → beats a b ≡ false
    → (a.votes < b.votes)
      ⊎ ((a.votes ≡ b.votes)
          × ((b.ranks < a.ranks)
              ⊎ ((a.ranks ≡ b.ranks)
                  × ((a.plan_id ≡ b.plan_id) ⊎ (str_ltb a.plan_id b.plan_id ≡ true)))))
unfolding beats
not-beats a b h =
    let connex = str_ltb-connex a.plan_id b.plan_id in
    elim (Bool-cases (str_ltb a.plan_id b.plan_id)) [
      | inl less ↦ ground arith
      | inr above ↦ elim (Bool-cases (str_ltb b.plan_id a.plan_id)) [
        | inl more ↦ ground arith
        | inr level ↦ let same = connex above level in ground arith
      ]
    ]

IsWeaker-of :
    (result : OptimizationResult) (proposals : List ParliamentProposal)
    (concessions : List ParliamentConcession) (q p : CandidatePlan)
    → Memᴰ q result.alternatives
    → Memᴰ p result.alternatives
    → beats
        (key_of (effective_votes result proposals concessions) proposals q.plan_id)
        (key_of (effective_votes result proposals concessions) proposals p.plan_id)
      ≡ false
    → IsWeaker proposals concessions q.plan_id p.plan_id
unfolding key_of
IsWeaker-of result proposals concessions q p member there below =
    let order =
      not-beats (key_of (effective_votes result proposals concessions) proposals q.plan_id)
        (key_of (effective_votes result proposals concessions) proposals p.plan_id) below in
    let q_votes = count-effective result proposals concessions q member in
    let p_votes = count-effective result proposals concessions p there in
    let q_places = rank_sum-places proposals q.plan_id in
    let p_places = rank_sum-places proposals p.plan_id in ground arith

All-members {ℓ} :
    {A : Type ℓ} (P Q : A → Type 0) (xs : List A)
    → ((x : A) → Memᴰ x xs → P x → Q x)
    → All P xs
    → All Q xs
All-members P Q [] i h = tt
All-members P Q (x ∷ xs) i h =
    (i x (Memᴰ.head refl) h.0, All-members P Q xs (λ y there. i y (Memᴰ.tail there)) h.1)

-- Where the solver gave alternatives, a plan is selected. It is one of them, and every other one
-- has fewer votes, or as many votes and worse places in the rankings, or the same of both and an
-- id that is not later. A vote is a proposal that prefers the plan or a concession to it.
pub select_consensus_plan-Best :
    (result : OptimizationResult) (first : CandidatePlan) (others : List CandidatePlan)
    (proposals : List ParliamentProposal) (concessions : List ParliamentConcession)
    → result.alternatives ≡ first ∷ others
    → (p : CandidatePlan) × Memᴰ p result.alternatives
      × (select_consensus_plan result proposals concessions ≡ ok p.plan_id)
      × All (λ q. IsWeaker proposals concessions q.plan_id p.plan_id) result.alternatives
select_consensus_plan-Best result first others proposals concessions shape =
    let (p, there, selected, every) =
      select_consensus_plan-best_key result first others proposals concessions shape in
    (
      p,
      there,
      selected,
      All-members _ _ result.alternatives
          (λ q member below. IsWeaker-of result proposals concessions q p member there below) every,
    )
