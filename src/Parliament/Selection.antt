-- ===== src/Parliament/Selection.antt =====
-- agents/parliament.py: the loop of `select_consensus_plan` ends at the best key.
use civitas.Prelude.{
  Memᴰ, ◌≡◌, refl, sym, ap, ◌∙◌, subst, true, false, Bool-cases, none, some, List, [], ◌∷◌, All,
  String, str_ltb_trans, str_ltb_irrefl, ok, inl, inr, ◌⊎◌, arith,
}
use civitas.Contracts.{CandidatePlan, OptimizationResult}
use civitas.Workflow.Models.{ParliamentProposal, ParliamentConcession}
use civitas.Parliament.{Key, beats, best_key, key_of, effective_votes, select_consensus_plan}

beats_trans : (a b c : Key) → beats a b ≡ true → beats b c ≡ true → beats a c ≡ true
unfolding beats
beats_trans a b c h k = let order = str_ltb_trans c.plan_id b.plan_id a.plan_id in ground arith

beats_irrefl : (a : Key) → beats a a ≡ false
unfolding beats
beats_irrefl a = let order = str_ltb_irrefl a.plan_id in ground arith

-- The loop never gives a better key away.
best_key-le :
    (key : String → Key) (start : Key) (plans : List CandidatePlan) (best : Key)
    → best_key key (some start) plans ≡ some best
    → (start ≡ best) ⊎ (beats best start ≡ true)
unfolding best_key
best_key-le key start [] best h = inl (ground arith)
best_key-le key start (p ∷ ps) best h = elim (Bool-cases (beats (key p.plan_id) start)) [
  | inl more ↦ elim (best_key-le key (key p.plan_id) ps best (ground arith)) [
    | inl same ↦ inr (subst (λ k. beats k start ≡ true) same more)
    | inr above ↦ inr (beats_trans best (key p.plan_id) start above more)
  ]
  | inr less ↦ best_key-le key start ps best (ground arith)
]

not-beats_of :
    (a b start : Key)
    → beats a start ≡ false
    → (start ≡ b) ⊎ (beats b start ≡ true)
    → beats a b ≡ false
not-beats_of a b start h (inl same) = subst (λ k. beats a k ≡ false) same h
not-beats_of a b start h (inr above) =
    let through = beats_trans a b start in ground (arith, through)

-- No key of the list beats the best one.
best_key-Best :
    (key : String → Key) (start : Key) (plans : List CandidatePlan) (best : Key)
    → best_key key (some start) plans ≡ some best
    → All (λ p. beats (key p.plan_id) best ≡ false) plans
unfolding best_key
best_key-Best key start [] best h = tt
best_key-Best key start (p ∷ ps) best h = elim (Bool-cases (beats (key p.plan_id) start)) [
  | inl more ↦
      let later : best_key key (some (key p.plan_id)) ps ≡ some best = ground arith in
      (
        not-beats_of (key p.plan_id) best (key p.plan_id) (beats_irrefl (key p.plan_id))
            (best_key-le key (key p.plan_id) ps best later),
        best_key-Best key (key p.plan_id) ps best later,
      )
  | inr less ↦
      let later : best_key key (some start) ps ≡ some best = ground arith in
      (
        not-beats_of (key p.plan_id) best start less (best_key-le key start ps best later),
        best_key-Best key start ps best later,
      )
]

-- The best key is the one the loop began with or the key of an alternative.
best_key-Mem :
    (key : String → Key) (start : Key) (plans : List CandidatePlan) (best : Key)
    → best_key key (some start) plans ≡ some best
    → (start ≡ best) ⊎ ((p : CandidatePlan) × Memᴰ p plans × (key p.plan_id ≡ best))
unfolding best_key
best_key-Mem key start [] best h = inl (ground arith)
best_key-Mem key start (p ∷ ps) best h = elim (Bool-cases (beats (key p.plan_id) start)) [
  | inl more ↦ elim (best_key-Mem key (key p.plan_id) ps best (ground arith)) [
    | inl same ↦ inr (p, Memᴰ.head refl, same)
    | inr (q, there, e) ↦ inr (q, Memᴰ.tail there, e)
  ]
  | inr less ↦ elim (best_key-Mem key start ps best (ground arith)) [
    | inl same ↦ inl same
    | inr (q, there, e) ↦ inr (q, Memᴰ.tail there, e)
  ]
]

best_key-some :
    (key : String → Key) (start : Key) (plans : List CandidatePlan)
    → (best : Key) × (best_key key (some start) plans ≡ some best)
unfolding best_key
best_key-some key start [] = (start, refl)
best_key-some key start (p ∷ ps) = elim (Bool-cases (beats (key p.plan_id) start)) [
  | inl more ↦ let later = best_key-some key (key p.plan_id) ps in (later.0, rw more later.1)
  | inr less ↦ let later = best_key-some key start ps in (later.0, rw less later.1)
]

-- The loop over a list that is not empty ends at the key of one of its plans.
best_key-of :
    (key : String → Key) (first : CandidatePlan) (others : List CandidatePlan)
    → (p : CandidatePlan) × Memᴰ p (first ∷ others)
      × (best_key key none (first ∷ others) ≡ some (key p.plan_id))
      × All (λ q. beats (key q.plan_id) (key p.plan_id) ≡ false) (first ∷ others)
unfolding best_key
best_key-of key first others =
    let (best, found) = best_key-some key (key first.plan_id) others in
    let start = key first.plan_id in
    let here =
      not-beats_of start best start (beats_irrefl start)
        (best_key-le key start others best found) in
    let every = best_key-Best key start others best found in
    elim (best_key-Mem key start others best found) [
      | inl same ↦ (
        first,
        Memᴰ.head refl,
        found ∙ ap some (sym same),
        subst (λ b. All (λ q. beats (key q.plan_id) b ≡ false) (first ∷ others)) (sym same)
            (here, every),
      )
      | inr (p, there, same) ↦ (
        p,
        Memᴰ.tail there,
        found ∙ ap some (sym same),
        subst (λ b. All (λ q. beats (key q.plan_id) b ≡ false) (first ∷ others)) (sym same)
            (here, every),
      )
    ]

key_of-plan_id :
    (votes : List String) (proposals : List ParliamentProposal) (plan_id : String)
    → (key_of votes proposals plan_id).plan_id ≡ plan_id
unfolding key_of
key_of-plan_id votes proposals plan_id = refl

select-eq-ok :
    (result : OptimizationResult) (proposals : List ParliamentProposal)
    (concessions : List ParliamentConcession) (best : Key)
    → best_key
        (key_of (effective_votes result proposals concessions) proposals)
        none
        result.alternatives
      ≡ some best
    → select_consensus_plan result proposals concessions ≡ ok best.plan_id
unfolding select_consensus_plan
select-eq-ok result proposals concessions best h = ground arith

-- The selected plan has the best key of the alternatives.
pub select_consensus_plan-best_key :
    (result : OptimizationResult) (first : CandidatePlan) (others : List CandidatePlan)
    (proposals : List ParliamentProposal) (concessions : List ParliamentConcession)
    → result.alternatives ≡ first ∷ others
    → (p : CandidatePlan) × Memᴰ p result.alternatives
      × (select_consensus_plan result proposals concessions ≡ ok p.plan_id)
      × All
          (λ q.
            beats
              (key_of (effective_votes result proposals concessions) proposals q.plan_id)
              (key_of (effective_votes result proposals concessions) proposals p.plan_id)
            ≡ false)
          result.alternatives
select_consensus_plan-best_key result first others proposals concessions shape =
    let key = key_of (effective_votes result proposals concessions) proposals in
    let (p, there, found, every) = best_key-of key first others in
    let named : (key p.plan_id).plan_id ≡ p.plan_id = key_of-plan_id _ proposals p.plan_id in
    (
      p,
      subst (λ plans. Memᴰ p plans) (sym shape) there,
      select-eq-ok result proposals concessions (key p.plan_id)
            (subst (λ plans. best_key key none plans ≡ some (key p.plan_id)) (sym shape) found)
          ∙ ap ok named,
      subst (λ plans. All (λ q. beats (key q.plan_id) (key p.plan_id) ≡ false) plans) (sym shape)
          every,
    )
