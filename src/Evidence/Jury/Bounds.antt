-- ===== src/Evidence/Jury/Bounds.antt =====
-- evidence/jury.py: the components and the score of a calculation are percentages.
use civitas.Prelude.{
  ℕ, ◌+◌, ◌-◌, ◌≤◌, ◌≡◌, refl, sym, ap, Bool-cases, inl, inr, not, keep, contains, unique, sorted,
  length-sorted, Bool, true, false, List, [], ◌∷◌, length, map, All, String, arith,
}
use civitas.Evidence.Dissent.{robustness_score, nonempty}
use civitas.Evidence.Scores.{
  percentage, percentage-le, average-le, weighted_score-le, IsPercentages,
}
use civitas.Evidence.Jury.{Contradiction, JuryInputs, IntegrityCalculation, critical_ids}
use civitas.Evidence.Jury.Integrity.{
  Sources, Freshness, source_groups, calculate, provenance_fields, provenance_score, dissent_score,
  count_true,
}

All-map {ℓ κ μ} :
    {A : Type ℓ} {B : Type κ} (P : B → Type μ) (f : A → B)
    → ((a : A) → P (f a))
    → (xs : List A) → All P (map f xs)
All-map P f h [] = tt
All-map P f h (x ∷ xs) = (h x, All-map P f h xs)

count_true-le : (bs : List Bool) → count_true bs ≤ length bs
count_true-le [] = omega arith
count_true-le (true ∷ bs) = omega (arith, count_true-le bs)
count_true-le (false ∷ bs) = omega (arith, count_true-le bs)

provenance_score-le : (r : _) (complete : Bool) → provenance_score r complete ≤ 10000
unfolding provenance_score
provenance_score-le r complete = percentage-le _ _ (count_true-le (provenance_fields r complete))

dissent_score-le :
    (sources : Sources) (freshness : Freshness) (inputs : JuryInputs)
    → dissent_score sources freshness inputs ≤ 10000
unfolding robustness_score
dissent_score-le sources freshness inputs = ground arith

counted-le : (n m : ℕ) → n - m ≤ n
counted-le n m = omega arith

pub calculate-le :
    (sources : Sources) (freshness : Freshness) (inputs : JuryInputs) (calculated_at : ℕ)
    (default : List String)
    → IsPercentages (calculate sources freshness inputs calculated_at default).components
      × ((calculate sources freshness inputs calculated_at default).score ≤ 10000)
unfolding calculate IsPercentages
calculate-le sources freshness inputs calculated_at default =
    let parts : IsPercentages
        (calculate sources freshness inputs calculated_at default).components =
      (
        percentage-le _ _ (counted-le _ _),
        average-le 2 10000 10000 _ (omega arith) (omega arith) (All-map _ _ (λ id. omega arith) _),
        average-le 1 10000 _ _ (omega arith) (ground arith)
            (All-map _ _ (λ r. omega (arith, provenance_score-le r _)) _),
        average-le 1 10000 10000 _ (omega arith) (omega arith) (All-map _ _ (λ id. ground arith) _),
        ground arith,
        percentage-le _ _ (counted-le _ _),
        dissent_score-le sources freshness inputs,
      ) in
    (parts, weighted_score-le _ parts)

length-keep_split {ℓ} :
    {A : Type ℓ} (p : A → Bool) (xs : List A)
    → length (keep p xs) + length (keep (λ x. not (p x)) xs) ≡ length xs
length-keep_split p [] = refl
length-keep_split p (x ∷ xs) =
    let rest = length-keep_split p xs in
    elim (Bool-cases (p x)) [ inl kept ↦ ground arith | inr left ↦ ground arith ]

module _ (sources : Sources) (freshness : Freshness) (inputs : JuryInputs) (calculated_at : ℕ)
    (default : List String) where
  -- The critical claims, and those with a source group.
  abbrev pub critical_of : List String
  critical_of = unique (critical_ids inputs default)

  abbrev pub supported_of : List String
  supported_of = keep (λ id. nonempty (source_groups sources freshness inputs id)) critical_of

  abbrev pub is_resolved : Contradiction → Bool
  is_resolved item = contains inputs.resolved_contradiction_ids item.contradiction_id

  -- What the components and the score of a calculation are.
  pub record IsMeasured (c : IntegrityCalculation) : Type 0 where
    pub found : c.contradictions ≡ sources.detect_contradictions inputs.claims critical_of
    pub split_claims :
        length supported_of + length c.unsupported_critical_claim_ids ≡ length critical_of
    pub coverage :
        c.components.critical_claim_coverage ≡ percentage (length supported_of) (length critical_of)
    pub resolution :
        c.components.contradiction_resolution
        ≡ percentage (length (keep is_resolved c.contradictions)) (length c.contradictions)
    pub within : IsPercentages c.components
    pub score_within : c.score ≤ 10000

  -- Whatever the evidence, the critical claims without a source group and those with one make up
  -- all of them; the coverage is the share of those with one, the resolution is the share of the
  -- detected contradictions that are resolved, every component is a percentage of at most 100, and
  -- so is the score.
  pub calculate-IsPercentages :
      IsMeasured (calculate sources freshness inputs calculated_at default)
  unfolding calculate
  calculate-IsPercentages =
      let claims =
        length-keep_split (λ id. nonempty (source_groups sources freshness inputs id))
          critical_of in
      let missing =
        keep (λ id. not (nonempty (source_groups sources freshness inputs id))) critical_of in
      let all_missing = length-sorted missing in
      let found = sources.detect_contradictions inputs.claims critical_of in
      let parts = length-keep_split is_resolved found in
      let resolved : length (keep is_resolved found)
          ≡ length found - length (keep (λ item. not (is_resolved item)) found) =
        omega arith in
      let supported : length supported_of ≡ length critical_of - length (sorted missing) =
        omega arith in
      let bounds = calculate-le sources freshness inputs calculated_at default in
      record {
        found = refl;
        split_claims = omega arith;
        coverage = ap (λ n. percentage n (length critical_of)) (sym supported);
        resolution = ap (λ n. percentage n (length found)) (sym resolved);
        within = bounds.0;
        score_within = bounds.1;
      }
