-- ===== src/Evidence/Scores.antt =====
-- evidence/jury.py: percentages, averages and the weighted score, in hundredths. Python's `round`
-- to two decimals is rounding to the nearest hundredth, ties to the even one, on the exact value.
use civitas.Prelude.{
  ℕ, suc, ◌+◌, ◌*◌, ◌/◌, ◌%◌, ◌≤◌, ◌<◌, ◌≡◌, ltb, ltb→lt, ◌==◌, Bool-cases, subst, sym, List, [],
  ◌∷◌, length, All, arith, inl, inr, if◌then◌else◌,
}
use native.Mathlib.Nat.{div-add-mod', mul-le-mul_right, suc-mul, mul-suc, mul-pos, mul_assoc}
use civitas.Contracts.{IntegrityComponents}

-- The whole number nearest to `n / d`.
unfoldable pub rounded : ℕ → ℕ → ℕ
rounded n d =
    if ltb (2 * (n % d)) d
    then n / d
    else if ltb d (2 * (n % d))
    then suc (n / d)
    else if (n / d) % 2 == 0
    then n / d
    else suc (n / d)

abbrev pub total : List ℕ → ℕ
total [] = 0
total (n ∷ ns) = n + total ns

-- `_percentage`
unfoldable pub percentage : ℕ → ℕ → ℕ
percentage numerator denominator =
    if denominator == 0 then 10000 else rounded (numerator * 10000) denominator

-- `_average`, of values that are `scale`-ths of a hundredth
unfoldable pub average : ℕ → List ℕ → ℕ → ℕ
average scale [] empty = empty
average scale (v ∷ vs) empty = rounded (total (v ∷ vs)) (scale * length (v ∷ vs))

-- `_WEIGHTS`, and their sum over the components
unfoldable pub weighted_score : IntegrityComponents → ℕ
weighted_score c =
    rounded
      (c.critical_claim_coverage * 20
        + c.evidence_independence * 20
        + c.provenance_completeness * 15
        + c.evidence_freshness * 15
        + c.canonical_source_diversity * 10
        + c.contradiction_resolution * 10
        + c.dissent_robustness * 10)
      100

-- `Field(ge=0, le=100)` of each component
unfoldable pub IsPercentages : IntegrityComponents → Type 0
IsPercentages c =
    (c.critical_claim_coverage ≤ 10000)
    × (c.evidence_independence ≤ 10000)
    × (c.provenance_completeness ≤ 10000)
    × (c.evidence_freshness ≤ 10000)
    × (c.canonical_source_diversity ≤ 10000)
    × (c.contradiction_resolution ≤ 10000)
    × (c.dissent_robustness ≤ 10000)

remainder-zero : (x r : ℕ) → x + r ≤ x → r ≡ 0
remainder-zero x r h = omega (arith, h)

rounded_parts-le :
    (q r d b : ℕ)
    → q * d + r ≤ b * d
    → 0 < d
    → (if ltb (2 * r) d
        then q
        else if ltb d (2 * r)
        then suc q
        else if q % 2 == 0
        then q
        else suc q)
      ≤ b
rounded_parts-le q r d b h pos = elim (Bool-cases (ltb q b)) [
  | inl less ↦ ground arith
  | inr not_less ↦ elim (Bool-cases (ltb b q)) [
    | inl more ↦ absurd (omega (arith, h, pos, mul-le-mul_right d (ltb→lt b q more), suc-mul b d))
    | inr not_more ↦
        let same : q ≡ b = ground arith in
        let exact : r ≡ 0 = remainder-zero (b * d) r (subst (λ p. p * d + r ≤ b * d) same h) in
        ground arith
  ]
]

pub rounded-le : (n d b : ℕ) → n ≤ b * d → 0 < d → rounded n d ≤ b
unfolding rounded
rounded-le n d b h pos =
    rounded_parts-le (n / d) (n % d) d b (subst (λ m. m ≤ b * d) (sym (div-add-mod' n d)) h) pos

pub percentage-le : (n d : ℕ) → n ≤ d → percentage n d ≤ 10000
unfolding percentage
percentage-le n d h = elim (Bool-cases (d == 0)) [
  | inl none_counted ↦ ground arith
  | inr counted ↦ rw counted (rounded-le (n * 10000) d 10000 (omega (arith, h)) (ground arith))
]

total-le : (b : ℕ) (vs : List ℕ) → All (λ v. v ≤ b) vs → total vs ≤ b * length vs
total-le b [] h = omega arith
total-le b (v ∷ vs) h = omega (arith, h.0, total-le b vs h.1, mul-suc b (length vs))

pub average-le :
    (scale b empty : ℕ) (vs : List ℕ)
    → 0 < scale
    → empty ≤ b
    → All (λ v. v ≤ b * scale) vs
    → average scale vs empty ≤ b
unfolding average
average-le scale b empty [] pos h hs = h
average-le scale b empty (v ∷ vs) pos h hs =
    rounded-le (total (v ∷ vs)) (scale * length (v ∷ vs)) b
      (subst (λ m. total (v ∷ vs) ≤ m) (mul_assoc b scale (length (v ∷ vs)))
        (total-le (b * scale) (v ∷ vs) hs))
      (mul-pos pos (omega arith))

-- Components between 0 and 100 give a score between 0 and 100.
pub weighted_score-le : (c : IntegrityComponents) → IsPercentages c → weighted_score c ≤ 10000
unfolding weighted_score IsPercentages
weighted_score-le c h =
    rounded-le _ 100 10000 (omega (arith, h.0, h.1, h.2, h.3, h.4, h.5, h.6)) (omega arith)
