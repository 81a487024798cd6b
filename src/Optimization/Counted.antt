-- ===== src/Optimization/Counted.antt =====
-- optimization/verifier.py: what the loop over the allocations has counted where it found no
-- violation.
use civitas.Prelude.{
  ℕ, zero, suc, ◌+◌, ◌≤◌, Bool, Option-cases, List, [], ◌∷◌, ◌++◌, String, ◌<>◌, str_eq, str_eq_iff,
  ℤ, pos, negsuc, pos_part, ◌≡◌, ◌≢◌, ◌⊎◌, inl, inr, refl, sym, ◌∙◌, ap, All, arith, if◌then◌else◌,
}
use civitas.Optimization.{OptimizationProblem, AllocationDecision}
use civitas.Optimization.Allocations.{
  demand_of, Tally, plus_at, allocate_source, allocate, allocate_all,
}
use civitas.Optimization.Allowed.{
  names_lane, IsAllowed, allocate_source-Keeps, allocate_source-Counts,
}
use civitas.Optimization.Orders.{append_empty, by_id-found}

-- The quantity of an allocation, where the condition holds.
abbrev pub share : Bool → AllocationDecision → ℕ
share holds a = if holds then pos_part a.quantity else 0

-- What an allocation adds to the totals.
pub record IsCounted (problem : OptimizationProblem) (a : AllocationDecision) (t t' : Tally)
    : Type 0 where
  pub clean : t.violations ≡ []
  pub allowed : IsAllowed problem a
  pub by_demand :
      (id : String)
      → t'.allocated_by_demand id ≡ t.allocated_by_demand id + share (str_eq a.demand_id id) a
  pub by_source :
      (id : String)
      → t'.allocated_by_source id ≡ t.allocated_by_source id + share (str_eq a.source_id id) a
  pub by_lane :
      (id : String)
      → t.allocated_by_lane id + share (names_lane a.lane_id id) a ≤ t'.allocated_by_lane id

quantity-cases :
    (q : ℤ) → (q ≡ pos zero) ⊎ ((n : ℕ) × (q ≡ negsuc n)) ⊎ ((n : ℕ) × (q ≡ pos (suc n)))
quantity-cases (pos zero) = inl refl
quantity-cases (pos (suc n)) = inr (inr (n, refl))
quantity-cases (negsuc n) = inr (inl (n, refl))

plus_at-share :
    (key id : String) (n : ℕ) (totals : String → ℕ)
    → plus_at key n totals id ≡ totals id + (if str_eq key id then n else 0)
plus_at-share key id n totals = ground (arith, str_eq_iff key id, str_eq_iff id key)

module _ (problem : OptimizationProblem) (a : AllocationDecision) (t : Tally) where
  refuses :
      (text : String)
      → allocate problem t a ≡ record t { violations = t.violations ++ text ∷ [] }
      → (allocate problem t a).violations ≢ []
  refuses text refused h =
      let left : t.violations ++ text ∷ [] ≡ [] = sym (ap (λ o. o.violations) refused) ∙ h in
      absurd (ground (arith, (append_empty t.violations _ left).1))

  allocate-IsCounted :
      (allocate problem t a).violations ≡ [] → IsCounted problem a t (allocate problem t a)
  unfolding allocate
  allocate-IsCounted h = elim (quantity-cases a.quantity) [
    | inl nothing ↦ absurd (refuses "allocations must be positive" (rw (nothing, allocate) refl) h)
    | inr (inl (n, below)) ↦
        absurd (refuses "allocations must be positive" (rw (below, allocate) refl) h)
    | inr (inr (n, is_n)) ↦ elim (Option-cases (demand_of problem a.demand_id)) [
      | inl unknown ↦
          absurd (refuses ("unknown demand " <> a.demand_id) (rw (is_n, unknown, allocate) refl) h)
      | inr (demand, found) ↦
          let t1 : Tally = record t {
            allocated_by_demand = plus_at demand.demand_id (suc n) t.allocated_by_demand;
            allocated_by_source = plus_at a.source_id (suc n) t.allocated_by_source;
          } in
          let shape : allocate problem t a ≡ allocate_source problem a (suc n) demand t1 =
            rw (is_n, found, allocate) refl in
          let (old, served, lanes) =
            allocate_source-Counts problem a (suc n) demand t1
              (sym (ap (λ o. o.violations) shape) ∙ h) in
          let (same_demand, same_source) = allocate_source-Keeps problem a (suc n) demand t1 in
          let named = by_id-found (λ d. d.demand_id) a.demand_id problem.demands found in
          record {
            clean = old;
            allowed = (demand, suc n, found, is_n, ground arith, served);
            by_demand = λ id.
                rw (shape, same_demand, is_n, named)
                  (plus_at-share a.demand_id id (suc n) t.allocated_by_demand);
            by_source = λ id.
                rw (shape, same_source, is_n)
                  (plus_at-share a.source_id id (suc n) t.allocated_by_source);
            by_lane = λ id. rw (shape, is_n) (lanes id);
          }
    ]
  ]

-- The quantity of the allocations of which a condition holds.
unfoldable pub sum_where : (AllocationDecision → Bool) → List AllocationDecision → ℕ
sum_where p [] = 0
sum_where p (a ∷ as') = share (p a) a + sum_where p as'

-- What serves a demand, what is drawn from a source, and what a lane is named for.
abbrev pub served : List AllocationDecision → String → ℕ
served allocations id = sum_where (λ a. str_eq a.demand_id id) allocations

abbrev pub drawn : List AllocationDecision → String → ℕ
drawn allocations id = sum_where (λ a. str_eq a.source_id id) allocations

abbrev pub carried : List AllocationDecision → String → ℕ
carried allocations id = sum_where (λ a. names_lane a.lane_id id) allocations

-- What the loop adds to its totals where it finds no violation.
pub record AreCounted (problem : OptimizationProblem) (allocations : List AllocationDecision)
    (t t' : Tally) : Type 0 where
  pub clean : t.violations ≡ []
  pub allowed : All (IsAllowed problem) allocations
  pub by_demand :
      (id : String) → t'.allocated_by_demand id ≡ t.allocated_by_demand id + served allocations id
  pub by_source :
      (id : String) → t'.allocated_by_source id ≡ t.allocated_by_source id + drawn allocations id
  pub by_lane :
      (id : String) → t.allocated_by_lane id + carried allocations id ≤ t'.allocated_by_lane id

pub allocate_all-AreCounted :
    (problem : OptimizationProblem) (allocations : List AllocationDecision) (t : Tally)
    → (allocate_all problem t allocations).violations ≡ []
    → AreCounted problem allocations t (allocate_all problem t allocations)
unfolding allocate_all sum_where
allocate_all-AreCounted problem [] t h = record {
  clean = h;
  allowed = tt;
  by_demand = λ id. ground arith;
  by_source = λ id. ground arith;
  by_lane = λ id. ground arith;
}
allocate_all-AreCounted problem (a ∷ as') t h =
    let rest = allocate_all-AreCounted problem as' (allocate problem t a) h in
    let here = allocate-IsCounted problem a t rest.clean in
    record {
      clean = here.clean;
      allowed = (here.allowed, rest.allowed);
      by_demand = λ id. omega (arith, rest.by_demand id, here.by_demand id);
      by_source = λ id. omega (arith, rest.by_source id, here.by_source id);
      by_lane = λ id. omega (arith, rest.by_lane id, here.by_lane id);
    }
