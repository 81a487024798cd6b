-- ===== src/Optimization/Verified.antt =====
-- optimization/verifier.py: a valid alternative uses lots in the order in which they expire.
use civitas.Prelude.{
  ℕ, ◌≤◌, ◌<◌, ltb, true, false, Bool-cases, Result-cases, List, [], ◌∷◌, keep, map, count, unique,
  sorted, is_empty, String, pos, ◌≡◌, ◌≢◌, inl, inr, some, refl, sym, subst, All, All-Memᴰ,
  All-of-unique, All-of-sorted, Memᴰ, ok, arith,
}
use civitas.Optimization.{OptimizationProblem, PlanningBucket, InventoryLot, Alternative}
use civitas.Optimization.Validation.{check_unique, validate_problem}
use civitas.Optimization.Allocations.{is_available, begins_late, nothing, allocate_all}
use civitas.Optimization.Older.{times_in}
use civitas.Optimization.FirstExpired.{bucket_at, used_from, verify_fefo-none}
use civitas.Optimization.Groups.{groupable}
use civitas.Optimization.Verifier.{VerificationResult, verify}
use civitas.Optimization.Sound.{verify-KeepsConstraints}

abbrev Single : List String → String → Type 0
Single values v = count v values ≤ 1

All-of-kept :
    (values xs : List String)
    → All (Single values) (keep (λ v. ltb 1 (count v values)) xs)
    → All (Single values) xs
All-of-kept values [] all = tt
All-of-kept values (x ∷ xs) all = elim (Bool-cases (ltb 1 (count x values))) [
  | inl repeated ↦
      let (here, rest) : Single values x
          × All (Single values) (keep (λ v. ltb 1 (count v values)) xs) =
        rw (repeated, keep) at all in
      (here, All-of-kept values xs rest)
  | inr single ↦ (ground arith, All-of-kept values xs (rw (single, keep) at all))
]

empty_list : (xs : List String) → is_empty xs ≡ true → xs ≡ []
empty_list [] h = refl
empty_list (x ∷ xs) h = absurd (ground arith)

check_unique-All :
    (label : String) (values : List String)
    → check_unique label values ≡ ok tt
    → All (Single values) values
unfolding check_unique
check_unique-All label values h =
    let repeated = keep (λ v. ltb 1 (count v values)) (unique values) in
    let none_left : sorted repeated ≡ [] = empty_list (sorted repeated) (ground arith) in
    let sorted_all : All (Single values) (sorted repeated) =
      subst (All (Single values)) (sym none_left) tt in
    All-of-unique (Single values) values
      (All-of-kept values (unique values) (All-of-sorted (Single values) repeated sorted_all))

lot_ids_unique :
    (problem : OptimizationProblem)
    → validate_problem problem ≡ ok tt
    → check_unique "lot_id" (map (λ l. l.lot_id) problem.inventory_lots) ≡ ok tt
unfolding validate_problem
lot_ids_unique problem h =
    elim (Result-cases (check_unique "lot_id" (map (λ l. l.lot_id) problem.inventory_lots))) [
      | inl (e, bad) ↦ absurd (ground arith)
      | inr (t, single) ↦ single
    ]

All-of-map {κ} :
    (P : String → Type κ) (lots : List InventoryLot)
    → All P (map (λ l. l.lot_id) lots)
    → All (λ l. P l.lot_id) lots
All-of-map P [] all = tt
All-of-map P (l ∷ ls) all = (all.0, All-of-map P ls all.1)

-- In an alternative that `verify` finds valid, when a lot is used in a bucket, every available lot
-- of the same SKU in the same warehouse that expires before it, and is there and not expired at the
-- end of that bucket, is used up by then: what is used of it up to that bucket is at least its
-- quantity.
pub verify-UsesFirstExpired :
    (problem : OptimizationProblem) (alternative : Alternative) (result : VerificationResult)
    (older newer : InventoryLot) (i : ℕ) (bucket : PlanningBucket)
    → verify problem alternative ≡ ok result
    → result.valid ≡ true
    → Memᴰ older problem.inventory_lots
    → Memᴰ newer problem.inventory_lots
    → groupable newer.sku_id newer.warehouse_id older ≡ true
    → is_available newer.status ≡ true
    → older.expires_at < newer.expires_at
    → bucket_at problem.buckets i ≡ some bucket
    → (allocate_all problem nothing alternative.allocations).allocation_by_lot_and_bucket
        newer.lot_id
        (pos i)
      ≢ 0
    → begins_late older.available_from bucket.ends_at ≡ false
    → bucket.ends_at ≤ older.expires_at
    → older.quantity
      ≤ used_from
          (allocate_all problem nothing alternative.allocations).allocation_by_lot_and_bucket
          older.lot_id
          0
          i
verify-UsesFirstExpired problem alternative result older newer i bucket verified valid o n like free
      earlier found is_used in_time lasts =
    let kept = verify-KeepsConstraints problem alternative result verified valid in
    let lots = problem.inventory_lots in
    let single =
      check_unique-All "lot_id" (map (λ l. l.lot_id) lots)
        (lot_ids_unique problem kept.validated) in
    verify_fefo-none problem
      (allocate_all problem nothing alternative.allocations).allocation_by_lot_and_bucket older
      newer kept.first_expired
      (All-Memᴰ (λ l. times_in l.lot_id lots ≤ 1)
        (All-of-map (Single (map (λ l. l.lot_id) lots)) lots single) o)
      o n like free earlier i bucket found is_used in_time lasts
