-- ===== src/Optimization/FirstExpired.antt =====
-- optimization/verifier.py: what _verify_fefo has found where it found no violation.
use civitas.Prelude.{
  ℕ, zero, suc, ◌+◌, ◌≤◌, ◌<◌, ◌==◌, Bool, true, false, ◌&&◌, Bool-cases, Option, none, some, List,
  [], ◌∷◌, ◌++◌, keep, count, String, str_eq, str_eq_iff, str_eq_refl, ℤ, pos, ◌≡◌, ◌≢◌, ◌⊎◌, inl,
  inr, refl, sym, ◌∙◌, ap, subst, Memᴰ, arith, if◌then◌else◌,
}
use civitas.Optimization.{OptimizationProblem, PlanningBucket, InventoryLot}
use civitas.Optimization.Allocations.{is_available, begins_late, Totals, plus_at}
use civitas.Optimization.Orders.{append_empty}
use civitas.Optimization.Fefo.{
  LotGroup, group_lots, is_left, check_older, check_newer, use_lots, check_buckets, check_groups,
  ordered_lots, verify_fefo,
}
use civitas.Optimization.Older.{
  Before, times_in, Memᴰ-cases, ordered_lots-Before, times_in-ordered_lots,
}
use civitas.Optimization.Groups.{groupable, lots_at, lots_at-group_lots}

-- Without violations, no older lot is left when a newer one is used.
check_older-none :
    (cumulative : Totals String) (end_instant : ℕ) (newer older : InventoryLot)
    (lots : List InventoryLot)
    → check_older cumulative end_instant newer lots ≡ []
    → Memᴰ older lots
    → is_left cumulative end_instant older ≡ false
unfolding check_older
check_older-none cumulative end_instant newer older [] h m = elim m [ ]
check_older-none cumulative end_instant newer older (l ∷ ls) h m = elim (Memᴰ-cases m) [
  | inl same ↦ subst (λ x. is_left cumulative end_instant x ≡ false) (sym same) (ground arith)
  | inr rest ↦ check_older-none cumulative end_instant newer older ls (ground arith) rest
]

Memᴰ-last {ℓ} : {A : Type ℓ} (xs : List A) (y x : A) → (x ≡ y) ⊎ Memᴰ x xs → Memᴰ x (xs ++ (y ∷ []))
Memᴰ-last [] y x (inl same) = Memᴰ.head same
Memᴰ-last [] y x (inr m) = elim m [ ]
Memᴰ-last (z ∷ xs) y x (inl same) = Memᴰ.tail (Memᴰ-last xs y x (inl same))
Memᴰ-last (z ∷ xs) y x (inr m) = elim (Memᴰ-cases m) [
  | inl same ↦ Memᴰ.head same
  | inr rest ↦ Memᴰ.tail (Memᴰ-last xs y x (inr rest))
]

module _ (used : String → ℕ) (cumulative : Totals String) (end_instant : ℕ)
    (older newer : InventoryLot) (is_used : used newer.lot_id ≢ 0) where
  check_newer-after :
      (seen lots : List InventoryLot)
      → check_newer used cumulative end_instant seen lots ≡ []
      → Memᴰ older seen
      → Memᴰ newer lots
      → is_left cumulative end_instant older ≡ false
  unfolding check_newer
  check_newer-after seen [] h o n = elim n [ ]
  check_newer-after seen (l ∷ ls) h o n =
      let (here, rest) =
        append_empty (if used l.lot_id == 0 then [] else check_older cumulative end_instant l seen)
          _ h in
      elim (Memᴰ-cases n) [
        | inl same ↦
            let some_used : used l.lot_id ≢ 0 = subst (λ x. used x.lot_id ≢ 0) same is_used in
            check_older-none cumulative end_instant l older seen (ground (arith, some_used, here)) o
        | inr later ↦
            check_newer-after (seen ++ (l ∷ [])) ls rest (Memᴰ-last seen l older (inr o)) later
      ]

  check_newer-none :
      (seen lots : List InventoryLot)
      → check_newer used cumulative end_instant seen lots ≡ []
      → Before older newer lots
      → is_left cumulative end_instant older ≡ false
  unfolding check_newer
  check_newer-none seen [] h before = absurd before
  check_newer-none seen (l ∷ ls) h before =
      let (here, rest) =
        append_empty (if used l.lot_id == 0 then [] else check_older cumulative end_instant l seen)
          _ h in
      elim before [
        | inl (same, n) ↦
            check_newer-after (seen ++ (l ∷ [])) ls rest (Memᴰ-last seen l older (inl (sym same))) n
        | inr later ↦ check_newer-none (seen ++ (l ∷ [])) ls rest later
      ]

use_lots-absent :
    (used : String → ℕ) (id : String) (lots : List InventoryLot) (c : Totals String)
    → times_in id lots ≡ 0
    → use_lots used lots c id ≡ c id
unfolding use_lots count
use_lots-absent used id [] c h = refl
use_lots-absent used id (l ∷ ls) c h =
    let rest = use_lots-absent used id ls (plus_at l.lot_id (used l.lot_id) c) in
    ground (arith, rest, str_eq_iff id l.lot_id)

use_lots-once :
    (used : String → ℕ) (id : String) (lots : List InventoryLot) (c : Totals String)
    → times_in id lots ≡ 1
    → use_lots used lots c id ≡ c id + used id
unfolding use_lots count
use_lots-once used id [] c h = absurd (ground arith)
use_lots-once used id (l ∷ ls) c h = elim (Bool-cases (str_eq id l.lot_id)) [
  | inl here ↦
      let same = (str_eq_iff id l.lot_id).0 here in
      let absent : times_in id ls ≡ 0 = ground arith in
      let rest = use_lots-absent used id ls (plus_at l.lot_id (used l.lot_id) c) absent in
      let added : plus_at l.lot_id (used l.lot_id) c id ≡ c id + used l.lot_id = rw here refl in
      rest ∙ added ∙ ap (λ x. c id + used x) (sym same)
  | inr other ↦
      let once : times_in id ls ≡ 1 = ground arith in
      let rest = use_lots-once used id ls (plus_at l.lot_id (used l.lot_id) c) once in
      let kept : plus_at l.lot_id (used l.lot_id) c id ≡ c id = rw other refl in
      rest ∙ ap (λ n. n + used id) kept
]

abbrev pub bucket_at : List PlanningBucket → ℕ → Option PlanningBucket
bucket_at [] i = none
bucket_at (b ∷ bs) zero = some b
bucket_at (b ∷ bs) (suc i) = bucket_at bs i

-- What is used of a lot in a number of buckets after one, and in that one.
unfoldable pub used_from : (String → ℤ → ℕ) → String → ℕ → ℕ → ℕ
used_from allocated id index zero = allocated id (pos index)
used_from allocated id index (suc n) =
    allocated id (pos index) + used_from allocated id (suc index) n

module _ (allocated : String → ℤ → ℕ) (older newer : InventoryLot) (lots : List InventoryLot)
    (once : times_in older.lot_id lots ≡ 1) (before : Before older newer lots) where
  check_buckets-none :
      (index : ℕ) (buckets : List PlanningBucket) (c : Totals String)
      → check_buckets allocated lots index buckets c ≡ []
      → (i : ℕ) (bucket : PlanningBucket) → bucket_at buckets i ≡ some bucket
      → allocated newer.lot_id (pos (index + i)) ≢ 0
      → begins_late older.available_from bucket.ends_at ≡ false
      → bucket.ends_at ≤ older.expires_at
      → older.quantity ≤ c older.lot_id + used_from allocated older.lot_id index i
  unfolding check_buckets used_from
  check_buckets-none index [] c h i bucket found is_used in_time lasts = absurd (ground arith)
  check_buckets-none index (b ∷ bs) c h zero bucket found is_used in_time lasts =
      let used : String → ℕ = λ id. allocated id (pos index) in
      let cumulative = use_lots used lots c in
      let sum = use_lots-once used older.lot_id lots c once in
      let (here, rest) = append_empty (check_newer used cumulative b.ends_at [] lots) _ h in
      let same : b ≡ bucket = ground arith in
      let is_used' : used newer.lot_id ≢ 0 =
        subst (λ n. allocated newer.lot_id (pos n) ≢ 0) (omega arith) is_used in
      let left =
        check_newer-none used cumulative b.ends_at older newer is_used' [] lots here before in
      let ends : b.ends_at ≡ bucket.ends_at = ap (λ x. x.ends_at) same in
      let in_time' : begins_late older.available_from b.ends_at ≡ false =
        ap (begins_late older.available_from) ends ∙ in_time in
      ground (arith, left, in_time', ends, lasts, sum)
  check_buckets-none index (b ∷ bs) c h (suc i) bucket found is_used in_time lasts =
      let used : String → ℕ = λ id. allocated id (pos index) in
      let cumulative = use_lots used lots c in
      let sum = use_lots-once used older.lot_id lots c once in
      let (here, rest) = append_empty (check_newer used cumulative b.ends_at [] lots) _ h in
      let is_used' : allocated newer.lot_id (pos (suc index + i)) ≢ 0 =
        subst (λ n. allocated newer.lot_id (pos n) ≢ 0) (omega arith) is_used in
      omega (
        arith,
        check_buckets-none (suc index) bs cumulative rest i bucket found is_used' in_time lasts,
        sum,
      )

check_buckets-nil :
    (allocated : String → ℤ → ℕ) (index : ℕ) (buckets : List PlanningBucket) (c : Totals String)
    → check_buckets allocated [] index buckets c ≡ []
unfolding check_buckets check_newer use_lots
check_buckets-nil allocated index [] c = refl
check_buckets-nil allocated index (b ∷ bs) c = check_buckets-nil allocated (suc index) bs c

check_groups-at :
    (allocated : String → ℤ → ℕ) (buckets : List PlanningBucket) (s w : String) (gs : List LotGroup)
    → check_groups allocated buckets gs ≡ []
    → check_buckets allocated (ordered_lots (lots_at s w gs)) 0 buckets (λ id. 0) ≡ []
unfolding check_groups lots_at ordered_lots
check_groups-at allocated buckets s w [] h = check_buckets-nil allocated 0 buckets (λ id. 0)
check_groups-at allocated buckets s w (g ∷ gs) h =
    let (here, rest) =
      append_empty (check_buckets allocated (ordered_lots g.lots) 0 buckets (λ id. 0)) _ h in
    elim (Bool-cases (str_eq g.sku_id s && str_eq g.warehouse_id w)) [
      | inl this ↦ rw (this, lots_at) here
      | inr other ↦ rw (other, lots_at) (check_groups-at allocated buckets s w gs rest)
    ]

Memᴰ-keep :
    (p : InventoryLot → Bool) (x : InventoryLot) (xs : List InventoryLot)
    → Memᴰ x xs
    → p x ≡ true
    → Memᴰ x (keep p xs)
Memᴰ-keep p x [] m holds = elim m [ ]
Memᴰ-keep p x (y ∷ ys) m holds = elim (Memᴰ-cases m) [
  | inl same ↦
      let here : p y ≡ true = subst (λ z. p z ≡ true) same holds in rw (here, keep) (Memᴰ.head same)
  | inr rest ↦ elim (Bool-cases (p y)) [
    | inl kept ↦ rw (kept, keep) (Memᴰ.tail (Memᴰ-keep p x ys rest holds))
    | inr dropped ↦ rw (dropped, keep) (Memᴰ-keep p x ys rest holds)
  ]
]

-- A lot whose id is not repeated is once among the lots that are kept.
times_in-keep :
    (p : InventoryLot → Bool) (id : String) (xs : List InventoryLot)
    → times_in id (keep p xs) ≤ times_in id xs
unfolding count
times_in-keep p id [] = omega arith
times_in-keep p id (y ∷ ys) =
    let rest = times_in-keep p id ys in
    elim (Bool-cases (p y)) [
      | inl kept ↦ rw (kept, keep) (ground (arith, rest))
      | inr dropped ↦ rw (dropped, keep) (ground (arith, rest))
    ]

times_in-member : (x : InventoryLot) (xs : List InventoryLot) → Memᴰ x xs → 0 < times_in x.lot_id xs
unfolding count
times_in-member x [] m = elim m [ ]
times_in-member x (y ∷ ys) m = elim (Memᴰ-cases m) [
  | inl same ↦ ground (arith, str_eq_iff x.lot_id y.lot_id, ap (λ z. z.lot_id) same)
  | inr rest ↦ ground (arith, times_in-member x ys rest)
]

pub verify_fefo-none :
    (problem : OptimizationProblem) (allocated : String → ℤ → ℕ) (older newer : InventoryLot)
    → verify_fefo problem allocated ≡ []
    → times_in older.lot_id problem.inventory_lots ≤ 1
    → Memᴰ older problem.inventory_lots
    → Memᴰ newer problem.inventory_lots
    → groupable newer.sku_id newer.warehouse_id older ≡ true
    → is_available newer.status ≡ true
    → older.expires_at < newer.expires_at
    → (i : ℕ) (bucket : PlanningBucket) → bucket_at problem.buckets i ≡ some bucket
    → allocated newer.lot_id (pos i) ≢ 0
    → begins_late older.available_from bucket.ends_at ≡ false
    → bucket.ends_at ≤ older.expires_at
    → older.quantity ≤ used_from allocated older.lot_id 0 i
unfolding verify_fefo lots_at
verify_fefo-none problem allocated older newer h single o n like free earlier i bucket found is_used
      in_time lasts =
    let s = newer.sku_id in
    let w = newer.warehouse_id in
    let lots = keep (groupable s w) problem.inventory_lots in
    let grouped : lots_at s w (group_lots [] problem.inventory_lots) ≡ lots =
      lots_at-group_lots s w problem.inventory_lots [] in
    let clean : check_buckets allocated (ordered_lots lots) 0 problem.buckets (λ id. 0) ≡ [] =
      subst (λ ls. check_buckets allocated (ordered_lots ls) 0 problem.buckets (λ id. 0) ≡ [])
        grouped
        (check_groups-at allocated problem.buckets s w (group_lots [] problem.inventory_lots) h) in
    let newer_like : groupable s w newer ≡ true =
      ground (arith, free, str_eq_refl newer.sku_id, str_eq_refl newer.warehouse_id) in
    let o' = Memᴰ-keep (groupable s w) older problem.inventory_lots o like in
    let n' = Memᴰ-keep (groupable s w) newer problem.inventory_lots n newer_like in
    let once : times_in older.lot_id (ordered_lots lots) ≡ 1 = omega (
      arith,
      times_in-ordered_lots older.lot_id lots,
      times_in-member older lots o',
      times_in-keep (groupable s w) older.lot_id problem.inventory_lots,
      single,
    ) in
    let is_used' : allocated newer.lot_id (pos (0 + i)) ≢ 0 =
      subst (λ k. allocated newer.lot_id (pos k) ≢ 0) (omega arith) is_used in
    omega (
      arith,
      check_buckets-none allocated older newer (ordered_lots lots) once
          (ordered_lots-Before older newer lots earlier o' n') 0 problem.buckets (λ id. 0) clean i
          bucket found is_used' in_time lasts,
    )
