-- ===== src/Optimization/Older.antt =====
-- optimization/verifier.py: the order in which _verify_fefo looks at the lots of a group.
use civitas.Prelude.{
  ℕ, ◌≤◌, ◌<◌, Bool-cases, List, [], ◌∷◌, map, count, String, ◌≡◌, ◌⊎◌, inl, inr, refl, sym, ◌∙◌,
  ap, subst, All, All-mono, All-Memᴰ, Memᴰ, arith,
}
use civitas.Optimization.{InventoryLot}
use civitas.Optimization.Fefo.{is_older, place_lot, ordered_lots}

-- The first lot stands before the second.
abbrev pub Before : InventoryLot → InventoryLot → List InventoryLot → Type 0
Before older newer [] = ⊥
Before older newer (l ∷ ls) = ((l ≡ older) × Memᴰ newer ls) ⊎ Before older newer ls

abbrev IsSorted : List InventoryLot → Type 0
IsSorted [] = Unit
IsSorted (l ∷ ls) = All (λ x. l.expires_at ≤ x.expires_at) ls × IsSorted ls

-- How often a lot's id occurs.
abbrev pub times_in : String → List InventoryLot → ℕ
times_in id lots = count id (map (λ l. l.lot_id) lots)

pub Memᴰ-cases {ℓ} : {A : Type ℓ} {x y : A} {ys : List A} → Memᴰ x (y ∷ ys) → (x ≡ y) ⊎ Memᴰ x ys
Memᴰ-cases (Memᴰ.head same) = inl same
Memᴰ-cases (Memᴰ.tail m) = inr m

pub Memᴰ-place_lot :
    (lot : InventoryLot) (lots : List InventoryLot) {x : InventoryLot}
    → (x ≡ lot) ⊎ Memᴰ x lots
    → Memᴰ x (place_lot lot lots)
unfolding place_lot
Memᴰ-place_lot lot [] (inl same) = Memᴰ.head same
Memᴰ-place_lot lot [] (inr m) = elim m [ ]
Memᴰ-place_lot lot (l ∷ ls) (inl same) = elim (Bool-cases (is_older lot l)) [
  | inl here ↦ rw (here, place_lot) (Memᴰ.head same)
  | inr later ↦ rw (later, place_lot) (Memᴰ.tail (Memᴰ-place_lot lot ls (inl same)))
]
Memᴰ-place_lot lot (l ∷ ls) (inr (Memᴰ.head same)) = elim (Bool-cases (is_older lot l)) [
  | inl here ↦ rw (here, place_lot) (Memᴰ.tail (Memᴰ.head same))
  | inr later ↦ rw (later, place_lot) (Memᴰ.head same)
]
Memᴰ-place_lot lot (l ∷ ls) (inr (Memᴰ.tail m)) = elim (Bool-cases (is_older lot l)) [
  | inl here ↦ rw (here, place_lot) (Memᴰ.tail (Memᴰ.tail m))
  | inr later ↦ rw (later, place_lot) (Memᴰ.tail (Memᴰ-place_lot lot ls (inr m)))
]

pub Memᴰ-ordered_lots :
    (lots : List InventoryLot) {x : InventoryLot} → Memᴰ x lots → Memᴰ x (ordered_lots lots)
unfolding ordered_lots
Memᴰ-ordered_lots [] m = elim m [ ]
Memᴰ-ordered_lots (l ∷ ls) (Memᴰ.head same) = Memᴰ-place_lot l (ordered_lots ls) (inl same)
Memᴰ-ordered_lots (l ∷ ls) (Memᴰ.tail m) =
    Memᴰ-place_lot l (ordered_lots ls) (inr (Memᴰ-ordered_lots ls m))

-- A bound on every lot holds after one that meets it is placed.
All-place_lot :
    (n : ℕ) (lot : InventoryLot) (lots : List InventoryLot)
    → n ≤ lot.expires_at
    → All (λ x. n ≤ x.expires_at) lots
    → All (λ x. n ≤ x.expires_at) (place_lot lot lots)
unfolding place_lot
All-place_lot n lot [] here all = (here, tt)
All-place_lot n lot (l ∷ ls) here all = elim (Bool-cases (is_older lot l)) [
  | inl before ↦ rw (before, place_lot) (here, all)
  | inr later ↦ rw (later, place_lot) (all.0, All-place_lot n lot ls here all.1)
]

All-weaken :
    (n m : ℕ) (lots : List InventoryLot)
    → n ≤ m
    → All (λ x. m ≤ x.expires_at) lots
    → All (λ x. n ≤ x.expires_at) lots
All-weaken n m lots le all =
    All-mono (λ x. m ≤ x.expires_at) (λ x. n ≤ x.expires_at) (λ x h. omega (arith, h, le)) lots all

place_lot-IsSorted :
    (lot : InventoryLot) (lots : List InventoryLot) → IsSorted lots → IsSorted (place_lot lot lots)
unfolding place_lot
place_lot-IsSorted lot [] sorted = (tt, tt)
place_lot-IsSorted lot (l ∷ ls) sorted = elim (Bool-cases (is_older lot l)) [
  | inl before ↦
      let le : lot.expires_at ≤ l.expires_at = ground arith in
      rw (before, place_lot) ((le, All-weaken _ _ ls le sorted.0), sorted)
  | inr later ↦
      let ge : l.expires_at ≤ lot.expires_at = ground arith in
      rw (later, place_lot)
        (All-place_lot l.expires_at lot ls ge sorted.0, place_lot-IsSorted lot ls sorted.1)
]

ordered_lots-IsSorted : (lots : List InventoryLot) → IsSorted (ordered_lots lots)
unfolding ordered_lots
ordered_lots-IsSorted [] = tt
ordered_lots-IsSorted (l ∷ ls) = place_lot-IsSorted l (ordered_lots ls) (ordered_lots-IsSorted ls)

Before-place_lot :
    (lot older newer : InventoryLot) (lots : List InventoryLot)
    → Before older newer lots
    → Before older newer (place_lot lot lots)
unfolding place_lot
Before-place_lot lot older newer [] before = absurd before
Before-place_lot lot older newer (l ∷ ls) before = elim (Bool-cases (is_older lot l)) [
  | inl here ↦ rw (here, place_lot) (inr before)
  | inr later ↦ elim before [
    | inl (same, m) ↦ rw (later, place_lot) (inl (same, Memᴰ-place_lot lot ls (inr m)))
    | inr rest ↦ rw (later, place_lot) (inr (Before-place_lot lot older newer ls rest))
  ]
]

-- A lot that expires earlier is placed before.
place_older :
    (older newer : InventoryLot) (lots : List InventoryLot)
    → older.expires_at < newer.expires_at
    → Memᴰ newer lots
    → Before older newer (place_lot older lots)
unfolding place_lot
place_older older newer [] earlier m = elim m [ ]
place_older older newer (l ∷ ls) earlier m = elim (Bool-cases (is_older older l)) [
  | inl here ↦ rw (here, place_lot) (inl (refl, m))
  | inr later ↦ elim (Memᴰ-cases m) [
    | inl same ↦
        let le : newer.expires_at ≤ older.expires_at = rw same (ground arith) in
        absurd (omega (arith, le, earlier))
    | inr rest ↦ rw (later, place_lot) (inr (place_older older newer ls earlier rest))
  ]
]

-- A lot that expires later is placed after.
place_newer :
    (older newer : InventoryLot) (lots : List InventoryLot)
    → IsSorted lots
    → older.expires_at < newer.expires_at
    → Memᴰ older lots
    → Before older newer (place_lot newer lots)
unfolding place_lot
place_newer older newer [] sorted earlier m = elim m [ ]
place_newer older newer (l ∷ ls) sorted earlier m = elim (Bool-cases (is_older newer l)) [
  | inl here ↦
      let le : newer.expires_at ≤ l.expires_at = ground arith in
      let ge : l.expires_at ≤ older.expires_at =
        All-Memᴰ (λ x. l.expires_at ≤ x.expires_at) {xs = l ∷ ls} (omega arith, sorted.0) m in
      absurd (omega (arith, le, ge, earlier))
  | inr later ↦ elim (Memᴰ-cases m) [
    | inl same ↦ rw (later, place_lot) (inl (sym same, Memᴰ-place_lot newer ls (inl refl)))
    | inr rest ↦ rw (later, place_lot) (inr (place_newer older newer ls sorted.1 earlier rest))
  ]
]

pub ordered_lots-Before :
    (older newer : InventoryLot) (lots : List InventoryLot)
    → older.expires_at < newer.expires_at
    → Memᴰ older lots
    → Memᴰ newer lots
    → Before older newer (ordered_lots lots)
unfolding ordered_lots
ordered_lots-Before older newer [] earlier o n = elim o [ ]
ordered_lots-Before older newer (l ∷ ls) earlier o n = elim (Memᴰ-cases o) [
  | inl is_o ↦ elim (Memᴰ-cases n) [
    | inl is_n ↦
        let same : older.expires_at ≡ newer.expires_at = ap (λ x. x.expires_at) (is_o ∙ sym is_n) in
        absurd (omega (arith, same, earlier))
    | inr n' ↦
        subst (λ x. Before older newer (place_lot x (ordered_lots ls))) is_o
          (place_older older newer (ordered_lots ls) earlier (Memᴰ-ordered_lots ls n'))
  ]
  | inr o' ↦ elim (Memᴰ-cases n) [
    | inl is_n ↦
        subst (λ x. Before older newer (place_lot x (ordered_lots ls))) is_n
          (place_newer older newer (ordered_lots ls) (ordered_lots-IsSorted ls) earlier
            (Memᴰ-ordered_lots ls o'))
    | inr n' ↦
        Before-place_lot l older newer (ordered_lots ls)
          (ordered_lots-Before older newer ls earlier o' n')
  ]
]

times_in-place_lot :
    (id : String) (lot : InventoryLot) (lots : List InventoryLot)
    → times_in id (place_lot lot lots) ≡ times_in id (lot ∷ lots)
unfolding place_lot count
times_in-place_lot id lot [] = refl
times_in-place_lot id lot (l ∷ ls) =
    let rest = times_in-place_lot id lot ls in
    elim (Bool-cases (is_older lot l)) [
      | inl here ↦ rw (here, place_lot) refl
      | inr later ↦ rw (later, place_lot) (ground (arith, rest))
    ]

-- Ordering loses no lot.
pub times_in-ordered_lots :
    (id : String) (lots : List InventoryLot) → times_in id (ordered_lots lots) ≡ times_in id lots
unfolding ordered_lots count
times_in-ordered_lots id [] = refl
times_in-ordered_lots id (l ∷ ls) =
    ground (arith, times_in-place_lot id l (ordered_lots ls), times_in-ordered_lots id ls)
