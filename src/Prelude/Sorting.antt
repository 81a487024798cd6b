-- ===== src/Prelude/Sorting.antt =====
-- Python's order on strings, by code points, and `sorted` on lists of strings.
use Prim.Native.Nat.{Ordering}
use Prim.Native.String.{String, compare}
use mathlib.Core.Bool.{Bool, true, false}
use mathlib.Core.List.{List, [], ◌∷◌}
use Prim.Native.Nat.{suc}
use mathlib.Core.Path.{◌≡◌, refl}
use native.Mathlib.Omega.{arith}
use civitas.Prelude.Lists.{length, All}
use civitas.Prelude.Tests.{Bool-cases}
use mathlib.Core.Logic.{inl, inr}

-- `a <= b`
abbrev pub str_leb : String → String → Bool
str_leb a b = elim (compare a b) [ Ordering.gt ↦ false | _ ↦ true ]

insert_sorted : String → List String → List String
insert_sorted x [] = x ∷ []
insert_sorted x (y ∷ ys) =
    let rest = insert_sorted x ys in elim (str_leb x y) [ true ↦ x ∷ y ∷ ys | false ↦ y ∷ rest ]

-- `sorted(xs)`
unfoldable pub sorted : List String → List String
unfolding insert_sorted
sorted [] = []
sorted (x ∷ xs) = insert_sorted x (sorted xs)

module _ {ℓ} (P : String → Type ℓ) where
  All-insert_sorted : (x : String) (xs : List String) → P x → All P xs → All P (insert_sorted x xs)
  unfolding insert_sorted
  All-insert_sorted x [] p h = (p, tt)
  All-insert_sorted x (y ∷ ys) p h = elim (Bool-cases (str_leb x y)) [
    | inl q ↦ rw (q, insert_sorted) (p, h)
    | inr q ↦ rw (q, insert_sorted) (h.0, All-insert_sorted x ys p h.1)
  ]

  -- What holds of every string holds of every string of the sorted list.
  pub All-sorted : (xs : List String) → All P xs → All P (sorted xs)
  unfolding sorted
  All-sorted [] h = tt
  All-sorted (x ∷ xs) h = All-insert_sorted x (sorted xs) h.0 (All-sorted xs h.1)

  All-of-insert_sorted :
      (x : String) (xs : List String) → All P (insert_sorted x xs) → P x × All P xs
  unfolding insert_sorted
  All-of-insert_sorted x [] h = h
  All-of-insert_sorted x (y ∷ ys) h = elim (Bool-cases (str_leb x y)) [
    | inl q ↦ rw (q, insert_sorted) at h
    | inr q ↦
        let (here, rest) : P y × All P (insert_sorted x ys) = rw (q, insert_sorted) at h in
        let (px, all) = All-of-insert_sorted x ys rest in (px, (here, all))
  ]

  -- Sorting loses no string.
  pub All-of-sorted : (xs : List String) → All P (sorted xs) → All P xs
  unfolding sorted
  All-of-sorted [] h = tt
  All-of-sorted (x ∷ xs) h =
      let (px, rest) = All-of-insert_sorted x (sorted xs) h in (px, All-of-sorted xs rest)

length-insert_sorted :
    (x : String) (xs : List String) → length (insert_sorted x xs) ≡ suc (length xs)
unfolding insert_sorted
length-insert_sorted x [] = refl
length-insert_sorted x (y ∷ ys) = let rest = length-insert_sorted x ys in ground arith

pub length-sorted : (xs : List String) → length (sorted xs) ≡ length xs
unfolding sorted
length-sorted [] = refl
length-sorted (x ∷ xs) =
    let rest = length-sorted xs in let here = length-insert_sorted x (sorted xs) in omega arith
