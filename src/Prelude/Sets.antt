-- ===== src/Prelude/Sets.antt =====
-- Python sets of strings and `dict.fromkeys`, over lists.
use Prim.Native.Nat.{ℕ, suc}
use Prim.Native.String.{String}
use mathlib.Core.Bool.{Bool, true, false, ◌&&◌, ◌||◌}
use mathlib.Core.List.{List, [], ◌∷◌}
use text.Mathlib.Text.{◌==◌ as str_eq}
use mathlib.Core.Path.{◌≡◌}
use mathlib.Core.Logic.{inl, inr}
use native.Mathlib.Omega.{arith}
use text.Mathlib.TextEquality.{eq_iff as str_eq_iff}
use civitas.Prelude.Lists.{All}
use civitas.Prelude.Sorting.{sorted}
use civitas.Prelude.Tests.{if◌then◌else◌, Bool-cases}

-- `x in xs`
unfoldable pub contains : List String → String → Bool
contains [] x = false
contains (y ∷ ys) x = str_eq x y || contains ys x

-- `xs.count(x)`
unfoldable pub count : String → List String → ℕ
count x [] = 0
count x (y ∷ ys) = let rest = count x ys in if str_eq x y then suc rest else rest

unique_from : List String → List String → List String
unfolding contains
unique_from seen [] = []
unique_from seen (x ∷ xs) =
    let rest = unique_from seen xs in
    let longer = x ∷ unique_from (x ∷ seen) xs in if contains seen x then rest else longer

-- `tuple(dict.fromkeys(xs))`: the first of each, in order.
unfoldable pub unique : List String → List String
unfolding unique_from
unique xs = unique_from [] xs

-- `tuple(sorted(set(xs)))`
unfoldable pub sorted_set : List String → List String
unfolding unique sorted
sorted_set xs = sorted (unique xs)

-- `bool(set(xs) & set(ys))`
unfoldable pub intersects : List String → List String → Bool
unfolding contains
intersects [] ys = false
intersects (x ∷ xs) ys = contains ys x || intersects xs ys

-- `set(xs) <= set(ys)`
unfoldable pub subset : List String → List String → Bool
unfolding contains
subset [] ys = true
subset (x ∷ xs) ys = contains ys x && subset xs ys

module _ {κ} (P : String → Type κ) where
  -- What holds of a list holds of the string that is found in it.
  All-contains : (xs : List String) (x : String) → All P xs → contains xs x ≡ true → P x
  unfolding contains
  All-contains [] x all h = absurd (ground arith)
  All-contains (y ∷ ys) x all h = elim (Bool-cases (str_eq x y)) [
    | inl same ↦ rw ((str_eq_iff x y).0 same) all.0
    | inr other ↦ All-contains ys x all.1 (ground arith)
  ]

  All-of-unique_from : (seen xs : List String) → All P seen → All P (unique_from seen xs) → All P xs
  unfolding unique_from
  All-of-unique_from seen [] known all = tt
  All-of-unique_from seen (x ∷ xs) known all = elim (Bool-cases (contains seen x)) [
    | inl old ↦ (
      All-contains seen x known old,
      All-of-unique_from seen xs known (rw (old, unique_from) at all),
    )
    | inr new ↦
        let (here, rest) : P x × All P (unique_from (x ∷ seen) xs) = rw (new, unique_from) at all in
        (here, All-of-unique_from (x ∷ seen) xs (here, known) rest)
  ]

  -- What holds of the strings without repetition holds of all.
  pub All-of-unique : (xs : List String) → All P (unique xs) → All P xs
  unfolding unique
  All-of-unique xs all = All-of-unique_from [] xs tt all
