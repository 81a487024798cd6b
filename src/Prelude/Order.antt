-- ===== src/Prelude/Order.antt =====
-- Python's strict order on strings, which is total.
use Prim.Native.Nat.{Ordering, compare as compare_ℕ}
use Prim.Native.Char.{code}
use Prim.Native.String.{String, compare, [], ◌∷◌}
use Prim.Native.String.compare
use mathlib.Core.Path.{◌≡◌, refl}
use mathlib.Core.Bool.{Bool, true, false}
use native.Mathlib.Omega.{arith}
use text.Mathlib.TextEquality.{codes_equal}
use text.Mathlib.TextPositions.{compare_refl}

-- `a < b`
abbrev pub str_ltb : String → String → Bool
str_ltb a b = elim (compare a b) [ Ordering.lt ↦ true | _ ↦ false ]

pub str_ltb_trans : (a b c : String) → str_ltb a b ≡ true → str_ltb b c ≡ true → str_ltb a c ≡ true
str_ltb_trans [] [] c h k = k
str_ltb_trans [] (y ∷ b) [] h k = absurd (ground (arith, compare.cons-nil y b))
str_ltb_trans [] (y ∷ b) (z ∷ c) h k = ground (arith, compare.nil-cons z c)
str_ltb_trans (x ∷ a) [] c h k = absurd (ground (arith, compare.cons-nil x a))
str_ltb_trans (x ∷ a) (y ∷ b) [] h k = absurd (ground (arith, compare.cons-nil y b))
str_ltb_trans (x ∷ a) (y ∷ b) (z ∷ c) h k =
    let rec = str_ltb_trans a b c in
    ground
      (arith, rec, compare.cons-cons x y a b, compare.cons-cons y z b c, compare.cons-cons x z a c)

pub str_ltb_irrefl : (a : String) → str_ltb a a ≡ false
str_ltb_irrefl a = ground (arith, compare_refl a)

pub str_ltb-connex : (a b : String) → str_ltb a b ≡ false → str_ltb b a ≡ false → a ≡ b
str_ltb-connex [] [] h k = refl
str_ltb-connex [] (y ∷ b) h k = absurd (ground (arith, compare.nil-cons y b))
str_ltb-connex (x ∷ a) [] h k = absurd (ground (arith, compare.nil-cons x a))
str_ltb-connex (x ∷ a) (y ∷ b) h k =
    let same : code x ≡ code y =
      ground (arith, compare.cons-cons x y a b, compare.cons-cons y x b a) in
    let level : compare_ℕ (code x) (code y) ≡ Ordering.eq = ground arith in
    let rest : a ≡ b =
      str_ltb-connex a b (ground (arith, compare.cons-cons x y a b, compare.cons-cons y x b a))
        (ground (arith, compare.cons-cons x y a b, compare.cons-cons y x b a)) in
    λ i. codes_equal x y level i ∷ rest i
