-- ===== src/Prelude/Dicts.antt =====
-- A Python dict keyed by strings, in insertion order.
use Prim.Native.String.{String}
use mathlib.Core.Path.{◌≡◌}
use mathlib.Core.Logic.{◌≢◌, inl, inr}
use mathlib.Core.Option.{Option, none, some}
use mathlib.Core.List.{List, [], ◌∷◌}
use native.Mathlib.Omega.{arith}
use text.Mathlib.Text.{◌==◌ as str_eq}
use text.Mathlib.TextEquality.{eq_iff as str_eq_iff}
use civitas.Prelude.Tests.{if◌then◌else◌, Bool-cases}
use civitas.Prelude.Lists.{All}

abbrev pub Dict {ℓ} : Type ℓ → Type ℓ
Dict V = List (String × V)

module _ {ℓ} {V : Type ℓ} where
  -- `d.get(k)`
  unfoldable pub lookup : String → Dict V → Option V
  lookup k [] = none
  lookup k ((j, v) ∷ d) = if str_eq k j then some v else lookup k d

  -- `d[k] = v`
  unfoldable pub insert : String → V → Dict V → Dict V
  insert k v [] = (k, v) ∷ []
  insert k v ((j, w) ∷ d) = if str_eq k j then (k, v) ∷ d else (j, w) ∷ insert k v d

  -- `list(d)`
  unfoldable pub keys : Dict V → List String
  keys [] = []
  keys ((j, v) ∷ d) = j ∷ keys d

  pub lookup-insert_self : (k : String) (v : V) (d : Dict V) → lookup k (insert k v d) ≡ some v
  unfolding lookup insert
  lookup-insert_self k v [] = grind (arith, str_eq_iff)
  lookup-insert_self k v (e ∷ d) = grind (arith, str_eq_iff, lookup-insert_self k v d)

  pub lookup-insert_ne :
      (j k : String) (v : V) (d : Dict V) → j ≢ k → lookup j (insert k v d) ≡ lookup j d
  unfolding lookup insert
  lookup-insert_ne j k v [] h = grind (arith, str_eq_iff)
  lookup-insert_ne j k v (e ∷ d) h = grind (arith, str_eq_iff, lookup-insert_ne j k v d h)

module _ {ℓ κ} {V : Type ℓ} (P : String × V → Type κ) where
  -- What holds of every entry holds of the one that is found.
  pub All-lookup : (k : String) {v : V} (d : Dict V) → All P d → lookup k d ≡ some v → P (k, v)
  unfolding lookup
  All-lookup k [] h e = absurd (ground arith)
  All-lookup k {v} ((j, w) ∷ d) h e = elim (Bool-cases (str_eq k j)) [
    | inl q ↦ let same : w ≡ v = ground arith in rw ((str_eq_iff k j).0 q, ← same) h.0
    | inr q ↦ All-lookup k d h.1 (ground arith)
  ]

  pub All-insert : (k : String) (v : V) (d : Dict V) → All P d → P (k, v) → All P (insert k v d)
  unfolding insert
  All-insert k v [] h p = (p, tt)
  All-insert k v ((j, w) ∷ d) h p = elim (Bool-cases (str_eq k j)) [
    | inl q ↦ rw q (p, h.1)
    | inr q ↦ rw q (h.0, All-insert k v d h.1 p)
  ]

-- A key that is found is among the keys.
pub All-keys-lookup {ℓ κ} :
    {V : Type ℓ} (P : String → Type κ) (k : String) {v : V} (d : Dict V)
    → All P (keys d)
    → lookup k d ≡ some v
    → P k
unfolding lookup keys
All-keys-lookup P k {v} [] h e = absurd (ground arith)
All-keys-lookup P k {v} ((j, w) ∷ d) h e = elim (Bool-cases (str_eq k j)) [
  | inl q ↦ rw ((str_eq_iff k j).0 q) h.0
  | inr q ↦ All-keys-lookup P k {v = v} d h.1 (ground arith)
]
