-- ===== src/Optimization/Groups.antt =====
-- optimization/verifier.py: the groups of _verify_fefo hold the available lots of one SKU in one
-- warehouse.
use civitas.Prelude.{
  Bool, ◌&&◌, Bool-cases, List, [], ◌∷◌, ◌++◌, keep, String, str_eq, str_eq_iff, ◌≡◌, inl, inr,
  refl, sym, ◌∙◌, ap, arith, if◌then◌else◌,
}
use civitas.Optimization.{InventoryLot}
use civitas.Optimization.Allocations.{is_available}
use civitas.Optimization.Fefo.{LotGroup, add_to_groups, group_lots}

-- The lots of a group, and what should be there.
abbrev of_group : String → String → InventoryLot → Bool
of_group sku_id warehouse_id lot = str_eq lot.sku_id sku_id && str_eq lot.warehouse_id warehouse_id

unfoldable pub lots_at : String → String → List LotGroup → List InventoryLot
lots_at sku_id warehouse_id [] = []
lots_at sku_id warehouse_id (g ∷ gs) =
    let rest = lots_at sku_id warehouse_id gs in
    if str_eq g.sku_id sku_id && str_eq g.warehouse_id warehouse_id then g.lots else rest

abbrev pub groupable : String → String → InventoryLot → Bool
groupable sku_id warehouse_id lot = is_available lot.status && of_group sku_id warehouse_id lot

lots_at-add_to_groups :
    (s w : String) (lot : InventoryLot) (gs : List LotGroup)
    → lots_at s w (add_to_groups lot gs)
      ≡ (if of_group s w lot then lots_at s w gs ++ (lot ∷ []) else lots_at s w gs)
unfolding lots_at add_to_groups
lots_at-add_to_groups s w lot [] = ground arith
lots_at-add_to_groups s w lot (g ∷ gs) =
    let rest = lots_at-add_to_groups s w lot gs in
    ground (
      arith,
      rest,
      str_eq_iff lot.sku_id g.sku_id,
      str_eq_iff lot.warehouse_id g.warehouse_id,
      str_eq_iff g.sku_id s,
      str_eq_iff g.warehouse_id w,
      str_eq_iff lot.sku_id s,
      str_eq_iff lot.warehouse_id w,
    )

append_assoc {ℓ} :
    {A : Type ℓ} (xs : List A) (y : A) (ys : List A) → (xs ++ (y ∷ [])) ++ ys ≡ xs ++ (y ∷ ys)
append_assoc [] y ys = refl
append_assoc (x ∷ xs) y ys = ap (λ zs. x ∷ zs) (append_assoc xs y ys)

append_nil {ℓ} : {A : Type ℓ} (xs : List A) → xs ++ [] ≡ xs
append_nil [] = refl
append_nil (x ∷ xs) = ap (λ zs. x ∷ zs) (append_nil xs)

pub lots_at-group_lots :
    (s w : String) (lots : List InventoryLot) (gs : List LotGroup)
    → lots_at s w (group_lots gs lots) ≡ lots_at s w gs ++ keep (groupable s w) lots
unfolding group_lots
lots_at-group_lots s w [] gs = sym (append_nil (lots_at s w gs))
lots_at-group_lots s w (lot ∷ lots) gs =
    let added = lots_at-add_to_groups s w lot gs in
    elim (Bool-cases (is_available lot.status)) [
      | inr unavailable ↦ rw (unavailable, keep) (lots_at-group_lots s w lots gs)
      | inl available ↦
          let rest = lots_at-group_lots s w lots (add_to_groups lot gs) in
          elim (Bool-cases (of_group s w lot)) [
            | inl here ↦
                let extended : lots_at s w (add_to_groups lot gs) ≡ lots_at s w gs ++ (lot ∷ []) =
                  rw here at added in
                rw (available, here, keep)
                  (rest
                    ∙ ap (λ xs. xs ++ keep (groupable s w) lots) extended
                    ∙ append_assoc (lots_at s w gs) lot (keep (groupable s w) lots))
            | inr other ↦
                let kept : lots_at s w (add_to_groups lot gs) ≡ lots_at s w gs =
                  rw other at added in
                rw (available, other, keep) (rest ∙ ap (λ xs. xs ++ keep (groupable s w) lots) kept)
          ]
    ]
