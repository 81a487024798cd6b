-- ===== src/Optimization/Orders.antt =====
-- optimization/verifier.py: what the loop over the procurements has checked.
use civitas.Prelude.{
  ℕ, zero, suc, ◌%◌, ◌≤◌, ◌<◌, false, not, ◌||◌, Bool-cases, Option-cases, some, List, [], ◌∷◌,
  ◌++◌, String, str_eq, str_eq_iff, ℤ, pos, negsuc, leb_ℤ, ◌≡◌, inl, inr, refl, All, arith,
}
use civitas.Optimization.{OptimizationProblem, SupplierOffer, ProcurementDecision}
use civitas.Optimization.Allocations.{
  by_id, offer_of, is_positive, is_broken, check_procurement, check_procurements,
}

pub append_empty {ℓ} : {A : Type ℓ} (xs ys : List A) → xs ++ ys ≡ [] → (xs ≡ []) × (ys ≡ [])
append_empty [] ys h = (refl, h)
append_empty (x ∷ xs) ys h = absurd (ground arith)

pub by_id-found {ℓ} :
    {A : Type ℓ} (id_of : A → String) (id : String) (xs : List A) {x : A}
    → by_id id_of id xs ≡ some x
    → id_of x ≡ id
unfolding by_id
by_id-found id_of id [] h = absurd (ground arith)
by_id-found id_of id (y ∷ ys) {x} h = elim (Bool-cases (str_eq (id_of y) id)) [
  | inl here ↦ let same : y ≡ x = ground arith in rw (← same) ((str_eq_iff (id_of y) id).0 here)
  | inr later ↦ by_id-found id_of id ys (ground arith)
]

-- An order of a positive number of packs between the minimum and the capacity of a known offer.
abbrev pub IsOrdered : OptimizationProblem → ProcurementDecision → Type 0
IsOrdered problem p =
    (offer : SupplierOffer) × (n : ℕ) × (offer_of problem p.offer_id ≡ some offer)
    × (p.quantity ≡ pos n)
    × (0 < n)
    × (n ≤ offer.capacity)
    × (offer.minimum_order ≤ n)
    × (n % offer.pack_size ≡ 0)

order_quantity :
    (q : ℤ) (capacity pack_size minimum : ℕ)
    → (not (is_positive q) || not (leb_ℤ q (pos capacity))) ≡ false
    → is_broken q pack_size ≡ false
    → not (leb_ℤ (pos minimum) q) ≡ false
    → (n : ℕ) × (q ≡ pos n) × (0 < n) × (n ≤ capacity) × (minimum ≤ n) × (n % pack_size ≡ 0)
order_quantity (pos zero) capacity pack_size minimum valid whole enough = absurd (ground arith)
order_quantity (pos (suc n)) capacity pack_size minimum valid whole enough =
    (suc n, refl, ground arith, ground arith, ground arith, ground arith)
order_quantity (negsuc n) capacity pack_size minimum valid whole enough = absurd (ground arith)

check_procurement-IsOrdered :
    (problem : OptimizationProblem) (p : ProcurementDecision)
    → check_procurement problem p ≡ []
    → IsOrdered problem p
unfolding check_procurement
check_procurement-IsOrdered problem p h = elim (Option-cases (offer_of problem p.offer_id)) [
  | inl unknown ↦ absurd (ground arith)
  | inr (offer, found) ↦
      let (n, is_n, positive, capacity, enough, whole) =
        order_quantity p.quantity offer.capacity offer.pack_size offer.minimum_order (ground arith)
          (ground arith) (ground arith) in
      (offer, n, found, is_n, positive, capacity, enough, whole)
]

pub check_procurements-IsOrdered :
    (problem : OptimizationProblem) (ps : List ProcurementDecision)
    → check_procurements problem ps ≡ []
    → All (IsOrdered problem) ps
unfolding check_procurements
check_procurements-IsOrdered problem [] h = tt
check_procurements-IsOrdered problem (p ∷ ps) h =
    let (here, rest) = append_empty (check_procurement problem p) _ h in
    (check_procurement-IsOrdered problem p here, check_procurements-IsOrdered problem ps rest)
