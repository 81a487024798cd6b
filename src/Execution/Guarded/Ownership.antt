-- ===== src/Execution/Guarded/Ownership.antt =====
-- execution/guarded.py: what `_validate_plan_organization` has found of a plan.
use civitas.Prelude.{
  ◌≡◌, refl, Bool, true, Bool-cases, inl, inr, List, [], ◌∷◌, ◌++◌, map, all, ◌&&◌, String, str_eq,
  str_eq_iff, Memᴰ, All, All-mono, ok, arith,
}
use civitas.Contracts.{CandidatePlan}
use civitas.Execution.Guarded.{Owned, Database}
use civitas.Execution.Guarded.Admission.{
  owns, check_owned, validate_plan_organization, lots_of_plan,
}

pub all-All {ℓ} :
    {A : Type ℓ} (p : A → Bool) (xs : List A) → all p xs ≡ true → All (λ x. p x ≡ true) xs
all-All p [] h = tt
all-All p (x ∷ xs) h = elim (Bool-cases (p x)) [
  | inl here ↦ (here, all-All p xs (ground arith))
  | inr other ↦ absurd (ground arith)
]

-- One of the rows has the id and belongs to the organization.
abbrev pub IsOwnRow : String → List Owned → String → Type 0
IsOwnRow organization_id rows id =
    (o : Owned) × Memᴰ o rows × (o.id ≡ id) × (o.organization_id ≡ organization_id)

owns-IsOwnRow :
    (organization_id : String) (rows : List Owned) (id : String)
    → owns organization_id rows id ≡ true
    → IsOwnRow organization_id rows id
unfolding owns
owns-IsOwnRow organization_id [] id h = absurd (ground arith)
owns-IsOwnRow organization_id (o ∷ os) id h =
    elim (Bool-cases (str_eq o.id id && str_eq o.organization_id organization_id)) [
      | inl here ↦ (o, Memᴰ.head refl, grind (arith, str_eq_iff), grind (arith, str_eq_iff))
      | inr other ↦
          let (row, there, named, own) = owns-IsOwnRow organization_id os id (ground arith) in
          (row, Memᴰ.tail there, named, own)
    ]

check_owned-IsOwnRow :
    (organization_id : String) (rows : List Owned) (ids : List String) (label : String)
    → check_owned organization_id rows ids label ≡ ok tt
    → All (IsOwnRow organization_id rows) ids
unfolding check_owned
check_owned-IsOwnRow organization_id rows ids label h =
    All-mono _ _ (owns-IsOwnRow organization_id rows) ids
      (all-All (owns organization_id rows) ids (ground arith))

abbrev pub lot_rows : Database → List Owned
lot_rows db = map (λ l. record { id = l.id; organization_id = l.organization_id }) db.stock.lots

-- Every supplier, article, warehouse and lot that the plan names is a row of the organization.
pub record NamesOwnRows (db : Database) (organization_id : String) (plan : CandidatePlan)
    : Type 0 where
  pub suppliers :
      All (IsOwnRow organization_id db.suppliers) (map (λ l. l.supplier_id) plan.procurement)
  pub skus :
      All
        (IsOwnRow organization_id db.skus)
        (map (λ l. l.sku_id) plan.procurement ++ map (λ l. l.sku_id) plan.distribution)
  pub warehouses : All (IsOwnRow organization_id db.warehouses) (
      map (λ l. l.destination_warehouse_id) plan.procurement
      ++ map (λ l. l.source_warehouse_id) plan.distribution
      ++ map (λ l. l.destination_warehouse_id) plan.distribution)
  pub lots : All (IsOwnRow organization_id (lot_rows db)) (lots_of_plan plan)

pub validate-NamesOwnRows :
    (db : Database) (plan : CandidatePlan) (organization_id : String)
    → validate_plan_organization db plan organization_id ≡ ok tt
    → NamesOwnRows db organization_id plan
unfolding validate_plan_organization
validate-NamesOwnRows db plan organization_id h = record {
  suppliers = check_owned-IsOwnRow organization_id db.suppliers _ "supplier" (ground arith);
  skus = check_owned-IsOwnRow organization_id db.skus _ "SKU" (ground arith);
  warehouses = check_owned-IsOwnRow organization_id db.warehouses _ "warehouse" (ground arith);
  lots = check_owned-IsOwnRow organization_id (lot_rows db) _ "inventory lot" (ground arith);
}
