-- ===== src/Approval/Rows.antt =====
-- Rows of the receipt table: lookups, keys and updates.
use civitas.Prelude.{
  ℕ, ◌≡◌, refl, ap, ◌∙◌, subst, Bool, true, false, Bool-cases, some, List, [], ◌∷◌, map, any, All,
  Memᴰ, String, str_eq, str_eq_iff, str_eq_refl, inl, inr, arith, if◌then◌else◌,
}
use civitas.Approval.{ApprovalReceiptModel, first}

module _ {ℓ} {A : Type ℓ} where
  pub first-holds : (p : A → Bool) (xs : List A) {a : A} → first p xs ≡ some a → p a ≡ true
  first-holds p [] h = absurd (ground arith)
  first-holds p (x ∷ xs) h = elim (Bool-cases (p x)) [
    | inl holds ↦ let same : x ≡ _ = ground arith in subst (λ y. p y ≡ true) same holds
    | inr fails ↦ first-holds p xs (ground arith)
  ]

  pub first-Mem : (p : A → Bool) (xs : List A) {a : A} → first p xs ≡ some a → Memᴰ a xs
  first-Mem p [] h = absurd (ground arith)
  first-Mem p (x ∷ xs) h = elim (Bool-cases (p x)) [
    | inl holds ↦ let same : _ ≡ x = ground arith in Memᴰ.head same
    | inr fails ↦ Memᴰ.tail (first-Mem p xs (ground arith))
  ]

  pub first-All :
      (P : A → Type 0) (p : A → Bool) (xs : List A) {a : A} → All P xs → first p xs ≡ some a → P a
  first-All P p [] hs h = absurd (ground arith)
  first-All P p (x ∷ xs) hs h = elim (Bool-cases (p x)) [
    | inl holds ↦ let same : x ≡ _ = ground arith in subst P same hs.0
    | inr fails ↦ first-All P p xs hs.1 (ground arith)
  ]

  pub first-any :
      (p q : A → Bool) (xs : List A) {a : A}
      → ((x : A) → p x ≡ true → q x ≡ true)
      → first p xs ≡ some a
      → any q xs ≡ true
  first-any p q [] i h = absurd (ground arith)
  first-any p q (x ∷ xs) {a} i h = elim (Bool-cases (p x)) [
    | inl holds ↦ let here = i x holds in ground arith
    | inr fails ↦ let later = first-any p q xs {a = a} i (ground arith) in ground arith
  ]

  pub any_mono :
      (p q : A → Bool) (xs : List A)
      → ((x : A) → p x ≡ true → q x ≡ true)
      → any p xs ≡ true
      → any q xs ≡ true
  any_mono p q [] i h = absurd (ground arith)
  any_mono p q (x ∷ xs) i h = elim (Bool-cases (p x)) [
    | inl holds ↦ let here = i x holds in ground arith
    | inr fails ↦ let later = any_mono p q xs i (ground arith) in ground arith
  ]

-- `any(row.id == id for row in rows)`
abbrev pub has_id : String → List ApprovalReceiptModel → Bool
has_id id rows = any (λ r. str_eq r.id id) rows

-- The primary key: no two rows have one id.
abbrev pub Distinct : List ApprovalReceiptModel → Type 0
Distinct [] = Unit
Distinct (r ∷ rs) = (has_id r.id rs ≡ false) × Distinct rs

-- The update of one row by its id, as `set_consumed` does it.
abbrev pub consumed : String → String → ℕ → ApprovalReceiptModel → ApprovalReceiptModel
consumed id key now r =
    if str_eq r.id id
    then record r { consumed_idempotency_key = some key; consumed_at = some now }
    else r

-- Every row of the id is consumed by the key.
abbrev pub HasKey : String → String → ApprovalReceiptModel → Type 0
HasKey id key r = str_eq r.id id ≡ true → r.consumed_idempotency_key ≡ some key

consumed-id :
    (id key : String) (now : ℕ) (r : ApprovalReceiptModel) → (consumed id key now r).id ≡ r.id
consumed-id id key now r = ground arith

pub has_id-consumed :
    (i id key : String) (now : ℕ) (rows : List ApprovalReceiptModel)
    → has_id i (map (consumed id key now) rows) ≡ has_id i rows
has_id-consumed i id key now [] = refl
has_id-consumed i id key now (r ∷ rs) =
    rw (consumed-id id key now r, has_id-consumed i id key now rs)

pub Distinct-consumed :
    (id key : String) (now : ℕ) (rows : List ApprovalReceiptModel)
    → Distinct rows
    → Distinct (map (consumed id key now) rows)
Distinct-consumed id key now [] h = tt
Distinct-consumed id key now (r ∷ rs) h = (
  rw (consumed-id id key now r) (has_id-consumed r.id id key now rs ∙ h.0),
  Distinct-consumed id key now rs h.1,
)

-- After the update the key is on every row of the id.
pub All-consumed :
    (id key : String) (now : ℕ) (rows : List ApprovalReceiptModel)
    → All (HasKey id key) (map (consumed id key now) rows)
All-consumed id key now [] = tt
All-consumed id key now (r ∷ rs) = ((λ here. ground arith), All-consumed id key now rs)

-- An update of another id leaves it there.
pub All-consumed-ne :
    (id key other key' : String) (now : ℕ) (rows : List ApprovalReceiptModel)
    → str_eq id other ≡ false
    → All (HasKey id key) rows
    → All (HasKey id key) (map (consumed other key' now) rows)
All-consumed-ne id key other key' now [] ne h = tt
All-consumed-ne id key other key' now (r ∷ rs) ne h =
    ((λ here. grind (arith, str_eq_iff)), All-consumed-ne id key other key' now rs ne h.1)

first-has_id :
    (p : ApprovalReceiptModel → Bool) (rows : List ApprovalReceiptModel) {r : ApprovalReceiptModel}
    → first p rows ≡ some r
    → has_id r.id rows ≡ true
first-has_id p [] h = absurd (ground arith)
first-has_id p (x ∷ xs) {r} h = elim (Bool-cases (p x)) [
  | inl holds ↦
      let same : x ≡ r = ground arith in
      subst (λ y. has_id y.id (x ∷ xs) ≡ true) same (rw (str_eq_refl x.id) refl)
  | inr fails ↦ let later = first-has_id p xs {r = r} (ground arith) in ground arith
]

pub All-absent :
    (id key : String) (rows : List ApprovalReceiptModel)
    → has_id id rows ≡ false
    → All (HasKey id key) rows
All-absent id key [] h = tt
All-absent id key (r ∷ rs) h =
    ((λ here. absurd (ground arith)), All-absent id key rs (ground arith))

-- Where ids are distinct, the row that a lookup finds is the only one of its id.
pub first-HasKey :
    (p : ApprovalReceiptModel → Bool) (id key : String) (rows : List ApprovalReceiptModel)
    {r : ApprovalReceiptModel}
    → Distinct rows
    → first p rows ≡ some r
    → str_eq r.id id ≡ true
    → r.consumed_idempotency_key ≡ some key
    → All (HasKey id key) rows
first-HasKey p id key [] d h same k = tt
first-HasKey p id key (x ∷ xs) {r} d h same k = elim (Bool-cases (p x)) [
  | inl holds ↦
      let found : x ≡ r = ground arith in
      let named : x.id ≡ id = grind (arith, str_eq_iff) in
      (
        (λ here. ap (λ y. y.consumed_idempotency_key) found ∙ k),
        All-absent id key xs (subst (λ i. has_id i xs ≡ false) named d.0),
      )
  | inr fails ↦
      let later : first p xs ≡ some r = ground arith in
      let present = first-has_id p xs later in
      ((λ here. absurd (grind (arith, str_eq_iff))), first-HasKey p id key xs d.1 later same k)
]
