-- ===== src/Approval/SingleUse.antt =====
-- approval/service.py: a receipt pays for one action.
use civitas.Prelude.{
  ℕ, ◌≡◌, sym, ap, ◌∙◌, subst, Bool, true, false, Bool-cases, Option-cases, Option, none, some,
  is_some, List, ◌∷◌, map, All, String, str_eq, str_eq_iff, inl, inr, arith, if◌then◌else◌, ok,
}
use civitas.Approval.{
  ApprovedTotals, OperatorContext, ApprovalReceiptModel, ApprovalReceipt, Ledger, first,
  receipt_for_operator, receipt_for_challenge, set_consumed, add_challenge, set_state,
}
use civitas.Approval.Service.{issue, approve, consume_for_execution, invalidate_plan, new_receipt}
use civitas.Approval.Rows.{
  has_id, Distinct, HasKey, consumed, first-HasKey, All-consumed, All-consumed-ne, has_id-consumed,
  Distinct-consumed, first-All,
}
use civitas.Approval.Reach.{
  Step, Reach, Reach-Invariant, issuing, approving, consuming, invalidating, empty,
}
use civitas.Approval.Cases.{found-row, consume-row, add_receipt-fresh, approve-cases}

-- What a step does to the receipts.
pub data Change (rows : List ApprovalReceiptModel) : List ApprovalReceiptModel → Type 0 where
  unchanged : {rows' : List ApprovalReceiptModel} → rows ≡ rows' → Change rows rows'
  added :
      (row : ApprovalReceiptModel) {rows' : List ApprovalReceiptModel}
      → has_id row.id rows ≡ false
      → first (λ r. str_eq r.challenge_id row.challenge_id) rows ≡ none
      → row ∷ rows ≡ rows'
      → Change rows rows'
  spending :
      (p : ApprovalReceiptModel → Bool) (row : ApprovalReceiptModel) (key : String) (now : ℕ)
      {rows' : List ApprovalReceiptModel}
      → first p rows ≡ some row
      → row.consumed_idempotency_key ≡ none
      → map (consumed row.id key now) rows ≡ rows'
      → Change rows rows'

approve-Change :
    (hash : String → String) (now : ℕ) (receipt_id : String) (context : OperatorContext)
    (challenge_id secret : String) {receipt : ApprovalReceipt} (l : Ledger) {l' : Ledger}
    → approve hash now receipt_id context challenge_id secret l ≡ ok (receipt, l')
    → Change l.receipts l'.receipts
unfolding set_state receipt_for_challenge new_receipt
approve-Change hash now receipt_id context challenge_id secret l h =
    let (c, found, passed, outcome) =
      approve-cases hash now receipt_id context challenge_id secret l h in
    elim outcome [
      | inl (r, old, contract, kept) ↦ unchanged (ap (λ m. m.receipts) kept)
      | inr (m, fresh, written, contract, marked) ↦
          let put = add_receipt-fresh (new_receipt hash receipt_id c now) l written in
          added (new_receipt hash receipt_id c now) put.0 fresh
            (ap (λ m. m.receipts) put.1 ∙ ap (λ m. m.receipts) marked)
    ]

consume-Change :
    (key : String) (now : ℕ) (receipt_id : String) (context : OperatorContext)
    (row : ApprovalReceiptModel) (l : Ledger) {l' : Ledger}
    → receipt_for_operator receipt_id context l ≡ some row
    → (if is_some row.consumed_idempotency_key then l else set_consumed row.id key now l) ≡ l'
    → Change l.receipts l'.receipts
unfolding receipt_for_operator set_consumed
consume-Change key now receipt_id context row l {l' = l'} found result =
    elim (Option-cases row.consumed_idempotency_key) [
      | inl free ↦ spending _ row key now found free (
          let whole : set_consumed row.id key now l ≡ l' = ground arith in
          ap (λ m. m.receipts) whole)
      | inr (old, taken) ↦
          unchanged (let whole : l ≡ l' = ground arith in ap (λ m. m.receipts) whole)
    ]

pub Step-Change :
    (hash : String → String) (l l' : Ledger) → Step hash l l' → Change l.receipts l'.receipts
unfolding issue add_challenge invalidate_plan
Step-Change hash l l' (issuing ttl now c s x r p v t h) = unchanged (ground arith)
Step-Change hash l l' (approving now i x c s h) = approve-Change hash now i x c s l h
Step-Change hash l l' (consuming now x i k r p v a h) =
    let spent = consume-row now x i k r p v a l h in
    consume-Change k now i x spent.0 l spent.1 spent.3
Step-Change hash l l' (invalidating now o r p h) = unchanged (ap (λ m. m.receipts) h)

Change-Distinct :
    (rows rows' : List ApprovalReceiptModel) → Change rows rows' → Distinct rows → Distinct rows'
Change-Distinct rows rows' (unchanged e) d = subst Distinct e d
Change-Distinct rows rows' (added row free new e) d = subst Distinct e (free, d)
Change-Distinct rows rows' (spending p row key now f n e) d =
    subst Distinct e (Distinct-consumed row.id key now rows d)

-- The receipt of an id is there, and is consumed by the key.
abbrev Kept : String → String → List ApprovalReceiptModel → Type 0
Kept id key rows = (has_id id rows ≡ true) × All (HasKey id key) rows

Change-Kept :
    (id key : String) (rows rows' : List ApprovalReceiptModel)
    → Change rows rows'
    → Kept id key rows
    → Kept id key rows'
Change-Kept id key rows rows' (unchanged e) k = subst (Kept id key) e k
Change-Kept id key rows rows' (added row free new e) k = subst (Kept id key) e (
  ground arith,
  (
    (λ same.
        let named : row.id ≡ id = grind (arith, str_eq_iff) in
        let absent : has_id id rows ≡ false = subst (λ i. has_id i rows ≡ false) named free in
        absurd (ground arith)),
    k.1,
  ),
)
Change-Kept id key rows rows' (spending p row key' now f n e) k = subst (Kept id key) e (
  rw (has_id-consumed id row.id key' now rows) k.0,
  elim (Bool-cases (str_eq id row.id)) [
    | inl same ↦
        let owned = first-All (HasKey id key) p rows k.1 f in
        let back : str_eq row.id id ≡ true = grind (arith, str_eq_iff) in
        let clash = owned back in absurd (ground arith)
    | inr other ↦ All-consumed-ne id key row.id key' now rows other k.1
  ],
)

Step-Kept :
    (hash : String → String) (id key : String) (l l' : Ledger)
    → Step hash l l'
    → Kept id key l.receipts
    → Kept id key l'.receipts
Step-Kept hash id key l l' s = Change-Kept id key l.receipts l'.receipts (Step-Change hash l l' s)

pub Reach-Distinct :
    (hash : String → String) {l : Ledger} → Reach hash empty l → Distinct l.receipts
Reach-Distinct hash r =
    Reach-Invariant hash (λ l. Distinct l.receipts)
      (λ l l' s. Change-Distinct l.receipts l'.receipts (Step-Change hash l l' s)) r tt

-- A consumption leaves the receipt consumed by its key.
consume-Kept :
    (now : ℕ) (context : OperatorContext) (receipt_id key : String) (run_id : Option String)
    (plan_hash policy : String) (actual : ApprovedTotals) {receipt : ApprovalReceipt} (l : Ledger)
    {l' : Ledger}
    → Distinct l.receipts
    → consume_for_execution now context receipt_id key run_id plan_hash policy actual l
      ≡ ok (receipt, l')
    → Kept receipt_id key l'.receipts
unfolding receipt_for_operator set_consumed
consume-Kept now context receipt_id key run_id plan_hash policy actual l {l' = l'} d h =
    let (row, found, free, result) =
      consume-row now context receipt_id key run_id plan_hash policy actual l h in
    let (named, org, operator, present) = found-row receipt_id context l found in
    elim (Option-cases row.consumed_idempotency_key) [
      | inl unused ↦
          let written : set_consumed row.id key now l ≡ l' = ground arith in
          let same : row.id ≡ receipt_id = grind (arith, str_eq_iff) in
          subst (λ m. Kept receipt_id key m.receipts) written
            (subst (λ i. Kept receipt_id key (map (consumed i key now) l.receipts)) (sym same)
              (
                rw (has_id-consumed receipt_id receipt_id key now l.receipts) present,
                All-consumed receipt_id key now l.receipts,
              ))
      | inr (old, taken) ↦
          let kept : l ≡ l' = ground arith in
          let owner : row.consumed_idempotency_key ≡ some key = grind (arith, str_eq_iff) in
          subst (λ m. Kept receipt_id key m.receipts) kept
            (present, first-HasKey _ receipt_id key l.receipts d found named owner)
    ]

-- A receipt that an action consumed under one idempotency key is refused to every other key, for
-- ever: when two consumptions of it return, with any calls of any operators between them, their
-- keys are the same.
pub consumed_by_one_key :
    (hash : String → String) (receipt_id key key' : String) (now now' : ℕ)
    (context context' : OperatorContext) (run_id run_id' : Option String)
    (plan_hash plan_hash' policy policy' : String) (actual actual' : ApprovedTotals)
    {receipt receipt' : ApprovalReceipt} {l l1 l2 l3 : Ledger}
    → Reach hash empty l
    → consume_for_execution now context receipt_id key run_id plan_hash policy actual l
      ≡ ok (receipt, l1)
    → Reach hash l1 l2
    → consume_for_execution now' context' receipt_id key' run_id' plan_hash' policy' actual' l2
      ≡ ok (receipt', l3)
    → key ≡ key'
unfolding receipt_for_operator
consumed_by_one_key hash receipt_id key key' now now' context context' run_id run_id' plan_hash
      plan_hash' policy policy' actual actual' {l = l} {l1 = l1} {l2 = l2} reach h between h' =
    let kept =
      consume-Kept now context receipt_id key run_id plan_hash policy actual l
        (Reach-Distinct hash reach) h in
    let still =
      Reach-Invariant hash (λ m. Kept receipt_id key m.receipts) (Step-Kept hash receipt_id key)
        between kept in
    let (row, found, free, result) =
      consume-row now' context' receipt_id key' run_id' plan_hash' policy' actual' l2 h' in
    let (named, org, operator, present) = found-row receipt_id context' l2 found in
    let owner = first-All (HasKey receipt_id key) _ l2.receipts still.1 found named in
    grind (arith, str_eq_iff)
