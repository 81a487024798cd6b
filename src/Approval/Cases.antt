-- ===== src/Approval/Cases.antt =====
-- approval/service.py: what a call that returns went through.
use civitas.Prelude.{
  ℕ, ◌≡◌, true, false, ◌||◌, Bool-cases, Option-cases, Option, none, some, is_some, ◌∷◌, ◌⊎◌,
  Result-cases, String, str_eq, inl, inr, arith, if◌then◌else◌, ok,
}
use civitas.Approval.{
  ApprovalChallengeModel, ChallengeState, ApprovedTotals, OperatorContext, ApprovalReceiptModel,
  ApprovalReceipt, Ledger, receipt_for_operator, set_consumed, add_receipt, receipt_contract,
  receipt_for_challenge, challenge_for_operator, set_state,
}
use civitas.Approval.Service.{
  approve, consume_for_execution, check_challenge, new_receipt, other_key,
}
use civitas.Approval.Rows.{has_id, first-holds, first-any, any_mono}

-- A consumption that returns found a row of the id; it is unconsumed or consumed by this key.
pub consume-row :
    (now : ℕ) (context : OperatorContext) (receipt_id key : String) (run_id : Option String)
    (plan_hash policy : String) (actual : ApprovedTotals) {receipt : ApprovalReceipt} (l : Ledger)
    {l' : Ledger}
    → consume_for_execution now context receipt_id key run_id plan_hash policy actual l
      ≡ ok (receipt, l')
    → (row : ApprovalReceiptModel) × (receipt_for_operator receipt_id context l ≡ some row)
      × (other_key row.consumed_idempotency_key key ≡ false)
      × ((if is_some row.consumed_idempotency_key then l else set_consumed row.id key now l) ≡ l')
unfolding consume_for_execution
consume-row now context receipt_id key run_id plan_hash policy actual l h =
    elim (Option-cases (receipt_for_operator receipt_id context l)) [
      | inl missing ↦ absurd (ground arith)
      | inr (row, found) ↦ (row, found, ground arith, ground arith)
    ]

-- The row that an operator's lookup finds.
pub found-row :
    (receipt_id : String) (context : OperatorContext) (l : Ledger) {row : ApprovalReceiptModel}
    → receipt_for_operator receipt_id context l ≡ some row
    → (str_eq row.id receipt_id ≡ true)
      × (str_eq row.organization_id context.organization_id ≡ true)
      × (str_eq row.operator_id context.operator_id ≡ true)
      × (has_id receipt_id l.receipts ≡ true)
unfolding receipt_for_operator
found-row receipt_id context l {row = row} found =
    let holds = first-holds _ l.receipts found in
    (
      ground arith,
      ground arith,
      ground arith,
      first-any _ (λ r. str_eq r.id receipt_id) l.receipts (λ r e. ground arith) found,
    )

pub add_receipt-fresh :
    (row : ApprovalReceiptModel) (l : Ledger) {l' : Ledger}
    → add_receipt row l ≡ ok l'
    → (has_id row.id l.receipts ≡ false) × (record l { receipts = row ∷ l.receipts } ≡ l')
unfolding add_receipt
add_receipt-fresh row l h = elim (Bool-cases (has_id row.id l.receipts)) [
  | inl taken ↦
      let clash =
        any_mono (λ r. str_eq r.id row.id)
          (λ r. str_eq r.id row.id || str_eq r.challenge_id row.challenge_id) l.receipts
          (λ r e. ground arith) taken in
      absurd (ground arith)
  | inr free ↦ (free, ground arith)
]

-- What an approval that returns went through.
pub approve-cases :
    (hash : String → String) (now : ℕ) (receipt_id : String) (context : OperatorContext)
    (challenge_id secret : String) {receipt : ApprovalReceipt} (l : Ledger) {l' : Ledger}
    → approve hash now receipt_id context challenge_id secret l ≡ ok (receipt, l')
    → (c : ApprovalChallengeModel) × (challenge_for_operator challenge_id context l ≡ some c)
      × (check_challenge hash c now secret ≡ ok tt)
      × (((r : ApprovalReceiptModel) × (receipt_for_challenge c.id l ≡ some r)
            × (receipt_contract r ≡ receipt)
            × (l ≡ l'))
          ⊎ ((m : Ledger) × (receipt_for_challenge c.id l ≡ none)
              × (add_receipt (new_receipt hash receipt_id c now) l ≡ ok m)
              × (receipt_contract (new_receipt hash receipt_id c now) ≡ receipt)
              × (set_state c.id ChallengeState.approved m ≡ l')))
unfolding approve
approve-cases hash now receipt_id context challenge_id secret l h =
    elim (Option-cases (challenge_for_operator challenge_id context l)) [
      | inl missing ↦ absurd (ground arith)
      | inr (c, found) ↦ elim (Result-cases (check_challenge hash c now secret)) [
        | inl (e, refused) ↦ absurd (ground arith)
        | inr (t, passed) ↦ elim (Option-cases (receipt_for_challenge c.id l)) [
          | inr (r, old) ↦ (c, found, passed, inl (r, old, ground arith, ground arith))
          | inl fresh ↦ elim (Result-cases (add_receipt (new_receipt hash receipt_id c now) l)) [
            | inl (e, refused) ↦ absurd (ground arith)
            | inr (m, written) ↦
                (c, found, passed, inr (m, fresh, written, ground arith, ground arith))
          ]
        ]
      ]
    ]
