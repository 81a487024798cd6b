-- ===== src/Approval/Answered.antt =====
-- approval/service.py: behind every receipt stands an answer that returned.
use civitas.Prelude.{
  ℕ, ◌≡◌, sym, ap, ◌∙◌, subst, Bool, true, false, Option-cases, List, [], ◌∷◌, map, All, All-mono,
  String, str_eq, some, is_some, inl, inr, arith, if◌then◌else◌, ok,
}
use civitas.Approval.{
  OperatorContext, ApprovalReceiptModel, ApprovalReceipt, Ledger, ChallengeState, ApprovedTotals,
  ApprovalChallengeModel, add_challenge, set_state, set_consumed,
}
use civitas.Approval.Service.{issue, approve, invalidate_plan, new_receipt}
use civitas.Approval.Rows.{consumed}
use civitas.Approval.Reach.{
  Reach, Reach-Invariant, Step, here, further, empty, issuing, approving, consuming, invalidating,
}
use civitas.Approval.Cases.{consume-row, add_receipt-fresh, approve-cases}
use civitas.Approval.Requires.{check-IsAnswerable}

-- Before this ledger the operator answered the challenge, and the answer returned.
pub record IsAnswered (hash : String → String) (l : Ledger)
    (challenge_id organization_id operator_id : String) : Type 0 where
  pub now : ℕ
  pub receipt_id : String
  pub context : OperatorContext
  pub secret : String
  pub receipt : ApprovalReceipt
  pub before : Ledger
  pub after : Ledger
  pub history : Reach hash empty before
  pub answers : approve hash now receipt_id context challenge_id secret before ≡ ok (receipt, after)
  pub since : Reach hash after l
  pub of_organization : context.organization_id ≡ organization_id
  pub of_operator : context.operator_id ≡ operator_id

-- The answer behind a receipt.
abbrev pub StandsFor : (String → String) → Ledger → ApprovalReceiptModel → Type 0
StandsFor hash l r = IsAnswered hash l r.challenge_id r.organization_id r.operator_id

module _ (hash : String → String) where
  abbrev Answered : Ledger → Type 0
  Answered l = Reach hash empty l × All (StandsFor hash l) l.receipts

  StandsFor-later :
      (l l' : Ledger)
      → Step hash l l'
      → (r : ApprovalReceiptModel) → StandsFor hash l r
      → StandsFor hash l' r
  StandsFor-later l l' step r a = record {
    now = a.now;
    receipt_id = a.receipt_id;
    context = a.context;
    secret = a.secret;
    receipt = a.receipt;
    before = a.before;
    after = a.after;
    history = a.history;
    answers = a.answers;
    since = further a.since step;
    of_organization = a.of_organization;
    of_operator = a.of_operator;
  }

  StandsFor-consumed :
      (l : Ledger) (t : Bool) (key : String) (now : ℕ) (r : ApprovalReceiptModel)
      → StandsFor hash l r
      → StandsFor hash l (
          if t then record r { consumed_idempotency_key = some key; consumed_at = some now } else r)
  StandsFor-consumed l false key now r a = a
  StandsFor-consumed l true key now r a = a

  rows_consumed :
      (l : Ledger) (id key : String) (now : ℕ) (rows : List ApprovalReceiptModel)
      → All (StandsFor hash l) rows
      → All (StandsFor hash l) (map (consumed id key now) rows)
  rows_consumed l id key now [] h = tt
  rows_consumed l id key now (r ∷ rs) h =
      (StandsFor-consumed l (str_eq r.id id) key now r h.0, rows_consumed l id key now rs h.1)

  consume-rows :
      (l l' : Ledger) (key : String) (now : ℕ) (row : ApprovalReceiptModel)
      → (if is_some row.consumed_idempotency_key then l else set_consumed row.id key now l) ≡ l'
      → All (StandsFor hash l') l.receipts
      → All (StandsFor hash l') l'.receipts
  unfolding set_consumed
  consume-rows l l' key now row result b = elim (Option-cases row.consumed_idempotency_key) [
    | inl free ↦
        let whole : set_consumed row.id key now l ≡ l' = ground arith in
        subst (λ m. All (StandsFor hash l') m.receipts) whole
          (rows_consumed l' row.id key now l.receipts b)
    | inr (old, taken) ↦
        let whole : l ≡ l' = ground arith in subst (λ m. All (StandsFor hash l') m.receipts) whole b
  ]

  approve-rows :
      (now : ℕ) (receipt_id : String) (context : OperatorContext) (challenge_id secret : String)
      {receipt : ApprovalReceipt} (l l' : Ledger)
      → approve hash now receipt_id context challenge_id secret l ≡ ok (receipt, l')
      → Reach hash empty l
      → All (StandsFor hash l') l.receipts
      → All (StandsFor hash l') l'.receipts
  unfolding set_state new_receipt
  approve-rows now receipt_id context challenge_id secret {receipt = receipt} l l' h reach b =
      let (c, found, passed, outcome) =
        approve-cases hash now receipt_id context challenge_id secret l h in
      let able = check-IsAnswerable hash now context challenge_id secret l c found passed in
      elim outcome [
        | inl (r, old, contract, kept) ↦ subst (λ m. All (StandsFor hash l') m.receipts) kept b
        | inr (m, fresh, written, contract, marked) ↦
            let put = add_receipt-fresh (new_receipt hash receipt_id c now) l written in
            subst (λ m. All (StandsFor hash l') m.receipts)
              (ap (set_state c.id ChallengeState.approved) put.1 ∙ marked)
              (
                record {
                  now = now;
                  receipt_id = receipt_id;
                  context = context;
                  secret = secret;
                  receipt = receipt;
                  before = l;
                  after = l';
                  history = reach;
                  answers =
                      subst (λ i. approve hash now receipt_id context i secret l ≡ ok (receipt, l'))
                        (sym able.named) h;
                  since = here;
                  of_organization = sym able.of_organization;
                  of_operator = sym able.of_operator;
                },
                b,
              )
      ]

  issue-rows :
      (ttl now : ℕ) (challenge_id secret : String) (context : OperatorContext)
      (run_id plan_hash policy : String) (totals : ApprovedTotals) {row : ApprovalChallengeModel}
      (l l' : Ledger)
      → issue hash ttl now challenge_id secret context run_id plan_hash policy totals l
        ≡ ok (row, l')
      → l.receipts ≡ l'.receipts
  unfolding issue add_challenge
  issue-rows ttl now challenge_id secret context run_id plan_hash policy totals l l' h =
      ground arith

  Step-Answered : (l l' : Ledger) → Step hash l l' → Answered l → Answered l'
  unfolding invalidate_plan
  Step-Answered l l' step (reach, b) = (
    further reach step,
    rows l l' step reach (All-mono _ _ (StandsFor-later l l' step) l.receipts b),
  )
    where
      rows :
          (l l' : Ledger)
          → Step hash l l'
          → Reach hash empty l
          → All (StandsFor hash l') l.receipts
          → All (StandsFor hash l') l'.receipts
      rows l l' (issuing ttl now c s x r p v t h) reach b =
          subst (All (StandsFor hash l')) (issue-rows ttl now c s x r p v t l l' h) b
      rows l l' (approving now i x c s h) reach b = approve-rows now i x c s l l' h reach b
      rows l l' (consuming now x i k r p v a h) reach b =
          let spent = consume-row now x i k r p v a l h in consume-rows l l' k now spent.0 spent.3 b
      rows l l' (invalidating now o r p h) reach b =
          subst (λ m. All (StandsFor hash l') m.receipts) h b

  -- Every receipt of a ledger that calls lead to was answered for.
  pub Reach-Answered : {l : Ledger} → Reach hash empty l → All (StandsFor hash l) l.receipts
  Reach-Answered reach = (Reach-Invariant hash Answered Step-Answered reach (here, tt)).1
