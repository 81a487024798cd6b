-- ===== src/Approval/Requires.antt =====
-- approval/service.py: what an answer to a challenge needs, and what it leaves behind.
use civitas.Prelude.{
  ℕ, ◌<◌, ◌≡◌, refl, sym, ap, ◌∙◌, true, leb-false→lt, none, some, List, ◌∷◌, map, String, str_eq,
  str_eq_iff, inl, inr, arith, ok, Memᴰ, ◌⊎◌, if◌then◌else◌,
}
use civitas.Approval.{
  ApprovalChallengeModel, ChallengeState, OperatorContext, ApprovalReceiptModel, ApprovalReceipt,
  Ledger, first, receipt_contract, receipt_for_challenge, challenge_for_operator, set_state,
}
use civitas.Approval.Service.{approve, check_challenge, new_receipt, is_outstanding}
use civitas.Approval.Rows.{first-holds, first-Mem}
use civitas.Approval.Cases.{add_receipt-fresh, approve-cases}

-- A challenge of the table that this operator may answer with this secret.
pub record IsAnswerable (hash : String → String) (now : ℕ) (context : OperatorContext)
    (challenge_id secret : String) (challenges : List ApprovalChallengeModel)
    (c : ApprovalChallengeModel) : Type 0 where
  pub stored : Memᴰ c challenges
  pub named : c.id ≡ challenge_id
  pub of_organization : c.organization_id ≡ context.organization_id
  pub of_operator : c.operator_id ≡ context.operator_id
  pub outstanding : (c.state ≡ ChallengeState.pending) ⊎ (c.state ≡ ChallengeState.approved)
  pub in_time : now < c.expires_at
  pub shown : c.secret_hash ≡ hash secret

outstanding-state :
    (s : ChallengeState)
    → is_outstanding s ≡ true
    → (s ≡ ChallengeState.pending) ⊎ (s ≡ ChallengeState.approved)
outstanding-state ChallengeState.pending h = inl refl
outstanding-state ChallengeState.approved h = inr refl
outstanding-state ChallengeState.invalidated h = absurd (ground arith)
outstanding-state ChallengeState.expired h = absurd (ground arith)

pub check-IsAnswerable :
    (hash : String → String) (now : ℕ) (context : OperatorContext) (challenge_id secret : String)
    (l : Ledger) (c : ApprovalChallengeModel)
    → challenge_for_operator challenge_id context l ≡ some c
    → check_challenge hash c now secret ≡ ok tt
    → IsAnswerable hash now context challenge_id secret l.challenges c
unfolding check_challenge challenge_for_operator
check-IsAnswerable hash now context challenge_id secret l c found passed =
    let holds = first-holds _ l.challenges found in
    record {
      stored = first-Mem _ l.challenges found;
      named = grind (arith, str_eq_iff);
      of_organization = grind (arith, str_eq_iff);
      of_operator = grind (arith, str_eq_iff);
      outstanding = outstanding-state c.state (ground arith);
      in_time = leb-false→lt c.expires_at now (ground arith);
      shown = grind (arith, str_eq_iff);
    }

-- A receipt for the challenge, given now and not spent.
pub record IsReceiptFor (now : ℕ) (receipt_id : String) (c : ApprovalChallengeModel)
    (row : ApprovalReceiptModel) : Type 0 where
  pub id : row.id ≡ receipt_id
  pub challenge : row.challenge_id ≡ c.id
  pub organization : row.organization_id ≡ c.organization_id
  pub operator : row.operator_id ≡ c.operator_id
  pub run : row.planning_run_id ≡ c.planning_run_id
  pub plan : row.selected_plan_hash ≡ c.selected_plan_hash
  pub policy : row.policy_version ≡ c.policy_version
  pub totals : row.approved_totals ≡ c.approved_totals
  pub given : row.approved_at ≡ now
  pub expires : row.expires_at ≡ c.expires_at
  pub unspent : row.consumed_idempotency_key ≡ none

new_receipt-IsReceiptFor :
    (hash : String → String) (now : ℕ) (receipt_id : String) (c : ApprovalChallengeModel)
    → IsReceiptFor now receipt_id c (new_receipt hash receipt_id c now)
unfolding new_receipt
new_receipt-IsReceiptFor hash now receipt_id c = record {
  id = refl;
  challenge = refl;
  organization = refl;
  operator = refl;
  run = refl;
  plan = refl;
  policy = refl;
  totals = refl;
  given = refl;
  expires = refl;
  unspent = refl;
}

-- What an answer does to the tables: nothing, where the challenge has a receipt; otherwise it adds
-- one, and marks the challenge as approved.
abbrev pub Leaves : ℕ → String → ApprovalChallengeModel → ApprovalReceipt → Ledger → Ledger → Type 0
Leaves now receipt_id c receipt l l' =
    ((row : ApprovalReceiptModel) × (first (λ r. str_eq r.challenge_id c.id) l.receipts ≡ some row)
      × (receipt_contract row ≡ receipt)
      × (l ≡ l'))
    ⊎ ((row : ApprovalReceiptModel) × (first (λ r. str_eq r.challenge_id c.id) l.receipts ≡ none)
        × (receipt_contract row ≡ receipt)
        × IsReceiptFor now receipt_id c row
        × (l'.receipts ≡ row ∷ l.receipts)
        × (l'.challenges
            ≡ map
                (λ x. if str_eq x.id c.id then record x { state = ChallengeState.approved } else x)
                l.challenges))

-- An answer that returns: a challenge with that id is in the table, issued to this operator and
-- this organization; it is pending or approved, it has not expired, and the secret is the one whose
-- digest it carries. If the challenge has a receipt already, its contract comes back and nothing
-- changes; otherwise one unspent receipt, with the challenge's organization, operator, run, plan,
-- policy, totals and expiry, is added, the challenge becomes approved, and no other challenge
-- changes.
pub approve-Requires :
    (hash : String → String) (now : ℕ) (receipt_id : String) (context : OperatorContext)
    (challenge_id secret : String) {receipt : ApprovalReceipt} (l : Ledger) {l' : Ledger}
    → approve hash now receipt_id context challenge_id secret l ≡ ok (receipt, l')
    → (c : ApprovalChallengeModel) × IsAnswerable hash now context challenge_id secret l.challenges
        c
      × Leaves now receipt_id c receipt l l'
unfolding receipt_for_challenge set_state
approve-Requires hash now receipt_id context challenge_id secret {receipt = receipt} l {l' = l'} h =
    let (c, found, passed, outcome) =
      approve-cases hash now receipt_id context challenge_id secret l h in
    (
      c,
      check-IsAnswerable hash now context challenge_id secret l c found passed,
      elim outcome [
        | inl old ↦ inl old
        | inr (m, fresh, written, contract, marked) ↦
            let row = new_receipt hash receipt_id c now in
            let put = add_receipt-fresh row l written in
            let whole = ap (set_state c.id ChallengeState.approved) put.1 ∙ marked in
            inr (
              row,
              fresh,
              contract,
              new_receipt-IsReceiptFor hash now receipt_id c,
              ap (λ x. x.receipts) (sym whole),
              ap (λ x. x.challenges) (sym whole),
            )
      ],
    )
