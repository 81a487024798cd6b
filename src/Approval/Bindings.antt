-- ===== src/Approval/Bindings.antt =====
-- approval/service.py: what an execution that a receipt authorises was approved for.
use civitas.Prelude.{
  ℕ, ◌<◌, ◌≡◌, sym, ◌∙◌, subst, true, false, leb, leb-false→lt, Option, some, String, str_eq_iff,
  arith, ok, ap, Memᴰ,
}
use civitas.Approval.{
  ApprovedTotals, OperatorContext, ApprovalReceiptModel, ApprovalReceipt, Ledger,
  receipt_for_operator, within_limits, receipt_contract,
}
use civitas.Approval.Service.{consume_for_execution}
use civitas.Approval.Rows.{first-Mem, first-All}
use civitas.Approval.Reach.{Reach, Reach-Invariant, empty}
use civitas.Approval.Cases.{found-row, consume-row}
use civitas.Approval.Backing.{Exists, Exists-mono, Backs, Backed, Step-Backed, IsSettled}
use civitas.Approval.Answered.{IsAnswered, StandsFor, Reach-Answered}

-- What a returned consumption has checked of its receipt.
consume-checks :
    (now : ℕ) (context : OperatorContext) (receipt_id key : String) (run_id : Option String)
    (plan_hash policy : String) (actual : ApprovedTotals) {receipt : ApprovalReceipt} (l : Ledger)
    {l' : Ledger} (row : ApprovalReceiptModel)
    → receipt_for_operator receipt_id context l ≡ some row
    → consume_for_execution now context receipt_id key run_id plan_hash policy actual l
      ≡ ok (receipt, l')
    → (leb row.expires_at now ≡ false)
      × (row.selected_plan_hash ≡ plan_hash)
      × (row.policy_version ≡ policy)
      × (within_limits actual row.approved_totals ≡ true)
      × (receipt_contract row ≡ receipt)
unfolding consume_for_execution
consume-checks now context receipt_id key run_id plan_hash policy actual l row found h =
    (ground arith, grind (arith, str_eq_iff), grind (arith, str_eq_iff), ground arith, ground arith)

-- Whatever calls came before, an execution that a receipt pays for is backed by the challenge of
-- that receipt. The receipt is in the ledger under the id that was asked for; its challenge was
-- issued to the operator who asks, and this operator answered it in an earlier call that returned;
-- it is approved, or was withdrawn for another plan; the run of the receipt, the plan and the
-- policy are the challenge's, the totals are within the challenge's, and the challenge has not
-- expired.
pub consumption_was_approved :
    (hash : String → String) (now : ℕ) (context : OperatorContext) (receipt_id key : String)
    (run_id : Option String) (plan_hash policy : String) (actual : ApprovedTotals)
    {receipt : ApprovalReceipt} {l l' : Ledger}
    → Reach hash empty l
    → consume_for_execution now context receipt_id key run_id plan_hash policy actual l
      ≡ ok (receipt, l')
    → (row : ApprovalReceiptModel) × Memᴰ row l.receipts
      × (row.id ≡ receipt_id)
      × (receipt_contract row ≡ receipt)
      × Exists
          (λ c.
            (c.id ≡ row.challenge_id)
            × (c.organization_id ≡ context.organization_id)
            × (c.operator_id ≡ context.operator_id)
            × (c.planning_run_id ≡ receipt.run_id)
            × (c.selected_plan_hash ≡ plan_hash)
            × (c.policy_version ≡ policy)
            × (within_limits actual c.approved_totals ≡ true)
            × (now < c.expires_at)
            × IsSettled c
            × IsAnswered hash l c.id context.organization_id context.operator_id)
          l.challenges
unfolding receipt_for_operator receipt_contract
consumption_was_approved hash now context receipt_id key run_id plan_hash policy actual
      {receipt = receipt} {l = l} reach h =
    let (row, found, free, result) =
      consume-row now context receipt_id key run_id plan_hash policy actual l h in
    let checks =
      consume-checks now context receipt_id key run_id plan_hash policy actual l row found h in
    let (named, org, operator, present) = found-row receipt_id context l found in
    let own_org : row.organization_id ≡ context.organization_id = grind (arith, str_eq_iff) in
    let own : row.operator_id ≡ context.operator_id = grind (arith, str_eq_iff) in
    let contract : receipt_contract row ≡ receipt = checks.4 in
    let answer : IsAnswered hash l row.challenge_id row.organization_id row.operator_id =
      first-All (StandsFor hash l) _ l.receipts (Reach-Answered hash reach) found in
    let backed = Reach-Invariant hash Backed (Step-Backed hash) reach tt in
    (
      row,
      first-Mem _ l.receipts found,
      grind (arith, str_eq_iff),
      contract,
      Exists-mono (Backs row) _
          (λ c k. (
            k.0,
            k.1 ∙ own_org,
            k.2 ∙ own,
            k.3 ∙ ap (λ r. r.run_id) contract,
            k.4 ∙ checks.1,
            k.5 ∙ checks.2,
            subst (λ t. within_limits actual t ≡ true) (sym k.6) checks.3,
            subst (λ x. now < x) (sym k.7) (leb-false→lt row.expires_at now checks.0),
            k.8,
            rw (k.0, ← own_org, ← own) answer,
          ))
          l.challenges (first-All (λ r. Exists (Backs r) l.challenges) _ l.receipts backed found),
    )
