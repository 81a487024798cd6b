-- ===== src/Approval/Reach.antt =====
-- approval/service.py: the ledgers that sequences of calls lead to. A call that raises changes
-- nothing, so only the calls that return are steps.
use civitas.Prelude.{ℕ, ◌≡◌, Option, [], String, ok}
use civitas.Approval.{
  ApprovedTotals, OperatorContext, ApprovalChallengeModel, ApprovalReceipt, Ledger,
}
use civitas.Approval.Service.{issue, approve, consume_for_execution, invalidate_plan}

abbrev pub empty : Ledger
empty = record { challenges = []; receipts = [] }

module _ (hash : String → String) where
  pub data Step : Ledger → Ledger → Type 0 where
    issuing :
        (ttl now : ℕ) (challenge_id secret : String) (context : OperatorContext)
        (run_id plan_hash policy : String) (totals : ApprovedTotals) {row : ApprovalChallengeModel}
        {l l' : Ledger}
        → issue hash ttl now challenge_id secret context run_id plan_hash policy totals l
          ≡ ok (row, l')
        → Step l l'
    approving :
        (now : ℕ) (receipt_id : String) (context : OperatorContext) (challenge_id secret : String)
        {receipt : ApprovalReceipt} {l l' : Ledger}
        → approve hash now receipt_id context challenge_id secret l ≡ ok (receipt, l')
        → Step l l'
    consuming :
        (now : ℕ) (context : OperatorContext) (receipt_id key : String) (run_id : Option String)
        (plan_hash policy : String) (actual : ApprovedTotals) {receipt : ApprovalReceipt}
        {l l' : Ledger}
        → consume_for_execution now context receipt_id key run_id plan_hash policy actual l
          ≡ ok (receipt, l')
        → Step l l'
    invalidating :
        (now : ℕ) (organization_id run_id plan_hash : String) {l l' : Ledger}
        → (invalidate_plan now organization_id run_id plan_hash l).1 ≡ l'
        → Step l l'

  pub data Reach (l : Ledger) : Ledger → Type 0 where
    here : Reach l l
    further : {l' l'' : Ledger} → Reach l l' → Step l' l'' → Reach l l''

  pub Reach-Invariant :
      (P : Ledger → Type 0)
      → ((l l' : Ledger) → Step l l' → P l → P l')
      → {l l' : Ledger} → Reach l l'
      → P l
      → P l'
  Reach-Invariant P keeps here p = p
  Reach-Invariant P keeps (further r s) p = keeps _ _ s (Reach-Invariant P keeps r p)
