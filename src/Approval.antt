-- ===== src/Approval.antt =====
-- approval/service.py, persistence/repositories.py (ApprovalRepository) and the two approval tables
-- of persistence/models.py. A method runs in one transaction on locked rows: it is one step, and a
-- raised error leaves the tables as they were.
pub mod Service
mod Rows
mod Cases
pub mod Reach
pub mod SingleUse
pub mod Requires
mod Backing
mod Answered
pub mod Bindings
pub mod Answers
mod Tests
use civitas.Prelude.{
  ℕ, ◌+◌, ltb, leb, Bool, true, false, not, ◌&&◌, ◌||◌, Option, none, some, is_some, List, [], ◌∷◌,
  map, any, String, str_eq, Result, ok, raise, raise_if, or_raise, ◌>>=◌, ◌>>◌, Error,
  runtime_error, invalid_approval, expired_approval, changed_plan, replay_approval, if◌then◌else◌,
}

-- Costs are whole ten-thousandths of the currency unit.
pub record ApprovedTotals : Type 0 where
  pub currency : String
  pub maximum_landed_cost : ℕ
  pub maximum_procurement_lines : ℕ
  pub maximum_distribution_lines : ℕ

pub record OperatorContext : Type 0 where
  pub organization_id : String
  pub operator_id : String
  pub authentication_subject : String
  pub authenticated_at : ℕ
  pub roles : List String
  pub correlation_id : Option String

pub data ChallengeState : Type 0 where
  pending approved invalidated expired : ChallengeState

pub record ApprovalChallengeModel : Type 0 where
  pub id : String
  pub organization_id : String
  pub operator_id : String
  pub planning_run_id : String
  pub selected_plan_hash : String
  pub policy_version : String
  pub approved_totals : ApprovedTotals
  pub secret_hash : String
  pub issued_at : ℕ
  pub expires_at : ℕ
  pub state : ChallengeState
  pub invalidated_at : Option ℕ
  pub invalidation_reason : Option String

pub record ApprovalReceiptModel : Type 0 where
  pub id : String
  pub challenge_id : String
  pub organization_id : String
  pub operator_id : String
  pub planning_run_id : String
  pub selected_plan_hash : String
  pub policy_version : String
  pub approved_totals : ApprovedTotals
  pub approved_at : ℕ
  pub expires_at : ℕ
  pub consumed_at : Option ℕ
  pub consumed_idempotency_key : Option String

-- The contract returned to the caller.
pub record ApprovalReceipt : Type 0 where
  pub receipt_id : String
  pub organization_id : String
  pub operator_id : String
  pub run_id : String
  pub selected_plan_hash : String
  pub policy_version : String
  pub approved_totals : ApprovedTotals
  pub approved_at : ℕ
  pub expires_at : ℕ

pub record Ledger : Type 0 where
  pub challenges : List ApprovalChallengeModel
  pub receipts : List ApprovalReceiptModel

-- `select … where …`: the first row of which the condition holds.
abbrev pub first {ℓ} : {A : Type ℓ} → (A → Bool) → List A → Option A
first p [] = none
first p (x ∷ xs) = if p x then some x else first p xs

-- `challenge_for_operator_for_update`
unfoldable pub challenge_for_operator :
    String → OperatorContext → Ledger → Option ApprovalChallengeModel
challenge_for_operator challenge_id context ledger =
    first
      (λ c.
        str_eq c.id challenge_id
        && str_eq c.organization_id context.organization_id
        && str_eq c.operator_id context.operator_id)
      ledger.challenges

-- `receipt_for_operator_for_update`
unfoldable pub receipt_for_operator :
    String → OperatorContext → Ledger → Option ApprovalReceiptModel
receipt_for_operator receipt_id context ledger =
    first
      (λ r.
        str_eq r.id receipt_id
        && str_eq r.organization_id context.organization_id
        && str_eq r.operator_id context.operator_id)
      ledger.receipts

-- `receipt_for_challenge_for_update`
unfoldable pub receipt_for_challenge : String → Ledger → Option ApprovalReceiptModel
receipt_for_challenge challenge_id ledger =
    first (λ r. str_eq r.challenge_id challenge_id) ledger.receipts

-- `session.add`, with the tables' primary keys, unique constraint and expiry checks.
unfoldable pub add_challenge : ApprovalChallengeModel → Ledger → Result Ledger
add_challenge row ledger = do
  raise_if (any (λ c. str_eq c.id row.id) ledger.challenges || leb row.expires_at row.issued_at)
      (runtime_error "IntegrityError")
  ok (record ledger { challenges = row ∷ ledger.challenges })

unfoldable pub add_receipt : ApprovalReceiptModel → Ledger → Result Ledger
add_receipt row ledger = do
  raise_if
      (any (λ r. str_eq r.id row.id || str_eq r.challenge_id row.challenge_id) ledger.receipts
        || leb row.expires_at row.approved_at)
      (runtime_error "IntegrityError")
  ok (record ledger { receipts = row ∷ ledger.receipts })

-- `challenge.state = …` on the row of an id
unfoldable pub set_state : String → ChallengeState → Ledger → Ledger
set_state id state ledger = record ledger {
  challenges =
      map (λ c. if str_eq c.id id then record c { state = state } else c) ledger.challenges;
}

-- `receipt.consumed_idempotency_key = …; receipt.consumed_at = …` on the row of an id
unfoldable pub set_consumed : String → String → ℕ → Ledger → Ledger
set_consumed id key now ledger = record ledger {
  receipts =
      map
        (λ r.
          if str_eq r.id id
          then record r { consumed_idempotency_key = some key; consumed_at = some now }
          else r)
        ledger.receipts;
}

-- `_receipt_contract`
unfoldable pub receipt_contract : ApprovalReceiptModel → ApprovalReceipt
receipt_contract row = record {
  receipt_id = row.id;
  organization_id = row.organization_id;
  operator_id = row.operator_id;
  run_id = row.planning_run_id;
  selected_plan_hash = row.selected_plan_hash;
  policy_version = row.policy_version;
  approved_totals = row.approved_totals;
  approved_at = row.approved_at;
  expires_at = row.expires_at;
}

-- `_within_limits`
unfoldable pub within_limits : ApprovedTotals → ApprovedTotals → Bool
within_limits actual limits =
    str_eq actual.currency limits.currency
    && leb actual.maximum_landed_cost limits.maximum_landed_cost
    && leb actual.maximum_procurement_lines limits.maximum_procurement_lines
    && leb actual.maximum_distribution_lines limits.maximum_distribution_lines
