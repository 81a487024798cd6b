-- ===== src/Approval/Tests.antt =====
-- The approval ledger on a small history: a challenge is issued, answered and spent.
use civitas.Prelude.{Memᴰ, ◌<◌, ◌≡◌, refl, true, none, some, [], ◌∷◌, String, ◌<>◌, ok}
use civitas.Approval.{
  ApprovedTotals, OperatorContext, ChallengeState, ApprovalChallengeModel, ApprovalReceiptModel,
  ApprovalReceipt, Ledger, challenge_for_operator, receipt_for_operator, receipt_for_challenge,
  add_challenge, add_receipt, set_state, set_consumed, receipt_contract, within_limits,
}
use civitas.Approval.Service.{issue, approve, check_challenge, new_receipt, consume_for_execution}
use civitas.Approval.Reach.{Reach, here, further, issuing, approving, empty}
use civitas.Approval.SingleUse.{consumed_by_one_key}
use civitas.Approval.Backing.{Exists, IsSettled}
use civitas.Approval.Answered.{IsAnswered}
use civitas.Approval.Bindings.{consumption_was_approved}
use civitas.Approval.Requires.{IsAnswerable, Leaves, approve-Requires}
use civitas.Approval.Answers.{approve_again}

abbrev hash : String → String
hash secret = "digest of " <> secret

abbrev operator : OperatorContext
operator = record {
  organization_id = "org";
  operator_id = "alice";
  authentication_subject = "alice@org";
  authenticated_at = 0;
  roles = [];
  correlation_id = none;
}

abbrev totals : ApprovedTotals
totals = record {
  currency = "EUR";
  maximum_landed_cost = 500;
  maximum_procurement_lines = 2;
  maximum_distribution_lines = 1;
}

abbrev challenge : ApprovalChallengeModel
challenge = record {
  id = "challenge-1";
  organization_id = "org";
  operator_id = "alice";
  planning_run_id = "run-1";
  selected_plan_hash = "plan-hash";
  policy_version = "v1";
  approved_totals = totals;
  secret_hash = "digest of secret";
  issued_at = 10;
  expires_at = 110;
  state = ChallengeState.pending;
  invalidated_at = none;
  invalidation_reason = none;
}

abbrev issued : Ledger
issued = record { challenges = challenge ∷ []; receipts = [] }

abbrev receipt : ApprovalReceiptModel
receipt = record {
  id = "receipt-1";
  challenge_id = "challenge-1";
  organization_id = "org";
  operator_id = "alice";
  planning_run_id = "run-1";
  selected_plan_hash = "plan-hash";
  policy_version = "v1";
  approved_totals = totals;
  approved_at = 20;
  expires_at = 110;
  consumed_at = none;
  consumed_idempotency_key = none;
}

abbrev contract : ApprovalReceipt
contract = record {
  receipt_id = "receipt-1";
  organization_id = "org";
  operator_id = "alice";
  run_id = "run-1";
  selected_plan_hash = "plan-hash";
  policy_version = "v1";
  approved_totals = totals;
  approved_at = 20;
  expires_at = 110;
}

abbrev answered : Ledger
answered = record {
  challenges = record challenge { state = ChallengeState.approved } ∷ [];
  receipts = receipt ∷ [];
}

abbrev spent : Ledger
spent = record {
  challenges = record challenge { state = ChallengeState.approved } ∷ [];
  receipts = record receipt { consumed_idempotency_key = some "key-1"; consumed_at = some 30 } ∷ [];
}

issues :
    issue hash 100 10 "challenge-1" "secret" operator "run-1" "plan-hash" "v1" totals empty
    ≡ ok (challenge, issued)
unfolding issue add_challenge
issues = refl

answers :
    approve hash 20 "receipt-1" operator "challenge-1" "secret" issued ≡ ok (contract, answered)
unfolding approve challenge_for_operator receipt_for_challenge check_challenge new_receipt
    add_receipt set_state receipt_contract
answers = refl

answers_again :
    approve hash 40 "receipt-2" operator "challenge-1" "secret" answered ≡ ok (contract, answered)
unfolding approve challenge_for_operator receipt_for_challenge check_challenge receipt_contract
answers_again = refl

spends :
    consume_for_execution 30 operator "receipt-1" "key-1"
      (some "run-1")
      "plan-hash"
      "v1"
      totals
      answered
    ≡ ok (contract, spent)
unfolding consume_for_execution receipt_for_operator within_limits set_consumed receipt_contract
spends = refl

spends_again :
    consume_for_execution 50 operator "receipt-1" "key-1" none "plan-hash" "v1" totals spent
    ≡ ok (contract, spent)
unfolding consume_for_execution receipt_for_operator within_limits receipt_contract
spends_again = refl

history : Reach hash empty answered
history =
    further
      (further here
        (issuing 100 10 "challenge-1" "secret" operator "run-1" "plan-hash" "v1" totals issues))
      (approving 20 "receipt-1" operator "challenge-1" "secret" answers)

abbrev key : String
key = "key-1"

consumed_by_one_key_example : key ≡ key
consumed_by_one_key_example =
    consumed_by_one_key hash "receipt-1" "key-1" "key-1" 30 50 operator operator (some "run-1") none
      "plan-hash" "plan-hash" "v1" "v1" totals totals history spends here spends_again

consumption_was_approved_example :
    (row : ApprovalReceiptModel) × Memᴰ row answered.receipts
    × (row.id ≡ "receipt-1")
    × (receipt_contract row ≡ contract)
    × Exists
        (λ c.
          (c.id ≡ row.challenge_id)
          × (c.organization_id ≡ "org")
          × (c.operator_id ≡ "alice")
          × (c.planning_run_id ≡ "run-1")
          × (c.selected_plan_hash ≡ "plan-hash")
          × (c.policy_version ≡ "v1")
          × (within_limits totals c.approved_totals ≡ true)
          × (30 < c.expires_at)
          × IsSettled c
          × IsAnswered hash answered c.id "org" "alice")
        answered.challenges
consumption_was_approved_example =
    consumption_was_approved hash 30 operator "receipt-1" "key-1" (some "run-1") "plan-hash" "v1"
      totals history spends

approve-Requires_example :
    (c : ApprovalChallengeModel) × IsAnswerable hash 20 operator "challenge-1" "secret"
      issued.challenges c
    × Leaves 20 "receipt-1" c contract issued answered
approve-Requires_example =
    approve-Requires hash 20 "receipt-1" operator "challenge-1" "secret" issued answers

approve_again_example : (contract ≡ contract) × (answered ≡ answered)
approve_again_example =
    approve_again hash 20 40 "receipt-1" "receipt-2" operator operator "challenge-1" "secret"
      "secret" issued answers here answers_again
