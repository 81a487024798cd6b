-- ===== src/Approval/Service.antt =====
-- approval/service.py: ApprovalService. `hash` is the keyed digest of a secret; the new id, the
-- secret and the instant of a call are what the ports answered.
use civitas.Prelude.{
  ℕ, ◌+◌, leb, Bool, true, false, not, ◌&&◌, ◌||◌, Option, none, some, is_some, map, keep, length,
  String, str_eq, Result, ok, raise_if, or_raise, ◌>>=◌, ◌>>◌, invalid_approval, expired_approval,
  changed_plan, replay_approval, if◌then◌else◌,
}
use civitas.Approval.{
  ApprovedTotals, OperatorContext, ChallengeState, ApprovalChallengeModel, ApprovalReceiptModel,
  ApprovalReceipt, Ledger, challenge_for_operator, receipt_for_operator, receipt_for_challenge,
  add_challenge, add_receipt, set_state, set_consumed, receipt_contract, within_limits,
}

abbrev pub is_invalidated : ChallengeState → Bool
is_invalidated ChallengeState.invalidated = true
is_invalidated state = false

-- `state in ("pending", "approved")`
abbrev pub is_outstanding : ChallengeState → Bool
is_outstanding ChallengeState.pending = true
is_outstanding ChallengeState.approved = true
is_outstanding state = false

module _ (hash : String → String) where
  unfoldable pub issue :
      (ttl now : ℕ) (challenge_id secret : String)
      → OperatorContext
      → (run_id selected_plan_hash policy_version : String) → ApprovedTotals
      → Ledger
      → Result (ApprovalChallengeModel × Ledger)
  unfolding add_challenge
  issue ttl now challenge_id secret context run_id selected_plan_hash policy_version approved_totals
        ledger =
      let row : ApprovalChallengeModel = record {
        id = challenge_id;
        organization_id = context.organization_id;
        operator_id = context.operator_id;
        planning_run_id = run_id;
        selected_plan_hash = selected_plan_hash;
        policy_version = policy_version;
        approved_totals = approved_totals;
        secret_hash = hash secret;
        issued_at = now;
        expires_at = now + ttl;
        state = ChallengeState.pending;
        invalidated_at = none;
        invalidation_reason = none;
      } in
      add_challenge row ledger >>= λ ledger'. ok (row, ledger')

  -- `_check_challenge`; its assignment of `expired` is undone with the transaction.
  unfoldable pub check_challenge : ApprovalChallengeModel → ℕ → String → Result (Unit {0})
  check_challenge challenge now secret = do
    raise_if (is_invalidated challenge.state)
        (changed_plan "approval challenge was invalidated by a material plan change")
    raise_if (leb challenge.expires_at now) (expired_approval "approval challenge has expired")
    raise_if
        (not (is_outstanding challenge.state) || not (str_eq challenge.secret_hash (hash secret)))
        (invalid_approval "approval challenge is invalid")
    ok tt

  -- The receipt of a challenge that is approved now.
  unfoldable pub new_receipt : String → ApprovalChallengeModel → ℕ → ApprovalReceiptModel
  new_receipt receipt_id challenge now = record {
    id = receipt_id;
    challenge_id = challenge.id;
    organization_id = challenge.organization_id;
    operator_id = challenge.operator_id;
    planning_run_id = challenge.planning_run_id;
    selected_plan_hash = challenge.selected_plan_hash;
    policy_version = challenge.policy_version;
    approved_totals = challenge.approved_totals;
    approved_at = now;
    expires_at = challenge.expires_at;
    consumed_at = none;
    consumed_idempotency_key = none;
  }

  unfoldable pub approve :
      (now : ℕ) (receipt_id : String)
      → OperatorContext
      → (challenge_id secret : String) → Ledger
      → Result (ApprovalReceipt × Ledger)
  unfolding challenge_for_operator receipt_for_challenge check_challenge new_receipt add_receipt
      set_state receipt_contract
  approve now receipt_id context challenge_id secret ledger = do
    challenge ←
        or_raise (challenge_for_operator challenge_id context ledger)
          (invalid_approval "approval challenge was not found for this operator")
    check_challenge challenge now secret
    elim (receipt_for_challenge challenge.id ledger) [
      | some receipt ↦ ok (receipt_contract receipt, ledger)
      | none ↦ add_receipt (new_receipt receipt_id challenge now) ledger >>= λ ledger'. ok (
        receipt_contract (new_receipt receipt_id challenge now),
        set_state challenge.id ChallengeState.approved ledger',
      )
    ]

-- `run_id is not None and receipt.planning_run_id != run_id`
abbrev pub other_run : Option String → String → Bool
other_run none planning_run_id = false
other_run (some run_id) planning_run_id = not (str_eq planning_run_id run_id)

-- `consumed_idempotency_key not in (None, key)`
abbrev pub other_key : Option String → String → Bool
other_key none key = false
other_key (some consumed) key = not (str_eq consumed key)

-- `consume_for_execution_in_session`
unfoldable pub consume_for_execution :
    (now : ℕ)
    → OperatorContext
    → (receipt_id idempotency_key : String) → Option String
    → (selected_plan_hash policy_version : String) → ApprovedTotals
    → Ledger
    → Result (ApprovalReceipt × Ledger)
unfolding receipt_for_operator within_limits set_consumed receipt_contract
consume_for_execution now context receipt_id idempotency_key run_id selected_plan_hash
      policy_version actual_totals ledger =
    do
      receipt ←
          or_raise (receipt_for_operator receipt_id context ledger)
            (invalid_approval "approval receipt was not found for this operator")
      raise_if (leb receipt.expires_at now) (expired_approval "approval receipt has expired")
      raise_if (other_run run_id receipt.planning_run_id)
          (changed_plan "approval receipt is not bound to the planning run")
      raise_if
          (not (str_eq receipt.selected_plan_hash selected_plan_hash)
            || not (str_eq receipt.policy_version policy_version))
          (changed_plan "approval receipt is not bound to the current plan and policy")
      raise_if (not (within_limits actual_totals receipt.approved_totals))
          (invalid_approval "execution totals exceed approved limits")
      raise_if (other_key receipt.consumed_idempotency_key idempotency_key)
          (replay_approval "approval receipt was already consumed by another action")
      ok (
        receipt_contract receipt,
        (if is_some receipt.consumed_idempotency_key
            then ledger
            else set_consumed receipt.id idempotency_key now ledger),
      )

-- Whether the update of `invalidate_plan` takes the row.
unfoldable pub is_superseded :
    (organization_id run_id selected_plan_hash : String) → ApprovalChallengeModel → Bool
is_superseded organization_id run_id selected_plan_hash c =
    str_eq c.organization_id organization_id
    && str_eq c.planning_run_id run_id
    && not (str_eq c.selected_plan_hash selected_plan_hash)
    && is_outstanding c.state

unfoldable pub invalidate_plan :
    (now : ℕ) (organization_id run_id selected_plan_hash : String) → Ledger → ℕ × Ledger
unfolding is_superseded
invalidate_plan now organization_id run_id selected_plan_hash ledger =
    let taken = is_superseded organization_id run_id selected_plan_hash in
    (
      length (keep taken ledger.challenges),
      record ledger {
        challenges =
            map
              (λ c.
                if taken c
                then record c {
                  state = ChallengeState.invalidated;
                  invalidated_at = some now;
                  invalidation_reason = some "selected_plan_changed";
                }
                else c)
              ledger.challenges;
      },
    )
