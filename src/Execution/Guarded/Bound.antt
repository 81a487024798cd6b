-- ===== src/Execution/Guarded/Bound.antt =====
-- execution/guarded.py: what the approval and the provider connection of a call have been checked
-- for.
use civitas.Prelude.{
  ◌≡◌, true, false, Bool-cases, Option-cases, Result-cases, inl, inr, ◌⊎◌, none, some, String,
  str_eq_iff, arith, ok,
}
use civitas.Contracts.{CandidatePlan}
use civitas.Approval.{OperatorContext, ApprovalReceipt, Ledger}
use civitas.Approval.Service.{consume_for_execution}
use civitas.Execution.Guarded.{PlanningRunModel}
use civitas.Execution.Guarded.Ports.{
  Configuration, Call, Connection, ExecutionProviderContext, Ports,
}
use civitas.Execution.Guarded.Approvals.{
  approved_totals, consume_approval, ensure_connection_binding, check_connection,
}

module _ (configuration : Configuration) (ports : Ports) (call : Call) (run : PlanningRunModel)
    (plan : CandidatePlan) (before after : Ledger) where
  -- The service needs no approval; or the operator's receipt was consumed for this key, run, plan,
  -- policy and totals, and the caller gave a connection.
  abbrev pub IsPaid : Type 0
  IsPaid =
      ((configuration.requires_approval ≡ false) × (after ≡ before))
      ⊎ ((context : OperatorContext) × (receipt_id : String) × (connection : Connection)
          × (receipt : ApprovalReceipt) × (configuration.requires_approval ≡ true)
          × (call.context ≡ some context)
          × (call.approval_receipt_id ≡ some receipt_id)
          × (call.write_mcp ≡ some connection)
          × (consume_for_execution ports.consumed_at context receipt_id call.request.idempotency_key
                (some run.id) (configuration.selected_plan_hash plan)
                call.request.approval_policy_version (approved_totals ports.show plan) before
              ≡ ok (receipt, after)))

  pub consume_approval-IsPaid :
      consume_approval configuration ports call run plan before ≡ ok after → IsPaid
  unfolding consume_approval
  consume_approval-IsPaid h = elim (Bool-cases configuration.requires_approval) [
    | inr free ↦ inl (free, ground arith)
    | inl needed ↦ elim (Option-cases call.context) [
      | inl missing ↦ absurd (ground arith)
      | inr (context, given) ↦ elim (Option-cases call.approval_receipt_id) [
        | inl missing ↦ absurd (ground arith)
        | inr (receipt_id, named) ↦ elim (Option-cases call.write_mcp) [
          | inl missing ↦ absurd (ground arith)
          | inr (connection, connected) ↦
              elim (Result-cases (
                consume_for_execution ports.consumed_at context receipt_id
                  call.request.idempotency_key (some run.id) (configuration.selected_plan_hash plan)
                  call.request.approval_policy_version (approved_totals ports.show plan) before)) [
                    | inl (e, refused) ↦ absurd (ground arith)
                    | inr ((receipt, ledger), spent) ↦ inr (
                      context,
                      receipt_id,
                      connection,
                      receipt,
                      needed,
                      given,
                      named,
                      connected,
                      ground arith,
                    )
                  ]
        ]
      ]
    ]
  ]

-- The caller gave no connection; or the one that it gave is bound to this execution, this receipt
-- and this plan.
abbrev pub IsBound : Configuration → Call → CandidatePlan → Type 0
IsBound configuration call plan =
    (call.write_mcp ≡ none)
    ⊎ ((connection : Connection) × (binding : ExecutionProviderContext) × (call.write_mcp
          ≡ some connection)
        × (connection.execution_context ≡ some binding)
        × (binding.execution_id ≡ call.request.execution_id)
        × (call.approval_receipt_id ≡ some binding.approval_receipt_id)
        × (binding.approved_plan_hash ≡ configuration.selected_plan_hash plan))

pub check_connection-IsBound :
    (configuration : Configuration) (call : Call) (plan : CandidatePlan)
    → check_connection configuration call plan ≡ ok tt
    → IsBound configuration call plan
unfolding check_connection ensure_connection_binding
check_connection-IsBound configuration call plan h = elim (Option-cases call.write_mcp) [
  | inl absent ↦ inl absent
  | inr (connection, given) ↦ elim (Option-cases connection.execution_context) [
    | inl unbound ↦ absurd (ground arith)
    | inr (binding, bound) ↦ elim (Option-cases call.approval_receipt_id) [
      | inl missing ↦ absurd (ground arith)
      | inr (receipt_id, named) ↦
          let same : binding.approval_receipt_id ≡ receipt_id =
            ground (arith, str_eq_iff binding.approval_receipt_id receipt_id) in
          inr (
            connection,
            binding,
            given,
            bound,
            ground (arith, str_eq_iff binding.execution_id call.request.execution_id),
            ground arith,
            ground (
              arith,
              str_eq_iff binding.approved_plan_hash (configuration.selected_plan_hash plan),
            ),
          )
    ]
  ]
]
