-- ===== src/Execution/Guarded/Revalidated.antt =====
-- execution/guarded.py: the stages before the reservations, taken apart.
use civitas.Prelude.{
  is_empty, ℕ, ◌≡◌, ap, ◌∙◌, false, Bool-cases, Result-cases, inl, inr, List, [], ◌∷◌, ◌++◌, map,
  unique, String, ◌<>◌, pos, leb_ℤ, ok, ◌>>=◌, arith, if◌then◌else◌,
}
use civitas.Contracts.{CandidatePlan}
use civitas.Approval.{Ledger}
use civitas.Execution.{ExecutionState, ExecutionRequest}
use civitas.Execution.Guarded.{PlanningRunModel, Database, RefreshBundle, GuardedExecutionOutcome}
use civitas.Execution.Guarded.Readiness.{
  assess_readiness, blocked, ready, rerun_jury, stale_claim_ids, assess_procurement,
  assess_distribution, approved_total, is_approved, state_value, reason_value,
}
use civitas.Execution.Guarded.Ports.{Configuration, Call, Ports}
use civitas.Execution.Guarded.Service.{is_execute, revalidate}
use civitas.Execution.Guarded.Approvals.{consume_approval, check_connection}

module _ (configuration : Configuration) (ports : Ports) (call : Call) (run : PlanningRunModel)
    (plan : CandidatePlan) (db : Database) where
  -- What stood behind a readiness.
  pub revalidate-parts :
      (approvals : Ledger) (readiness : GuardedExecutionOutcome)
      → revalidate configuration ports call run plan db ≡ ok (approvals, readiness)
      → (consume_approval configuration ports call run plan db.approvals ≡ ok approvals)
        × (check_connection configuration call plan ≡ ok tt)
        × (refresh : RefreshBundle) × (ports.refresh ≡ ok refresh)
        × (assess_readiness configuration.sources configuration.freshness configuration.policy
              call.request plan refresh
              (ports.new_id "jury")
              ports.assessed_at
            ≡ ok readiness)
  unfolding revalidate
  revalidate-parts approvals readiness h =
      elim (Result-cases (consume_approval configuration ports call run plan db.approvals)) [
        | inl (e, bad) ↦ absurd (ground arith)
        | inr (ledger, consumed) ↦ elim (Result-cases (check_connection configuration call plan)) [
          | inl (e, bad) ↦ absurd (ground arith)
          | inr (t, bound) ↦ elim (Result-cases ports.refresh) [
            | inl (e, bad) ↦ absurd (ground arith)
            | inr (refresh, refreshed) ↦
                elim (Result-cases (
                  assess_readiness configuration.sources configuration.freshness
                    configuration.policy call.request plan refresh (ports.new_id "jury")
                    ports.assessed_at)) [
                      | inl (e, bad) ↦ absurd (ground arith)
                      | inr (outcome, assessed) ↦
                          let same_ledger : ledger ≡ approvals = ground arith in
                          let same : outcome ≡ readiness = ground arith in
                          (
                            consumed ∙ ap ok same_ledger,
                            bound,
                            refresh,
                            refreshed,
                            assessed ∙ ap ok same,
                          )
                    ]
          ]
        ]
      ]

-- An outcome that does not go on is a failure with no references.
abbrev pub IsFailure : GuardedExecutionOutcome → Type 0
IsFailure outcome =
    (outcome.result.state ≡ ExecutionState.failed) × (outcome.result.external_references ≡ [])

module _ (configuration : Configuration) (request : ExecutionRequest) (plan : CandidatePlan)
    (refresh : RefreshBundle) (evaluation_id : String) (now : ℕ) where
  blocked-IsFailure :
      (failure_code detail decision : String) (reasons required : List String)
      (outcome : GuardedExecutionOutcome)
      → ok (blocked request now failure_code detail decision reasons required) ≡ ok outcome
      → IsFailure outcome
  unfolding blocked
  blocked-IsFailure failure_code detail decision reasons required outcome made =
      (ground (arith, made), ground (arith, made))

  rerun-IsFailure :
      (outcome : GuardedExecutionOutcome)
      → (rerun_jury configuration.sources configuration.freshness configuration.policy request plan
            refresh evaluation_id now
          >>= λ evaluation. ok (
              if is_approved evaluation.state
              then ready request now
              else blocked request now "jury_blocked_execution"
                  "Final integrity rerun did not approve execution."
                  (state_value evaluation.state)
                  (map reason_value evaluation.reason_codes)
                  evaluation.required_investigation))
        ≡ ok outcome
      → is_execute outcome ≡ false
      → IsFailure outcome
  unfolding ready
  rerun-IsFailure outcome h stops =
      elim (Result-cases (
        rerun_jury configuration.sources configuration.freshness configuration.policy request plan
          refresh evaluation_id now)) [
            | inl (e, failed) ↦ absurd (ground arith)
            | inr (evaluation, evaluated) ↦ elim (Bool-cases (is_approved evaluation.state)) [
              | inl approves ↦
                  let made : ready request now ≡ outcome = ground arith in
                  absurd (ground (arith, ap is_execute made, stops))
              | inr other ↦
                  blocked-IsFailure "jury_blocked_execution"
                    "Final integrity rerun did not approve execution."
                    (state_value evaluation.state) (map reason_value evaluation.reason_codes)
                    evaluation.required_investigation outcome (rw (evaluated, other) at h)
            ]
          ]

  pub assess_readiness-IsFailure :
      (outcome : GuardedExecutionOutcome)
      → assess_readiness configuration.sources configuration.freshness configuration.policy request
          plan refresh evaluation_id now
        ≡ ok outcome
      → is_execute outcome ≡ false
      → IsFailure outcome
  unfolding assess_readiness
  assess_readiness-IsFailure outcome h stops =
      let freshness = configuration.freshness in
      let stale = stale_claim_ids now refresh.claims in
      let (changed, total) = assess_procurement now refresh plan.procurement in
      let required = changed ++ assess_distribution refresh plan.distribution in
      elim (Bool-cases (is_empty stale)) [
        | inr old ↦
            blocked-IsFailure "stale_execution_data" "Execution Freshness v1 blocked stale inputs."
              "investigate" ("stale_execution_data" ∷ [])
              (map (λ id. "Refresh execution-critical claim " <> id <> ".") stale) outcome
              (rw old at h)
        | inl current ↦ elim (Bool-cases (is_empty required)) [
          | inr needed ↦
              blocked-IsFailure "plan_changed" "Final refresh changed execution feasibility."
                "investigate" ("plan_changed" ∷ []) (unique required) outcome
                (rw (current, needed) at h)
          | inl unchanged ↦
              elim (Bool-cases (leb_ℤ total (pos (approved_total plan.procurement)))) [
                | inr dear ↦
                    blocked-IsFailure "approved_total_exceeded"
                      "Refreshed total exceeds the approved total." "escalate"
                      ("approved_total_exceeded" ∷ []) [] outcome
                      (rw (current, unchanged, dear) at h)
                | inl cheap ↦ rerun-IsFailure outcome (rw (current, unchanged, cheap) at h) stops
              ]
        ]
      ]
