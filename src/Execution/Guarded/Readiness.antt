-- ===== src/Execution/Guarded/Readiness.antt =====
-- execution/guarded.py: GuardedExecutionService._assess_readiness. A constraint and a price are
-- whole numbers, also negative ones; a lead time is in days.
use civitas.Prelude.{
  is_empty, times, ℕ, ◌+◌, ◌*◌, max, ltb, Bool, true, false, none, some, List, [], ◌∷◌, ◌++◌, map,
  length, String, ◌<>◌, Dict, lookup, unique, ℤ, pos, negsuc, ◌+ℤ◌, leb_ℤ, not, Result, ok, ◌>>=◌,
  if◌then◌else◌,
}
use civitas.Contracts.{
  CandidatePlan, ProcurementLine, DistributionLine, JuryState, JuryEvaluation, ReasonCode,
  TypedClaim, valid_at, valid_during,
}
use civitas.Evidence.Dissent.{
  DissentReport, make_plan, record_plan, record_fresh_retrieval, compare_with_existing_graph,
}
use civitas.Evidence.Jury.{IntegrityPolicy}
use civitas.Evidence.Jury.Integrity.{Sources, Freshness}
use civitas.Evidence.Jury.Evaluation.{evaluate}
use civitas.Execution.{ExecutionState, ExecutionRequest}
use civitas.Execution.Guarded.{RefreshBundle, GuardedExecutionOutcome}

abbrev pub minutes : ℕ → ℕ
minutes n = n * 60000000

abbrev pub hours : ℕ → ℕ
hours n = minutes (n * 60)

-- `IntegrityPolicyV1()`, whose times to live `_ttl_for` reads whatever policy the Jury has.
abbrev pub default_freshness : Freshness
default_freshness = record {
  freshness_ttls =
      ("inventory_balance", minutes 2)
      ∷ ("inventory_reservation", minutes 2)
      ∷ ("warehouse_capacity", minutes 2)
      ∷ ("supplier_availability", minutes 10)
      ∷ ("supplier_capacity", minutes 10)
      ∷ ("lead_time", minutes 10)
      ∷ ("delivery_window", minutes 10)
      ∷ ("unit_price", minutes 10)
      ∷ ("transport_capacity", minutes 10)
      ∷ ("demand_forecast", hours 6)
      ∷ ("shelf_life", hours 24)
      ∷ ("organization_policy", 0)
      ∷ [];
  default_freshness_ttl = hours 24;
}

-- `_ttl_for`
unfoldable pub ttl_for : String → ℕ
ttl_for predicate = elim (lookup predicate default_freshness.freshness_ttls) [
  | none ↦ default_freshness.default_freshness_ttl
  | some ttl ↦ ttl
]

unfoldable pub is_stale : ℕ → TypedClaim → Bool
unfolding ttl_for
is_stale now claim = elim claim.validity [
  | valid_at instant ↦ ltb (instant + ttl_for claim.predicate) now
  | valid_during starts_at ends_at ↦ false
]

unfoldable pub stale_claim_ids : ℕ → List TypedClaim → List String
unfolding is_stale
stale_claim_ids now [] = []
stale_claim_ids now (claim ∷ claims) =
    let rest = stale_claim_ids now claims in
    if is_stale now claim then claim.claim_id ∷ rest else rest

-- `_offer_key` of a line, and `_transport_key_from_line`.
abbrev pub offer_key : ProcurementLine → String
offer_key line = line.supplier_id <> ":" <> line.sku_id <> ":" <> line.destination_warehouse_id

abbrev pub transport_key_from_line : DistributionLine → String
transport_key_from_line line =
    line.source_warehouse_id <> ":" <> line.destination_warehouse_id <> ":" <> line.sku_id

-- `constraints.get(key, Decimal("0"))`
abbrev pub constraint_or_zero : Dict ℤ → String → ℤ
constraint_or_zero constraints key = elim (lookup key constraints) [ none ↦ pos 0 | some z ↦ z ]

-- `timedelta(days=1)`
abbrev pub day : ℕ
day = 86400000000

-- `lead_days < 0 or now + timedelta(days=float(lead_days)) > arrival_bucket_start`
abbrev pub arrives_late : ℕ → ℤ → ℕ → Bool
arrives_late now (negsuc days) arrival = true
arrives_late now (pos days) arrival = ltb arrival (now + days * day)

-- One line: what the plan needs because of it, and what it costs at the observed price.
unfoldable pub assess_line : ℕ → RefreshBundle → ProcurementLine → List String × ℤ
assess_line now refresh line =
    let key = offer_key line in
    let regenerate : List String × ℤ =
      (("Regenerate solver plan for supplier offer " <> key <> ".") ∷ [], pos 0) in
    elim (lookup key refresh.observed_unit_prices) [
      | none ↦ regenerate
      | some unit_price ↦
          if not (
            leb_ℤ (pos line.quantity.value)
              (constraint_or_zero refresh.constraints ("offer:" <> key <> ":available")))
          then regenerate
          else elim (lookup ("lead:" <> key <> ":days") refresh.constraints) [
            | none ↦ regenerate
            | some lead_days ↦
                if arrives_late now lead_days line.arrival_bucket_start
                then (("Regenerate solver plan for supplier lead time " <> key <> ".") ∷ [], pos 0)
                else ([], times unit_price line.quantity.value)
          ]
    ]

unfoldable pub assess_procurement : ℕ → RefreshBundle → List ProcurementLine → List String × ℤ
unfolding assess_line
assess_procurement now refresh [] = ([], pos 0)
assess_procurement now refresh (line ∷ lines) =
    let (required, cost) = assess_line now refresh line in
    let (more, rest) = assess_procurement now refresh lines in (required ++ more, cost +ℤ rest)

unfoldable pub assess_distribution : RefreshBundle → List DistributionLine → List String
assess_distribution refresh [] = []
assess_distribution refresh (line ∷ lines) =
    let warehouse_key = "warehouse:" <> line.destination_warehouse_id <> ":" <> line.sku_id in
    let transport_key = "transport:" <> transport_key_from_line line in
    let fits = λ (key : String).
      leb_ℤ (pos line.quantity.value) (constraint_or_zero refresh.constraints key) in
    (if fits warehouse_key
      then []
      else ("Regenerate solver plan for warehouse capacity " <> warehouse_key <> ".") ∷ [])
    ++ (if fits transport_key
        then []
        else ("Regenerate solver plan for transport lane " <> transport_key <> ".") ∷ [])
    ++ assess_distribution refresh lines

unfoldable pub approved_total : List ProcurementLine → ℕ
approved_total [] = 0
approved_total (line ∷ lines) = line.landed_cost + approved_total lines

-- `.value` of the two enumerations
abbrev pub state_value : JuryState → String
state_value JuryState.approve = "approve"
state_value JuryState.investigate = "investigate"
state_value JuryState.escalate = "escalate"
state_value JuryState.reject = "reject"

abbrev pub reason_value : ReasonCode → String
reason_value ReasonCode.solver_infeasible = "SOLVER_INFEASIBLE"
reason_value ReasonCode.hard_constraint_violation = "HARD_CONSTRAINT_VIOLATION"
reason_value ReasonCode.critical_contradiction_unresolved = "CRITICAL_CONTRADICTION_UNRESOLVED"
reason_value ReasonCode.critical_claim_unsupported = "CRITICAL_CLAIM_UNSUPPORTED"
reason_value ReasonCode.stale_execution_data = "STALE_EXECUTION_DATA"
reason_value ReasonCode.autonomy_budget_exhausted = "AUTONOMY_BUDGET_EXHAUSTED"
reason_value ReasonCode.human_approval_required = "HUMAN_APPROVAL_REQUIRED"
reason_value ReasonCode.strong_evidence_invalidates_plan = "STRONG_EVIDENCE_INVALIDATES_PLAN"
reason_value ReasonCode.dissent_check_failed = "DISSENT_CHECK_FAILED"
reason_value ReasonCode.integrity_below_approval_threshold = "INTEGRITY_BELOW_APPROVAL_THRESHOLD"
reason_value ReasonCode.integrity_below_investigation_threshold =
    "INTEGRITY_BELOW_INVESTIGATION_THRESHOLD"

-- An outcome that did not execute: its result is a failure at the instant.
unfoldable pub blocked :
    ExecutionRequest
    → ℕ
    → (failure_code detail decision : String) → List String
    → List String
    → GuardedExecutionOutcome
blocked request now failure_code detail decision reasons required = record {
  result = record {
    execution_id = request.execution_id;
    state = ExecutionState.failed;
    attempted_at = now;
    completed_at = some now;
    external_references = [];
    failure_code = some failure_code;
    detail = some detail;
  };
  decision = decision;
  reasons = reasons;
  required_investigation = required;
}

-- The outcome that lets the execution go on.
unfoldable pub ready : ExecutionRequest → ℕ → GuardedExecutionOutcome
ready request now = record {
  result = record {
    execution_id = request.execution_id;
    state = ExecutionState.pending;
    attempted_at = now;
    completed_at = none;
    external_references = [];
    failure_code = none;
    detail = none;
  };
  decision = "execute";
  reasons = [];
  required_investigation = [];
}

-- The Dissent report of the revalidation.
unfoldable pub revalidation_dissent : RefreshBundle → Result DissentReport
revalidation_dissent refresh = do
  plan ←
      make_plan "execution-integrity-revalidation" "execution-integrity-memory"
        "execution-integrity-cache"
        ("carry forward approved Dissent and refresh mutable execution facts" ∷ [])
        (max 1 (length refresh.evidence)) true
  report ← record_fresh_retrieval (record_plan plan) (map (λ r. r.evidence_id) refresh.evidence) []
  compare_with_existing_graph report (map (λ c. c.claim_id) refresh.claims) [] false

abbrev pub is_approved : JuryState → Bool
is_approved JuryState.approve = true
is_approved state = false

module _ (sources : Sources) (freshness : Freshness) (policy : IntegrityPolicy) where
  -- The final run of the Jury on the refreshed facts.
  unfoldable pub rerun_jury :
      ExecutionRequest → CandidatePlan → RefreshBundle → String → ℕ → Result JuryEvaluation
  unfolding revalidation_dissent
  rerun_jury request plan refresh evaluation_id now = do
    dissent ← revalidation_dissent refresh
    evaluate sources freshness policy
        (record {
          planning_run_id = request.planning_run_id;
          candidate_plan = plan;
          supporting_claim_ids = map (λ c. c.claim_id) refresh.claims;
          evidence_ids = map (λ r. r.evidence_id) refresh.evidence;
          policy_version = policy.version;
          autonomy_budget_exhausted = false;
          require_critical_external_support = false;
        })
        (record {
          claims = refresh.claims;
          evidence = refresh.evidence;
          dissent = some dissent;
          critical_claim_ids = none;
          resolved_contradiction_ids = [];
          gate_facts = record {
            hard_constraint_violations = [];
            stale_execution_claim_ids = stale_claim_ids now refresh.claims;
            human_approval_required = false;
            unresolved_uncertainty = false;
          };
        })
        evaluation_id now

  unfoldable pub assess_readiness :
      ExecutionRequest → CandidatePlan → RefreshBundle → String → ℕ → Result GuardedExecutionOutcome
  unfolding rerun_jury
  assess_readiness request plan refresh evaluation_id now =
      let stale = stale_claim_ids now refresh.claims in
      let (changed, refreshed_total) = assess_procurement now refresh plan.procurement in
      let required = changed ++ assess_distribution refresh plan.distribution in
      if not (is_empty stale)
      then ok (
          blocked request now "stale_execution_data" "Execution Freshness v1 blocked stale inputs."
            "investigate" ("stale_execution_data" ∷ [])
            (map (λ id. "Refresh execution-critical claim " <> id <> ".") stale))
      else if not (is_empty required)
      then ok (
          blocked request now "plan_changed" "Final refresh changed execution feasibility."
            "investigate" ("plan_changed" ∷ []) (unique required))
      else if not (leb_ℤ refreshed_total (pos (approved_total plan.procurement)))
      then ok (
          blocked request now "approved_total_exceeded"
            "Refreshed total exceeds the approved total." "escalate"
            ("approved_total_exceeded" ∷ []) [])
      else rerun_jury request plan refresh evaluation_id now >>= λ evaluation. ok (
          if is_approved evaluation.state
          then ready request now
          else blocked request now "jury_blocked_execution"
              "Final integrity rerun did not approve execution." (state_value evaluation.state)
              (map reason_value evaluation.reason_codes) evaluation.required_investigation)
