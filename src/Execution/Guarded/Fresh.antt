-- ===== src/Execution/Guarded/Fresh.antt =====
-- execution/guarded.py: what _assess_readiness has found when it lets an execution go on.
use civitas.Prelude.{
  times, is_empty, ℕ, ◌+◌, ◌*◌, ◌≤◌, ◌≡◌, ◌≢◌, refl, subst, true, false, Bool-cases, Option-cases,
  Result-cases, none, some, inl, inr, ◌⊎◌, List, [], ◌∷◌, ◌++◌, map, String, ◌<>◌, str_eq, unique,
  lookup, All, ℤ, pos, negsuc, ◌+ℤ◌, ◌≤ℤ◌, leb_ℤ, ok, ◌>>=◌, arith, if◌then◌else◌,
}
use civitas.Contracts.{
  CandidatePlan, ProcurementLine, DistributionLine, JuryState, JuryEvaluation, TypedClaim, valid_at,
}
use civitas.Evidence.Jury.{IntegrityPolicy}
use civitas.Evidence.Jury.Integrity.{Sources, Freshness}
use civitas.Execution.{ExecutionRequest}
use civitas.Execution.Guarded.{RefreshBundle, GuardedExecutionOutcome}
use civitas.Execution.Guarded.Readiness.{
  ttl_for, is_stale, stale_claim_ids, offer_key, transport_key_from_line, constraint_or_zero, day,
  assess_line, assess_procurement, assess_distribution, approved_total, is_approved, blocked, ready,
  state_value, reason_value, rerun_jury, assess_readiness,
}
use civitas.Execution.Guarded.Service.{is_execute}

-- The claim holds for an interval, or its instant is not older than its kind allows.
abbrev pub IsCurrent : ℕ → TypedClaim → Type 0
IsCurrent now claim =
    (instant : ℕ) → claim.validity ≡ valid_at instant → now ≤ instant + ttl_for claim.predicate

-- The supplier still has a price for the line, enough to deliver, and delivers in time.
abbrev pub IsOffered : ℕ → RefreshBundle → ProcurementLine → Type 0
IsOffered now refresh line =
    (unit_price : ℤ) × (days : ℕ) × (lookup (offer_key line) refresh.observed_unit_prices
      ≡ some unit_price)
    × (pos line.quantity.value
        ≤ℤ constraint_or_zero refresh.constraints ("offer:" <> offer_key line <> ":available"))
    × (lookup ("lead:" <> offer_key line <> ":days") refresh.constraints ≡ some (pos days))
    × (now + days * day ≤ line.arrival_bucket_start)

-- The destination and the transport lane have room for the line.
abbrev pub HasCapacity : RefreshBundle → DistributionLine → Type 0
HasCapacity refresh line =
    (pos line.quantity.value
      ≤ℤ constraint_or_zero refresh.constraints
          ("warehouse:" <> line.destination_warehouse_id <> ":" <> line.sku_id))
    × (pos line.quantity.value
        ≤ℤ constraint_or_zero refresh.constraints ("transport:" <> transport_key_from_line line))

-- What the lines cost at the observed prices.
unfoldable pub cost_at : RefreshBundle → List ProcurementLine → ℤ
cost_at refresh [] = pos 0
cost_at refresh (line ∷ lines) =
    elim (lookup (offer_key line) refresh.observed_unit_prices) [
      | none ↦ pos 0
      | some unit_price ↦ times unit_price line.quantity.value
    ]
    +ℤ cost_at refresh lines

stale-none :
    (now : ℕ) (claims : List TypedClaim)
    → is_empty (stale_claim_ids now claims) ≡ true
    → All (IsCurrent now) claims
unfolding stale_claim_ids is_stale
stale-none now [] h = tt
stale-none now (claim ∷ claims) h = elim (Bool-cases (is_stale now claim)) [
  | inl stale ↦ absurd (ground arith)
  | inr current ↦ (
    (λ instant at_instant. ground (arith, current, at_instant)),
    stale-none now claims (ground arith),
  )
]

assess_line-IsOffered :
    (now : ℕ) (refresh : RefreshBundle) (line : ProcurementLine)
    → (assess_line now refresh line).0 ≡ []
    → IsOffered now refresh line
      × ((assess_line now refresh line).1
          ≡ elim (lookup (offer_key line) refresh.observed_unit_prices) [
            | none ↦ pos 0
            | some unit_price ↦ times unit_price line.quantity.value
          ])
unfolding assess_line
assess_line-IsOffered now refresh line h =
    elim (Option-cases (lookup (offer_key line) refresh.observed_unit_prices)) [
      | inl unpriced ↦ absurd (ground arith)
      | inr (unit_price, priced) ↦
          elim (Option-cases (lookup ("lead:" <> offer_key line <> ":days") refresh.constraints)) [
            | inl unknown ↦ absurd (ground arith)
            | inr (negsuc days, known) ↦ absurd (ground arith)
            | inr (pos days, known) ↦
                ((unit_price, days, priced, ground arith, known, ground arith), ground arith)
          ]
    ]

is_empty-nil : (xs : List String) → is_empty xs ≡ true → xs ≡ []
is_empty-nil [] h = refl
is_empty-nil (x ∷ xs) h = absurd (ground arith)

append-nil_both {ℓ} : {A : Type ℓ} (xs ys : List A) → xs ++ ys ≡ [] → (xs ≡ []) × (ys ≡ [])
append-nil_both [] ys h = (refl, h)
append-nil_both (x ∷ xs) ys h = absurd (ground arith)

assess_procurement-IsOffered :
    (now : ℕ) (refresh : RefreshBundle) (lines : List ProcurementLine)
    → (assess_procurement now refresh lines).0 ≡ []
    → All (IsOffered now refresh) lines
      × ((assess_procurement now refresh lines).1 ≡ cost_at refresh lines)
unfolding assess_procurement cost_at
assess_procurement-IsOffered now refresh [] h = (tt, refl)
assess_procurement-IsOffered now refresh (line ∷ lines) h =
    let (here, there) = append-nil_both (assess_line now refresh line).0 _ h in
    let (offered, cost) = assess_line-IsOffered now refresh line here in
    let (all_offered, rest) = assess_procurement-IsOffered now refresh lines there in
    ((offered, all_offered), λ i. cost i +ℤ rest i)

assess_distribution-HasCapacity :
    (refresh : RefreshBundle) (lines : List DistributionLine)
    → assess_distribution refresh lines ≡ []
    → All (HasCapacity refresh) lines
unfolding assess_distribution
assess_distribution-HasCapacity refresh [] h = tt
assess_distribution-HasCapacity refresh (line ∷ lines) h =
    let warehouse = "warehouse:" <> line.destination_warehouse_id <> ":" <> line.sku_id in
    let lane = "transport:" <> transport_key_from_line line in
    elim (Bool-cases
      (leb_ℤ (pos line.quantity.value) (constraint_or_zero refresh.constraints warehouse))) [
        | inr full ↦ absurd (ground arith)
        | inl stored ↦
            elim (Bool-cases
              (leb_ℤ (pos line.quantity.value) (constraint_or_zero refresh.constraints lane))) [
                | inr full ↦ absurd (ground arith)
                | inl carried ↦ (
                  (ground (arith, stored), ground (arith, carried)),
                  assess_distribution-HasCapacity refresh lines (ground arith),
                )
              ]
      ]

-- What an execution that goes on was found to be.
pub record IsFresh (sources : Sources) (freshness : Freshness) (policy : IntegrityPolicy)
    (request : ExecutionRequest) (plan : CandidatePlan) (refresh : RefreshBundle)
    (evaluation_id : String) (now : ℕ) : Type 0 where
  pub claims_current : All (IsCurrent now) refresh.claims
  pub lines_offered : All (IsOffered now refresh) plan.procurement
  pub lines_fit : All (HasCapacity refresh) plan.distribution
  pub cost_approved : cost_at refresh plan.procurement ≤ℤ pos (approved_total plan.procurement)
  pub evaluation : JuryEvaluation
  pub evaluated :
      rerun_jury sources freshness policy request plan refresh evaluation_id now ≡ ok evaluation
  pub jury_approves : evaluation.state ≡ JuryState.approve

-- A Jury that does not approve has no state called execute.
JuryState-cases :
    (s : JuryState)
    → (s ≡ JuryState.approve)
      ⊎ ((is_approved s ≡ false) × (str_eq (state_value s) "execute" ≡ false))
JuryState-cases JuryState.approve = inl refl
JuryState-cases JuryState.investigate = inr (refl, refl)
JuryState-cases JuryState.escalate = inr (refl, refl)
JuryState-cases JuryState.reject = inr (refl, refl)

module _ (sources : Sources) (freshness : Freshness) (policy : IntegrityPolicy)
    (request : ExecutionRequest) (plan : CandidatePlan) (refresh : RefreshBundle)
    (evaluation_id : String) (now : ℕ) where
  -- The outcome of the last guard.
  rerun-IsFresh :
      (outcome : GuardedExecutionOutcome)
      → (rerun_jury sources freshness policy request plan refresh evaluation_id now
          >>= λ evaluation. ok (
              if is_approved evaluation.state
              then ready request now
              else blocked request now "jury_blocked_execution"
                  "Final integrity rerun did not approve execution."
                  (state_value evaluation.state)
                  (map reason_value evaluation.reason_codes)
                  evaluation.required_investigation))
        ≡ ok outcome
      → is_execute outcome ≡ true
      → (evaluation : JuryEvaluation) × (rerun_jury sources freshness policy request plan refresh
            evaluation_id now
          ≡ ok evaluation)
        × (evaluation.state ≡ JuryState.approve)
  unfolding blocked
  rerun-IsFresh outcome h goes =
      elim (Result-cases
        (rerun_jury sources freshness policy request plan refresh evaluation_id now)) [
          | inl (e, failed) ↦ absurd (ground arith)
          | inr (evaluation, evaluated) ↦ elim (JuryState-cases evaluation.state) [
            | inl approves ↦ (evaluation, evaluated, approves)
            | inr (other, named) ↦ absurd (ground (arith, other, named))
          ]
        ]

  -- An outcome that is blocked is not one that goes on.
  blocked_stops :
      (failure_code detail decision : String) (reasons required : List String)
      (outcome : GuardedExecutionOutcome)
      → str_eq decision "execute" ≡ false
      → ok (blocked request now failure_code detail decision reasons required) ≡ ok outcome
      → is_execute outcome ≢ true
  unfolding blocked
  blocked_stops failure_code detail decision reasons required outcome other made goes =
      ground (arith, other, made, goes)

  pub assess_readiness-IsFresh :
      (outcome : GuardedExecutionOutcome)
      → assess_readiness sources freshness policy request plan refresh evaluation_id now
        ≡ ok outcome
      → is_execute outcome ≡ true
      → IsFresh sources freshness policy request plan refresh evaluation_id now
  unfolding assess_readiness blocked
  assess_readiness-IsFresh outcome h goes =
      let stale = stale_claim_ids now refresh.claims in
      let (changed, total) = assess_procurement now refresh plan.procurement in
      let required = changed ++ assess_distribution refresh plan.distribution in
      elim (Bool-cases (is_empty stale)) [
        | inr old ↦ absurd (
            blocked_stops "stale_execution_data" "Execution Freshness v1 blocked stale inputs."
              "investigate" ("stale_execution_data" ∷ [])
              (map (λ id. "Refresh execution-critical claim " <> id <> ".") stale) outcome refl
              (rw old at h) goes)
        | inl current ↦ elim (Bool-cases (is_empty required)) [
          | inr needed ↦ absurd (
              blocked_stops "plan_changed" "Final refresh changed execution feasibility."
                "investigate" ("plan_changed" ∷ []) (unique required) outcome refl
                (rw (current, needed) at h) goes)
          | inl unchanged ↦
              elim (Bool-cases (leb_ℤ total (pos (approved_total plan.procurement)))) [
                | inr dear ↦ absurd (
                    blocked_stops "approved_total_exceeded"
                      "Refreshed total exceeds the approved total." "escalate"
                      ("approved_total_exceeded" ∷ []) [] outcome refl
                      (rw (current, unchanged, dear) at h) goes)
                | inl cheap ↦
                    let nothing : required ≡ [] = is_empty-nil required unchanged in
                    let (no_change, no_limit) =
                      append-nil_both changed (assess_distribution refresh plan.distribution)
                        nothing in
                    let (offered, cost) =
                      assess_procurement-IsOffered now refresh plan.procurement no_change in
                    let (evaluation, evaluated, approves) =
                      rerun-IsFresh outcome (ground arith) goes in
                    record {
                      claims_current = stale-none now refresh.claims current;
                      lines_offered = offered;
                      lines_fit =
                          assess_distribution-HasCapacity refresh plan.distribution no_limit;
                      cost_approved =
                          subst (λ z. z ≤ℤ pos (approved_total plan.procurement)) cost
                            (ground (arith, cheap));
                      evaluation = evaluation;
                      evaluated = evaluated;
                      jury_approves = approves;
                    }
              ]
        ]
      ]
