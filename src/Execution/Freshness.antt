-- ===== src/Execution/Freshness.antt =====
-- execution/service.py: a write is sent only while the refreshed facts support the plan.
use civitas.Prelude.{
  ◌≡◌, ◌≢◌, ap, ◌∙◌, true, Option-cases, none, List, [], ◌∷◌, map, unique, subset, String, All,
  lookup, ok, inl, inr, arith,
}
use civitas.Contracts.{CandidatePlan, DistributionLine}
use civitas.Execution.{
  ExecutionRequest, RevalidationSnapshot, Answers, Service, same_int, check_lead_times,
  check_capacities, check_lots, ensure_unchanged, execute, attempt,
}
use civitas.Execution.Cases.{attempt-cases, execute-found, execute-fresh, settle-writes}

module _ (expected actual : RevalidationSnapshot) where
  abbrev pub SameLeadTime : String → Type 0
  SameLeadTime id =
      same_int (lookup id expected.lead_time_days) (lookup id actual.lead_time_days) ≡ true

  abbrev pub SameCapacity : String → Type 0
  SameCapacity id =
      same_int (lookup id expected.warehouse_capacity_units)
        (lookup id actual.warehouse_capacity_units)
      ≡ true

  abbrev pub LotsThere : DistributionLine → Type 0
  LotsThere line = subset line.source_lot_ids actual.inventory_lot_ids ≡ true

  lead_times :
      (ids : List String) → check_lead_times expected actual ids ≡ ok tt → All SameLeadTime ids
  unfolding check_lead_times
  lead_times [] h = tt
  lead_times (id ∷ ids) h = (ground arith, lead_times ids (ground arith))

  capacities :
      (ids : List String) → check_capacities expected actual ids ≡ ok tt → All SameCapacity ids
  unfolding check_capacities
  capacities [] h = tt
  capacities (id ∷ ids) h = (ground arith, capacities ids (ground arith))

  lots : (lines : List DistributionLine) → check_lots actual lines ≡ ok tt → All LotsThere lines
  unfolding check_lots
  lots [] h = tt
  lots (line ∷ lines) h = (ground arith, lots lines (ground arith))

  -- What the refreshed facts still say about an approved plan.
  unfoldable pub Supports : CandidatePlan → Type 0
  Supports plan =
      (subset expected.offer_ids actual.offer_ids ≡ true)
      × All SameLeadTime (unique (map (λ l. l.supplier_id) plan.procurement))
      × All SameCapacity (unique (map (λ l. l.destination_warehouse_id) plan.procurement))
      × All LotsThere plan.distribution

  ensure_unchanged-Supports :
      (plan : CandidatePlan) → ensure_unchanged expected actual plan ≡ ok tt → Supports plan
  unfolding ensure_unchanged Supports
  ensure_unchanged-Supports plan h = (
    ground arith,
    lead_times _ (ground arith),
    capacities _ (ground arith),
    lots _ (ground arith),
  )

-- A call of `execute` that adds a write is the first of its key to get a result, its reads
-- succeeded, and what they gave supports the plan that was approved.
pub write_was_current :
    (answers : Answers) (request : ExecutionRequest) (plan : CandidatePlan)
    (expected : RevalidationSnapshot) (s : Service)
    → (execute answers request plan expected s).1.writes ≢ s.writes
    → (refreshed : RevalidationSnapshot) × (lookup request.idempotency_key s.results_by_key ≡ none)
      × (answers.revalidated ≡ ok refreshed)
      × Supports expected refreshed plan
write_was_current answers request plan expected s moved =
    elim (Option-cases (lookup request.idempotency_key s.results_by_key)) [
      | inr (existing, found) ↦
          absurd
            (moved (ap (λ o. o.1.writes) (execute-found answers request plan expected s found)))
      | inl fresh ↦ elim (attempt-cases answers request plan expected s.writes) [
        | inl kept ↦ absurd (
            moved (
              ap (λ o. o.1.writes) (execute-fresh answers request plan expected s fresh)
              ∙ settle-writes answers request s.results_by_key
                  (attempt answers request plan expected s.writes).0
                  (attempt answers request plan expected s.writes).1
              ∙ kept))
        | inr (refreshed, references, read, unchanged, done) ↦
            (refreshed, fresh, read, ensure_unchanged-Supports expected refreshed plan unchanged)
      ]
    ]
