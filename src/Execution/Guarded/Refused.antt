-- ===== src/Execution/Guarded/Refused.antt =====
-- execution/guarded.py: what a refused reservation leaves behind.
use civitas.Prelude.{
  ℕ, ◌+◌, ◌≡◌, refl, sym, ◌∙◌, ap, subst, Result-cases, none, some, inl, inr, List, [], ◌∷◌, ◌++◌,
  length, String, Error, ok, raise, arith, duplicate_reservation, insufficient_inventory,
}
use civitas.Contracts.{CandidatePlan, DistributionLine}
use civitas.Inventory.{Stock}
use civitas.Inventory.Reserving.{reserve_fefo}
use civitas.Execution.{ExecutionState, ExecutionRequest}
use civitas.Execution.Guarded.{PlanningRunModel, Database, GuardedExecutionOutcome}
use civitas.Execution.Guarded.Ports.{Call, Ports}
use civitas.Execution.Guarded.Writes.{
  all_reserved, refused, refusal, reserve_lines, reservation_for,
}
use civitas.Execution.Guarded.Approvals.{close, outcome_of}
use civitas.Execution.Guarded.Service.{reserve_and_send}

refusal_of :
    (e e' : Error) (stock stock' : Stock)
    → refusal e stock ≡ ok (refused e' stock')
    → (e ≡ e') × (stock ≡ stock')
refusal_of (duplicate_reservation k) e' stock stock' h = (ground arith, ground arith)
refusal_of (insufficient_inventory n m) e' stock stock' h = (ground arith, ground arith)
refusal_of e e' stock stock' h = absurd (ground arith)

-- The line that was refused, and the lines before it, which were reserved.
pub record RefusedAt (ports : Ports) (organization_id : String) (request : ExecutionRequest)
    (index : ℕ) (lines : List DistributionLine) (stock stock' : Stock) (e : Error) : Type 0 where
  pub before : List DistributionLine
  pub line : DistributionLine
  pub rest : List DistributionLine
  pub split : lines ≡ before ++ (line ∷ rest)
  pub reserved :
      reserve_lines ports organization_id request index before stock ≡ ok (all_reserved stock')
  pub refuses :
      reserve_fefo ports.new_id
        (reservation_for ports organization_id request (index + length before) line)
        stock'
      ≡ raise e

module _ (ports : Ports) (organization_id : String) (request : ExecutionRequest) where
  reserve_lines-RefusedAt :
      (lines : List DistributionLine) (index : ℕ) (stock stock' : Stock) (e : Error)
      → reserve_lines ports organization_id request index lines stock ≡ ok (refused e stock')
      → RefusedAt ports organization_id request index lines stock stock' e
  unfolding reserve_lines
  reserve_lines-RefusedAt [] index stock stock' e h = absurd (ground arith)
  reserve_lines-RefusedAt (line ∷ lines) index stock stock' e h =
      elim (Result-cases (
        reserve_fefo ports.new_id (reservation_for ports organization_id request index line)
          stock)) [
            | inl (e', failed) ↦
                let (same, left) = refusal_of e' e stock stock' (rw (failed, reserve_lines) at h) in
                record {
                  before = [];
                  line = line;
                  rest = lines;
                  split = refl;
                  reserved = ap (λ s. ok (all_reserved s)) left;
                  refuses =
                      subst
                        (λ i.
                          reserve_fefo ports.new_id
                            (reservation_for ports organization_id request i line) stock'
                          ≡ raise e)
                        (omega arith)
                        (sym (
                            ap
                              (reserve_fefo ports.new_id
                                (reservation_for ports organization_id request index line))
                              left)
                          ∙ failed
                          ∙ ap (λ x. raise x) same);
                }
            | inr ((allocations, stock1), made) ↦
                let later =
                  reserve_lines-RefusedAt lines (index + 1) stock1 stock' e
                    (rw (made, reserve_lines) at h) in
                record {
                  before = line ∷ later.before;
                  line = later.line;
                  rest = later.rest;
                  split = ap (λ ls. line ∷ ls) later.split;
                  reserved = rw (made, reserve_lines) later.reserved;
                  refuses =
                      subst
                        (λ i.
                          reserve_fefo ports.new_id
                            (reservation_for ports organization_id request i later.line) stock'
                          ≡ raise e)
                        (omega arith) later.refuses;
                }
          ]

-- When a distribution line is refused, the execution ends as failed with
-- inventory_reservation_failed and nothing is sent, but the stock that it commits is the one after
-- the lines before the refused one: their reservations stay.
pub refused_keeps_reservations :
    (ports : Ports) (call : Call) (run : PlanningRunModel) (plan : CandidatePlan) (db : Database)
    (calls : List String) (e : Error) (stock : Stock)
    → reserve_lines ports run.organization_id call.request 0 plan.distribution db.stock
      ≡ ok (refused e stock)
    → (outcome : GuardedExecutionOutcome) × (db' : Database) × (reserve_and_send ports call run plan
          db calls
        ≡ (ok (outcome, db'), calls))
      × (outcome.result.state ≡ ExecutionState.failed)
      × (outcome.result.failure_code ≡ some "inventory_reservation_failed")
      × (db'.stock ≡ stock)
      × RefusedAt ports run.organization_id call.request 0 plan.distribution db.stock stock e
unfolding reserve_and_send outcome_of close
refused_keeps_reservations ports call run plan db calls e stock h =
    let outcome =
      outcome_of ports call ExecutionState.failed [] (some "inventory_reservation_failed")
        (some (ports.message e)) "investigate" ("inventory_reservation_failed" ∷ [])
        ("Revalidate inventory availability." ∷ []) in
    let kept : Database = record db { stock = stock } in
    let db' =
      close ports call run.organization_id ExecutionState.failed ports.finished_at
        (some "inventory_reservation_failed") none [] (some (ports.message e)) kept in
    (
      outcome,
      db',
      rw (h, reserve_and_send) refl,
      refl,
      refl,
      refl,
      reserve_lines-RefusedAt ports run.organization_id call.request plan.distribution 0 db.stock
          stock e h,
    )
