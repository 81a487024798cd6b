-- ===== src/Evidence/Dissent/Protocol.antt =====
-- evidence/dissent.py: sequences of protocol calls.
use civitas.Prelude.{
  ◌≡◌, refl, Bool, true, not, none, List, [], ◌∷◌, String, Result, ok, ◌>>=◌, arith, if◌then◌else◌,
  ◌&&◌,
}
use civitas.Evidence.Dissent.{
  DissentInvestigationPlan, DissentReport, DissentPhase, completed, robustness_score, record_plan,
  record_fresh_retrieval, compare_with_existing_graph, fail, nonempty,
}

pub data Call : Type 0 where
  retrieve : (evidence_ids unavailable_checks : List String) → Call
  compare : (checked_claim_ids contradiction_ids : List String) (invalid : Bool) → Call
  give_up : String → Call

unfoldable pub perform : Call → DissentReport → Result DissentReport
perform (retrieve ids unavailable) r = record_fresh_retrieval r ids unavailable
perform (compare claims contradictions invalid) r =
    compare_with_existing_graph r claims contradictions invalid
perform (give_up reason) r = ok (fail r reason)

unfoldable pub perform_all : List Call → DissentReport → Result DissentReport
perform_all [] r = ok r
perform_all (call ∷ calls) r = perform call r >>= λ r'. perform_all calls r'

-- Once a protocol has failed, every call that returns leaves it failed.
failed_stays :
    (calls : List Call) (r : DissentReport) {r' : DissentReport}
    → r.phase ≡ DissentPhase.failed
    → perform_all calls r ≡ ok r'
    → r'.phase ≡ DissentPhase.failed
unfolding perform_all perform record_fresh_retrieval compare_with_existing_graph fail
failed_stays [] r f h = ground arith
failed_stays (retrieve ids u ∷ calls) r f h = absurd (ground arith)
failed_stays (compare c k i ∷ calls) r f h = absurd (ground arith)
failed_stays (give_up reason ∷ calls) r f h = failed_stays calls (fail r reason) refl h

not-completed_failed : (r : DissentReport) → r.phase ≡ DissentPhase.failed → completed r ≡ true → ⊥
unfolding completed
not-completed_failed r f c = ground arith

-- A report that is completed, and so may earn robustness credit, came from exactly one retrieval
-- and one comparison, in that order, with every check available, and with fresh evidence and
-- checked claims: no other sequence of protocol calls leads to one.
pub completed_calls :
    (plan : DissentInvestigationPlan) (calls : List Call) {r : DissentReport}
    → perform_all calls (record_plan plan) ≡ ok r
    → completed r ≡ true
    → (ids claims contradictions : List String) × (invalid : Bool) × (calls
        ≡ retrieve ids [] ∷ compare claims contradictions invalid ∷ [])
      × (r.fresh_evidence_ids ≡ ids)
      × (r.checked_claim_ids ≡ claims)
      × (nonempty ids ≡ true)
      × (nonempty claims ≡ true)
      × (nonempty plan.checks ≡ true)
unfolding perform_all perform record_plan record_fresh_retrieval compare_with_existing_graph fail
    completed
completed_calls plan [] h c = absurd (ground arith)
completed_calls plan (compare k x i ∷ calls) h c = absurd (ground arith)
completed_calls plan (give_up reason ∷ calls) {r} h c =
    absurd (not-completed_failed r (failed_stays calls (fail (record_plan plan) reason) refl h) c)
completed_calls plan (retrieve ids u ∷ []) h c = absurd (ground arith)
completed_calls plan (retrieve ids u ∷ retrieve ids' u' ∷ calls) h c = absurd (ground arith)
completed_calls plan (retrieve ids u ∷ give_up reason ∷ calls) {r} h c =
    absurd (not-completed_failed r (failed_stays calls _ refl h) c)
completed_calls plan (retrieve ids u ∷ compare k x i ∷ []) h c = (
  ids,
  k,
  x,
  i,
  ground arith,
  ground arith,
  ground arith,
  ground arith,
  ground arith,
  ground arith,
)
completed_calls plan (retrieve ids u ∷ compare k x i ∷ retrieve ids' u' ∷ calls) h c =
    absurd (ground arith)
completed_calls plan (retrieve ids u ∷ compare k x i ∷ compare k' x' i' ∷ calls) h c =
    absurd (ground arith)
completed_calls plan (retrieve ids u ∷ compare k x i ∷ give_up reason ∷ calls) {r} h c =
    absurd (not-completed_failed r (failed_stays calls _ refl h) c)

-- The protocol run in its order returns a report; it scores 100 exactly when every check could be
-- run, there are checks, fresh evidence and checked claims, and the plan was not shown invalid.
pub protocol_score :
    (plan : DissentInvestigationPlan) (ids unavailable claims contradictions : List String)
    (invalid : Bool)
    → (r : DissentReport) × (perform_all
          (retrieve ids unavailable ∷ compare claims contradictions invalid ∷ [])
          (record_plan plan)
        ≡ ok r)
      × (robustness_score r ≡ (
          if not (nonempty unavailable)
            && nonempty plan.checks
            && nonempty ids
            && nonempty claims
            && not invalid
          then 10000
          else 0))
unfolding perform_all perform record_plan record_fresh_retrieval compare_with_existing_graph
    robustness_score completed
protocol_score plan ids unavailable claims contradictions invalid = (
  record {
    plan = plan;
    phase = DissentPhase.comparison_complete;
    fresh_evidence_ids = ids;
    checked_claim_ids = claims;
    unavailable_checks = unavailable;
    contradiction_ids = contradictions;
    establishes_invalidity = invalid;
    failure_reason = none;
  },
  refl,
  ground arith,
)
