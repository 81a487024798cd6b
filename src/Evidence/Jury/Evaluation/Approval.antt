-- ===== src/Evidence/Jury/Evaluation/Approval.antt =====
-- evidence/jury.py: what an evaluation that approves guarantees.
use civitas.Prelude.{
  ℕ, ◌≤◌, ◌≡◌, refl, sym, leb, leb→le, true, false, Option, List, [], All, ok, String, subst, ap,
  ◌↔◌, arith, unique, ◌∙◌,
}
use civitas.Contracts.{JuryRequest, JuryEvaluation, JuryGateResult, JuryState, ReasonCode}
use civitas.Evidence.Jury.{
  JuryInputs, IntegrityCalculation, IntegrityPolicy, evaluate_gates, has_reason, state_of,
  unique_reason_codes, unique_reasons_from, failed_reasons, reason_index,
}
use civitas.Evidence.Jury.Bounds.{calculate-le}
use civitas.Evidence.Jury.Verdict.{refuted, reserved, unsettled, ruling, verdict_ruling}
use civitas.Evidence.Jury.Integrity.{Sources, Freshness, calculate}
use civitas.Evidence.Jury.Evaluation.{evaluate, evaluation, scoped, required_investigation}

nothing-asked :
    (calculation : IntegrityCalculation) (inputs : JuryInputs)
    → required_investigation [] calculation inputs ≡ []
unfolding required_investigation has_reason unique
nothing-asked calculation inputs = refl

module _ (policy : IntegrityPolicy) (request : JuryRequest) (inputs : JuryInputs)
    (calculation : IntegrityCalculation) where
  abbrev gates : List JuryGateResult
  gates = evaluate_gates request inputs calculation

  abbrev decided : JuryState × Option ReasonCode
  decided = state_of policy request calculation gates

  approve_only-if :
      decided.0 ≡ JuryState.approve
      → (refuted policy request inputs calculation ≡ false)
        × (reserved policy request inputs calculation ≡ false)
        × (unsettled policy request inputs calculation ≡ false)
        × (leb policy.approval_threshold calculation.score ≡ true)
  unfolding ruling
  approve_only-if h =
      let ruled : ruling policy request inputs calculation ≡ JuryState.approve =
        sym (verdict_ruling policy request inputs calculation) ∙ h in
      ground arith

  reasons-nil : decided.0 ≡ JuryState.approve → unique_reason_codes gates decided.1 ≡ []
  unfolding state_of evaluate_gates failed_reasons has_reason reason_index unique_reason_codes
      unique_reasons_from
  reasons-nil h = ground arith

  gates_passed : decided.0 ≡ JuryState.approve → All (λ g. g.passed ≡ true) gates
  unfolding state_of evaluate_gates failed_reasons has_reason reason_index
  gates_passed h = ground arith

  reasons-cons : unique_reason_codes gates decided.1 ≡ [] → decided.0 ≡ JuryState.approve
  unfolding state_of evaluate_gates failed_reasons has_reason reason_index unique_reason_codes
      unique_reasons_from
  reasons-cons h = ground arith

module _ (sources : Sources) (freshness : Freshness) (policy : IntegrityPolicy)
    (request : JuryRequest) (inputs : JuryInputs) (evaluation_id : String) (calculated_at : ℕ) where
  abbrev pub judged : JuryEvaluation
  judged = evaluation sources freshness policy request inputs evaluation_id calculated_at

  abbrev pub measured : IntegrityCalculation
  measured =
      calculate sources freshness (scoped request inputs) calculated_at request.supporting_claim_ids

  evaluate-judged :
      (e : JuryEvaluation)
      → evaluate sources freshness policy request inputs evaluation_id calculated_at ≡ ok e
      → judged ≡ e
  unfolding evaluate
  evaluate-judged e h = ground arith

  -- What an approval stands for.
  unfoldable pub Approved : JuryEvaluation → Type 0
  Approved e =
      (refuted policy request (scoped request inputs) measured ≡ false)
      × (reserved policy request (scoped request inputs) measured ≡ false)
      × (unsettled policy request (scoped request inputs) measured ≡ false)
      × (policy.approval_threshold ≤ e.integrity_score)
      × (e.integrity_score ≤ 10000)
      × All (λ g. g.passed ≡ true) e.gates
      × (e.reason_codes ≡ [])
      × (e.required_investigation ≡ [])

  judged-Approved : judged.state ≡ JuryState.approve → Approved judged
  unfolding evaluation Approved
  judged-Approved h =
      let sound = approve_only-if policy request (scoped request inputs) measured h in
      let silent = reasons-nil policy request (scoped request inputs) measured h in
      (
        sound.0,
        sound.1,
        sound.2,
        leb→le _ _ sound.3,
        (calculate-le sources freshness (scoped request inputs) calculated_at
            request.supporting_claim_ids).1,
        gates_passed policy request (scoped request inputs) measured h,
        silent,
        ap (λ rs. required_investigation rs measured (scoped request inputs)) silent
            ∙ nothing-asked measured (scoped request inputs),
      )

  -- An evaluation that is returned with the verdict approve passes all its gates, gives no reason
  -- and asks for nothing: its plan is not refuted, not reserved for an operator and not unsettled,
  -- and its score is between the approval threshold and 100.
  pub evaluate-Approves :
      (e : JuryEvaluation)
      → evaluate sources freshness policy request inputs evaluation_id calculated_at ≡ ok e
      → e.state ≡ JuryState.approve
      → Approved e
  evaluate-Approves e h approved =
      let same = evaluate-judged e h in
      subst Approved same (judged-Approved (ap (λ e. e.state) same ∙ approved))

  -- An evaluation that is returned has no reason code exactly when it approves.
  pub evaluate-Explains :
      (e : JuryEvaluation)
      → evaluate sources freshness policy request inputs evaluation_id calculated_at ≡ ok e
      → (e.reason_codes ≡ []) ↔ (e.state ≡ JuryState.approve)
  unfolding evaluation
  evaluate-Explains e h =
      let same = evaluate-judged e h in
      (
        (λ silent.
            ap (λ e. e.state) (sym same)
            ∙ reasons-cons policy request (scoped request inputs) measured
                (ap (λ e. e.reason_codes) same ∙ silent)),
        (λ approved.
            ap (λ e. e.reason_codes) (sym same)
            ∙ reasons-nil policy request (scoped request inputs) measured
                (ap (λ e. e.state) same ∙ approved)),
      )
