-- ===== src/Evidence/Dissent.antt =====
-- evidence/dissent.py: the clean-room Dissent protocol.
mod Tests
pub mod Protocol
use civitas.Prelude.{
  ℕ, ltb, Bool, true, false, not, ◌&&◌, ◌||◌, Option, none, some, List, [], ◌∷◌, String, is_blank,
  Result, ok, raise_if, value_error, ◌>>◌, if◌then◌else◌,
}

pub data DissentPhase : Type 0 where
  plan_recorded fresh_retrieval_complete comparison_complete failed : DissentPhase

pub record DissentInvestigationPlan : Type 0 where
  pub context_id : String
  pub memory_namespace : String
  pub tool_cache_namespace : String
  pub checks : List String
  pub tool_budget : ℕ
  pub read_only : Bool

-- The dataclass with its `__post_init__`. A budget is a number from 0 on.
unfoldable pub make_plan :
    String → String → String → List String → ℕ → Bool → Result DissentInvestigationPlan
make_plan context_id memory_namespace tool_cache_namespace checks tool_budget read_only = do
  raise_if (is_blank context_id) (value_error "a separate Dissent context is required")
  raise_if (is_blank memory_namespace || is_blank tool_cache_namespace)
      (value_error "separate memory and tool-cache namespaces are required")
  raise_if (ltb tool_budget 1) (value_error "Dissent tool budget must be positive")
  raise_if (not read_only) (value_error "Dissent tool access must be read-only")
  ok (record {
    context_id = context_id;
    memory_namespace = memory_namespace;
    tool_cache_namespace = tool_cache_namespace;
    checks = checks;
    tool_budget = tool_budget;
    read_only = read_only;
  })

pub record DissentReport : Type 0 where
  pub plan : DissentInvestigationPlan
  pub phase : DissentPhase
  pub fresh_evidence_ids : List String
  pub checked_claim_ids : List String
  pub unavailable_checks : List String
  pub contradiction_ids : List String
  pub establishes_invalidity : Bool
  pub failure_reason : Option String

-- `bool(xs)`
abbrev pub nonempty : List String → Bool
nonempty [] = false
nonempty (x ∷ xs) = true

abbrev is_complete_phase : DissentPhase → Bool
is_complete_phase DissentPhase.comparison_complete = true
is_complete_phase phase = false

abbrev is_none : Option String → Bool
is_none none = true
is_none (some s) = false

unfoldable pub completed : DissentReport → Bool
completed r =
    is_complete_phase r.phase
    && not (nonempty r.unavailable_checks)
    && is_none r.failure_reason
    && nonempty r.plan.checks
    && nonempty r.fresh_evidence_ids
    && nonempty r.checked_claim_ids

-- In hundredths: 10000 is 100.0.
unfoldable pub robustness_score : DissentReport → ℕ
unfolding completed
robustness_score r = if not (completed r) then 0 else if r.establishes_invalidity then 0 else 10000

abbrev is_plan_recorded : DissentPhase → Bool
is_plan_recorded DissentPhase.plan_recorded = true
is_plan_recorded phase = false

abbrev is_retrieved : DissentPhase → Bool
is_retrieved DissentPhase.fresh_retrieval_complete = true
is_retrieved phase = false

unfoldable pub record_plan : DissentInvestigationPlan → DissentReport
record_plan plan = record {
  plan = plan;
  phase = DissentPhase.plan_recorded;
  fresh_evidence_ids = [];
  checked_claim_ids = [];
  unavailable_checks = [];
  contradiction_ids = [];
  establishes_invalidity = false;
  failure_reason = none;
}

unfoldable pub record_fresh_retrieval :
    DissentReport → List String → List String → Result DissentReport
record_fresh_retrieval report evidence_ids unavailable_checks = do
  raise_if (not (is_plan_recorded report.phase))
      (value_error "Dissent must record its plan before fresh retrieval")
  ok (record {
    plan = report.plan;
    phase = DissentPhase.fresh_retrieval_complete;
    fresh_evidence_ids = evidence_ids;
    checked_claim_ids = [];
    unavailable_checks = unavailable_checks;
    contradiction_ids = [];
    establishes_invalidity = false;
    failure_reason = none;
  })

unfoldable pub compare_with_existing_graph :
    DissentReport → List String → List String → Bool → Result DissentReport
compare_with_existing_graph report checked_claim_ids contradiction_ids establishes_invalidity = do
  raise_if (not (is_retrieved report.phase))
      (value_error "existing evidence is revealed only after fresh retrieval")
  ok (record {
    plan = report.plan;
    phase = DissentPhase.comparison_complete;
    fresh_evidence_ids = report.fresh_evidence_ids;
    checked_claim_ids = checked_claim_ids;
    unavailable_checks = report.unavailable_checks;
    contradiction_ids = contradiction_ids;
    establishes_invalidity = establishes_invalidity;
    failure_reason = none;
  })

unfoldable pub fail : DissentReport → String → DissentReport
fail report reason = record {
  plan = report.plan;
  phase = DissentPhase.failed;
  fresh_evidence_ids = report.fresh_evidence_ids;
  checked_claim_ids = [];
  unavailable_checks = report.unavailable_checks;
  contradiction_ids = [];
  establishes_invalidity = false;
  failure_reason = some reason;
}
