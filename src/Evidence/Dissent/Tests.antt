-- ===== src/Evidence/Dissent/Tests.antt =====
-- The Dissent protocol at concrete inputs.
use civitas.Prelude.{◌≡◌, refl, Bool, true, false, none, List, [], ◌∷◌, String, ok}
use civitas.Evidence.Dissent.{
  DissentInvestigationPlan, DissentReport, DissentPhase, completed, robustness_score, record_plan,
  nonempty, record_fresh_retrieval, compare_with_existing_graph,
}
use civitas.Evidence.Dissent.Protocol.{
  Call, retrieve, compare, perform, perform_all, completed_calls, protocol_score,
}

abbrev plan : DissentInvestigationPlan
plan = record {
  context_id = "dissent-1";
  memory_namespace = "memory";
  tool_cache_namespace = "cache";
  checks = "price" ∷ [];
  tool_budget = 3;
  read_only = true;
}

abbrev calls : List Call
calls = retrieve ("e-1" ∷ []) [] ∷ compare ("c-1" ∷ []) [] false ∷ []

protocol_score_example :
    (r : DissentReport) × (perform_all calls (record_plan plan) ≡ ok r)
    × (robustness_score r ≡ 10000)
protocol_score_example = protocol_score plan ("e-1" ∷ []) [] ("c-1" ∷ []) [] false

abbrev report : DissentReport
report = record {
  plan = plan;
  phase = DissentPhase.comparison_complete;
  fresh_evidence_ids = "e-1" ∷ [];
  checked_claim_ids = "c-1" ∷ [];
  unavailable_checks = [];
  contradiction_ids = [];
  establishes_invalidity = false;
  failure_reason = none;
}

completed_calls_example :
    (ids claims contradictions : List String) × (invalid : Bool) × (calls
      ≡ retrieve ids [] ∷ compare claims contradictions invalid ∷ [])
    × (report.fresh_evidence_ids ≡ ids)
    × (report.checked_claim_ids ≡ claims)
    × (nonempty ids ≡ true)
    × (nonempty claims ≡ true)
    × (nonempty plan.checks ≡ true)
unfolding perform_all perform record_plan record_fresh_retrieval compare_with_existing_graph
    completed
completed_calls_example = completed_calls plan calls {r = report} refl refl
