-- ===== src/Workflow/Orchestrator/Evidence.antt =====
-- workflow/orchestrator.py: the module's functions on proposals, plans and constraints.
use civitas.Prelude.{
  ltb, Bool, false, Option, none, some, List, [], ◌∷◌, ◌++◌, String, str_eq, keep, contains, count,
  sorted_set, Result, ok, raise, value_error, if◌then◌else◌,
}
use civitas.Contracts.{JsonObject, obj, end, get, truthy, CandidatePlan, OptimizationRequest}
use civitas.Workflow.Models.{ParliamentProposal, ParliamentSession}

-- `_selected_plan`
unfoldable pub selected_plan : List CandidatePlan → Option String → Result CandidatePlan
selected_plan [] selected = raise (value_error "selected plan not found")
selected_plan (plan ∷ plans) none = selected_plan plans none
selected_plan (plan ∷ plans) (some plan_id) =
    let rest = selected_plan plans (some plan_id) in
    if str_eq plan.plan_id plan_id then ok plan else rest

claim_ids : List ParliamentProposal → List String
claim_ids [] = []
claim_ids (proposal ∷ proposals) = proposal.supporting_claim_ids ++ claim_ids proposals

evidence_ids : List ParliamentProposal → List String
evidence_ids [] = []
evidence_ids (proposal ∷ proposals) = proposal.evidence_ids ++ evidence_ids proposals

-- `_supporting_claim_ids`
unfoldable pub supporting_claim_ids : ParliamentSession → List String
unfolding claim_ids sorted_set
supporting_claim_ids parliament = sorted_set (claim_ids parliament.proposals)

-- `_supporting_evidence_ids`
unfoldable pub supporting_evidence_ids : ParliamentSession → List String
unfolding evidence_ids sorted_set
supporting_evidence_ids parliament = sorted_set (evidence_ids parliament.proposals)

-- `_plan_annotations`
unfoldable pub plan_annotations : OptimizationRequest → JsonObject
plan_annotations request = elim (get request.constraints "plan_annotations") [
  | some (obj o) ↦ o
  | _ ↦ end
]

-- `bool(constraints.get("provider_evidence_required", False))`
unfoldable pub evidence_required : OptimizationRequest → Bool
unfolding truthy
evidence_required request = elim (get request.constraints "provider_evidence_required") [
  | none ↦ false
  | some v ↦ truthy v
]

-- `_all_evidence_ids`
unfoldable pub all_evidence_ids : List ParliamentProposal → List String
unfolding evidence_ids sorted_set
all_evidence_ids proposals = sorted_set (evidence_ids proposals)

-- `_repeated_evidence_ids`: cited twice in this round, or seen in an earlier one.
unfoldable pub repeated_evidence_ids : List ParliamentProposal → List String → List String
unfolding evidence_ids sorted_set contains count
repeated_evidence_ids proposals seen_evidence_ids =
    let cited = evidence_ids proposals in
    sorted_set (keep (λ i. ltb 1 (count i cited)) cited ++ keep (contains cited) seen_evidence_ids)
