-- ===== src/Evidence/Jury/Integrity.antt =====
-- evidence/jury.py: DecisionIntegrityCalculator. What it asks of the evidence graph, of the claim
-- normaliser and of the contradiction detector is a record of operations.
use civitas.Prelude.{
  ℕ, suc, ◌*◌, ◌-◌, min, leb, ◌==◌, Bool, true, false, not, ◌&&◌, Option, none, some, is_some, List,
  [], ◌∷◌, ◌++◌, length, map, any, keep, String, is_blank, str_eq, contains, intersects, unique,
  sorted, Dict, lookup, if◌then◌else◌,
}
use Prim.Native.Char.{code}
use civitas.Contracts.{TypedClaim, EvidenceRecord, IntegrityComponents}
use civitas.Evidence.Dissent.{robustness_score, nonempty}
use civitas.Evidence.Scores.{percentage, average, weighted_score}
use civitas.Evidence.Jury.{Contradiction, JuryInputs, IntegrityCalculation, critical_ids}

-- LineageAnalyzer over the projected graph, detect_contradictions and normalize_predicate.
pub record Sources : Type 0 where
  pub claim_source_groups : List TypedClaim → List EvidenceRecord → String → List String
  pub effective_source_groups : List TypedClaim → List EvidenceRecord → String → List String
  pub dependencies : List TypedClaim → List EvidenceRecord → String → List String
  pub has_complete_lineage : List TypedClaim → List EvidenceRecord → String → Bool
  pub detect_contradictions : List TypedClaim → List String → List Contradiction
  pub normalize_predicate : String → String

-- IntegrityPolicyV1: two sources, of two types, make a claim independent and diverse.
abbrev pub required_independent_sources : ℕ
required_independent_sources = 2

abbrev pub required_source_types : ℕ
required_source_types = 2

-- `freshness_ttls` and `default_freshness_ttl`
pub record Freshness : Type 0 where
  pub freshness_ttls : Dict ℕ
  pub default_freshness_ttl : ℕ

-- `{claim.claim_id: claim for claim in claims}.get(claim_id)`: the last of a repeated id.
unfoldable pub claim_by_id : List TypedClaim → String → Option TypedClaim
claim_by_id [] id = none
claim_by_id (c ∷ cs) id =
    let later = claim_by_id cs id in
    let here = if str_eq c.claim_id id then some c else none in
    elim later [ none ↦ here | some found ↦ some found ]

abbrev filled : Option String → Bool
filled none = false
filled (some s) = not (is_blank s)

abbrev text_length : String → ℕ
text_length String.[] = 0
text_length (String.◌∷◌ c s) = suc (text_length s)

-- `sum(fields)` over Booleans
abbrev pub count_true : List Bool → ℕ
count_true [] = 0
count_true (b ∷ bs) = let rest = count_true bs in if b then suc rest else rest

-- `fields` of `_provenance_score`; every instant of the model has a time zone.
unfoldable pub provenance_fields : EvidenceRecord → Bool → List Bool
provenance_fields item complete_lineage =
    let identity = item.identity in
    not (is_blank identity.canonical_source_id)
    ∷ not (is_blank identity.canonical_source_type)
    ∷ filled identity.mcp_server
    ∷ filled identity.tool_name
    ∷ true
    ∷ (text_length identity.raw_response_sha256 == 64)
    ∷ complete_lineage
    ∷ []

-- `_provenance_score`
unfoldable pub provenance_score : EvidenceRecord → Bool → ℕ
provenance_score item complete_lineage =
    let fields = provenance_fields item complete_lineage in
    percentage (count_true fields) (length fields)

abbrev has_text : Option String → Bool
has_text none = false
has_text (some s) = not (str_eq s "")

-- `_is_fresh`
unfoldable pub is_fresh : EvidenceRecord → ℕ → ℕ → Bool
is_fresh item calculated_at ttl =
    let retrieved_at = item.identity.retrieved_at in
    if ttl == 0
    then has_text item.identity.observation_version
    else leb retrieved_at calculated_at && leb (calculated_at - retrieved_at) ttl

abbrev concat : List (List String) → List String
concat [] = []
concat (xs ∷ xss) = xs ++ concat xss

-- `group.split(":", maxsplit=1)[0]`
unfoldable pub source_type : String → String
source_type String.[] = String.[]
source_type (String.◌∷◌ c s) =
    let rest = source_type s in if code c == 58 then String.[] else String.◌∷◌ c rest

module _ (sources : Sources) (freshness : Freshness) where
  module _ (inputs : JuryInputs) where
    -- `source_groups[claim_id]`
    unfoldable pub source_groups : String → List String
    unfolding claim_by_id
    source_groups claim_id =
        if is_some (claim_by_id inputs.claims claim_id)
        then unique (sources.claim_source_groups inputs.claims inputs.evidence claim_id)
        else []

    -- `_relevant_evidence`
    unfoldable pub relevant_evidence : List String → List EvidenceRecord
    relevant_evidence critical =
        let direct = keep (λ r. intersects r.claim_ids critical) inputs.evidence in
        let parents =
          concat
            (map (λ r. sources.dependencies inputs.claims inputs.evidence r.evidence_id) direct) in
        let relevant_ids = map (λ r. r.evidence_id) direct ++ parents in
        keep (λ r. contains relevant_ids r.evidence_id) inputs.evidence

    -- One turn of the freshness loop: whether the claim has fresh external support.
    unfoldable pub claim_is_fresh : ℕ → List String → String → Bool
    unfolding claim_by_id relevant_evidence is_fresh
    claim_is_fresh calculated_at critical claim_id = elim (claim_by_id inputs.claims claim_id) [
      | none ↦ false
      | some claim ↦
          let supporting =
            keep
              (λ r.
                contains r.claim_ids claim_id
                && nonempty
                    (sources.effective_source_groups inputs.claims inputs.evidence r.evidence_id))
              (relevant_evidence critical) in
          let ttl : ℕ =
            elim (lookup (sources.normalize_predicate claim.predicate) freshness.freshness_ttls) [
              | none ↦ freshness.default_freshness_ttl
              | some ttl ↦ ttl
            ] in
          any (λ r. is_fresh r calculated_at ttl) supporting
    ]

    abbrev pub dissent_score : ℕ
    dissent_score = elim inputs.dissent [ none ↦ 0 | some report ↦ robustness_score report ]

  unfoldable pub calculate : JuryInputs → ℕ → List String → IntegrityCalculation
  unfolding source_groups relevant_evidence claim_is_fresh provenance_score
  calculate inputs calculated_at default =
      let critical = unique (critical_ids inputs default) in
      let groups = source_groups inputs in
      let fresh = claim_is_fresh inputs calculated_at critical in
      let unsupported = sorted (keep (λ id. not (nonempty (groups id))) critical) in
      let relevant = relevant_evidence inputs critical in
      let types = unique (map source_type (concat (map groups critical))) in
      let contradictions = sources.detect_contradictions inputs.claims critical in
      let unresolved =
        keep (λ item. not (contains inputs.resolved_contradiction_ids item.contradiction_id))
          contradictions in
      let components : IntegrityComponents = record {
        critical_claim_coverage =
            percentage (length critical - length unsupported) (length critical);
        evidence_independence =
            average required_independent_sources
              (map (λ id. min required_independent_sources (length (groups id)) * 10000) critical)
              10000;
        provenance_completeness =
            average 1
              (map
                (λ r.
                  provenance_score r
                    (sources.has_complete_lineage inputs.claims inputs.evidence r.evidence_id))
                relevant)
              (if nonempty critical then 0 else 10000);
        evidence_freshness = average 1 (map (λ id. if fresh id then 10000 else 0) critical) 10000;
        canonical_source_diversity =
            if nonempty critical then min required_source_types (length types) * 5000 else 10000;
        contradiction_resolution =
            percentage (length contradictions - length unresolved) (length contradictions);
        dissent_robustness = dissent_score inputs;
      } in
      record {
        components = components;
        score = weighted_score components;
        contradictions = contradictions;
        unsupported_critical_claim_ids = unsupported;
        stale_claim_ids = sorted (keep (λ id. not (fresh id)) critical);
      }
