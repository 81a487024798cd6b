-- ===== src/Evidence/Jury/Samples.antt =====
-- A claim that well-supported evidence is about, and a Dissent check that was completed.
use civitas.Prelude.{true, false, none, some, [], ◌∷◌}
use civitas.Contracts.{TypedClaim, Validity, EvidenceRecord, EvidenceOrigin, num, end}
use civitas.Evidence.Dissent.{DissentReport, DissentPhase}
use civitas.Evidence.Jury.{IntegrityPolicy}
use civitas.Evidence.Jury.Integrity.{Sources, Freshness}

abbrev pub policy : IntegrityPolicy
policy = record {
  version = "decision-integrity-v1";
  implementation_version = "evidence-jury-1.0.0";
  approval_threshold = 8500;
  investigation_threshold = 6000;
}

abbrev pub freshness : Freshness
freshness = record { freshness_ttls = ("unit_price", 600) ∷ []; default_freshness_ttl = 86400 }

-- Two independent sources of two types support every claim.
abbrev pub sources : Sources
sources = record {
  claim_source_groups = λ claims evidence id. "supplier:acme" ∷ "market:index" ∷ [];
  effective_source_groups = λ claims evidence id. "supplier:acme" ∷ [];
  dependencies = λ claims evidence id. [];
  has_complete_lineage = λ claims evidence id. true;
  detect_contradictions = λ claims critical. [];
  normalize_predicate = λ predicate. predicate;
}

abbrev pub claim : TypedClaim
claim = record {
  claim_id = "claim-1";
  subject = "acme";
  predicate = "unit_price";
  value = num 12;
  unit = none;
  validity = Validity.valid_at 100;
  scope = record {
    organization_id = "org";
    sku_id = none;
    warehouse_id = none;
    supplier_id = none;
  };
  human_summary = "price";
}

abbrev pub evidence : EvidenceRecord
evidence = record {
  evidence_id = "evidence-1";
  claim_ids = "claim-1" ∷ [];
  identity = record {
    canonical_source_id = "acme";
    canonical_source_type = "supplier";
    mcp_server = some "supplier-server";
    tool_name = some "get_offers";
    normalized_arguments = end;
    retrieved_at = 90;
    observation_version = none;
    raw_response_sha256 = "0000000000000000000000000000000000000000000000000000000000000000";
  };
  origin = EvidenceOrigin.external;
  agent_id = none;
  content_summary = "offer";
  derived_from = [];
  raw_payload = none;
}

abbrev pub dissent : DissentReport
dissent = record {
  plan = record {
    context_id = "dissent-1";
    memory_namespace = "memory";
    tool_cache_namespace = "cache";
    checks = "price" ∷ [];
    tool_budget = 3;
    read_only = true;
  };
  phase = DissentPhase.comparison_complete;
  fresh_evidence_ids = "evidence-2" ∷ [];
  checked_claim_ids = "claim-1" ∷ [];
  unavailable_checks = [];
  contradiction_ids = [];
  establishes_invalidity = false;
  failure_reason = none;
}
