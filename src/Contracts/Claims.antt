-- ===== src/Contracts/Claims.antt =====
-- contracts/claims.py and contracts/evidence.py.
use civitas.Prelude.{ℕ, Option, List, String}
use civitas.Contracts.Json.{JsonValue, JsonObject}

-- `exactly_one_validity_form`: a claim has an instant or an interval.
pub data Validity : Type 0 where
  valid_at : ℕ → Validity
  valid_during : (starts_at ends_at : ℕ) → Validity

pub record ClaimScope : Type 0 where
  pub organization_id : String
  pub sku_id : Option String
  pub warehouse_id : Option String
  pub supplier_id : Option String

pub record TypedClaim : Type 0 where
  pub claim_id : String
  pub subject : String
  pub predicate : String
  pub value : JsonValue
  pub unit : Option String
  pub validity : Validity
  pub scope : ClaimScope
  pub human_summary : String

pub data EvidenceOrigin : Type 0 where
  external agent_derived : EvidenceOrigin

pub record EvidenceIdentity : Type 0 where
  pub canonical_source_id : String
  pub canonical_source_type : String
  pub mcp_server : Option String
  pub tool_name : Option String
  pub normalized_arguments : JsonObject
  pub retrieved_at : ℕ
  pub observation_version : Option String
  pub raw_response_sha256 : String

pub record EvidenceRecord : Type 0 where
  pub evidence_id : String
  pub claim_ids : List String
  pub identity : EvidenceIdentity
  pub origin : EvidenceOrigin
  pub agent_id : Option String
  pub content_summary : String
  pub derived_from : List String
  pub raw_payload : Option JsonObject
