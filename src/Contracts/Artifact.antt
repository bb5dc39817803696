-- ===== src/Contracts/Artifact.antt =====
-- contracts/src/openroad_platform_contracts/artifact.py: what an adapter declares that it produced,
-- what the platform registers, and metrics.
use chip_evolve.Base.{
  ℕ, Bool, true, false, ◌&&◌, ◌||◌, not, Option, List, [], ◌∷◌, is_some, String, str_eq, codes, ℤ,
}
use chip_evolve.Contracts.Names.{is_identifier, is_optional_identifier, is_relative_path, is_sha256}

-- A JSON object by its keys, each with the JSON text of its value; none is a null.
abbrev pub Metadata : Type 0
Metadata = List (String × Option String)

unfoldable pub one_of : List String → String → Bool
one_of [] s = false
one_of (t ∷ ts) s = str_eq t s || one_of ts s

abbrev pub reserved_artifact_kinds : List String
reserved_artifact_kinds =
    "runtime_protocol_receipt" ∷ "runtime_evidence_request" ∷ "runtime_evidence_result"
    ∷ "runtime_evidence_log" ∷ "runtime_evidence_input_manifest"
    ∷ "runtime_evidence_protocol_receipt" ∷ "runtime_bundle" ∷ "protected_evaluation"
    ∷ "runtime_input_manifest" ∷ []

abbrev pub reserved_metric_context_keys : List String
reserved_metric_context_keys = "runtime_authority" ∷ "official_qor" ∷ []

-- `metadata.get(key) is not None`
unfoldable pub has_value : String → Metadata → Bool
has_value key [] = false
has_value key ((k, value) ∷ rest) = str_eq k key && is_some value || has_value key rest

pub record ArtifactDeclaration : Type 0 where
  pub kind : String
  pub path : String
  pub required : Bool
  pub media_type : Option String
  pub metadata : Metadata
  pub allow_reserved : Bool

-- ArtifactDeclaration.validate
unfoldable pub is_valid_declaration : ArtifactDeclaration → Bool
unfolding one_of has_value
is_valid_declaration d =
    is_identifier d.kind
    && not (one_of reserved_artifact_kinds d.kind && not d.allow_reserved)
    && is_relative_path (codes d.path)
    && not (has_value "runtime_authority" d.metadata)

pub record Artifact : Type 0 where
  pub artifact_id : String
  pub kind : String
  pub store_key : String
  pub sha256 : String
  pub size_bytes : ℕ
  pub media_type : Option String
  pub metadata : Metadata
  pub schema_version : ℕ

-- Artifact.validate, where the size is not negative
unfoldable pub is_valid_artifact : Artifact → Bool
is_valid_artifact a =
    is_identifier a.artifact_id
    && is_identifier a.kind
    && is_relative_path (codes a.store_key)
    && is_sha256 a.sha256

-- The value of a metric: a JSON scalar, with a float by its text, or the JSON text of something else.
pub data Value : Type 0 where
  whole : ℤ → Value
  real : String → Value
  nan : Value
  flag : Bool → Value
  word : String → Value
  structured : String → Value

unfoldable pub is_scalar : Value → Bool
is_scalar nan = false
is_scalar (structured text) = false
is_scalar _ = true

pub record Metric : Type 0 where
  pub name : String
  pub value : Value
  pub unit : Option String
  pub source_artifact_id : Option String
  pub parser_id : Option String
  pub parser_version : Option String
  pub context : Metadata
  pub schema_version : ℕ

-- `RESERVED_METRIC_CONTEXT_KEYS & set(context)`: a reserved key leaks whatever its value
unfoldable pub leaks : Metadata → Bool
unfolding one_of
leaks [] = false
leaks ((k, value) ∷ rest) = one_of reserved_metric_context_keys k || leaks rest

-- Metric.validate
unfoldable pub is_valid_metric : Metric → Bool
unfolding leaks is_scalar
is_valid_metric m =
    is_identifier m.name
    && is_scalar m.value
    && is_optional_identifier m.unit
    && is_optional_identifier m.source_artifact_id
    && is_optional_identifier m.parser_id
    && is_optional_identifier m.parser_version
    && not (leaks m.context)
