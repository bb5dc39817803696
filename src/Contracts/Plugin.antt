-- ===== src/Contracts/Plugin.antt =====
-- contracts/src/openroad_platform_contracts/task.py: what a plugin declares and what it reports.
use chip_evolve.Base.{
  ℕ, Bool, true, false, ◌&&◌, not, Option, none, some, List, [], ◌∷◌, leb, ◌==◌, String, str_eq,
  codes, ℤ, pos, negsuc, is_positive,
}
use chip_evolve.Contracts.Names.{schema_version, is_identifier, is_optional_identifier, length}
use chip_evolve.Contracts.Status.{
  RuntimeStatus, succeeded, failed, cancelled, timed_out, contains, same,
}
use chip_evolve.Contracts.Task.{Labels, all_non_empty}

pub record RuntimeRequirements : Type 0 where
  pub require_protocol_receipt : Bool
  pub environment_receipt_variable : Option String
  pub require_experiment_protocol : Bool
  pub require_protected_evaluation : Bool
  pub resumable : Bool

-- `not value`, of an optional text
abbrev pub is_blank_text : Option String → Bool
is_blank_text none = true
is_blank_text (some s) = str_eq s ""

-- RuntimeRequirements.validate
unfoldable pub is_valid_requirements : RuntimeRequirements → Bool
is_valid_requirements r =
    not (r.require_protocol_receipt && is_blank_text r.environment_receipt_variable)
    && is_optional_identifier r.environment_receipt_variable
    && not (r.require_experiment_protocol && not r.require_protocol_receipt)

-- The rules for artifacts and the toolkit, free-form JSON, are held as their text.
pub record PluginManifest : Type 0 where
  pub plugin_id : String
  pub plugin_version : String
  pub adapter_entry : List String
  pub capabilities : List String
  pub supported_arch : List String
  pub default_timeout_seconds : ℤ
  pub artifact_rules : String
  pub environment : Labels
  pub toolkit : String
  pub requirements : RuntimeRequirements
  pub progress_marker : String
  pub schema_version : ℕ

-- A non-empty list of non-empty texts
unfoldable pub is_text_list : List String → Bool
unfolding all_non_empty
is_text_list [] = false
is_text_list (t ∷ ts) = all_non_empty (t ∷ ts)

-- PluginManifest.validate
unfoldable pub is_valid_manifest : PluginManifest → Bool
is_valid_manifest m =
    m.schema_version == schema_version
    && is_identifier m.plugin_id
    && is_identifier m.plugin_version
    && is_text_list m.adapter_entry
    && is_text_list m.capabilities
    && is_text_list m.supported_arch
    && is_positive m.default_timeout_seconds
    && not (str_eq m.progress_marker "")
    && leb (length (codes m.progress_marker)) 32
    && is_valid_requirements m.requirements

-- Of an artifact that a plugin reports, its kind and its path, where they are texts.
pub record ReportedArtifact : Type 0 where
  pub kind : Option String
  pub path : Option String

pub record PluginResult : Type 0 where
  pub status : RuntimeStatus
  pub exit_code : ℤ
  pub started_at : String
  pub ended_at : String
  pub artifacts : List ReportedArtifact
  pub schema_version : ℕ

abbrev is_text : Option String → Bool
is_text none = false
is_text (some s) = true

all_described : List ReportedArtifact → Bool
all_described [] = true
all_described (a ∷ rest) = is_text a.kind && is_text a.path && all_described rest

abbrev is_zero : ℤ → Bool
is_zero (pos n) = n == 0
is_zero (negsuc n) = false

-- PluginResult.validate
unfoldable pub is_valid_result : PluginResult → Bool
unfolding all_described
is_valid_result r =
    r.schema_version == schema_version
    && contains (succeeded ∷ failed ∷ cancelled ∷ timed_out ∷ []) r.status
    && not (same r.status succeeded && not (is_zero r.exit_code))
    && not (str_eq r.started_at "")
    && not (str_eq r.ended_at "")
    && all_described r.artifacts
