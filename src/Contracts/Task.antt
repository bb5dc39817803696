-- ===== src/Contracts/Task.antt =====
-- contracts/src/openroad_platform_contracts/task.py: one reviewed, bounded request.
use chip_evolve.Base.{
  ℕ, Bool, true, false, ◌&&◌, ◌||◌, not, Option, none, some, List, [], ◌∷◌, map, ◌==◌, String,
  str_eq, is_some, ℤ, is_positive,
}
use chip_evolve.Contracts.Names.{
  schema_version, is_identifier, is_optional_identifier, is_optional_sha256,
}
use chip_evolve.Contracts.Resources.{ResourceRequest, is_valid_request}
use chip_evolve.Contracts.Input.{InputFile, is_valid_input}

-- A JSON object of texts, by its entries.
abbrev pub Labels : Type 0
Labels = List (String × String)

-- The free-form mappings, which the platform stores and compares and never reads, are held as their
-- canonical JSON text (`json.dumps(…, sort_keys=True)`), the form in which the store keeps them.
pub record TaskSpec : Type 0 where
  pub task_id : String
  pub project_id : String
  pub design_id : String
  pub design_revision_id : Option String
  pub experiment_id : Option String
  pub input_manifest_sha256 : Option String
  pub plugin_id : Option String
  pub plugin_version : Option String
  pub inputs : String
  pub parameters : String
  pub staged_inputs : List InputFile
  pub resources : Option ResourceRequest
  pub timeout_seconds : ℤ
  pub max_attempts : ℤ
  pub expected_artifacts : List String
  pub labels : Labels
  pub schema_version : ℕ

all_valid_inputs : List InputFile → Bool
all_valid_inputs [] = true
all_valid_inputs (f ∷ fs) = is_valid_input f && all_valid_inputs fs

unfoldable pub has_text : List String → String → Bool
has_text [] s = false
has_text (t ∷ ts) s = str_eq t s || has_text ts s

-- `len(set(texts)) == len(texts)`
unfoldable pub all_different : List String → Bool
unfolding has_text
all_different [] = true
all_different (t ∷ ts) = not (has_text ts t) && all_different ts

unfoldable pub all_non_empty : List String → Bool
all_non_empty [] = true
all_non_empty (t ∷ ts) = not (str_eq t "") && all_non_empty ts

unfoldable pub valid_resources : Option ResourceRequest → Bool
valid_resources none = true
valid_resources (some r) = is_valid_request r

-- TaskSpec.validate
unfoldable pub is_valid_task : TaskSpec → Bool
unfolding all_valid_inputs all_non_empty valid_resources
is_valid_task t =
    t.schema_version == schema_version
    && is_identifier t.task_id
    && is_identifier t.project_id
    && is_identifier t.design_id
    && is_optional_identifier t.design_revision_id
    && is_optional_identifier t.experiment_id
    && is_optional_sha256 t.input_manifest_sha256
    && is_some t.plugin_id
    && is_optional_identifier t.plugin_id
    && is_optional_identifier t.plugin_version
    && all_valid_inputs t.staged_inputs
    && all_different (map (λ f. f.destination) t.staged_inputs)
    && valid_resources t.resources
    && is_positive t.timeout_seconds
    && is_positive t.max_attempts
    && all_non_empty t.expected_artifacts
