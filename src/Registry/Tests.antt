-- ===== src/Registry/Tests.antt =====
-- The registry of core/registry/src/openroad_platform_registry/registry.py at concrete plugins.
use chip_evolve.Base.{
  ◌≡◌, refl, true, false, Option, none, some, List, [], ◌∷◌, String, str_eq, pos, first, select,
  some_row, list_eq, not, if◌then◌else◌,
}
use chip_evolve.Contracts.Names.{is_identifier, is_optional_identifier, starts_with}
use chip_evolve.Contracts.Task.{has_text}
use chip_evolve.Contracts.Plugin.{
  PluginManifest, is_valid_manifest, is_valid_requirements, is_text_list,
}
use chip_evolve.Registry.Records.{
  Admission, RegisteredPlugin, granted, refused, text, AdmissionPayload, admission_of,
  validate_admission, all_known, get, is_executable_license, provenance_of, is_admitted,
  not_admitted, lacks_capability, lacks_arch, other_revision,
}
use chip_evolve.Registry.Loading.{
  Content, absent, holds, Checkout, resolve_entries, load_provenance, load_admission, same_revision,
  load_plugin, register, from_directory, has_identity, with_entry, unknown_admission,
}
use chip_evolve.Registry.Lookup.{resolve, lacks}
use chip_evolve.Registry.Reviewed.{IsReviewed, only_admitted_resolves}
use chip_evolve.Registry.Exact.{resolve_exact}

abbrev manifest : String → PluginManifest
manifest id = record {
  plugin_id = id;
  plugin_version = "1.0";
  adapter_entry = "python3" ∷ "./adapter.py" ∷ [];
  capabilities = "synthesis" ∷ [];
  supported_arch = "x86_64" ∷ [];
  default_timeout_seconds = pos 3600;
  artifact_rules = "[]";
  environment = [];
  toolkit = "{}";
  requirements = record {
    require_protocol_receipt = false;
    environment_receipt_variable = none;
    require_experiment_protocol = false;
    require_protected_evaluation = false;
    resumable = false;
  };
  progress_marker = "STAGE";
  schema_version = 3;
}

abbrev checkout : String → String → Checkout
checkout id commit = record {
  manifest_path = id;
  manifest = holds (manifest id);
  provenance = holds (("source_commit", text commit) ∷ []);
  candidate = λ item. some "/plugins/adapter.py";
}

-- The platform has admitted yosys at one commit, and no other plugin.
abbrev review : AdmissionPayload
review =
    ("status", some "admitted")
    ∷ ("license_review", some "Green")
    ∷ ("approved_commit", some "c0ffee")
    ∷ []

abbrev files : String → Content AdmissionPayload
files id = if str_eq id "yosys" then holds review else absent

abbrev plugin : String → Admission → RegisteredPlugin
plugin id admission = record {
  manifest = with_entry (manifest id) ("python3" ∷ "/plugins/adapter.py" ∷ []);
  admission = admission;
  provenance = record {
    license = none;
    source_url = none;
    source_commit = some "c0ffee";
    notes = none;
  };
  manifest_path = id;
  adapter_entry = "python3" ∷ "/plugins/adapter.py" ∷ [];
}

abbrev admitted : Admission
admitted = record {
  plugin_id = "yosys";
  status = "admitted";
  license_review = some "Green";
  approved_commit = some "c0ffee";
  reviewer = none;
  reason = none;
}

abbrev yosys : RegisteredPlugin
yosys = plugin "yosys" admitted

abbrev other_tool : RegisteredPlugin
other_tool = plugin "klayout" (unknown_admission "klayout" "no admission record")

abbrev root : Option (List Checkout)
root = some (checkout "klayout" "c0ffee" ∷ checkout "yosys" "c0ffee" ∷ [])

discovered : from_directory root (some files) ≡ granted (other_tool ∷ yosys ∷ [])
unfolding from_directory load_plugin resolve_entries load_provenance load_admission same_revision
    register provenance_of admission_of validate_admission all_known get is_executable_license
    is_valid_manifest is_valid_requirements is_text_list is_identifier is_optional_identifier
    starts_with some_row list_eq
discovered = refl

-- A checkout of another revision is not registered.
moved_on :
    from_directory (some (checkout "yosys" "decaf" ∷ [])) (some files) ≡ refused other_revision
unfolding from_directory load_plugin resolve_entries load_provenance load_admission same_revision
    register provenance_of admission_of validate_admission all_known get is_executable_license
    is_valid_manifest is_valid_requirements is_text_list is_identifier is_optional_identifier
    starts_with some_row list_eq
moved_on = refl

yosys_resolves :
    resolve "yosys" none (some "synthesis") (some "x86_64") true (other_tool ∷ yosys ∷ [])
    ≡ granted yosys.manifest
unfolding resolve select has_text
yosys_resolves = refl

only_admitted_resolves_example :
    (p : RegisteredPlugin) × (p.manifest ≡ yosys.manifest)
    × (f : String → Content AdmissionPayload) × (some files ≡ some f)
    × IsReviewed f p
only_admitted_resolves_example =
    only_admitted_resolves (some files) root (other_tool ∷ yosys ∷ []) "yosys" none
      (some "synthesis") (some "x86_64") yosys.manifest discovered yosys_resolves

klayout_found : first (has_identity "klayout" "1.0") (other_tool ∷ yosys ∷ []) ≡ some other_tool
unfolding first
klayout_found = refl

resolve_exact_example :
    resolve "klayout" (some "1.0") (some "drc") none true (other_tool ∷ yosys ∷ []) ≡ (
      if not (is_admitted other_tool.admission)
      then refused not_admitted
      else if lacks (some "drc") other_tool.manifest.capabilities
      then refused lacks_capability
      else if lacks none other_tool.manifest.supported_arch
      then refused lacks_arch
      else granted other_tool.manifest)
resolve_exact_example =
    resolve_exact (some files) root (other_tool ∷ yosys ∷ []) "klayout" "1.0" (some "drc") none
      other_tool discovered klayout_found
