-- ===== src/Registry/Loading.antt =====
-- Discovery of plugins in core/registry/src/openroad_platform_registry/registry.py: from_directory, register
-- and _load_plugin. What the file system holds is an argument.
use chip_evolve.Base.{
  ℕ, Bool, false, ◌&&◌, ◌||◌, not, Option, none, some, List, [], ◌∷◌, ◌++◌, ◌==◌, if◌then◌else◌,
  String, str_eq, codes, some_row, opt_str_eq,
}
use chip_evolve.Contracts.Names.{starts_with}
use chip_evolve.Contracts.Plugin.{PluginManifest, is_valid_manifest, is_blank_text}
use chip_evolve.Registry.Records.{
  Provenance, Admission, RegisteredPlugin, invalid_manifest, entry_escapes, other_revision,
  intake_mismatch, already_registered, no_root, contract_error, Answer, granted, refused, ◌>>=◌,
  ◌>>◌, ensure, validate_admission, Json, provenance_of, AdmissionPayload, admission_of,
}

-- A JSON file: it is not there, it cannot be read or parsed, or it holds an object.
pub data Content (P : Type 0) : Type 0 where
  absent unreadable : Content P
  holds : P → Content P

-- What a plugin's directory holds. A manifest that PluginManifest.from_dict cannot build is unreadable;
-- its validation comes after. `candidate` is `(directory / item[2:]).resolve()` of an entry `./item`, or
-- none where that lies outside the directory.
pub record Checkout : Type 0 where
  pub manifest_path : String
  pub manifest : Content PluginManifest
  pub provenance : Content (List (String × Json))
  pub candidate : String → Option String

-- The admission records of the platform by plugin id, if a directory for them is configured.
abbrev pub Admissions : Type 0
Admissions = Option (String → Content AdmissionPayload)

has_middle : List ℕ → Bool
has_middle (a ∷ b ∷ c ∷ d ∷ rest) =
    a == b'/' && b == b'.' && c == b'.' && d == b'/' || has_middle (b ∷ c ∷ d ∷ rest)
has_middle _ = false

-- `item.startswith("../") or "/../" in item`
unfoldable pub climbs_out : String → Bool
unfolding has_middle
climbs_out item = starts_with item "../" || has_middle (codes item)

resolve_entry : (String → Option String) → String → Answer String
resolve_entry candidate item =
    if starts_with item "./"
    then (elim (candidate item) [ none ↦ refused entry_escapes | some path ↦ granted path ])
    else if climbs_out item
    then refused entry_escapes
    else granted item

unfoldable pub resolve_entries : (String → Option String) → List String → Answer (List String)
unfolding resolve_entry climbs_out
resolve_entries candidate [] = granted []
resolve_entries candidate (item ∷ items) = do
  first ← resolve_entry candidate item
  rest ← resolve_entries candidate items
  granted (first ∷ rest)

abbrev pub unstated : Option String → Provenance
unstated notes = record { license = none; source_url = none; source_commit = none; notes = notes }

-- _load_provenance
unfoldable pub load_provenance : Content (List (String × Json)) → Answer Provenance
load_provenance absent = granted (unstated none)
load_provenance unreadable = granted (unstated (some "provenance.json is unreadable"))
load_provenance (holds payload) = provenance_of payload

abbrev pub unknown_admission : String → String → Admission
unknown_admission plugin_id reason = record {
  plugin_id = plugin_id;
  status = "unknown";
  license_review = none;
  approved_commit = none;
  reviewer = none;
  reason = some reason;
}

-- _load_admission; of the reasons, the beginnings
unfoldable pub load_admission : String → Admissions → Answer Admission
load_admission plugin_id none =
    granted (unknown_admission plugin_id "no admissions directory was configured")
load_admission plugin_id (some files) = elim (files plugin_id) [
  | absent ↦ granted (unknown_admission plugin_id "no admission record")
  | unreadable ↦ granted (unknown_admission plugin_id "admission record is unreadable")
  | holds payload ↦ admission_of plugin_id payload
]

-- _check_reviewed_commit: whether it returns
unfoldable pub same_revision : Admission → Provenance → Bool
same_revision a p =
    is_blank_text a.approved_commit
    || is_blank_text p.source_commit
    || opt_str_eq a.approved_commit p.source_commit

abbrev pub with_entry : PluginManifest → List String → PluginManifest
with_entry m resolved = record m { adapter_entry = resolved }

-- The part of _load_plugin after the manifest is read.
unfoldable pub load_manifest : Admissions → Checkout → PluginManifest → Answer RegisteredPlugin
load_manifest admissions checkout m = do
  ensure (is_valid_manifest m) invalid_manifest
  resolved ← resolve_entries checkout.candidate m.adapter_entry
  provenance ← load_provenance checkout.provenance
  admission ← load_admission m.plugin_id admissions
  ensure (same_revision admission provenance) other_revision
  granted (record {
    manifest = with_entry m resolved;
    admission = admission;
    provenance = provenance;
    manifest_path = checkout.manifest_path;
    adapter_entry = resolved;
  })

-- _load_plugin
unfoldable pub load_plugin : Admissions → Checkout → Answer RegisteredPlugin
unfolding load_manifest
load_plugin admissions checkout = elim checkout.manifest [
  | absent ↦ refused invalid_manifest
  | unreadable ↦ refused invalid_manifest
  | holds m ↦ load_manifest admissions checkout m
]

abbrev pub has_identity : String → String → RegisteredPlugin → Bool
has_identity plugin_id version p =
    str_eq p.manifest.plugin_id plugin_id && str_eq p.manifest.plugin_version version

-- register, on the plugins in the order in which they were registered
unfoldable pub register : RegisteredPlugin → List RegisteredPlugin → Answer (List RegisteredPlugin)
register p plugins = do
  ensure (is_valid_manifest p.manifest) contract_error
  validate_admission p.admission
  ensure (str_eq p.admission.plugin_id p.manifest.plugin_id) intake_mismatch
  ensure (not (some_row (has_identity p.manifest.plugin_id p.manifest.plugin_version) plugins))
      already_registered
  granted (plugins ++ p ∷ [])

unfoldable pub register_all :
    Admissions → List Checkout → List RegisteredPlugin → Answer (List RegisteredPlugin)
register_all admissions [] plugins = granted plugins
register_all admissions (c ∷ cs) plugins = do
  p ← load_plugin admissions c
  more ← register p plugins
  register_all admissions cs more

-- from_directory, of the manifests below the root in the order of their paths; none if the root is no
-- directory
unfoldable pub from_directory : Option (List Checkout) → Admissions → Answer (List RegisteredPlugin)
unfolding register_all
from_directory none admissions = refused no_root
from_directory (some checkouts) admissions = register_all admissions checkouts []
