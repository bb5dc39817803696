-- ===== src/Registry/Records.antt =====
-- Provenance, Admission and RegisteredPlugin of core/registry/src/openroad_platform_registry/registry.py.
use chip_evolve.Base.{
  Bool, true, false, ◌&&◌, ◌||◌, not, Option, none, some, List, [], ◌∷◌, ◌==◌, if◌then◌else◌,
  String, str_eq, codes, list_eq, opt_str_eq, is_some,
}
use chip_evolve.Contracts.Names.{is_identifier}
use chip_evolve.Contracts.Plugin.{PluginManifest, is_blank_text}
use chip_evolve.Identity.Names.{fold_case}

pub record Provenance : Type 0 where
  pub license : Option String
  pub source_url : Option String
  pub source_commit : Option String
  pub notes : Option String

pub record Admission : Type 0 where
  pub plugin_id : String
  pub status : String
  pub license_review : Option String
  pub approved_commit : Option String
  pub reviewer : Option String
  pub reason : Option String

pub record RegisteredPlugin : Type 0 where
  pub manifest : PluginManifest
  pub admission : Admission
  pub provenance : Provenance
  pub manifest_path : String
  pub adapter_entry : List String

-- RegistryError, by the place that raises it; `contract_error` is the contracts' ContractError.
pub data RegistryError : Type 0 where
  unknown_fields not_a_string unknown_status license_not_executable unpinned no_reason :
      RegistryError
  other_plugin_declared invalid_manifest entry_escapes other_revision : RegistryError
  intake_mismatch already_registered unknown_plugin several_versions : RegistryError
  not_admitted lacks_capability lacks_arch not_one no_root contract_error : RegistryError

pub data Answer {ℓ} (A : Type ℓ) : Type ℓ where
  refused : RegistryError → Answer A
  granted : A → Answer A

abbrev pub ◌>>=◌ {ℓ μ} : {X : Type ℓ} {Y : Type μ} → Answer X → (X → Answer Y) → Answer Y
refused why >>= next = refused why
granted x >>= next = next x

-- A check, and what comes after it.
abbrev pub ◌>>◌ {μ} : {Y : Type μ} → Answer (Unit {0}) → Answer Y → Answer Y
check >> next = check >>= λ passed. next

infixl 5 ◌>>=◌ ◌>>◌
-- `if not test: raise RegistryError`
abbrev pub ensure : Bool → RegistryError → Answer (Unit {0})
ensure false why = refused why
ensure true why = granted tt

-- EXECUTABLE_LICENSES, of a licence in lower case
unfoldable pub is_executable_license : Option String → Bool
unfolding list_eq fold_case
is_executable_license none = false
is_executable_license (some s) =
    list_eq (λ a b. fold_case a == b) (codes s) (codes "green")
    || list_eq (λ a b. fold_case a == b) (codes s) (codes "yellow")

abbrev pub is_admitted : Admission → Bool
is_admitted a = str_eq a.status "admitted"

-- Admission.validate
unfoldable pub validate_admission : Admission → Answer (Unit {0})
validate_admission a = do
  ensure (is_identifier a.plugin_id) contract_error
  ensure (is_admitted a || str_eq a.status "source-audit-only" || str_eq a.status "unknown")
      unknown_status
  if is_admitted a
      then (do
        ensure (is_executable_license a.license_review) license_not_executable
        ensure (not (is_blank_text a.approved_commit)) unpinned)
      else ensure (not (is_blank_text a.reason)) no_reason

-- A JSON value, as far as the code tells it apart.
pub data Json : Type 0 where
  null : Json
  text : String → Json
  other : Json

-- `payload.get(key)`, of an object by its entries; a missing key is None.
unfoldable pub get {ℓ} : {A : Type ℓ} → String → List (String × A) → Option A
get key [] = none
get key ((k, v) ∷ rest) = if str_eq k key then some v else get key rest

unfoldable pub all_known {ℓ} : {A : Type ℓ} → (String → Bool) → List (String × A) → Bool
all_known known [] = true
all_known known ((k, v) ∷ rest) = known k && all_known known rest

abbrev pub is_provenance_field : String → Bool
is_provenance_field k =
    str_eq k "license" || str_eq k "source_url" || str_eq k "source_commit" || str_eq k "notes"

is_string_or_null : Option Json → Bool
is_string_or_null (some other) = false
is_string_or_null _ = true

text_of : Option Json → Option String
text_of (some (text s)) = some s
text_of _ = none

-- Provenance.from_dict
unfoldable pub provenance_of : List (String × Json) → Answer Provenance
unfolding is_string_or_null text_of
provenance_of payload = do
  ensure (all_known is_provenance_field payload) unknown_fields
  ensure
      (is_string_or_null (get "license" payload)
        && is_string_or_null (get "source_url" payload)
        && is_string_or_null (get "source_commit" payload)
        && is_string_or_null (get "notes" payload))
      not_a_string
  granted (record {
    license = text_of (get "license" payload);
    source_url = text_of (get "source_url" payload);
    source_commit = text_of (get "source_commit" payload);
    notes = text_of (get "notes" payload);
  })

abbrev pub is_admission_field : String → Bool
is_admission_field k =
    str_eq k "plugin_id"
    || str_eq k "status"
    || str_eq k "license_review"
    || str_eq k "approved_commit"
    || str_eq k "reviewer"
    || str_eq k "reason"

-- The values of an admission record are texts or null (none), as the fields are declared.
abbrev pub AdmissionPayload : Type 0
AdmissionPayload = List (String × Option String)

abbrev pub entry : String → AdmissionPayload → Option String
entry key payload = elim (get key payload) [ none ↦ none | some v ↦ v ]

-- `str(payload.get("status", UNKNOWN))`
abbrev pub status_of : AdmissionPayload → String
status_of payload = elim (get "status" payload) [
  | none ↦ "unknown"
  | some v ↦ (elim v [ none ↦ "None" | some s ↦ s ])
]

abbrev pub admission_record : String → AdmissionPayload → Admission
admission_record plugin_id payload = record {
  plugin_id = plugin_id;
  status = status_of payload;
  license_review = entry "license_review" payload;
  approved_commit = entry "approved_commit" payload;
  reviewer = entry "reviewer" payload;
  reason = entry "reason" payload;
}

-- Admission.from_dict
unfoldable pub admission_of : String → AdmissionPayload → Answer Admission
admission_of plugin_id payload = do
  ensure (all_known is_admission_field payload) unknown_fields
  ensure
      (not (is_some (entry "plugin_id" payload))
        || opt_str_eq (entry "plugin_id" payload) (some plugin_id))
      other_plugin_declared
  validate_admission (admission_record plugin_id payload)
  granted (admission_record plugin_id payload)
