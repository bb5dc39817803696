-- ===== src/Custody/Staging.antt =====
-- core/runtime/src/openroad_platform_runtime/runtime.py: the input files of a task, from the manifest of its
-- submission (_input_manifest_digest) to the workspace of its attempt (_stage_inputs,
-- _verify_input_manifest).
use chip_evolve.Base.{
  ℕ, ◌+◌, Bool, true, false, ◌&&◌, ◌||◌, not, Option, none, some, List, [], ◌∷◌, is_some,
  if◌then◌else◌, String, str_eq,
}
use chip_evolve.Contracts.Names.{length}
use chip_evolve.Contracts.Input.{InputFile, StagedInput}
use chip_evolve.Contracts.Artifact.{Artifact}
use chip_evolve.Runtime.Result.{staging_error, Result, ok, err, ◌>>=◌, ◌>>◌, guard}
use chip_evolve.Custody.Objects.{Bytes, Store, Reading, is_intact}
use chip_evolve.Custody.Artifacts.{
  Found, Location, get_artifact, artifact_path, bytes_at, materialize_artifact,
}
use chip_evolve.Custody.Inputs.{get_uploaded_input, materialize_input}

-- What an entry of the input manifest says of a destination.
pub record Entry : Type 0 where
  pub destination : String
  pub present : Bool
  pub sha256 : Option String
  pub size_bytes : ℕ

-- A staged input, and the bytes that were copied to its destination.
pub record Placed : Type 0 where
  pub staged : StagedInput
  pub content : Option Bytes

-- Where the bytes of a staged input come from.
pub record Origin : Type 0 where
  pub source : Option String
  pub artifact_id : Option String
  pub input_id : Option String

abbrev pub of_host : String → Origin
of_host path = record { source = some path; artifact_id = none; input_id = none }

abbrev pub of_artifact : String → Origin
of_artifact id = record { source = none; artifact_id = some id; input_id = none }

abbrev pub of_upload : Option String → String → Origin
of_upload source id = record { source = source; artifact_id = none; input_id = some id }

abbrev pub missing : InputFile → Origin → Placed
missing f o = record {
  staged = record {
    destination = f.destination;
    present = false;
    size_bytes = 0;
    sha256 = none;
    source = o.source;
    source_artifact_id = o.artifact_id;
    source_input_id = o.input_id;
  };
  content = none;
}

abbrev pub entry_of : StagedInput → Entry
entry_of s = record {
  destination = s.destination;
  present = s.present;
  sha256 = s.sha256;
  size_bytes = s.size_bytes;
}

abbrev pub absent_entry : String → Entry
absent_entry destination = record {
  destination = destination;
  present = false;
  sha256 = none;
  size_bytes = 0;
}

abbrev pub present_entry : String → String → ℕ → Entry
present_entry destination digest size = record {
  destination = destination;
  present = true;
  sha256 = some digest;
  size_bytes = size;
}

-- A declaration that names nothing, which its validation refuses, raises here.
--
-- `host source` is what reading the file at `Path(source).expanduser().resolve()` finds, if it is one;
-- `files workspace key` is a file of an attempt's workspace.
module _ (digest : Bytes → String) (files : String → String → Found)
    (host : String → Option Reading) where
  -- The entry of an artifact, by whether its path is a file
  abbrev pub artifact_entry : InputFile → Artifact → Bool → Entry
  artifact_entry f a present =
      if not present && not f.required
      then absent_entry f.destination
      else present_entry f.destination a.sha256 a.size_bytes

  abbrev pub is_file : Store → Result Location → Bool
  is_file s (err e) = false
  is_file s (ok place) = is_some (bytes_at files s place)

  -- One entry of _input_manifest_digest
  unfoldable pub declared_entry : Store → InputFile → Result Entry
  declared_entry s f = elim f.input_id [
    | some id ↦ do
      u ← get_uploaded_input s id
      ok (present_entry f.destination u.sha256 u.size_bytes)
    | none ↦ elim f.artifact_id [
      | some id ↦ do
        a ← get_artifact s id
        ok (artifact_entry f a (is_file s (artifact_path files s id)))
      | none ↦ elim f.source [
        | none ↦ err staging_error
        | some source ↦ elim (host source) [
          | none ↦ if f.required then err staging_error else ok (absent_entry f.destination)
          | some r ↦ ok (present_entry f.destination (digest r.hashed) r.size)
        ]
      ]
    ]
  ]

  unfoldable pub declared_entries : Store → List InputFile → Result (List Entry)
  unfolding declared_entry
  declared_entries s [] = ok []
  declared_entries s (f ∷ fs) = do
    first ← declared_entry s f
    rest ← declared_entries s fs
    ok (first ∷ rest)

  -- What a staging does where the store raised.
  abbrev pub unless_required : InputFile → Origin → Result Placed
  unless_required f o = if f.required then err staging_error else ok (missing f o)

  abbrev pub landed : InputFile → Origin → Bytes → Placed
  landed f o content = record {
    staged = record {
      destination = f.destination;
      present = true;
      size_bytes = length content;
      sha256 = some (digest content);
      source = o.source;
      source_artifact_id = o.artifact_id;
      source_input_id = o.input_id;
    };
    content = some content;
  }

  -- `digest != record.sha256 or size_bytes != record.size_bytes`, of the copy
  abbrev pub checked : InputFile → Origin → String → ℕ → Bytes → Result Placed
  checked f o name size content = do
    guard (is_intact digest content name size) staging_error
    ok (landed f o content)

  -- _stage_from_artifact
  unfoldable pub stage_from_artifact : Store → InputFile → String → Result Placed
  stage_from_artifact s f id = elim (materialize_artifact files s id) [
    | err e ↦ unless_required f (of_artifact id)
    | ok (a, content) ↦ checked f (of_artifact id) a.sha256 a.size_bytes content
  ]

  -- _stage_from_input, with the host source that the task's labels name
  unfoldable pub stage_from_input : Store → InputFile → Option String → String → Result Placed
  stage_from_input s f source id = elim (materialize_input digest s id) [
    | err e ↦ unless_required f (of_upload none id)
    | ok (u, content) ↦ checked f (of_upload source id) u.sha256 u.size_bytes content
  ]

  abbrev pub from_host : InputFile → String → Option Reading → Result Placed
  from_host f path none = unless_required f (of_host path)
  from_host f path (some r) = ok (landed f (of_host path) r.copied)

  -- One pass of the loop of _stage_inputs
  unfoldable pub stage_input : Store → InputFile → Option String → Result Placed
  unfolding stage_from_artifact stage_from_input
  stage_input s f source = elim f.input_id [
    | some id ↦ stage_from_input s f source id
    | none ↦ elim f.artifact_id [
      | some id ↦ stage_from_artifact s f id
      | none ↦ elim f.source [ none ↦ err staging_error | some path ↦ from_host f path (host path) ]
    ]
  ]

  -- _stage_inputs. `label index` is the task's label `__platform_host_source_<index>`.
  unfoldable pub stage_from :
      Store → (ℕ → Option String) → ℕ → List InputFile → Result (List Placed)
  unfolding stage_input
  stage_from s label index [] = ok []
  stage_from s label index (f ∷ fs) = do
    first ← stage_input s f (label index)
    rest ← stage_from s label (index + 1) fs
    ok (first ∷ rest)

-- _verify_input_manifest, on the digest that the task holds. `dumps` is json.dumps, encoded in UTF-8.
unfoldable pub verify_manifest :
    (Bytes → String) → (List Entry → Bytes) → Option String → List Entry → Result (Unit {0})
verify_manifest digest dumps none entries = ok tt
verify_manifest digest dumps (some expected) entries =
    guard (str_eq expected "" || str_eq (digest (dumps entries)) expected) staging_error
