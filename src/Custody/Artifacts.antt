-- ===== src/Custody/Artifacts.antt =====
-- core/runtime/src/openroad_platform_runtime/store.py: the artifacts of an attempt.
use chip_evolve.Base.{
  ℕ, Bool, ◌&&◌, not, Option, none, some, List, [], ◌∷◌, ◌++◌, ◌==◌, if◌then◌else◌, String, str_eq,
  first, some_row, select, map,
}
use chip_evolve.Contracts.Names.{schema_version}
use chip_evolve.Contracts.Artifact.{Metadata, Artifact, is_valid_artifact}
use chip_evolve.Runtime.State.{Db, ArtifactRow}
use chip_evolve.Runtime.Result.{
  Result, ok, err, ◌>>=◌, ◌>>◌, guard, required, contract_error, integrity_error, unknown_artifact,
  escapes_workspace, missing_file, unknown_storage,
}
use chip_evolve.Runtime.Attempts.{is_attempt}
use chip_evolve.Runtime.Runs.{is_stage}
use chip_evolve.Custody.Objects.{Bytes, Store, Reading, Object, stored, store_object}

-- What `(workspace / key).resolve()` is: a place outside the workspace, no file, or a file.
pub data Found : Type 0 where
  outside absent : Found
  file : Reading → Found

pub record Declared : Type 0 where
  pub artifact_id : String
  pub kind : String
  pub store_key : String
  pub media_type : Option String
  pub metadata : Metadata

abbrev pub found : Found → Result Reading
found outside = err escapes_workspace
found absent = err missing_file
found (file r) = ok r

abbrev pub has_artifact_id : String → ArtifactRow → Bool
has_artifact_id id a = str_eq a.artifact_id id

-- UNIQUE(attempt_id, store_key)
abbrev pub has_store_key : ℕ → String → ArtifactRow → Bool
has_store_key attempt_id key a = a.attempt_id == attempt_id && str_eq a.store_key key

abbrev pub artifact_row : ℕ → ℕ → Artifact → ArtifactRow
artifact_row attempt_id now a = record {
  artifact_id = a.artifact_id;
  attempt_id = attempt_id;
  kind = a.kind;
  store_key = a.store_key;
  size_bytes = a.size_bytes;
  sha256 = a.sha256;
  metadata = a.metadata;
  created_at = now;
  storage = "object";
}

-- INSERT INTO runtime_artifacts, under the constraints of the table
unfoldable pub insert_artifact : ArtifactRow → Db → Result Db
insert_artifact row db = do
  guard (not (some_row (has_artifact_id row.artifact_id) db.artifacts)) integrity_error
  guard (not (some_row (has_store_key row.attempt_id row.store_key) db.artifacts)) integrity_error
  required integrity_error (first (is_attempt row.attempt_id) db.attempts) >>= λ attempt.
      ok (record db { artifacts = db.artifacts ++ row ∷ [] })

-- `Artifact(…)` of the row that get_artifact or list_artifacts reads
abbrev pub artifact_of : ArtifactRow → Artifact
artifact_of row = record {
  artifact_id = row.artifact_id;
  kind = row.kind;
  store_key = row.store_key;
  sha256 = row.sha256;
  size_bytes = row.size_bytes;
  media_type = none;
  metadata = row.metadata;
  schema_version = schema_version;
}

unfoldable pub get_artifact : Store → String → Result Artifact
get_artifact s id = do
  row ← required unknown_artifact (first (has_artifact_id id) s.db.artifacts)
  ok (artifact_of row)

-- artifact_run_id: the join of the artifact with its attempt and its stage
unfoldable pub artifact_run_id : Store → String → Result ℕ
artifact_run_id s id = do
  row ← required unknown_artifact (first (has_artifact_id id) s.db.artifacts)
  attempt ← required unknown_artifact (first (is_attempt row.attempt_id) s.db.attempts)
  stage ← required unknown_artifact (first (is_stage attempt.stage_run_id) s.db.stages)
  ok stage.run_id

-- Where artifact_path leads: to an object, or to a file of a workspace.
pub data Location : Type 0 where
  object : String → Location
  scratch : String → String → Location

-- `files workspace key` is what the workspace of an attempt holds.
unfoldable pub artifact_path : (String → String → Found) → Store → String → Result Location
artifact_path files s id = do
  row ← required unknown_artifact (first (has_artifact_id id) s.db.artifacts)
  attempt ← required unknown_artifact (first (is_attempt row.attempt_id) s.db.attempts)
  if str_eq row.storage "object"
      then ok (object row.sha256)
      else if not (str_eq row.storage "workspace")
      then err unknown_storage
      else elim (files attempt.workspace row.store_key) [
        | outside ↦ err escapes_workspace
        | absent ↦ ok (scratch attempt.workspace row.store_key)
        | file r ↦ ok (scratch attempt.workspace row.store_key)
      ]

abbrev copied_bytes : Found → Option Bytes
copied_bytes (file r) = some r.copied
copied_bytes _ = none

-- The bytes at a path, if it `is_file()`.
unfoldable pub bytes_at : (String → String → Found) → Store → Location → Option Bytes
bytes_at files s (object name) = stored name s.objects
bytes_at files s (scratch workspace key) = copied_bytes (files workspace key)

-- materialize_artifact: the artifact, and the bytes that it copies to the destination
unfoldable pub materialize_artifact :
    (String → String → Found) → Store → String → Result (Artifact × Bytes)
unfolding get_artifact artifact_path bytes_at
materialize_artifact files s id = do
  artifact ← get_artifact s id
  source ← artifact_path files s id
  content ← required missing_file (bytes_at files s source)
  ok (artifact, content)

unfoldable pub list_artifacts : Store → ℕ → List Artifact
list_artifacts s attempt_id =
    map artifact_of (select (λ a. a.attempt_id == attempt_id) s.db.artifacts)

module _ (digest : Bytes → String) where
  -- The artifact that a declaration becomes, measured from the bytes on disk.
  abbrev pub measured : Declared → Reading → Artifact
  measured d r = record {
    artifact_id = d.artifact_id;
    kind = d.kind;
    store_key = d.store_key;
    sha256 = digest r.hashed;
    size_bytes = r.size;
    media_type = d.media_type;
    metadata = d.metadata;
    schema_version = schema_version;
  }

  -- One pass of the loop up to the object store: the artifact, and the objects with its bytes.
  unfoldable pub take_custody : Found → Declared → List Object → Result (Artifact × List Object)
  take_custody place d objects = do
    r ← found place
    guard (is_valid_artifact (measured d r)) contract_error
    kept ← store_object digest r (digest r.hashed) r.size objects
    ok (measured d r, kept)

  abbrev pub and_id :
      String → Result (List String × Db) × List Object → Result (List String × Db) × List Object
  and_id id (err e, objects) = (err e, objects)
  and_id id (ok (ids, db), objects) = (ok (id ∷ ids, db), objects)

  -- The loop: what it returns with the tables it wrote, and the objects, which stay if it raises.
  unfoldable pub register_each :
      (String → Found)
      → ℕ
      → ℕ
      → List Declared
      → Db
      → List Object
      → Result (List String × Db) × List Object
  unfolding take_custody insert_artifact
  register_each workspace attempt_id now [] db objects = (ok ([], db), objects)
  register_each workspace attempt_id now (d ∷ ds) db objects =
      elim (take_custody (workspace d.store_key) d objects) [
        | err e ↦ (err e, objects)
        | ok (a, kept) ↦ elim (insert_artifact (artifact_row attempt_id now a) db) [
          | err e ↦ (err e, kept)
          | ok after ↦ and_id a.artifact_id (register_each workspace attempt_id now ds after kept)
        ]
      ]

  abbrev pub registered :
      Store → Result (List String × Db) × List Object → Result (List String) × Store
  registered s (err e, objects) = (err e, record s { objects = objects })
  registered s (ok (ids, db), objects) = (ok ids, record s { db = db; objects = objects })

  -- register_artifacts: a transaction on the tables; the object store takes no part in it
  unfoldable pub register_artifacts :
      (String → Found) → ℕ → ℕ → List Declared → Store → Result (List String) × Store
  unfolding register_each
  register_artifacts workspace attempt_id now ds s =
      registered s (register_each workspace attempt_id now ds s.db s.objects)
