-- ===== src/Custody/Inputs.antt =====
-- core/runtime/src/openroad_platform_runtime/store.py: uploaded inputs, and the record of the inputs that
-- were staged for an attempt.
use chip_evolve.Base.{
  ℕ, Bool, true, false, ◌&&◌, ◌||◌, not, Option, none, some, List, [], ◌∷◌, ◌++◌, ◌==◌, ltb,
  if◌then◌else◌, String, str_eq, codes, first, some_row, select, delete_where, map,
}
use chip_evolve.Contracts.Names.{length}
use chip_evolve.Contracts.Input.{StagedInput, is_valid_staged}
use chip_evolve.Runtime.State.{Db, UploadedInput}
use chip_evolve.Runtime.Result.{
  Result, ok, err, ◌>>=◌, ◌>>◌, guard, required, contract_error, integrity_error, unknown_input,
  missing_file, missing_object, object_differs,
}
use chip_evolve.Runtime.Attempts.{is_attempt}
use chip_evolve.Custody.Objects.{
  Bytes, InputRow, Store, Reading, Object, stored, is_intact, store_object, store_bytes,
}

abbrev pub has_input_id : String → UploadedInput → Bool
has_input_id id u = str_eq u.input_id id

abbrev pub upload : String → String → ℕ → ℕ → UploadedInput
upload id sha256 size now = record {
  input_id = id;
  size_bytes = size;
  sha256 = sha256;
  created_at = now;
}

-- INSERT INTO runtime_uploaded_inputs, under its primary key
unfoldable pub insert_upload : UploadedInput → Db → Result Db
insert_upload u db = do
  guard (not (some_row (has_input_id u.input_id) db.uploaded_inputs)) integrity_error
  ok (record db { uploaded_inputs = db.uploaded_inputs ++ u ∷ [] })

abbrev pub added : UploadedInput → Store → Result Db → Result UploadedInput × Store
added u s (err e) = (err e, s)
added u s (ok db) = (ok u, record s { db = db })

-- The objects are stored, and then the row is inserted; nothing removes an object whose row fails.
unfoldable pub recorded :
    UploadedInput → Store → Result (List Object) → Result UploadedInput × Store
unfolding insert_upload
recorded u s (err e) = (err e, s)
recorded u s (ok kept) = added u (record s { objects = kept }) (insert_upload u s.db)

unfoldable pub get_uploaded_input : Store → String → Result UploadedInput
get_uploaded_input s id = required unknown_input (first (has_input_id id) s.db.uploaded_inputs)

module _ (digest : Bytes → String) where
  unfoldable pub ingest_input : Bytes → String → ℕ → Store → Result UploadedInput × Store
  unfolding recorded
  ingest_input content id now s =
      let name = digest content in
      recorded (upload id name (length content) now) s
        (store_bytes digest content name (length content) s.objects)

  -- ingest_input_file, of a path that is no file, or that can be read
  unfoldable pub ingest_input_file :
      Option Reading → String → ℕ → Store → Result UploadedInput × Store
  unfolding recorded
  ingest_input_file none id now s = (err missing_file, s)
  ingest_input_file (some r) id now s =
      recorded (upload id (digest r.hashed) r.size now) s
        (store_object digest r (digest r.hashed) r.size s.objects)

  -- materialize_input: the row, and the bytes that it copies to the destination
  unfoldable pub materialize_input : Store → String → Result (UploadedInput × Bytes)
  unfolding get_uploaded_input
  materialize_input s id = do
    uploaded ← get_uploaded_input s id
    content ← required missing_object (stored uploaded.sha256 s.objects)
    guard (is_intact digest content uploaded.sha256 uploaded.size_bytes) object_differs
    ok (uploaded, content)

-- PRIMARY KEY (attempt_id, destination)
abbrev pub has_destination : ℕ → String → InputRow → Bool
has_destination attempt_id destination r =
    r.attempt_id == attempt_id && str_eq r.input.destination destination

-- INSERT OR REPLACE
unfoldable pub put_input : ℕ → ℕ → StagedInput → List InputRow → List InputRow
put_input attempt_id now staged rows =
    delete_where (has_destination attempt_id staged.destination) rows
    ++ record { attempt_id = attempt_id; input = staged; created_at = now } ∷ []

unfoldable pub record_each : ℕ → ℕ → List StagedInput → Store → Result Store
unfolding put_input
record_each attempt_id now [] s = ok s
record_each attempt_id now (staged ∷ rest) s = do
  guard (is_valid_staged staged) contract_error
  required integrity_error (first (is_attempt attempt_id) s.db.attempts) >>= λ attempt.
      record_each attempt_id now rest
        (record s { inputs = put_input attempt_id now staged s.inputs })

abbrev pub recorded_or_not : Store → Result Store → Result (Unit {0}) × Store
recorded_or_not s (err e) = (err e, s)
recorded_or_not s (ok after) = (ok tt, after)

-- record_inputs: one transaction
unfoldable pub record_inputs : ℕ → ℕ → List StagedInput → Store → Result (Unit {0}) × Store
record_inputs attempt_id now staged s = recorded_or_not s (record_each attempt_id now staged s)

-- The order of texts in the database, that of their code points
text_before : List ℕ → List ℕ → Bool
text_before [] t = true
text_before (a ∷ s) [] = false
text_before (a ∷ s) (b ∷ t) = ltb a b || a == b && text_before s t

put_in_order : StagedInput → List StagedInput → List StagedInput
unfolding text_before
put_in_order i [] = i ∷ []
put_in_order i (j ∷ rest) =
    let later = put_in_order i rest in
    if text_before (codes i.destination) (codes j.destination) then i ∷ j ∷ rest else j ∷ later

ordered : List StagedInput → List StagedInput
unfolding put_in_order
ordered [] = []
ordered (i ∷ rest) = put_in_order i (ordered rest)

unfoldable pub list_inputs : Store → ℕ → List StagedInput
unfolding ordered
list_inputs s attempt_id =
    ordered (map (λ r. r.input) (select (λ r. r.attempt_id == attempt_id) s.inputs))
