-- ===== src/Custody/Submitted.antt =====
-- The inputs of a task between its submission and its attempt (runtime.py): a declaration that names what
-- the platform holds is staged with the bytes that the submission's manifest says.
use chip_evolve.Base.{
  ℕ, ◌+◌, ◌≡◌, refl, ◌∙◌, true, Option, none, some, List, [], ◌∷◌, map, arith, ==_iff, String,
  str_eq_iff, first, All, All-first,
}
use chip_evolve.Contracts.Names.{length}
use chip_evolve.Contracts.Input.{InputFile}
use chip_evolve.Runtime.State.{ArtifactRow, UploadedInput}
use chip_evolve.Runtime.Result.{ok}
use chip_evolve.Custody.Objects.{Bytes, Store, Reading, is_intact}
use chip_evolve.Custody.Artifacts.{Found, has_artifact_id, bytes_at}
use chip_evolve.Custody.Inputs.{has_input_id, get_uploaded_input, materialize_input}
use chip_evolve.Custody.Staging.{
  Entry, Placed, entry_of, present_entry, landed, of_upload, of_artifact, declared_entry,
  declared_entries, stage_input, stage_from_input, stage_from_artifact, stage_from,
}
use chip_evolve.Custody.Later.{IsHeld}
use chip_evolve.Custody.Steps.{Later, IsSound}
use chip_evolve.Custody.Guarantees.{IsReadable, kept-IsReadable}

-- A declaration of an upload or an artifact that the platform has.
pub data IsResolved (s : Store) (f : InputFile) : Type 0 where
  uploaded :
      (id : String) (u : UploadedInput)
      → f.input_id ≡ some id
      → first (has_input_id id) s.db.uploaded_inputs ≡ some u
      → IsResolved s f
  registered :
      (id : String) (row : ArtifactRow)
      → f.input_id ≡ none
      → f.artifact_id ≡ some id
      → first (has_artifact_id id) s.db.artifacts ≡ some row
      → IsResolved s f

module _ (digest : Bytes → String) (cpu memory : ℕ) (files : String → String → Found)
    (host : String → Option Reading) where
  -- Bytes were copied, and the record of them is true.
  pub record IsCopied (p : Placed) : Type 0 where
    pub content : Bytes
    pub copied : p.content ≡ some content
    pub digested : p.staged.sha256 ≡ some (digest content)
    pub sized : p.staged.size_bytes ≡ length content
    pub present : p.staged.present ≡ true

  -- The staging of one declaration yields the entry of the manifest.
  pub record IsStaged (t : Store) (f : InputFile) (label : Option String) (e : Entry) : Type 0 where
    pub placed : Placed
    pub staged : stage_input digest files host t f label ≡ ok placed
    pub agrees : entry_of placed.staged ≡ e
    pub copied : IsCopied placed

  intact-entry :
      (destination name : String) (size : ℕ) (content : Bytes)
      → is_intact digest content name size ≡ true
      → present_entry destination (digest content) (length content)
        ≡ present_entry destination name size
  unfolding is_intact
  intact-entry destination name size content h =
      let same_size : length content ≡ size = (==_iff (length content) size).0 (ground arith) in
      let same_name : digest content ≡ name = (str_eq_iff (digest content) name).0 (ground arith) in
      rw (same_size, same_name)

  upload-IsStaged :
      (t : Store) (f : InputFile) (label : Option String) (id : String) (u : UploadedInput)
      → IsSound digest cpu memory t
      → f.input_id ≡ some id
      → first (has_input_id id) t.db.uploaded_inputs ≡ some u
      → IsStaged t f label (present_entry f.destination u.sha256 u.size_bytes)
  unfolding stage_from_input get_uploaded_input
  upload-IsStaged t f label id u sound names there =
      let held : IsHeld digest t.objects u.sha256 u.size_bytes =
        All-first (λ (v : UploadedInput). IsHeld digest t.objects v.sha256 v.size_bytes)
          (has_input_id id) t.db.uploaded_inputs sound.uploads there in
      let got : materialize_input digest t id ≡ ok (u, held.content) =
        unfold materialize_input in rw (there, held.there, held.intact) in
      let by_branch : stage_input digest files host t f label
          ≡ stage_from_input digest files host t f label id =
        unfold stage_input in rw names in
      record {
        placed = landed digest files host f (of_upload label id) held.content;
        staged = by_branch ∙ rw (stage_from_input, got, held.intact);
        agrees = intact-entry f.destination u.sha256 u.size_bytes held.content held.intact;
        copied = record {
          content = held.content;
          copied = refl;
          digested = refl;
          sized = refl;
          present = refl;
        };
      }

  artifact-IsStaged :
      (t : Store) (f : InputFile) (label : Option String) (id : String) (row : ArtifactRow)
      → IsSound digest cpu memory t
      → f.input_id ≡ none
      → f.artifact_id ≡ some id
      → first (has_artifact_id id) t.db.artifacts ≡ some row
      → IsStaged t f label (present_entry f.destination row.sha256 row.size_bytes)
  unfolding stage_from_artifact
  artifact-IsStaged t f label id row sound no_upload names there =
      let read : IsReadable digest cpu memory files t id row =
        kept-IsReadable digest cpu memory files t id row sound there in
      let by_branch : stage_input digest files host t f label
          ≡ stage_from_artifact digest files host t f id =
        unfold stage_input in rw (no_upload, names) in
      record {
        placed = landed digest files host f (of_artifact id) read.content;
        staged = by_branch ∙ rw (stage_from_artifact, read.copied, read.intact);
        agrees = intact-entry f.destination row.sha256 row.size_bytes read.content read.intact;
        copied = record {
          content = read.content;
          copied = refl;
          digested = refl;
          sized = refl;
          present = refl;
        };
      }

  -- What the submission says of a declaration, and what is staged of it then and later.
  pub record IsKeptInput (s : Store) (f : InputFile) : Type 0 where
    pub entry : Entry
    pub declared : declared_entry digest files host s f ≡ ok entry
    pub staged :
        (t : Store)
        → IsSound digest cpu memory t
        → Later digest cpu memory s t
        → (label : Option String) → IsStaged t f label entry

  resolved-IsKeptInput :
      (s : Store) (f : InputFile) → IsSound digest cpu memory s → IsResolved s f → IsKeptInput s f
  unfolding declared_entry
  resolved-IsKeptInput s f sound (uploaded id u names there) = record {
    entry = present_entry f.destination u.sha256 u.size_bytes;
    declared = unfold get_uploaded_input in rw (names, there);
    staged = λ t later_sound later label.
        upload-IsStaged t f label id u later_sound names (later.uploads id u there);
  }
  resolved-IsKeptInput s f sound (registered id row no_upload names there) =
      let read : IsReadable digest cpu memory files s id row =
        kept-IsReadable digest cpu memory files s id row sound there in
      record {
        entry = present_entry f.destination row.sha256 row.size_bytes;
        declared = unfold bytes_at in rw (no_upload, names, read.got, read.path, read.there);
        staged = λ t later_sound later label.
            artifact-IsStaged t f label id row later_sound no_upload names
              (later.artifacts id row there);
      }

  -- What a whole staging yields.
  pub record AllStaged (t : Store) (label : ℕ → Option String) (index : ℕ) (fs : List InputFile)
      (entries : List Entry) : Type 0 where
    pub placed : List Placed
    pub staged : stage_from digest files host t label index fs ≡ ok placed
    pub agree : map (λ (p : Placed). entry_of p.staged) placed ≡ entries
    pub all_copied : All IsCopied placed

  -- The manifest of a submission, and that the staging agrees with it whenever it comes.
  pub record IsManifest (s : Store) (fs : List InputFile) : Type 0 where
    pub entries : List Entry
    pub declared : declared_entries digest files host s fs ≡ ok entries
    pub staged :
        (t : Store)
        → IsSound digest cpu memory t
        → Later digest cpu memory s t
        → (label : ℕ → Option String) (index : ℕ) → AllStaged t label index fs entries

  pub resolved-IsManifest :
      (s : Store) (fs : List InputFile)
      → IsSound digest cpu memory s
      → All (IsResolved s) fs
      → IsManifest s fs
  unfolding declared_entries stage_from
  resolved-IsManifest s [] sound all = record {
    entries = [];
    declared = refl;
    staged = λ t later_sound later label index. record {
      placed = [];
      staged = refl;
      agree = refl;
      all_copied = tt;
    };
  }
  resolved-IsManifest s (f ∷ fs) sound all =
      let one : IsKeptInput s f = resolved-IsKeptInput s f sound all.0 in
      let rest : IsManifest s fs = resolved-IsManifest s fs sound all.1 in
      record {
        entries = one.entry ∷ rest.entries;
        declared = rw (one.declared, rest.declared);
        staged = λ t later_sound later label index.
            let here : IsStaged t f (label index) one.entry =
              one.staged t later_sound later (label index) in
            let more : AllStaged t label (index + 1) fs rest.entries =
              rest.staged t later_sound later label (index + 1) in
            record {
              placed = here.placed ∷ more.placed;
              staged = rw (here.staged, more.staged);
              agree = rw (here.agrees, more.agree);
              all_copied = (here.copied, more.all_copied);
            };
      }
