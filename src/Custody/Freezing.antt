-- ===== src/Custody/Freezing.antt =====
-- core/runtime/src/openroad_platform_runtime/runtime.py: what the submission of a task checks of its input files,
-- and the freezing of those on the host (_check_inputs and _freeze_host_inputs).
use chip_evolve.Base.{ℕ, ◌+◌, Bool, ◌&&◌, not, Option, none, some, List, [], ◌∷◌, is_some, String}
use chip_evolve.Contracts.Input.{InputFile}
use chip_evolve.Runtime.State.{UploadedInput}
use chip_evolve.Runtime.Result.{staging_error, Result, ok, err, ◌>>◌, guard}
use chip_evolve.Custody.Objects.{Bytes, Store, Reading}
use chip_evolve.Custody.Artifacts.{Found, get_artifact}
use chip_evolve.Custody.Inputs.{get_uploaded_input, ingest_input_file}

-- `except RuntimeStoreError: raise InputStagingError`; nothing else is raised there.
abbrev pub or_staging_error {ℓ} : {A : Type ℓ} → Result A → Result (Unit {0})
or_staging_error (ok a) = ok tt
or_staging_error (err e) = err staging_error

-- `host source` is what reading the file at `Path(source).expanduser().resolve()` finds, if it is one. A
-- declaration that names nothing, which its validation refuses, raises.
module _ (digest : Bytes → String) (files : String → String → Found)
    (host : String → Option Reading) where
  -- _check_inputs of one declaration. `inside` is whether the resolved source lies in a configured root,
  -- or no root is configured.
  unfoldable pub check_input : (String → Bool) → Store → InputFile → Result (Unit {0})
  check_input inside s f = elim f.input_id [
    | some id ↦ or_staging_error (get_uploaded_input s id)
    | none ↦ elim f.artifact_id [
      | some id ↦ or_staging_error (get_artifact s id)
      | none ↦ elim f.source [
        | none ↦ err staging_error
        | some source ↦ do
          guard (inside source) staging_error
          guard (not (f.required && not (is_some (host source)))) staging_error
      ]
    ]
  ]

  unfoldable pub check_inputs : (String → Bool) → Store → List InputFile → Result (Unit {0})
  unfolding check_input
  check_inputs inside s [] = ok tt
  check_inputs inside s (f ∷ fs) = do check_input inside s f; check_inputs inside s fs

  abbrev pub frozen : InputFile → Result UploadedInput × Store → Result InputFile × Store
  frozen f (err e, after) = (err e, after)
  frozen f (ok u, after) =
      (ok (record f { source = none; artifact_id = none; input_id = some u.input_id }), after)

  -- What _freeze_host_inputs makes of one declaration, with the id for a new upload.
  unfoldable pub freeze_input : ℕ → String → InputFile → Store → Result InputFile × Store
  freeze_input now id f s = elim f.source [
    | none ↦ (ok f, s)
    | some source ↦ elim (host source) [
      | none ↦ (ok f, s)
      | some r ↦ frozen f (ingest_input_file digest (some r) id now s)
    ]
  ]

  abbrev pub and_input :
      InputFile → Result (List InputFile) × Store → Result (List InputFile) × Store
  and_input f (err e, s) = (err e, s)
  and_input f (ok fs, s) = (ok (f ∷ fs), s)

  -- _freeze_host_inputs, with the ids that the new uploads are given. What was ingested before a
  -- declaration raises stays.
  unfoldable pub freeze_inputs :
      ℕ → (ℕ → String) → ℕ → List InputFile → Store → Result (List InputFile) × Store
  unfolding freeze_input
  freeze_inputs now id index [] s = (ok [], s)
  freeze_inputs now id index (f ∷ fs) s =
      let (made, after) = freeze_input now (id index) f s in
      elim made [
        | err e ↦ (err e, after)
        | ok g ↦ and_input g (freeze_inputs now id (index + 1) fs after)
      ]
