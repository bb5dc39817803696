-- ===== src/Custody/Steps.antt =====
-- The operations on the custody of files (store.py), in any order and between any changes of the
-- lifecycle: what is registered stays registered, with its bytes.
use chip_evolve.Base.{
  ℕ, ◌≡◌, refl, Bool, Option-cases, inl, inr, Option, some, List, [], ◌∷◌, ◌++◌, arith, String,
  first, first-update_where, update_where, All, All-append, All-map,
}
use chip_evolve.Contracts.Input.{StagedInput}
use chip_evolve.Contracts.Artifact.{Metric}
use chip_evolve.Runtime.State.{Db, Attempt, ArtifactRow, UploadedInput}
use chip_evolve.Runtime.Attempts.{is_attempt}
use chip_evolve.Runtime.Step.{
  submit, move, claim, renew, settle, retry, reopen, release, log, KeepsAttempt,
}
use chip_evolve.Runtime.Step as Lifecycle
use chip_evolve.Custody.Objects.{Bytes, Store, Reading}
use chip_evolve.Custody.Artifacts.{Found, Declared, has_artifact_id, register_artifacts}
use chip_evolve.Custody.Inputs.{has_input_id, ingest_input, ingest_input_file, record_inputs}
use chip_evolve.Custody.Metrics.{register_metrics}
use chip_evolve.Custody.Later.{first-kept, Grows, Grows-refl, IsHeld, IsHeld-Grows}
use chip_evolve.Custody.Registration.{IsAttempted, IsKept}

-- The lifecycle keeps the attempts that there are, and does not touch artifacts and uploads.
pub record Leaves (before after : Db) : Type 0 where
  pub artifacts : after.artifacts ≡ before.artifacts
  pub uploads : after.uploaded_inputs ≡ before.uploaded_inputs
  pub attempts : (id : ℕ) → IsAttempted before.attempts id → IsAttempted after.attempts id

update-IsAttempted :
    (p : Attempt → Bool) (f : Attempt → Attempt) (attempts : List Attempt)
    → KeepsAttempt f
    → (id : ℕ) → IsAttempted attempts id
    → IsAttempted (update_where p f attempts) id
update-IsAttempted p f attempts keeps id h =
    let kept : (a : Attempt) → is_attempt id (f a) ≡ is_attempt id a =
      λ a. rw (keeps.attempt_id a) in
    elim (Option-cases (first (is_attempt id) attempts)) [
      | inl none_there ↦ absurd (let g = rw none_there at h in ground (arith, g))
      | inr (a, there) ↦ rw (first-update_where (is_attempt id) p f attempts kept, there)
    ]

append-IsAttempted :
    (attempts more : List Attempt) (id : ℕ)
    → IsAttempted attempts id
    → IsAttempted (attempts ++ more) id
append-IsAttempted attempts more id h = elim (Option-cases (first (is_attempt id) attempts)) [
  | inl none_there ↦ absurd (let g = rw none_there at h in ground (arith, g))
  | inr (a, there) ↦ rw (first-kept (is_attempt id) attempts more a there)
]

module _ {cpu memory : ℕ} where
  pub lifecycle-Leaves :
      {before after : Db} → Lifecycle.Step cpu memory before after → Leaves before after
  lifecycle-Leaves (submit db run stage _ _ _ _ _ _) = record {
    artifacts = refl;
    uploads = refl;
    attempts = λ id h. h;
  }
  lifecycle-Leaves (move db f run target _ _ _ _) = record {
    artifacts = refl;
    uploads = refl;
    attempts = λ id h. h;
  }
  lifecycle-Leaves (claim db stage a rows now _ _ _ _ _ _ _) = record {
    artifacts = refl;
    uploads = refl;
    attempts = append-IsAttempted db.attempts (a ∷ []);
  }
  lifecycle-Leaves (renew db p f _ keeps _ _) = record {
    artifacts = refl;
    uploads = refl;
    attempts = update-IsAttempted p f db.attempts keeps;
  }
  lifecycle-Leaves (settle db p f attempt_id _ _ keeps _) = record {
    artifacts = refl;
    uploads = refl;
    attempts = update-IsAttempted p f db.attempts keeps;
  }
  lifecycle-Leaves (retry db run stage reason _ _ _ _ _) = record {
    artifacts = refl;
    uploads = refl;
    attempts = λ id h. h;
  }
  lifecycle-Leaves (reopen db run stage a reason _ _ _ _ _ _) = record {
    artifacts = refl;
    uploads = refl;
    attempts = λ id h. h;
  }
  lifecycle-Leaves (release db attempt_id) = record {
    artifacts = refl;
    uploads = refl;
    attempts = λ id h. h;
  }
  lifecycle-Leaves (log db event) = record {
    artifacts = refl;
    uploads = refl;
    attempts = λ id h. h;
  }

module _ (digest : Bytes → String) (cpu memory : ℕ) where
  -- One operation on the custody of files, or one change of the lifecycle. An operation that raises
  -- is one too.
  pub data Step : Store → Store → Type 0 where
    lifecycle :
        (s : Store) (db : Db) → Lifecycle.Step cpu memory s.db db → Step s (record s { db = db })
    registering :
        (workspace : String → Found) (attempt_id now : ℕ) (ds : List Declared) (s : Store)
        → Step s (register_artifacts digest workspace attempt_id now ds s).1
    ingesting :
        (content : Bytes) (id : String) (now : ℕ) (s : Store)
        → Step s (ingest_input digest content id now s).1
    ingesting_file :
        (file : Option Reading) (id : String) (now : ℕ) (s : Store)
        → Step s (ingest_input_file digest file id now s).1
    recording :
        (attempt_id now : ℕ) (staged : List StagedInput) (s : Store)
        → Step s (record_inputs attempt_id now staged s).1
    measuring :
        (attempt_id now : ℕ) (metrics : List (String × Metric)) (s : Store)
        → Step s (register_metrics attempt_id now metrics s).1

  pub data Steps : Store → Store → Type 0 where
    here : (s : Store) → Steps s s
    next : {a b c : Store} → Step a b → Steps b c → Steps a c

  -- What is found by an id, and every object, is the same afterwards.
  pub record Later (before after : Store) : Type 0 where
    pub artifacts :
        (id : String) (row : ArtifactRow)
        → first (has_artifact_id id) before.db.artifacts ≡ some row
        → first (has_artifact_id id) after.db.artifacts ≡ some row
    pub uploads :
        (id : String) (u : UploadedInput)
        → first (has_input_id id) before.db.uploaded_inputs ≡ some u
        → first (has_input_id id) after.db.uploaded_inputs ≡ some u
    pub objects : Grows before.objects after.objects

  -- Every artifact and every upload is in the object store.
  pub record IsSound (s : Store) : Type 0 where
    pub artifacts : All (IsKept digest s.objects s.db.attempts) s.db.artifacts
    pub uploads : All (λ u. IsHeld digest s.objects u.sha256 u.size_bytes) s.db.uploaded_inputs

  -- A step from a sound store.
  pub record IsSafe (before after : Store) : Type 0 where
    pub later : Later before after
    pub sound : IsSound before → IsSound after

  pub Later-refl : (s : Store) → Later s s
  Later-refl s = record {
    artifacts = λ id row h. h;
    uploads = λ id u h. h;
    objects = Grows-refl s.objects;
  }

  pub IsSafe-refl : (s : Store) → IsSafe s s
  IsSafe-refl s = record { later = Later-refl s; sound = λ h. h }

  -- Rows and objects that are added, while the attempts that there are stay.
  pub record Adds (before after : Store) : Type 0 where
    pub more : List ArtifactRow
    pub uploads : List UploadedInput
    pub artifacts_are : after.db.artifacts ≡ before.db.artifacts ++ more
    pub uploads_are : after.db.uploaded_inputs ≡ before.db.uploaded_inputs ++ uploads
    pub attempts : (id : ℕ) → IsAttempted before.db.attempts id → IsAttempted after.db.attempts id
    pub objects : Grows before.objects after.objects
    pub more_kept : All (IsKept digest after.objects after.db.attempts) more
    pub uploads_held : All (λ u. IsHeld digest after.objects u.sha256 u.size_bytes) uploads

  pub Adds-IsSafe : (before after : Store) → Adds before after → IsSafe before after
  Adds-IsSafe before after a = record {
    later = record {
      artifacts = λ id row h.
          rw a.artifacts_are (first-kept (has_artifact_id id) before.db.artifacts a.more row h);
      uploads = λ id u h.
          rw a.uploads_are (first-kept (has_input_id id) before.db.uploaded_inputs a.uploads u h);
      objects = a.objects;
    };
    sound = λ h. record {
      artifacts = rw a.artifacts_are (
          All-append (IsKept digest after.objects after.db.attempts) before.db.artifacts a.more
            (All-map (IsKept digest before.objects before.db.attempts)
              (IsKept digest after.objects after.db.attempts) before.db.artifacts
              (λ row k. record {
                storage = k.storage;
                attempted = a.attempts row.attempt_id k.attempted;
                held =
                    IsHeld-Grows digest before.objects after.objects row.sha256 row.size_bytes
                      a.objects k.held;
              })
              h.artifacts)
            a.more_kept);
      uploads = rw a.uploads_are (
          All-append (λ (u : UploadedInput). IsHeld digest after.objects u.sha256 u.size_bytes)
            before.db.uploaded_inputs a.uploads
            (All-map (λ (u : UploadedInput). IsHeld digest before.objects u.sha256 u.size_bytes)
              (λ (u : UploadedInput). IsHeld digest after.objects u.sha256 u.size_bytes)
              before.db.uploaded_inputs
              (λ u k.
                IsHeld-Grows digest before.objects after.objects u.sha256 u.size_bytes a.objects k)
              h.uploads)
            a.uploads_held);
    };
  }
