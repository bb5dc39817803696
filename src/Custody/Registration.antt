-- ===== src/Custody/Registration.antt =====
-- What a registration of artifacts in core/runtime/src/openroad_platform_runtime/store.py adds.
use chip_evolve.Base.{
  ℕ, ◌≡◌, refl, sym, subst, ap, true, false, not, Bool-cases, inl, inr, some, List, [], ◌∷◌, ◌++◌,
  arith, String, str_eq, str_eq_refl, first, some_row, is_some,
}
use chip_evolve.Contracts.Artifact.{Artifact, is_valid_artifact}
use chip_evolve.Runtime.State.{Db, Attempt, ArtifactRow}
use chip_evolve.Runtime.Result.{
  ok, contract_error, integrity_error, inconsistent_object, source_changed, guard-ok, required-ok,
  bind-ok, ok_inj,
}
use chip_evolve.Runtime.Attempts.{is_attempt}
use chip_evolve.Custody.Objects.{Bytes, Object, Reading, store_object}
use chip_evolve.Custody.Artifacts.{
  Found, file, outside, absent, Declared, has_artifact_id, has_store_key, insert_artifact, measured,
  take_custody,
}
use chip_evolve.Custody.Later.{IsHeld, IsPublished, publish-IsPublished}

-- The attempt of a row is in its table.
abbrev pub IsAttempted : List Attempt → ℕ → Type 0
IsAttempted attempts id = is_some (first (is_attempt id) attempts) ≡ true

-- An insertion that returns: the row is found by its id, in a table that is only added to.
pub record IsInserted (row : ArtifactRow) (before after : Db) : Type 0 where
  pub same : after ≡ record before { artifacts = before.artifacts ++ row ∷ [] }
  pub attempted : IsAttempted before.attempts row.attempt_id
  pub found : first (has_artifact_id row.artifact_id) after.artifacts ≡ some row

first_new :
    (row : ArtifactRow) (rows : List ArtifactRow)
    → some_row (has_artifact_id row.artifact_id) rows ≡ false
    → first (has_artifact_id row.artifact_id) (rows ++ row ∷ []) ≡ some row
unfolding first some_row
first_new row [] h = rw (str_eq_refl row.artifact_id)
first_new row (x ∷ xs) h = elim (Bool-cases (str_eq x.artifact_id row.artifact_id)) [
  | inl e ↦ absurd (ground arith)
  | inr e ↦ rw e (first_new row xs (rw e at h))
]

pub insert-IsInserted :
    (row : ArtifactRow) (before after : Db)
    → insert_artifact row before ≡ ok after
    → IsInserted row before after
unfolding insert_artifact
insert-IsInserted row before after h =
    let (fresh, one) =
      guard-ok (not (some_row (has_artifact_id row.artifact_id) before.artifacts)) integrity_error _
        h in
    let (free, two) =
      guard-ok (not (some_row (has_store_key row.attempt_id row.store_key) before.artifacts))
        integrity_error _ one in
    let (attempt, there, three) =
      required-ok integrity_error (first (is_attempt row.attempt_id) before.attempts) _ two in
    record {
      same = sym (ok_inj three);
      attempted = rw there;
      found = rw (← ok_inj three) (first_new row before.artifacts (ground arith));
    }

module _ (digest : Bytes → String) where
  -- Custody that is taken of a declared file: it was there, its measure is the artifact, and the object
  -- of its digest holds bytes of that digest and that size.
  pub record IsTaken (place : Found) (d : Declared) (before : List Object) (a : Artifact)
      (after : List Object) : Type 0 where
    pub reading : Reading
    pub read : place ≡ file reading
    pub measure : a ≡ measured digest d reading
    pub published : IsPublished digest before after (digest reading.hashed) reading.size

  pub take-IsTaken :
      (place : Found) (d : Declared) (before : List Object) (a : Artifact) (after : List Object)
      → take_custody digest place d before ≡ ok (a, after)
      → IsTaken place d before a after
  unfolding take_custody
  take-IsTaken outside d before a after h = absurd cc
  take-IsTaken absent d before a after h = absurd cc
  take-IsTaken (file r) d before a after h =
      let (valid, rest) = guard-ok (is_valid_artifact (measured digest d r)) contract_error _ h in
      let (kept, published, same) =
        bind-ok (store_object digest r (digest r.hashed) r.size before) _ rest in
      let both : (measured digest d r, kept) ≡ (a, after) =
        ok_inj {A = Artifact × List Object} same in
      let here : kept ≡ after = ap (λ (x : Artifact × List Object). x.1) both in
      record {
        reading = r;
        read = refl;
        measure = sym (ap (λ (x : Artifact × List Object). x.0) both);
        published =
            subst (λ o. IsPublished digest before o (digest r.hashed) r.size) here
              (publish-IsPublished digest inconsistent_object source_changed r.copied
                (digest r.hashed) r.size before kept published);
      }

  -- A row of before the registration or of it: in the object store, and of an attempt.
  pub record IsKept (objects : List Object) (attempts : List Attempt) (row : ArtifactRow)
      : Type 0 where
    pub storage : row.storage ≡ "object"
    pub attempted : IsAttempted attempts row.attempt_id
    pub held : IsHeld digest objects row.sha256 row.size_bytes
