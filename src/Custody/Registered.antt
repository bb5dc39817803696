-- ===== src/Custody/Registered.antt =====
-- The loop of register_artifacts in core/runtime/src/openroad_platform_runtime/store.py: the rows that it adds,
-- and the objects that it keeps.
use chip_evolve.Base.{
  append_assoc, append-nil, ℕ, ◌≡◌, refl, sym, subst, ap, ◌∙◌, inl, inr, some, List, [], ◌∷◌, ◌++◌,
  String, first, All,
}
use chip_evolve.Contracts.Artifact.{Artifact}
use chip_evolve.Runtime.State.{Db, ArtifactRow}
use chip_evolve.Runtime.Result.{Result, ok, err, Result-cases}
use chip_evolve.Custody.Objects.{Bytes, Object, Reading}
use chip_evolve.Custody.Artifacts.{
  Found, file, Declared, has_artifact_id, artifact_row, insert_artifact, measured, take_custody,
  register_each, and_id,
}
use chip_evolve.Custody.Later.{Grows, Grows-refl, IsHeld-Grows, first-kept, Grows-trans}
use chip_evolve.Custody.Registration.{IsInserted, insert-IsInserted, IsTaken, take-IsTaken, IsKept}

module _ (digest : Bytes → String) where
  module _ (workspace : String → Found) (attempt_id now : ℕ) where
    -- The ids are those of the declarations, and each is the id of a row with the declaration's fields
    -- and with the digest and the size of its file.
    pub data Entered (rows : List ArtifactRow) : List Declared → List String → Type 0 where
      nothing : Entered rows [] []
      entered :
          (d : Declared) (ds : List Declared) (ids : List String) (r : Reading)
          → workspace d.store_key ≡ file r
          → first (has_artifact_id d.artifact_id) rows
            ≡ some (artifact_row attempt_id now (measured digest d r))
          → Entered rows ds ids
          → Entered rows (d ∷ ds) (d.artifact_id ∷ ids)

    pub record IsRegistered (ds : List Declared) (before : Db) (objects : List Object)
        (ids : List String) (after : Db) (kept : List Object) : Type 0 where
      pub more : List ArtifactRow
      pub same : after ≡ record before { artifacts = before.artifacts ++ more }
      pub all_kept : All (IsKept digest kept before.attempts) more
      pub all_entered : Entered after.artifacts ds ids

    and_id-objects :
        (id : String) (x : Result (List String × Db) × List Object) → (and_id digest id x).1 ≡ x.1
    and_id-objects id (err e, objects) = refl
    and_id-objects id (ok (ids, db), objects) = refl

    and_id-ok :
        (id : String) (x : Result (List String × Db) × List Object) {ids : List String} {after : Db}
        {kept : List Object}
        → and_id digest id x ≡ (ok (ids, after), kept)
        → (more : List String) × (ids ≡ id ∷ more) × (x ≡ (ok (more, after), kept))
    and_id-ok id (err e, objects) h = absurd cc
    and_id-ok id (ok (more, db), objects) h = (more, cc, cc)

    pub register-Grows :
        (ds : List Declared) (before : Db) (objects : List Object)
        → Grows objects (register_each digest workspace attempt_id now ds before objects).1
    unfolding register_each
    register-Grows [] before objects = Grows-refl objects
    register-Grows (d ∷ ds) before objects =
        elim (Result-cases (take_custody digest (workspace d.store_key) d objects)) [
          | inr (e, taken) ↦ rw (register_each, taken) (Grows-refl objects)
          | inl ((a, kept), taken) ↦
              let grows : Grows objects kept =
                (take-IsTaken digest (workspace d.store_key) d objects a kept
                  taken).published.grows in
              elim (Result-cases (insert_artifact (artifact_row attempt_id now a) before)) [
                | inr (e, added) ↦ rw (register_each, taken, added) grows
                | inl (after, added) ↦
                    rw
                      (
                        register_each,
                        taken,
                        added,
                        and_id-objects a.artifact_id
                            (register_each digest workspace attempt_id now ds after kept),
                      )
                      (Grows-trans objects kept
                        (register_each digest workspace attempt_id now ds after kept).1 grows
                        (register-Grows ds after kept))
              ]
        ]

    IsRegistered-cons :
        (d : Declared) (ds : List Declared) (a : Artifact) (before db after : Db)
        (objects held kept : List Object) (ids : List String)
        → IsTaken digest (workspace d.store_key) d objects a held
        → IsInserted (artifact_row attempt_id now a) before db
        → Grows held kept
        → IsRegistered ds db held ids after kept
        → IsRegistered (d ∷ ds) before objects (a.artifact_id ∷ ids) after kept
    IsRegistered-cons d ds a before db after objects held kept ids taken inserted grows rest =
        let row : ArtifactRow = artifact_row attempt_id now a in
        let in_db : db.artifacts ≡ before.artifacts ++ row ∷ [] =
          ap (λ (x : Db). x.artifacts) inserted.same in
        let attempts : db.attempts ≡ before.attempts = ap (λ (x : Db). x.attempts) inserted.same in
        let later : after.artifacts ≡ db.artifacts ++ rest.more =
          ap (λ (x : Db). x.artifacts) rest.same in
        record {
          more = row ∷ rest.more;
          same =
              rest.same
              ∙ rw inserted.same (
                  ap (λ rows. record before { artifacts = rows })
                    (append_assoc before.artifacts (row ∷ []) rest.more));
          all_kept = (
            record {
              storage = refl;
              attempted = inserted.attempted;
              held = rw taken.measure (
                  IsHeld-Grows digest held kept (digest taken.reading.hashed) taken.reading.size
                    grows taken.published.held);
            },
            subst (λ x. All (IsKept digest kept x) rest.more) attempts rest.all_kept,
          );
          all_entered = rw taken.measure (
              entered d ds ids taken.reading taken.read
                (subst
                  (λ (x : Artifact).
                    first (has_artifact_id x.artifact_id) after.artifacts
                    ≡ some (artifact_row attempt_id now x))
                  taken.measure
                  (rw later (
                    first-kept (has_artifact_id a.artifact_id) db.artifacts rest.more row
                      inserted.found)))
                rest.all_entered);
        }

    pub register-IsRegistered :
        (ds : List Declared) (before : Db) (objects : List Object) (ids : List String) (after : Db)
        (kept : List Object)
        → register_each digest workspace attempt_id now ds before objects ≡ (ok (ids, after), kept)
        → IsRegistered ds before objects ids after kept
    unfolding register_each
    register-IsRegistered [] before objects ids after kept h =
        let none_made : ids ≡ [] = cc in
        let same : after ≡ before = cc in
        record {
          more = [];
          same =
              rw same (
                ap (λ rows. record before { artifacts = rows })
                  (sym (append-nil before.artifacts)));
          all_kept = tt;
          all_entered = rw none_made nothing;
        }
    register-IsRegistered (d ∷ ds) before objects ids after kept h =
        elim (Result-cases (take_custody digest (workspace d.store_key) d objects)) [
          | inr (e, taken) ↦ absurd (let g = rw (register_each, taken) at h in cc)
          | inl ((a, held), taken) ↦
              elim (Result-cases (insert_artifact (artifact_row attempt_id now a) before)) [
                | inr (e, added) ↦ absurd (let g = rw (register_each, taken, added) at h in cc)
                | inl (db, added) ↦
                    let (more, ids_are, rest) =
                      and_id-ok a.artifact_id
                        (register_each digest workspace attempt_id now ds db held)
                        (rw (register_each, taken, added) at h) in
                    let grows : Grows held kept =
                      subst (λ (x : Result (List String × Db) × List Object). Grows held x.1) rest
                        (register-Grows ds db held) in
                    rw ids_are (
                      IsRegistered-cons d ds a before db after objects held kept more
                        (take-IsTaken digest (workspace d.store_key) d objects a held taken)
                        (insert-IsInserted (artifact_row attempt_id now a) before db added) grows
                        (register-IsRegistered ds db held more after kept rest))
              ]
        ]
