-- ===== src/Custody/Guarantees.antt =====
-- What the custody of files (store.py) promises: nothing that is registered loses its bytes.
use chip_evolve.Base.{
  ℕ, ◌≡◌, refl, subst, true, Option-cases, inl, inr, none, some, List, [], ◌∷◌, arith, String,
  first, All-first,
}
use chip_evolve.Runtime.State.{Db, ArtifactRow, empty}
use chip_evolve.Runtime.Result.{ok_inj, Result, ok, err}
use chip_evolve.Runtime.Attempts.{is_attempt}
use chip_evolve.Custody.Objects.{Bytes, Object, Store, Reading, is_intact, stored}
use chip_evolve.Custody.Artifacts.{
  object, Found, file, Declared, has_artifact_id, artifact_of, artifact_row, measured, get_artifact,
  artifact_path, bytes_at, materialize_artifact, registered, register_each, register_artifacts,
}
use chip_evolve.Custody.Registration.{IsKept}
use chip_evolve.Custody.Registered.{Entered, nothing, entered, register-IsRegistered}
use chip_evolve.Custody.Steps.{here, next, registering, Steps, Later, IsSound}
use chip_evolve.Custody.Kept.{Steps-IsSafe}

-- The store of a new state root.
abbrev pub empty_store : Store
empty_store = record { db = empty; inputs = []; metrics = []; objects = [] }

module _ (digest : Bytes → String) (cpu memory : ℕ) where
  abbrev pub Reachable : Store → Type 0
  Reachable s = Steps digest cpu memory empty_store s

  -- In every reachable store, each artifact and each upload has a file in the object store with bytes
  -- of the digest and of the size that its row records, and each artifact is of an attempt in its table.
  pub custody-IsSound : (s : Store) → Reachable s → IsSound digest cpu memory s
  custody-IsSound s reached =
      (Steps-IsSafe digest cpu memory empty_store s reached).sound
        (record { artifacts = tt; uploads = tt })

  -- An artifact can be read: it is what its row says, with bytes that match it.
  pub record IsReadable (files : String → String → Found) (s : Store) (id : String)
      (row : ArtifactRow) : Type 0 where
    pub content : Bytes
    pub got : get_artifact s id ≡ ok (artifact_of row)
    pub path : artifact_path files s id ≡ ok (object row.sha256)
    pub there : stored row.sha256 s.objects ≡ some content
    pub copied : materialize_artifact files s id ≡ ok (artifact_of row, content)
    pub intact : is_intact digest content row.sha256 row.size_bytes ≡ true

  pub kept-IsReadable :
      (files : String → String → Found) (s : Store) (id : String) (row : ArtifactRow)
      → IsSound digest cpu memory s
      → first (has_artifact_id id) s.db.artifacts ≡ some row
      → IsReadable files s id row
  unfolding get_artifact artifact_path
  kept-IsReadable files s id row sound there =
      let kept : IsKept digest s.objects s.db.attempts row =
        All-first (IsKept digest s.objects s.db.attempts) (has_artifact_id id) s.db.artifacts
          sound.artifacts there in
      elim (Option-cases (first (is_attempt row.attempt_id) s.db.attempts)) [
        | inl lost ↦ absurd (let a = kept.attempted in let g = rw lost at a in ground (arith, g))
        | inr (attempt, joined) ↦
            let got : get_artifact s id ≡ ok (artifact_of row) = rw there in
            let path : artifact_path files s id ≡ ok (object row.sha256) =
              rw (there, joined, kept.storage) in
            record {
              content = kept.held.content;
              got = got;
              path = path;
              there = kept.held.there;
              copied = unfold materialize_artifact bytes_at in rw (got, path, kept.held.there);
              intact = kept.held.intact;
            }
      ]

  -- Each id names the artifact that a declaration was registered as, without its media type, and with
  -- bytes of the digest and the size that were measured.
  pub data Returned (files : String → String → Found) (workspace : String → Found) (s : Store)
      : List Declared → List String → Type 0 where
    none_declared : Returned files workspace s [] []
    returned :
        (d : Declared) (ds : List Declared) (ids : List String) (r : Reading) (content : Bytes)
        → workspace d.store_key ≡ file r
        → materialize_artifact files s d.artifact_id
          ≡ ok (record (measured digest d r) { media_type = none }, content)
        → is_intact digest content (digest r.hashed) r.size ≡ true
        → Returned files workspace s ds ids
        → Returned files workspace s (d ∷ ds) (d.artifact_id ∷ ids)

  Entered-Returned :
      (files : String → String → Found) (workspace : String → Found) (attempt_id now : ℕ)
      (s t : Store)
      → IsSound digest cpu memory t
      → Later digest cpu memory s t
      → (ds : List Declared) (ids : List String)
      → Entered digest workspace attempt_id now s.db.artifacts ds ids
      → Returned files workspace t ds ids
  Entered-Returned files workspace attempt_id now s t sound later [] [] nothing = none_declared
  Entered-Returned files workspace attempt_id now s t sound later ds ids
        (entered d rest more r found there others) =
      let row : ArtifactRow = artifact_row attempt_id now (measured digest d r) in
      let read : IsReadable files t d.artifact_id row =
        kept-IsReadable files t d.artifact_id row sound (later.artifacts d.artifact_id row there) in
      returned d rest more r read.content found read.copied read.intact
        (Entered-Returned files workspace attempt_id now s t sound later rest more others)

  registered-ok :
      (workspace : String → Found) (attempt_id now : ℕ) (ds : List Declared) (s : Store)
      (x : Result (List String × Db) × List Object) (ids : List String)
      → register_each digest workspace attempt_id now ds s.db s.objects ≡ x
      → (registered digest s x).0 ≡ ok ids
      → Entered digest workspace attempt_id now (registered digest s x).1.db.artifacts ds ids
  registered-ok workspace attempt_id now ds s (err e, objects) ids made h = absurd cc
  registered-ok workspace attempt_id now ds s (ok (them, db), objects) ids made h =
      let same : them ≡ ids = ok_inj h in
      subst (λ i. Entered digest workspace attempt_id now db.artifacts ds i) same
        (register-IsRegistered digest workspace attempt_id now ds s.db s.objects them db objects
          made).all_entered

  -- In a reachable store, after a registration that returned and whatever is called next, the id of each
  -- declaration names an artifact with its kind, its path and its metadata, and with a copy of bytes
  -- of the digest and of the size that its file had when it was measured.
  pub materialize-register :
      (files : String → String → Found) (workspace : String → Found) (attempt_id now : ℕ)
      (ds : List Declared) (s t : Store) (ids : List String)
      → Reachable s
      → (register_artifacts digest workspace attempt_id now ds s).0 ≡ ok ids
      → Steps digest cpu memory (register_artifacts digest workspace attempt_id now ds s).1 t
      → Returned files workspace t ds ids
  materialize-register files workspace attempt_id now ds s t ids reached done later =
      let end : Store = (register_artifacts digest workspace attempt_id now ds s).1 in
      let safe = Steps-IsSafe digest cpu memory end t later in
      let first_sound : IsSound digest cpu memory end =
        (Steps-IsSafe digest cpu memory s end
            (next (registering workspace attempt_id now ds s) (here end))).sound
          (custody-IsSound s reached) in
      Entered-Returned files workspace attempt_id now end t (safe.sound first_sound) safe.later ds
        ids
        (unfold register_artifacts in
          registered-ok workspace attempt_id now ds s
            (register_each digest workspace attempt_id now ds s.db s.objects) ids refl done)
