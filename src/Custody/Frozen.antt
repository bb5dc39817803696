-- ===== src/Custody/Frozen.antt =====
-- The submission's checks and the freezing of host files (_check_inputs and _freeze_host_inputs of
-- runtime.py): what they leave names only what the platform holds.
use chip_evolve.Base.{
  ℕ, ◌≡◌, refl, subst, ap, Bool, true, false, not, Bool-cases, Option-cases, inl, inr, Option, none,
  some, List, [], ◌∷◌, ◌++◌, arith, String, str_eq, str_eq_refl, first, some_row, is_some, All,
}
use chip_evolve.Contracts.Input.{InputFile}
use chip_evolve.Runtime.State.{Db, UploadedInput}
use chip_evolve.Runtime.Result.{
  Result, ok, err, Result-cases, bind-ok, guard-ok, ok_inj, integrity_error,
}
use chip_evolve.Custody.Objects.{Bytes, Object, Store, Reading, store_object}
use chip_evolve.Custody.Artifacts.{Found, has_artifact_id, get_artifact}
use chip_evolve.Custody.Inputs.{
  has_input_id, get_uploaded_input, ingest_input_file, upload, recorded, insert_upload,
}
use chip_evolve.Custody.Freezing.{check_input, check_inputs, frozen, freeze_input}
use chip_evolve.Custody.Steps.{Steps, here, next, ingesting_file, Later}
use chip_evolve.Custody.Submitted.{IsResolved, uploaded, registered}

-- A declaration that the submission's checks let pass: it names what the platform has, or a host file.
pub data IsAccepted (s : Store) (f : InputFile) : Type 0 where
  of_held : IsResolved s f → IsAccepted s f
  of_path : (path : String) → f.source ≡ some path → IsAccepted s f

first_upload :
    (u : UploadedInput) (rows : List UploadedInput)
    → some_row (has_input_id u.input_id) rows ≡ false
    → first (has_input_id u.input_id) (rows ++ u ∷ []) ≡ some u
unfolding first some_row
first_upload u [] h = rw (str_eq_refl u.input_id)
first_upload u (x ∷ xs) h = elim (Bool-cases (str_eq x.input_id u.input_id)) [
  | inl e ↦ absurd (ground arith)
  | inr e ↦ rw e (first_upload u xs (rw e at h))
]

inserted_found :
    (u : UploadedInput) (before after : Db)
    → insert_upload u before ≡ ok after
    → first (has_input_id u.input_id) after.uploaded_inputs ≡ some u
unfolding insert_upload
inserted_found u before after h =
    let (free, same) =
      guard-ok (not (some_row (has_input_id u.input_id) before.uploaded_inputs)) integrity_error _
        h in
    rw (← ok_inj same) (first_upload u before.uploaded_inputs (ground arith))

-- An upload that was recorded is found by its id.
recorded_found :
    (u v : UploadedInput) (s : Store) (r : Result (List Object))
    → (recorded u s r).0 ≡ ok v
    → first (has_input_id v.input_id) (recorded u s r).1.db.uploaded_inputs ≡ some v
unfolding recorded
recorded_found u v s (err e) h = absurd cc
recorded_found u v s (ok kept) h = elim (Result-cases (insert_upload u s.db)) [
  | inr (e, refused) ↦ absurd (let g = rw refused at h in cc)
  | inl (db, written) ↦
      let is_u : u ≡ v = ok_inj (rw written at h) in
      rw (written, ← is_u) (inserted_found u s.db db written)
]

module _ (digest : Bytes → String) (cpu memory : ℕ) (files : String → String → Found)
    (host : String → Option Reading) where
  pub IsAccepted-Later :
      (s t : Store) (f : InputFile) → Later digest cpu memory s t → IsAccepted s f → IsAccepted t f
  IsAccepted-Later s t f later (of_held (uploaded id u names there)) =
      of_held (uploaded id u names (later.uploads id u there))
  IsAccepted-Later s t f later (of_held (registered id row no_upload names there)) =
      of_held (registered id row no_upload names (later.artifacts id row there))
  IsAccepted-Later s t f later (of_path path names) = of_path path names

  check-IsAccepted :
      (inside : String → Bool) (s : Store) (f : InputFile)
      → check_input digest files host inside s f ≡ ok tt
      → IsAccepted s f
  unfolding check_input get_uploaded_input get_artifact
  check-IsAccepted inside s f h = elim (Option-cases f.input_id) [
    | inr (id, names) ↦ elim (Option-cases (first (has_input_id id) s.db.uploaded_inputs)) [
      | inr (u, there) ↦ of_held (uploaded id u names there)
      | inl lost ↦ absurd (let g = rw (check_input, names, get_uploaded_input, lost) at h in cc)
    ]
    | inl no_upload ↦ elim (Option-cases f.artifact_id) [
      | inr (id, names) ↦ elim (Option-cases (first (has_artifact_id id) s.db.artifacts)) [
        | inr (row, there) ↦ of_held (registered id row no_upload names there)
        | inl lost ↦
            absurd (let g = rw (check_input, no_upload, names, get_artifact, lost) at h in cc)
      ]
      | inl no_artifact ↦ elim (Option-cases f.source) [
        | inr (path, names) ↦ of_path path names
        | inl no_source ↦
            absurd (let g = rw (check_input, no_upload, no_artifact, no_source) at h in cc)
      ]
    ]
  ]

  pub checks-IsAccepted :
      (inside : String → Bool) (s : Store) (fs : List InputFile)
      → check_inputs digest files host inside s fs ≡ ok tt
      → All (IsAccepted s) fs
  unfolding check_inputs
  checks-IsAccepted inside s [] h = tt
  checks-IsAccepted inside s (f ∷ fs) h =
      let (done, one, rest) = bind-ok (check_input digest files host inside s f) _ h in
      (check-IsAccepted inside s f one, checks-IsAccepted inside s fs rest)

  -- The declaration's host source, if it names one, is there.
  abbrev pub IsPresent : InputFile → Type 0
  IsPresent f = (path : String) → f.source ≡ some path → is_some (host path) ≡ true

  -- What freezing one declaration leads to.
  pub record IsFrozen (g : InputFile) (s after : Store) : Type 0 where
    pub steps : Steps digest cpu memory s after
    pub resolved : IsResolved after g

  frozen-ok :
      (f g : InputFile) (x : Result UploadedInput × Store) (after : Store)
      → frozen digest files host f x ≡ (ok g, after)
      → (u : UploadedInput) × (x ≡ (ok u, after)) × (g.input_id ≡ some u.input_id)
  frozen-ok f g (err e, s) after h = absurd cc
  frozen-ok f g (ok u, s) after h =
      let made : record f { source = none; artifact_id = none; input_id = some u.input_id } ≡ g =
        ok_inj (ap (λ (x : Result InputFile × Store). x.0) h) in
      (
        u,
        ap (λ (end : Store). (ok u, end)) (ap (λ (x : Result InputFile × Store). x.1) h),
        rw (← made) refl,
      )

  ingest-IsFrozen :
      (now : ℕ) (id : String) (r : Reading) (f g : InputFile) (s after : Store)
      → frozen digest files host f (ingest_input_file digest (some r) id now s) ≡ (ok g, after)
      → IsFrozen g s after
  ingest-IsFrozen now id r f g s after h =
      let (u, made, names) = frozen-ok f g (ingest_input_file digest (some r) id now s) after h in
      let found : first (has_input_id u.input_id)
            (ingest_input_file digest (some r) id now s).1.db.uploaded_inputs
          ≡ some u =
        unfold ingest_input_file in
        recorded_found (upload id (digest r.hashed) r.size now) u s
          (store_object digest r (digest r.hashed) r.size s.objects)
          (ap (λ (x : Result UploadedInput × Store). x.0) made) in
      record {
        steps =
            subst (λ (x : Result UploadedInput × Store). Steps digest cpu memory s x.1) made
              (next (ingesting_file (some r) id now s)
                (here (ingest_input_file digest (some r) id now s).1));
        resolved = uploaded u.input_id u names (
            subst
              (λ (x : Result UploadedInput × Store).
                first (has_input_id u.input_id) x.1.db.uploaded_inputs ≡ some u)
              made found);
      }

  unchanged-IsFrozen :
      (f g : InputFile) (s after : Store)
      → IsResolved s f
      → ◌≡◌ {A = Result InputFile × Store} (ok f, s) (ok g, after)
      → IsFrozen g s after
  unchanged-IsFrozen f g s after resolved h =
      let same : f ≡ g = ok_inj (ap (λ (x : Result InputFile × Store). x.0) h) in
      let end : s ≡ after = ap (λ (x : Result InputFile × Store). x.1) h in
      subst (λ (t : Store). IsFrozen g s t) end
        (subst (λ (d : InputFile). IsFrozen d s s) same
          (record { steps = here s; resolved = resolved }))

  pub freeze-IsFrozen :
      (now : ℕ) (id : String) (f g : InputFile) (s after : Store)
      → IsAccepted s f
      → IsPresent f
      → freeze_input digest files host now id f s ≡ (ok g, after)
      → IsFrozen g s after
  unfolding freeze_input
  freeze-IsFrozen now id f g s after accepted present h = elim (Option-cases f.source) [
    | inr (path, names) ↦ elim (Option-cases (host path)) [
      | inr (r, there) ↦ ingest-IsFrozen now id r f g s after (rw (freeze_input, names, there) at h)
      | inl lost ↦ absurd (let p = present path names in let q = rw lost at p in ground (arith, q))
    ]
    | inl no_source ↦ elim accepted [
      | of_held r ↦ unchanged-IsFrozen f g s after r (rw (freeze_input, no_source) at h)
      | of_path path names ↦ absurd cc
    ]
  ]
