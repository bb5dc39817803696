-- ===== src/Custody/Kept.antt =====
-- What each operation on the custody of files (store.py) adds, and that it removes nothing.
use chip_evolve.Base.{
  append-nil, ℕ, ◌≡◌, refl, sym, subst, ap, ◌∙◌, not, inl, inr, none, some, List, [], ◌∷◌, ◌++◌,
  String, first, some_row,
}
use chip_evolve.Contracts.Names.{length}
use chip_evolve.Contracts.Input.{StagedInput, is_valid_staged}
use chip_evolve.Contracts.Artifact.{Metric, is_valid_metric}
use chip_evolve.Runtime.State.{Db, UploadedInput}
use chip_evolve.Runtime.Result.{
  Result, ok, err, Result-cases, guard-ok, required-ok, bind-ok, ok_inj, contract_error,
  integrity_error, inconsistent_object, source_changed, object_differs,
}
use chip_evolve.Runtime.Attempts.{is_attempt}
use chip_evolve.Custody.Objects.{Bytes, Object, Store, store_object, store_bytes}
use chip_evolve.Custody.Artifacts.{Found, Declared, registered, register_each, register_artifacts}
use chip_evolve.Custody.Inputs.{
  has_input_id, upload, insert_upload, recorded, ingest_input, ingest_input_file, put_input,
  record_each, recorded_or_not, record_inputs,
}
use chip_evolve.Custody.Metrics.{
  has_metric_id, and_row, metric_row, register_metrics_each, committed, register_metrics,
}
use chip_evolve.Custody.Later.{Grows, Grows-refl, Grows-trans, IsPublished, publish-IsPublished}
use chip_evolve.Custody.Registered.{register-Grows, register-IsRegistered}
use chip_evolve.Custody.Steps.{
  Leaves, lifecycle-Leaves, Step, Steps, here, next, lifecycle, registering, ingesting,
  ingesting_file, recording, measuring, IsSafe, IsSafe-refl, Adds, Adds-IsSafe,
}

insert_upload-same :
    (u : UploadedInput) (before after : Db)
    → insert_upload u before ≡ ok after
    → after ≡ record before { uploaded_inputs = before.uploaded_inputs ++ u ∷ [] }
unfolding insert_upload
insert_upload-same u before after h = sym (
    ok_inj
      (guard-ok (not (some_row (has_input_id u.input_id) before.uploaded_inputs)) integrity_error _
        h).1)

record_each-same :
    (attempt_id now : ℕ) (staged : List StagedInput) (before after : Store)
    → record_each attempt_id now staged before ≡ ok after
    → (after.db ≡ before.db) × (after.objects ≡ before.objects)
unfolding record_each
record_each-same attempt_id now [] before after h =
    (ap (λ (s : Store). s.db) (sym (ok_inj h)), ap (λ (s : Store). s.objects) (sym (ok_inj h)))
record_each-same attempt_id now (i ∷ staged) before after h =
    let (valid, rest) = guard-ok (is_valid_staged i) contract_error _ h in
    let (attempt, there, more) =
      required-ok integrity_error (first (is_attempt attempt_id) before.db.attempts) _ rest in
    record_each-same attempt_id now staged
      (record before { inputs = put_input attempt_id now i before.inputs }) after more

register_metrics-same :
    (attempt_id now : ℕ) (ms : List (String × Metric)) (before after : Store) (ids : List String)
    → register_metrics_each attempt_id now ms before ≡ ok (ids, after)
    → (after.db ≡ before.db) × (after.objects ≡ before.objects)
unfolding register_metrics_each
register_metrics-same attempt_id now [] before after ids h =
    let same : after ≡ before = cc in
    (ap (λ (s : Store). s.db) same, ap (λ (s : Store). s.objects) same)
register_metrics-same attempt_id now ((id, m) ∷ ms) before after ids h =
    let (valid, rest) = guard-ok (is_valid_metric m) contract_error _ h in
    let (fresh, more) =
      guard-ok (not (some_row (has_metric_id id) before.metrics)) integrity_error _ rest in
    let (attempt, there, later) =
      required-ok integrity_error (first (is_attempt attempt_id) before.db.attempts) _ more in
    let ((others, end), wrote, made) =
      bind-ok
        (register_metrics_each attempt_id now ms (and_row (metric_row id attempt_id now m) before))
        _ later in
    let same : end ≡ after = cc in
    subst (λ (s : Store). (s.db ≡ before.db) × (s.objects ≡ before.objects)) same
      (register_metrics-same attempt_id now ms (and_row (metric_row id attempt_id now m) before) end
        others wrote)

module _ (digest : Bytes → String) (cpu memory : ℕ) where
  -- Other tables and objects may change.
  Adds-nothing :
      (before after : Store)
      → Leaves before.db after.db
      → Grows before.objects after.objects
      → Adds digest cpu memory before after
  Adds-nothing before after leaves grows = record {
    more = [];
    uploads = [];
    artifacts_are = leaves.artifacts ∙ sym (append-nil before.db.artifacts);
    uploads_are = leaves.uploads ∙ sym (append-nil before.db.uploaded_inputs);
    attempts = leaves.attempts;
    objects = grows;
    more_kept = tt;
    uploads_held = tt;
  }

  Leaves-same : (before after : Db) → after ≡ before → Leaves before after
  Leaves-same before after e =
      subst (Leaves before) (sym e)
        (record { artifacts = refl; uploads = refl; attempts = λ id h. h })

  Adds-same :
      (before after : Store)
      → after.db ≡ before.db
      → after.objects ≡ before.objects
      → Adds digest cpu memory before after
  Adds-same before after db objects =
      Adds-nothing before after (Leaves-same before.db after.db db)
        (subst (Grows before.objects) (sym objects) (Grows-refl before.objects))

  recorded-Adds :
      (u : UploadedInput) (s : Store) (r : Result (List Object))
      → ((kept : List Object)
          → r ≡ ok kept
          → IsPublished digest s.objects kept u.sha256 u.size_bytes)
      → Adds digest cpu memory s (recorded u s r).1
  unfolding recorded
  recorded-Adds u s (err e) published = Adds-same s s refl refl
  recorded-Adds u s (ok kept) published = elim (Result-cases (insert_upload u s.db)) [
    | inr (e, refused) ↦ rw refused (
        Adds-nothing s (record s { objects = kept }) (Leaves-same s.db s.db refl)
          (published kept refl).grows)
    | inl (db, written) ↦
        let same : db ≡ record s.db { uploaded_inputs = s.db.uploaded_inputs ++ u ∷ [] } =
          insert_upload-same u s.db db written in
        rw (written, same)
          (record {
            more = [];
            uploads = u ∷ [];
            artifacts_are = sym (append-nil s.db.artifacts);
            uploads_are = refl;
            attempts = λ id h. h;
            objects = (published kept refl).grows;
            more_kept = tt;
            uploads_held = ((published kept refl).held, tt);
          })
  ]

  registered-Adds :
      (workspace : String → Found) (attempt_id now : ℕ) (ds : List Declared) (s : Store)
      (x : Result (List String × Db) × List Object)
      → register_each digest workspace attempt_id now ds s.db s.objects ≡ x
      → Grows s.objects x.1
      → Adds digest cpu memory s (registered digest s x).1
  registered-Adds workspace attempt_id now ds s (err e, objects) made grows =
      Adds-nothing s (record s { objects = objects }) (Leaves-same s.db s.db refl) grows
  registered-Adds workspace attempt_id now ds s (ok (ids, db), objects) made grows =
      let r =
        register-IsRegistered digest workspace attempt_id now ds s.db s.objects ids db objects
          made in
      rw r.same (record {
        more = r.more;
        uploads = [];
        artifacts_are = refl;
        uploads_are = sym (append-nil s.db.uploaded_inputs);
        attempts = λ id h. h;
        objects = grows;
        more_kept = r.all_kept;
        uploads_held = tt;
      })

  recorded_or_not-Adds :
      (s : Store) (r : Result Store)
      → ((after : Store) → r ≡ ok after → (after.db ≡ s.db) × (after.objects ≡ s.objects))
      → Adds digest cpu memory s (recorded_or_not s r).1
  recorded_or_not-Adds s (err e) same = Adds-same s s refl refl
  recorded_or_not-Adds s (ok after) same = Adds-same s after (same after refl).0 (same after refl).1

  committed-Adds :
      (s : Store) (r : Result (List String × Store))
      → ((ids : List String) (after : Store)
          → r ≡ ok (ids, after)
          → (after.db ≡ s.db) × (after.objects ≡ s.objects))
      → Adds digest cpu memory s (committed s r).1
  committed-Adds s (err e) same = Adds-same s s refl refl
  committed-Adds s (ok (ids, after)) same =
      Adds-same s after (same ids after refl).0 (same ids after refl).1

  Step-Adds :
      (before after : Store)
      → Step digest cpu memory before after
      → Adds digest cpu memory before after
  unfolding register_artifacts ingest_input ingest_input_file record_inputs register_metrics
  Step-Adds before after (lifecycle s db step) =
      Adds-nothing s (record s { db = db }) (lifecycle-Leaves step) (Grows-refl s.objects)
  Step-Adds before after (registering workspace attempt_id now ds s) =
      registered-Adds workspace attempt_id now ds s
        (register_each digest workspace attempt_id now ds s.db s.objects) refl
        (register-Grows digest workspace attempt_id now ds s.db s.objects)
  Step-Adds before after (ingesting content id now s) =
      recorded-Adds (upload id (digest content) (length content) now) s
        (store_bytes digest content (digest content) (length content) s.objects)
        (λ kept h.
          publish-IsPublished digest object_differs source_changed content (digest content)
            (length content) s.objects kept h)
  Step-Adds before after (ingesting_file none id now s) = Adds-same s s refl refl
  Step-Adds before after (ingesting_file (some r) id now s) =
      recorded-Adds (upload id (digest r.hashed) r.size now) s
        (store_object digest r (digest r.hashed) r.size s.objects)
        (λ kept h.
          publish-IsPublished digest inconsistent_object source_changed r.copied (digest r.hashed)
            r.size s.objects kept h)
  Step-Adds before after (recording attempt_id now staged s) =
      recorded_or_not-Adds s (record_each attempt_id now staged s)
        (λ end h. record_each-same attempt_id now staged s end h)
  Step-Adds before after (measuring attempt_id now ms s) =
      committed-Adds s (register_metrics_each attempt_id now ms s)
        (λ ids end h. register_metrics-same attempt_id now ms s end ids h)

  IsSafe-trans :
      (a b c : Store)
      → IsSafe digest cpu memory a b
      → IsSafe digest cpu memory b c
      → IsSafe digest cpu memory a c
  IsSafe-trans a b c first then = record {
    later = record {
      artifacts = λ id row h. then.later.artifacts id row (first.later.artifacts id row h);
      uploads = λ id u h. then.later.uploads id u (first.later.uploads id u h);
      objects = Grows-trans a.objects b.objects c.objects first.later.objects then.later.objects;
    };
    sound = λ h. then.sound (first.sound h);
  }

  pub Steps-IsSafe :
      (before after : Store)
      → Steps digest cpu memory before after
      → IsSafe digest cpu memory before after
  Steps-IsSafe before after (here s) = IsSafe-refl digest cpu memory s
  Steps-IsSafe before after (next {a = a} {b = b} {c = c} step rest) =
      IsSafe-trans a b c (Adds-IsSafe digest cpu memory a b (Step-Adds a b step))
        (Steps-IsSafe b c rest)
