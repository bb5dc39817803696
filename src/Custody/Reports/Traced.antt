-- ===== src/Custody/Reports/Traced.antt =====
-- What is registered of an adapter's report: no kind that the platform reserves, and no metric whose source
-- cannot be found (adapter.py and runtime.py under core/runtime/src/openroad_platform_runtime).
use chip_evolve.Base.{
  ℕ, ◌+◌, ◌≡◌, sym, subst, ap, ◌∙◌, Bool, true, false, ◌||◌, not, Bool-cases, Option-cases, inl,
  inr, none, some, List, [], ◌∷◌, ◌++◌, map, String, str_eq, str_eq_iff, All, arith,
}
use chip_evolve.Contracts.Artifact.{
  Artifact, Metric, is_valid_declaration, one_of, reserved_artifact_kinds,
}
use chip_evolve.Runtime.Result.{
  ok, ok_inj, bind-ok, required-ok, guard-ok, missing_file, protocol_error, untraced_metric,
}
use chip_evolve.Custody.Objects.{Bytes, Store}
use chip_evolve.Custody.Artifacts.{
  bytes_at, measured, Found, Declared, get_artifact, artifact_path, materialize_artifact,
  register_artifacts,
}
use chip_evolve.Custody.Steps.{Steps}
use chip_evolve.Custody.Guarantees.{
  Reachable, Returned, none_declared, returned, materialize-register,
}
use chip_evolve.Custody.Reports.{
  Rule, Reported, Resolved, Normalized, allowed_kinds, is_empty, key_of, normalize, normalize_each,
  validate_declarations, named, RawMetric, by_store_key, attach, all_produced, required_kinds,
}

-- The kind is none that the platform reserves.
abbrev pub IsOpen : String → Type 0
IsOpen kind = one_of reserved_artifact_kinds kind ≡ false

valid-IsOpen :
    (item : Reported) (kind path : String)
    → is_valid_declaration (record {
      kind = kind;
      path = path;
      required = true;
      media_type = none;
      metadata = item.metadata;
      allow_reserved = false;
    })
      ≡ true
    → IsOpen kind
unfolding is_valid_declaration
valid-IsOpen item kind path h = ground arith

normalize-IsOpen :
    (workspace : String → Resolved) (allowed seen : List String) (item : Reported) (n : Normalized)
    → normalize workspace allowed false seen item ≡ ok n
    → IsOpen n.kind
unfolding normalize
normalize-IsOpen workspace allowed seen item n h =
    let (kind, is_kind, one) = required-ok protocol_error item.kind _ h in
    let (path, is_path, two) = required-ok protocol_error item.path _ one in
    let (valid, three) =
      guard-ok
        (is_valid_declaration (record {
          kind = kind;
          path = path;
          required = true;
          media_type = none;
          metadata = item.metadata;
          allow_reserved = false;
        }))
        protocol_error _ two in
    let (permitted, four) =
      guard-ok (is_empty allowed || one_of allowed kind || false) protocol_error _ three in
    let (key, is_key, five) = bind-ok (key_of (workspace path)) _ four in
    let (new, made) = guard-ok (not (one_of seen key)) protocol_error _ five in
    subst (λ (m : Normalized). IsOpen m.kind) (ok_inj made) (valid-IsOpen item kind path valid)

normalize_each-IsOpen :
    (workspace : String → Resolved) (allowed seen : List String) (items : List Reported)
    (ns : List Normalized)
    → normalize_each workspace allowed false seen items ≡ ok ns
    → All (λ n. IsOpen n.kind) ns
unfolding normalize_each
normalize_each-IsOpen workspace allowed seen [] ns h =
    subst (λ (ms : List Normalized). All (λ n. IsOpen n.kind) ms) (ok_inj h) tt
normalize_each-IsOpen workspace allowed seen (item ∷ items) ns h =
    let (n, one, more) = bind-ok (normalize workspace allowed false seen item) _ h in
    let (rest, others, made) =
      bind-ok (normalize_each workspace allowed false (n.store_key ∷ seen) items) _ more in
    subst (λ (ms : List Normalized). All (λ m. IsOpen m.kind) ms) (ok_inj made)
      (
        normalize-IsOpen workspace allowed seen item n one,
        normalize_each-IsOpen workspace allowed (n.store_key ∷ seen) items rest others,
      )

validate-IsOpen :
    (workspace : String → Resolved) (rules : List Rule) (expected : List String)
    (require_expected : Bool) (items : List Reported) (ns : List Normalized)
    → validate_declarations workspace rules expected require_expected false items ≡ ok ns
    → All (λ n. IsOpen n.kind) ns
unfolding validate_declarations
validate-IsOpen workspace rules expected require_expected items ns h =
    let (them, each, checked) =
      bind-ok (normalize_each workspace (allowed_kinds rules) false [] items) _ h in
    let (produced, made) =
      guard-ok
        (not require_expected
          || all_produced (map (λ (n : Normalized). n.kind) them)
              (expected ++ required_kinds rules))
        protocol_error _ checked in
    subst (λ (ms : List Normalized). All (λ n. IsOpen n.kind) ms) (ok_inj made)
      (normalize_each-IsOpen workspace (allowed_kinds rules) [] items them each)

named-IsOpen :
    (id : ℕ → String) (index : ℕ) (ns : List Normalized)
    → All (λ n. IsOpen n.kind) ns
    → All (λ d. IsOpen d.kind) (named id index ns)
unfolding named
named-IsOpen id index [] h = tt
named-IsOpen id index (n ∷ ns) h = (h.0, named-IsOpen id (index + 1) ns h.1)

some_inj : {x y : String} → some x ≡ some y → x ≡ y
some_inj h = cc

module _ (digest : Bytes → String) (cpu memory : ℕ) (files : String → String → Found) where
  materialized_artifact :
      (t : Store) (id : String) (a : Artifact) (content : Bytes)
      → materialize_artifact files t id ≡ ok (a, content)
      → get_artifact t id ≡ ok a
  unfolding materialize_artifact
  materialized_artifact t id a content h =
      let (b, got, rest) = bind-ok (get_artifact t id) _ h in
      let (place, path, more) = bind-ok (artifact_path files t id) _ rest in
      let (bytes, there, made) = required-ok missing_file (bytes_at files t place) _ more in
      got ∙ ap (λ (x : Artifact × Bytes). ok x.0) (ok_inj {x = (b, bytes)} made)

  -- The artifact of an id is there, and of an open kind.
  abbrev pub IsUnreserved : Store → String → Type 0
  IsUnreserved t id = (a : Artifact) × (get_artifact t id ≡ ok a) × IsOpen a.kind

  Returned-open :
      (workspace : String → Found) (t : Store) (ds : List Declared) (ids : List String)
      → Returned digest cpu memory files workspace t ds ids
      → All (λ d. IsOpen d.kind) ds
      → All (IsUnreserved t) ids
  Returned-open workspace t ds ids none_declared h = tt
  Returned-open workspace t _ _ (returned d ds ids r content found copied intact rest) h = (
    (
      record (measured digest d r) { media_type = none },
      materialized_artifact t d.artifact_id (record (measured digest d r) { media_type = none })
          content copied,
      h.0,
    ),
    Returned-open workspace t ds ids rest h.1,
  )

  -- In a reachable store, if an adapter's declarations are validated without the platform's authority and
  -- then registered, and whatever is called next, no artifact that the ids name has a reserved kind.
  pub reported-IsUnreserved :
      (paths : String → Resolved) (rules : List Rule) (expected : List String)
      (require_expected : Bool) (items : List Reported) (ns : List Normalized)
      (workspace : String → Found) (id : ℕ → String) (attempt_id now : ℕ) (s t : Store)
      (ids : List String)
      → Reachable digest cpu memory s
      → validate_declarations paths rules expected require_expected false items ≡ ok ns
      → (register_artifacts digest workspace attempt_id now (named id 0 ns) s).0 ≡ ok ids
      → Steps digest cpu memory
          (register_artifacts digest workspace attempt_id now (named id 0 ns) s).1
          t
      → All (IsUnreserved t) ids
  reported-IsUnreserved paths rules expected require_expected items ns workspace id attempt_id now s
        t ids reached valid done later =
      Returned-open workspace t (named id 0 ns) ids
        (materialize-register digest cpu memory files workspace attempt_id now (named id 0 ns) s t
          ids reached done later)
        (named-IsOpen id 0 ns
          (validate-IsOpen paths rules expected require_expected items ns valid))

  -- An id that a store key finds is that of an artifact with this store key.
  found_by_key :
      (workspace : String → Found) (t : Store) (ds : List Declared) (ids : List String)
      (key id : String)
      → Returned digest cpu memory files workspace t ds ids
      → by_store_key ds ids key ≡ some id
      → (a : Artifact) × (get_artifact t id ≡ ok a) × (a.store_key ≡ key)
  unfolding by_store_key
  found_by_key workspace t ds ids key id none_declared h = absurd cc
  found_by_key workspace t _ _ key id (returned d ds ids r content found copied intact rest) h =
      elim (Option-cases (by_store_key ds ids key)) [
        | inr (later, there) ↦
            found_by_key workspace t ds ids key id rest (there ∙ rw (by_store_key, there) at h)
        | inl none_later ↦ elim (Bool-cases (str_eq d.store_key key)) [
          | inr other ↦ absurd (let e = rw (by_store_key, none_later, other) at h in cc)
          | inl same ↦
              let is_id : d.artifact_id ≡ id =
                some_inj (rw (by_store_key, none_later, same) at h) in
              subst
                (λ (i : String). (a : Artifact) × (get_artifact t i ≡ ok a) × (a.store_key ≡ key))
                is_id
                (
                  record (measured digest d r) { media_type = none },
                  materialized_artifact t d.artifact_id
                      (record (measured digest d r) { media_type = none }) content copied,
                  (str_eq_iff d.store_key key).0 same,
                )
        ]
      ]

  -- In a reachable store, after a registration of artifacts, a metric that is attached by the store key
  -- of its source cites an artifact of that store key, and it is there whatever is called next.
  pub metric_traced :
      (workspace : String → Found) (attempt_id now : ℕ) (ds : List Declared) (s t : Store)
      (ids : List String) (raw : RawMetric) (m : Metric) (key : String)
      → Reachable digest cpu memory s
      → (register_artifacts digest workspace attempt_id now ds s).0 ≡ ok ids
      → Steps digest cpu memory (register_artifacts digest workspace attempt_id now ds s).1 t
      → raw.source_key ≡ some key
      → attach ds ids raw ≡ ok m
      → (id : String) × (m.source_artifact_id ≡ some id)
        × ((a : Artifact) × (get_artifact t id ≡ ok a) × (a.store_key ≡ key))
  unfolding attach
  metric_traced workspace attempt_id now ds s t ids raw m key reached done later names h =
      let (id, there, made) =
        required-ok untraced_metric (by_store_key ds ids key) _ (rw (attach, names) at h) in
      (
        id,
        ap (λ (x : Metric). x.source_artifact_id) (sym (ok_inj made)),
        found_by_key workspace t ds ids key id
            (materialize-register digest cpu memory files workspace attempt_id now ds s t ids
              reached done later)
            there,
      )
