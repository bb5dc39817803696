-- ===== src/Custody/Reports.antt =====
-- What an adapter reports, on its way into the store: validate_artifact_declarations in
-- core/runtime/src/openroad_platform_runtime/adapter.py, and the metrics of _register_metrics in runtime.py.
pub mod Traced
use chip_evolve.Base.{
  ℕ, ◌+◌, Bool, true, false, ◌&&◌, ◌||◌, not, Option, none, some, List, [], ◌∷◌, ◌++◌, map,
  if◌then◌else◌, String, str_eq,
}
use chip_evolve.Contracts.Names.{schema_version}
use chip_evolve.Contracts.Artifact.{Metadata, Value, Metric, is_valid_declaration, one_of}
use chip_evolve.Runtime.Result.{
  Result, ok, err, ◌>>=◌, ◌>>◌, guard, required, protocol_error, escapes_workspace, missing_file,
  untraced_metric,
}
use chip_evolve.Custody.Artifacts.{Declared}

-- A rule of the manifest's artifact_rules, in the fields that are read here. An empty kind is none.
pub record Rule : Type 0 where
  pub kind : Option String
  pub required : Bool

-- A declaration as it is reported; a kind or a path that is no text is none.
pub record Reported : Type 0 where
  pub kind : Option String
  pub path : Option String
  pub media_type : Option String
  pub metadata : Metadata

-- What `(root / path).resolve()` is: outside of the workspace, no file, or a file with its path from the root.
pub data Resolved : Type 0 where
  outside absent : Resolved
  at : String → Resolved

-- An entry of `normalized`; size and digest are measured again when it is registered.
pub record Normalized : Type 0 where
  pub kind : String
  pub store_key : String
  pub media_type : Option String
  pub metadata : Metadata

abbrev pub kind_of : Rule → List String
kind_of r = elim r.kind [ none ↦ [] | some k ↦ k ∷ [] ]

unfoldable pub allowed_kinds : List Rule → List String
allowed_kinds [] = []
allowed_kinds (r ∷ rs) = kind_of r ++ allowed_kinds rs

abbrev pub is_empty : List String → Bool
is_empty [] = true
is_empty (t ∷ ts) = false

abbrev pub key_of : Resolved → Result String
key_of outside = err escapes_workspace
key_of absent = err missing_file
key_of (at key) = ok key

-- One pass of the loop, with the keys seen before
unfoldable pub normalize :
    (String → Resolved) → List String → Bool → List String → Reported → Result Normalized
normalize workspace allowed allow_reserved seen item = required protocol_error item.kind >>= λ kind.
    required protocol_error item.path >>= λ path. do
      guard
          (is_valid_declaration (record {
            kind = kind;
            path = path;
            required = true;
            media_type = none;
            metadata = item.metadata;
            allow_reserved = allow_reserved;
          }))
          protocol_error
      guard (is_empty allowed || one_of allowed kind || allow_reserved) protocol_error
      key ← key_of (workspace path)
      guard (not (one_of seen key)) protocol_error
      ok (record {
        kind = kind;
        store_key = key;
        media_type = item.media_type;
        metadata = item.metadata;
      })

unfoldable pub normalize_each :
    (String → Resolved)
    → List String
    → Bool
    → List String
    → List Reported
    → Result (List Normalized)
unfolding normalize
normalize_each workspace allowed allow_reserved seen [] = ok []
normalize_each workspace allowed allow_reserved seen (item ∷ items) = do
  n ← normalize workspace allowed allow_reserved seen item
  rest ← normalize_each workspace allowed allow_reserved (n.store_key ∷ seen) items
  ok (n ∷ rest)

-- Whether every kind but the empty one is among the produced ones
unfoldable pub all_produced : List String → List String → Bool
all_produced produced [] = true
all_produced produced (k ∷ ks) = (str_eq k "" || one_of produced k) && all_produced produced ks

unfoldable pub required_kinds : List Rule → List String
required_kinds [] = []
required_kinds (r ∷ rs) =
    let rest = required_kinds rs in if r.required then kind_of r ++ rest else rest

-- validate_artifact_declarations
unfoldable pub validate_declarations :
    (String → Resolved)
    → List Rule
    → List String
    → Bool
    → Bool
    → List Reported
    → Result (List Normalized)
unfolding normalize_each
validate_declarations workspace rules expected require_expected allow_reserved items = do
  normalized ← normalize_each workspace (allowed_kinds rules) allow_reserved [] items
  guard
      (not require_expected
        || all_produced (map (λ (n : Normalized). n.kind) normalized)
            (expected ++ required_kinds rules))
      protocol_error
  ok normalized

-- The declarations of register_artifacts, with the ids that they are given
unfoldable pub named : (ℕ → String) → ℕ → List Normalized → List Declared
named id index [] = []
named id index (n ∷ ns) =
    record {
      artifact_id = id index;
      kind = n.kind;
      store_key = n.store_key;
      media_type = n.media_type;
      metadata = n.metadata;
    }
    ∷ named id (index + 1) ns

-- A metric as it is reported: its own fields, and its context with the three keys that
-- _register_metrics takes out of it apart.
pub record RawMetric : Type 0 where
  pub name : String
  pub value : Value
  pub unit : Option String
  pub source_artifact_id : Option String
  pub parser_id : Option String
  pub parser_version : Option String
  pub source_key : Option String
  pub context_parser_id : Option String
  pub context_parser_version : Option String
  pub context : Metadata

-- `by_store_key.get(key)`: of equal keys the last one
unfoldable pub by_store_key : List Declared → List String → String → Option String
by_store_key (d ∷ ds) (id ∷ ids) key = elim (by_store_key ds ids key) [
  | some later ↦ some later
  | none ↦ if str_eq d.store_key key then some id else none
]
by_store_key _ _ key = none

abbrev pub metric_of : RawMetric → Option String → Metric
metric_of raw source = record {
  name = raw.name;
  value = raw.value;
  unit = raw.unit;
  source_artifact_id = source;
  parser_id = raw.context_parser_id;
  parser_version = raw.context_parser_version;
  context = raw.context;
  schema_version = schema_version;
}

-- One pass of the loop of _register_metrics
unfoldable pub attach : List Declared → List String → RawMetric → Result Metric
attach ds ids raw = elim raw.source_key [
  | none ↦ ok (metric_of raw raw.source_artifact_id)
  | some key ↦
      required untraced_metric (by_store_key ds ids key) >>= λ id. ok (metric_of raw (some id))
]
