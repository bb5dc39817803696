-- ===== src/Custody/Objects.antt =====
-- core/runtime/src/openroad_platform_runtime/store.py: the object store, files named by the digests of
-- their bytes.
use chip_evolve.Base.{
  ℕ, Bool, ◌&&◌, Option, none, some, List, [], ◌∷◌, ◌++◌, ◌==◌, if◌then◌else◌, String, str_eq,
}
use chip_evolve.Contracts.Names.{length}
use chip_evolve.Contracts.Input.{StagedInput}
use chip_evolve.Contracts.Artifact.{Metric}
use chip_evolve.Runtime.State.{Db}
use chip_evolve.Runtime.Result.{
  StoreError, inconsistent_object, source_changed, object_differs, Result, ok, err,
}

abbrev pub Bytes : Type 0
Bytes = List ℕ

-- A file at `object_path(name)`: a name has one path.
pub record Object : Type 0 where
  pub name : String
  pub content : Bytes

-- A row of runtime_inputs.
pub record InputRow : Type 0 where
  pub attempt_id : ℕ
  pub input : StagedInput
  pub created_at : ℕ

-- A row of runtime_metrics.
pub record MetricRow : Type 0 where
  pub metric_id : String
  pub attempt_id : ℕ
  pub metric : Metric
  pub created_at : ℕ

-- The tables of the lifecycle, those of inputs and metrics, and the files below objects_root.
pub record Store : Type 0 where
  pub db : Db
  pub inputs : List InputRow
  pub metrics : List MetricRow
  pub objects : List Object

-- What reading a file three times finds: the bytes that sha256 reads, then the size, and then the
-- bytes that copyfile reads. Another process may write the file in between.
pub record Reading : Type 0 where
  pub hashed : Bytes
  pub size : ℕ
  pub copied : Bytes

-- The bytes of the file of a name, if `is_file()`.
unfoldable pub stored : String → List Object → Option Bytes
stored name [] = none
stored name (o ∷ os) = if str_eq o.name name then some o.content else stored name os

module _ (digest : Bytes → String) where
  unfoldable pub is_intact : Bytes → String → ℕ → Bool
  is_intact content name size = length content == size && str_eq (digest content) name

  -- A new file is written under another name and renamed only once it is intact.
  unfoldable pub publish :
      StoreError → StoreError → Bytes → String → ℕ → List Object → Result (List Object)
  publish broken changed content name size objects = elim (stored name objects) [
    | some existing ↦ if is_intact existing name size then ok objects else err broken
    | none ↦
        if is_intact content name size
        then ok (objects ++ record { name = name; content = content } ∷ [])
        else err changed
  ]

  -- _store_object
  abbrev pub store_object : Reading → String → ℕ → List Object → Result (List Object)
  store_object r name size = publish inconsistent_object source_changed r.copied name size

  -- _store_bytes
  abbrev pub store_bytes : Bytes → String → ℕ → List Object → Result (List Object)
  store_bytes content name size = publish object_differs source_changed content name size
