-- ===== src/Runtime/Waiting.antt =====
-- Why a run waits: RuntimeConfig.reservation_for in
-- core/runtime/src/openroad_platform_runtime/runtime.py, and ResourceQuery.waiting_for in
-- core/runtime/src/openroad_platform_runtime/resource_query.py.
pub mod Room
use chip_evolve.Base.{
  ℕ, Bool, true, false, ◌||◌, not, Option, none, some, List, [], ◌∷◌, ℤ, if◌then◌else◌,
}
use chip_evolve.Contracts.Status.{queued, preparing, retry_wait, contains}
use chip_evolve.Contracts.Resources.{ResourceRequest}
use chip_evolve.Contracts.Task.{TaskSpec}
use chip_evolve.Runtime.State.{Run, Db}
use chip_evolve.Runtime.Result.{Result, ok, err, ◌>>=◌}
use chip_evolve.Runtime.Runs.{get_run}
use chip_evolve.Runtime.Attempts.{reserved_cpu, reserved_memory, exceeds}

-- The fields of RuntimeConfig that bear on resources.
pub record Config : Type 0 where
  pub default_task_cpu_cores : ℤ
  pub default_task_memory_bytes : ℤ
  pub capacity_cpu_cores : ℕ
  pub capacity_memory_bytes : ℕ

abbrev pub or_default : Option ℤ → ℤ → ℤ
or_default none d = d
or_default (some z) d = z

abbrev pub cores_for : Config → Option ResourceRequest → ℤ
cores_for c none = c.default_task_cpu_cores
cores_for c (some r) = or_default r.cpu_cores c.default_task_cpu_cores

abbrev pub memory_for : Config → Option ResourceRequest → ℤ
memory_for c none = c.default_task_memory_bytes
memory_for c (some r) = or_default r.memory_bytes c.default_task_memory_bytes

-- reservation_for
abbrev pub reservation_for : Config → TaskSpec → ResourceRequest
reservation_for c task = record {
  cpu_seconds = elim task.resources [ none ↦ none | some r ↦ r.cpu_seconds ];
  cpu_cores = some (cores_for c task.resources);
  memory_bytes = some (memory_for c task.resources);
  processes = elim task.resources [ none ↦ none | some r ↦ r.processes ];
}

-- The answers of waiting_for: None, the shortfall of resources, or room.
pub data Waiting : Type 0 where
  has_started short claimable : Waiting

-- `floor_fraction` stands for int(capacity * platform_fraction), in floats. The tests
-- `need > budget - have` are written as `budget < have + need`.
module _ (floor_fraction : ℕ → ℕ) (c : Config) where
  unfoldable pub is_short : Db → TaskSpec → Bool
  is_short db task =
      exceeds (floor_fraction c.capacity_cpu_cores) (reserved_cpu db.reservations)
        (cores_for c task.resources)
      || exceeds (floor_fraction c.capacity_memory_bytes) (reserved_memory db.reservations)
          (memory_for c task.resources)

  -- waiting_for
  unfoldable pub waiting_for : ℕ → Db → Result Waiting
  waiting_for run_id db = get_run run_id db >>= λ run.
      if not (contains (queued ∷ preparing ∷ retry_wait ∷ []) run.status)
      then ok has_started
      else if is_short db run.task_spec
      then ok short
      else ok claimable
