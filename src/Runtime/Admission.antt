-- ===== src/Runtime/Admission.antt =====
-- Which tasks a host takes: WorkflowRuntime._check_resources and RuntimeConfig.__post_init__ in
-- core/runtime/src/openroad_platform_runtime/runtime.py.
pub mod Idle
use chip_evolve.Base.{
  ℕ, Bool, true, false, ◌&&◌, ◌||◌, not, Option, none, some, ℤ, pos, negsuc, ltb, is_positive,
  opt_str_eq, if◌then◌else◌,
}
use chip_evolve.Contracts.Task.{TaskSpec}
use chip_evolve.Runtime.Attempts.{budget, is_declared}
use chip_evolve.Runtime.Submit.{label}
use chip_evolve.Runtime.Waiting.{Config, cores_for, memory_for}

-- `a > b`
abbrev pub gt_int : ℤ → ℤ → Bool
gt_int (pos a) (pos b) = ltb b a
gt_int (pos a) (negsuc b) = true
gt_int (negsuc a) (pos b) = false
gt_int (negsuc a) (negsuc b) = ltb a b

-- The tests of __post_init__ on the fields of the model, once the capacities are set.
unfoldable pub is_valid_config : Config → Bool
is_valid_config c =
    ltb 0 c.capacity_cpu_cores
    && ltb 0 c.capacity_memory_bytes
    && is_positive c.default_task_cpu_cores
    && is_positive c.default_task_memory_bytes

-- What _check_resources raises.
pub data Refusal : Type 0 where
  capacity_too_small too_many_cores too_much_memory approval_missing limits_unsupported : Refusal

-- `ceil_fraction` stands for math.ceil(capacity * platform_fraction), in floats, and `limits` for
-- adapter.supports_limits().
module _ (ceil_fraction : ℕ → ℕ) (limits : Bool) (c : Config) where
  -- _check_resources: the error that it raises, if any
  unfoldable pub check_resources : TaskSpec → Option Refusal
  check_resources task =
      let cores = budget ceil_fraction c.capacity_cpu_cores in
      let memory = budget ceil_fraction c.capacity_memory_bytes in
      let wanted = memory_for c task.resources in
      if ltb cores 1 || gt_int c.default_task_memory_bytes (pos memory)
      then some capacity_too_small
      else if gt_int (cores_for c task.resources) (pos cores)
      then some too_many_cores
      else if gt_int wanted (pos memory)
      then some too_much_memory
      else if gt_int wanted c.default_task_memory_bytes
          && not (opt_str_eq (label "memory_approval" task.labels) (some "manual"))
      then some approval_missing
      else if is_declared task.resources && not limits
      then some limits_unsupported
      else none
