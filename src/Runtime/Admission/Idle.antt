-- ===== src/Runtime/Admission/Idle.antt =====
-- What WorkflowRuntime._check_resources (core/runtime/src/openroad_platform_runtime/runtime.py) admits, on an
-- idle host.
use chip_evolve.Base.{
  ℕ, zero, suc, ◌≡◌, refl, Bool, true, false, Option, none, some, [], ℤ, pos, negsuc, is_positive,
  arith, some_row,
}
use chip_evolve.Contracts.Resources.{ResourceRequest, is_valid_request, absent_or_positive}
use chip_evolve.Contracts.Task.{TaskSpec, is_valid_task, valid_resources}
use chip_evolve.Runtime.State.{Reservation}
use chip_evolve.Runtime.Result.{ok, memory_missing}
use chip_evolve.Runtime.Waiting.Room.{all_pass}
use chip_evolve.Runtime.Attempts.{
  reserved_cpu, reserved_memory, exceeds, budget, reserved, insert_reservation, reserve_within,
}
use chip_evolve.Runtime.Waiting.{Config, cores_for, memory_for, or_default, reservation_for}
use chip_evolve.Runtime.Admission.{gt_int, is_valid_config, check_resources}

or_default-positive :
    (o : Option ℤ) (d : ℤ)
    → absent_or_positive o ≡ true
    → is_positive d ≡ true
    → is_positive (or_default o d) ≡ true
unfolding absent_or_positive
or_default-positive none d given fallback = fallback
or_default-positive (some z) d given fallback = given

cores-positive :
    (c : Config) (o : Option ResourceRequest)
    → is_valid_config c ≡ true
    → valid_resources o ≡ true
    → is_positive (cores_for c o) ≡ true
unfolding is_valid_config valid_resources is_valid_request
cores-positive c none good valid = ground arith
cores-positive c (some r) good valid =
    or_default-positive r.cpu_cores c.default_task_cpu_cores (ground arith) (ground arith)

memory-positive :
    (c : Config) (o : Option ResourceRequest)
    → is_valid_config c ≡ true
    → valid_resources o ≡ true
    → is_positive (memory_for c o) ≡ true
unfolding is_valid_config valid_resources is_valid_request
memory-positive c none good valid = ground arith
memory-positive c (some r) good valid =
    or_default-positive r.memory_bytes c.default_task_memory_bytes (ground arith) (ground arith)

exceeds_empty : (b n : ℕ) → gt_int (pos n) (pos b) ≡ false → exceeds b 0 (pos n) ≡ false
exceeds_empty b n h = ground arith

module _ (ceil_fraction : ℕ → ℕ) where
  -- The reservation of positive amounts within the budgets, on a host that holds none.
  fits_idle :
      (r : ResourceRequest) (capacity_cpu capacity_memory attempt_id : ℕ) (cpu memory : ℤ)
      → r.cpu_cores ≡ some cpu
      → r.memory_bytes ≡ some memory
      → is_positive cpu ≡ true
      → is_positive memory ≡ true
      → gt_int cpu (pos (budget ceil_fraction capacity_cpu)) ≡ false
      → gt_int memory (pos (budget ceil_fraction capacity_memory)) ≡ false
      → (row : Reservation) × (reserve_within ceil_fraction r capacity_cpu capacity_memory
            attempt_id []
          ≡ ok (reserved row))
        × (pos row.cpu_cores ≡ cpu)
        × (pos row.memory_bytes ≡ memory)
  unfolding reserve_within insert_reservation reserved_cpu reserved_memory some_row
  fits_idle r ccpu cmem id (pos (suc n)) (pos (suc m)) asked bytes p q fits fits_bytes = (
    record { attempt_id = id; cpu_cores = suc n; memory_bytes = suc m },
    rw (asked, bytes)
        (all_pass (is_positive (pos (suc m))) (exceeds (budget ceil_fraction ccpu) 0 (pos (suc n)))
          (exceeds (budget ceil_fraction cmem) 0 (pos (suc m))) memory_missing
          (ok (reserved (record { attempt_id = id; cpu_cores = suc n; memory_bytes = suc m }))) refl
          (exceeds_empty (budget ceil_fraction ccpu) (suc n) fits)
          (exceeds_empty (budget ceil_fraction cmem) (suc m) fits_bytes)),
    refl,
    refl,
  )
  fits_idle r ccpu cmem id (pos zero) m asked bytes p q fits fits_bytes = absurd (ground arith)
  fits_idle r ccpu cmem id (negsuc n) m asked bytes p q fits fits_bytes = absurd (ground arith)
  fits_idle r ccpu cmem id (pos (suc n)) (pos zero) asked bytes p q fits fits_bytes =
      absurd (ground arith)
  fits_idle r ccpu cmem id (pos (suc n)) (negsuc m) asked bytes p q fits fits_bytes =
      absurd (ground arith)

  module _ (limits : Bool) (c : Config) where
    -- On a host with a valid configuration, a valid task that _check_resources lets pass never waits for
    -- resources that the host does not have: a claim on the host without reservations reserves the
    -- cores and the bytes that the task asks for, or the defaults.
    pub admitted_reserves :
        (task : TaskSpec) (attempt_id : ℕ)
        → is_valid_config c ≡ true
        → is_valid_task task ≡ true
        → check_resources ceil_fraction limits c task ≡ none
        → (row : Reservation) × (reserve_within ceil_fraction
              (reservation_for c task)
              c.capacity_cpu_cores
              c.capacity_memory_bytes
              attempt_id
              []
            ≡ ok (reserved row))
          × (pos row.cpu_cores ≡ cores_for c task.resources)
          × (pos row.memory_bytes ≡ memory_for c task.resources)
    unfolding is_valid_task check_resources
    admitted_reserves task id good valid passed =
        let request : valid_resources task.resources ≡ true = ground arith in
        fits_idle (reservation_for c task) c.capacity_cpu_cores c.capacity_memory_bytes id
          (cores_for c task.resources) (memory_for c task.resources) refl refl
          (cores-positive c task.resources good request)
          (memory-positive c task.resources good request) (ground arith) (ground arith)
