-- ===== src/Runtime/Waiting/Room.antt =====
-- What ResourceQuery (core/runtime/src/openroad_platform_runtime/resource_query.py) says of a waiting run
-- against what a claim does with it.
use chip_evolve.Base.{
  ℕ, zero, suc, ◌≤◌, ◌≡◌, ◌≢◌, refl, sym, ◌∙◌, Bool, true, false, not, ◌||◌, some, List, ℤ, pos,
  negsuc, is_positive, arith, first, if◌then◌else◌,
}
use chip_evolve.Contracts.Task.{TaskSpec}
use chip_evolve.Runtime.State.{Run, Reservation, Db}
use chip_evolve.Runtime.Result.{Result, ok, err, StoreError, memory_missing}
use chip_evolve.Runtime.Runs.{is_run, get_run}
use chip_evolve.Runtime.Attempts.{
  reserved_cpu, reserved_memory, exceeds, number_or, budget, Room, full, insert_reservation,
  reserve_within,
}
use chip_evolve.Runtime.Waiting.{
  Config, cores_for, memory_for, reservation_for, claimable, is_short, waiting_for,
}

exceeds_mono :
    (small large total : ℕ) (wanted : ℤ)
    → small ≤ large
    → exceeds small total wanted ≡ false
    → exceeds large total wanted ≡ false
exceeds_mono small large total (pos n) le h = ground arith
exceeds_mono small large total (negsuc n) le h = ground arith

insert-not_full :
    (id : ℕ) (cpu memory : ℤ) (rows : List Reservation)
    → insert_reservation id cpu memory rows ≢ ok full
unfolding insert_reservation
insert-not_full id (pos (suc c)) (pos (suc m)) rows h = absurd (ground arith)
insert-not_full id (pos zero) m rows h = absurd cc
insert-not_full id (negsuc c) m rows h = absurd cc
insert-not_full id (pos (suc c)) (pos zero) rows h = absurd cc
insert-not_full id (pos (suc c)) (negsuc m) rows h = absurd cc

-- The tests of the reservation step, where all of them pass.
pub all_pass :
    (is_pos over_cpu over_memory : Bool) (e : StoreError) (inserted : Result Room)
    → is_pos ≡ true
    → over_cpu ≡ false
    → over_memory ≡ false
    → (if not is_pos then err e else if over_cpu || over_memory then ok full else inserted)
      ≡ inserted
all_pass is_pos over_cpu over_memory e inserted p c m = rw (p, c, m) refl

positive_or : (d z : ℤ) → is_positive z ≡ true → number_or d (some z) ≡ z
positive_or d (pos zero) h = absurd (ground arith)
positive_or d (pos (suc n)) h = refl
positive_or d (negsuc n) h = refl

module _ (floor_fraction ceil_fraction : ℕ → ℕ)
    (rounds : (n : ℕ) → floor_fraction n ≤ ceil_fraction n) (c : Config) where
  floor_budget : (capacity : ℕ) → floor_fraction capacity ≤ budget ceil_fraction capacity
  unfolding budget
  floor_budget capacity = let le = rounds capacity in omega arith

  fits_within :
      (db : Db) (task : TaskSpec) (attempt_id : ℕ)
      → is_positive (cores_for c task.resources) ≡ true
      → is_positive (memory_for c task.resources) ≡ true
      → is_short floor_fraction c db task ≡ false
      → reserve_within ceil_fraction
          (reservation_for c task)
          c.capacity_cpu_cores
          c.capacity_memory_bytes
          attempt_id
          db.reservations
        ≢ ok full
  unfolding reserve_within is_short
  fits_within db task id cores memory room h =
      let cpu = number_or (pos 1) (some (cores_for c task.resources)) in
      let bytes = number_or (pos 0) (some (memory_for c task.resources)) in
      let cpu_asked : cpu ≡ cores_for c task.resources =
        positive_or (pos 1) (cores_for c task.resources) cores in
      let bytes_asked : bytes ≡ memory_for c task.resources =
        positive_or (pos 0) (memory_for c task.resources) memory in
      let some_bytes : is_positive bytes ≡ true = rw bytes_asked memory in
      let cpu_fits : exceeds (budget ceil_fraction c.capacity_cpu_cores)
            (reserved_cpu db.reservations) cpu
          ≡ false =
        rw cpu_asked (
          exceeds_mono (floor_fraction c.capacity_cpu_cores)
            (budget ceil_fraction c.capacity_cpu_cores) (reserved_cpu db.reservations)
            (cores_for c task.resources) (floor_budget c.capacity_cpu_cores) (ground arith)) in
      let bytes_fit : exceeds (budget ceil_fraction c.capacity_memory_bytes)
            (reserved_memory db.reservations) bytes
          ≡ false =
        rw bytes_asked (
          exceeds_mono (floor_fraction c.capacity_memory_bytes)
            (budget ceil_fraction c.capacity_memory_bytes) (reserved_memory db.reservations)
            (memory_for c task.resources) (floor_budget c.capacity_memory_bytes) (ground arith)) in
      insert-not_full id cpu bytes db.reservations (
        sym (
          all_pass (is_positive bytes)
            (exceeds (budget ceil_fraction c.capacity_cpu_cores) (reserved_cpu db.reservations) cpu)
            (exceeds (budget ceil_fraction c.capacity_memory_bytes)
              (reserved_memory db.reservations) bytes)
            memory_missing (insert_reservation id cpu bytes db.reservations) some_bytes cpu_fits
            bytes_fit)
        ∙ h)

  -- A run of which the query says that the machine has room is not turned away for want of room by a
  -- claim in the same state, where its reservation asks for a positive number of cores and bytes and
  -- the query rounds the fraction of a capacity to at most what the claim rounds it to.
  pub claimable_has_room :
      (run_id : ℕ) (run : Run) (attempt_id : ℕ) (db : Db)
      → first (is_run run_id) db.runs ≡ some run
      → waiting_for floor_fraction c run_id db ≡ ok claimable
      → is_positive (cores_for c run.task_spec.resources) ≡ true
      → is_positive (memory_for c run.task_spec.resources) ≡ true
      → reserve_within ceil_fraction
          (reservation_for c run.task_spec)
          c.capacity_cpu_cores
          c.capacity_memory_bytes
          attempt_id
          db.reservations
        ≢ ok full
  unfolding waiting_for get_run
  claimable_has_room run_id run id db found told cores memory =
      fits_within db run.task_spec id cores memory (ground arith)
