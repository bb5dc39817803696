-- ===== src/Runtime/Attempts.antt =====
-- The attempt lifecycle of RuntimeStore in core/runtime/src/openroad_platform_runtime/store.py:
-- start_attempt, and the resource reservations.
use chip_evolve.Base.{
  ℕ, zero, suc, ◌+◌, ◌-◌, max, Bool, false, ◌&&◌, ◌||◌, not, Option, none, some, List, [], ◌∷◌,
  ◌++◌, String, ◌==◌, ltb, if◌then◌else◌, coalesce, first, update_where, delete_where, some_row, ℤ,
  pos, negsuc, is_positive, plus,
}
use chip_evolve.Contracts.Status.{
  queued, preparing, running, retry_wait, contains, AttemptStatus, same_attempt,
}
use chip_evolve.Contracts.Resources.{ResourceRequest, declared}
use chip_evolve.Runtime.State.{Run, Stage, Attempt, Reservation, no_usage, Db}
use chip_evolve.Runtime.Result.{
  Result, ok, err, unknown_stage, bad_lease, memory_missing, invalid_transition, integrity_error,
  ◌>>=◌, ◌>>◌, guard, required, transaction,
}
use chip_evolve.Runtime.Runs.{is_stage}

abbrev pub is_attempt : ℕ → Attempt → Bool
is_attempt id a = a.attempt_id == id

abbrev pub is_running : Attempt → Bool
is_running a = same_attempt a.status AttemptStatus.running

-- COALESCE(MAX(attempt_number), 0)
unfoldable pub last_number : ℕ → List Attempt → ℕ
last_number stage [] = 0
last_number stage (a ∷ rest) =
    let later = last_number stage rest in
    if a.stage_run_id == stage then max a.attempt_number later else later

unfoldable pub reserved_cpu : List Reservation → ℕ
reserved_cpu [] = 0
reserved_cpu (r ∷ rs) = r.cpu_cores + reserved_cpu rs

unfoldable pub reserved_memory : List Reservation → ℕ
reserved_memory [] = 0
reserved_memory (r ∷ rs) = r.memory_bytes + reserved_memory rs

-- resource_totals
unfoldable pub resource_totals : Db → ℕ × ℕ
resource_totals db = (reserved_cpu db.reservations, reserved_memory db.reservations)

abbrev pub held_by : ℕ → Reservation → Bool
held_by attempt_id r = r.attempt_id == attempt_id

-- release_resources
unfoldable pub release_resources : ℕ → Db → Db
release_resources attempt_id db = record db {
  reservations = delete_where (held_by attempt_id) db.reservations;
}

-- The keys of runtime_attempts: attempt_id, and the attempt's number in its stage.
unfoldable pub attempt_clashes : Attempt → Attempt → Bool
attempt_clashes new old =
    old.attempt_id == new.attempt_id
    || old.stage_run_id == new.stage_run_id && old.attempt_number == new.attempt_number

unfoldable pub insert_attempt : Attempt → List Attempt → Result (List Attempt)
unfolding attempt_clashes
insert_attempt attempt attempts = do
  guard (not (some_row (attempt_clashes attempt) attempts)) integrity_error
  ok (attempts ++ attempt ∷ [])

-- The arguments of start_attempt beside the stage.
pub record Claim : Type 0 where
  pub worker_id : String
  pub workspace : String
  pub lease_seconds : ℤ
  pub resources : Option ResourceRequest
  pub capacity_cpu_cores : Option ℕ
  pub capacity_memory_bytes : Option ℕ

-- `budget < total + wanted`, for a wanted amount that may be negative
abbrev pub exceeds : ℕ → ℕ → ℤ → Bool
exceeds budget total (pos n) = ltb budget (total + n)
exceeds budget total (negsuc n) = ltb budget (total - suc n)

-- `value or default`, for an optional number: zero counts as absent.
abbrev pub number_or : ℤ → Option ℤ → ℤ
number_or d none = d
number_or d (some (pos zero)) = d
number_or d (some z) = z

-- What the reservation step decides: nothing to reserve, no room (ROLLBACK and None), or a row.
pub data Room : Type 0 where
  unbounded : Room
  full : Room
  reserved : Reservation → Room

-- INSERT INTO runtime_resource_reservations, with its key and its two CHECKs.
unfoldable pub insert_reservation : ℕ → ℤ → ℤ → List Reservation → Result Room
insert_reservation attempt_id (pos (suc cpu)) (pos (suc memory)) rows = do
  guard (not (some_row (held_by attempt_id) rows)) integrity_error
  ok (reserved (record { attempt_id = attempt_id; cpu_cores = suc cpu; memory_bytes = suc memory }))
insert_reservation attempt_id _ _ rows = err integrity_error

abbrev pub is_declared : Option ResourceRequest → Bool
is_declared none = false
is_declared (some r) = declared r

-- The row that a claim inserts.
abbrev pub new_attempt : Claim → ℕ → ℕ → ℕ → ℕ → Attempt
new_attempt claim stage_run_id attempt_id number now = record {
  attempt_id = attempt_id;
  stage_run_id = stage_run_id;
  attempt_number = number;
  status = AttemptStatus.running;
  workspace = claim.workspace;
  worker_id = claim.worker_id;
  lease_expires_at = some (plus now claim.lease_seconds);
  heartbeat_at = some now;
  process_id = none;
  process_group_id = none;
  process_start_ticks = none;
  started_at = now;
  ended_at = none;
  failure = none;
  usage = no_usage;
}

-- The two UPDATEs that mark the stage and its run as running.
abbrev pub run_stage : ℕ → Stage → Stage
run_stage now s = record s { status = running; started_at = coalesce s.started_at now }

abbrev pub run_run : ℕ → Run → Run
run_run now r = record r { status = running; started_at = coalesce r.started_at now }

abbrev pub is_claimable_run : ℕ → Run → Bool
is_claimable_run run_id r =
    r.run_id == run_id && contains (queued ∷ preparing ∷ retry_wait ∷ []) r.status

abbrev pub claimed : Stage → List Attempt → List Reservation → ℕ → Db → Db
claimed stage attempts rows now db = record db {
  attempts = attempts;
  reservations = rows;
  stages = update_where (is_stage stage.stage_run_id) (run_stage now) db.stages;
  runs = update_where (is_claimable_run stage.run_id) (run_run now) db.runs;
}

abbrev pub settle_claim : Room → Stage → Attempt → List Attempt → ℕ → Db → Option Attempt × Db
settle_claim full stage attempt attempts now db = (none, db)
settle_claim unbounded stage attempt attempts now db =
    (some attempt, claimed stage attempts db.reservations now db)
settle_claim (reserved row) stage attempt attempts now db =
    (some attempt, claimed stage attempts (db.reservations ++ row ∷ []) now db)

-- The platform's budgets are `max(1, math.ceil(capacity * platform_fraction))`; `ceil_fraction`
-- stands for the float product and its ceiling.
module _ (ceil_fraction : ℕ → ℕ) where
  unfoldable pub budget : ℕ → ℕ
  budget capacity = max 1 (ceil_fraction capacity)

  unfoldable pub reserve_within : ResourceRequest → ℕ → ℕ → ℕ → List Reservation → Result Room
  unfolding insert_reservation
  reserve_within request capacity_cpu capacity_memory attempt_id rows =
      let cpu = number_or (pos 1) request.cpu_cores in
      let memory = number_or (pos 0) request.memory_bytes in
      if not (is_positive memory)
      then err memory_missing
      else if exceeds (budget capacity_cpu) (reserved_cpu rows) cpu
          || exceeds (budget capacity_memory) (reserved_memory rows) memory
      then ok full
      else insert_reservation attempt_id cpu memory rows

  reserve_for : Claim → ResourceRequest → ℕ → List Reservation → Result Room
  reserve_for claim request attempt_id rows = elim claim.capacity_cpu_cores [
    | none ↦ ok unbounded
    | some cpu ↦ elim claim.capacity_memory_bytes [
      | none ↦ ok unbounded
      | some memory ↦ reserve_within request cpu memory attempt_id rows
    ]
  ]

  unfoldable pub reserve : Claim → ℕ → List Reservation → Result Room
  unfolding reserve_for
  reserve claim attempt_id rows = elim claim.resources [
    | none ↦ ok unbounded
    | some request ↦
        if declared request then reserve_for claim request attempt_id rows else ok unbounded
  ]

  unfoldable pub start_body : ℕ → Claim → ℕ → ℕ → Db → Result (Option Attempt × Db)
  start_body stage_run_id claim attempt_id now db = do
    stage ← required unknown_stage (first (is_stage stage_run_id) db.stages)
    guard (contains (queued ∷ retry_wait ∷ []) stage.status) invalid_transition
    let attempt =
        new_attempt claim stage_run_id attempt_id (suc (last_number stage_run_id db.attempts)) now
    attempts ← insert_attempt attempt db.attempts
    room ← reserve claim attempt_id db.reservations
    ok (settle_claim room stage attempt attempts now db)

  unfoldable pub start_attempt : ℕ → Claim → ℕ → ℕ → Db → Result (Option Attempt) × Db
  start_attempt stage_run_id claim attempt_id now db =
      if not (is_positive claim.lease_seconds)
      then (err bad_lease, db)
      else transaction (start_body stage_run_id claim attempt_id now) db
