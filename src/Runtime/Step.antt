-- ===== src/Runtime/Step.antt =====
-- The abstract view of the durable store: what a single change of it may be. The operations of
-- core/runtime/src/openroad_platform_runtime/store.py are sequences of these steps, and the
-- invariants are proved of the steps.
use chip_evolve.Base.{
  ℕ, suc, ◌+◌, ◌≤◌, ◌≡◌, ◌≢◌, ◌⊎◌, Bool, true, false, none, some, List, [], ◌∷◌, ◌++◌, String,
  first, update_where, delete_where, is_some, le_count,
}
use chip_evolve.Contracts.Status.{
  RuntimeStatus, queued, running, retry_wait, failed, contains, run_transition_allowed,
  AttemptStatus,
}
use chip_evolve.Runtime.State.{Run, Stage, Attempt, Reservation, Event, Db}
use chip_evolve.Runtime.Runs.{is_run, is_stage, is_stage_of, move_stages}
use chip_evolve.Runtime.Submit.{has_key}
use chip_evolve.Runtime.Attempts.{
  is_attempt, is_running, held_by, last_number, reserved_cpu, reserved_memory, claimed,
}
use chip_evolve.Runtime.Retry.{wait_stage, wait_run, latest_attempt, is_retryable}

-- What an update of a run leaves alone.
pub record KeepsRun (f : Run → Run) : Type 0 where
  pub run_id : (r : Run) → (f r).run_id ≡ r.run_id
  pub key : (r : Run) → (f r).idempotency_key ≡ r.idempotency_key
  pub task : (r : Run) → (f r).task_spec ≡ r.task_spec

pub keeps_run :
    (f : Run → Run)
    → ((r : Run)
        → ((f r).run_id ≡ r.run_id)
          × ((f r).idempotency_key ≡ r.idempotency_key)
          × ((f r).task_spec ≡ r.task_spec))
    → KeepsRun f
keeps_run f h = record { run_id = λ r. (h r).0; key = λ r. (h r).1; task = λ r. (h r).2 }

-- What an update of an attempt leaves alone.
pub record KeepsAttempt (f : Attempt → Attempt) : Type 0 where
  pub attempt_id : (a : Attempt) → (f a).attempt_id ≡ a.attempt_id
  pub stage_run_id : (a : Attempt) → (f a).stage_run_id ≡ a.stage_run_id
  pub number : (a : Attempt) → (f a).attempt_number ≡ a.attempt_number

-- The reservations after a claim: as before, or with one for the new attempt that fits the budgets.
pub data Grants (cpu memory attempt_id : ℕ) (rows : List Reservation)
    : List Reservation → Type 0 where
  unreserved : Grants cpu memory attempt_id rows rows
  granted :
      (r : Reservation)
      → r.attempt_id ≡ attempt_id
      → reserved_cpu rows + r.cpu_cores ≤ cpu
      → reserved_memory rows + r.memory_bytes ≤ memory
      → Grants cpu memory attempt_id rows (rows ++ r ∷ [])

-- An attempt that a worker holds: it runs under a lease.
pub record IsLeased (a : Attempt) : Type 0 where
  pub running : a.status ≡ AttemptStatus.running
  pub lease : is_some a.lease_expires_at ≡ true

-- An attempt that is over: its status is settled and nobody holds a lease on it.
pub record IsSettled (a : Attempt) : Type 0 where
  pub done : (a.status ≢ AttemptStatus.running) × (a.status ≢ AttemptStatus.pending)
  pub unleased : a.lease_expires_at ≡ none
  pub dated : is_some a.ended_at ≡ true

-- `cpu` and `memory` are the platform's budgets.
pub data Step (cpu memory : ℕ) : Db → Db → Type 0 where
  submit :
      (db : Db) (run : Run) (stage : Stage)
      → first (is_run run.run_id) db.runs ≡ none
      → first (is_stage stage.stage_run_id) db.stages ≡ none
      → stage.run_id ≡ run.run_id
      → run.status ≡ queued
      → stage.status ≡ queued
      → ((key : String) → run.idempotency_key ≡ some key → first (has_key key) db.runs ≡ none)
      → Step cpu memory db
          (record db { runs = db.runs ++ run ∷ []; stages = db.stages ++ stage ∷ [] })
  move :
      (db : Db) (f : Run → Run) (run : Run) (target : RuntimeStatus)
      → first (is_run run.run_id) db.runs ≡ some run
      → run_transition_allowed run.status target ≡ true
      → KeepsRun f
      → ((r : Run) → (f r).status ≡ target)
      → Step cpu memory db (record db {
        runs = update_where (is_run run.run_id) f db.runs;
        stages = move_stages run.run_id target db.stages;
      })
  claim :
      (db : Db) (stage : Stage) (a : Attempt) (rows : List Reservation) (now : ℕ)
      → first (is_stage stage.stage_run_id) db.stages ≡ some stage
      → contains (queued ∷ retry_wait ∷ []) stage.status ≡ true
      → first (is_attempt a.attempt_id) db.attempts ≡ none
      → a.stage_run_id ≡ stage.stage_run_id
      → a.attempt_number ≡ suc (last_number stage.stage_run_id db.attempts)
      → IsLeased a
      → Grants cpu memory a.attempt_id db.reservations rows
      → Step cpu memory db (claimed stage (db.attempts ++ a ∷ []) rows now db)
  renew :
      (db : Db) (p : Attempt → Bool) (f : Attempt → Attempt)
      → ((a : Attempt) → p a ≡ true → is_running a ≡ true)
      → KeepsAttempt f
      → ((a : Attempt) → (f a).status ≡ a.status)
      → ((a : Attempt) → is_some a.lease_expires_at ≡ true → is_some (f a).lease_expires_at ≡ true)
      → Step cpu memory db (record db { attempts = update_where p f db.attempts })
  settle :
      (db : Db) (p : Attempt → Bool) (f : Attempt → Attempt) (attempt_id : ℕ)
      → ((a : Attempt) → p a ≡ true → a.attempt_id ≡ attempt_id)
      → ((a : Attempt)
          → first (is_attempt attempt_id) db.attempts ≡ some a
          → p a ≡ true
          → (a.status ≡ AttemptStatus.running) ⊎ (a.status ≡ AttemptStatus.pending))
      → KeepsAttempt f
      → ((a : Attempt) → IsSettled (f a))
      → Step cpu memory db (record db {
        attempts = update_where p f db.attempts;
        reservations = delete_where (held_by attempt_id) db.reservations;
      })
  retry :
      (db : Db) (run : Run) (stage : Stage) (reason : String)
      → first (is_stage stage.stage_run_id) db.stages ≡ some stage
      → stage.status ≡ running
      → first (is_run run.run_id) db.runs ≡ some run
      → run_transition_allowed run.status retry_wait ≡ true
      → stage.run_id ≡ run.run_id
      → Step cpu memory db (record db {
        stages = update_where (is_stage stage.stage_run_id) wait_stage db.stages;
        runs = update_where (is_run run.run_id) (wait_run reason) db.runs;
      })
  reopen :
      (db : Db) (run : Run) (stage : Stage) (a : Attempt) (reason : String)
      → first (is_run run.run_id) db.runs ≡ some run
      → run.status ≡ failed
      → first (is_stage_of run.run_id) db.stages ≡ some stage
      → latest_attempt stage.stage_run_id db.attempts ≡ some a
      → is_retryable (some a) ≡ true
      → le_count run.task_spec.max_attempts a.attempt_number ≡ false
      → Step cpu memory db (record db {
        runs = update_where (is_run run.run_id) (wait_run reason) db.runs;
        stages = update_where (is_stage stage.stage_run_id) wait_stage db.stages;
      })
  release :
      (db : Db) (attempt_id : ℕ)
      → Step cpu memory db
          (record db { reservations = delete_where (held_by attempt_id) db.reservations })
  log :
      (db : Db) (event : Event)
      → Step cpu memory db (record db { events = db.events ++ event ∷ [] })

pub data Steps (cpu memory : ℕ) : Db → Db → Type 0 where
  here : (db : Db) → Steps cpu memory db db
  next : {a b c : Db} → Step cpu memory a b → Steps cpu memory b c → Steps cpu memory a c

module _ {cpu memory : ℕ} where
  pub Steps-one : {a b : Db} → Step cpu memory a b → Steps cpu memory a b
  Steps-one {b = b} s = next s (here b)

  pub Steps-trans :
      {a b c : Db} → Steps cpu memory a b → Steps cpu memory b c → Steps cpu memory a c
  Steps-trans (here db) t = t
  Steps-trans (next s r) t = next s (Steps-trans r t)

  pub Steps-induction {ℓ} :
      (P : Db → Type ℓ)
      → ((a b : Db) → Step cpu memory a b → P a → P b)
      → {a b : Db} → Steps cpu memory a b
      → P a
      → P b
  Steps-induction P keep (here db) h = h
  Steps-induction P keep (next {a = a} {b = b} s r) h = Steps-induction P keep r (keep a b s h)
