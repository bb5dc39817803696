-- ===== src/Runtime/Execution.antt =====
-- core/runtime/src/openroad_platform_runtime/runtime.py: how an attempt ends, in _run_attempt after the
-- adapter has run and in _record_runtime_failure, between the calls of other processes.
pub mod Landing
pub mod Endings
pub mod Settled
use chip_evolve.Base.{
  ℕ, Bool, true, false, ◌&&◌, not, Option, none, some, String, str_eq, if◌then◌else◌, ℤ, pos,
  le_count,
}
use Prim.Native.String.{◌++◌ as str_append}
use chip_evolve.Contracts.Status.{
  RuntimeStatus, succeeded, failed, running, AttemptStatus, same, value,
}
use chip_evolve.Runtime.State.{Run, Attempt, Failure, Usage, Db}
use chip_evolve.Runtime.Result.{StoreError, Result, ok, err, is_invalid_transition}
use chip_evolve.Runtime.Runs.{get_run, transition_run}
use chip_evolve.Runtime.Leases.{finish_attempt}
use chip_evolve.Runtime.Retry.{schedule_retry}

-- What the adapter's execution came to: the status and the failure of its result, and the exit code with
-- what was measured. An empty failure is none, and one without a category has the empty one.
pub record Execution : Type 0 where
  pub status : RuntimeStatus
  pub failure : Option Failure
  pub usage : Usage

-- _attempt_status
abbrev pub attempt_status : RuntimeStatus → AttemptStatus
attempt_status succeeded = AttemptStatus.succeeded
attempt_status _ = AttemptStatus.failed

-- _terminal_reason
abbrev pub terminal_reason : RuntimeStatus → Option Failure → Option String
terminal_reason status none = none
terminal_reason status (some f) = some (if str_eq f.category "" then value status else f.category)

abbrev pub reason_text : Option String → String
reason_text none = "None"
reason_text (some reason) = reason

abbrev wants_retry : Option Failure → Bool
wants_retry none = false
wants_retry (some f) = f.retryable

-- _should_retry
unfoldable pub should_retry : Run → Attempt → Execution → Bool
should_retry run attempt x =
    same x.status failed
    && wants_retry x.failure
    && not (le_count run.task_spec.max_attempts attempt.attempt_number)

-- A call, and after what other processes do, the next one.
abbrev pub then_call :
    (Db → Db) → Result (Unit {0}) × Db → (Db → Result (Unit {0}) × Db) → Result (Unit {0}) × Db
then_call others (err e, db) next = (err e, db)
then_call others (ok u, db) next = next (others db)

-- `except InvalidTransition: pass`
abbrev pub unless_invalid : Result (Unit {0}) × Db → Result (Unit {0}) × Db
unless_invalid (ok u, db) = (ok u, db)
unless_invalid (err e, db) = if is_invalid_transition e then (ok tt, db) else (err e, db)

-- f"retrying: {_terminal_reason(execution.result)}"
abbrev pub retry_text : Execution → String
retry_text x = str_append "retrying: " (reason_text (terminal_reason x.status x.failure))

-- The run's next status: another attempt, or the end
unfoldable pub conclude : Execution → Run → Attempt → ℕ → ℕ → Db → Result (Unit {0}) × Db
unfolding should_retry
conclude x run attempt stage_run_id now db =
    if should_retry run attempt x
    then schedule_retry run.run_id stage_run_id (retry_text x) db
    else transition_run run.run_id x.status (terminal_reason x.status x.failure) now db

abbrev pub runtime_error : String → Failure
runtime_error message = record { category = "runtime_error"; message = message; retryable = false }

abbrev pub exit_one : Usage
exit_one = record {
  exit_code = some (pos 1);
  cpu_seconds = none;
  peak_memory_bytes = none;
  peak_processes = none;
}

-- `others i` is what other processes do in the i-th gap between two calls.
module _ (others : ℕ → Db → Db) where
  -- The end of _run_attempt, from finish_attempt on
  unfoldable pub settle : Execution → Run → Attempt → ℕ → ℕ → Db → Result (Unit {0}) × Db
  unfolding conclude
  settle x run attempt stage_run_id now db =
      then_call (others 0)
        (finish_attempt attempt.attempt_id (attempt_status x.status) x.failure x.usage now db)
        (conclude x run attempt stage_run_id now)

  -- `current = get_run(…)`, and the transition if the run still runs
  unfoldable pub fail_running : ℕ → ℕ → Db → Result (Unit {0}) × Db
  unfolding get_run
  fail_running run_id now db = elim (get_run run_id db) [
    | err e ↦ (err e, db)
    | ok current ↦
        if same current.status running
        then unless_invalid (transition_run run_id failed (some "runtime_error") now (others 2 db))
        else (ok tt, db)
  ]

  -- _record_runtime_failure, whose registration of evidence writes artifacts only
  unfoldable pub record_failure : String → Run → Attempt → ℕ → Db → Result (Unit {0}) × Db
  unfolding fail_running
  record_failure message run attempt now db =
      then_call (others 1)
        (unless_invalid (
          finish_attempt attempt.attempt_id AttemptStatus.failed (some (runtime_error message))
            exit_one now db))
        (fail_running run.run_id now)

  -- `except Exception` around _run_attempt. `message` is the text of an exception.
  abbrev pub or_failure :
      (StoreError → String) → Run → Attempt → ℕ → Result (Unit {0}) × Db → Result (Unit {0}) × Db
  or_failure message run attempt now (ok u, db) = (ok u, db)
  or_failure message run attempt now (err e, db) =
      record_failure (message e) run attempt now (others 3 db)

  -- An attempt from the point where the adapter has run and its files are registered, or where something
  -- on the way to there raised
  unfoldable pub finish_execution :
      (StoreError → String) → Result Execution → Run → Attempt → ℕ → ℕ → Db → Result (Unit {0}) × Db
  unfolding settle record_failure
  finish_execution message (err e) run attempt stage_run_id now db =
      record_failure (message e) run attempt now db
  finish_execution message (ok x) run attempt stage_run_id now db =
      or_failure message run attempt now (settle x run attempt stage_run_id now db)
