-- ===== src/Runtime/Tests/Execution.antt =====
-- The end of an execution (runtime.py) at the states of the history.
use chip_evolve.Base.{true, ap, ◌≡◌, refl, none, some, [], ◌∷◌, first, update_where, delete_where}
use chip_evolve.Contracts.Status.{
  contains, timed_out, cancelled, running, succeeded, failed, cancel_requested, AttemptStatus,
  attempt_transition_allowed, run_transition_allowed,
}
use chip_evolve.Runtime.Tests.{whole, run_row, stage_row, attempt_row, held, store, claimed_once}
use chip_evolve.Runtime.Tests.History.{to_claimed_once}
use chip_evolve.Runtime.State.{Run, no_usage}
use chip_evolve.Runtime.Result.{ok_inj, Result, ok}
use chip_evolve.Runtime.Runs.{transition_run, transition_body, get_run}
use chip_evolve.Runtime.Attempts.{is_attempt}
use chip_evolve.Runtime.Leases.{finish_attempt, finish_body, ended}
use chip_evolve.Runtime.Calls.{begin, Calls-IsSound, empty-IsSound}
use chip_evolve.Runtime.Execution.{
  Execution, finish_execution, settle, conclude, should_retry, record_failure, fail_running,
}
use chip_evolve.Runtime.Execution.Settled.{execution_stops}
use chip_evolve.Runtime.Execution.Endings.{IsDone}

abbrev success : Execution
success = record { status = succeeded; failure = none; usage = no_usage }

abbrev running_row : Run
running_row = run_row running (some 20) none none

first_is_there : first (is_attempt 3) claimed_once.attempts ≡ some (attempt_row 3 1 20)
unfolding first
first_is_there = refl

success_is_valid :
    (x : Execution)
    → ◌≡◌ {A = Result Execution} (ok success) (ok x)
    → contains (succeeded ∷ failed ∷ cancelled ∷ timed_out ∷ []) x.status ≡ true
success_is_valid x h =
    let same_status : succeeded ≡ x.status = ap (λ (y : Execution). y.status) (ok_inj h) in
    rw (← same_status) refl

-- A success that comes after a request to cancel: the attempt succeeded, and the run waits for its
-- cancellation as if no attempt had been made.
late_success :
    (finish_execution
      (λ i db. db)
      (λ e. "raised")
      (ok success)
      running_row
      (attempt_row 3 1 20)
      2
      30
      (store
        (run_row cancel_requested (some 20) none none)
        (stage_row cancel_requested (some 20))
        (attempt_row 3 1 20 ∷ [])
        (held 3 ∷ [])
        []))
    ≡ (
      ok tt,
      store
          (run_row cancel_requested (some 20) none none)
          (stage_row cancel_requested (some 20))
          (ended AttemptStatus.succeeded none no_usage 30 (attempt_row 3 1 20) ∷ [])
          []
          [],
    )
unfolding finish_execution settle conclude should_retry record_failure fail_running finish_attempt
    finish_body transition_run transition_body get_run first update_where delete_where
    attempt_transition_allowed run_transition_allowed
late_success = refl

execution_stops_example : IsDone 3 1 (
    finish_execution
      (λ i db. db)
      (λ e. "raised")
      (ok success)
      running_row
      (attempt_row 3 1 20)
      2
      30
      claimed_once)
execution_stops_example =
    execution_stops whole 4 2000 (λ i db. db) (λ i db. begin) (λ e. "raised") (ok success)
      running_row (attempt_row 3 1 20) (attempt_row 3 1 20) 2 30 claimed_once
      (Calls-IsSound to_claimed_once (empty-IsSound 4 2000)) first_is_there success_is_valid
