-- ===== src/Runtime/Tests/Guarantees.antt =====
-- The guarantees of the runtime store at the states of the history.
use chip_evolve.Runtime.Tests.{
  worker, whole, run_row, stage_row, first_failed, held, submitted, claimed_once, claimed_twice,
  run_done,
}
use chip_evolve.Base.{[], ◌∷◌, ◌↔◌, ◌≡◌, ◌≤◌, refl, some, first, none, true}
use mathlib.Core.Option
use chip_evolve.Runtime.Calls.Polling.{runnable_iff}
use chip_evolve.Runtime.Queries.{is_runnable}
use chip_evolve.Contracts.Status.{contains, queued, is_terminal, retry_wait}
use chip_evolve.Contracts.Status.{running, AttemptStatus, succeeded}
use chip_evolve.Runtime.State.{Run, Attempt}
use chip_evolve.Runtime.Runs.{is_run, request_cancel}
use chip_evolve.Runtime.Submit.{has_key}
use chip_evolve.Runtime.Attempts.{
  is_attempt, reserved_cpu, reserved_memory, last_number, start_attempt,
}
use chip_evolve.Runtime.Retry.{attempts_made}
use chip_evolve.Runtime.Step.{Steps}
use chip_evolve.Runtime.Keys.{IsFinal}
use chip_evolve.Runtime.Numbering.{numbers, count_up}
use chip_evolve.Runtime.Calls.{
  begin, then_call, claiming, IsSound, Call-Steps, Calls-IsSound, empty-IsSound, cancelling,
}
use chip_evolve.Runtime.Calls.Guarantees.{
  stage_follows_run, reservations_fit, reservation_of_running, attempts_numbered, key_names_run,
  attempt_kept, final_run_kept,
}
use chip_evolve.Runtime.Tests.History.{
  to_claimed_once, to_claimed_twice, to_run_done, worker-IsBudgeted, to_submitted,
}

succeeded-IsFinal : IsFinal succeeded
unfolding is_terminal
succeeded-IsFinal = record { terminal = refl; not_failed = λ e. cc }

claimed_twice-IsSound : IsSound 4 2000 claimed_twice
claimed_twice-IsSound = Calls-IsSound (to_claimed_twice to_claimed_once) (empty-IsSound 4 2000)

done-IsSound : IsSound 4 2000 run_done
done-IsSound = Calls-IsSound (to_run_done begin) claimed_twice-IsSound

Call-Steps_example : Steps 4 2000 submitted (start_attempt whole 2 worker 3 20 submitted).1
Call-Steps_example =
    Call-Steps submitted (start_attempt whole 2 worker 3 20 submitted).1
      (claiming 2 worker 3 20 submitted worker-IsBudgeted)
      (Calls-IsSound to_submitted (empty-IsSound 4 2000))

stage_follows_run_example :
    (run : Run) × (first (is_run 1) claimed_twice.runs ≡ some run) × (run.status ≡ running)
unfolding first
stage_follows_run_example =
    stage_follows_run (to_claimed_twice to_claimed_once) 2 (stage_row running (some 20)) refl

reservations_fit_example :
    (reserved_cpu claimed_twice.reservations ≤ 4)
    × (reserved_memory claimed_twice.reservations ≤ 2000)
reservations_fit_example = reservations_fit (to_claimed_twice to_claimed_once)

reservation_of_running_example :
    (a : Attempt) × (first (is_attempt 5) claimed_twice.attempts ≡ some a)
    × (a.status ≡ AttemptStatus.running)
unfolding first
reservation_of_running_example =
    reservation_of_running (to_claimed_twice to_claimed_once) 5 (held 5) refl

attempts_numbered_example :
    (numbers 2 run_done.attempts ≡ count_up (attempts_made 2 run_done.attempts))
    × (last_number 2 run_done.attempts ≡ attempts_made 2 run_done.attempts)
attempts_numbered_example = attempts_numbered (to_run_done (to_claimed_twice to_claimed_once)) 2

key_names_run_example :
    Option.map (λ r. r.run_id) (first (has_key "key-1") claimed_once.runs) ≡ some 1
unfolding first
key_names_run_example =
    key_names_run to_claimed_once 1 (run_row running (some 20) none none) "key-1" refl refl

attempt_kept_example : first (is_attempt 3) run_done.attempts ≡ some first_failed
unfolding first
attempt_kept_example =
    attempt_kept (to_run_done begin) claimed_twice-IsSound 3 first_failed refl ((λ e. cc), λ e. cc)

final_run_kept_example :
    first (is_run 1) (request_cancel 1 70 run_done).1.runs
    ≡ some (run_row succeeded (some 20) (some 61) (some "retry requested by alice: again"))
unfolding first
final_run_kept_example =
    final_run_kept {ceil_fraction = whole} (then_call begin (cancelling 1 70 run_done)) done-IsSound
      1 (run_row succeeded (some 20) (some 61) (some "retry requested by alice: again")) refl
      succeeded-IsFinal

runnable_iff_example :
    (is_runnable submitted (run_row queued none none none) ≡ true)
    ↔ (contains (queued ∷ retry_wait ∷ []) queued ≡ true)
unfolding first
runnable_iff_example = runnable_iff to_submitted 1 (run_row queued none none none) refl
