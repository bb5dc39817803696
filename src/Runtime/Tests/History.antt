-- ===== src/Runtime/Tests/History.antt =====
-- The history of the runtime store, call by call.
use chip_evolve.Runtime.Tests.{
  task, submission, worker, whole, crash, run_row, attempt_row, submitted, claimed_once,
  attempt_failed, run_failed, reopened, claimed_twice, attempt_done, run_done,
}
use chip_evolve.Base.{
  ◌≡◌, refl, none, some, first, update_where, delete_where, some_row, arith, ap, subst, list_eq,
  select,
}
use chip_evolve.Contracts.Status.{
  queued, failed, succeeded, AttemptStatus, attempt_transition_allowed, run_transition_allowed,
  is_terminal,
}
use chip_evolve.Contracts.Resources.{declared}
use chip_evolve.Contracts.Task.{is_valid_task, all_different}
use chip_evolve.Runtime.State.{no_usage, Db, empty}
use chip_evolve.Runtime.Result.{ok}
use chip_evolve.Runtime.Submit.{
  submit_run, submit_body, existing_run, create_run, insert_run, insert_stage, run_clashes,
  stage_clashes, reuse_run, equivalent_task_specs, comparable, by_bytes, caller_labels,
  same_payload, same_labels, includes, label,
}
use chip_evolve.Runtime.Runs.{
  transition_run, transition_body, move_run, move_stages, get_run, insert_event, earliest,
}
use chip_evolve.Runtime.Attempts.{
  start_attempt, budget, start_body, insert_attempt, attempt_clashes, reserve, reserve_within,
  insert_reservation, last_number, reserved_cpu, reserved_memory,
}
use chip_evolve.Runtime.Leases.{finish_attempt, finish_body}
use chip_evolve.Runtime.Retry.{
  request_retry, request_body, latest_attempt, later_attempt, is_blank, requested_by,
}
use chip_evolve.Runtime.Refines.Attempts.{IsBudgeted}
use chip_evolve.Runtime.Calls.{
  Calls, begin, then_call, submitting, claiming, finishing, moving, requesting, Call,
}
use chip_evolve.Contracts.Names.{is_identifier, is_optional_identifier, is_optional_sha256}
use chip_evolve.Contracts.Resources.{is_valid_request}

-- What the calls return, each from the state before.
pub submit_runs :
    submit_run task submission 1 2 10 empty ≡ (ok (run_row queued none none none), submitted)
unfolding submit_run submit_body existing_run create_run insert_run insert_stage run_clashes
    stage_clashes get_run is_valid_task is_identifier is_optional_identifier is_optional_sha256
    all_different is_valid_request first some_row
submit_runs = refl

pub submit_again :
    submit_run task submission 7 8 12 submitted ≡ (ok (run_row queued none none none), submitted)
unfolding submit_run submit_body existing_run reuse_run equivalent_task_specs comparable by_bytes
    caller_labels same_payload list_eq same_labels includes label earliest is_valid_task
    is_identifier is_optional_identifier is_optional_sha256 all_different is_valid_request first
    select
submit_again = refl

pub claim_once :
    start_attempt whole 2 worker 3 20 submitted ≡ (ok (some (attempt_row 3 1 20)), claimed_once)
unfolding start_attempt start_body insert_attempt attempt_clashes reserve reserve_within
    insert_reservation budget declared last_number reserved_cpu reserved_memory first some_row
    update_where
claim_once = refl

fail_attempt :
    finish_attempt 3 AttemptStatus.failed (some crash) no_usage 30 claimed_once
    ≡ (ok tt, attempt_failed)
unfolding finish_attempt finish_body attempt_transition_allowed first update_where delete_where
fail_attempt = refl

fail_run : (transition_run 1 failed (some "tool") 31 attempt_failed).1 ≡ run_failed
unfolding transition_run transition_body move_run move_stages run_transition_allowed is_terminal
    get_run first update_where
fail_run = refl

pub retry_run : request_retry 1 "alice" "again" 4 40 run_failed ≡ (ok tt, reopened)
unfolding request_retry request_body latest_attempt later_attempt is_blank requested_by insert_event
    first some_row update_where
retry_run = refl

claim_again :
    start_attempt whole 2 worker 5 50 reopened ≡ (ok (some (attempt_row 5 2 50)), claimed_twice)
unfolding start_attempt start_body insert_attempt attempt_clashes reserve reserve_within
    insert_reservation budget declared last_number reserved_cpu reserved_memory first some_row
    update_where
claim_again = refl

finish_again :
    finish_attempt 5 AttemptStatus.succeeded none no_usage 60 claimed_twice ≡ (ok tt, attempt_done)
unfolding finish_attempt finish_body attempt_transition_allowed first update_where delete_where
finish_again = refl

finish_run : (transition_run 1 succeeded none 61 attempt_done).1 ≡ run_done
unfolding transition_run transition_body move_run move_stages run_transition_allowed is_terminal
    get_run first update_where
finish_run = refl

-- The calls that lead there.
pub worker-IsBudgeted : IsBudgeted whole 4 2000 worker
unfolding budget
worker-IsBudgeted = record {
  cpu_capacity = λ n e. ground arith;
  memory_capacity = λ n e. ground arith;
}

then_state :
    {a b c : Db}
    → Calls whole 4 2000 a b
    → (b' : Db) → Call whole 4 2000 b b'
    → b' ≡ c
    → Calls whole 4 2000 a c
then_state {a} cs b' call e = subst (λ d. Calls whole 4 2000 a d) e (then_call cs call)

pub to_submitted : Calls whole 4 2000 empty submitted
to_submitted =
    then_state begin (submit_run task submission 1 2 10 empty).1
      (submitting task submission 1 2 10 empty) (ap (λ o. o.1) submit_runs)

pub to_claimed_once : Calls whole 4 2000 empty claimed_once
to_claimed_once =
    then_state to_submitted (start_attempt whole 2 worker 3 20 submitted).1
      (claiming 2 worker 3 20 submitted worker-IsBudgeted) (ap (λ o. o.1) claim_once)

pub to_run_failed : {a : Db} → Calls whole 4 2000 a claimed_once → Calls whole 4 2000 a run_failed
to_run_failed cs =
    then_state
      (then_state cs (finish_attempt 3 AttemptStatus.failed (some crash) no_usage 30 claimed_once).1
        (finishing 3 AttemptStatus.failed (some crash) no_usage 30 claimed_once)
        (ap (λ o. o.1) fail_attempt))
      (transition_run 1 failed (some "tool") 31 attempt_failed).1
      (moving 1 failed (some "tool") 31 attempt_failed) fail_run

pub to_claimed_twice :
    {a : Db} → Calls whole 4 2000 a claimed_once → Calls whole 4 2000 a claimed_twice
to_claimed_twice cs =
    then_state
      (then_state (to_run_failed cs) (request_retry 1 "alice" "again" 4 40 run_failed).1
        (requesting 1 "alice" "again" 4 40 run_failed) (ap (λ o. o.1) retry_run))
      (start_attempt whole 2 worker 5 50 reopened).1
      (claiming 2 worker 5 50 reopened worker-IsBudgeted) (ap (λ o. o.1) claim_again)

pub to_run_done : {a : Db} → Calls whole 4 2000 a claimed_twice → Calls whole 4 2000 a run_done
to_run_done cs =
    then_state
      (then_state cs (finish_attempt 5 AttemptStatus.succeeded none no_usage 60 claimed_twice).1
        (finishing 5 AttemptStatus.succeeded none no_usage 60 claimed_twice)
        (ap (λ o. o.1) finish_again))
      (transition_run 1 succeeded none 61 attempt_done).1 (moving 1 succeeded none 61 attempt_done)
      finish_run
