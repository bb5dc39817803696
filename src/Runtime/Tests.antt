-- ===== src/Runtime/Tests.antt =====
-- A history of the runtime store (core/runtime/src/openroad_platform_runtime/store.py): its states.
mod History
mod Guarantees
mod Operations
mod Execution
use chip_evolve.Base.{
  ℕ, ◌≡◌, refl, Bool, true, false, Option, none, some, List, [], ◌∷◌, map, String, ℤ, pos, first,
  update_where, delete_where, some_row,
}
use chip_evolve.Contracts.Status.{
  RuntimeStatus, queued, running, failed, succeeded, AttemptStatus, retry_wait,
  attempt_transition_allowed, run_transition_allowed, is_terminal,
}
use chip_evolve.Contracts.Resources.{ResourceRequest, declared}
use chip_evolve.Contracts.Task.{TaskSpec, is_valid_task}
use chip_evolve.Runtime.State.{
  Run, Stage, Attempt, Failure, no_usage, Db, empty, Reservation, Event,
}
use chip_evolve.Runtime.Result.{Result, ok, err}
use chip_evolve.Runtime.Submit.{
  Submission, submit_run, new_run, submit_body, existing_run, create_run, insert_run, insert_stage,
  run_clashes, stage_clashes,
}
use chip_evolve.Runtime.Runs.{
  transition_run, request_cancel, transition_body, move_run, move_stages, get_run, insert_event,
}
use chip_evolve.Runtime.Attempts.{
  Claim, start_attempt, budget, new_attempt, start_body, insert_attempt, attempt_clashes, reserve,
  reserve_within, insert_reservation, last_number, reserved_cpu, reserved_memory,
}
use chip_evolve.Runtime.Leases.{finish_attempt, ended, finish_body}
use chip_evolve.Runtime.Retry.{
  request_retry, request_body, retry_event, latest_attempt, later_attempt, is_blank, requested_by,
}
use chip_evolve.Runtime.Refines.Attempts.{IsBudgeted}
use chip_evolve.Runtime.Calls.{
  Calls, begin, then_call, submitting, claiming, finishing, moving, requesting, cancelling, IsSound,
}

-- A task that asks for two cores and 1,000 bytes, twice at most.
abbrev pub task : TaskSpec
task = record {
  task_id = "task-1";
  project_id = "project";
  design_id = "design";
  design_revision_id = none;
  experiment_id = none;
  input_manifest_sha256 = none;
  plugin_id = some "yosys";
  plugin_version = some "1.0";
  inputs = "{}";
  parameters = "{}";
  staged_inputs = [];
  resources = some (record {
    cpu_seconds = none;
    cpu_cores = some (pos 2);
    memory_bytes = some (pos 1000);
    processes = none;
  });
  timeout_seconds = pos 60;
  max_attempts = pos 2;
  expected_artifacts = [];
  labels = [];
  schema_version = 3;
}

abbrev pub submission : Submission
submission = record {
  stage_key = "synthesis";
  plugin_version = "1.0";
  idempotent = true;
  idempotency_key = some "key-1";
  resumable = true;
}

-- A worker of a platform with four cores and 2,000 bytes, all of which may be given out.
abbrev pub worker : Claim
worker = record {
  worker_id = "worker-1";
  workspace = "/work/1";
  lease_seconds = pos 30;
  resources = task.resources;
  capacity_cpu_cores = some 4;
  capacity_memory_bytes = some 2000;
}

abbrev pub whole : ℕ → ℕ
whole n = n

abbrev pub crash : Failure
crash = record { category = "tool"; message = "exit 1"; retryable = true }

-- The rows of the history: the run 1 with its stage 2, submitted at time 10, and the attempts 3 and 5.
abbrev pub run_row : RuntimeStatus → Option ℕ → Option ℕ → Option String → Run
run_row status started ended reason = record {
  run_id = 1;
  task_id = "task-1";
  idempotency_key = some "key-1";
  status = status;
  task_spec = task;
  created_at = 10;
  started_at = started;
  ended_at = ended;
  terminal_reason = reason;
}

abbrev pub stage_row : RuntimeStatus → Option ℕ → Stage
stage_row status started = record {
  stage_run_id = 2;
  run_id = 1;
  stage_key = "synthesis";
  ordinal = 0;
  plugin_id = "yosys";
  plugin_version = "1.0";
  status = status;
  created_at = 10;
  started_at = started;
  resumable = true;
}

abbrev pub attempt_row : ℕ → ℕ → ℕ → Attempt
attempt_row id number now = new_attempt worker 2 id number now

abbrev pub first_failed : Attempt
first_failed = ended AttemptStatus.failed (some crash) no_usage 30 (attempt_row 3 1 20)

abbrev pub second_done : Attempt
second_done = ended AttemptStatus.succeeded none no_usage 60 (attempt_row 5 2 50)

abbrev pub held : ℕ → Reservation
held id = record { attempt_id = id; cpu_cores = 2; memory_bytes = 1000 }

abbrev pub store : Run → Stage → List Attempt → List Reservation → List Event → Db
store run stage attempts rows events = record empty {
  runs = run ∷ [];
  stages = stage ∷ [];
  attempts = attempts;
  reservations = rows;
  events = events;
}

abbrev pub submitted : Db
submitted = store (run_row queued none none none) (stage_row queued none) [] [] []

abbrev pub claimed_once : Db
claimed_once =
    store (run_row running (some 20) none none) (stage_row running (some 20))
      (attempt_row 3 1 20 ∷ []) (held 3 ∷ []) []

abbrev pub attempt_failed : Db
attempt_failed =
    store (run_row running (some 20) none none) (stage_row running (some 20)) (first_failed ∷ []) []
      []

abbrev pub run_failed : Db
run_failed =
    store (run_row failed (some 20) (some 31) (some "tool")) (stage_row failed (some 20))
      (first_failed ∷ []) [] []

abbrev pub asked : Event
asked = retry_event 1 "alice" "again" 4 40 (stage_row failed (some 20)) first_failed

abbrev pub reopened : Db
reopened =
    store (run_row retry_wait (some 20) (some 31) (some "retry requested by alice: again"))
      (stage_row retry_wait (some 20)) (first_failed ∷ []) [] (asked ∷ [])

abbrev pub claimed_twice : Db
claimed_twice =
    store (run_row running (some 20) (some 31) (some "retry requested by alice: again"))
      (stage_row running (some 20)) (first_failed ∷ attempt_row 5 2 50 ∷ []) (held 5 ∷ [])
      (asked ∷ [])

abbrev pub attempt_done : Db
attempt_done =
    store (run_row running (some 20) (some 31) (some "retry requested by alice: again"))
      (stage_row running (some 20)) (first_failed ∷ second_done ∷ []) [] (asked ∷ [])

abbrev pub run_done : Db
run_done =
    store (run_row succeeded (some 20) (some 61) (some "retry requested by alice: again"))
      (stage_row succeeded (some 20)) (first_failed ∷ second_done ∷ []) [] (asked ∷ [])
