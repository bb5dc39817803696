-- ===== src/Runtime/State.antt =====
-- core/runtime/src/openroad_platform_runtime/store.py: the tables of the durable state that the run
-- and attempt lifecycle reads and writes, and the errors that its operations raise.
use chip_evolve.Base.{ℕ, Bool, Option, none, String, List, [], ℤ}
use chip_evolve.Contracts.Status.{RuntimeStatus, AttemptStatus}
use chip_evolve.Contracts.Task.{TaskSpec}
use chip_evolve.Contracts.Artifact.{Metadata}

-- A row of runtime_runs. Times are the positions of timestamps in time: the code writes ISO texts in
-- UTC, whose order is the order of time.
pub record Run : Type 0 where
  pub run_id : ℕ
  pub task_id : String
  pub idempotency_key : Option String
  pub status : RuntimeStatus
  pub task_spec : TaskSpec
  pub created_at : ℕ
  pub started_at : Option ℕ
  pub ended_at : Option ℕ
  pub terminal_reason : Option String

-- A row of runtime_stage_runs.
pub record Stage : Type 0 where
  pub stage_run_id : ℕ
  pub run_id : ℕ
  pub stage_key : String
  pub ordinal : ℕ
  pub plugin_id : String
  pub plugin_version : String
  pub status : RuntimeStatus
  pub created_at : ℕ
  pub started_at : Option ℕ
  pub resumable : Bool

-- The object in failure_json, in the fields that the platform reads.
pub record Failure : Type 0 where
  pub category : String
  pub message : String
  pub retryable : Bool

-- What the guardian measured of an attempt's process tree. The store passes it on: the number of
-- CPU seconds stands for the float that is stored.
pub record Usage : Type 0 where
  pub exit_code : Option ℤ
  pub cpu_seconds : Option ℕ
  pub peak_memory_bytes : Option ℕ
  pub peak_processes : Option ℕ

abbrev pub no_usage : Usage
no_usage = record {
  exit_code = none;
  cpu_seconds = none;
  peak_memory_bytes = none;
  peak_processes = none;
}

-- A row of runtime_attempts.
pub record Attempt : Type 0 where
  pub attempt_id : ℕ
  pub stage_run_id : ℕ
  pub attempt_number : ℕ
  pub status : AttemptStatus
  pub workspace : String
  pub worker_id : String
  pub lease_expires_at : Option ℕ
  pub heartbeat_at : Option ℕ
  pub process_id : Option ℕ
  pub process_group_id : Option ℕ
  pub process_start_ticks : Option ℕ
  pub started_at : ℕ
  pub ended_at : Option ℕ
  pub failure : Option Failure
  pub usage : Usage

-- A row of runtime_resource_reservations.
pub record Reservation : Type 0 where
  pub attempt_id : ℕ
  pub cpu_cores : ℕ
  pub memory_bytes : ℕ

-- The payloads that the store itself writes; `other` is one that a caller of record_event gives.
pub data Payload : Type 0 where
  preflight : String → String → Payload
  retry_reason : String → Payload
  other : String → Payload

-- A row of runtime_events.
pub record Event : Type 0 where
  pub event_id : ℕ
  pub run_id : ℕ
  pub stage_run_id : Option ℕ
  pub attempt_id : Option ℕ
  pub event_type : String
  pub producer : String
  pub payload : Payload
  pub occurred_at : ℕ

-- A row of runtime_uploaded_inputs.
pub record UploadedInput : Type 0 where
  pub input_id : String
  pub size_bytes : ℕ
  pub sha256 : String
  pub created_at : ℕ

-- A row of runtime_artifacts.
pub record ArtifactRow : Type 0 where
  pub artifact_id : String
  pub attempt_id : ℕ
  pub kind : String
  pub store_key : String
  pub size_bytes : ℕ
  pub sha256 : String
  pub metadata : Metadata
  pub created_at : ℕ
  pub storage : String

pub record Db : Type 0 where
  pub runs : List Run
  pub stages : List Stage
  pub attempts : List Attempt
  pub reservations : List Reservation
  pub events : List Event
  pub uploaded_inputs : List UploadedInput
  pub artifacts : List ArtifactRow

-- The state root that `_initialise` creates.
abbrev pub empty : Db
empty = record {
  runs = [];
  stages = [];
  attempts = [];
  reservations = [];
  events = [];
  uploaded_inputs = [];
  artifacts = [];
}
