-- ===== src/Runtime/Calls.antt =====
-- What callers of RuntimeStore (core/runtime/src/openroad_platform_runtime/store.py) can do, in any
-- order, and what holds of every state that they can reach.
pub mod Guarantees
pub mod Polling
pub mod Claims
pub mod Retries
pub mod Submissions
pub mod Fencing
use chip_evolve.Base.{
  ℕ, zero, ◌≤◌, ◌≡◌, refl, Bool, Option, none, some, List, [], String, All, ℤ, arith,
}
use chip_evolve.Contracts.Status.{RuntimeStatus, AttemptStatus}
use chip_evolve.Contracts.Task.{TaskSpec}
use chip_evolve.Runtime.State.{Attempt, Failure, Usage, Event, Db, empty}
use chip_evolve.Runtime.Runs.{transition_run, request_cancel, fail_queued_run, record_event}
use chip_evolve.Runtime.Submit.{Submission, submit_run}
use chip_evolve.Runtime.Attempts.{
  Claim, start_attempt, release_resources, reserved_cpu, reserved_memory,
}
use chip_evolve.Runtime.Leases.{heartbeat, attach_process, finish_attempt}
use chip_evolve.Runtime.Retry.{schedule_retry, request_retry, may_resume, attempts_made}
use chip_evolve.Runtime.Reclaim.{reclaim_expired_attempts}
use chip_evolve.Runtime.Step.{Step, Steps, Steps-induction}
use chip_evolve.Runtime.Sync.{IsInSync}
use chip_evolve.Runtime.Sync.Preserved.{Step-IsInSync}
use chip_evolve.Runtime.Budget.{IsWithin, AllHeld, Step-IsWithin, Step-AllHeld}
use chip_evolve.Runtime.Evidence.{IsAccounted, Step-IsAccounted}
use chip_evolve.Runtime.Numbering.{IsNumbered, numbers, count_up, Step-IsNumbered}
use chip_evolve.Runtime.Keys.{KeysAreOwned, Step-KeysAreOwned}
use chip_evolve.Runtime.Lifecycle.{RunsAreStaged, Step-RunsAreStaged}
use chip_evolve.Runtime.Refines.Runs.{
  transition_run-Steps, request_cancel-Steps, fail_queued_run-Steps, record_event-Steps,
}
use chip_evolve.Runtime.Refines.Submit.{submit_run-Steps}
use chip_evolve.Runtime.Refines.Attempts.{IsBudgeted, start_attempt-Steps}
use chip_evolve.Runtime.Refines.Leases.{
  heartbeat-Steps, attach_process-Steps, finish_attempt-Steps, release_resources-Steps,
}
use chip_evolve.Runtime.Refines.Retry.{Belongs, schedule_retry-Steps, request_retry-Steps}
use chip_evolve.Runtime.Refines.Reclaim.{may_resume-Steps, reclaim-Steps}

-- One call of an operation that writes, with any arguments. Two calls carry a condition: a claim
-- states capacities within the platform's, and a retry names a stage of its run.
pub data Call (ceil_fraction : ℕ → ℕ) (cpu memory : ℕ) : Db → Db → Type 0 where
  submitting :
      (task : TaskSpec) (sub : Submission) (run_id stage_run_id now : ℕ) (db : Db)
      → Call ceil_fraction cpu memory db (submit_run task sub run_id stage_run_id now db).1
  moving :
      (run_id : ℕ) (target : RuntimeStatus) (reason : Option String) (now : ℕ) (db : Db)
      → Call ceil_fraction cpu memory db (transition_run run_id target reason now db).1
  cancelling :
      (run_id now : ℕ) (db : Db) → Call ceil_fraction cpu memory db (request_cancel run_id now db).1
  failing :
      (run_id : ℕ) (category message : String) (event_id now : ℕ) (db : Db)
      → Call ceil_fraction cpu memory db (fail_queued_run run_id category message event_id now db).1
  recording : (event : Event) (db : Db) → Call ceil_fraction cpu memory db (record_event event db).1
  claiming :
      (stage_run_id : ℕ) (who : Claim) (attempt_id now : ℕ) (db : Db)
      → IsBudgeted ceil_fraction cpu memory who
      → Call ceil_fraction cpu memory db
          (start_attempt ceil_fraction stage_run_id who attempt_id now db).1
  beating :
      (id : ℕ) (worker : String) (lease : ℤ) (now : ℕ) (db : Db)
      → Call ceil_fraction cpu memory db (heartbeat id worker lease now db).1
  attaching :
      (id : ℕ) (worker : String) (pid group : ℤ) (ticks : Option ℕ) (db : Db)
      → Call ceil_fraction cpu memory db (attach_process id worker pid group ticks db).1
  finishing :
      (id : ℕ) (status : AttemptStatus) (failure : Option Failure) (usage : Usage) (now : ℕ)
      (db : Db)
      → Call ceil_fraction cpu memory db (finish_attempt id status failure usage now db).1
  releasing : (id : ℕ) (db : Db) → Call ceil_fraction cpu memory db (release_resources id db)
  scheduling :
      (run_id stage_run_id : ℕ) (reason : String) (db : Db)
      → Belongs run_id stage_run_id db
      → Call ceil_fraction cpu memory db (schedule_retry run_id stage_run_id reason db).1
  requesting :
      (run_id : ℕ) (requester reason : String) (event_id now : ℕ) (db : Db)
      → Call ceil_fraction cpu memory db (request_retry run_id requester reason event_id now db).1
  resuming : (run_id : ℕ) (db : Db) → Call ceil_fraction cpu memory db (may_resume run_id db).1
  reclaiming :
      (fenced : Attempt → Bool) (reference now : ℕ) (db : Db)
      → Call ceil_fraction cpu memory db (reclaim_expired_attempts fenced reference now db).1

-- Calls one after the other, from a given state.
pub data Calls (ceil_fraction : ℕ → ℕ) (cpu memory : ℕ) (start : Db) : Db → Type 0 where
  begin : Calls ceil_fraction cpu memory start start
  then_call :
      {a b : Db}
      → Calls ceil_fraction cpu memory start a
      → Call ceil_fraction cpu memory a b
      → Calls ceil_fraction cpu memory start b

-- The invariants of the durable state.
pub record IsSound (cpu memory : ℕ) (db : Db) : Type 0 where
  pub in_sync : IsInSync db
  pub within : IsWithin cpu memory db.reservations
  pub held : AllHeld db
  pub accounted : All IsAccounted db.attempts
  pub numbered : IsNumbered db.attempts
  pub keys : KeysAreOwned db
  pub staged : RunsAreStaged db

module _ {cpu memory : ℕ} where
  pub Step-IsSound : (a b : Db) → Step cpu memory a b → IsSound cpu memory a → IsSound cpu memory b
  Step-IsSound a b s h = record {
    in_sync = Step-IsInSync a b s h.in_sync;
    within = Step-IsWithin a b s h.within;
    held = Step-AllHeld a b s h.held;
    accounted = Step-IsAccounted a b s h.accounted;
    numbered = Step-IsNumbered a b s h.numbered;
    keys = Step-KeysAreOwned a b s h.keys;
    staged = Step-RunsAreStaged a b s h.staged;
  }

module _ {ceil_fraction : ℕ → ℕ} {cpu memory : ℕ} where
  -- Each call, from a state in which the invariants hold, is a sequence of steps of the abstract
  -- store.
  pub Call-Steps :
      (a b : Db) → Call ceil_fraction cpu memory a b → IsSound cpu memory a → Steps cpu memory a b
  Call-Steps _ _ (submitting task sub run_id stage_run_id now db) h =
      submit_run-Steps cpu memory task sub run_id stage_run_id now db
  Call-Steps _ _ (moving run_id target reason now db) h =
      transition_run-Steps cpu memory run_id target reason now db
  Call-Steps _ _ (cancelling run_id now db) h = request_cancel-Steps cpu memory run_id now db
  Call-Steps _ _ (failing run_id category message event_id now db) h =
      fail_queued_run-Steps cpu memory run_id category message event_id now db
  Call-Steps _ _ (recording event db) h = record_event-Steps cpu memory event db
  Call-Steps _ _ (claiming stage_run_id who attempt_id now db b) h =
      start_attempt-Steps ceil_fraction cpu memory stage_run_id who attempt_id now db b
  Call-Steps _ _ (beating id worker lease now db) h =
      heartbeat-Steps cpu memory id worker lease now db
  Call-Steps _ _ (attaching id worker pid group ticks db) h =
      attach_process-Steps cpu memory id worker pid group ticks db
  Call-Steps _ _ (finishing id status failure usage now db) h =
      finish_attempt-Steps cpu memory id status failure usage now db h.accounted
  Call-Steps _ _ (releasing id db) h = release_resources-Steps cpu memory id db
  Call-Steps _ _ (scheduling run_id stage_run_id reason db mine) h =
      schedule_retry-Steps cpu memory run_id stage_run_id reason db mine
  Call-Steps _ _ (requesting run_id requester reason event_id now db) h =
      request_retry-Steps cpu memory run_id requester reason event_id now db
  Call-Steps _ _ (resuming run_id db) h = may_resume-Steps cpu memory run_id db h.in_sync
  Call-Steps _ _ (reclaiming fenced reference now db) h =
      reclaim-Steps cpu memory fenced reference now db h.in_sync

  pub Call-IsSound :
      (a b : Db) → Call ceil_fraction cpu memory a b → IsSound cpu memory a → IsSound cpu memory b
  Call-IsSound a b c h = Steps-induction (IsSound cpu memory) Step-IsSound (Call-Steps a b c h) h

  pub Calls-IsSound :
      {a b : Db} → Calls ceil_fraction cpu memory a b → IsSound cpu memory a → IsSound cpu memory b
  Calls-IsSound begin h = h
  Calls-IsSound (then_call {a = a} {b = b} cs c) h = Call-IsSound a b c (Calls-IsSound cs h)

pub empty-IsSound : (cpu memory : ℕ) → IsSound cpu memory empty
unfolding reserved_cpu reserved_memory numbers count_up attempts_made
empty-IsSound cpu memory = record {
  in_sync = tt;
  within = record { cpu_fits = omega arith; memory_fits = omega arith };
  held = tt;
  accounted = tt;
  numbered = λ stage. refl;
  keys = tt;
  staged = tt;
}
