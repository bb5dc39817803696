-- ===== src/Runtime/Retry.antt =====
-- Retries in RuntimeStore of core/runtime/src/openroad_platform_runtime/store.py: schedule_retry,
-- request_retry and _may_resume.
use Prim.Native.String.{◌++◌ as str_append}
use chip_evolve.Base.{
  ℕ, suc, Bool, true, false, ◌&&◌, ◌||◌, not, Option, none, some, List, [], ◌∷◌, String, ◌==◌, ltb,
  if◌then◌else◌, first, update_where, le_count, codes,
}
use chip_evolve.Contracts.Status.{running, retry_wait, failed, same, run_transition_allowed}
use chip_evolve.Runtime.State.{Run, Stage, Attempt, Event, retry_reason, Db}
use chip_evolve.Runtime.Result.{
  Result, ok, err, unknown_run, unknown_stage, empty_retry_request, not_retryable, budget_exhausted,
  invalid_transition, is_invalid_transition, ◌>>=◌, ◌>>◌, guard, required, transaction,
}
use chip_evolve.Runtime.Runs.{is_run, is_stage, is_stage_of, insert_event}

abbrev pub wait_stage : Stage → Stage
wait_stage s = record s { status = retry_wait }

abbrev pub wait_run : String → Run → Run
wait_run reason r = record r { status = retry_wait; terminal_reason = some reason }

unfoldable pub retry_body : ℕ → ℕ → String → Db → Result ((Unit {0}) × Db)
retry_body run_id stage_run_id reason db = do
  stage ← required unknown_stage (first (is_stage stage_run_id) db.stages)
  guard (same stage.status running) invalid_transition
  run ← required unknown_run (first (is_run run_id) db.runs)
  guard (run_transition_allowed run.status retry_wait) invalid_transition
  ok (
    tt,
    record db {
      stages = update_where (is_stage stage_run_id) wait_stage db.stages;
      runs = update_where (is_run run_id) (wait_run reason) db.runs;
    },
  )

unfoldable pub schedule_retry : ℕ → ℕ → String → Db → Result (Unit {0}) × Db
schedule_retry run_id stage_run_id reason = transaction (retry_body run_id stage_run_id reason)

-- ORDER BY attempt_number DESC LIMIT 1
unfoldable pub later_attempt : Attempt → Option Attempt → Attempt
later_attempt a none = a
later_attempt a (some b) = if ltb a.attempt_number b.attempt_number then b else a

unfoldable pub latest_attempt : ℕ → List Attempt → Option Attempt
unfolding later_attempt
latest_attempt stage [] = none
latest_attempt stage (a ∷ rest) =
    let later = latest_attempt stage rest in
    if a.stage_run_id == stage then some (later_attempt a later) else later

abbrev pub latest_of : Option Stage → List Attempt → Option Attempt
latest_of none attempts = none
latest_of (some s) attempts = latest_attempt s.stage_run_id attempts

-- Python's whitespace among the ASCII codes, of `str.strip`.
is_blank_char : ℕ → Bool
is_blank_char c = c == 32 || (ltb 8 c && ltb c 14) || (ltb 27 c && ltb c 32)

all_blank : List ℕ → Bool
unfolding is_blank_char
all_blank [] = true
all_blank (c ∷ cs) = is_blank_char c && all_blank cs

-- `not text.strip()`, for ASCII text
unfoldable pub is_blank : String → Bool
unfolding all_blank
is_blank text = all_blank (codes text)

-- `failure and failure.get("retryable")`
abbrev pub is_retryable : Option Attempt → Bool
is_retryable none = false
is_retryable (some a) = elim a.failure [ none ↦ false | some f ↦ f.retryable ]

-- f"retry requested by {requester}: {reason}"
unfoldable pub requested_by : String → String → String
requested_by requester reason =
    str_append "retry requested by " (str_append requester (str_append ": " reason))

abbrev pub retry_event : ℕ → String → String → ℕ → ℕ → Stage → Attempt → Event
retry_event run_id requester reason event_id now stage attempt = record {
  event_id = event_id;
  run_id = run_id;
  stage_run_id = some stage.stage_run_id;
  attempt_id = some attempt.attempt_id;
  event_type = "run.retry_requested";
  producer = requester;
  payload = retry_reason reason;
  occurred_at = now;
}

unfoldable pub request_body : ℕ → String → String → ℕ → ℕ → Db → Result ((Unit {0}) × Db)
request_body run_id requester reason event_id now db = do
  run ← required unknown_run (first (is_run run_id) db.runs)
  let stage = first (is_stage_of run_id) db.stages
  let attempt = latest_of stage db.attempts
  guard (same run.status failed) invalid_transition
  guard (is_retryable attempt) not_retryable
  s ← required not_retryable stage
  a ← required not_retryable attempt
  guard (not (le_count run.task_spec.max_attempts a.attempt_number)) budget_exhausted
  events ← insert_event (retry_event run_id requester reason event_id now s a) db.events
  ok (
    tt,
    record db {
      runs = update_where (is_run run_id) (wait_run (requested_by requester reason)) db.runs;
      stages = update_where (is_stage s.stage_run_id) wait_stage db.stages;
      events = events;
    },
  )

unfoldable pub request_retry : ℕ → String → String → ℕ → ℕ → Db → Result (Unit {0}) × Db
request_retry run_id requester reason event_id now db =
    if is_blank reason || is_blank requester
    then (err empty_retry_request, db)
    else transaction (request_body run_id requester reason event_id now) db

-- The run's first stage with its run, as _may_resume joins them; and the number of its attempts.
abbrev pub resume_reason : String
resume_reason = "worker lost its lease; resuming in the same workspace"

unfoldable pub attempts_made : ℕ → List Attempt → ℕ
attempts_made stage [] = 0
attempts_made stage (a ∷ rest) =
    let made = attempts_made stage rest in if a.stage_run_id == stage then suc made else made

-- `except InvalidTransition: return False`
abbrev pub resumed : Result (Unit {0}) × Db → Result Bool × Db
resumed (ok u, db) = (ok true, db)
resumed (err e, db) = if is_invalid_transition e then (ok false, db) else (err e, db)

unfoldable pub try_resume : ℕ → Run → Stage → Db → Result Bool × Db
try_resume run_id run stage db =
    if not stage.resumable
    then (ok false, db)
    else if le_count run.task_spec.max_attempts (attempts_made stage.stage_run_id db.attempts)
    then (ok false, db)
    else resumed (schedule_retry run_id stage.stage_run_id resume_reason db)

unfoldable pub may_resume : ℕ → Db → Result Bool × Db
may_resume run_id db = elim (first (is_run run_id) db.runs) [
  | none ↦ (ok false, db)
  | some run ↦ elim (first (is_stage_of run_id) db.stages) [
    | none ↦ (ok false, db)
    | some stage ↦ try_resume run_id run stage db
  ]
]
