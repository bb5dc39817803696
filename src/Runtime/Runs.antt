-- ===== src/Runtime/Runs.antt =====
-- RuntimeStore in core/runtime/src/openroad_platform_runtime/store.py: reading runs and stages, and
-- the operations that move a run: transition_run, request_cancel and fail_queued_run.
use chip_evolve.Base.{
  ℕ, Bool, true, false, ◌&&◌, ◌||◌, not, Option, none, some, List, [], ◌∷◌, ◌++◌, String, str_eq,
  ◌==◌, ltb, if◌then◌else◌, coalesce, first, select, update_where, some_row,
}
use chip_evolve.Contracts.Status.{
  RuntimeStatus, queued, preparing, running, retry_wait, cancel_requested, failed, same, contains,
  is_terminal, run_transition_allowed,
}
use chip_evolve.Runtime.State.{Run, Stage, Event, preflight, Db}
use chip_evolve.Runtime.Result.{
  Result, ok, err, unknown_run, empty_preflight, invalid_transition, integrity_error, ◌>>=◌, ◌>>◌,
  guard, required, transaction,
}

abbrev pub is_run : ℕ → Run → Bool
is_run id r = r.run_id == id

abbrev pub is_stage : ℕ → Stage → Bool
is_stage id s = s.stage_run_id == id

abbrev pub is_stage_of : ℕ → Stage → Bool
is_stage_of run_id s = s.run_id == run_id

-- ORDER BY key LIMIT 1: the row with the least key, the first of equals.
earlier {ℓ} : {A : Type ℓ} → (A → ℕ) → A → Option A → A
earlier key x none = x
earlier key x (some y) = if ltb (key y) (key x) then y else x

unfoldable pub earliest {ℓ} : {A : Type ℓ} → (A → ℕ) → List A → Option A
unfolding earlier
earliest key [] = none
earliest key (x ∷ xs) = some (earlier key x (earliest key xs))

-- find_run_by_task_id
unfoldable pub find_run_by_task_id : String → Db → Option Run
unfolding select
find_run_by_task_id task_id db =
    earliest (λ r. r.created_at) (select (λ r. str_eq r.task_id task_id) db.runs)

-- get_run
unfoldable pub get_run : ℕ → Db → Result Run
get_run run_id db = required unknown_run (first (is_run run_id) db.runs)

-- The UPDATE of runtime_runs that transition_run builds: the columns of `sql`, as it appends them.
unfoldable pub move_run : RuntimeStatus → Option String → ℕ → Run → Run
move_run target reason now run = record run {
  status = target;
  started_at = if same target running then coalesce run.started_at now else run.started_at;
  ended_at = if is_terminal target then some now else run.ended_at;
  terminal_reason = elim reason [ none ↦ run.terminal_reason | some r ↦ some r ];
}

-- UPDATE runtime_stage_runs SET status = target WHERE run_id = … AND status NOT IN (terminal ones)
unfoldable pub move_stages : ℕ → RuntimeStatus → List Stage → List Stage
move_stages run_id target stages =
    update_where (λ s. s.run_id == run_id && not (is_terminal s.status))
      (λ s. record s { status = target }) stages

unfoldable pub transition_body :
    ℕ → RuntimeStatus → Option String → ℕ → Db → Result ((Unit {0}) × Db)
transition_body run_id target reason now db = do
  run ← required unknown_run (first (is_run run_id) db.runs)
  if same run.status target then ok (tt, db) else do
    guard (run_transition_allowed run.status target) invalid_transition
    ok (
      tt,
      record db {
        runs = update_where (is_run run_id) (move_run target reason now) db.runs;
        stages = move_stages run_id target db.stages;
      },
    )

unfoldable pub transition_run : ℕ → RuntimeStatus → Option String → ℕ → Db → Result (Unit {0}) × Db
unfolding transition_body
transition_run run_id target reason now = transaction (transition_body run_id target reason now)

unfoldable pub request_cancel : ℕ → ℕ → Db → Result (Unit {0}) × Db
unfolding get_run
request_cancel run_id now db = elim (get_run run_id db) [
  | err e ↦ (err e, db)
  | ok run ↦
      if is_terminal run.status || same run.status cancel_requested
      then (ok tt, db)
      else transition_run run_id cancel_requested (some "cancellation requested") now db
]

-- INSERT INTO runtime_events, whose key is event_id.
unfoldable pub insert_event : Event → List Event → Result (List Event)
unfolding some_row
insert_event event events = do
  guard (not (some_row (λ e. e.event_id == event.event_id) events)) integrity_error
  ok (events ++ event ∷ [])

abbrev pub preflight_event : ℕ → String → String → ℕ → ℕ → Event
preflight_event run_id category message event_id now = record {
  event_id = event_id;
  run_id = run_id;
  stage_run_id = none;
  attempt_id = none;
  event_type = "run.preflight_failed";
  producer = "runtime";
  payload = preflight category message;
  occurred_at = now;
}

abbrev pub fail_early : String → ℕ → Run → Run
fail_early category now r = record r {
  status = failed;
  ended_at = some now;
  terminal_reason = some category;
}

unfoldable pub fail_queued_body : ℕ → String → String → ℕ → ℕ → Db → Result (Bool × Db)
fail_queued_body run_id category message event_id now db = do
  run ← required unknown_run (first (is_run run_id) db.runs)
  if not (contains (queued ∷ preparing ∷ retry_wait ∷ []) run.status) then ok (false, db) else do
    events ← insert_event (preflight_event run_id category message event_id now) db.events
    ok (
      true,
      record db {
        runs = update_where (is_run run_id) (fail_early category now) db.runs;
        stages = move_stages run_id failed db.stages;
        events = events;
      },
    )

unfoldable pub fail_queued_run : ℕ → String → String → ℕ → ℕ → Db → Result Bool × Db
unfolding fail_queued_body
fail_queued_run run_id category message event_id now db =
    if str_eq category "" || str_eq message ""
    then (err empty_preflight, db)
    else transaction (fail_queued_body run_id category message event_id now) db

unfoldable pub record_event_body : Event → Db → Result (Event × Db)
record_event_body event db = do
  events ← insert_event event db.events
  ok (event, record db { events = events })

-- record_event
unfoldable pub record_event : Event → Db → Result Event × Db
unfolding record_event_body
record_event event = transaction (record_event_body event)
