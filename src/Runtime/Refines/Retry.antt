-- ===== src/Runtime/Refines/Retry.antt =====
-- schedule_retry and request_retry as steps.
use chip_evolve.Base.{
  ℕ, ◌≡◌, sym, subst, ◌∙◌, inl, inr, true, false, ◌||◌, some, List, arith, first, update_where,
  Bool-cases, Option-cases, String, le_count,
}
use chip_evolve.Contracts.Status.{running, retry_wait, failed, same, run_transition_allowed}
use chip_evolve.Contracts.Status.Laws.{same_iff}
use chip_evolve.Runtime.State.{Run, Stage, Attempt, Event, Db}
use chip_evolve.Runtime.Result.{ok, Post-ok, Result-cases}
use chip_evolve.Runtime.Runs.{is_run, is_stage, is_stage_of, insert_event}
use chip_evolve.Runtime.Retry.{
  wait_stage, wait_run, retry_body, schedule_retry, latest_attempt, is_blank, is_retryable,
  requested_by, request_body, request_retry, retry_event,
}
use chip_evolve.Runtime.Step.{Steps, here, retry, reopen, Steps-one, Steps-trans, Steps-induction}
use chip_evolve.Runtime.Sync.{IsInSync, found_id}
use chip_evolve.Runtime.Sync.Preserved.{Step-IsInSync}
use chip_evolve.Runtime.Refines.Runs.{Refines, transaction-Steps, log-Steps}
use chip_evolve.Runtime.Refines.Attempts.{found_stage_id}

-- The stage that an id names is a stage of the run.
abbrev pub Belongs : ℕ → ℕ → Db → Type 0
Belongs run_id stage_run_id db =
    (s : Stage) → first (is_stage stage_run_id) db.stages ≡ some s → s.run_id ≡ run_id

retry-made :
    (run_id stage_run_id : ℕ) (reason : String) (db : Db) (stage : Stage) (run : Run)
    (out : (Unit {0}) × Db)
    → first (is_stage stage_run_id) db.stages ≡ some stage
    → first (is_run run_id) db.runs ≡ some run
    → retry_body run_id stage_run_id reason db ≡ ok out
    → (same stage.status running ≡ true)
      × (run_transition_allowed run.status retry_wait ≡ true)
      × (out.1 ≡ record db {
        stages = update_where (is_stage stage_run_id) wait_stage db.stages;
        runs = update_where (is_run run_id) (wait_run reason) db.runs;
      })
unfolding retry_body
retry-made run_id stage_run_id reason db stage run out found found_run h = ground arith

pub request-made :
    (run_id : ℕ) (requester reason : String) (event_id now : ℕ) (db : Db) (run : Run)
    (stage : Stage) (a : Attempt) (events : List Event) (out : (Unit {0}) × Db)
    → first (is_run run_id) db.runs ≡ some run
    → first (is_stage_of run_id) db.stages ≡ some stage
    → latest_attempt stage.stage_run_id db.attempts ≡ some a
    → insert_event (retry_event run_id requester reason event_id now stage a) db.events ≡ ok events
    → request_body run_id requester reason event_id now db ≡ ok out
    → (same run.status failed ≡ true)
      × (is_retryable (some a) ≡ true)
      × (le_count run.task_spec.max_attempts a.attempt_number ≡ false)
      × (out.1 ≡ record db {
        runs = update_where (is_run run_id) (wait_run (requested_by requester reason)) db.runs;
        stages = update_where (is_stage stage.stage_run_id) wait_stage db.stages;
        events = events;
      })
unfolding request_body
request-made run_id requester reason event_id now db run stage a events out fr fs fa logged h =
    ground arith

-- What request_body reads, where it goes through.
pub request-reads :
    (run_id : ℕ) (requester reason : String) (event_id now : ℕ) (db : Db) (out : (Unit {0}) × Db)
    → request_body run_id requester reason event_id now db ≡ ok out
    → (run : Run) × (stage : Stage) × (a : Attempt) × (events : List Event) × (first
          (is_run run_id)
          db.runs
        ≡ some run)
      × (first (is_stage_of run_id) db.stages ≡ some stage)
      × (latest_attempt stage.stage_run_id db.attempts ≡ some a)
      × (insert_event (retry_event run_id requester reason event_id now stage a) db.events
          ≡ ok events)
request-reads run_id requester reason event_id now db out h =
    elim (Option-cases (first (is_run run_id) db.runs)) [
      | inl absent ↦ absurd (unfold request_body in ground arith)
      | inr (run, fr) ↦ elim (Option-cases (first (is_stage_of run_id) db.stages)) [
        | inl absent ↦ absurd (unfold request_body in ground arith)
        | inr (stage, fs) ↦ elim (Option-cases (latest_attempt stage.stage_run_id db.attempts)) [
          | inl absent ↦ absurd (unfold request_body in ground arith)
          | inr (a, fa) ↦
              elim (Result-cases (
                insert_event (retry_event run_id requester reason event_id now stage a)
                  db.events)) [
                    | inl (events, logged) ↦ (run, stage, a, events, fr, fs, fa, logged)
                    | inr (e, clash) ↦ absurd (unfold request_body in ground arith)
                  ]
        ]
      ]
    ]

module _ (cpu memory : ℕ) where
  pub keeps-IsInSync : {a b : Db} → Steps cpu memory a b → IsInSync a → IsInSync b
  keeps-IsInSync s h = Steps-induction IsInSync (λ a b. Step-IsInSync a b) s h

  schedule_retry-outcome :
      (run_id stage_run_id : ℕ) (reason : String) (db : Db)
      → Belongs run_id stage_run_id db
      → (out : (Unit {0}) × Db) → retry_body run_id stage_run_id reason db ≡ ok out
      → Steps cpu memory db out.1
  schedule_retry-outcome run_id stage_run_id reason db mine out h =
      elim (Option-cases (first (is_stage stage_run_id) db.stages)) [
        | inl absent ↦ absurd (unfold retry_body in ground arith)
        | inr (stage, fs) ↦ elim (Option-cases (first (is_run run_id) db.runs)) [
          | inl absent ↦ absurd (unfold retry_body in ground arith)
          | inr (run, fr) ↦
              let (runs, allowed, made) =
                retry-made run_id stage_run_id reason db stage run out fs fr h in
              let own_s : stage.stage_run_id ≡ stage_run_id =
                found_stage_id db.stages stage_run_id fs in
              let own_r : run.run_id ≡ run_id = found_id db.runs run_id fr in
              rw made (
                subst
                  (λ i. Steps cpu memory db (record db {
                    stages = update_where (is_stage i) wait_stage db.stages;
                    runs = update_where (is_run run_id) (wait_run reason) db.runs;
                  }))
                  own_s
                  (subst
                    (λ i. Steps cpu memory db (record db {
                      stages = update_where (is_stage stage.stage_run_id) wait_stage db.stages;
                      runs = update_where (is_run i) (wait_run reason) db.runs;
                    }))
                    own_r
                    (Steps-one (
                      retry db run stage reason
                        (subst (λ i. first (is_stage i) db.stages ≡ some stage) (sym own_s) fs)
                        ((same_iff stage.status running).0 runs)
                        (subst (λ i. first (is_run i) db.runs ≡ some run) (sym own_r) fr) allowed
                        (mine stage fs ∙ sym own_r)))))
        ]
      ]

  pub schedule_retry-Steps :
      (run_id stage_run_id : ℕ) (reason : String) (db : Db)
      → Belongs run_id stage_run_id db
      → Steps cpu memory db (schedule_retry run_id stage_run_id reason db).1
  unfolding schedule_retry
  schedule_retry-Steps run_id stage_run_id reason db mine =
      transaction-Steps cpu memory (retry_body run_id stage_run_id reason) db (
        Post-ok (Refines cpu memory db) (retry_body run_id stage_run_id reason db)
          (λ out e. schedule_retry-outcome run_id stage_run_id reason db mine out e))

  request_retry-outcome :
      (run_id : ℕ) (requester reason : String) (event_id now : ℕ) (db : Db) (out : (Unit {0}) × Db)
      → request_body run_id requester reason event_id now db ≡ ok out
      → Steps cpu memory db out.1
  request_retry-outcome run_id requester reason event_id now db out h =
      let (run, stage, a, events, fr, fs, fa, logged) =
        request-reads run_id requester reason event_id now db out h in
      let (is_failed, again, room, made) =
        request-made run_id requester reason event_id now db run stage a events out fr fs fa logged
          h in
      let own : run.run_id ≡ run_id = found_id db.runs run_id fr in
      let text = requested_by requester reason in
      let waiting : Db = record db {
        runs = update_where (is_run run_id) (wait_run text) db.runs;
        stages = update_where (is_stage stage.stage_run_id) wait_stage db.stages;
      } in
      rw made (
        Steps-trans
          (subst
            (λ i. Steps cpu memory db (record db {
              runs = update_where (is_run i) (wait_run text) db.runs;
              stages = update_where (is_stage stage.stage_run_id) wait_stage db.stages;
            }))
            own
            (Steps-one (
              reopen db run stage a text
                (subst (λ i. first (is_run i) db.runs ≡ some run) (sym own) fr)
                ((same_iff run.status failed).0 is_failed)
                (subst (λ i. first (is_stage_of i) db.stages ≡ some stage) (sym own) fs) fa again
                room)))
          (log-Steps cpu memory waiting (retry_event run_id requester reason event_id now stage a)
            events logged))

  pub request_retry-Steps :
      (run_id : ℕ) (requester reason : String) (event_id now : ℕ) (db : Db)
      → Steps cpu memory db (request_retry run_id requester reason event_id now db).1
  unfolding request_retry
  request_retry-Steps run_id requester reason event_id now db =
      elim (Bool-cases (is_blank reason || is_blank requester)) [
        | inl blank ↦ rw blank (here db)
        | inr said ↦ rw said (
            transaction-Steps cpu memory (request_body run_id requester reason event_id now) db (
              Post-ok (Refines cpu memory db) (request_body run_id requester reason event_id now db)
                (λ out e. request_retry-outcome run_id requester reason event_id now db out e)))
      ]
