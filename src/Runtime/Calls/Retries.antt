-- ===== src/Runtime/Calls/Retries.antt =====
-- RuntimeStore.request_retry of core/runtime/src/openroad_platform_runtime/store.py: what it grants.
use chip_evolve.Base.{
  ℕ, ◌≡◌, refl, sym, ap, ◌∙◌, inl, inr, true, false, ◌||◌, none, some, List, [], ◌∷◌, ==_refl,
  arith, first, first-update_where, Bool-cases, Option-cases, String, le_count,
}
use chip_evolve.Contracts.Status.{failed}
use chip_evolve.Contracts.Status.Laws.{same_iff}
use chip_evolve.Runtime.State.{Run, Stage, Attempt, Db}
use chip_evolve.Runtime.Result.{ok, commit-ok}
use chip_evolve.Runtime.Runs.{is_run, is_stage, is_stage_of}
use chip_evolve.Runtime.Attempts.{last_number}
use chip_evolve.Runtime.Retry.{
  wait_stage, wait_run, latest_attempt, later_attempt, is_retryable, is_blank, requested_by,
  request_body, request_retry, attempts_made,
}
use chip_evolve.Runtime.Refines.Retry.{request-reads, request-made}
use chip_evolve.Runtime.Numbering.{last_number-eq-made}
use chip_evolve.Runtime.Sync.{found_id}
use chip_evolve.Runtime.Calls.{IsSound}

-- The latest attempt of a stage carries the greatest number.
latest-number :
    (stage : ℕ) (xs : List Attempt)
    → (latest_attempt stage xs ≡ none → last_number stage xs ≡ 0)
      × ((a : Attempt) → latest_attempt stage xs ≡ some a → last_number stage xs ≡ a.attempt_number)
unfolding latest_attempt later_attempt last_number
latest-number stage [] = (λ e. refl, λ a e. absurd (ground arith))
latest-number stage (x ∷ xs) = elim (Option-cases (latest_attempt stage xs)) [
  | inl e ↦ let h = (latest-number stage xs).0 e in (ground arith, λ a f. ground arith)
  | inr (b, e) ↦ let h = (latest-number stage xs).1 b e in (ground arith, λ a f. ground arith)
]

-- What a granted retry rests on, and what it leaves.
pub record IsGranted (run_id : ℕ) (text : String) (db after : Db) : Type 0 where
  pub run : Run
  pub stage : Stage
  pub last : Attempt
  pub found : first (is_run run_id) db.runs ≡ some run
  pub found_stage : first (is_stage_of run_id) db.stages ≡ some stage
  pub found_last : latest_attempt stage.stage_run_id db.attempts ≡ some last
  pub was_failed : run.status ≡ failed
  pub retryable : is_retryable (some last) ≡ true
  pub in_budget :
      le_count run.task_spec.max_attempts (attempts_made stage.stage_run_id db.attempts) ≡ false
  pub run_waits : first (is_run run_id) after.runs ≡ some (wait_run text run)
  pub stage_waits : first (is_stage_of run_id) after.stages ≡ some (wait_stage stage)
  pub attempts_kept : after.attempts ≡ db.attempts

body-IsGranted :
    {cpu memory : ℕ} (run_id : ℕ) (requester reason : String) (event_id now : ℕ) (db after : Db)
    → IsSound cpu memory db
    → request_body run_id requester reason event_id now db ≡ ok (tt, after)
    → IsGranted run_id (requested_by requester reason) db after
body-IsGranted run_id requester reason event_id now db after h made =
    let (run, stage, a, events, fr, fs, fa, logged) =
      request-reads run_id requester reason event_id now db (tt, after) made in
    let (was_failed, again, room, out) =
      request-made run_id requester reason event_id now db run stage a events (tt, after) fr fs fa
        logged made in
    let text = requested_by requester reason in
    let number : attempts_made stage.stage_run_id db.attempts ≡ a.attempt_number =
      sym (last_number-eq-made stage.stage_run_id db.attempts h.numbered)
      ∙ (latest-number stage.stage_run_id db.attempts).1 a fa in
    record {
      run = run;
      stage = stage;
      last = a;
      found = fr;
      found_stage = fs;
      found_last = fa;
      was_failed = (same_iff run.status failed).0 was_failed;
      retryable = again;
      in_budget = rw number room;
      run_waits =
          ap (λ (d : Db). first (is_run run_id) d.runs) out
          ∙ (first-update_where (is_run run_id) (is_run run_id) (wait_run text) db.runs (λ r. refl)
              ∙ (rw fr (rw (found_id db.runs run_id fr) (rw (==_refl run_id) refl))));
      stage_waits =
          ap (λ (d : Db). first (is_stage_of run_id) d.stages) out
          ∙ (first-update_where (is_stage_of run_id) (is_stage stage.stage_run_id) wait_stage
                db.stages (λ s. refl)
              ∙ (rw fs (rw (==_refl stage.stage_run_id) refl)));
      attempts_kept = ap (λ (d : Db). d.attempts) out;
    }

-- From a sound state, a retry that is granted is one of a failed run whose latest attempt failed
-- retryably and whose stage has made fewer attempts than the task allows; it leaves the run and its
-- stage waiting for a retry, and keeps the attempts.
pub retry-IsGranted :
    {cpu memory : ℕ} (run_id : ℕ) (requester reason : String) (event_id now : ℕ) (db after : Db)
    → IsSound cpu memory db
    → request_retry run_id requester reason event_id now db ≡ (ok tt, after)
    → IsGranted run_id (requested_by requester reason) db after
unfolding request_retry
retry-IsGranted run_id requester reason event_id now db after h granted =
    elim (Bool-cases (is_blank reason || is_blank requester)) [
      | inl blank ↦ absurd (ground arith)
      | inr given ↦ body-IsGranted run_id requester reason event_id now db after h (
          commit-ok db (request_body run_id requester reason event_id now db) tt after
            (rw given at granted))
    ]
