-- ===== src/Runtime/Execution/Settled.antt =====
-- An execution in core/runtime/src/openroad_platform_runtime/runtime.py leaves neither its attempt nor its
-- run running.
use chip_evolve.Base.{
  ℕ, ◌≡◌, refl, sym, subst, ◌∙◌, ◌⊎◌, inl, inr, true, false, Bool-cases, Option-cases, some, [],
  ◌∷◌, String, first,
}
use chip_evolve.Contracts.Status.{
  succeeded, failed, cancelled, timed_out, running, contains, same, AttemptStatus,
}
use chip_evolve.Runtime.State.{Run, Attempt, Db}
use chip_evolve.Runtime.Result.{StoreError, invalid_transition, Result, ok, err}
use chip_evolve.Runtime.Runs.{is_run, get_run, transition_run}
use chip_evolve.Runtime.Attempts.{is_attempt}
use chip_evolve.Runtime.Leases.{finish_attempt}
use chip_evolve.Runtime.Calls.{
  Calls, begin, then_call, finishing, moving, IsSound, Call-IsSound, Calls-IsSound,
}
use chip_evolve.Runtime.Calls.Guarantees.{attempt_kept}
use chip_evolve.Runtime.Execution.{
  runtime_error, exit_one, retry_text, Execution, attempt_status, terminal_reason, should_retry,
  unless_invalid, conclude, settle, fail_running, record_failure, or_failure, finish_execution,
}
use chip_evolve.Runtime.Execution.Landing.{some_inj, transition_lands, retry_lands, finish_ends}
use chip_evolve.Runtime.Execution.Endings.{
  IsSettledIn, IsDone, unless_invalid-state, failed_stops, may_fail, may-IsEnd, after_finish,
  result_stops, after_refusal, after_success,
}

module _ (ceil_fraction : ℕ → ℕ) (cpu memory : ℕ) where
  calls-IsSettledIn :
      (attempt_id : ℕ) {a b : Db}
      → Calls ceil_fraction cpu memory a b
      → IsSettledIn cpu memory attempt_id a
      → IsSettledIn cpu memory attempt_id b
  calls-IsSettledIn attempt_id cs h =
      let (a, there, over) = h.over in
      record {
        sound = Calls-IsSound cs h.sound;
        over = (a, attempt_kept cs h.sound attempt_id a there over, over);
      }

  -- The run is failed, or it does not run any more.
  failed_after :
      (attempt_id run_id now : ℕ) (db : Db)
      → IsSettledIn cpu memory attempt_id db
      → IsDone attempt_id run_id
          (unless_invalid (transition_run run_id failed (some "runtime_error") now db))
  failed_after attempt_id run_id now db h =
      let moved : Result (Unit {0}) × Db =
        transition_run run_id failed (some "runtime_error") now db in
      let after : IsSettledIn cpu memory attempt_id moved.1 =
        calls-IsSettledIn attempt_id
          (then_call begin (moving run_id failed (some "runtime_error") now db)) h in
      rw (unless_invalid-state moved) (after.over, failed_stops run_id now db)

  module _ (others : ℕ → Db → Db)
      (act : (i : ℕ) (db : Db) → Calls ceil_fraction cpu memory db (others i db)) where
    fail_running-IsDone :
        (attempt_id run_id now : ℕ) (db : Db)
        → IsSettledIn cpu memory attempt_id db
        → IsDone attempt_id run_id (fail_running others run_id now db)
    unfolding fail_running get_run
    fail_running-IsDone attempt_id run_id now db h =
        elim (Option-cases (first (is_run run_id) db.runs)) [
          | inl lost ↦
              rw (fail_running, get_run, lost)
                (h.over, λ r there. absurd (let e = rw lost at there in cc))
          | inr (run, there) ↦ elim (Bool-cases (same run.status running)) [
            | inr idle ↦
                rw (fail_running, get_run, there, idle)
                  (h.over, λ r found. rw (← some_inj (sym there ∙ found)) idle)
            | inl runs ↦
                rw (fail_running, get_run, there, runs)
                  (failed_after attempt_id run_id now (others 2 db)
                    (calls-IsSettledIn attempt_id (act 2 db) h))
          ]
        ]

    -- A finish and what comes after it, with the attempt over in between.
    record_failure-IsDone :
        (message : String) (run : Run) (attempt a : Attempt) (now : ℕ) (db : Db)
        → IsSound cpu memory db
        → first (is_attempt attempt.attempt_id) db.attempts ≡ some a
        → IsDone attempt.attempt_id run.run_id (record_failure others message run attempt now db)
    unfolding record_failure
    record_failure-IsDone message run attempt a now db sound there =
        let x : Result (Unit {0}) × Db =
          finish_attempt attempt.attempt_id AttemptStatus.failed (some (runtime_error message))
            exit_one now db in
        let (over, came) =
          finish_ends attempt.attempt_id AttemptStatus.failed (some (runtime_error message))
            exit_one now db a sound.accounted there may_fail ((λ e. cc), (λ e. cc)) in
        let settled : IsSettledIn cpu memory attempt.attempt_id (others 1 x.1) =
          calls-IsSettledIn attempt.attempt_id (act 1 x.1) (record {
            sound =
                Call-IsSound {ceil_fraction = ceil_fraction} db x.1
                  (finishing attempt.attempt_id AttemptStatus.failed (some (runtime_error message))
                    exit_one now db)
                  sound;
            over = over;
          }) in
        subst (λ (y : Result (Unit {0}) × Db). IsDone attempt.attempt_id run.run_id y)
          (sym (after_finish x (others 1) (fail_running others run.run_id now) came))
          (fail_running-IsDone attempt.attempt_id run.run_id now (others 1 x.1) settled)

    -- A conclusion that returned, or one that raised from a settled state, which it left.
    abbrev IsEnding : ℕ → ℕ → Result (Unit {0}) × Db → Type 0
    IsEnding attempt_id run_id x =
        ((x.0 ≡ ok tt) × IsDone attempt_id run_id x)
        ⊎ ((e : StoreError) × (x.0 ≡ err e) × IsSettledIn cpu memory attempt_id x.1)

    conclude-IsEnding :
        (x : Execution) (run : Run) (attempt : Attempt) (stage_run_id now : ℕ) (db : Db)
        → same x.status running ≡ false
        → IsSettledIn cpu memory attempt.attempt_id db
        → IsEnding attempt.attempt_id run.run_id (conclude x run attempt stage_run_id now db)
    unfolding conclude
    conclude-IsEnding x run attempt stage_run_id now db stops h =
        elim (Bool-cases (should_retry run attempt x)) [
          | inl again ↦ rw again (elim (retry_lands run.run_id stage_run_id (retry_text x) db) [
            | inl (e, raised) ↦ inr (e, rw raised, rw raised h)
            | inr (done, attempts_are, lands) ↦
                inl (done, (rw attempts_are h.over, λ r found. rw (lands r found)))
          ])
          | inr ends ↦
              rw ends
                (elim (transition_lands run.run_id x.status (terminal_reason x.status x.failure) now
                  db) [
                    | inl (e, raised, refused) ↦ inr (e, rw raised, rw raised h)
                    | inr (done, attempts_are, lands) ↦
                        inl (done, (rw attempts_are h.over, λ r found. rw (lands r found) stops))
                  ])
        ]

    settle-IsEnding :
        (x : Execution) (run : Run) (attempt a : Attempt) (stage_run_id now : ℕ) (db : Db)
        → same x.status running ≡ false
        → IsSound cpu memory db
        → first (is_attempt attempt.attempt_id) db.attempts ≡ some a
        → IsEnding attempt.attempt_id run.run_id (settle others x run attempt stage_run_id now db)
    unfolding settle
    settle-IsEnding x run attempt a stage_run_id now db stops sound there =
        let y : Result (Unit {0}) × Db =
          finish_attempt attempt.attempt_id (attempt_status x.status) x.failure x.usage now db in
        let next : Db → Result (Unit {0}) × Db = conclude x run attempt stage_run_id now in
        let (may, ends) = may-IsEnd x.status in
        let (over, came) =
          finish_ends attempt.attempt_id (attempt_status x.status) x.failure x.usage now db a
            sound.accounted there may ends in
        let settled : IsSettledIn cpu memory attempt.attempt_id y.1 = record {
          sound =
              Call-IsSound {ceil_fraction = ceil_fraction} db y.1
                (finishing attempt.attempt_id (attempt_status x.status) x.failure x.usage now db)
                sound;
          over = over;
        } in
        elim came [
          | inl done ↦
              subst (λ (z : Result (Unit {0}) × Db). IsEnding attempt.attempt_id run.run_id z)
                (sym (after_success y (others 0) next done))
                (conclude-IsEnding x run attempt stage_run_id now (others 0 y.1) stops
                  (calls-IsSettledIn attempt.attempt_id (act 0 y.1) settled))
          | inr refused ↦
              subst (λ (z : Result (Unit {0}) × Db). IsEnding attempt.attempt_id run.run_id z)
                (sym (after_refusal y (others 0) next refused))
                (inr (invalid_transition, refused, settled))
        ]

    or_failure-IsDone :
        (message : StoreError → String) (run : Run) (attempt : Attempt) (now : ℕ)
        (x : Result (Unit {0}) × Db)
        → IsEnding attempt.attempt_id run.run_id x
        → IsDone attempt.attempt_id run.run_id (or_failure others message run attempt now x)
    or_failure-IsDone message run attempt now (ok u, db) (inl h) = h.1
    or_failure-IsDone message run attempt now (err e, db) (inl h) = absurd (let g = h.0 in cc)
    or_failure-IsDone message run attempt now (ok u, db) (inr h) = absurd (let g = h.1 in cc)
    or_failure-IsDone message run attempt now (err e, db) (inr h) =
        let settled : IsSettledIn cpu memory attempt.attempt_id (others 3 db) =
          calls-IsSettledIn attempt.attempt_id (act 3 db) h.2 in
        let (a, there, over) = settled.over in
        record_failure-IsDone (message e) run attempt a now (others 3 db) settled.sound there

    -- From a state in which the invariants hold, where the attempt is in its table and the result has one
    -- of the four statuses that a valid result has, and whatever other processes call between the calls:
    -- whether the way to the result raised or not, in the end the attempt is over and the run, if it
    -- is there, is not running.
    pub execution_stops :
        (message : StoreError → String) (work : Result Execution) (run : Run) (attempt a : Attempt)
        (stage_run_id now : ℕ) (db : Db)
        → IsSound cpu memory db
        → first (is_attempt attempt.attempt_id) db.attempts ≡ some a
        → ((x : Execution)
            → work ≡ ok x
            → contains (succeeded ∷ failed ∷ cancelled ∷ timed_out ∷ []) x.status ≡ true)
        → IsDone attempt.attempt_id run.run_id
            (finish_execution others message work run attempt stage_run_id now db)
    unfolding finish_execution
    execution_stops message (err e) run attempt a stage_run_id now db sound there valid =
        record_failure-IsDone (message e) run attempt a now db sound there
    execution_stops message (ok x) run attempt a stage_run_id now db sound there valid =
        or_failure-IsDone message run attempt now (settle others x run attempt stage_run_id now db)
          (settle-IsEnding x run attempt a stage_run_id now db
            (result_stops x.status (valid x refl)) sound there)
