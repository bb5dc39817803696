-- ===== src/Runtime/Execution/Endings.antt =====
-- The states that the end of an execution in core/runtime/src/openroad_platform_runtime/runtime.py passes
-- through, and its exception handlers.
use chip_evolve.Base.{ℕ, ◌≡◌, refl, ◌⊎◌, inl, inr, true, false, Bool-cases, some, [], ◌∷◌, arith}
use chip_evolve.Contracts.Status.{
  RuntimeStatus, succeeded, failed, cancelled, timed_out, running, contains, same, AttemptStatus,
  attempt_transition_allowed, run_transition_allowed,
}
use chip_evolve.Runtime.State.{Db}
use chip_evolve.Runtime.Result.{is_invalid_transition, invalid_transition, Result, ok, err}
use chip_evolve.Runtime.Runs.{transition_run}
use chip_evolve.Runtime.Calls.{IsSound}
use chip_evolve.Runtime.Execution
use chip_evolve.Runtime.Execution.{
  runtime_error, exit_one, retry_text, Execution, attempt_status, terminal_reason, should_retry,
  unless_invalid, conclude, settle, fail_running, record_failure, or_failure, finish_execution,
}
use chip_evolve.Runtime.Execution.Landing.{err_inj, transition_lands, IsEnd, IsStopped, IsEnded}

-- A sound state in which the attempt is over.
pub record IsSettledIn (cpu memory attempt_id : ℕ) (db : Db) : Type 0 where
  pub sound : IsSound cpu memory db
  pub over : IsEnded attempt_id db

-- What an ending of an execution leaves.
abbrev pub IsDone : ℕ → ℕ → Result (Unit {0}) × Db → Type 0
IsDone attempt_id run_id x = IsEnded attempt_id x.1 × IsStopped run_id x.1

pub unless_invalid-state : (x : Result (Unit {0}) × Db) → (unless_invalid x).1 ≡ x.1
unless_invalid-state (ok u, db) = refl
unless_invalid-state (err e, db) = elim (Bool-cases (is_invalid_transition e)) [
  | inl invalid ↦ rw invalid
  | inr other ↦ rw other
]

pub failed_runs_not :
    (status : RuntimeStatus)
    → run_transition_allowed status failed ≡ false
    → same status running ≡ false
unfolding run_transition_allowed
failed_runs_not status h = ground arith

-- After the transition to failed, the run does not run, whether it was made or refused.
pub failed_stops :
    (run_id now : ℕ) (db : Db)
    → IsStopped run_id (transition_run run_id failed (some "runtime_error") now db).1
failed_stops run_id now db = elim (transition_lands run_id failed (some "runtime_error") now db) [
  | inl (e, raised, refused) ↦ rw raised (λ r found. failed_runs_not r.status (refused r found))
  | inr (done, attempts_are, lands) ↦ λ r found. rw (lands r found)
]

pub may_fail : attempt_transition_allowed AttemptStatus.running AttemptStatus.failed ≡ true
unfolding attempt_transition_allowed
may_fail = refl

-- An attempt that runs may end with the status of any result.
pub may-IsEnd :
    (status : RuntimeStatus)
    → (attempt_transition_allowed AttemptStatus.running (attempt_status status) ≡ true)
      × IsEnd (attempt_status status)
unfolding attempt_transition_allowed
may-IsEnd succeeded = (refl, ((λ e. cc), (λ e. cc)))
may-IsEnd _ = (refl, ((λ e. cc), (λ e. cc)))

pub after_finish :
    (x : Result (Unit {0}) × Db) (others : Db → Db) (next : Db → Result (Unit {0}) × Db)
    → (x.0 ≡ ok tt) ⊎ (x.0 ≡ err invalid_transition)
    → Execution.then_call others (unless_invalid x) next ≡ next (others x.1)
after_finish (ok u, db) others next came = refl
after_finish (err e, db) others next (inl h) = absurd cc
after_finish (err e, db) others next (inr h) = rw (err_inj h)

pub result_stops :
    (status : RuntimeStatus)
    → contains (succeeded ∷ failed ∷ cancelled ∷ timed_out ∷ []) status ≡ true
    → same status running ≡ false
result_stops status h = ground arith

-- Where a finish was refused, the exception leaves what the finish left.
pub after_refusal :
    (x : Result (Unit {0}) × Db) (others : Db → Db) (next : Db → Result (Unit {0}) × Db)
    → x.0 ≡ err invalid_transition
    → Execution.then_call others x next ≡ x
after_refusal (ok u, db) others next h = absurd cc
after_refusal (err e, db) others next h = refl

pub after_success :
    (x : Result (Unit {0}) × Db) (others : Db → Db) (next : Db → Result (Unit {0}) × Db)
    → x.0 ≡ ok tt
    → Execution.then_call others x next ≡ next (others x.1)
after_success (ok u, db) others next h = refl
after_success (err e, db) others next h = absurd cc
