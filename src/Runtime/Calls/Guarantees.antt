-- ===== src/Runtime/Calls/Guarantees.antt =====
-- What RuntimeStore (core/runtime/src/openroad_platform_runtime/store.py) guarantees to its callers,
-- whatever they call and in whatever order.
use chip_evolve.Base.{
  ℕ, ◌≤◌, ◌≡◌, ap, ◌∙◌, ◌⊎◌, inl, inr, some, ==_iff, arith, first, first_holds, All-first,
  Option-cases, String,
}
use mathlib.Core.Option
use chip_evolve.Contracts.Status.{AttemptStatus}
use chip_evolve.Runtime.State.{Run, Stage, Attempt, Reservation, Db, empty}
use chip_evolve.Runtime.Runs.{is_run, is_stage}
use chip_evolve.Runtime.Submit.{has_key}
use chip_evolve.Runtime.Attempts.{is_attempt, reserved_cpu, reserved_memory, last_number, held_by}
use chip_evolve.Runtime.Retry.{attempts_made}
use chip_evolve.Runtime.Step.{Steps-induction, IsLeased, IsSettled}
use chip_evolve.Runtime.Sync.{IsLinked}
use chip_evolve.Runtime.Evidence.{IsOver, IsAccounted, Step-over}
use chip_evolve.Runtime.Numbering.{numbers, count_up, last_number-eq-made}
use chip_evolve.Runtime.Keys.{IsFinal, Step-final}
use chip_evolve.Runtime.Calls.{
  Calls, begin, then_call, IsSound, Call-Steps, Calls-IsSound, empty-IsSound,
}

module _ {ceil_fraction : ℕ → ℕ} {cpu memory : ℕ} where
  pub sound : {db : Db} → Calls ceil_fraction cpu memory empty db → IsSound cpu memory db
  sound cs = Calls-IsSound cs (empty-IsSound cpu memory)

  -- In every state that calls can reach from the empty store, a stage has a run, and its status is
  -- that of its run.
  pub stage_follows_run :
      {db : Db}
      → Calls ceil_fraction cpu memory empty db
      → (stage_run_id : ℕ) (stage : Stage) → first (is_stage stage_run_id) db.stages ≡ some stage
      → (run : Run) × (first (is_run stage.run_id) db.runs ≡ some run) × (run.status ≡ stage.status)
  stage_follows_run {db} cs i stage found =
      let l : IsLinked db.runs db.stages stage =
        All-first (IsLinked db.runs db.stages) (is_stage i) db.stages (sound cs).in_sync found in
      (l.run, l.found, l.agrees)

  -- In every state that calls reach from the empty store, where every claim states capacities whose
  -- budgets are at most the given ones, the reservations together fit the given ones.
  pub reservations_fit :
      {db : Db}
      → Calls ceil_fraction cpu memory empty db
      → (reserved_cpu db.reservations ≤ cpu) × (reserved_memory db.reservations ≤ memory)
  reservations_fit cs = ((sound cs).within.cpu_fits, (sound cs).within.memory_fits)

  -- In every reachable state an attempt that holds a reservation is running.
  pub reservation_of_running :
      {db : Db}
      → Calls ceil_fraction cpu memory empty db
      → (attempt_id : ℕ) (r : Reservation) → first (held_by attempt_id) db.reservations ≡ some r
      → (a : Attempt) × (first (is_attempt attempt_id) db.attempts ≡ some a)
        × (a.status ≡ AttemptStatus.running)
  reservation_of_running {db} cs id r found =
      let own : r.attempt_id ≡ id =
        (==_iff r.attempt_id id).0 (first_holds (held_by id) db.reservations found) in
      let held : Option.map (λ a. a.status) (first (is_attempt r.attempt_id) db.attempts)
          ≡ some AttemptStatus.running =
        All-first
          (λ x.
            Option.map (λ a. a.status) (first (is_attempt x.attempt_id) db.attempts)
            ≡ some AttemptStatus.running)
          (held_by id) db.reservations (sound cs).held found in
      elim (Option-cases (first (is_attempt id) db.attempts)) [
        | inl absent ↦ absurd (ground arith)
        | inr (a, there) ↦ (a, there, ground arith)
      ]

  -- In every reachable state an attempt runs under a lease, or is over, dated and without a lease.
  pub attempt_accounted :
      {db : Db}
      → Calls ceil_fraction cpu memory empty db
      → (attempt_id : ℕ) (a : Attempt) → first (is_attempt attempt_id) db.attempts ≡ some a
      → IsLeased a ⊎ IsSettled a
  attempt_accounted {db} cs id a found =
      All-first IsAccounted (is_attempt id) db.attempts (sound cs).accounted found

  -- In every reachable state the attempts of a stage are numbered 1, 2, … in the order in which they
  -- were made, and the greatest number is their count.
  pub attempts_numbered :
      {db : Db}
      → Calls ceil_fraction cpu memory empty db
      → (stage : ℕ)
      → (numbers stage db.attempts ≡ count_up (attempts_made stage db.attempts))
        × (last_number stage db.attempts ≡ attempts_made stage db.attempts)
  attempts_numbered {db} cs stage =
      ((sound cs).numbered stage, last_number-eq-made stage db.attempts (sound cs).numbered)

  -- In every reachable state the lookup by the idempotency key of a run finds that run: no two runs
  -- share a key.
  pub key_names_run :
      {db : Db}
      → Calls ceil_fraction cpu memory empty db
      → (run_id : ℕ) (run : Run) (key : String) → first (is_run run_id) db.runs ≡ some run
      → run.idempotency_key ≡ some key
      → Option.map (λ r. r.run_id) (first (has_key key) db.runs) ≡ some run_id
  key_names_run {db} cs id run key found given =
      let own : run.run_id ≡ id =
        (==_iff run.run_id id).0 (first_holds (is_run id) db.runs found) in
      All-first
        (λ r.
          (k : String)
          → r.idempotency_key ≡ some k
          → Option.map (λ t. t.run_id) (first (has_key k) db.runs) ≡ some r.run_id)
        (is_run id) db.runs (sound cs).keys found key given
      ∙ ap some own

  -- From a sound state, no sequence of calls changes or removes an attempt that is over.
  pub attempt_kept :
      {a b : Db}
      → Calls ceil_fraction cpu memory a b
      → IsSound cpu memory a
      → (attempt_id : ℕ) (attempt : Attempt)
      → first (is_attempt attempt_id) a.attempts ≡ some attempt
      → IsOver attempt
      → first (is_attempt attempt_id) b.attempts ≡ some attempt
  attempt_kept begin h id attempt found over = found
  attempt_kept (then_call {a = m} {b = b} cs c) h id attempt found over =
      Steps-induction (λ db. first (is_attempt id) db.attempts ≡ some attempt)
        (λ x y s keep. Step-over id attempt x y s over keep) (Call-Steps m b c (Calls-IsSound cs h))
        (attempt_kept cs h id attempt found over)

  -- From a sound state, no sequence of calls changes the row of a run that succeeded, was cancelled,
  -- timed out or was lost: only a failed run can be reopened.
  pub final_run_kept :
      {a b : Db}
      → Calls ceil_fraction cpu memory a b
      → IsSound cpu memory a
      → (run_id : ℕ) (run : Run) → first (is_run run_id) a.runs ≡ some run
      → IsFinal run.status
      → first (is_run run_id) b.runs ≡ some run
  final_run_kept begin h id run found final = found
  final_run_kept (then_call {a = m} {b = b} cs c) h id run found final =
      Steps-induction (λ db. first (is_run id) db.runs ≡ some run)
        (λ x y s keep. Step-final id run x y s final keep) (Call-Steps m b c (Calls-IsSound cs h))
        (final_run_kept cs h id run found final)
