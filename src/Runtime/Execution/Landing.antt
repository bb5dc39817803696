-- ===== src/Runtime/Execution/Landing.antt =====
-- What the calls that end an execution change: transition_run, schedule_retry and finish_attempt of
-- core/runtime/src/openroad_platform_runtime/store.py, whether they return or raise.
use chip_evolve.Base.{
  ℕ, ◌≡◌, ◌≢◌, refl, sym, ap, ◌∙◌, ◌⊎◌, inl, inr, true, false, Bool-cases, Option-cases, Option,
  some, List, String, arith, first, first-update_where, update_where, All, All-first, first_holds,
}
use chip_evolve.Contracts.Status.{
  RuntimeStatus, running, retry_wait, same, AttemptStatus, attempt_transition_allowed,
  run_transition_allowed,
}
use chip_evolve.Contracts.Status.Laws.{same_iff}
use chip_evolve.Runtime.State.{Run, Attempt, Failure, Usage, Db}
use chip_evolve.Runtime.Result.{
  StoreError, invalid_transition, unknown_run, Result, ok, err, Result-cases, ok_inj, guard-ok,
  required-ok, unknown_stage,
}
use chip_evolve.Runtime.Runs.{is_stage, is_run, transition_run, transition_body, move_run}
use chip_evolve.Runtime.Attempts.{is_attempt}
use chip_evolve.Runtime.Leases.{finish_attempt, finish_body, ended}
use chip_evolve.Runtime.Retry.{schedule_retry, retry_body, wait_run}
use chip_evolve.Runtime.Evidence.{IsOver, IsAccounted}

-- The run, if it is there, is not running.
abbrev pub IsStopped : ℕ → Db → Type 0
IsStopped run_id db =
    (run : Run) → first (is_run run_id) db.runs ≡ some run → same run.status running ≡ false

-- The attempt is there and over.
abbrev pub IsEnded : ℕ → Db → Type 0
IsEnded attempt_id db =
    (a : Attempt) × (first (is_attempt attempt_id) db.attempts ≡ some a) × IsOver a

pub err_inj {ℓ} : {A : Type ℓ} {x y : StoreError} → ◌≡◌ {A = Result A} (err x) (err y) → x ≡ y
err_inj h = cc

pub some_inj {ℓ} : {A : Type ℓ} {x y : A} → some x ≡ some y → x ≡ y
some_inj h = cc

updated_run :
    (run_id : ℕ) (f : Run → Run) (runs : List Run) (run : Run)
    → ((r : Run) → is_run run_id (f r) ≡ is_run run_id r)
    → first (is_run run_id) runs ≡ some run
    → first (is_run run_id) (update_where (is_run run_id) f runs) ≡ some (f run)
updated_run run_id f runs run keeps there =
    first-update_where (is_run run_id) (is_run run_id) f runs keeps
    ∙ rw (there, first_holds (is_run run_id) runs there)

abbrev pub IsEnd : AttemptStatus → Type 0
IsEnd s = (s ≢ AttemptStatus.running) × (s ≢ AttemptStatus.pending)

-- A transition changes nothing, or leaves the run in the target status.
pub transition_lands :
    (run_id : ℕ) (target : RuntimeStatus) (reason : Option String) (now : ℕ) (db : Db)
    → ((e : StoreError) × (transition_run run_id target reason now db ≡ (err e, db))
        × ((run : Run)
            → first (is_run run_id) db.runs ≡ some run
            → run_transition_allowed run.status target ≡ false))
      ⊎ (((transition_run run_id target reason now db).0 ≡ ok tt)
          × ((transition_run run_id target reason now db).1.attempts ≡ db.attempts)
          × ((run : Run)
              → first (is_run run_id) (transition_run run_id target reason now db).1.runs ≡ some run
              → run.status ≡ target))
unfolding transition_run transition_body
transition_lands run_id target reason now db = elim (Option-cases (first (is_run run_id) db.runs)) [
  | inl lost ↦ inl (unknown_run, rw lost, λ run there. absurd (let e = rw lost at there in cc))
  | inr (run, there) ↦ elim (Bool-cases (same run.status target)) [
    | inl already ↦ inr (
      rw (there, already),
      rw (there, already),
      λ r found.
          let same_run : run ≡ r = some_inj (sym there ∙ rw (there, already) at found) in
          rw (← same_run) ((same_iff run.status target).0 already),
    )
    | inr other ↦ elim (Bool-cases (run_transition_allowed run.status target)) [
      | inl allowed ↦ inr (
        rw (there, other, allowed),
        rw (there, other, allowed),
        λ r found.
            let is_moved : some (move_run target reason now run) ≡ some r =
              sym (
                updated_run run_id (move_run target reason now) db.runs run
                  (λ x. unfold move_run in refl) there)
              ∙ rw (there, other, allowed) at found in
            rw (← some_inj is_moved) (unfold move_run in refl),
      )
      | inr refused ↦ inl (
        invalid_transition,
        rw (there, other, refused),
        λ r found. rw (← some_inj (sym there ∙ found)) refused,
      )
    ]
  ]
]

retried :
    (run_id stage_run_id : ℕ) (reason : String) (db after : Db)
    → retry_body run_id stage_run_id reason db ≡ ok (tt, after)
    → (after.attempts ≡ db.attempts)
      × ((run : Run) → first (is_run run_id) after.runs ≡ some run → run.status ≡ retry_wait)
unfolding retry_body
retried run_id stage_run_id reason db after h =
    let (stage, here, one) =
      required-ok unknown_stage (first (is_stage stage_run_id) db.stages) _ h in
    let (runs, two) = guard-ok (same stage.status running) invalid_transition _ one in
    let (run, there, three) = required-ok unknown_run (first (is_run run_id) db.runs) _ two in
    let (allowed, made) =
      guard-ok (run_transition_allowed run.status retry_wait) invalid_transition _ three in
    let waits : first (is_run run_id) (update_where (is_run run_id) (wait_run reason) db.runs)
        ≡ some (wait_run reason run) =
      updated_run run_id (wait_run reason) db.runs run (λ x. refl) there in
    let runs_are : update_where (is_run run_id) (wait_run reason) db.runs ≡ after.runs =
      ap (λ (x : (Unit {0}) × Db). x.1.runs) (ok_inj made) in
    (
      ap (λ (x : (Unit {0}) × Db). x.1.attempts) (sym (ok_inj made)),
      λ r found.
          let is_waiting : wait_run reason run ≡ r =
            some_inj (sym waits ∙ rw (← runs_are) at found) in
          ap (λ (x : Run). x.status) (sym is_waiting),
    )

-- Likewise of the return to retry_wait.
pub retry_lands :
    (run_id stage_run_id : ℕ) (reason : String) (db : Db)
    → ((e : StoreError) × (schedule_retry run_id stage_run_id reason db ≡ (err e, db)))
      ⊎ (((schedule_retry run_id stage_run_id reason db).0 ≡ ok tt)
          × ((schedule_retry run_id stage_run_id reason db).1.attempts ≡ db.attempts)
          × ((run : Run)
              → first (is_run run_id) (schedule_retry run_id stage_run_id reason db).1.runs
                ≡ some run
              → run.status ≡ retry_wait))
unfolding schedule_retry
retry_lands run_id stage_run_id reason db =
    elim (Result-cases (retry_body run_id stage_run_id reason db)) [
      | inr (e, raised) ↦ inl (e, rw raised)
      | inl ((u, after), done) ↦
          let (attempts_are, waits) = retried run_id stage_run_id reason db after done in
          inr (rw done, rw done attempts_are, λ r found. waits r (rw done at found))
    ]

settled-IsOver :
    (a : Attempt) (status : AttemptStatus)
    → attempt_transition_allowed AttemptStatus.running status ≡ true
    → attempt_transition_allowed a.status status ≡ false
    → IsAccounted a
    → IsOver a
settled-IsOver a status may refused (inl leased) =
    absurd (let e = rw leased.running at refused in ground (arith, may, e))
settled-IsOver a status may refused (inr settled) = settled.done

-- Whether it is allowed to or not, a finished attempt is over; and only the transition can be refused.
pub finish_ends :
    (id : ℕ) (status : AttemptStatus) (failure : Option Failure) (usage : Usage) (now : ℕ) (db : Db)
    (a : Attempt)
    → All IsAccounted db.attempts
    → first (is_attempt id) db.attempts ≡ some a
    → attempt_transition_allowed AttemptStatus.running status ≡ true
    → (status ≢ AttemptStatus.running) × (status ≢ AttemptStatus.pending)
    → IsEnded id (finish_attempt id status failure usage now db).1
      × (((finish_attempt id status failure usage now db).0 ≡ ok tt)
          ⊎ ((finish_attempt id status failure usage now db).0 ≡ err invalid_transition))
unfolding finish_attempt finish_body
finish_ends id status failure usage now db a accounted there may over =
    elim (Bool-cases (attempt_transition_allowed a.status status)) [
      | inl allowed ↦
          let is_ended : first (is_attempt id)
                (update_where (is_attempt id) (ended status failure usage now) db.attempts)
              ≡ some (ended status failure usage now a) =
            first-update_where (is_attempt id) (is_attempt id) (ended status failure usage now)
              db.attempts (λ x. refl)
            ∙ rw (there, first_holds (is_attempt id) db.attempts there) in
          rw (there, allowed) ((ended status failure usage now a, is_ended, over), inl refl)
      | inr refused ↦
          rw (there, refused)
            (
              (
                a,
                there,
                settled-IsOver a status may refused
                    (All-first IsAccounted (is_attempt id) db.attempts accounted there),
              ),
              inr refl,
            )
    ]
