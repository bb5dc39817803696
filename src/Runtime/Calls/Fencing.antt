-- ===== src/Runtime/Calls/Fencing.antt =====
-- reclaim_expired_attempts of core/runtime/src/openroad_platform_runtime/store.py and the processes that
-- still run.
use mathlib.Core.Option
use chip_evolve.Base.{
  ℕ, ◌≡◌, refl, ap, ◌∙◌, inl, inr, Bool, true, false, Option, none, some, List, [], ◌∷◌, ◌==◌,
  arith, first, first_holds, first-update_where, first-delete_where, if◌then◌else◌, Bool-cases,
  Option-cases, String, le_count,
}
use chip_evolve.Contracts.Status.{RuntimeStatus, lost}
use chip_evolve.Runtime.State.{Run, Stage, Attempt, Db}
use chip_evolve.Runtime.Result.{Result, ok, err, commit, is_invalid_transition}
use chip_evolve.Runtime.Runs.{is_run, is_stage_of, transition_run, transition_body}
use chip_evolve.Runtime.Attempts.{is_attempt, held_by}
use chip_evolve.Runtime.Retry.{
  schedule_retry, retry_body, may_resume, try_resume, resumed, resume_reason, attempts_made,
}
use chip_evolve.Runtime.Reclaim.{
  is_reclaimable, lose_attempt, lose_row, Sweep, sweep_row, sweep, one_reclaimable, settle_run,
  settle_runs, settle_resumed, settled, and_then, with_ids, expired_rows, reclaim_expired_attempts,
}

-- A state with the same attempts and reservations.
abbrev Holds : Db → Db → Type 0
Holds a b = (b.attempts ≡ a.attempts) × (b.reservations ≡ a.reservations)

Holds-trans : (a b c : Db) → Holds a b → Holds b c → Holds a c
Holds-trans a b c h k = (k.0 ∙ h.0, k.1 ∙ h.1)

commit-Holds {ℓ} :
    {A : Type ℓ} (db : Db) (r : Result (A × Db))
    → ((out : A × Db) → r ≡ ok out → Holds db out.1)
    → Holds db (commit db r).1
commit-Holds db (ok (x, after)) h = h (x, after) refl
commit-Holds db (err e) h = (refl, refl)

transition_body-Holds :
    (run_id : ℕ) (target : RuntimeStatus) (reason : Option String) (now : ℕ) (db : Db)
    (out : (Unit {0}) × Db)
    → transition_body run_id target reason now db ≡ ok out
    → Holds db out.1
unfolding transition_body
transition_body-Holds run_id target reason now db out e = ground arith

retry_body-Holds :
    (run_id stage_run_id : ℕ) (reason : String) (db : Db) (out : (Unit {0}) × Db)
    → retry_body run_id stage_run_id reason db ≡ ok out
    → Holds db out.1
unfolding retry_body
retry_body-Holds run_id stage_run_id reason db out e = ground arith

transition_run-Holds :
    (run_id : ℕ) (target : RuntimeStatus) (reason : Option String) (now : ℕ) (db : Db)
    → Holds db (transition_run run_id target reason now db).1
unfolding transition_run
transition_run-Holds run_id target reason now db =
    commit-Holds db (transition_body run_id target reason now db)
      (transition_body-Holds run_id target reason now db)

schedule_retry-Holds :
    (run_id stage_run_id : ℕ) (reason : String) (db : Db)
    → Holds db (schedule_retry run_id stage_run_id reason db).1
unfolding schedule_retry
schedule_retry-Holds run_id stage_run_id reason db =
    commit-Holds db (retry_body run_id stage_run_id reason db)
      (retry_body-Holds run_id stage_run_id reason db)

resumed-Holds : (db : Db) (out : Result (Unit {0}) × Db) → Holds db out.1 → Holds db (resumed out).1
resumed-Holds db (ok u, after) h = h
resumed-Holds db (err e, after) h = elim (Bool-cases (is_invalid_transition e)) [
  | inl late ↦ rw late h
  | inr other ↦ rw other h
]

try_resume-Holds :
    (run_id : ℕ) (run : Run) (stage : Stage) (db : Db) → Holds db (try_resume run_id run stage db).1
unfolding try_resume
try_resume-Holds run_id run stage db =
    let made = attempts_made stage.stage_run_id db.attempts in
    elim (Bool-cases stage.resumable) [
      | inr fixed ↦ rw fixed (refl, refl)
      | inl open_ended ↦ elim (Bool-cases (le_count run.task_spec.max_attempts made)) [
        | inl spent ↦ rw open_ended (rw spent (refl, refl))
        | inr room ↦ rw open_ended (
            rw room (
              resumed-Holds db (schedule_retry run_id stage.stage_run_id resume_reason db)
                (schedule_retry-Holds run_id stage.stage_run_id resume_reason db)))
      ]
    ]

may_resume-Holds : (run_id : ℕ) (db : Db) → Holds db (may_resume run_id db).1
unfolding may_resume
may_resume-Holds run_id db = elim (Option-cases (first (is_run run_id) db.runs)) [
  | inl absent ↦ rw (absent, may_resume) (refl, refl)
  | inr (run, found) ↦ elim (Option-cases (first (is_stage_of run_id) db.stages)) [
    | inl bare ↦ rw (found, may_resume) (rw (bare, may_resume) (refl, refl))
    | inr (stage, there) ↦
        rw (found, may_resume) (rw (there, may_resume) (try_resume-Holds run_id run stage db))
  ]
]

settled-Holds : (db : Db) (out : Result (Unit {0}) × Db) → Holds db out.1 → Holds db (settled out).1
settled-Holds db (ok u, after) h = h
settled-Holds db (err e, after) h = elim (Bool-cases (is_invalid_transition e)) [
  | inl late ↦ rw late h
  | inr other ↦ rw other h
]

settle_resumed-Holds :
    (db : Db) (run_id now : ℕ) (out : Result Bool × Db)
    → Holds db out.1
    → Holds db (settle_resumed run_id now out).1
settle_resumed-Holds db run_id now (ok true, after) h = h
settle_resumed-Holds db run_id now (ok false, after) h =
    settled-Holds db (transition_run run_id lost (some "lease_expired") now after) (
      Holds-trans db after (transition_run run_id lost (some "lease_expired") now after).1 h
        (transition_run-Holds run_id lost (some "lease_expired") now after))
settle_resumed-Holds db run_id now (err e, after) h = h

and_then-Holds :
    (db : Db) (out : Result (Unit {0}) × Db) (rest : Db → Result (Unit {0}) × Db)
    → Holds db out.1
    → ((d : Db) → Holds d (rest d).1)
    → Holds db (and_then out rest).1
and_then-Holds db (ok u, after) rest h k = Holds-trans db after (rest after).1 h (k after)
and_then-Holds db (err e, after) rest h k = h

settle_runs-Holds : (now : ℕ) (ids : List ℕ) (db : Db) → Holds db (settle_runs now ids db).1
unfolding settle_runs settle_run
settle_runs-Holds now [] db = (refl, refl)
settle_runs-Holds now (id ∷ ids) db =
    and_then-Holds db (settle_resumed id now (may_resume id db)) (settle_runs now ids)
      (settle_resumed-Holds db id now (may_resume id db) (may_resume-Holds id db))
      (λ d. settle_runs-Holds now ids d)

with_ids-state : (ids : List ℕ) (out : Result (Unit {0}) × Db) → (with_ids ids out).1 ≡ out.1
with_ids-state ids (ok u, db) = refl
with_ids-state ids (err e, db) = refl

-- What a sweep leaves of an attempt: its row and its reservation.
abbrev Keeps : ℕ → Db → Db → Type 0
Keeps id a b =
    (first (is_attempt id) b.attempts ≡ first (is_attempt id) a.attempts)
    × (first (held_by id) b.reservations ≡ first (held_by id) a.reservations)

lose_other :
    (id other reference : ℕ) (db : Db)
    → (id == other) ≡ false
    → Keeps id db (lose_row other reference db)
unfolding lose_row
lose_other id other reference db apart = (
  first-update_where (is_attempt id) (is_reclaimable other reference) (lose_attempt reference)
        db.attempts (λ a. refl)
      ∙ same (first (is_attempt id) db.attempts) refl,
  first-delete_where (held_by id) (held_by other) db.reservations (λ r e. ground arith),
)
  where
    same :
        (o : Option Attempt)
        → first (is_attempt id) db.attempts ≡ o
        → Option.map
            (λ x. if is_reclaimable other reference x then lose_attempt reference x else x)
            o
          ≡ o
    same none e = refl
    same (some a) e =
        let own : is_attempt id a ≡ true = first_holds (is_attempt id) db.attempts e in
        let spared : is_reclaimable other reference a ≡ false = ground arith in rw spared refl

module _ (fenced : Attempt → Bool) (id : ℕ)
    (alive : (a : Attempt) → is_attempt id a ≡ true → fenced a ≡ false) where
  sweep_row-Keeps :
      (reference : ℕ) (a : Attempt) (run_id : ℕ) (s : Sweep)
      → Keeps id s.db (sweep_row fenced reference a run_id s).db
  unfolding sweep_row
  sweep_row-Keeps reference a run_id s = elim (Bool-cases (fenced a)) [
    | inr runs ↦ rw runs (refl, refl)
    | inl gone ↦ elim (Bool-cases (one_reclaimable a.attempt_id reference s.db.attempts)) [
      | inr none_lost ↦ rw gone (rw none_lost (refl, refl))
      | inl one ↦
          let other : (id == a.attempt_id) ≡ false = ground (arith, alive a) in
          rw gone (rw one (lose_other id a.attempt_id reference s.db other))
    ]
  ]

  sweep-Keeps :
      (reference : ℕ) (rows : List (Attempt × ℕ)) (s : Sweep)
      → Keeps id s.db (sweep fenced reference rows s).db
  unfolding sweep
  sweep-Keeps reference [] s = (refl, refl)
  sweep-Keeps reference ((a, run_id) ∷ rows) s =
      let (row, held) = sweep_row-Keeps reference a run_id s in
      let (rows_kept, all_held) =
        sweep-Keeps reference rows (sweep_row fenced reference a run_id s) in
      (rows_kept ∙ row, all_held ∙ held)

  -- An attempt whose process is not known to be gone keeps its row and its reservation when expired
  -- leases are reclaimed, whether or not its own lease is over.
  pub unfenced_kept :
      (reference now : ℕ) (db : Db)
      → let after = (reclaim_expired_attempts fenced reference now db).1 in
        (first (is_attempt id) after.attempts ≡ first (is_attempt id) db.attempts)
        × (first (held_by id) after.reservations ≡ first (held_by id) db.reservations)
  unfolding reclaim_expired_attempts
  unfenced_kept reference now db =
      let start : Sweep = record { db = db; ids = []; run_ids = [] } in
      let swept = sweep fenced reference (expired_rows reference db.stages db.attempts) start in
      let (row, held) =
        sweep-Keeps reference (expired_rows reference db.stages db.attempts) start in
      let (attempts, rows) = settle_runs-Holds now swept.run_ids swept.db in
      let last : (reclaim_expired_attempts fenced reference now db).1
          ≡ (settle_runs now swept.run_ids swept.db).1 =
        with_ids-state swept.ids (settle_runs now swept.run_ids swept.db) in
      (
        ap (λ (d : Db). first (is_attempt id) d.attempts) last
            ∙ (ap (first (is_attempt id)) attempts ∙ row),
        ap (λ (d : Db). first (held_by id) d.reservations) last
            ∙ (ap (first (held_by id)) rows ∙ held),
      )
