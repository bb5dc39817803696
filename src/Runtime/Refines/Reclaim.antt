-- ===== src/Runtime/Refines/Reclaim.antt =====
-- _may_resume and reclaim_expired_attempts as steps.
use chip_evolve.Base.{
  ℕ, ◌≡◌, refl, inl, inr, Bool, true, false, some, List, [], ◌∷◌, ==_iff, arith, first, first_holds,
  All-first, Bool-cases, Option-cases, le_count,
}
use mathlib.Core.Option
use chip_evolve.Contracts.Status.{lost}
use chip_evolve.Runtime.State.{Run, Stage, Attempt, Db}
use chip_evolve.Runtime.Result.{Result, ok, err, is_invalid_transition}
use chip_evolve.Runtime.Runs.{is_run, is_stage, is_stage_of}
use chip_evolve.Runtime.Retry.{resume_reason, attempts_made, resumed, try_resume, may_resume}
use chip_evolve.Runtime.Reclaim.{
  is_reclaimable, lose_attempt, lose_row, Sweep, one_reclaimable, sweep_row, sweep, expired_rows,
  settled, settle_resumed, settle_run, and_then, settle_runs, with_ids, reclaim_expired_attempts,
}
use chip_evolve.Runtime.Step.{Steps, here, settle, Steps-one, Steps-trans}
use chip_evolve.Runtime.Sync.{IsLinked, IsInSync}
use chip_evolve.Runtime.Refines.Runs.{transition_run-Steps}
use chip_evolve.Runtime.Refines.Retry.{Belongs, schedule_retry-Steps, keeps-IsInSync}

module _ (cpu memory : ℕ) where
  resumed-db : (r : Result (Unit {0}) × Db) → (resumed r).1 ≡ r.1
  resumed-db (ok u, db) = refl
  resumed-db (err e, db) = elim (Bool-cases (is_invalid_transition e)) [
    | inl t ↦ rw t
    | inr f ↦ rw f
  ]

  try_resume-Steps :
      (run_id : ℕ) (run : Run) (stage : Stage) (db : Db)
      → Belongs run_id stage.stage_run_id db
      → Steps cpu memory db (try_resume run_id run stage db).1
  unfolding try_resume
  try_resume-Steps run_id run stage db mine = elim (Bool-cases stage.resumable) [
    | inr fixed ↦ rw fixed (here db)
    | inl can ↦
        elim (Bool-cases
          (le_count run.task_spec.max_attempts (attempts_made stage.stage_run_id db.attempts))) [
            | inl spent ↦ rw (can, spent) (here db)
            | inr room ↦
                rw (can, room)
                  (rw resumed-db (
                    schedule_retry-Steps cpu memory run_id stage.stage_run_id resume_reason db
                      mine))
          ]
  ]

  own_stage :
      (run_id : ℕ) (db : Db) (stage : Stage)
      → IsInSync db
      → first (is_stage_of run_id) db.stages ≡ some stage
      → Belongs run_id stage.stage_run_id db
  own_stage run_id db stage h found s fs =
      let l : IsLinked db.runs db.stages stage =
        All-first (IsLinked db.runs db.stages) (is_stage_of run_id) db.stages h found in
      let own : stage.run_id ≡ run_id =
        (==_iff stage.run_id run_id).0 (first_holds (is_stage_of run_id) db.stages found) in
      let owner : Option.map (λ t. t.run_id) (first (is_stage stage.stage_run_id) db.stages)
          ≡ some stage.run_id =
        l.owner in
      ground arith

  pub may_resume-Steps :
      (run_id : ℕ) (db : Db) → IsInSync db → Steps cpu memory db (may_resume run_id db).1
  unfolding may_resume
  may_resume-Steps run_id db h = elim (Option-cases (first (is_run run_id) db.runs)) [
    | inl absent ↦ rw (absent, may_resume) (here db)
    | inr (run, fr) ↦ elim (Option-cases (first (is_stage_of run_id) db.stages)) [
      | inl absent ↦ rw (fr, absent, may_resume) (here db)
      | inr (stage, fs) ↦
          rw (fr, fs, may_resume)
            (try_resume-Steps run_id run stage db (own_stage run_id db stage h fs))
    ]
  ]

  settled-db : (r : Result (Unit {0}) × Db) → (settled r).1 ≡ r.1
  settled-db (ok u, db) = refl
  settled-db (err e, db) = elim (Bool-cases (is_invalid_transition e)) [
    | inl t ↦ rw t
    | inr f ↦ rw f
  ]

  settle_resumed-Steps :
      (run_id now : ℕ) (db : Db) (r : Result Bool × Db)
      → Steps cpu memory db r.1
      → Steps cpu memory db (settle_resumed run_id now r).1
  settle_resumed-Steps run_id now db (ok true, after) s = s
  settle_resumed-Steps run_id now db (ok false, after) s =
      rw settled-db (
        Steps-trans s
          (transition_run-Steps cpu memory run_id lost (some "lease_expired") now after))
  settle_resumed-Steps run_id now db (err e, after) s = s

  settle_run-Steps :
      (now run_id : ℕ) (db : Db) → IsInSync db → Steps cpu memory db (settle_run now run_id db).1
  unfolding settle_run
  settle_run-Steps now run_id db h =
      settle_resumed-Steps run_id now db (may_resume run_id db) (may_resume-Steps run_id db h)

  and_then-Steps :
      (db : Db) (r : Result (Unit {0}) × Db) (k : Db → Result (Unit {0}) × Db)
      → Steps cpu memory db r.1
      → ((after : Db) → IsInSync after → Steps cpu memory after (k after).1)
      → IsInSync db
      → Steps cpu memory db (and_then r k).1
  and_then-Steps db (ok u, after) k s rest h =
      Steps-trans s (rest after (keeps-IsInSync cpu memory s h))
  and_then-Steps db (err e, after) k s rest h = s

  settle_runs-Steps :
      (now : ℕ) (run_ids : List ℕ) (db : Db)
      → IsInSync db
      → Steps cpu memory db (settle_runs now run_ids db).1
  unfolding settle_runs
  settle_runs-Steps now [] db h = here db
  settle_runs-Steps now (id ∷ rest) db h =
      and_then-Steps db (settle_run now id db) (settle_runs now rest) (settle_run-Steps now id db h)
        (λ after h'. settle_runs-Steps now rest after h') h

  lose_row-Steps : (id reference : ℕ) (db : Db) → Steps cpu memory db (lose_row id reference db)
  unfolding lose_row
  lose_row-Steps id reference db = Steps-one (
      settle db (is_reclaimable id reference) (lose_attempt reference) id (λ a e. ground arith)
        (λ a found e. inl (ground arith))
        (record { attempt_id = λ a. refl; stage_run_id = λ a. refl; number = λ a. refl })
        (λ a. record { done = ground arith; unleased = refl; dated = refl }))

  module _ (fenced : Attempt → Bool) where
    sweep_row-Steps :
        (reference : ℕ) (a : Attempt) (run_id : ℕ) (s : Sweep)
        → Steps cpu memory s.db (sweep_row fenced reference a run_id s).db
    unfolding sweep_row
    sweep_row-Steps reference a run_id s = elim (Bool-cases (fenced a)) [
      | inr alive ↦ rw alive (here s.db)
      | inl gone ↦ elim (Bool-cases (one_reclaimable a.attempt_id reference s.db.attempts)) [
        | inl one ↦ rw (gone, one) (lose_row-Steps a.attempt_id reference s.db)
        | inr other ↦ rw (gone, other) (here s.db)
      ]
    ]

    sweep-Steps :
        (reference : ℕ) (rows : List (Attempt × ℕ)) (s : Sweep)
        → Steps cpu memory s.db (sweep fenced reference rows s).db
    unfolding sweep
    sweep-Steps reference [] s = here s.db
    sweep-Steps reference ((a, run_id) ∷ rows) s =
        Steps-trans (sweep_row-Steps reference a run_id s)
          (sweep-Steps reference rows (sweep_row fenced reference a run_id s))

    with_ids-db : (ids : List ℕ) (r : Result (Unit {0}) × Db) → (with_ids ids r).1 ≡ r.1
    with_ids-db ids (ok u, db) = refl
    with_ids-db ids (err e, db) = refl

    pub reclaim-Steps :
        (reference now : ℕ) (db : Db)
        → IsInSync db
        → Steps cpu memory db (reclaim_expired_attempts fenced reference now db).1
    unfolding reclaim_expired_attempts
    reclaim-Steps reference now db h =
        let rows = expired_rows reference db.stages db.attempts in
        let start : Sweep = record { db = db; ids = []; run_ids = [] } in
        let s = sweep fenced reference rows start in
        let swept = sweep-Steps reference rows start in
        rw with_ids-db (
          Steps-trans swept
            (settle_runs-Steps now s.run_ids s.db (keeps-IsInSync cpu memory swept h)))
