-- ===== src/Runtime/Calls/Polling.antt =====
-- What a worker is offered by runnable_runs of core/runtime/src/openroad_platform_runtime/store.py.
use chip_evolve.Base.{
  ℕ, ◌≡◌, sym, ap, ◌∙◌, ◌↔◌, inl, inr, true, ◌&&◌, some, [], ◌∷◌, ==_iff, arith, first, first_holds,
  some_row, some_row-first, All-first, All-some_row, Option-cases,
}
use chip_evolve.Contracts.Status.{queued, retry_wait, contains}
use chip_evolve.Runtime.State.{Run, Stage, Db, empty}
use chip_evolve.Runtime.Runs.{is_run, is_stage_of}
use chip_evolve.Runtime.Queries.{is_runnable, is_claimable}
use chip_evolve.Runtime.Sync.{IsLinked, found_same, found_id}
use chip_evolve.Runtime.Lifecycle.{HasStage}
use chip_evolve.Runtime.Calls.{Calls, IsSound}
use chip_evolve.Runtime.Calls.Guarantees.{sound}

module _ {cpu memory : ℕ} (db : Db) (h : IsSound cpu memory db) (run_id : ℕ) (run : Run) where
  stage_status :
      (s : Stage)
      → first (is_run run_id) db.runs ≡ some run
      → IsLinked db.runs db.stages s
      → is_stage_of run.run_id s ≡ true
      → s.status ≡ run.status
  stage_status s found l e =
      let own : run.run_id ≡ run_id = found_id db.runs run_id found in
      let same : s.run_id ≡ run.run_id = (==_iff s.run_id run.run_id).0 e in
      sym l.agrees
      ∙ ap (λ r. r.status) (found_same db.runs s.run_id run_id l.found found (same ∙ own))

  runnable_waits :
      first (is_run run_id) db.runs ≡ some run
      → is_runnable db run ≡ true
      → contains (queued ∷ retry_wait ∷ []) run.status ≡ true
  unfolding is_runnable
  runnable_waits found e =
      let (s, l, hit) =
        All-some_row (IsLinked db.runs db.stages) (λ t. is_stage_of run.run_id t && is_claimable t)
          db.stages h.in_sync (ground arith) in
      let status : s.status ≡ run.status = stage_status s found l (ground arith) in ground arith

  waits_runnable :
      first (is_run run_id) db.runs ≡ some run
      → contains (queued ∷ retry_wait ∷ []) run.status ≡ true
      → is_runnable db run ≡ true
  unfolding is_runnable
  waits_runnable found e =
      let (sid, staged) = All-first (HasStage db.stages) (is_run run_id) db.runs h.staged found in
      elim (Option-cases (first (is_stage_of run.run_id) db.stages)) [
        | inl absent ↦ absurd (ground arith)
        | inr (s, there) ↦
            let l : IsLinked db.runs db.stages s =
              All-first (IsLinked db.runs db.stages) (is_stage_of run.run_id) db.stages h.in_sync
                there in
            let status : s.status ≡ run.status =
              stage_status s found l (first_holds (is_stage_of run.run_id) db.stages there) in
            let row : some_row (λ t. is_stage_of run.run_id t && is_claimable t) db.stages ≡ true =
              some_row-first (is_stage_of run.run_id) is_claimable db.stages there (rw status e) in
            rw row (ground arith)
      ]

module _ {ceil_fraction : ℕ → ℕ} {cpu memory : ℕ} where
  -- In every reachable state a worker is offered a run exactly when the run waits for an attempt:
  -- its status is queued or retry_wait.
  pub runnable_iff :
      {db : Db}
      → Calls ceil_fraction cpu memory empty db
      → (run_id : ℕ) (run : Run) → first (is_run run_id) db.runs ≡ some run
      → (is_runnable db run ≡ true) ↔ (contains (queued ∷ retry_wait ∷ []) run.status ≡ true)
  runnable_iff {db} cs id run found =
      (runnable_waits db (sound cs) id run found, waits_runnable db (sound cs) id run found)
