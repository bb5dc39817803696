-- ===== src/Runtime/Queries.antt =====
-- What a worker polls: runnable_runs and abandoned_cancellations of RuntimeStore in
-- core/runtime/src/openroad_platform_runtime/store.py.
use chip_evolve.Base.{
  ℕ, zero, suc, Bool, ◌&&◌, not, List, [], ◌∷◌, map, leb, ◌==◌, if◌then◌else◌, select, some_row,
}
use chip_evolve.Contracts.Status.{
  queued, preparing, running, retry_wait, cancel_requested, contains, same,
}
use chip_evolve.Runtime.State.{Run, Stage, Db}
use chip_evolve.Runtime.Result.{Result, ok, bad_limit, ◌>>◌, guard}
use chip_evolve.Runtime.Runs.{is_stage_of}
use chip_evolve.Runtime.Attempts.{is_running}

abbrev pub take {ℓ} : {A : Type ℓ} → ℕ → List A → List A
take zero xs = []
take (suc n) [] = []
take (suc n) (x ∷ xs) = x ∷ take n xs

abbrev pub drop {ℓ} : {A : Type ℓ} → ℕ → List A → List A
drop zero xs = xs
drop (suc n) [] = []
drop (suc n) (x ∷ xs) = drop n xs

-- ORDER BY created_at, by insertion: rows of one time keep their order.
insert_by_age : Run → List Run → List Run
insert_by_age r [] = r ∷ []
insert_by_age r (x ∷ xs) =
    let rest = insert_by_age r xs in if leb r.created_at x.created_at then r ∷ x ∷ xs else x ∷ rest

unfoldable pub by_age : List Run → List Run
unfolding insert_by_age
by_age [] = []
by_age (r ∷ rs) = insert_by_age r (by_age rs)

abbrev pub is_claimable : Stage → Bool
is_claimable s = contains (queued ∷ retry_wait ∷ []) s.status

-- The WHERE clause of runnable_runs, of a run.
unfoldable pub is_runnable : Db → Run → Bool
is_runnable db r =
    contains (queued ∷ preparing ∷ running ∷ retry_wait ∷ []) r.status
    && some_row (λ s. is_stage_of r.run_id s && is_claimable s) db.stages

unfoldable pub runnable_runs : ℕ → ℕ → Db → Result (List ℕ)
runnable_runs limit offset db = do
  guard (leb 1 limit && leb limit 1000) bad_limit
  ok (map (λ r. r.run_id) (take limit (drop offset (by_age (select (is_runnable db) db.runs)))))

-- A stage of the run has an attempt that is running.
unfoldable pub has_running_attempt : Db → ℕ → Bool
has_running_attempt db run_id =
    some_row
      (λ a.
        is_running a
        && some_row (λ s. is_stage_of run_id s && s.stage_run_id == a.stage_run_id) db.stages)
      db.attempts

unfoldable pub abandoned_cancellations : ℕ → Db → Result (List ℕ)
abandoned_cancellations limit db = do
  guard (leb 1 limit && leb limit 1000) bad_limit
  ok (
      select (λ id. not (has_running_attempt db id))
        (map (λ r. r.run_id)
          (take limit (by_age (select (λ r. same r.status cancel_requested) db.runs)))))
