-- ===== src/Runtime/Sync/Preserved.antt =====
-- Every step of the store of core/runtime/src/openroad_platform_runtime/store.py keeps runs and
-- stages in agreement.
use chip_evolve.Base.{
  ℕ, ◌++◌, ◌≡◌, refl, inl, inr, none, some, List, [], ◌∷◌, ==_iff, ==_refl, arith, first, All,
  Option-cases, All-append, All-map, All-first, first-append, first_holds, column-append,
}
use chip_evolve.Contracts.Status.{running, retry_wait}
use chip_evolve.Contracts.Status.Laws.{allowed_retry_wait}
use chip_evolve.Runtime.State.{Run, Stage, Db}
use chip_evolve.Runtime.Runs.{is_run, is_stage, is_stage_of}
use chip_evolve.Runtime.Attempts.{run_stage, run_run, is_claimable_run}
use chip_evolve.Runtime.Retry.{wait_stage, wait_run}
use chip_evolve.Runtime.Step.{
  Step, submit, move, claim, renew, settle, retry, reopen, release, log, keeps_run,
}
use chip_evolve.Runtime.Sync.{IsLinked, IsInSync, move-IsInSync, one_stage-IsInSync}

-- A run that is not there has no stage.
no_stage :
    (runs : List Run) (stages : List Stage) (i : ℕ)
    → All (IsLinked runs stages) stages
    → first (is_run i) runs ≡ none
    → first (is_stage_of i) stages ≡ none
no_stage runs stages i h absent = elim (Option-cases (first (is_stage_of i) stages)) [
  | inl e ↦ e
  | inr (t, e) ↦
      let l : IsLinked runs stages t =
        All-first (IsLinked runs stages) (is_stage_of i) stages h e in
      let same : t.run_id ≡ i = (==_iff t.run_id i).0 (first_holds (is_stage_of i) stages e) in
      let found : first (is_run i) runs ≡ some l.run = rw (← same) l.found in absurd (cc)
]

submit-IsInSync :
    (db : Db) (run : Run) (stage : Stage)
    → first (is_run run.run_id) db.runs ≡ none
    → first (is_stage stage.stage_run_id) db.stages ≡ none
    → stage.run_id ≡ run.run_id
    → run.status ≡ stage.status
    → IsInSync db
    → IsInSync (record db { runs = db.runs ++ run ∷ []; stages = db.stages ++ stage ∷ [] })
submit-IsInSync db run stage no_run fresh owner status h =
    All-append (IsLinked (db.runs ++ run ∷ []) (db.stages ++ stage ∷ [])) db.stages (stage ∷ [])
      (All-map (IsLinked db.runs db.stages)
        (IsLinked (db.runs ++ run ∷ []) (db.stages ++ stage ∷ [])) db.stages
        (λ s l. record {
          run = l.run;
          found = rw (first-append, l.found);
          agrees = l.agrees;
          only =
              column-append (λ u. u.stage_run_id) (is_stage_of s.run_id) db.stages (stage ∷ [])
                l.only;
          owner =
              column-append (λ u. u.run_id) (is_stage s.stage_run_id) db.stages (stage ∷ [])
                l.owner;
        })
        h)
      (
        record {
          run = run;
          found = rw owner (rw (first-append, no_run) (unfold first in rw ==_refl));
          agrees = status;
          only =
              rw (first-append, no_stage db.runs db.stages stage.run_id h (rw owner no_run))
                (unfold first in rw ==_refl);
          owner = rw (first-append, fresh) (unfold first in rw ==_refl);
        },
        tt,
      )

-- Every step keeps each stage in the state of its run, and one stage to a run.
pub Step-IsInSync : {cpu memory : ℕ} (a b : Db) → Step cpu memory a b → IsInSync a → IsInSync b
Step-IsInSync _ _ (submit db run stage no_run fresh owner queued_run queued_stage free) h =
    submit-IsInSync db run stage no_run fresh owner (cc) h
Step-IsInSync _ _ (move db f run target found allowed kr moved) h =
    move-IsInSync db f run target found allowed kr moved h
Step-IsInSync _ _ (claim db stage a rows now found ready fresh of number leased grants) h =
    one_stage-IsInSync db (is_claimable_run stage.run_id) (run_run now) (run_stage now) stage
      running
      (All-first (IsLinked db.runs db.stages) (is_stage stage.stage_run_id) db.stages h found)
      (keeps_run (run_run now) λ r. (refl, refl, refl))
      (record { stage_run_id = λ s. refl; run_id = λ s. refl }) (λ r. refl) (λ s. refl)
      (λ r e st. ground arith) (λ r e. ground arith) h
Step-IsInSync _ _ (renew db p f runs kf keeps lease) h = h
Step-IsInSync _ _ (settle db p f id ids live kf done) h = h
Step-IsInSync _ _ (retry db run stage reason found runs found_run allowed owner) h =
    let status : run.status ≡ running = allowed_retry_wait run.status allowed in
    one_stage-IsInSync db (is_run run.run_id) (wait_run reason) wait_stage stage retry_wait
      (All-first (IsLinked db.runs db.stages) (is_stage stage.stage_run_id) db.stages h found)
      (keeps_run (wait_run reason) λ r. (refl, refl, refl))
      (record { stage_run_id = λ s. refl; run_id = λ s. refl }) (λ r. refl) (λ s. refl)
      (λ r e st. ground arith) (λ r e. ground arith) h
Step-IsInSync _ _ (reopen db run stage a reason found is_failed found_stage latest again room) h =
    let owner : stage.run_id ≡ run.run_id =
      (==_iff stage.run_id run.run_id).0
        (first_holds (is_stage_of run.run_id) db.stages found_stage) in
    one_stage-IsInSync db (is_run run.run_id) (wait_run reason) wait_stage stage retry_wait
      (All-first (IsLinked db.runs db.stages) (is_stage_of run.run_id) db.stages h found_stage)
      (keeps_run (wait_run reason) λ r. (refl, refl, refl))
      (record { stage_run_id = λ s. refl; run_id = λ s. refl }) (λ r. refl) (λ s. refl)
      (λ r e st. ground arith) (λ r e. ground arith) h
Step-IsInSync _ _ (release db id) h = h
Step-IsInSync _ _ (log db event) h = h
