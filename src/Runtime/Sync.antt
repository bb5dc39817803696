-- ===== src/Runtime/Sync.antt =====
-- Runs and stages of core/runtime/src/openroad_platform_runtime/store.py agree: two operations that
-- move both tables never leave a run and its stage in different states.
pub mod Preserved
use chip_evolve.Base.{
  ℕ, ◌++◌, ◌≡◌, refl, sym, ap, ◌∙◌, ◌≢◌, ◌⊎◌, inl, inr, Bool, true, false, ◌&&◌, not, Option, none,
  some, List, [], ◌∷◌, ◌==◌, ==_iff, if◌then◌else◌, arith, first, update_where, All, or_else,
  Bool-cases, Option-cases, All-append, All-map, All-update_where, All-first, first-update_where,
  first-append, first_holds, column-update_where, column-append,
}
use mathlib.Core.Option
use chip_evolve.Contracts.Status.{
  RuntimeStatus, queued, preparing, running, retry_wait, failed, contains, is_terminal,
  run_transition_allowed,
}
use chip_evolve.Contracts.Status.Laws.{allowed-is_terminal, allowed_retry_wait}
use chip_evolve.Runtime.State.{Run, Stage, Db, empty}
use chip_evolve.Runtime.Runs.{is_run, is_stage, is_stage_of, move_stages}
use chip_evolve.Runtime.Attempts.{run_stage, run_run, is_claimable_run}
use chip_evolve.Runtime.Retry.{wait_stage, wait_run}
use chip_evolve.Runtime.Step.{Step, Steps, KeepsRun, Steps-induction}

-- A stage has a run with its status, it is the only stage of that run, and its id is its own.
pub record IsLinked (runs : List Run) (stages : List Stage) (s : Stage) : Type 0 where
  pub run : Run
  pub found : first (is_run s.run_id) runs ≡ some run
  pub agrees : run.status ≡ s.status
  pub only :
      Option.map (λ t. t.stage_run_id) (first (is_stage_of s.run_id) stages) ≡ some s.stage_run_id
  pub owner : Option.map (λ t. t.run_id) (first (is_stage s.stage_run_id) stages) ≡ some s.run_id

abbrev pub IsInSync : Db → Type 0
IsInSync db = All (IsLinked db.runs db.stages) db.stages

-- What an update of a stage leaves alone.
pub record KeepsStage (f : Stage → Stage) : Type 0 where
  pub stage_run_id : (s : Stage) → (f s).stage_run_id ≡ s.stage_run_id
  pub run_id : (s : Stage) → (f s).run_id ≡ s.run_id

module _ (pr : Run → Bool) (fr : Run → Run) (ps : Stage → Bool) (fs : Stage → Stage) where
  abbrev new_run : Run → Run
  new_run r = if pr r then fr r else r

  abbrev new_stage : Stage → Stage
  new_stage s = if ps s then fs s else s

  -- An update of both tables keeps the link of a stage if it keeps the statuses together.
  IsLinked-row :
      (runs : List Run) (stages : List Stage)
      → KeepsRun fr
      → KeepsStage fs
      → (s t : Stage) → (t.run_id ≡ s.run_id)
      → (t.stage_run_id ≡ s.stage_run_id)
      → (l : IsLinked runs stages s) → (new_run l.run).status ≡ t.status
      → IsLinked (update_where pr fr runs) (update_where ps fs stages) t
  IsLinked-row runs stages kr ks s t same_run same_stage l agree = record {
    run = new_run l.run;
    found = rw same_run (
        first-update_where (is_run s.run_id) pr fr runs (λ r. ap (λ n. n == s.run_id) (kr.run_id r))
        ∙ ap (Option.map new_run) l.found);
    agrees = agree;
    only =
        rw (same_run, same_stage)
          (column-update_where (λ u. u.stage_run_id) (is_stage_of s.run_id) ps fs stages
              (λ u. ap (λ n. n == s.run_id) (ks.run_id u)) ks.stage_run_id
            ∙ l.only);
    owner =
        rw (same_run, same_stage)
          (column-update_where (λ u. u.run_id) (is_stage s.stage_run_id) ps fs stages
              (λ u. ap (λ n. n == s.stage_run_id) (ks.stage_run_id u)) ks.run_id
            ∙ l.owner);
  }

  update-IsInSync :
      (runs : List Run) (stages : List Stage)
      → KeepsRun fr
      → KeepsStage fs
      → ((s : Stage) (l : IsLinked runs stages s) → (new_run l.run).status ≡ (new_stage s).status)
      → All (IsLinked runs stages) stages
      → All
          (IsLinked (update_where pr fr runs) (update_where ps fs stages))
          (update_where ps fs stages)
  update-IsInSync runs stages kr ks agree h =
      All-update_where (IsLinked runs stages)
        (IsLinked (update_where pr fr runs) (update_where ps fs stages)) ps fs stages
        (λ s l e.
          IsLinked-row runs stages kr ks s (fs s) (ks.run_id s) (ks.stage_run_id s) l
            (agree s l ∙ rw e refl))
        (λ s l e. IsLinked-row runs stages kr ks s s refl refl l (agree s l ∙ rw e refl)) h

pub found_same :
    (runs : List Run) (i j : ℕ) {r t : Run}
    → first (is_run i) runs ≡ some r
    → first (is_run j) runs ≡ some t
    → i ≡ j
    → r ≡ t
found_same runs i j {r} {t} h k e = let k' : first (is_run i) runs ≡ some t = rw e k in cc

-- The id of the row that a lookup by id finds.
pub found_id : (runs : List Run) (i : ℕ) {r : Run} → first (is_run i) runs ≡ some r → r.run_id ≡ i
found_id runs i {r} h = (==_iff r.run_id i).0 (first_holds (is_run i) runs h)

abbrev with_status : RuntimeStatus → Stage → Stage
with_status target s = record s { status = target }

with_status-keeps : (target : RuntimeStatus) → KeepsStage (with_status target)
with_status-keeps target = record { stage_run_id = λ s. refl; run_id = λ s. refl }

move-IsInSync :
    (db : Db) (f : Run → Run) (run : Run) (target : RuntimeStatus)
    → first (is_run run.run_id) db.runs ≡ some run
    → run_transition_allowed run.status target ≡ true
    → KeepsRun f
    → ((r : Run) → (f r).status ≡ target)
    → IsInSync db
    → IsInSync (record db {
      runs = update_where (is_run run.run_id) f db.runs;
      stages = move_stages run.run_id target db.stages;
    })
unfolding move_stages
move-IsInSync db f run target found allowed kr moved h =
    update-IsInSync (is_run run.run_id) f
      (λ s. s.run_id == run.run_id && not (is_terminal s.status)) (with_status target) db.runs
      db.stages kr (with_status-keeps target)
      (λ s l.
        let row : l.run.run_id ≡ s.run_id = found_id db.runs s.run_id l.found in
        let same : s.run_id ≡ run.run_id → l.run ≡ run =
          found_same db.runs s.run_id run.run_id l.found found in
        let active : is_terminal run.status ≡ false =
          allowed-is_terminal run.status target allowed in
        let agrees : l.run.status ≡ s.status = l.agrees in ground (arith, moved l.run))
      h

module _ {runs : List Run} {stages : List Stage} (s t : Stage) where
  linked_owner :
      IsLinked runs stages s
      → IsLinked runs stages t
      → s.stage_run_id ≡ t.stage_run_id
      → s.run_id ≡ t.run_id
  linked_owner l k e =
      let o : Option.map (λ u. u.run_id) (first (is_stage s.stage_run_id) stages) ≡ some t.run_id =
        rw e k.owner in
      let p : Option.map (λ u. u.run_id) (first (is_stage s.stage_run_id) stages) ≡ some s.run_id =
        l.owner in
      cc

  linked_only :
      IsLinked runs stages s
      → IsLinked runs stages t
      → s.run_id ≡ t.run_id
      → s.stage_run_id ≡ t.stage_run_id
  linked_only l k e =
      let o : Option.map (λ u. u.stage_run_id) (first (is_stage_of s.run_id) stages)
          ≡ some t.stage_run_id =
        rw e k.only in
      let p : Option.map (λ u. u.stage_run_id) (first (is_stage_of s.run_id) stages)
          ≡ some s.stage_run_id =
        l.only in
      cc

  linked_status :
      IsLinked runs stages s → IsLinked runs stages t → s.run_id ≡ t.run_id → s.status ≡ t.status
  linked_status l k e =
      let same : l.run ≡ k.run = found_same runs s.run_id t.run_id l.found k.found e in
      sym l.agrees ∙ (ap (λ r. r.status) same ∙ k.agrees)

-- An update that gives one stage and its run a common status, whatever it does besides.
one_stage-IsInSync :
    (db : Db) (pr : Run → Bool) (fr : Run → Run) (fs : Stage → Stage) (stage : Stage)
    (target : RuntimeStatus)
    → IsLinked db.runs db.stages stage
    → KeepsRun fr
    → KeepsStage fs
    → ((r : Run) → (fr r).status ≡ target)
    → ((s : Stage) → (fs s).status ≡ target)
    → ((r : Run) → r.run_id ≡ stage.run_id → r.status ≡ stage.status → pr r ≡ true)
    → ((r : Run) → pr r ≡ true → r.run_id ≡ stage.run_id)
    → IsInSync db
    → IsInSync (record db {
      runs = update_where pr fr db.runs;
      stages = update_where (is_stage stage.stage_run_id) fs db.stages;
    })
one_stage-IsInSync db pr fr fs stage target k kr ks run_to stage_to hit miss h =
    update-IsInSync pr fr (is_stage stage.stage_run_id) fs db.runs db.stages kr ks
      (λ s l.
        let row : l.run.run_id ≡ s.run_id = found_id db.runs s.run_id l.found in
        let owner : s.stage_run_id ≡ stage.stage_run_id → s.run_id ≡ stage.run_id =
          linked_owner s stage l k in
        let only : s.run_id ≡ stage.run_id → s.stage_run_id ≡ stage.stage_run_id =
          linked_only s stage l k in
        let status : s.run_id ≡ stage.run_id → s.status ≡ stage.status =
          linked_status s stage l k in
        let agrees : l.run.status ≡ s.status = l.agrees in
        ground (arith, run_to l.run, stage_to s, hit l.run, miss l.run))
      h
