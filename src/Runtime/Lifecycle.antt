-- ===== src/Runtime/Lifecycle.antt =====
-- The life of a run in core/runtime/src/openroad_platform_runtime/store.py: which statuses follow one
-- another, and that a run keeps its row and its stage.
use chip_evolve.Base.{
  ℕ, ◌++◌, ◌≡◌, refl, sym, ap, subst, ◌∙◌, inl, inr, Bool, true, ◌&&◌, not, some, List, [], ◌∷◌,
  ◌==◌, ==_iff, ==_refl, arith, first, update_where, All, All-append, All-map, All-update_where,
  Bool-cases, first-append, first-update_where, column-update_where, column-append, if◌then◌else◌,
}
use mathlib.Core.Option
use chip_evolve.Contracts.Status.{
  RuntimeStatus, queued, preparing, running, retry_wait, failed, contains, is_terminal,
  run_transition_allowed,
}
use chip_evolve.Runtime.State.{Run, Stage, Db}
use chip_evolve.Runtime.Runs.{is_run, is_stage, is_stage_of, move_stages}
use chip_evolve.Runtime.Attempts.{run_run, run_stage, is_claimable_run}
use chip_evolve.Runtime.Retry.{wait_run, wait_stage}
use chip_evolve.Runtime.Step.{
  Step, submit, move, claim, renew, settle, retry, reopen, release, log, KeepsRun, keeps_run, Steps,
  here, next,
}
use chip_evolve.Runtime.Sync.{found_same, found_id}

-- One change of a run's status: a transition of the table, the claim of a waiting run by a worker, or
-- the reopening of a failed one.
pub data Edge : RuntimeStatus → RuntimeStatus → Type 0 where
  unchanged : (s : RuntimeStatus) → Edge s s
  table : (s t : RuntimeStatus) → run_transition_allowed s t ≡ true → Edge s t
  claimed :
      (s : RuntimeStatus)
      → contains (queued ∷ preparing ∷ retry_wait ∷ []) s ≡ true
      → Edge s running
  reopened : Edge failed retry_wait

pub data EdgePath : RuntimeStatus → RuntimeStatus → Type 0 where
  stop : (s : RuntimeStatus) → EdgePath s s
  go : {s t u : RuntimeStatus} → Edge s t → EdgePath t u → EdgePath s u

-- The row of a run after a change, and the way to its status.
pub record Follows (P : RuntimeStatus → RuntimeStatus → Type 0) (id : ℕ) (r : Run) (b : Db)
    : Type 0 where
  pub row : Run
  pub found : first (is_run id) b.runs ≡ some row
  pub path : P r.status row.status

same_row : (id : ℕ) (r : Run) (b : Db) → first (is_run id) b.runs ≡ some r → Follows Edge id r b
same_row id r b h = record { row = r; found = h; path = unchanged r.status }

updated_row :
    (runs : List Run) (b : Db) (p : Run → Bool) (f : Run → Run) (id : ℕ) (r : Run)
    → KeepsRun f
    → b.runs ≡ update_where p f runs
    → first (is_run id) runs ≡ some r
    → (p r ≡ true → Edge r.status (f r).status)
    → Follows Edge id r b
updated_row runs b p f id r kr written h edge = elim (Bool-cases (p r)) [
  | inl hit ↦ record { row = f r; found = found ∙ (rw hit); path = edge hit }
  | inr miss ↦ record { row = r; found = found ∙ (rw miss); path = unchanged r.status }
]
  where
    found : first (is_run id) b.runs ≡ some (if p r then f r else r)
    found =
        ap (first (is_run id)) written
        ∙ (first-update_where (is_run id) p f runs (λ x. ap (λ n. n == id) (kr.run_id x))
            ∙ ap (Option.map (λ x. if p x then f x else x)) h)

-- The row that an id selects is the row that was read.
selected :
    (runs : List Run) (id : ℕ) (run r : Run)
    → first (is_run run.run_id) runs ≡ some run
    → first (is_run id) runs ≡ some r
    → is_run run.run_id r ≡ true
    → run ≡ r
selected runs id run r found h e =
    let own : r.run_id ≡ id = found_id runs id h in
    let same : r.run_id ≡ run.run_id = (==_iff r.run_id run.run_id).0 e in
    found_same runs run.run_id id found h (sym same ∙ own)

pub Step-Follows :
    {cpu memory : ℕ} (id : ℕ) (r : Run) (a b : Db)
    → Step cpu memory a b
    → first (is_run id) a.runs ≡ some r
    → Follows Edge id r b
Step-Follows id r _ _ (submit db run stage no_run fresh owner queued_run queued_stage free) h =
    same_row id r _ (rw (first-append, h))
Step-Follows id r _ _ (move db f run target found allowed kr moved) h =
    updated_row db.runs _ (is_run run.run_id) f id r kr refl h (λ e. rw (moved r) (
      table r.status target (
        subst (λ (x : Run). run_transition_allowed x.status target ≡ true)
          (selected db.runs id run r found h e) allowed)))
Step-Follows id r _ _ (claim db stage a rows now found ready fresh of number leased grants) h =
    updated_row db.runs _ (is_claimable_run stage.run_id) (run_run now) id r
      (keeps_run (run_run now) λ x. (refl, refl, refl)) refl h
      (λ e. claimed r.status (ground arith))
Step-Follows id r _ _ (renew db p f runs kf keeps lease) h = same_row id r _ h
Step-Follows id r _ _ (settle db p f other ids live kf done) h = same_row id r _ h
Step-Follows id r _ _ (retry db run stage reason found runs found_run allowed owner) h =
    updated_row db.runs _ (is_run run.run_id) (wait_run reason) id r
      (keeps_run (wait_run reason) λ x. (refl, refl, refl)) refl h
      (λ e. table r.status retry_wait (
        subst (λ (x : Run). run_transition_allowed x.status retry_wait ≡ true)
          (selected db.runs id run r found_run h e) allowed))
Step-Follows id r _ _ (reopen db run stage a reason found is_failed found_stage latest again room)
      h =
    updated_row db.runs _ (is_run run.run_id) (wait_run reason) id r
      (keeps_run (wait_run reason) λ x. (refl, refl, refl)) refl h
      (λ e.
        rw (ap (λ (x : Run). x.status) (sym (selected db.runs id run r found h e)) ∙ is_failed)
          reopened)
Step-Follows id r _ _ (release db other) h = same_row id r _ h
Step-Follows id r _ _ (log db event) h = same_row id r _ h

pub Steps-Follows :
    {cpu memory : ℕ} (id : ℕ) (r : Run) {a b : Db}
    → Steps cpu memory a b
    → first (is_run id) a.runs ≡ some r
    → Follows EdgePath id r b
Steps-Follows id r (here db) h = record { row = r; found = h; path = stop r.status }
Steps-Follows id r (next {a = a} {b = b} s rest) h =
    let one = Step-Follows id r a b s h in
    let more = Steps-Follows id one.row rest one.found in
    record { row = more.row; found = more.found; path = go one.path more.path }

-- Every run has a stage.
abbrev pub HasStage : List Stage → Run → Type 0
HasStage stages r =
    (sid : ℕ) × (Option.map (λ s. s.stage_run_id) (first (is_stage_of r.run_id) stages) ≡ some sid)

abbrev pub RunsAreStaged : Db → Type 0
RunsAreStaged db = All (HasStage db.stages) db.runs

staged_runs :
    (stages : List Stage) (p : Run → Bool) (f : Run → Run) (runs : List Run)
    → KeepsRun f
    → All (HasStage stages) runs
    → All (HasStage stages) (update_where p f runs)
staged_runs stages p f runs kr =
    All-update_where (HasStage stages) (HasStage stages) p f runs (λ r old e. rw (kr.run_id r) old)
      (λ r old e. old)

staged_stages :
    (stages : List Stage) (p : Stage → Bool) (f : Stage → Stage) (runs : List Run)
    → ((s : Stage) → (f s).run_id ≡ s.run_id)
    → ((s : Stage) → (f s).stage_run_id ≡ s.stage_run_id)
    → All (HasStage stages) runs
    → All (HasStage (update_where p f stages)) runs
staged_stages stages p f runs keep_run keep_stage =
    All-map (HasStage stages) (HasStage (update_where p f stages)) runs (λ r old. (
      old.0,
      column-update_where (λ s. s.stage_run_id) (is_stage_of r.run_id) p f stages
            (λ s. ap (λ n. n == r.run_id) (keep_run s)) keep_stage
          ∙ old.1,
    ))

appended_stage :
    (stages : List Stage) (stage : Stage) (id : ℕ)
    → stage.run_id ≡ id
    → (sid : ℕ) × (Option.map (λ s. s.stage_run_id) (first (is_stage_of id) (stages ++ stage ∷ []))
        ≡ some sid)
unfolding first
appended_stage [] stage id own = (stage.stage_run_id, rw own (rw ==_refl))
appended_stage (s ∷ stages) stage id own = elim (Bool-cases (is_stage_of id s)) [
  | inl e ↦ (s.stage_run_id, rw e)
  | inr e ↦ let (sid, h) = appended_stage stages stage id own in (sid, rw e h)
]

pub Step-RunsAreStaged :
    {cpu memory : ℕ} (a b : Db) → Step cpu memory a b → RunsAreStaged a → RunsAreStaged b
unfolding move_stages
Step-RunsAreStaged _ _ (submit db run stage no_run fresh owner queued_run queued_stage free) h =
    All-append (HasStage (db.stages ++ stage ∷ [])) db.runs (run ∷ [])
      (All-map (HasStage db.stages) (HasStage (db.stages ++ stage ∷ [])) db.runs
        (λ r old. (
          old.0,
          column-append (λ s. s.stage_run_id) (is_stage_of r.run_id) db.stages (stage ∷ []) old.1,
        ))
        h)
      (appended_stage db.stages stage run.run_id owner, tt)
Step-RunsAreStaged _ _ (move db f run target found allowed kr moved) h =
    staged_stages db.stages (λ s. s.run_id == run.run_id && not (is_terminal s.status))
      (λ s. record s { status = target }) (update_where (is_run run.run_id) f db.runs) (λ s. refl)
      (λ s. refl) (staged_runs db.stages (is_run run.run_id) f db.runs kr h)
Step-RunsAreStaged _ _ (claim db stage a rows now found ready fresh of number leased grants) h =
    staged_stages db.stages (is_stage stage.stage_run_id) (run_stage now)
      (update_where (is_claimable_run stage.run_id) (run_run now) db.runs) (λ s. refl) (λ s. refl)
      (staged_runs db.stages (is_claimable_run stage.run_id) (run_run now) db.runs
        (keeps_run (run_run now) λ x. (refl, refl, refl)) h)
Step-RunsAreStaged _ _ (renew db p f runs kf keeps lease) h = h
Step-RunsAreStaged _ _ (settle db p f other ids live kf done) h = h
Step-RunsAreStaged _ _ (retry db run stage reason found runs found_run allowed owner) h =
    staged_stages db.stages (is_stage stage.stage_run_id) wait_stage
      (update_where (is_run run.run_id) (wait_run reason) db.runs) (λ s. refl) (λ s. refl)
      (staged_runs db.stages (is_run run.run_id) (wait_run reason) db.runs
        (keeps_run (wait_run reason) λ x. (refl, refl, refl)) h)
Step-RunsAreStaged _ _ (reopen db run stage a reason found is_failed found_stage latest again room)
      h =
    staged_stages db.stages (is_stage stage.stage_run_id) wait_stage
      (update_where (is_run run.run_id) (wait_run reason) db.runs) (λ s. refl) (λ s. refl)
      (staged_runs db.stages (is_run run.run_id) (wait_run reason) db.runs
        (keeps_run (wait_run reason) λ x. (refl, refl, refl)) h)
Step-RunsAreStaged _ _ (release db other) h = h
Step-RunsAreStaged _ _ (log db event) h = h
