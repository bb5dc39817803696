-- ===== src/Runtime/Refines/Submit.antt =====
-- submit_run as a step.
use chip_evolve.Base.{
  ℕ, ◌++◌, ◌≡◌, refl, inl, inr, false, none, some, List, [], ◌∷◌, arith, first, some_row,
  first-none, Bool-cases, Option-cases, String, opt_str_eq,
}
use chip_evolve.Contracts.Task.{TaskSpec, is_valid_task}
use chip_evolve.Runtime.State.{Run, Stage, Db}
use chip_evolve.Runtime.Result.{ok, Post, Post-ok}
use chip_evolve.Runtime.Runs.{is_run, is_stage}
use chip_evolve.Runtime.Submit.{
  Submission, has_key, existing_run, insert_run, insert_stage, run_clashes, stage_clashes, new_run,
  new_stage, reuse_run, create_run, submit_body, submit_run,
}
use chip_evolve.Runtime.Step.{Steps, here, submit, Steps-one}
use chip_evolve.Runtime.Refines.Runs.{Refines, transaction-Steps}

-- Asking again for what is already there changes nothing.
pub reuse_run-same :
    (task : TaskSpec) (sub : Submission) (existing : Run) (db : Db) (out : Run) (after : Db)
    → reuse_run task sub existing db ≡ ok (out, after)
    → (out ≡ existing) × (after ≡ db)
unfolding reuse_run
reuse_run-same task sub existing db out after h = ground arith

pub create_run-made :
    (task : TaskSpec) (plugin : String) (sub : Submission) (run_id stage_run_id now : ℕ) (db : Db)
    (out : Run) (after : Db)
    → create_run task plugin sub run_id stage_run_id now db ≡ ok (out, after)
    → (some_row (run_clashes (new_run task sub run_id now)) db.runs ≡ false)
      × (some_row (stage_clashes (new_stage plugin sub run_id stage_run_id now)) db.stages ≡ false)
      × (after ≡ record db {
        runs = db.runs ++ new_run task sub run_id now ∷ [];
        stages = db.stages ++ new_stage plugin sub run_id stage_run_id now ∷ [];
      })
unfolding create_run insert_run insert_stage
create_run-made task plugin sub run_id stage_run_id now db out after h = ground arith

module _ (task : TaskSpec) (sub : Submission) (run_id now : ℕ) (runs : List Run) where
  pub clash_run :
      some_row (run_clashes (new_run task sub run_id now)) runs ≡ false
      → first (is_run run_id) runs ≡ none
  unfolding run_clashes
  clash_run =
      first-none (run_clashes (new_run task sub run_id now)) (is_run run_id) runs
        (λ x e. ground arith)

  pub clash_key :
      some_row (run_clashes (new_run task sub run_id now)) runs ≡ false
      → (key : String) → sub.idempotency_key ≡ some key
      → first (has_key key) runs ≡ none
  unfolding run_clashes
  clash_key h key e =
      first-none (run_clashes (new_run task sub run_id now)) (has_key key) runs
        (λ x k. ground arith) h

clash_stage :
    (plugin : String) (sub : Submission) (run_id stage_run_id now : ℕ) (stages : List Stage)
    → some_row (stage_clashes (new_stage plugin sub run_id stage_run_id now)) stages ≡ false
    → first (is_stage stage_run_id) stages ≡ none
unfolding stage_clashes
clash_stage plugin sub run_id stage_run_id now stages =
    first-none (stage_clashes (new_stage plugin sub run_id stage_run_id now))
      (is_stage stage_run_id) stages (λ x e. ground arith)

module _ (cpu memory : ℕ) (task : TaskSpec) (sub : Submission) (run_id stage_run_id now : ℕ)
    (db : Db) where
  create_run-Steps :
      (plugin : String) (out : Run × Db)
      → create_run task plugin sub run_id stage_run_id now db ≡ ok out
      → Steps cpu memory db out.1
  create_run-Steps plugin (out, after) h =
      let (free_run, free_stage, made) =
        create_run-made task plugin sub run_id stage_run_id now db out after h in
      rw made (
        Steps-one (
          submit db (new_run task sub run_id now) (new_stage plugin sub run_id stage_run_id now)
            (clash_run task sub run_id now db.runs free_run)
            (clash_stage plugin sub run_id stage_run_id now db.stages free_stage) refl refl refl
            (λ key e. clash_key task sub run_id now db.runs free_run key e)))

  submit_body-Steps :
      (plugin : String)
      → Post (Refines cpu memory db) (submit_body task plugin sub run_id stage_run_id now db)
  unfolding submit_body
  submit_body-Steps plugin = elim (Option-cases (existing_run task sub db)) [
    | inl absent ↦
        rw (absent, Post)
          (Post-ok (Refines cpu memory db) (create_run task plugin sub run_id stage_run_id now db)
            (λ out e. create_run-Steps plugin out e))
    | inr (existing, found) ↦
        rw (found, Post)
          (Post-ok (Refines cpu memory db) (reuse_run task sub existing db)
            (λ out e. rw (reuse_run-same task sub existing db out.0 out.1 e).1 (here db)))
  ]

  pub submit_run-Steps : Steps cpu memory db (submit_run task sub run_id stage_run_id now db).1
  unfolding submit_run
  submit_run-Steps = elim (Bool-cases (is_valid_task task)) [
    | inr bad ↦ rw bad (here db)
    | inl good ↦ elim (Option-cases task.plugin_id) [
      | inl missing ↦ rw (good, missing) (here db)
      | inr (plugin, given) ↦ elim (Bool-cases (opt_str_eq sub.idempotency_key (some ""))) [
        | inl blank ↦ rw (good, given) (rw blank (here db))
        | inr kept ↦
            rw (good, given)
              (rw kept (
                transaction-Steps cpu memory (submit_body task plugin sub run_id stage_run_id now)
                  db (submit_body-Steps plugin)))
      ]
    ]
  ]
