-- ===== src/Runtime/Calls/Submissions.antt =====
-- RuntimeStore.submit_run of core/runtime/src/openroad_platform_runtime/store.py: resubmission.
use chip_evolve.Base.{
  ℕ, ◌≡◌, refl, sym, ap, ◌∙◌, ◌⊎◌, inl, inr, true, none, some, [], ◌∷◌, ◌++◌, ==_refl, arith, first,
  first-append, Bool-cases, Option-cases, String, str_eq_refl, opt_str_eq, or_else,
}
use chip_evolve.Contracts.Task.{TaskSpec, is_valid_task}
use chip_evolve.Runtime.State.{Run, Db}
use chip_evolve.Runtime.Result.{ok, commit-ok}
use chip_evolve.Runtime.Runs.{is_run, get_run}
use chip_evolve.Runtime.Submit.{
  Submission, has_key, existing_run, insert_run, insert_stage, new_run, reuse_run, create_run,
  submit_body, submit_run,
}
use chip_evolve.Runtime.Refines.Submit.{reuse_run-same, create_run-made, clash_run, clash_key}

-- What the key names before and after a submission that returned `run`.
abbrev pub IsReused : String → Run → Db → Db → Type 0
IsReused key run db after = (first (has_key key) db.runs ≡ some run) × (after ≡ db)

abbrev pub IsCreated : String → Run → Db → Db → Type 0
IsCreated key run db after =
    (first (has_key key) db.runs ≡ none)
    × (first (is_run run.run_id) db.runs ≡ none)
    × (after.runs ≡ db.runs ++ run ∷ [])
    × (first (has_key key) after.runs ≡ some run)

some_same : (a b : Run) → some a ≡ some b → a ≡ b
some_same a b h = cc

-- A submission that returned has gone through its transaction.
submitted_body :
    (task : TaskSpec) (sub : Submission) (run_id stage_run_id now : ℕ) (db after : Db) (run : Run)
    → submit_run task sub run_id stage_run_id now db ≡ (ok run, after)
    → (plugin : String) × (submit_body task plugin sub run_id stage_run_id now db ≡ ok (run, after))
unfolding submit_run
submitted_body task sub run_id stage_run_id now db after run h =
    elim (Bool-cases (is_valid_task task)) [
      | inr bad ↦ absurd (ground arith)
      | inl good ↦ elim (Option-cases task.plugin_id) [
        | inl missing ↦ absurd (ground arith)
        | inr (plugin, given) ↦ elim (Bool-cases (opt_str_eq sub.idempotency_key (some ""))) [
          | inl blank ↦ absurd (ground arith)
          | inr kept ↦ (
            plugin,
            commit-ok db (submit_body task plugin sub run_id stage_run_id now db) run after
                (ground arith),
          )
        ]
      ]
    ]

create_run-read :
    (task : TaskSpec) (plugin : String) (sub : Submission) (run_id stage_run_id now : ℕ) (db : Db)
    (run : Run) (after : Db)
    → create_run task plugin sub run_id stage_run_id now db ≡ ok (run, after)
    → first (is_run run_id) after.runs ≡ some run
unfolding create_run insert_run insert_stage get_run
create_run-read task plugin sub run_id stage_run_id now db run after h = ground arith

created :
    (task : TaskSpec) (plugin : String) (sub : Submission) (run_id stage_run_id now : ℕ)
    (db after : Db) (run : Run) (key : String)
    → sub.idempotency_key ≡ some key
    → create_run task plugin sub run_id stage_run_id now db ≡ ok (run, after)
    → IsCreated key run db after
created task plugin sub run_id stage_run_id now db after run key given h =
    let (free, free_stage, made) =
      create_run-made task plugin sub run_id stage_run_id now db run after h in
    let row = new_run task sub run_id now in
    let absent : first (is_run run_id) db.runs ≡ none =
      clash_run task sub run_id now db.runs free in
    let unused : first (has_key key) db.runs ≡ none =
      clash_key task sub run_id now db.runs free key given in
    let runs : after.runs ≡ db.runs ++ row ∷ [] = ap (λ (d : Db). d.runs) made in
    let row_found : first (is_run run_id) (row ∷ []) ≡ some row =
      unfold first in rw (==_refl run_id) refl in
    let same : row ≡ run = some_same row run (
      sym row_found
      ∙ (sym (
            ap (first (is_run run_id)) runs
            ∙ (first-append (is_run run_id) db.runs (row ∷ [])
                ∙ ap (λ o. or_else o (first (is_run run_id) (row ∷ []))) absent))
          ∙ create_run-read task plugin sub run_id stage_run_id now db run after h)) in
    let named : has_key key row ≡ true = rw given (str_eq_refl key) in
    let key_found : first (has_key key) (row ∷ []) ≡ some row = unfold first in rw named refl in
    rw (← same) (
      unused,
      absent,
      runs,
      ap (first (has_key key)) runs
          ∙ (first-append (has_key key) db.runs (row ∷ [])
              ∙ (ap (λ o. or_else o (first (has_key key) (row ∷ []))) unused ∙ key_found)),
    )

-- A submission with an idempotency key that returns a run either found it under that key, and changed
-- nothing, or found neither the key nor the new id in use, and added that one run, which the key now
-- names.
pub submit_by_key :
    (task : TaskSpec) (sub : Submission) (run_id stage_run_id now : ℕ) (db after : Db) (run : Run)
    (key : String)
    → sub.idempotency_key ≡ some key
    → submit_run task sub run_id stage_run_id now db ≡ (ok run, after)
    → IsReused key run db after ⊎ IsCreated key run db after
submit_by_key task sub run_id stage_run_id now db after run key given h =
    let (plugin, body) = submitted_body task sub run_id stage_run_id now db after run h in
    elim (Option-cases (first (has_key key) db.runs)) [
      | inr (existing, found) ↦
          let reused : reuse_run task sub existing db ≡ ok (run, after) =
            unfold submit_body existing_run in ground arith in
          let (same, kept) = reuse_run-same task sub existing db run after reused in
          inl (found ∙ ap some (sym same), kept)
      | inl absent ↦ inr (
          created task plugin sub run_id stage_run_id now db after run key given
            (unfold submit_body existing_run in ground arith))
    ]

key_named :
    (key : String) (run : Run) (db after : Db)
    → IsReused key run db after ⊎ IsCreated key run db after
    → first (has_key key) after.runs ≡ some run
key_named key run db after (inl (found, kept)) =
    ap (λ (d : Db). first (has_key key) d.runs) kept ∙ found
key_named key run db after (inr (unused, absent, runs, named)) = named

-- A submission that follows one with the same idempotency key, whatever its task and its new ids, and
-- returns a run as the first one did, returns the same run and leaves the state as it was.
pub resubmit_once :
    (task task2 : TaskSpec) (sub sub2 : Submission) (run_id stage_id now run_id2 stage_id2 now2 : ℕ)
    (db after after2 : Db) (run run2 : Run) (key : String)
    → sub.idempotency_key ≡ some key
    → sub2.idempotency_key ≡ some key
    → submit_run task sub run_id stage_id now db ≡ (ok run, after)
    → submit_run task2 sub2 run_id2 stage_id2 now2 after ≡ (ok run2, after2)
    → (run2 ≡ run) × (after2 ≡ after)
resubmit_once task task2 sub sub2 r s n r2 s2 n2 db after after2 run run2 key given given2 h h2 =
    let named =
      key_named key run db after (submit_by_key task sub r s n db after run key given h) in
    elim (submit_by_key task2 sub2 r2 s2 n2 after after2 run2 key given2 h2) [
      | inl (found, kept) ↦ (some_same run2 run (sym found ∙ named), kept)
      | inr (unused, absent, runs, fresh) ↦ absurd (ground arith)
    ]
