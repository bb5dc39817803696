-- ===== src/Runtime/Calls/Claims.antt =====
-- Claims and retries of core/runtime/src/openroad_platform_runtime/store.py.
use chip_evolve.Base.{
  ℕ, suc, ◌++◌, ◌≡◌, refl, sym, ◌∙◌, inl, inr, true, some, List, [], ◌∷◌, ==_refl, arith, first,
  first-update_where, update_where, Bool-cases, Option-cases, is_positive,
}
use chip_evolve.Contracts.Status.{running}
use chip_evolve.Runtime.State.{Stage, Attempt, Db}
use chip_evolve.Runtime.Result.{ok, err, Result-cases, commit-ok, invalid_transition}
use chip_evolve.Runtime.Runs.{is_stage}
use chip_evolve.Runtime.Attempts.{
  Claim, Room, settle_claim, run_stage, start_body, start_attempt, reserve, new_attempt,
  last_number, insert_attempt,
}
use chip_evolve.Runtime.Refines.Attempts.{start_body-made, found_stage_id}

claim_running :
    (stage_run_id : ℕ) (room : Room) (stage : Stage) (a got : Attempt) (attempts : List Attempt)
    (now : ℕ) (db after : Db)
    → first (is_stage stage_run_id) db.stages ≡ some stage
    → settle_claim room stage a attempts now db ≡ (some got, after)
    → first (is_stage stage_run_id) after.stages ≡ some (run_stage now stage)
claim_running i room stage a got attempts now db after found made =
    let own : stage.stage_run_id ≡ i = found_stage_id db.stages i found in
    let stages : after.stages
        ≡ update_where (is_stage stage.stage_run_id) (run_stage now) db.stages =
      ground arith in
    let hit : is_stage stage.stage_run_id stage ≡ true = ==_refl stage.stage_run_id in
    rw stages (
      first-update_where (is_stage i) (is_stage stage.stage_run_id) (run_stage now) db.stages
        (λ s. refl)
      ∙ (rw found (rw hit)))

module _ (ceil_fraction : ℕ → ℕ) where
  claimed_row :
      (stage_run_id : ℕ) (who : Claim) (attempt_id now : ℕ) (db after : Db) (a : Attempt)
      → start_body ceil_fraction stage_run_id who attempt_id now db ≡ ok (some a, after)
      → (stage : Stage) × (first (is_stage stage_run_id) after.stages ≡ some (run_stage now stage))
  claimed_row i who id now db after a h = elim (Option-cases (first (is_stage i) db.stages)) [
    | inl absent ↦ absurd (unfold start_body in ground arith)
    | inr (stage, found) ↦ elim (Result-cases (reserve ceil_fraction who id db.reservations)) [
      | inr (e, refusal) ↦ absurd (unfold start_body insert_attempt in ground arith)
      | inl (room, decided) ↦
          let (ready, fresh, made) =
            start_body-made ceil_fraction i who id now db stage room (some a, after) found decided
              h in
          let attempt = new_attempt who i id (suc (last_number i db.attempts)) now in
          (
            stage,
            claim_running i room stage attempt a (db.attempts ++ attempt ∷ []) now db after found
                (sym made),
          )
    ]
  ]

  refused :
      (stage_run_id : ℕ) (who : Claim) (attempt_id now : ℕ) (db : Db) (stage : Stage)
      → first (is_stage stage_run_id) db.stages ≡ some stage
      → stage.status ≡ running
      → is_positive who.lease_seconds ≡ true
      → start_attempt ceil_fraction stage_run_id who attempt_id now db
        ≡ (err invalid_transition, db)
  unfolding start_attempt start_body
  refused i who id now db stage found runs good = ground arith

  granted_body :
      (stage_run_id : ℕ) (who : Claim) (attempt_id now : ℕ) (db after : Db) (a : Attempt)
      → start_attempt ceil_fraction stage_run_id who attempt_id now db ≡ (ok (some a), after)
      → start_body ceil_fraction stage_run_id who attempt_id now db ≡ ok (some a, after)
  unfolding start_attempt
  granted_body i who id now db after a h = elim (Bool-cases (is_positive who.lease_seconds)) [
    | inr bad ↦ absurd (ground arith)
    | inl good ↦
        commit-ok db (start_body ceil_fraction i who id now db) (some a) after (ground arith)
  ]

  -- Once a worker has claimed a stage, every further claim of that stage with a positive lease, before
  -- anything else happens, is refused with InvalidTransition and changes nothing, whoever makes it.
  pub second_claim_refused :
      (stage_run_id : ℕ) (who other : Claim) (attempt_id other_id now later : ℕ) (db after : Db)
      (a : Attempt)
      → start_attempt ceil_fraction stage_run_id who attempt_id now db ≡ (ok (some a), after)
      → is_positive other.lease_seconds ≡ true
      → start_attempt ceil_fraction stage_run_id other other_id later after
        ≡ (err invalid_transition, after)
  second_claim_refused i who other id other_id now later db after a h good =
      let (stage, found) =
        claimed_row i who id now db after a (granted_body i who id now db after a h) in
      refused i other other_id later after (run_stage now stage) found refl good
