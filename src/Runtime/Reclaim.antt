-- ===== src/Runtime/Reclaim.antt =====
-- reclaim_expired_attempts of RuntimeStore in core/runtime/src/openroad_platform_runtime/store.py.
use chip_evolve.Base.{
  ℕ, Bool, true, false, ◌&&◌, not, none, some, List, [], ◌∷◌, ◌++◌, ltb, ◌==◌, if◌then◌else◌, first,
  select, update_where, delete_where,
}
use chip_evolve.Contracts.Status.{lost, AttemptStatus}
use chip_evolve.Runtime.State.{Stage, Attempt, Failure, Db}
use chip_evolve.Runtime.Result.{Result, ok, err, is_invalid_transition}
use chip_evolve.Runtime.Runs.{is_stage, transition_run}
use chip_evolve.Runtime.Attempts.{is_running, held_by}
use chip_evolve.Runtime.Retry.{may_resume}

-- The lease is over: `lease_expires_at IS NOT NULL AND lease_expires_at < reference`
abbrev pub is_expired : ℕ → Attempt → Bool
is_expired reference a = elim a.lease_expires_at [ none ↦ false | some t ↦ ltb t reference ]

abbrev pub lease_failure : Failure
lease_failure = record {
  category = "lease_expired";
  message = "worker stopped heartbeating; process fenced";
  retryable = true;
}

abbrev pub lose_attempt : ℕ → Attempt → Attempt
lose_attempt reference a = record a {
  status = AttemptStatus.lost;
  ended_at = some reference;
  failure = some lease_failure;
  lease_expires_at = none;
}

abbrev pub is_reclaimable : ℕ → ℕ → Attempt → Bool
is_reclaimable attempt_id reference a =
    a.attempt_id == attempt_id && is_running a && is_expired reference a

-- The row that the query joins: an attempt whose lease is over, and the run of its stage.
unfoldable pub expired_rows : ℕ → List Stage → List Attempt → List (Attempt × ℕ)
expired_rows reference stages [] = []
expired_rows reference stages (a ∷ rest) =
    let others = expired_rows reference stages rest in
    if is_running a && is_expired reference a
    then (elim (first (is_stage a.stage_run_id) stages) [
      | none ↦ others
      | some stage ↦ (a, stage.run_id) ∷ others
    ])
    else others

-- A sorted list without repetitions: `sorted(set)`.
unfoldable pub add_sorted : ℕ → List ℕ → List ℕ
add_sorted x [] = x ∷ []
add_sorted x (y ∷ ys) =
    let rest = add_sorted x ys in
    if x == y then y ∷ ys else if ltb x y then x ∷ y ∷ ys else y ∷ rest

-- The UPDATE of one row, and the DELETE of its reservation.
unfoldable pub lose_row : ℕ → ℕ → Db → Db
lose_row attempt_id reference db = record db {
  attempts =
      update_where (is_reclaimable attempt_id reference) (lose_attempt reference) db.attempts;
  reservations = delete_where (held_by attempt_id) db.reservations;
}

-- What the first loop has gathered: the state, the attempts that it marked, and their runs.
pub record Sweep : Type 0 where
  pub db : Db
  pub ids : List ℕ
  pub run_ids : List ℕ

-- `updated.rowcount == 1`
unfoldable pub one_reclaimable : ℕ → ℕ → List Attempt → Bool
one_reclaimable attempt_id reference attempts =
    elim (select (is_reclaimable attempt_id reference) attempts) [
      | [] ↦ false
      | x ∷ rest ↦ (elim rest [ [] ↦ true | _ ↦ false ])
    ]

-- `fenced` is fence_expired_process: whether the attempt's process group is known to be gone.
module _ (fenced : Attempt → Bool) where
  unfoldable pub sweep_row : ℕ → Attempt → ℕ → Sweep → Sweep
  sweep_row reference a run_id s =
      if not (fenced a)
      then s
      else if one_reclaimable a.attempt_id reference s.db.attempts
      then record {
        db = lose_row a.attempt_id reference s.db;
        ids = s.ids ++ a.attempt_id ∷ [];
        run_ids = add_sorted run_id s.run_ids;
      }
      else s

  unfoldable pub sweep : ℕ → List (Attempt × ℕ) → Sweep → Sweep
  sweep reference [] s = s
  sweep reference ((a, run_id) ∷ rows) s = sweep reference rows (sweep_row reference a run_id s)

-- `except InvalidTransition: pass`
abbrev pub settled : Result (Unit {0}) × Db → Result (Unit {0}) × Db
settled (ok u, db) = (ok tt, db)
settled (err e, db) = if is_invalid_transition e then (ok tt, db) else (err e, db)

abbrev pub settle_resumed : ℕ → ℕ → Result Bool × Db → Result (Unit {0}) × Db
settle_resumed run_id now (ok true, db) = (ok tt, db)
settle_resumed run_id now (ok false, db) =
    settled (transition_run run_id lost (some "lease_expired") now db)
settle_resumed run_id now (err e, db) = (err e, db)

unfoldable pub settle_run : ℕ → ℕ → Db → Result (Unit {0}) × Db
settle_run now run_id db = settle_resumed run_id now (may_resume run_id db)

abbrev pub and_then :
    Result (Unit {0}) × Db → (Db → Result (Unit {0}) × Db) → Result (Unit {0}) × Db
and_then (ok u, db) k = k db
and_then (err e, db) k = (err e, db)

unfoldable pub settle_runs : ℕ → List ℕ → Db → Result (Unit {0}) × Db
settle_runs now [] db = (ok tt, db)
settle_runs now (run_id ∷ rest) db = and_then (settle_run now run_id db) (settle_runs now rest)

abbrev pub with_ids : List ℕ → Result (Unit {0}) × Db → Result (List ℕ) × Db
with_ids ids (ok u, db) = (ok ids, db)
with_ids ids (err e, db) = (err e, db)

unfoldable pub reclaim_expired_attempts : (Attempt → Bool) → ℕ → ℕ → Db → Result (List ℕ) × Db
reclaim_expired_attempts fenced reference now db =
    let s =
      sweep fenced reference (expired_rows reference db.stages db.attempts)
        (record { db = db; ids = []; run_ids = [] }) in
    with_ids s.ids (settle_runs now s.run_ids s.db)
