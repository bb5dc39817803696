-- ===== src/Runtime/Leases.antt =====
-- heartbeat, attach_process and finish_attempt of RuntimeStore in
-- core/runtime/src/openroad_platform_runtime/store.py.
use chip_evolve.Base.{
  ℕ, suc, Bool, true, false, ◌&&◌, Option, none, some, List, [], ◌∷◌, String, str_eq, ◌==◌, first,
  select, update_where, delete_where, ℤ, pos, plus,
}
use chip_evolve.Contracts.Status.{AttemptStatus, attempt_transition_allowed}
use chip_evolve.Runtime.State.{Attempt, Failure, Usage, Db}
use chip_evolve.Runtime.Result.{
  Result, ok, err, unknown_attempt, bad_process, foreign_lease, invalid_transition, ◌>>=◌, ◌>>◌,
  guard, required, transaction,
}
use chip_evolve.Runtime.Attempts.{is_attempt, is_running, held_by}

-- `updated.rowcount != 1` after an UPDATE of the rows that `p` selects
one_row {ℓ} : {A : Type ℓ} → (A → Bool) → List A → Bool
one_row p rows = elim (select p rows) [
  | x ∷ rest ↦ (elim rest [ [] ↦ true | _ ↦ false ])
  | [] ↦ false
]

abbrev pub is_leased : ℕ → String → Attempt → Bool
is_leased attempt_id worker_id a =
    a.attempt_id == attempt_id && str_eq a.worker_id worker_id && is_running a

abbrev pub renew_lease : ℤ → ℕ → Attempt → Attempt
renew_lease lease_seconds now a = record a {
  heartbeat_at = some now;
  lease_expires_at = some (plus now lease_seconds);
}

unfoldable pub heartbeat_body : ℕ → String → ℤ → ℕ → Db → Result ((Unit {0}) × Db)
unfolding one_row
heartbeat_body attempt_id worker_id lease_seconds now db = do
  attempt ← required unknown_attempt (first (is_attempt attempt_id) db.attempts)
  guard (str_eq attempt.worker_id worker_id) foreign_lease
  guard (is_running attempt) invalid_transition
  guard (one_row (is_leased attempt_id worker_id) db.attempts) invalid_transition
  ok (
    tt,
    record db {
      attempts =
          update_where (is_leased attempt_id worker_id) (renew_lease lease_seconds now) db.attempts;
    },
  )

unfoldable pub heartbeat : ℕ → String → ℤ → ℕ → Db → Result (Unit {0}) × Db
heartbeat attempt_id worker_id lease_seconds now =
    transaction (heartbeat_body attempt_id worker_id lease_seconds now)

abbrev pub own_process : ℕ → ℕ → Option ℕ → Attempt → Attempt
own_process pid group ticks a = record a {
  process_id = some pid;
  process_group_id = some group;
  process_start_ticks = ticks;
}

unfoldable pub attach_body : ℕ → String → ℕ → ℕ → Option ℕ → Db → Result ((Unit {0}) × Db)
unfolding one_row
attach_body attempt_id worker_id pid group ticks db = do
  guard (one_row (is_leased attempt_id worker_id) db.attempts) invalid_transition
  ok (
    tt,
    record db {
      attempts =
          update_where (is_leased attempt_id worker_id) (own_process pid group ticks) db.attempts;
    },
  )

unfoldable pub attach_process : ℕ → String → ℤ → ℤ → Option ℕ → Db → Result (Unit {0}) × Db
attach_process attempt_id worker_id (pos (suc pid)) (pos (suc group)) ticks db =
    transaction (attach_body attempt_id worker_id (suc pid) (suc group) ticks) db
attach_process attempt_id worker_id _ _ ticks db = (err bad_process, db)

abbrev pub ended : AttemptStatus → Option Failure → Usage → ℕ → Attempt → Attempt
ended status failure usage now a = record a {
  status = status;
  ended_at = some now;
  failure = failure;
  usage = usage;
  lease_expires_at = none;
}

unfoldable pub finish_body :
    ℕ → AttemptStatus → Option Failure → Usage → ℕ → Db → Result ((Unit {0}) × Db)
finish_body attempt_id status failure usage now db = do
  attempt ← required unknown_attempt (first (is_attempt attempt_id) db.attempts)
  guard (attempt_transition_allowed attempt.status status) invalid_transition
  ok (
    tt,
    record db {
      attempts = update_where (is_attempt attempt_id) (ended status failure usage now) db.attempts;
      reservations = delete_where (held_by attempt_id) db.reservations;
    },
  )

unfoldable pub finish_attempt :
    ℕ → AttemptStatus → Option Failure → Usage → ℕ → Db → Result (Unit {0}) × Db
finish_attempt attempt_id status failure usage now =
    transaction (finish_body attempt_id status failure usage now)
