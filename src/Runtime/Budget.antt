-- ===== src/Runtime/Budget.antt =====
-- Resource reservations of core/runtime/src/openroad_platform_runtime/store.py: they fit the
-- platform's budgets, and only running attempts hold them.
use chip_evolve.Base.{
  ℕ, ◌+◌, ◌≤◌, ◌++◌, ◌≡◌, refl, ap, ◌∙◌, ◌≢◌, Bool, true, none, some, List, [], ◌∷◌, ◌==◌, ==_refl,
  arith, first, update_where, delete_where, All, All-append, All-map, All-delete_where,
  All-delete_where_hit, first-append, column-update_where, column-append,
}
use mathlib.Core.Option
use chip_evolve.Contracts.Status.{AttemptStatus}
use chip_evolve.Runtime.State.{Attempt, Reservation, Db}
use chip_evolve.Runtime.Attempts.{is_attempt, held_by, reserved_cpu, reserved_memory}
use chip_evolve.Runtime.Step.{
  Step, submit, move, claim, renew, settle, retry, reopen, release, log, Grants, unreserved,
  granted, KeepsAttempt,
}

pub record IsWithin (cpu memory : ℕ) (rows : List Reservation) : Type 0 where
  pub cpu_fits : reserved_cpu rows ≤ cpu
  pub memory_fits : reserved_memory rows ≤ memory

reserved_cpu-append :
    (xs ys : List Reservation) → reserved_cpu (xs ++ ys) ≡ reserved_cpu xs + reserved_cpu ys
unfolding reserved_cpu
reserved_cpu-append [] ys = omega arith
reserved_cpu-append (x ∷ xs) ys = omega (arith, reserved_cpu-append xs ys)

reserved_memory-append :
    (xs ys : List Reservation)
    → reserved_memory (xs ++ ys) ≡ reserved_memory xs + reserved_memory ys
unfolding reserved_memory
reserved_memory-append [] ys = omega arith
reserved_memory-append (x ∷ xs) ys = omega (arith, reserved_memory-append xs ys)

reserved-delete :
    (p : Reservation → Bool) (rows : List Reservation)
    → (reserved_cpu (delete_where p rows) ≤ reserved_cpu rows)
      × (reserved_memory (delete_where p rows) ≤ reserved_memory rows)
unfolding reserved_cpu reserved_memory delete_where
reserved-delete p [] = omega arith
reserved-delete p (x ∷ xs) = ground (arith, reserved-delete p xs)

delete-IsWithin :
    {cpu memory : ℕ} (p : Reservation → Bool) (rows : List Reservation)
    → IsWithin cpu memory rows
    → IsWithin cpu memory (delete_where p rows)
delete-IsWithin p rows h = omega (arith, reserved-delete p rows)

Grants-IsWithin :
    {cpu memory id : ℕ} {rows rows' : List Reservation}
    → Grants cpu memory id rows rows'
    → IsWithin cpu memory rows
    → IsWithin cpu memory rows'
unfolding reserved_cpu reserved_memory
Grants-IsWithin unreserved h = h
Grants-IsWithin {rows = rows} (granted r of c m) h =
    omega (arith, reserved_cpu-append rows (r ∷ []), reserved_memory-append rows (r ∷ []))

pub Step-IsWithin :
    {cpu memory : ℕ} (a b : Db)
    → Step cpu memory a b
    → IsWithin cpu memory a.reservations
    → IsWithin cpu memory b.reservations
Step-IsWithin _ _ (submit db run stage no_run fresh owner queued_run queued_stage free) h = h
Step-IsWithin _ _ (move db f run target found allowed kr moved) h = h
Step-IsWithin _ _ (claim db stage a rows now found ready fresh of number leased grants) h =
    Grants-IsWithin grants h
Step-IsWithin _ _ (renew db p f runs kf keeps lease) h = h
Step-IsWithin _ _ (settle db p f id ids live kf done) h =
    delete-IsWithin (held_by id) db.reservations h
Step-IsWithin _ _ (retry db run stage reason found runs found_run allowed owner) h = h
Step-IsWithin _ _ (reopen db run stage a reason found is_failed found_stage latest again room) h = h
Step-IsWithin _ _ (release db id) h = delete-IsWithin (held_by id) db.reservations h
Step-IsWithin _ _ (log db event) h = h

-- The attempt that holds a reservation runs.
abbrev pub IsHeld : List Attempt → Reservation → Type 0
IsHeld attempts r =
    Option.map (λ a. a.status) (first (is_attempt r.attempt_id) attempts)
    ≡ some AttemptStatus.running

abbrev pub AllHeld : Db → Type 0
AllHeld db = All (IsHeld db.attempts) db.reservations

append-AllHeld :
    (attempts : List Attempt) (a : Attempt) (rows : List Reservation)
    → All (IsHeld attempts) rows
    → All (IsHeld (attempts ++ a ∷ [])) rows
append-AllHeld attempts a rows =
    All-map (IsHeld attempts) (IsHeld (attempts ++ a ∷ [])) rows
      (λ r h. column-append (λ x. x.status) (is_attempt r.attempt_id) attempts (a ∷ []) h)

Grants-AllHeld :
    {cpu memory : ℕ} (attempts : List Attempt) (a : Attempt) {rows rows' : List Reservation}
    → first (is_attempt a.attempt_id) attempts ≡ none
    → a.status ≡ AttemptStatus.running
    → Grants cpu memory a.attempt_id rows rows'
    → All (IsHeld attempts) rows
    → All (IsHeld (attempts ++ a ∷ [])) rows'
Grants-AllHeld attempts a {rows = rows} fresh runs unreserved h = append-AllHeld attempts a rows h
Grants-AllHeld attempts a {rows = rows} fresh runs (granted r of c m) h =
    All-append (IsHeld (attempts ++ a ∷ [])) rows (r ∷ []) (append-AllHeld attempts a rows h)
      (rw of (rw (first-append, fresh) (unfold first in rw ==_refl (ap some runs))), tt)

renew-AllHeld :
    (db : Db) (p : Attempt → Bool) (f : Attempt → Attempt)
    → KeepsAttempt f
    → ((a : Attempt) → (f a).status ≡ a.status)
    → AllHeld db
    → AllHeld (record db { attempts = update_where p f db.attempts })
renew-AllHeld db p f kf keeps =
    All-map (IsHeld db.attempts) (IsHeld (update_where p f db.attempts)) db.reservations (λ r h.
      column-update_where (λ x. x.status) (is_attempt r.attempt_id) p f db.attempts
        (λ a. ap (λ n. n == r.attempt_id) (kf.attempt_id a)) keeps
      ∙ h)

-- The rows of other attempts are not touched by an update of one attempt.
other_attempt :
    (attempts : List Attempt) (p : Attempt → Bool) (f : Attempt → Attempt) (id other : ℕ)
    → ((a : Attempt) → p a ≡ true → a.attempt_id ≡ id)
    → KeepsAttempt f
    → other ≢ id
    → first (is_attempt other) (update_where p f attempts) ≡ first (is_attempt other) attempts
unfolding first update_where
other_attempt [] p f id other ids kf ne = refl
other_attempt (a ∷ rest) p f id other ids kf ne =
    ground (arith, ids a, kf.attempt_id a, other_attempt rest p f id other ids kf ne)

settle-AllHeld :
    (db : Db) (p : Attempt → Bool) (f : Attempt → Attempt) (id : ℕ)
    → ((a : Attempt) → p a ≡ true → a.attempt_id ≡ id)
    → KeepsAttempt f
    → AllHeld db
    → AllHeld (record db {
      attempts = update_where p f db.attempts;
      reservations = delete_where (held_by id) db.reservations;
    })
settle-AllHeld db p f id ids kf =
    All-delete_where_hit (IsHeld db.attempts) (IsHeld (update_where p f db.attempts)) (held_by id)
      db.reservations
      (λ r h e. rw (other_attempt db.attempts p f id r.attempt_id ids kf (ground arith)) h)

pub Step-AllHeld : {cpu memory : ℕ} (a b : Db) → Step cpu memory a b → AllHeld a → AllHeld b
Step-AllHeld _ _ (submit db run stage no_run fresh owner queued_run queued_stage free) h = h
Step-AllHeld _ _ (move db f run target found allowed kr moved) h = h
Step-AllHeld _ _ (claim db stage a rows now found ready fresh of number leased grants) h =
    Grants-AllHeld db.attempts a fresh leased.running grants h
Step-AllHeld _ _ (renew db p f runs kf keeps lease) h = renew-AllHeld db p f kf keeps h
Step-AllHeld _ _ (settle db p f id ids live kf done) h = settle-AllHeld db p f id ids kf h
Step-AllHeld _ _ (retry db run stage reason found runs found_run allowed owner) h = h
Step-AllHeld _ _ (reopen db run stage a reason found is_failed found_stage latest again room) h = h
Step-AllHeld _ _ (release db id) h =
    All-delete_where (IsHeld db.attempts) (held_by id) db.reservations h
Step-AllHeld _ _ (log db event) h = h
