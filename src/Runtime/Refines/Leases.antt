-- ===== src/Runtime/Refines/Leases.antt =====
-- heartbeat, attach_process, finish_attempt and release_resources as steps.
use chip_evolve.Base.{
  ℕ, zero, suc, ◌≡◌, refl, ap, ◌∙◌, ◌≢◌, inl, inr, true, Option, some, ==_iff, arith, first,
  update_where, delete_where, All, All-first, Option-cases, String, is_some, ℤ, pos, negsuc,
}
use chip_evolve.Contracts.Status.{AttemptStatus, attempt_transition_allowed}
use chip_evolve.Runtime.State.{Attempt, Failure, Usage, Db}
use chip_evolve.Runtime.Result.{ok, Post-ok}
use chip_evolve.Runtime.Attempts.{is_attempt, is_running, held_by, release_resources}
use chip_evolve.Runtime.Leases.{
  is_leased, heartbeat, heartbeat_body, renew_lease, attach_body, own_process, attach_process,
  ended, finish_body, finish_attempt,
}
use chip_evolve.Runtime.Step.{Steps, here, renew, settle, release, KeepsAttempt, Steps-one}
use chip_evolve.Runtime.Evidence.{IsAccounted}
use chip_evolve.Runtime.Refines.Runs.{Refines, transaction-Steps}

leased_running :
    (id : ℕ) (worker : String) (a : Attempt) → is_leased id worker a ≡ true → is_running a ≡ true
leased_running id worker a h = ground arith

heartbeat-made :
    (id : ℕ) (worker : String) (lease : ℤ) (now : ℕ) (db : Db) (out : (Unit {0}) × Db)
    → heartbeat_body id worker lease now db ≡ ok out
    → out.1 ≡ record db {
      attempts = update_where (is_leased id worker) (renew_lease lease now) db.attempts;
    }
unfolding heartbeat_body
heartbeat-made id worker lease now db out h = ground arith

attach-made :
    (id : ℕ) (worker : String) (pid group : ℕ) (ticks : Option ℕ) (db : Db) (out : (Unit {0}) × Db)
    → attach_body id worker pid group ticks db ≡ ok out
    → out.1 ≡ record db {
      attempts = update_where (is_leased id worker) (own_process pid group ticks) db.attempts;
    }
unfolding attach_body
attach-made id worker pid group ticks db out h = ground arith

finish-made :
    (id : ℕ) (status : AttemptStatus) (failure : Option Failure) (usage : Usage) (now : ℕ) (db : Db)
    (out : (Unit {0}) × Db) (a : Attempt)
    → finish_body id status failure usage now db ≡ ok out
    → first (is_attempt id) db.attempts ≡ some a
    → (attempt_transition_allowed a.status status ≡ true)
      × (out.1 ≡ record db {
        attempts = update_where (is_attempt id) (ended status failure usage now) db.attempts;
        reservations = delete_where (held_by id) db.reservations;
      })
unfolding finish_body
finish-made id status failure usage now db out a h found = ground arith

-- An attempt that the store holds ends in a settled status, or it was over before.
settling :
    (a : Attempt) (status : AttemptStatus)
    → IsAccounted a
    → attempt_transition_allowed a.status status ≡ true
    → (a.status ≡ AttemptStatus.running)
      × (status ≢ AttemptStatus.running)
      × (status ≢ AttemptStatus.pending)
unfolding attempt_transition_allowed
settling a status (inl l) h = ground (arith, l.running)
settling a status (inr s) h = absurd (ground (arith, s.done))

module _ (cpu memory : ℕ) where
  renew-Steps :
      (db : Db) (id : ℕ) (worker : String) (f : Attempt → Attempt)
      → KeepsAttempt f
      → ((a : Attempt) → (f a).status ≡ a.status)
      → ((a : Attempt) → is_some a.lease_expires_at ≡ true → is_some (f a).lease_expires_at ≡ true)
      → Steps cpu memory db
          (record db { attempts = update_where (is_leased id worker) f db.attempts })
  renew-Steps db id worker f kf keeps lease =
      Steps-one (renew db (is_leased id worker) f (leased_running id worker) kf keeps lease)

  pub heartbeat-Steps :
      (id : ℕ) (worker : String) (lease : ℤ) (now : ℕ) (db : Db)
      → Steps cpu memory db (heartbeat id worker lease now db).1
  unfolding heartbeat
  heartbeat-Steps id worker lease now db =
      transaction-Steps cpu memory (heartbeat_body id worker lease now) db (
        Post-ok (Refines cpu memory db) (heartbeat_body id worker lease now db) (λ out e.
          rw (heartbeat-made id worker lease now db out e) (
            renew-Steps db id worker (renew_lease lease now)
              (record { attempt_id = λ a. refl; stage_run_id = λ a. refl; number = λ a. refl })
              (λ a. refl) (λ a h. refl))))

  pub attach_process-Steps :
      (id : ℕ) (worker : String) (pid group : ℤ) (ticks : Option ℕ) (db : Db)
      → Steps cpu memory db (attach_process id worker pid group ticks db).1
  unfolding attach_process
  attach_process-Steps id worker (pos (suc pid)) (pos (suc group)) ticks db =
      transaction-Steps cpu memory (attach_body id worker (suc pid) (suc group) ticks) db (
        Post-ok (Refines cpu memory db) (attach_body id worker (suc pid) (suc group) ticks db)
          (λ out e. rw (attach-made id worker (suc pid) (suc group) ticks db out e) (
            renew-Steps db id worker (own_process (suc pid) (suc group) ticks)
              (record { attempt_id = λ a. refl; stage_run_id = λ a. refl; number = λ a. refl })
              (λ a. refl) (λ a h. h))))
  attach_process-Steps id worker (pos zero) group ticks db = here db
  attach_process-Steps id worker (negsuc n) group ticks db = here db
  attach_process-Steps id worker (pos (suc pid)) (pos zero) ticks db = here db
  attach_process-Steps id worker (pos (suc pid)) (negsuc n) ticks db = here db

  finish_body-Steps :
      (id : ℕ) (status : AttemptStatus) (failure : Option Failure) (usage : Usage) (now : ℕ)
      (db : Db)
      → All IsAccounted db.attempts
      → (out : (Unit {0}) × Db) → finish_body id status failure usage now db ≡ ok out
      → Steps cpu memory db out.1
  finish_body-Steps id status failure usage now db h out e =
      elim (Option-cases (first (is_attempt id) db.attempts)) [
        | inl absent ↦ absurd (unfold finish_body in ground arith)
        | inr (a, found) ↦
            let (allowed, made) = finish-made id status failure usage now db out a e found in
            let (runs, not_running, not_pending) =
              settling a status (All-first IsAccounted (is_attempt id) db.attempts h found)
                allowed in
            rw made (
              Steps-one (
                settle db (is_attempt id) (ended status failure usage now) id
                  (λ x own. (==_iff x.attempt_id id).0 own)
                  (λ x found' own.
                    let same : x ≡ a = ground arith in inl (ap (λ y. y.status) same ∙ runs))
                  (record { attempt_id = λ x. refl; stage_run_id = λ x. refl; number = λ x. refl })
                  (λ x. record {
                    done = (not_running, not_pending);
                    unleased = refl;
                    dated = refl;
                  })))
      ]

  pub finish_attempt-Steps :
      (id : ℕ) (status : AttemptStatus) (failure : Option Failure) (usage : Usage) (now : ℕ)
      (db : Db)
      → All IsAccounted db.attempts
      → Steps cpu memory db (finish_attempt id status failure usage now db).1
  unfolding finish_attempt
  finish_attempt-Steps id status failure usage now db h =
      transaction-Steps cpu memory (finish_body id status failure usage now) db (
        Post-ok (Refines cpu memory db) (finish_body id status failure usage now db)
          (λ out e. finish_body-Steps id status failure usage now db h out e))

  pub release_resources-Steps : (id : ℕ) (db : Db) → Steps cpu memory db (release_resources id db)
  unfolding release_resources
  release_resources-Steps id db = Steps-one (release db id)
