-- ===== src/Runtime/Refines/Runs.antt =====
-- transition_run, request_cancel, fail_queued_run, record_event and submit_run as steps.
use chip_evolve.Base.{
  ℕ, ◌++◌, ◌≡◌, refl, sym, subst, inl, inr, true, false, ◌||◌, not, Option, some, List, [], ◌∷◌,
  arith, first, update_where, Bool-cases, Option-cases, String, str_eq, if◌then◌else◌,
}
use chip_evolve.Contracts.Status.{
  RuntimeStatus, queued, preparing, retry_wait, failed, same, contains, is_terminal,
  run_transition_allowed, cancel_requested,
}
use chip_evolve.Runtime.State.{Run, Event, Db}
use chip_evolve.Runtime.Result.{
  Result, ok, err, unknown_run, invalid_transition, Post, Post-guard, Post-required, transaction,
  ◌>>=◌,
}
use chip_evolve.Runtime.Runs.{
  is_run, move_run, move_stages, transition_body, transition_run, request_cancel, get_run,
  insert_event, preflight_event, fail_early, record_event_body, fail_queued_body, fail_queued_run,
  record_event,
}
use chip_evolve.Runtime.Step.{Steps, here, move, log, KeepsRun, keeps_run, Steps-one, Steps-trans}
use chip_evolve.Runtime.Sync.{found_id}

module _ (cpu memory : ℕ) where
  abbrev pub Refines {ℓ} : {A : Type ℓ} → Db → A × Db → Type 0
  Refines db r = Steps cpu memory db r.1

  -- A transaction commits what its body did, or does nothing.
  pub transaction-Steps {ℓ} :
      {A : Type ℓ} (body : Db → Result (A × Db)) (db : Db)
      → Post (Refines db) (body db)
      → Steps cpu memory db (transaction body db).1
  transaction-Steps {A} body db h = outcome (body db) h
    where
      outcome :
          (r : Result (A × Db))
          → Post (Refines db) r
          → Steps cpu memory db
              (let out : Result A × Db = elim r [
                | ok (a, after) ↦ (ok a, after)
                | err e ↦ (err e, db)
              ] in
                out).1
      outcome (ok (a, after)) s = s
      outcome (err e) s = here db

  pub move-Steps :
      (db : Db) (run_id : ℕ) (f : Run → Run) (run : Run) (target : RuntimeStatus)
      → first (is_run run_id) db.runs ≡ some run
      → run_transition_allowed run.status target ≡ true
      → KeepsRun f
      → ((r : Run) → (f r).status ≡ target)
      → Steps cpu memory db (record db {
        runs = update_where (is_run run_id) f db.runs;
        stages = move_stages run_id target db.stages;
      })
  move-Steps db run_id f run target found allowed kr moved =
      let own : run.run_id ≡ run_id = found_id db.runs run_id found in
      subst
        (λ i. Steps cpu memory db (record db {
          runs = update_where (is_run i) f db.runs;
          stages = move_stages i target db.stages;
        }))
        own
        (Steps-one (
          move db f run target (subst (λ i. first (is_run i) db.runs ≡ some run) (sym own) found)
            allowed kr moved))

  pub transition_run-Steps :
      (run_id : ℕ) (target : RuntimeStatus) (reason : Option String) (now : ℕ) (db : Db)
      → Steps cpu memory db (transition_run run_id target reason now db).1
  unfolding transition_run move_run
  transition_run-Steps run_id target reason now db =
      transaction-Steps (transition_body run_id target reason now) db (
        Post-required (Refines db) unknown_run (first (is_run run_id) db.runs) _ (λ run found.
          elim (Bool-cases (same run.status target)) [
            | inl e ↦ rw e (here db)
            | inr e ↦ rw e (
                Post-guard (Refines db) (run_transition_allowed run.status target)
                  invalid_transition _
                  (λ allowed.
                    move-Steps db run_id (move_run target reason now) run target found allowed
                      (keeps_run (move_run target reason now) λ r. (refl, refl, refl)) (λ r. refl)))
          ]))

  request_cancel-outcome :
      (run_id now : ℕ) (db : Db) (r : Result Run)
      → Steps cpu memory db
          (let out : Result (Unit {0}) × Db = elim r [
            | err e ↦ (err e, db)
            | ok run ↦
                if is_terminal run.status || same run.status cancel_requested
                then (ok tt, db)
                else transition_run run_id cancel_requested (some "cancellation requested") now db
          ] in
            out).1
  request_cancel-outcome run_id now db (err e) = here db
  request_cancel-outcome run_id now db (ok run) =
      elim (Bool-cases (is_terminal run.status || same run.status cancel_requested)) [
        | inl e ↦ rw e (here db)
        | inr e ↦
            rw e
              (transition_run-Steps run_id cancel_requested (some "cancellation requested") now db)
      ]

  pub request_cancel-Steps :
      (run_id now : ℕ) (db : Db) → Steps cpu memory db (request_cancel run_id now db).1
  unfolding request_cancel
  request_cancel-Steps run_id now db = request_cancel-outcome run_id now db (get_run run_id db)

  -- An inserted event is a step of its own.
  insert_event-appends :
      (event : Event) (events after : List Event)
      → insert_event event events ≡ ok after
      → after ≡ events ++ event ∷ []
  unfolding insert_event
  insert_event-appends event events after h = ground arith

  pub log-Steps :
      (db : Db) (event : Event) (after : List Event)
      → insert_event event db.events ≡ ok after
      → Steps cpu memory db (record db { events = after })
  log-Steps db event after h =
      rw (insert_event-appends event db.events after h) (Steps-one (log db event))

  failed_early :
      (s : RuntimeStatus)
      → not (contains (queued ∷ preparing ∷ retry_wait ∷ []) s) ≡ false
      → run_transition_allowed s failed ≡ true
  unfolding run_transition_allowed
  failed_early s h = ground arith

  fail_queued_body-Steps :
      (run_id : ℕ) (category message : String) (event_id now : ℕ) (db : Db) (run : Run)
      (logged : Result (List Event))
      → insert_event (preflight_event run_id category message event_id now) db.events ≡ logged
      → first (is_run run_id) db.runs ≡ some run
      → Post (Refines db) (fail_queued_body run_id category message event_id now db)
  unfolding fail_queued_body
  fail_queued_body-Steps run_id category message event_id now db run logged h found =
      rw found
        (elim (Bool-cases (not (contains (queued ∷ preparing ∷ retry_wait ∷ []) run.status))) [
          | inl late ↦ rw late (here db)
          | inr early ↦ rw (early, h) (outcome logged h early)
        ])
    where
      moved : Db
      moved = record db {
        runs = update_where (is_run run_id) (fail_early category now) db.runs;
        stages = move_stages run_id failed db.stages;
      }

      outcome :
          (r : Result (List Event))
          → insert_event (preflight_event run_id category message event_id now) db.events ≡ r
          → not (contains (queued ∷ preparing ∷ retry_wait ∷ []) run.status) ≡ false
          → Post (Refines db) (r >>= λ events. ok (true, record moved { events = events }))
      outcome (ok events) e early =
          Steps-trans
            (move-Steps db run_id (fail_early category now) run failed found
              (failed_early run.status early)
              (keeps_run (fail_early category now) λ r. (refl, refl, refl)) (λ r. refl))
            (log-Steps moved (preflight_event run_id category message event_id now) events e)
      outcome (err x) e early = tt

  pub fail_queued_run-Steps :
      (run_id : ℕ) (category message : String) (event_id now : ℕ) (db : Db)
      → Steps cpu memory db (fail_queued_run run_id category message event_id now db).1
  unfolding fail_queued_run
  fail_queued_run-Steps run_id category message event_id now db =
      elim (Bool-cases (str_eq category "" || str_eq message "")) [
        | inl e ↦ rw e (here db)
        | inr e ↦ rw e (
            transaction-Steps (fail_queued_body run_id category message event_id now) db
              (elim (Option-cases (first (is_run run_id) db.runs)) [
                | inl absent ↦ rw (absent, fail_queued_body) tt
                | inr (run, found) ↦
                    fail_queued_body-Steps run_id category message event_id now db run _ refl found
              ]))
      ]

  record_event_body-Steps :
      (event : Event) (db : Db) (logged : Result (List Event))
      → insert_event event db.events ≡ logged
      → Post (Refines db) (logged >>= λ events. ok (event, record db { events = events }))
  record_event_body-Steps event db (ok events) e = log-Steps db event events e
  record_event_body-Steps event db (err x) e = tt

  pub record_event-Steps : (event : Event) (db : Db) → Steps cpu memory db (record_event event db).1
  unfolding record_event
  record_event-Steps event db =
      transaction-Steps (record_event_body event) db
        (record_event_body-Steps event db (insert_event event db.events) refl)
