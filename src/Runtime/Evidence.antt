-- ===== src/Runtime/Evidence.antt =====
-- The attempts of core/runtime/src/openroad_platform_runtime/store.py as evidence: an attempt that is
-- over stays as it was recorded, and every other one runs under a lease.
use chip_evolve.Base.{
  ℕ, ◌≡◌, sym, ap, subst, ◌∙◌, ◌≢◌, ◌⊎◌, inl, inr, Bool, true, false, some, List, [], ◌∷◌, ◌==◌,
  ==_iff, arith, first, update_where, All, Bool-cases, All-append, All-update_where, first-append,
  first-update_where, first_holds, is_some,
}
use chip_evolve.Contracts.Status.{AttemptStatus}
use chip_evolve.Runtime.State.{Attempt, Db}
use chip_evolve.Runtime.Attempts.{is_attempt, is_running}
use chip_evolve.Runtime.Step.{
  Step, submit, move, claim, renew, settle, retry, reopen, release, log, IsLeased, IsSettled,
  KeepsAttempt,
}

abbrev pub IsOver : Attempt → Type 0
IsOver a = (a.status ≢ AttemptStatus.running) × (a.status ≢ AttemptStatus.pending)

untouched :
    (attempts : List Attempt) (p : Attempt → Bool) (f : Attempt → Attempt) (id : ℕ) (a : Attempt)
    → KeepsAttempt f
    → first (is_attempt id) attempts ≡ some a
    → p a ≡ false
    → first (is_attempt id) (update_where p f attempts) ≡ some a
untouched attempts p f id a kf found skip =
    first-update_where (is_attempt id) p f attempts (λ x. ap (λ n. n == id) (kf.attempt_id x))
    ∙ (rw found (rw skip))

found_attempt :
    (attempts : List Attempt) (id : ℕ) {a : Attempt}
    → first (is_attempt id) attempts ≡ some a
    → a.attempt_id ≡ id
found_attempt attempts id {a} h =
    (==_iff a.attempt_id id).0 (first_holds (is_attempt id) attempts h)

over-live :
    (a : Attempt)
    → IsOver a
    → ¬ ((a.status ≡ AttemptStatus.running) ⊎ (a.status ≡ AttemptStatus.pending))
over-live a o (inl e) = o.0 e
over-live a o (inr e) = o.1 e

-- No step changes, or removes, an attempt that is over.
pub Step-over :
    {cpu memory : ℕ} (id : ℕ) (attempt : Attempt) (a b : Db)
    → Step cpu memory a b
    → IsOver attempt
    → first (is_attempt id) a.attempts ≡ some attempt
    → first (is_attempt id) b.attempts ≡ some attempt
Step-over id t _ _ (submit db run stage no_run fresh owner queued_run queued_stage free) o h = h
Step-over id t _ _ (move db f run target found allowed kr moved) o h = h
Step-over id t _ _ (claim db stage a rows now found ready fresh of number leased grants) o h =
    rw (first-append, h)
Step-over id t _ _ (renew db p f runs kf keeps lease) o h =
    untouched db.attempts p f id t kf h (ground (arith, runs t))
Step-over id t _ _ (settle db p f other ids live kf done) o h = elim (Bool-cases (p t)) [
  | inl e ↦
      let same : t.attempt_id ≡ other = ids t e in
      let own : t.attempt_id ≡ id = found_attempt db.attempts id h in
      let there : first (is_attempt other) db.attempts ≡ some t =
        subst (λ n. first (is_attempt n) db.attempts ≡ some t) (sym own ∙ same) h in
      absurd (over-live t o (live t there e))
  | inr e ↦ untouched db.attempts p f id t kf h e
]
Step-over id t _ _ (retry db run stage reason found runs found_run allowed owner) o h = h
Step-over id t _ _ (reopen db run stage a reason found is_failed found_stage latest again room) o
      h =
    h
Step-over id t _ _ (release db other) o h = h
Step-over id t _ _ (log db event) o h = h

-- An attempt is leased and running, or settled.
abbrev pub IsAccounted : Attempt → Type 0
IsAccounted a = IsLeased a ⊎ IsSettled a

renewed-IsAccounted :
    (f : Attempt → Attempt) (a : Attempt)
    → (f a).status ≡ a.status
    → (is_some a.lease_expires_at ≡ true → is_some (f a).lease_expires_at ≡ true)
    → is_running a ≡ true
    → IsAccounted a
    → IsAccounted (f a)
renewed-IsAccounted f a keeps lease runs (inl l) =
    inl (record { running = keeps ∙ l.running; lease = lease l.lease })
renewed-IsAccounted f a keeps lease runs (inr s) = absurd (s.done.0 (ground arith))

pub Step-IsAccounted :
    {cpu memory : ℕ} (a b : Db)
    → Step cpu memory a b
    → All IsAccounted a.attempts
    → All IsAccounted b.attempts
Step-IsAccounted _ _ (submit db run stage no_run fresh owner queued_run queued_stage free) h = h
Step-IsAccounted _ _ (move db f run target found allowed kr moved) h = h
Step-IsAccounted _ _ (claim db stage a rows now found ready fresh of number leased grants) h =
    All-append IsAccounted db.attempts (a ∷ []) h (inl leased, tt)
Step-IsAccounted _ _ (renew db p f runs kf keeps lease) h =
    All-update_where IsAccounted IsAccounted p f db.attempts
      (λ a old e. renewed-IsAccounted f a (keeps a) (lease a) (runs a e) old) (λ a old e. old) h
Step-IsAccounted _ _ (settle db p f id ids live kf done) h =
    All-update_where IsAccounted IsAccounted p f db.attempts (λ a old e. inr (done a))
      (λ a old e. old) h
Step-IsAccounted _ _ (retry db run stage reason found runs found_run allowed owner) h = h
Step-IsAccounted _ _ (reopen db run stage a reason found is_failed found_stage latest again room)
      h =
    h
Step-IsAccounted _ _ (release db id) h = h
Step-IsAccounted _ _ (log db event) h = h
