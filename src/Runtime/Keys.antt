-- ===== src/Runtime/Keys.antt =====
-- An idempotency key of core/runtime/src/openroad_platform_runtime/store.py names one run, and a run
-- that has settled for good keeps its record.
use chip_evolve.Base.{
  ℕ, ◌++◌, ◌≡◌, refl, sym, ap, ◌∙◌, ◌≢◌, inl, inr, Bool, true, false, none, some, List, [], ◌∷◌,
  ◌==◌, ==_iff, arith, first, update_where, All, All-append, All-map, All-update_where, Bool-cases,
  first-append, first-update_where, column-update_where, column-append, String, str_eq_refl,
  opt_str_eq,
}
use mathlib.Core.Option
use chip_evolve.Contracts.Status.{RuntimeStatus, retry_wait, failed, is_terminal}
use chip_evolve.Contracts.Status.Laws.{allowed-is_terminal}
use chip_evolve.Runtime.State.{Run, Db}
use chip_evolve.Runtime.Runs.{is_run}
use chip_evolve.Runtime.Submit.{has_key}
use chip_evolve.Runtime.Attempts.{run_run, is_claimable_run}
use chip_evolve.Runtime.Retry.{wait_run}
use chip_evolve.Runtime.Step.{
  Step, submit, move, claim, renew, settle, retry, reopen, release, log, KeepsRun, keeps_run,
}
use chip_evolve.Runtime.Sync.{found_same, found_id}

-- The lookup by a run's key finds that run.
abbrev pub OwnsKey : List Run → Run → Type 0
OwnsKey runs r =
    (key : String)
    → r.idempotency_key ≡ some key
    → Option.map (λ t. t.run_id) (first (has_key key) runs) ≡ some r.run_id

abbrev pub KeysAreOwned : Db → Type 0
KeysAreOwned db = All (OwnsKey db.runs) db.runs

update-OwnsKey :
    (p : Run → Bool) (f : Run → Run) (runs : List Run)
    → KeepsRun f
    → All (OwnsKey runs) runs
    → All (OwnsKey (update_where p f runs)) (update_where p f runs)
update-OwnsKey p f runs kr =
    All-update_where (OwnsKey runs) (OwnsKey (update_where p f runs)) p f runs
      (λ r old e key given.
        found key ∙ (old key (sym (kr.key r) ∙ given) ∙ ap some (sym (kr.run_id r))))
      (λ r old e key given. found key ∙ old key given)
  where
    found :
        (key : String)
        → Option.map (λ t. t.run_id) (first (has_key key) (update_where p f runs))
          ≡ Option.map (λ t. t.run_id) (first (has_key key) runs)
    found key =
        column-update_where (λ t. t.run_id) (has_key key) p f runs
          (λ r. ap (λ k. opt_str_eq k (some key)) (kr.key r)) kr.run_id

submit-OwnsKey :
    (runs : List Run) (run : Run)
    → ((key : String) → run.idempotency_key ≡ some key → first (has_key key) runs ≡ none)
    → All (OwnsKey runs) runs
    → All (OwnsKey (runs ++ run ∷ [])) (runs ++ run ∷ [])
submit-OwnsKey runs run free h =
    All-append (OwnsKey (runs ++ run ∷ [])) runs (run ∷ [])
      (All-map (OwnsKey runs) (OwnsKey (runs ++ run ∷ [])) runs
        (λ r old key given.
          column-append (λ t. t.run_id) (has_key key) runs (run ∷ []) (old key given))
        h)
      (
        λ key given. rw (first-append, free key given) (unfold first in rw given (rw str_eq_refl)),
        tt,
      )

pub Step-KeysAreOwned :
    {cpu memory : ℕ} (a b : Db) → Step cpu memory a b → KeysAreOwned a → KeysAreOwned b
Step-KeysAreOwned _ _ (submit db run stage no_run fresh owner queued_run queued_stage free) h =
    submit-OwnsKey db.runs run free h
Step-KeysAreOwned _ _ (move db f run target found allowed kr moved) h =
    update-OwnsKey (is_run run.run_id) f db.runs kr h
Step-KeysAreOwned _ _ (claim db stage a rows now found ready fresh of number leased grants) h =
    update-OwnsKey (is_claimable_run stage.run_id) (run_run now) db.runs
      (keeps_run (run_run now) λ r. (refl, refl, refl)) h
Step-KeysAreOwned _ _ (renew db p f runs kf keeps lease) h = h
Step-KeysAreOwned _ _ (settle db p f id ids live kf done) h = h
Step-KeysAreOwned _ _ (retry db run stage reason found runs found_run allowed owner) h =
    update-OwnsKey (is_run run.run_id) (wait_run reason) db.runs
      (keeps_run (wait_run reason) λ r. (refl, refl, refl)) h
Step-KeysAreOwned _ _ (reopen db run stage a reason found is_failed found_stage latest again room)
      h =
    update-OwnsKey (is_run run.run_id) (wait_run reason) db.runs
      (keeps_run (wait_run reason) λ r. (refl, refl, refl)) h
Step-KeysAreOwned _ _ (release db id) h = h
Step-KeysAreOwned _ _ (log db event) h = h

-- A status that a run never leaves: terminal, and not `failed`, which a retry may reopen.
pub record IsFinal (s : RuntimeStatus) : Type 0 where
  pub terminal : is_terminal s ≡ true
  pub not_failed : s ≢ failed

skipped_run :
    (runs : List Run) (p : Run → Bool) (f : Run → Run) (id : ℕ) (r : Run)
    → KeepsRun f
    → first (is_run id) runs ≡ some r
    → p r ≡ false
    → first (is_run id) (update_where p f runs) ≡ some r
skipped_run runs p f id r kr found skip =
    first-update_where (is_run id) p f runs (λ x. ap (λ n. n == id) (kr.run_id x))
    ∙ (rw found (rw skip))

-- An update of the one run with another status passes over `r`.
other_run :
    (runs : List Run) (id : ℕ) (run r : Run)
    → first (is_run run.run_id) runs ≡ some run
    → first (is_run id) runs ≡ some r
    → run.status ≢ r.status
    → is_run run.run_id r ≡ false
other_run runs id run r found h differ =
    let own : r.run_id ≡ id = found_id runs id h in
    elim (Bool-cases (is_run run.run_id r)) [
      | inr e ↦ e
      | inl e ↦
          let same : r.run_id ≡ run.run_id = (==_iff r.run_id run.run_id).0 e in
          absurd
            (differ (ap (λ x. x.status) (found_same runs run.run_id id found h (sym same ∙ own))))
    ]

not_final : (s t : RuntimeStatus) → IsFinal t → is_terminal s ≡ false → s ≢ t
not_final s t final active e =
    let same : is_terminal s ≡ is_terminal t = ap is_terminal e in ground (arith, final.terminal)

pub Step-final :
    {cpu memory : ℕ} (id : ℕ) (r : Run) (a b : Db)
    → Step cpu memory a b
    → IsFinal r.status
    → first (is_run id) a.runs ≡ some r
    → first (is_run id) b.runs ≡ some r
Step-final id r _ _ (submit db run stage no_run fresh owner queued_run queued_stage free) o h =
    rw (first-append, h)
Step-final id r _ _ (move db f run target found allowed kr moved) o h =
    skipped_run db.runs (is_run run.run_id) f id r kr h (
      other_run db.runs id run r found h
        (not_final run.status r.status o (allowed-is_terminal run.status target allowed)))
Step-final id r _ _ (claim db stage a rows now found ready fresh of number leased grants) o h =
    skipped_run db.runs (is_claimable_run stage.run_id) (run_run now) id r
      (keeps_run (run_run now) λ x. (refl, refl, refl)) h
      (unfold is_terminal in ground (arith, o.terminal))
Step-final id r _ _ (renew db p f runs kf keeps lease) o h = h
Step-final id r _ _ (settle db p f other ids live kf done) o h = h
Step-final id r _ _ (retry db run stage reason found runs found_run allowed owner) o h =
    skipped_run db.runs (is_run run.run_id) (wait_run reason) id r
      (keeps_run (wait_run reason) λ x. (refl, refl, refl)) h
      (other_run db.runs id run r found_run h
        (not_final run.status r.status o (allowed-is_terminal run.status retry_wait allowed)))
Step-final id r _ _ (reopen db run stage a reason found is_failed found_stage latest again room) o
      h =
    skipped_run db.runs (is_run run.run_id) (wait_run reason) id r
      (keeps_run (wait_run reason) λ x. (refl, refl, refl)) h
      (other_run db.runs id run r found h (λ e. o.not_failed (sym e ∙ is_failed)))
Step-final id r _ _ (release db other) o h = h
Step-final id r _ _ (log db event) o h = h
