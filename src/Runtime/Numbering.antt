-- ===== src/Runtime/Numbering.antt =====
-- The attempts of a stage in core/runtime/src/openroad_platform_runtime/store.py are numbered from 1
-- without a gap, so the greatest number, which request_retry compares with the budget, is the count
-- of attempts, which _may_resume compares with it.
use chip_evolve.Base.{
  ℕ, zero, suc, ◌+◌, max, ◌++◌, ◌≡◌, refl, sym, ap, ◌∙◌, Bool, List, [], ◌∷◌, ◌==◌, ==_iff,
  if◌then◌else◌, arith, update_where, Bool-cases, inl, inr,
}
use mathlib.Core.List.{append-nil}
use chip_evolve.Runtime.State.{Attempt, Db}
use chip_evolve.Runtime.Attempts.{last_number}
use chip_evolve.Runtime.Retry.{attempts_made}
use chip_evolve.Runtime.Step.{
  Step, submit, move, claim, renew, settle, retry, reopen, release, log, KeepsAttempt,
}

-- The numbers of a stage's attempts, in the order in which they were made.
unfoldable pub numbers : ℕ → List Attempt → List ℕ
numbers stage [] = []
numbers stage (a ∷ rest) =
    let others = numbers stage rest in
    if a.stage_run_id == stage then a.attempt_number ∷ others else others

-- 1, …, n
unfoldable pub count_up : ℕ → List ℕ
count_up zero = []
count_up (suc n) = count_up n ++ suc n ∷ []

abbrev pub IsNumbered : List Attempt → Type 0
IsNumbered attempts = (stage : ℕ) → numbers stage attempts ≡ count_up (attempts_made stage attempts)

greatest : List ℕ → ℕ
greatest [] = 0
greatest (n ∷ ns) = max n (greatest ns)

greatest-append : (xs ys : List ℕ) → greatest (xs ++ ys) ≡ max (greatest xs) (greatest ys)
unfolding greatest
greatest-append [] ys = omega arith
greatest-append (x ∷ xs) ys = omega (arith, greatest-append xs ys)

greatest-count_up : (n : ℕ) → greatest (count_up n) ≡ n
unfolding greatest count_up
greatest-count_up zero = refl
greatest-count_up (suc n) =
    greatest-append (count_up n) (suc n ∷ [])
    ∙ (unfold greatest in omega (arith, greatest-count_up n))

greatest-numbers :
    (stage : ℕ) (xs : List Attempt) → greatest (numbers stage xs) ≡ last_number stage xs
unfolding greatest numbers last_number
greatest-numbers stage [] = refl
greatest-numbers stage (a ∷ rest) = ground (arith, greatest-numbers stage rest)

-- In a numbered table the greatest number is the count.
pub last_number-eq-made :
    (stage : ℕ) (xs : List Attempt) → IsNumbered xs → last_number stage xs ≡ attempts_made stage xs
last_number-eq-made stage xs h =
    sym (greatest-numbers stage xs) ∙ (ap greatest (h stage) ∙ greatest-count_up _)

numbers-append :
    (stage : ℕ) (xs ys : List Attempt)
    → numbers stage (xs ++ ys) ≡ numbers stage xs ++ numbers stage ys
unfolding numbers
numbers-append stage [] ys = refl
numbers-append stage (a ∷ rest) ys = elim (Bool-cases (a.stage_run_id == stage)) [
  | inl e ↦ rw e (ap (λ ns. a.attempt_number ∷ ns) (numbers-append stage rest ys))
  | inr e ↦ rw e (numbers-append stage rest ys)
]

made-append :
    (stage : ℕ) (xs ys : List Attempt)
    → attempts_made stage (xs ++ ys) ≡ attempts_made stage xs + attempts_made stage ys
unfolding attempts_made
made-append stage [] ys = omega arith
made-append stage (a ∷ rest) ys = ground (arith, made-append stage rest ys)

append-IsNumbered :
    (xs : List Attempt) (a : Attempt)
    → a.attempt_number ≡ suc (last_number a.stage_run_id xs)
    → IsNumbered xs
    → IsNumbered (xs ++ a ∷ [])
append-IsNumbered xs a next h stage = elim (Bool-cases (a.stage_run_id == stage)) [
  | inl e ↦
      let own : a.stage_run_id ≡ stage = (==_iff a.stage_run_id stage).0 e in
      let number : a.attempt_number ≡ suc (attempts_made stage xs) =
        next ∙ ap suc (ap (λ n. last_number n xs) own ∙ last_number-eq-made stage xs h) in
      let made : attempts_made stage (xs ++ a ∷ []) ≡ suc (attempts_made stage xs) =
        made-append stage xs (a ∷ []) ∙ (unfold attempts_made in rw e (omega arith)) in
      rw (made, numbers-append, h stage) (unfold numbers count_up in rw e (rw number))
  | inr e ↦
      let made : attempts_made stage (xs ++ a ∷ []) ≡ attempts_made stage xs =
        made-append stage xs (a ∷ []) ∙ (unfold attempts_made in rw e (omega arith)) in
      rw (made, numbers-append) (unfold numbers in rw e (rw append-nil (h stage)))
]

numbers-update :
    (stage : ℕ) (p : Attempt → Bool) (f : Attempt → Attempt) (xs : List Attempt)
    → KeepsAttempt f
    → (numbers stage (update_where p f xs) ≡ numbers stage xs)
      × (attempts_made stage (update_where p f xs) ≡ attempts_made stage xs)
unfolding numbers attempts_made update_where
numbers-update stage p f [] kf = (refl, refl)
numbers-update stage p f (a ∷ rest) kf =
    ground (arith, kf.stage_run_id a, kf.number a, numbers-update stage p f rest kf)

update-IsNumbered :
    (p : Attempt → Bool) (f : Attempt → Attempt) (xs : List Attempt)
    → KeepsAttempt f
    → IsNumbered xs
    → IsNumbered (update_where p f xs)
update-IsNumbered p f xs kf h stage =
    let (n, m) = numbers-update stage p f xs kf in n ∙ (h stage ∙ sym (ap count_up m))

pub Step-IsNumbered :
    {cpu memory : ℕ} (a b : Db)
    → Step cpu memory a b
    → IsNumbered a.attempts
    → IsNumbered b.attempts
Step-IsNumbered _ _ (submit db run stage no_run fresh owner queued_run queued_stage free) h = h
Step-IsNumbered _ _ (move db f run target found allowed kr moved) h = h
Step-IsNumbered _ _ (claim db stage a rows now found ready fresh of number leased grants) h =
    append-IsNumbered db.attempts a (rw of number) h
Step-IsNumbered _ _ (renew db p f runs kf keeps lease) h = update-IsNumbered p f db.attempts kf h
Step-IsNumbered _ _ (settle db p f id ids live kf done) h = update-IsNumbered p f db.attempts kf h
Step-IsNumbered _ _ (retry db run stage reason found runs found_run allowed owner) h = h
Step-IsNumbered _ _ (reopen db run stage a reason found is_failed found_stage latest again room) h =
    h
Step-IsNumbered _ _ (release db id) h = h
Step-IsNumbered _ _ (log db event) h = h
