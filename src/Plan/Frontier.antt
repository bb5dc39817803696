-- ===== src/Plan/Frontier.antt =====
-- How far the steps of a plan (apps/plan_executor) have come: those that succeeded, the one at work, and
-- those never submitted.
use chip_evolve.Base.{
  ◌≡◌, ◌⊎◌, inl, inr, Bool, true, false, none, some, List, [], ◌∷◌, String, str_eq, str_eq_refl,
  is_some, arith, Bool-cases, All, All-map, All-first, All-update_where, first, select,
  update_where, IsApart, rest_missed, update_where-miss,
}
use chip_evolve.Contracts.Task.{has_text}
use chip_evolve.Plan.State.{Step}
use chip_evolve.Plan.Store.{is_step}
use chip_evolve.Plan.Executor.{is_succeeded, is_open}

-- A step that was never submitted.
abbrev pub IsUnsent : Step → Type 0
IsUnsent s = (s.run_id ≡ none) × (is_succeeded s ≡ false)

-- The steps that succeeded have runs, and nothing after the first other step was ever submitted.
abbrev pub IsFrontier : List Step → Type 0
IsFrontier [] = Unit
IsFrontier (s ∷ rest) =
    ((is_succeeded s ≡ true) × (is_some s.run_id ≡ true) × IsFrontier rest)
    ⊎ ((is_succeeded s ≡ false) × All IsUnsent rest)

abbrev pub AreApart : List Step → Type 0
AreApart = IsApart (λ s. s.step_id)

-- Every binding of a step refers to a step before it.
abbrev pub AreBound : List String → List Step → Type 0
AreBound seen [] = Unit
AreBound seen (s ∷ rest) =
    All (λ b. has_text seen b.from_step ≡ true) s.bindings × AreBound (s.step_id ∷ seen) rest

pub unsent-IsFrontier : (steps : List Step) → All IsUnsent steps → IsFrontier steps
unsent-IsFrontier [] h = tt
unsent-IsFrontier (s ∷ rest) h = inr (h.0.1, h.1)

-- A change of the step at work, which the plan takes up or settles.
pub pending-IsFrontier :
    (f : Step → Step) (steps : List Step) (s : Step)
    → IsFrontier steps
    → AreApart steps
    → first is_open steps ≡ some s
    → (is_succeeded (f s) ≡ true → is_some (f s).run_id ≡ true)
    → IsFrontier (update_where (is_step s.step_id) f steps)
unfolding first update_where
pending-IsFrontier f [] s h apart found ran = tt
pending-IsFrontier f (x ∷ rest) s (inl (won, run, more)) apart found ran =
    let later : first is_open rest ≡ some s = ground arith in
    let other : is_step s.step_id x ≡ false =
      All-first (λ y. str_eq x.step_id y.step_id ≡ false) is_open rest apart.0 later in
    rw other (inl (won, run, pending-IsFrontier f rest s more apart.1 later ran))
pending-IsFrontier f (x ∷ rest) s (inr (not_won, unsent)) apart found ran =
    let same : x ≡ s = ground arith in
    let own : is_step s.step_id x ≡ true = rw same (str_eq_refl s.step_id) in
    rw own (
      rw
        (update_where-miss (is_step s.step_id) f rest
          (rest_missed (λ t. t.step_id) x s.step_id rest own apart.0))
        (rw same (elim (Bool-cases (is_succeeded (f s))) [
          | inl e ↦ inl (e, ran e, unsent-IsFrontier rest unsent)
          | inr e ↦ inr (e, unsent)
        ])))

-- No step of this id has succeeded.
abbrev pub NoneWon : String → List Step → Type 0
NoneWon id = All (λ t. is_step id t ≡ true → is_succeeded t ≡ false)

-- A change that leaves a step without success and its run alone.
pub record IsLoss (f : Step → Step) : Type 0 where
  pub lost : (s : Step) → is_succeeded (f s) ≡ false
  pub run : (s : Step) → (f s).run_id ≡ s.run_id

pub loss-IsFrontier :
    (id : String) (f : Step → Step) (steps : List Step)
    → IsLoss f
    → NoneWon id steps
    → IsFrontier steps
    → IsFrontier (update_where (is_step id) f steps)
unfolding update_where
loss-IsFrontier id f [] l h fr = tt
loss-IsFrontier id f (x ∷ rest) l h (inl (won, run, more)) = elim (Bool-cases (is_step id x)) [
  | inl e ↦ absurd (ground (arith, h.0 e))
  | inr e ↦ rw e (inl (won, run, loss-IsFrontier id f rest l h.1 more))
]
loss-IsFrontier id f (x ∷ rest) l h (inr (not_won, unsent)) = inr (
  ground (arith, l.lost x, not_won),
  All-update_where IsUnsent IsUnsent (is_step id) f rest (λ s u e. (rw (l.run s) u.0, l.lost s))
      (λ s u e. u) unsent,
)

pub loss-NoneWon :
    (id other : String) (f : Step → Step) (steps : List Step)
    → IsLoss f
    → NoneWon id steps
    → NoneWon id (update_where (is_step other) f steps)
loss-NoneWon id other f steps l =
    All-update_where (λ t. is_step id t ≡ true → is_succeeded t ≡ false)
      (λ t. is_step id t ≡ true → is_succeeded t ≡ false) (is_step other) f steps
      (λ s old e own. l.lost s) (λ s old e. old)

All-both {ℓ κ μ} :
    {A : Type ℓ} (P : A → Type κ) (Q : A → Type μ) (xs : List A)
    → All P xs
    → All Q xs
    → All (λ x. P x × Q x) xs
All-both P Q [] p q = tt
All-both P Q (x ∷ xs) p q = ((p.0, q.0), All-both P Q xs p.1 q.1)

pub All-select {ℓ κ μ} :
    {A : Type ℓ} (P : A → Type κ) (Q : A → Type μ) (p : A → Bool) (xs : List A)
    → ((x : A) → P x → p x ≡ true → Q x)
    → All P xs
    → All Q (select p xs)
unfolding select
All-select P Q p [] f h = tt
All-select P Q p (x ∷ xs) f h = elim (Bool-cases (p x)) [
  | inl e ↦ rw e (f x h.0 e, All-select P Q p xs f h.1)
  | inr e ↦ rw e (All-select P Q p xs f h.1)
]

-- Each step that has not succeeded has its id alone.
pub open-NoneWon :
    (steps : List Step)
    → AreApart steps
    → All (λ s. is_open s ≡ true → NoneWon s.step_id steps) steps
open-NoneWon [] h = tt
open-NoneWon (x ∷ rest) h = (
  (λ is_left. (
    (λ e. ground arith),
    All-map (λ y. is_step x.step_id y ≡ false)
        (λ y. is_step x.step_id y ≡ true → is_succeeded y ≡ false) rest
        (λ y m e. absurd (ground arith))
        (rest_missed (λ t. t.step_id) x x.step_id rest (str_eq_refl x.step_id) h.0),
  )),
  All-map (λ s. (str_eq x.step_id s.step_id ≡ false) × (is_open s ≡ true → NoneWon s.step_id rest))
      (λ s. is_open s ≡ true → NoneWon s.step_id (x ∷ rest)) rest
      (λ s both is_left. ((λ e. absurd (ground (arith, both.0))), both.1 is_left))
      (All-both (λ s. str_eq x.step_id s.step_id ≡ false)
        (λ s. is_open s ≡ true → NoneWon s.step_id rest) rest h.0 (open-NoneWon rest h.1)),
)
