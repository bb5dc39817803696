-- ===== src/Plan/Resolved.antt =====
-- A binding of a plan (apps/plan_executor) that was accepted finds its step: no KeyError.
use chip_evolve.Base.{
  ◌≡◌, refl, inl, inr, Bool, true, false, ◌||◌, some, List, [], ◌∷◌, String, str_eq, arith,
  Bool-cases, Option-cases, All, All-map, All-first, first, some_row, select,
}
use chip_evolve.Contracts.Task.{has_text}
use chip_evolve.Plan.State.{
  Binding, Step, Plan, ArtifactView, Kernel, Outcome, done, raised, kernel_unavailable,
  kernel_error, plan_error, key_error, Reply, answered, unavailable, refused, heard,
}
use chip_evolve.Plan.Store.{is_plan, is_step, get}
use chip_evolve.Plan.Executor.{
  is_open, submit_step, cancel_plan, advance_open, advance, submission_key,
}
use chip_evolve.Plan.Bindings.{
  ◌>>=◌, step_by_id, only_match, matches_binding, bind_inputs, task_for,
}
use chip_evolve.Plan.Frontier.{AreBound}
use chip_evolve.Plan.Orderly.{IsOrderly}

abbrev pub is_key_error {ℓ} : {A : Type ℓ} → Outcome A → Bool
is_key_error (raised key_error) = true
is_key_error _ = false

module _ {ℓ μ} {X : Type ℓ} {Y : Type μ} where
  bound_safe :
      (m : Outcome X) (rest : X → Outcome Y)
      → is_key_error m ≡ false
      → ((x : X) → is_key_error (rest x) ≡ false)
      → is_key_error (m >>= rest) ≡ false
  bound_safe (done x) rest h k = k x
  bound_safe (raised (kernel_unavailable t)) rest h k = refl
  bound_safe (raised (kernel_error t)) rest h k = refl
  bound_safe (raised (plan_error c)) rest h k = refl
  bound_safe (raised key_error) rest h k = absurd (ground arith)

heard_safe {ℓ} : {X : Type ℓ} (r : Reply X) → is_key_error (heard r) ≡ false
heard_safe (answered x) = refl
heard_safe (unavailable t) = refl
heard_safe (refused t) = refl

only_safe : (xs : List ArtifactView) → is_key_error (only_match xs) ≡ false
only_safe [] = refl
only_safe (a ∷ []) = refl
only_safe (a ∷ b ∷ rest) = refl

-- The sources of a step's bindings are among the steps.
abbrev HasSources : List Step → List Binding → Type 0
HasSources steps = All (λ b. some_row (is_step b.from_step) steps ≡ true)

sources_before :
    (q : Step → Bool) (seen : List String) (steps : List Step) (s : Step)
    → AreBound seen steps
    → first q steps ≡ some s
    → All
        (λ b. (has_text seen b.from_step || some_row (is_step b.from_step) steps) ≡ true)
        s.bindings
unfolding first
sources_before q seen [] s h found = absurd (ground arith)
sources_before q seen (x ∷ rest) s h found = elim (Bool-cases (q x)) [
  | inl e ↦
      let same : x ≡ s = ground arith in
      rw (← same) (
        All-map (λ b. has_text seen b.from_step ≡ true)
          (λ b. (has_text seen b.from_step || some_row (is_step b.from_step) (x ∷ rest)) ≡ true)
          x.bindings (λ b e. ground arith) h.0)
  | inr e ↦
      All-map
        (λ b.
          (has_text (x.step_id ∷ seen) b.from_step || some_row (is_step b.from_step) rest) ≡ true)
        (λ b. (has_text seen b.from_step || some_row (is_step b.from_step) (x ∷ rest)) ≡ true)
        s.bindings (λ b e. unfold has_text some_row in ground arith)
        (sources_before q (x.step_id ∷ seen) rest s h.1 (rw e at found))
]

sources_found :
    (q : Step → Bool) (steps : List Step) (s : Step)
    → AreBound [] steps
    → first q steps ≡ some s
    → HasSources steps s.bindings
sources_found q steps s h found =
    All-map (λ b. (has_text [] b.from_step || some_row (is_step b.from_step) steps) ≡ true)
      (λ b. some_row (is_step b.from_step) steps ≡ true) s.bindings
      (λ b e. unfold has_text in ground arith) (sources_before q [] steps s h found)

row_found {ℓ} :
    {A : Type ℓ} (p : A → Bool) (xs : List A)
    → some_row p xs ≡ true
    → (x : A) × (first p xs ≡ some x)
unfolding first some_row
row_found p [] h = absurd (ground arith)
row_found p (x ∷ xs) h = elim (Bool-cases (p x)) [
  | inl e ↦ (x, rw e refl)
  | inr e ↦ let (y, found) = row_found p xs (rw e at h) in (y, rw e found)
]

bind_safe :
    (kernel : Kernel) (steps : List Step) (bs : List Binding)
    → HasSources steps bs
    → is_key_error (bind_inputs kernel steps bs) ≡ false
unfolding bind_inputs
bind_safe kernel steps [] h = refl
bind_safe kernel steps (b ∷ rest) h =
    bound_safe (step_by_id b.from_step steps) _ (source_safe b h.0) (λ source.
      bound_safe (heard (kernel.artifacts source.run_id)) _
        (heard_safe (kernel.artifacts source.run_id))
        (λ artifacts.
          bound_safe (only_match (select (matches_binding b) artifacts)) _
            (only_safe (select (matches_binding b) artifacts))
            (λ found.
              bound_safe (bind_inputs kernel steps rest) _ (bind_safe kernel steps rest h.1)
                (λ others. refl))))
  where
    source_safe :
        (c : Binding)
        → some_row (is_step c.from_step) steps ≡ true
        → is_key_error (step_by_id c.from_step steps) ≡ false
    source_safe c e =
        let (x, found) = row_found (is_step c.from_step) steps e in rw (found, is_key_error) refl

module _ (kernel : Kernel) (plan : Plan) (h : IsOrderly plan) (plans : List Plan) where
  submit_safe :
      (s : Step)
      → first is_open plan.steps ≡ some s
      → is_key_error (submit_step kernel plan s plans) ≡ false
  unfolding submit_step task_for
  submit_safe s found =
      bound_safe (task_for kernel plan s) _
        (bound_safe (bind_inputs kernel plan.steps s.bindings) _
          (bind_safe kernel plan.steps s.bindings
            (sources_found is_open plan.steps s h.ordered.bound found))
          (λ bound. refl))
        (λ task.
          bound_safe (heard (kernel.submit task (submission_key plan.plan_id s.step_id))) _
            (heard_safe (kernel.submit task (submission_key plan.plan_id s.step_id)))
            (λ run_id. refl))

  open_safe : is_key_error (advance_open kernel plan plans) ≡ false
  unfolding advance_open
  open_safe = elim (Option-cases (first is_open plan.steps)) [
    | inl closed ↦ rw (closed, is_key_error) refl
    | inr (s, found) ↦ elim (Option-cases s.run_id) [
      | inl unsent ↦ rw (found, is_key_error) (rw (unsent, is_key_error) (submit_safe s found))
      | inr (run_id, sent) ↦
          rw (found, is_key_error)
            (rw (sent, is_key_error)
              (bound_safe (heard (kernel.run run_id)) _ (heard_safe (kernel.run run_id))
                (λ detail. refl)))
    ]
  ]

  cancel_safe : is_key_error (cancel_plan kernel plan plans) ≡ false
  unfolding cancel_plan
  cancel_safe = elim (Option-cases (first is_open plan.steps)) [
    | inl closed ↦ rw (closed, is_key_error) refl
    | inr (s, found) ↦ elim (Option-cases s.run_id) [
      | inl unsent ↦ rw (found, is_key_error) (rw (unsent, is_key_error) refl)
      | inr (run_id, sent) ↦
          rw (found, is_key_error)
            (rw (sent, is_key_error)
              (bound_safe (heard (kernel.cancel run_id)) _ (heard_safe (kernel.cancel run_id))
                (λ ok.
                  bound_safe (heard (kernel.run run_id)) _ (heard_safe (kernel.run run_id))
                    (λ detail. refl))))
    ]
  ]

pub advance_safe :
    (kernel : Kernel) (id : String) (plans : List Plan)
    → All IsOrderly plans
    → is_key_error (advance kernel id plans) ≡ false
unfolding advance get
advance_safe kernel id plans h = elim (Option-cases (first (is_plan id) plans)) [
  | inl absent ↦ rw (absent, is_key_error) refl
  | inr (plan, found) ↦
      let good : IsOrderly plan = All-first IsOrderly (is_plan id) plans h found in
      elim (Bool-cases (str_eq plan.status "cancel_requested")) [
        | inl e ↦
            rw (found, is_key_error) (rw (e, is_key_error) (cancel_safe kernel plan good plans))
        | inr e ↦ rw (found, is_key_error) (rw (e, is_key_error) (open_safe kernel plan good plans))
      ]
]
