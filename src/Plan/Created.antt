-- ===== src/Plan/Created.antt =====
-- A plan that PlanStore.create_owned (apps/plan_executor) accepts starts in order.
use chip_evolve.Base.{
  ℕ, ◌≡◌, refl, inl, inr, true, false, Option, List, [], ◌∷◌, map, String, str_eq, arith,
  Bool-cases, All, All-map, All-append, some_row, IsApart, IsApart-append,
}
use chip_evolve.Contracts.Task.{has_text}
use chip_evolve.Plan.State.{Binding, StepSpec, Plan}
use chip_evolve.Plan.Validate.{is_valid_binding, all_valid_bindings, valid_steps, is_valid_plan}
use chip_evolve.Plan.Store.{is_plan, new_step, new_plan, plan_name, create_owned}
use chip_evolve.Plan.Frontier.{IsUnsent, AreApart, AreBound, unsent-IsFrontier}
use chip_evolve.Plan.Orderly.{IsOrderly}
use chip_evolve.Plan.Changes.{differs}

-- The plans of the service: each in order, and no two with one id.
pub record IsConsistent (plans : List Plan) : Type 0 where
  pub orderly : All IsOrderly plans
  pub apart : IsApart (λ p. p.plan_id) plans

All-IsUnsent : (steps : List StepSpec) → All IsUnsent (map new_step steps)
All-IsUnsent [] = tt
All-IsUnsent (s ∷ rest) = ((refl, refl), All-IsUnsent rest)

bindings_bound :
    (seen : List String) (bs : List Binding)
    → all_valid_bindings seen bs ≡ true
    → All (λ b. has_text seen b.from_step ≡ true) bs
unfolding all_valid_bindings is_valid_binding
bindings_bound seen [] h = tt
bindings_bound seen (b ∷ bs) h = (ground arith, bindings_bound seen bs (ground arith))

-- The tests that a valid step has passed.
step_tests :
    (seen : List String) (s : StepSpec) (rest : List StepSpec)
    → valid_steps seen (s ∷ rest) ≡ true
    → (has_text seen s.step_id ≡ false)
      × (all_valid_bindings seen s.bindings ≡ true)
      × (valid_steps (s.step_id ∷ seen) rest ≡ true)
unfolding valid_steps
step_tests seen s rest h = ground arith

valid-bound :
    (seen : List String) (steps : List StepSpec)
    → valid_steps seen steps ≡ true
    → AreBound seen (map new_step steps)
valid-bound seen [] h = tt
valid-bound seen (s ∷ rest) h =
    let (fresh, bound, more) = step_tests seen s rest h in
    (bindings_bound seen s.bindings bound, valid-bound (s.step_id ∷ seen) rest more)

valid-fresh :
    (seen : List String) (steps : List StepSpec)
    → valid_steps seen steps ≡ true
    → All (λ s. has_text seen s.step_id ≡ false) (map new_step steps)
valid-fresh seen [] h = tt
valid-fresh seen (s ∷ rest) h =
    let (fresh, bound, more) = step_tests seen s rest h in
    (
      fresh,
      All-map (λ t. has_text (s.step_id ∷ seen) t.step_id ≡ false)
          (λ t. has_text seen t.step_id ≡ false) (map new_step rest)
          (λ t e. unfold has_text in ground arith) (valid-fresh (s.step_id ∷ seen) rest more),
    )

valid-apart :
    (seen : List String) (steps : List StepSpec)
    → valid_steps seen steps ≡ true
    → AreApart (map new_step steps)
valid-apart seen [] h = tt
valid-apart seen (s ∷ rest) h =
    let (fresh, bound, more) = step_tests seen s rest h in
    (
      All-map (λ t. has_text (s.step_id ∷ seen) t.step_id ≡ false)
          (λ t. str_eq s.step_id t.step_id ≡ false) (map new_step rest)
          (λ t e. unfold has_text in ground arith) (valid-fresh (s.step_id ∷ seen) rest more),
      valid-apart (s.step_id ∷ seen) rest more,
    )

new_plan-IsOrderly :
    (id : String) (steps : List StepSpec) (owner : Option String) (now : ℕ)
    → is_valid_plan id steps ≡ true
    → IsOrderly (new_plan id steps owner now)
unfolding is_valid_plan
new_plan-IsOrderly id steps owner now valid =
    let good : valid_steps [] steps ≡ true = ground arith in
    record {
      ordered = record {
        frontier = unsent-IsFrontier (map new_step steps) (All-IsUnsent steps);
        apart = valid-apart [] steps good;
        bound = valid-bound [] steps good;
      };
      complete = λ e. absurd (differs "queued" refl e);
    }

pub create-IsConsistent :
    (given : Option String) (steps : List StepSpec) (owner : Option String) (fresh : String)
    (now : ℕ) (plans : List Plan)
    → IsConsistent plans
    → IsConsistent (create_owned given steps owner fresh now plans).1
unfolding create_owned
create-IsConsistent given steps owner fresh now plans h =
    let id = plan_name given fresh in
    elim (Bool-cases (is_valid_plan id steps)) [
      | inr bad ↦ rw bad h
      | inl good ↦ elim (Bool-cases (some_row (is_plan id) plans)) [
        | inl taken ↦ rw good (rw taken h)
        | inr free ↦ rw good (
            rw free (record {
              orderly =
                  All-append IsOrderly plans (new_plan id steps owner now ∷ []) h.orderly
                    (new_plan-IsOrderly id steps owner now good, tt);
              apart =
                  IsApart-append (λ p. p.plan_id) plans (new_plan id steps owner now) free h.apart;
            }))
      ]
    ]
