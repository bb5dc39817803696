-- ===== src/Plan/Cancels.antt =====
-- PlanExecutor._cancel and _advance (apps/plan_executor) as changes of the plan's rows.
use chip_evolve.Base.{
  ◌≡◌, refl, sym, ◌∙◌, inl, inr, Bool, true, false, not, ◌&&◌, Option, none, some, List, [], ◌∷◌,
  String, str_eq, str_eq_iff, is_some, arith, if◌then◌else◌, Bool-cases, All, All-update_where,
  first, select, update_where, update_where-twice,
}
use chip_evolve.Plan.State.{Step, PlanFailure, Plan, Detail, active_statuses}
use chip_evolve.Plan.Store.{
  is_plan, is_step, is_in, set_plan, set_step, in_steps, update_plan, step_status,
}
use chip_evolve.Plan.Executor.{is_succeeded, is_open, cancel_steps, finish_late, settle_cancelled}
use chip_evolve.Plan.Frontier.{NoneWon, open-NoneWon, All-select}
use chip_evolve.Plan.Orderly.{IsOrderly, cancel_rows, cancel_rows-IsOrdered, none_left-AllWon}
use chip_evolve.Plan.Changes.{
  IsChange, differs, then_update, cancel_steps-made, settled_steps, last_won-IsChange,
  step_status-IsChange, end_plan-IsChange, cancel_rest-IsChange,
}

-- Another step's success is none of a step with a different id.
other-NoneWon :
    (id other : String) (status : String) (failure : Option PlanFailure) (steps : List Step)
    → str_eq id other ≡ false
    → NoneWon id steps
    → NoneWon id (update_where (is_step other) (set_step status failure) steps)
other-NoneWon id other status failure steps apart =
    All-update_where (λ t. is_step id t ≡ true → is_succeeded t ≡ false)
      (λ t. is_step id t ≡ true → is_succeeded t ≡ false) (is_step other) (set_step status failure)
      steps
      (λ t old e own.
        let a : t.step_id ≡ other = (str_eq_iff t.step_id other).0 e in
        let b : t.step_id ≡ id = (str_eq_iff t.step_id id).0 own in
        let same : str_eq id other ≡ true = (str_eq_iff id other).1 (sym b ∙ a) in
        absurd (ground arith))
      (λ t old e. old)

-- What holds of both branches of a test.
either {ℓ κ} :
    {A : Type ℓ} {x y : A} (P : A → Type κ) (b : Bool) → P x → P y → P (if b then x else y)
either P true p q = p
either P false p q = q

module _ (plan : Plan) (h : IsOrderly plan) (plans : List Plan) where
  module _ (s : Step) (found : first is_open plan.steps ≡ some s) (sent : is_some s.run_id ≡ true)
      (detail : Detail) where
    -- The steps that _cancel finds left when the run of its step has succeeded.
    abbrev left : Step → Bool
    left t = not (str_eq t.step_id s.step_id) && is_open t

    abbrev won_rows : List Step → List Step
    won_rows = update_where (is_step s.step_id) (set_step detail.status none)

    left-NoneWon : All (λ t. NoneWon t.step_id (won_rows plan.steps)) (select left plan.steps)
    left-NoneWon =
        All-select (λ t. is_open t ≡ true → NoneWon t.step_id plan.steps)
          (λ t. NoneWon t.step_id (won_rows plan.steps)) left plan.steps
          (λ t own e.
            other-NoneWon t.step_id s.step_id detail.status none plan.steps (ground arith)
              (own (ground arith)))
          (open-NoneWon plan.steps h.ordered.apart)

    late_rows-IsChange :
        (rows : List Step)
        → All (λ t. NoneWon t.step_id (won_rows plan.steps)) rows
        → IsChange plan plans (
            update_plan plan.plan_id "cancelled" none (
              cancel_steps plan.plan_id rows
                (step_status plan.plan_id s.step_id detail.status none plans)))
    unfolding update_plan step_status
    late_rows-IsChange rows none_won = record {
      change = λ p. set_plan "cancelled" none (in_steps (cancel_rows rows) (in_steps won_rows p));
      keeps = λ p. refl;
      made =
          then_update plan.plan_id (λ p. in_steps (cancel_rows rows) (in_steps won_rows p))
            (set_plan "cancelled" none) plans
            (cancel_steps plan.plan_id rows
              (step_status plan.plan_id s.step_id detail.status none plans))
            (λ p. refl)
            (cancel_steps-made plan.plan_id rows
                (step_status plan.plan_id s.step_id detail.status none plans)
              ∙ update_where-twice (is_plan plan.plan_id) (in_steps won_rows)
                  (in_steps (cancel_rows rows)) plans (λ p. refl));
      orderly = record {
        ordered =
            cancel_rows-IsOrdered rows (won_rows plan.steps) none_won
              (settled_steps plan h plans s found detail.status none sent);
        complete = λ e. absurd (differs "cancelled" refl e);
      };
    }

    finish_late-IsChange :
        str_eq detail.status "succeeded" ≡ true
        → (rows : List Step) → select left plan.steps ≡ rows
        → IsChange plan plans
            (finish_late plan rows (step_status plan.plan_id s.step_id detail.status none plans))
    finish_late-IsChange won [] e =
        last_won-IsChange plan h plans s found sent detail
          (none_left-AllWon s.step_id (set_step detail.status none) plan.steps (λ t. won) e)
    finish_late-IsChange won (r ∷ rest) e = late_rows-IsChange (r ∷ rest) (rw e at left-NoneWon)

    pub settle_cancelled-IsChange : IsChange plan plans (settle_cancelled plan s detail plans)
    unfolding settle_cancelled
    settle_cancelled-IsChange = elim (Bool-cases (is_in active_statuses detail.status)) [
      | inl e ↦ rw e (step_status-IsChange plan h plans s found detail.status none sent)
      | inr e ↦ elim (Bool-cases (str_eq detail.status "succeeded")) [
        | inl won ↦ rw e (rw won (finish_late-IsChange won (select left plan.steps) refl))
        | inr lost ↦ rw e (
            rw lost (
              either (IsChange plan plans) (not (str_eq detail.status "cancelled"))
                (end_plan-IsChange plan h plans s found detail sent)
                (cancel_rest-IsChange plan h plans)))
      ]
    ]
