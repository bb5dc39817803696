-- ===== src/Plan/Advance.antt =====
-- What one advance of PlanExecutor (apps/plan_executor) does to the plans, and when it raises.
use chip_evolve.Base.{
  ◌≡◌, refl, inl, inr, false, none, some, List, String, arith, Option-cases, first,
}
use chip_evolve.Plan.State.{Plan, Kernel, Outcome, done, raised, heard}
use chip_evolve.Plan.Store.{is_plan, get, update_plan, submitted}
use chip_evolve.Plan.Executor.{
  is_open, settle_cancelled, settle_step, cancel_rest, cancel_plan, advance_open, submit_step,
  submission_key,
}
use chip_evolve.Plan.Bindings.{◌>>=◌, task_for}
use chip_evolve.Plan.Orderly.{IsOrderly}
use chip_evolve.Plan.Changes.{
  IsChange, submitted-IsChange, completed-IsChange, cancel_rest-IsChange, settle_step-IsChange,
}
use chip_evolve.Plan.Cancels.{settle_cancelled-IsChange}

-- A statement list that went through went through its first statement.
pub >>=-done {ℓ μ} :
    {X : Type ℓ} {Y : Type μ} (m : Outcome X) (rest : X → Outcome Y) (y : Y)
    → (m >>= rest) ≡ done y
    → (x : X) × (m ≡ done x) × (rest x ≡ done y)
>>=-done (raised e) rest y h = absurd cc
>>=-done (done x) rest y h = (x, refl, h)

pub done_same {ℓ} : {X : Type ℓ} (a b : X) → done a ≡ done b → a ≡ b
done_same a b h = cc

pub found_plan :
    (id : String) (plans : List Plan) (plan : Plan)
    → get id none false plans ≡ done plan
    → first (is_plan id) plans ≡ some plan
unfolding get
found_plan id plans plan h = elim (Option-cases (first (is_plan id) plans)) [
  | inl absent ↦ absurd (ground arith)
  | inr (p, e) ↦ ground arith
]

module _ (kernel : Kernel) (plan : Plan) (h : IsOrderly plan) (plans after : List Plan) where
  -- What the change leads to, where the outcome is known.
  led_to :
      (out : List Plan)
      → IsChange plan plans out
      → done out ≡ done after
      → IsChange plan plans after
  led_to out c e = rw (← done_same out after e) c

  pub cancel_plan-IsChange : cancel_plan kernel plan plans ≡ done after → IsChange plan plans after
  unfolding cancel_plan
  cancel_plan-IsChange e = elim (Option-cases (first is_open plan.steps)) [
    | inl closed ↦
        let out : done (update_plan plan.plan_id "succeeded" none plans) ≡ done after =
          ground arith in
        led_to (update_plan plan.plan_id "succeeded" none plans)
          (completed-IsChange plan h plans closed) out
    | inr (s, found) ↦ elim (Option-cases s.run_id) [
      | inl unsent ↦
          let out : done (cancel_rest plan plans) ≡ done after = ground arith in
          led_to (cancel_rest plan plans) (cancel_rest-IsChange plan h plans) out
      | inr (run_id, sent) ↦
          let out : (heard (kernel.cancel run_id) >>= λ ok.
          heard (kernel.run run_id) >>= λ detail. done (settle_cancelled plan s detail plans))
              ≡ done after =
            ground arith in
          let (ok, asked, next) =
            >>=-done (heard (kernel.cancel run_id))
              (λ ok.
                heard (kernel.run run_id) >>= λ detail. done (settle_cancelled plan s detail plans))
              after out in
          let (detail, told, last) =
            >>=-done (heard (kernel.run run_id))
              (λ detail. done (settle_cancelled plan s detail plans)) after next in
          led_to (settle_cancelled plan s detail plans)
            (settle_cancelled-IsChange plan h plans s found (ground arith) detail) last
    ]
  ]

  pub advance_open-IsChange :
      advance_open kernel plan plans ≡ done after → IsChange plan plans after
  unfolding advance_open submit_step
  advance_open-IsChange e = elim (Option-cases (first is_open plan.steps)) [
    | inl closed ↦
        let out : done (update_plan plan.plan_id "succeeded" none plans) ≡ done after =
          ground arith in
        led_to (update_plan plan.plan_id "succeeded" none plans)
          (completed-IsChange plan h plans closed) out
    | inr (s, found) ↦ elim (Option-cases s.run_id) [
      | inl unsent ↦
          let out : submit_step kernel plan s plans ≡ done after = ground arith in
          let (task, built, next) =
            >>=-done (task_for kernel plan s)
              (λ task.
                heard (kernel.submit task (submission_key plan.plan_id s.step_id)) >>= λ run_id.
                done (submitted plan.plan_id s.step_id run_id plans))
              after out in
          let (run_id, sent, last) =
            >>=-done (heard (kernel.submit task (submission_key plan.plan_id s.step_id)))
              (λ run_id. done (submitted plan.plan_id s.step_id run_id plans)) after next in
          led_to (submitted plan.plan_id s.step_id run_id plans)
            (submitted-IsChange plan h plans s found run_id) last
      | inr (run_id, sent) ↦
          let out : (heard (kernel.run run_id) >>= λ detail. done (settle_step plan s detail plans))
              ≡ done after =
            ground arith in
          let (detail, told, last) =
            >>=-done (heard (kernel.run run_id)) (λ detail. done (settle_step plan s detail plans))
              after out in
          led_to (settle_step plan s detail plans)
            (settle_step-IsChange plan h plans s found (ground arith) detail) last
    ]
  ]
