-- ===== src/Plan/Changes.antt =====
-- Each outcome of an advance of PlanExecutor (apps/plan_executor) as one change of its plan's rows.
use chip_evolve.Base.{
  ◌≡◌, refl, ap, ◌∙◌, ◌≢◌, inl, inr, true, false, Option, none, some, List, [], ◌∷◌, String, str_eq,
  str_eq_iff, is_some, arith, Bool-cases, All-first, first, first_holds, select, update_where,
  update_where-twice,
}
use chip_evolve.Plan.State.{Step, PlanFailure, Plan, Detail, active_statuses, failed_statuses}
use chip_evolve.Plan.Store.{
  is_plan, is_step, is_in, set_plan, set_step, in_steps, give_run, run_plan, update_plan,
  step_status, submitted,
}
use chip_evolve.Plan.Executor.{
  is_succeeded, is_open, cancellation, classify_failure, ending, end_plan, others_done, settle_step,
  cancel_steps, cancel_rest,
}
use chip_evolve.Plan.Frontier.{NoneWon, open-NoneWon, All-select}
use chip_evolve.Plan.Orderly.{
  IsOrdered, IsOrderly, AllWon, pending-IsOrdered, set_step-KeepsStep, cancel_rows,
  cancel_rows-IsOrdered, no_open-AllWon, others_done-AllWon,
}

-- The plan's rows are changed at once, and are in order afterwards.
pub record IsChange (plan : Plan) (plans after : List Plan) : Type 0 where
  pub change : Plan → Plan
  pub keeps : (p : Plan) → (change p).plan_id ≡ p.plan_id
  pub made : after ≡ update_where (is_plan plan.plan_id) change plans
  pub orderly : IsOrderly (change plan)

pub differs : (s : String) → str_eq s "succeeded" ≡ false → s ≢ "succeeded"
differs s h e =
    let same : str_eq s "succeeded" ≡ true = (str_eq_iff s "succeeded").1 e in absurd (ground arith)

ending_differs : (s : String) → ending s ≢ "succeeded"
ending_differs s = elim (Bool-cases (is_in failed_statuses s)) [
  | inl e ↦
      rw e (λ h. absurd (let lost : is_in failed_statuses "succeeded" ≡ true = rw h at e in cc))
  | inr e ↦ rw e (differs "failed" refl)
]

-- An update of rows after another one.
pub then_update :
    (id : String) (f g : Plan → Plan) (plans after : List Plan)
    → ((p : Plan) → (f p).plan_id ≡ p.plan_id)
    → after ≡ update_where (is_plan id) f plans
    → update_where (is_plan id) g after ≡ update_where (is_plan id) (λ p. g (f p)) plans
then_update id f g plans after keeps made =
    ap (update_where (is_plan id) g) made
    ∙ update_where-twice (is_plan id) f g plans (λ p. ap (λ k. str_eq k id) (keeps p))

update_same :
    (id : String) (plans : List Plan) → plans ≡ update_where (is_plan id) (in_steps (λ s. s)) plans
unfolding update_where
update_same id [] = refl
update_same id (p ∷ plans) = elim (Bool-cases (is_plan id p)) [
  | inl e ↦ rw e (ap (λ ps. p ∷ ps) (update_same id plans))
  | inr e ↦ rw e (ap (λ ps. p ∷ ps) (update_same id plans))
]

pub cancel_steps-made :
    (id : String) (rows : List Step) (plans : List Plan)
    → cancel_steps id rows plans ≡ update_where (is_plan id) (in_steps (cancel_rows rows)) plans
unfolding cancel_steps step_status
cancel_steps-made id [] plans = update_same id plans
cancel_steps-made id (s ∷ rest) plans =
    cancel_steps-made id rest (step_status id s.step_id "cancelled" (some cancellation) plans)
    ∙ update_where-twice (is_plan id)
        (in_steps (update_where (is_step s.step_id) (set_step "cancelled" (some cancellation))))
        (in_steps (cancel_rows rest)) plans (λ p. refl)

module _ (plan : Plan) (h : IsOrderly plan) (plans : List Plan) where
  -- A plan with an open step is not complete.
  not_complete : (s : Step) → first is_open plan.steps ≡ some s → plan.status ≢ "succeeded"
  not_complete s found e =
      let won : is_succeeded s ≡ true =
        All-first (λ t. is_succeeded t ≡ true) is_open plan.steps (h.complete e) found in
      let left : is_open s ≡ true = first_holds is_open plan.steps found in absurd (ground arith)

  module _ (s : Step) (found : first is_open plan.steps ≡ some s) where
    pub settled_steps :
        (status : String) (failure : Option PlanFailure)
        → is_some s.run_id ≡ true
        → IsOrdered (update_where (is_step s.step_id) (set_step status failure) plan.steps)
    settled_steps status failure sent =
        pending-IsOrdered (set_step status failure) plan.steps s (set_step-KeepsStep status failure)
          h.ordered found (λ e. sent)

    pub step_status-IsChange :
        (status : String) (failure : Option PlanFailure)
        → is_some s.run_id ≡ true
        → IsChange plan plans (step_status plan.plan_id s.step_id status failure plans)
    unfolding step_status
    step_status-IsChange status failure sent = record {
      change = in_steps (update_where (is_step s.step_id) (set_step status failure));
      keeps = λ p. refl;
      made = refl;
      orderly = record {
        ordered = settled_steps status failure sent;
        complete = λ e. absurd (not_complete s found e);
      };
    }

    sent_steps :
        (run_id : String)
        → IsOrdered (update_where (is_step s.step_id) (give_run run_id) plan.steps)
    sent_steps run_id =
        pending-IsOrdered (give_run run_id) plan.steps s
          (record { step_id = λ t. refl; bindings = λ t. refl }) h.ordered found (λ e. refl)

    pub submitted-IsChange :
        (run_id : String) → IsChange plan plans (submitted plan.plan_id s.step_id run_id plans)
    unfolding submitted
    submitted-IsChange run_id = record {
      change = λ p. run_plan (in_steps (update_where (is_step s.step_id) (give_run run_id)) p);
      keeps = λ p. ground arith;
      made = refl;
      orderly = elim (Bool-cases (str_eq plan.status "cancel_requested")) [
        | inl e ↦ rw e (record {
          ordered = sent_steps run_id;
          complete = λ q. absurd (not_complete s found q);
        })
        | inr e ↦ rw e (record {
          ordered = sent_steps run_id;
          complete = λ q. absurd (differs "running" refl q);
        })
      ];
    }

    pub end_plan-IsChange :
        (detail : Detail)
        → is_some s.run_id ≡ true
        → IsChange plan plans (end_plan plan s detail plans)
    unfolding step_status update_plan
    end_plan-IsChange detail sent = record {
      change = λ p. set_plan (ending detail.status) (some (classify_failure detail)) (
          in_steps
            (update_where (is_step s.step_id)
              (set_step detail.status (some (classify_failure detail))))
            p);
      keeps = λ p. refl;
      made =
          then_update plan.plan_id
            (in_steps (
              update_where (is_step s.step_id)
                (set_step detail.status (some (classify_failure detail)))))
            (set_plan (ending detail.status) (some (classify_failure detail))) plans
            (step_status plan.plan_id s.step_id detail.status (some (classify_failure detail))
              plans)
            (λ p. refl) refl;
      orderly = record {
        ordered = settled_steps detail.status (some (classify_failure detail)) sent;
        complete = λ e. absurd (ending_differs detail.status e);
      };
    }

  pub completed-IsChange :
      first is_open plan.steps ≡ none
      → IsChange plan plans (update_plan plan.plan_id "succeeded" none plans)
  unfolding update_plan
  completed-IsChange none_open = record {
    change = set_plan "succeeded" none;
    keeps = λ p. refl;
    made = refl;
    orderly = record { ordered = h.ordered; complete = λ e. no_open-AllWon plan.steps none_open };
  }

  pub cancel_rest-IsChange : IsChange plan plans (cancel_rest plan plans)
  unfolding update_plan
  cancel_rest-IsChange = record {
    change = λ p.
        set_plan "cancelled" (some cancellation)
          (in_steps (cancel_rows (select is_open plan.steps)) p);
    keeps = λ p. refl;
    made =
        then_update plan.plan_id (in_steps (cancel_rows (select is_open plan.steps)))
          (set_plan "cancelled" (some cancellation)) plans
          (cancel_steps plan.plan_id (select is_open plan.steps) plans) (λ p. refl)
          (cancel_steps-made plan.plan_id (select is_open plan.steps) plans);
    orderly = record {
      ordered =
          cancel_rows-IsOrdered (select is_open plan.steps) plan.steps
            (All-select (λ s. is_open s ≡ true → NoneWon s.step_id plan.steps)
              (λ s. NoneWon s.step_id plan.steps) is_open plan.steps (λ s own e. own e)
              (open-NoneWon plan.steps h.ordered.apart))
            h.ordered;
      complete = λ e. absurd (differs "cancelled" refl e);
    };
  }

  module _ (s : Step) (found : first is_open plan.steps ≡ some s) (sent : is_some s.run_id ≡ true)
      (detail : Detail) where
    -- The last step succeeded.
    pub last_won-IsChange :
        AllWon (update_where (is_step s.step_id) (set_step detail.status none) plan.steps)
        → IsChange plan plans (
            update_plan plan.plan_id "succeeded" none
              (step_status plan.plan_id s.step_id detail.status none plans))
    unfolding update_plan step_status
    last_won-IsChange all_won = record {
      change = λ p.
          set_plan "succeeded" none
            (in_steps (update_where (is_step s.step_id) (set_step detail.status none)) p);
      keeps = λ p. refl;
      made =
          then_update plan.plan_id
            (in_steps (update_where (is_step s.step_id) (set_step detail.status none)))
            (set_plan "succeeded" none) plans
            (step_status plan.plan_id s.step_id detail.status none plans) (λ p. refl) refl;
      orderly = record {
        ordered = settled_steps s found detail.status none sent;
        complete = λ e. all_won;
      };
    }

    pub settle_step-IsChange : IsChange plan plans (settle_step plan s detail plans)
    unfolding settle_step
    settle_step-IsChange = elim (Bool-cases (is_in active_statuses detail.status)) [
      | inl e ↦ rw e (step_status-IsChange s found detail.status none sent)
      | inr e ↦ elim (Bool-cases (str_eq detail.status "succeeded")) [
        | inr other ↦ rw e (rw other (end_plan-IsChange s found detail sent))
        | inl won ↦ elim (Bool-cases (others_done s.step_id plan.steps)) [
          | inr more ↦
              rw e (rw won (rw more (step_status-IsChange s found detail.status none sent)))
          | inl all ↦ rw e (
              rw won (
                rw all (
                  last_won-IsChange (
                    others_done-AllWon s.step_id (set_step detail.status none) plan.steps (λ t. won)
                      all))))
        ]
      ]
    ]
