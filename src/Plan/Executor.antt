-- ===== src/Plan/Executor.antt =====
-- PlanExecutor and classify_failure in apps/plan_executor/src/openroad_app_plan_executor/__main__.py.
use chip_evolve.Base.{
  ℕ, ◌+◌, Bool, true, false, ◌&&◌, ◌||◌, not, Option, none, some, List, [], ◌∷◌, ◌++◌, ltb, String,
  str_eq, if◌then◌else◌, first, select, delete_where,
}
use Prim.Native.String.{◌++◌ as str_append}
use chip_evolve.Plan.State.{
  Step, Plan, PlanFailure, active_statuses, failed_statuses, platform_failures, kernel_unavailable,
  kernel_error, plan_error, key_error, Outcome, done, heard, raised, Recorded, Detail, Kernel,
}
use chip_evolve.Plan.Store.{is_in, get, active, update_plan, step_status, submitted}
use chip_evolve.Plan.Bindings.{◌>>=◌, task_for}

abbrev pub is_succeeded : Step → Bool
is_succeeded s = str_eq s.status "succeeded"

abbrev pub is_open : Step → Bool
is_open s = not (is_succeeded s)

-- `a or b`, of texts: None and the empty text are false.
abbrev pub or_text : Option String → String → String
or_text none d = d
or_text (some t) d = if str_eq t "" then d else t

unfoldable pub last_attempt : List (Option Recorded) → Option Recorded
last_attempt [] = none
last_attempt (a ∷ []) = a
last_attempt (a ∷ b ∷ rest) = last_attempt (b ∷ rest)

unfoldable pub all_attempts : List (List (Option Recorded)) → List (Option Recorded)
all_attempts [] = []
all_attempts (stage ∷ rest) = stage ++ all_attempts rest

abbrev pub classified : Option Recorded → Detail → PlanFailure
classified none detail =
    let category = or_text detail.terminal_reason (or_text (some detail.status) "unknown") in
    record {
      source = if is_in platform_failures category then "platform" else "plugin";
      category = category;
      message = category;
      retryable = false;
    }
classified (some r) detail =
    let category =
      or_text r.category
        (or_text detail.terminal_reason (or_text (some detail.status) "unknown")) in
    record {
      source = if is_in platform_failures category then "platform" else "plugin";
      category = category;
      message = or_text r.message category;
      retryable = r.retryable;
    }

-- classify_failure
unfoldable pub classify_failure : Detail → PlanFailure
classify_failure detail = classified (last_attempt (all_attempts detail.stages)) detail

-- f"plan:{plan_id}:step:{step_id}"
unfoldable pub submission_key : String → String → String
submission_key plan_id step_id =
    str_append "plan:" (str_append plan_id (str_append ":step:" step_id))

unfoldable pub submit_step : Kernel → Plan → Step → List Plan → Outcome (List Plan)
submit_step kernel plan pending plans = do
  task ← task_for kernel plan pending
  run_id ← heard (kernel.submit task (submission_key plan.plan_id pending.step_id))
  done (submitted plan.plan_id pending.step_id run_id plans)

-- The status of a plan whose step ended otherwise than by success.
abbrev pub ending : String → String
ending status = if is_in failed_statuses status then status else "failed"

abbrev pub end_plan : Plan → Step → Detail → List Plan → List Plan
end_plan plan step detail plans =
    let failure = classify_failure detail in
    update_plan plan.plan_id (ending detail.status) (some failure)
      (step_status plan.plan_id step.step_id detail.status (some failure) plans)

-- `all(step succeeded or is the pending one)`
unfoldable pub others_done : String → List Step → Bool
others_done id [] = true
others_done id (s ∷ rest) = (is_succeeded s || str_eq s.step_id id) && others_done id rest

unfoldable pub settle_step : Plan → Step → Detail → List Plan → List Plan
settle_step plan pending detail plans =
    if is_in active_statuses detail.status
    then step_status plan.plan_id pending.step_id detail.status none plans
    else if str_eq detail.status "succeeded"
    then (let next = step_status plan.plan_id pending.step_id detail.status none plans in
        if others_done pending.step_id plan.steps
        then update_plan plan.plan_id "succeeded" none next
        else next)
    else end_plan plan pending detail plans

abbrev pub cancellation : PlanFailure
cancellation = record {
  source = "platform";
  category = "cancelled";
  message = "execution plan cancelled";
  retryable = false;
}

-- The loop that marks each of the given steps as cancelled.
unfoldable pub cancel_steps : String → List Step → List Plan → List Plan
cancel_steps plan_id [] plans = plans
cancel_steps plan_id (s ∷ rest) plans =
    cancel_steps plan_id rest (step_status plan_id s.step_id "cancelled" (some cancellation) plans)

abbrev pub cancel_rest : Plan → List Plan → List Plan
cancel_rest plan plans =
    update_plan plan.plan_id "cancelled" (some cancellation)
      (cancel_steps plan.plan_id (select is_open plan.steps) plans)

-- `finish` after the run of the cancelled plan succeeded all the same.
abbrev pub finish_late : Plan → List Step → List Plan → List Plan
finish_late plan [] plans = update_plan plan.plan_id "succeeded" none plans
finish_late plan (s ∷ rest) plans =
    update_plan plan.plan_id "cancelled" none (cancel_steps plan.plan_id (s ∷ rest) plans)

unfoldable pub settle_cancelled : Plan → Step → Detail → List Plan → List Plan
settle_cancelled plan step detail plans =
    if is_in active_statuses detail.status
    then step_status plan.plan_id step.step_id detail.status none plans
    else if str_eq detail.status "succeeded"
    then finish_late plan
        (select (λ s. not (str_eq s.step_id step.step_id) && is_open s) plan.steps)
        (step_status plan.plan_id step.step_id detail.status none plans)
    else if not (str_eq detail.status "cancelled")
    then end_plan plan step detail plans
    else cancel_rest plan plans

-- _cancel. With no open step every step has succeeded.
unfoldable pub cancel_plan : Kernel → Plan → List Plan → Outcome (List Plan)
cancel_plan kernel plan plans = elim (first is_open plan.steps) [
  | none ↦ done (update_plan plan.plan_id "succeeded" none plans)
  | some step ↦ elim step.run_id [
    | none ↦ done (cancel_rest plan plans)
    | some run_id ↦ heard (kernel.cancel run_id) >>= λ ok.
        heard (kernel.run run_id) >>= λ detail. done (settle_cancelled plan step detail plans)
  ]
]

unfoldable pub advance_open : Kernel → Plan → List Plan → Outcome (List Plan)
advance_open kernel plan plans = elim (first is_open plan.steps) [
  | none ↦ done (update_plan plan.plan_id "succeeded" none plans)
  | some pending ↦ elim pending.run_id [
    | none ↦ submit_step kernel plan pending plans
    | some run_id ↦
        heard (kernel.run run_id) >>= λ detail. done (settle_step plan pending detail plans)
  ]
]

-- _advance
unfoldable pub advance : Kernel → String → List Plan → Outcome (List Plan)
advance kernel plan_id plans = get plan_id none false plans >>= λ plan.
    if str_eq plan.status "cancel_requested"
    then cancel_plan kernel plan plans
    else advance_open kernel plan plans

-- The service's state: the plans, and `_kernel_retry_at`.
pub record Service : Type 0 where
  pub plans : List Plan
  pub retry_at : List (String × ℕ)

abbrev pub forget : String → List (String × ℕ) → List (String × ℕ)
forget id = delete_where (λ e. str_eq e.0 id)

abbrev pub platform_failure : String → String → Bool → PlanFailure
platform_failure category message retryable = record {
  source = "platform";
  category = category;
  message = message;
  retryable = retryable;
}

-- The handlers of `cycle`: `none` is an exception that it does not catch. The text of a PlanError is
-- left out.
unfoldable pub handled : ℕ → ℕ → String → Outcome (List Plan) → Service → Option (ℕ × Service)
handled now delay id (done plans) s =
    some (1, record { plans = plans; retry_at = forget id s.retry_at })
handled now delay id (raised (kernel_unavailable text)) s = some (
  0,
  record {
    plans =
        update_plan id "retry_wait" (some (platform_failure "kernel_unavailable" text true))
          s.plans;
    retry_at = (id, now + delay) ∷ forget id s.retry_at;
  },
)
handled now delay id (raised (kernel_error text)) s = some (
  1,
  record s {
    plans =
        update_plan id "failed" (some (platform_failure "submission_refused" text false)) s.plans;
  },
)
handled now delay id (raised (plan_error code)) s = some (
  1,
  record s {
    plans =
        update_plan id "failed" (some (platform_failure "artifact_binding_error" "" false)) s.plans;
  },
)
handled now delay id (raised key_error) s = none

-- `retry_at is not None and now < retry_at`
unfoldable pub is_waiting : ℕ → String → List (String × ℕ) → Bool
is_waiting now id entries = elim (first (λ e. str_eq e.0 id) entries) [
  | none ↦ false
  | some e ↦ ltb now e.1
]

-- The loop of `cycle` over the ids that `active` has returned, with the platform's answers at each.
unfoldable pub cycle_over : (String → Kernel) → ℕ → ℕ → List String → Service → Option (ℕ × Service)
cycle_over kernels now delay [] s = some (0, s)
cycle_over kernels now delay (id ∷ ids) s =
    if is_waiting now id s.retry_at
    then cycle_over kernels now delay ids s
    else elim (handled now delay id (advance (kernels id) id s.plans) s) [
      | none ↦ none
      | some (n, after) ↦ elim (cycle_over kernels now delay ids after) [
        | none ↦ none
        | some (m, last) ↦ some (n + m, last)
      ]
    ]

-- cycle
unfoldable pub cycle : (String → Kernel) → ℕ → ℕ → Service → Option (ℕ × Service)
cycle kernels now delay s = cycle_over kernels now delay (active s.plans) s
