-- ===== src/Plan/Store.antt =====
-- PlanStore in apps/plan_executor/src/openroad_app_plan_executor/__main__.py.
use chip_evolve.Base.{
  ℕ, Bool, true, false, ◌&&◌, ◌||◌, not, Option, none, some, List, [], ◌∷◌, ◌++◌, map, leb, String,
  str_eq, opt_str_eq, if◌then◌else◌, first, select, update_where, some_row,
}
use chip_evolve.Plan.State.{
  StepSpec, Step, Plan, PlanFailure, failed_statuses, plan_error, Outcome, done, raised,
}
use chip_evolve.Plan.Validate.{is_valid_plan}

abbrev pub is_plan : String → Plan → Bool
is_plan id p = str_eq p.plan_id id

abbrev pub is_step : String → Step → Bool
is_step id s = str_eq s.step_id id

-- `status in statuses`
abbrev pub is_in : List String → String → Bool
is_in [] s = false
is_in (t ∷ ts) s = str_eq s t || is_in ts s

abbrev pub new_step : StepSpec → Step
new_step s = record {
  step_id = s.step_id;
  task = s.task;
  bindings = s.bindings;
  run_id = none;
  status = "queued";
  failure = none;
}

abbrev pub new_plan : String → List StepSpec → Option String → ℕ → Plan
new_plan plan_id steps owner_id now = record {
  plan_id = plan_id;
  owner_id = owner_id;
  status = "queued";
  failure = none;
  created_at = now;
  steps = map new_step steps;
}

-- `str(payload.get("plan_id") or fresh)`
unfoldable pub plan_name : Option String → String → String
plan_name none fresh = fresh
plan_name (some given) fresh = if str_eq given "" then fresh else given

-- create_owned. The steps of a valid plan have different ids, so only the plan's id can be taken.
unfoldable pub create_owned :
    Option String
    → List StepSpec
    → Option String
    → String
    → ℕ
    → List Plan
    → Outcome String × List Plan
create_owned given steps owner_id fresh now plans =
    let plan_id = plan_name given fresh in
    if not (is_valid_plan plan_id steps)
    then (raised (plan_error 400), plans)
    else if some_row (is_plan plan_id) plans
    then (raised (plan_error 409), plans)
    else (done plan_id, plans ++ new_plan plan_id steps owner_id now ∷ [])

-- Whether a caller who is known, and no developer, asks for someone else's plan.
abbrev pub is_foreign : Option String → Bool → Plan → Bool
is_foreign none developer p = false
is_foreign (some caller) developer p = not developer && not (opt_str_eq p.owner_id (some caller))

-- get
unfoldable pub get : String → Option String → Bool → List Plan → Outcome Plan
get plan_id owner_id developer plans = elim (first (is_plan plan_id) plans) [
  | none ↦ raised (plan_error 404)
  | some p ↦ if is_foreign owner_id developer p then raised (plan_error 404) else done p
]

-- The field `execution_valid` of what `get` returns.
unfoldable pub execution_valid : Plan → Option Bool
execution_valid p =
    if str_eq p.status "succeeded"
    then some true
    else if is_in failed_statuses p.status
    then some false
    else none

-- ORDER BY created_at
insert_by_age : Plan → List Plan → List Plan
insert_by_age p [] = p ∷ []
insert_by_age p (q ∷ qs) =
    let rest = insert_by_age p qs in if leb p.created_at q.created_at then p ∷ q ∷ qs else q ∷ rest

by_age : List Plan → List Plan
by_age [] = []
by_age (p ∷ ps) = insert_by_age p (by_age ps)

abbrev pub open_statuses : List String
open_statuses = "queued" ∷ "running" ∷ "retry_wait" ∷ "cancel_requested" ∷ []

-- active
unfoldable pub active : List Plan → List String
unfolding by_age insert_by_age
active plans = map (λ p. p.plan_id) (by_age (select (λ p. is_in open_statuses p.status) plans))

abbrev pub set_plan : String → Option PlanFailure → Plan → Plan
set_plan status failure p = record p { status = status; failure = failure }

-- _update_plan, which finish and retry_wait call
unfoldable pub update_plan : String → String → Option PlanFailure → List Plan → List Plan
update_plan plan_id status failure = update_where (is_plan plan_id) (set_plan status failure)

abbrev pub set_step : String → Option PlanFailure → Step → Step
set_step status failure s = record s { status = status; failure = failure }

abbrev pub in_steps : (List Step → List Step) → Plan → Plan
in_steps f p = record p { steps = f p.steps }

-- step_status, which is _update_step without a run
unfoldable pub step_status : String → String → String → Option PlanFailure → List Plan → List Plan
step_status plan_id step_id status failure =
    update_where (is_plan plan_id)
      (in_steps (update_where (is_step step_id) (set_step status failure)))

abbrev pub give_run : String → Step → Step
give_run run_id s = record s { status = "queued"; failure = none; run_id = some run_id }

abbrev pub run_plan : Plan → Plan
run_plan p =
    if str_eq p.status "cancel_requested"
    then p
    else record p { status = "running"; failure = none }

-- submitted
unfoldable pub submitted : String → String → String → List Plan → List Plan
submitted plan_id step_id run_id =
    update_where (is_plan plan_id)
      (λ p. run_plan (in_steps (update_where (is_step step_id) (give_run run_id)) p))

abbrev pub closed_statuses : List String
closed_statuses = "succeeded" ∷ failed_statuses

-- request_cancel
unfoldable pub request_cancel : String → List Plan → Outcome (Unit {0}) × List Plan
request_cancel plan_id plans = elim (get plan_id none false plans) [
  | raised e ↦ (raised e, plans)
  | done p ↦
      if is_in closed_statuses p.status
      then (raised (plan_error 409), plans)
      else (done tt, update_plan plan_id "cancel_requested" none plans)
]
