-- ===== src/Plan/Guarantees.antt =====
-- What the plan service (apps/plan_executor/src/openroad_app_plan_executor/__main__.py) guarantees.
use mathlib.Core.Option
use chip_evolve.Base.{
  ℕ, ◌+◌, ◌≡◌, refl, inl, inr, true, false, Option, none, some, List, [], ◌∷◌, ◌++◌, String, str_eq,
  str_eq_refl, arith, All, All-first, first, first_holds, first-update_where, select,
}
use chip_evolve.Contracts.Input.{InputFile}
use chip_evolve.Plan.State.{
  Binding, Step, Plan, PlanFailure, Kernel, done, raised, unavailable, ArtifactView, answered,
  kernel_unavailable,
}
use chip_evolve.Plan.Store.{is_plan, is_step, get, set_plan, update_plan}
use chip_evolve.Plan.Executor.{
  is_succeeded, is_open, cancel_plan, advance, handled, is_waiting, cycle_over, Service,
  platform_failure, forget,
}
use chip_evolve.Plan.Bindings.{matches_binding, bound_input}
use chip_evolve.Plan.Frontier.{IsFrontier}
use chip_evolve.Plan.Orderly.{IsOrderly, AllWon}
use chip_evolve.Plan.Service.{Requests, Requests-IsConsistent}

before_sent :
    (before later : List Step) (t : Step) (run_id : String)
    → IsFrontier (before ++ t ∷ later)
    → t.run_id ≡ some run_id
    → AllWon before
before_sent [] later t run_id h sent = tt
before_sent (s ∷ before) later t run_id (inl (won, ran, more)) sent =
    (won, before_sent before later t run_id more sent)
before_sent (s ∷ before) later t run_id (inr (not_won, unsent)) sent =
    absurd (let never : t.run_id ≡ none = last_of before unsent in ground arith)
  where
    last_of :
        (xs : List Step)
        → All (λ u. (u.run_id ≡ none) × (is_succeeded u ≡ false)) (xs ++ t ∷ later)
        → t.run_id ≡ none
    last_of [] u = u.0.0
    last_of (x ∷ xs) u = last_of xs u.1

IsOrderly-plan :
    {s : Service} (r : Requests s) (id : String) (p : Plan)
    → first (is_plan id) s.plans ≡ some p
    → IsOrderly p
IsOrderly-plan {s} r id p found =
    All-first IsOrderly (is_plan id) s.plans (Requests-IsConsistent r).orderly found

-- In every state that requests and cycles can reach, a step of a plan was submitted only if every step
-- before it has succeeded.
pub sent_in_order :
    {s : Service} (r : Requests s) (id : String) (p : Plan) (before later : List Step) (t : Step)
    (run_id : String)
    → first (is_plan id) s.plans ≡ some p
    → p.steps ≡ before ++ t ∷ later
    → t.run_id ≡ some run_id
    → AllWon before
sent_in_order r id p before later t run_id found split sent =
    before_sent before later t run_id (rw (← split) (IsOrderly-plan r id p found).ordered.frontier)
      sent

-- In every reachable state a plan that is marked as succeeded has no step that did not.
pub succeeded_complete :
    {s : Service} (r : Requests s) (id : String) (p : Plan)
    → first (is_plan id) s.plans ≡ some p
    → p.status ≡ "succeeded"
    → AllWon p.steps
succeeded_complete r id p found won = (IsOrderly-plan r id p found).complete won

-- The input that a binding became: the only artifact of its step's run that it matches.
pub record IsBoundTo (kernel : Kernel) (steps : List Step) (b : Binding) (f : InputFile)
    : Type 0 where
  pub source : Step
  pub found : first (is_step b.from_step) steps ≡ some source
  pub listed : List ArtifactView
  pub told : kernel.artifacts source.run_id ≡ answered listed
  pub artifact : ArtifactView
  pub only : select (matches_binding b) listed ≡ artifact ∷ []
  pub input : f ≡ bound_input b artifact

pub data AreBoundTo (kernel : Kernel) (steps : List Step)
    : List Binding → List InputFile → Type 0 where
  no_more : AreBoundTo kernel steps [] []
  and_more :
      {b : Binding} {f : InputFile} {bs : List Binding} {fs : List InputFile}
      → IsBoundTo kernel steps b f
      → AreBoundTo kernel steps bs fs
      → AreBoundTo kernel steps (b ∷ bs) (f ∷ fs)

stopped :
    (kernel : Kernel) (run_id text : String) (plans : List Plan) (p : Plan) (t : Step)
    → first is_open p.steps ≡ some t
    → t.run_id ≡ some run_id
    → kernel.cancel run_id ≡ unavailable text
    → cancel_plan kernel p plans ≡ raised (kernel_unavailable text)
unfolding cancel_plan
stopped kernel run_id text plans p t at_work sent down =
    rw (at_work, cancel_plan) (rw (sent, cancel_plan) (rw down refl))

down_advance :
    (kernel : Kernel) (id run_id text : String) (plans : List Plan) (p : Plan) (t : Step)
    → first (is_plan id) plans ≡ some p
    → p.status ≡ "cancel_requested"
    → first is_open p.steps ≡ some t
    → t.run_id ≡ some run_id
    → kernel.cancel run_id ≡ unavailable text
    → advance kernel id plans ≡ raised (kernel_unavailable text)
unfolding advance
down_advance kernel id run_id text plans p t found asked at_work sent down =
    let got : get id none false plans ≡ done p = unfold get in ground arith in
    let cancelling : str_eq p.status "cancel_requested" ≡ true =
      rw asked (str_eq_refl "cancel_requested") in
    rw (got, advance) (rw cancelling (stopped kernel run_id text plans p t at_work sent down))

waiting_status :
    (id : String) (failure : Option PlanFailure) (plans : List Plan) (p : Plan)
    → first (is_plan id) plans ≡ some p
    → Option.map (λ q. q.status) (first (is_plan id) (update_plan id "retry_wait" failure plans))
      ≡ some "retry_wait"
unfolding update_plan
waiting_status id failure plans p found =
    let hit : is_plan id p ≡ true = first_holds (is_plan id) plans found in
    rw
      (first-update_where (is_plan id) (is_plan id) (set_plan "retry_wait" failure) plans
        (λ q. refl))
      (rw found (rw hit refl))

-- A cancellation is lost when the platform cannot be reached: a plan in cancel_requested, not
-- waiting for the platform, whose step at work has a run goes to retry_wait.
pub cancellation_lost :
    (kernel : Kernel) (now delay : ℕ) (id run_id text : String) (s : Service) (p : Plan) (t : Step)
    → is_waiting now id s.retry_at ≡ false
    → first (is_plan id) s.plans ≡ some p
    → p.status ≡ "cancel_requested"
    → first is_open p.steps ≡ some t
    → t.run_id ≡ some run_id
    → kernel.cancel run_id ≡ unavailable text
    → (after : Service) × (cycle_over (λ i. kernel) now delay (id ∷ []) s ≡ some (0, after))
      × (Option.map (λ q. q.status) (first (is_plan id) after.plans) ≡ some "retry_wait")
unfolding cycle_over handled
cancellation_lost kernel now delay id run_id text s p t due found asked at_work sent down =
    let failure = platform_failure "kernel_unavailable" text true in
    (
      record {
        plans = update_plan id "retry_wait" (some failure) s.plans;
        retry_at = (id, now + delay) ∷ forget id s.retry_at;
      },
      rw due
          (rw (down_advance kernel id run_id text s.plans p t found asked at_work sent down) refl),
      waiting_status id (some failure) s.plans p found,
    )
