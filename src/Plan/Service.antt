-- ===== src/Plan/Service.antt =====
-- The plan service of apps/plan_executor under requests and cycles.
use chip_evolve.Base.{
  ℕ, ◌+◌, ◌≡◌, refl, sym, subst, ◌∙◌, inl, inr, true, false, Option, none, some, List, [], ◌∷◌,
  String, str_eq, str_eq_iff, arith, if◌then◌else◌, Bool-cases, Option-cases, All-first,
  All-update_where, first, first_holds, IsApart-update, All-update_key,
}
use chip_evolve.Plan.State.{
  StepSpec, Plan, PlanFailure, Kernel, Outcome, done, raised, kernel_unavailable, kernel_error,
  plan_error, key_error,
}
use chip_evolve.Plan.Store.{
  is_plan, is_in, get, active, set_plan, update_plan, create_owned, request_cancel, closed_statuses,
}
use chip_evolve.Plan.Executor.{
  advance, advance_open, cancel_plan, handled, is_waiting, cycle_over, cycle, Service,
  platform_failure,
}
use chip_evolve.Plan.Orderly.{IsOrderly}
use chip_evolve.Plan.Changes.{IsChange, differs}
use chip_evolve.Plan.Advance.{>>=-done, found_plan, cancel_plan-IsChange, advance_open-IsChange}
use chip_evolve.Plan.Created.{IsConsistent, create-IsConsistent}
use chip_evolve.Plan.Resolved.{is_key_error, advance_safe}

-- A change of the rows of one plan.
change-IsConsistent :
    (plan : Plan) (plans after : List Plan)
    → first (is_plan plan.plan_id) plans ≡ some plan
    → IsChange plan plans after
    → IsConsistent plans
    → IsConsistent after
change-IsConsistent plan plans after found c h = rw c.made (record {
  orderly =
      All-update_key (λ p. p.plan_id) IsOrderly plan.plan_id c.change plans plan h.apart found
        c.orderly h.orderly;
  apart = IsApart-update (λ p. p.plan_id) (is_plan plan.plan_id) c.change plans c.keeps h.apart;
})

advance-IsConsistent :
    (kernel : Kernel) (id : String) (plans after : List Plan)
    → advance kernel id plans ≡ done after
    → IsConsistent plans
    → IsConsistent after
unfolding advance
advance-IsConsistent kernel id plans after e h =
    let (plan, read, out) =
      >>=-done (get id none false plans)
        (λ plan.
          if str_eq plan.status "cancel_requested"
          then cancel_plan kernel plan plans
          else advance_open kernel plan plans)
        after e in
    let found : first (is_plan id) plans ≡ some plan = found_plan id plans plan read in
    let own : plan.plan_id ≡ id =
      (str_eq_iff plan.plan_id id).0 (first_holds (is_plan id) plans found) in
    let good : IsOrderly plan = All-first IsOrderly (is_plan id) plans h.orderly found in
    let here : first (is_plan plan.plan_id) plans ≡ some plan =
      subst (λ k. first (is_plan k) plans ≡ some plan) (sym own) found in
    elim (Bool-cases (str_eq plan.status "cancel_requested")) [
      | inl c ↦
          change-IsConsistent plan plans after here
            (cancel_plan-IsChange kernel plan good plans after (rw c at out)) h
      | inr c ↦
          change-IsConsistent plan plans after here
            (advance_open-IsChange kernel plan good plans after (rw c at out)) h
    ]

-- A status other than success, of a plan whose steps stay.
pub update-IsConsistent :
    (id status : String) (failure : Option PlanFailure) (plans : List Plan)
    → str_eq status "succeeded" ≡ false
    → IsConsistent plans
    → IsConsistent (update_plan id status failure plans)
unfolding update_plan
update-IsConsistent id status failure plans other h = record {
  orderly =
      All-update_where IsOrderly IsOrderly (is_plan id) (set_plan status failure) plans
        (λ p old e. record {
          ordered = old.ordered;
          complete = λ q. absurd (differs status other q);
        })
        (λ p old e. old) h.orderly;
  apart =
      IsApart-update (λ p. p.plan_id) (is_plan id) (set_plan status failure) plans (λ p. refl)
        h.apart;
}

cancel-IsConsistent :
    (id : String) (plans : List Plan)
    → IsConsistent plans
    → IsConsistent (request_cancel id plans).1
unfolding request_cancel get
cancel-IsConsistent id plans h = elim (Option-cases (first (is_plan id) plans)) [
  | inl absent ↦ rw (absent, request_cancel) h
  | inr (p, found) ↦ elim (Bool-cases (is_in closed_statuses p.status)) [
    | inl closed ↦ rw (found, request_cancel) (rw closed h)
    | inr live ↦
        rw (found, request_cancel)
          (rw live (update-IsConsistent id "cancel_requested" none plans refl h))
  ]
]

-- What the handlers of `cycle` make of an outcome that is no KeyError.
handled-IsConsistent :
    (now delay : ℕ) (id : String) (o : Outcome (List Plan)) (s : Service)
    → is_key_error o ≡ false
    → ((after : List Plan) → o ≡ done after → IsConsistent after)
    → IsConsistent s.plans
    → (r : ℕ × Service) × (handled now delay id o s ≡ some r) × IsConsistent r.1.plans
unfolding handled
handled-IsConsistent now delay id (done plans) s safe good h = (_, refl, good plans refl)
handled-IsConsistent now delay id (raised (kernel_unavailable t)) s safe good h = (
  _,
  refl,
  update-IsConsistent id "retry_wait" (some (platform_failure "kernel_unavailable" t true)) s.plans
      refl h,
)
handled-IsConsistent now delay id (raised (kernel_error t)) s safe good h = (
  _,
  refl,
  update-IsConsistent id "failed" (some (platform_failure "submission_refused" t false)) s.plans
      refl h,
)
handled-IsConsistent now delay id (raised (plan_error c)) s safe good h = (
  _,
  refl,
  update-IsConsistent id "failed" (some (platform_failure "artifact_binding_error" "" false))
      s.plans refl h,
)
handled-IsConsistent now delay id (raised key_error) s safe good h = absurd (ground arith)

-- A cycle over plans that are in order returns, and leaves them in order.
cycle_over-IsConsistent :
    (kernels : String → Kernel) (now delay : ℕ) (ids : List String) (s : Service)
    → IsConsistent s.plans
    → (r : ℕ × Service) × (cycle_over kernels now delay ids s ≡ some r) × IsConsistent r.1.plans
unfolding cycle_over
cycle_over-IsConsistent kernels now delay [] s h = ((0, s), refl, h)
cycle_over-IsConsistent kernels now delay (id ∷ ids) s h =
    elim (Bool-cases (is_waiting now id s.retry_at)) [
      | inl e ↦ rw e (cycle_over-IsConsistent kernels now delay ids s h)
      | inr e ↦
          let (r, made, good) =
            handled-IsConsistent now delay id (advance (kernels id) id s.plans) s
              (advance_safe (kernels id) id s.plans h.orderly)
              (λ after out. advance-IsConsistent (kernels id) id s.plans after out h) h in
          let (q, more, last) = cycle_over-IsConsistent kernels now delay ids r.1 good in
          rw e (rw made (rw more ((r.0 + q.0, q.1), refl, last)))
    ]

pub cycle-IsConsistent :
    (kernels : String → Kernel) (now delay : ℕ) (s : Service)
    → IsConsistent s.plans
    → (r : ℕ × Service) × (cycle kernels now delay s ≡ some r) × IsConsistent r.1.plans
unfolding cycle
cycle-IsConsistent kernels now delay s =
    cycle_over-IsConsistent kernels now delay (active s.plans) s

-- The requests and cycles of one service, in any order; a restart forgets the waits.
pub data Requests : Service → Type 0 where
  started : Requests (record { plans = []; retry_at = [] })
  creating :
      {s : Service}
      → Requests s
      → (given : Option String) (steps : List StepSpec) (owner : Option String) (fresh : String)
        (now : ℕ)
      → Requests (record s { plans = (create_owned given steps owner fresh now s.plans).1 })
  cancelling :
      {s : Service}
      → Requests s
      → (id : String) → Requests (record s { plans = (request_cancel id s.plans).1 })
  cycling :
      {s after : Service}
      → Requests s
      → (kernels : String → Kernel) (now delay advanced : ℕ)
      → cycle kernels now delay s ≡ some (advanced, after)
      → Requests after
  restarting : {s : Service} → Requests s → Requests (record s { retry_at = [] })

same_result {ℓ} : {A : Type ℓ} (a b : A) → some a ≡ some b → a ≡ b
same_result a b h = cc

pub Requests-IsConsistent : {s : Service} → Requests s → IsConsistent s.plans
Requests-IsConsistent started = record { orderly = tt; apart = tt }
Requests-IsConsistent (creating {s = s} r given steps owner fresh now) =
    create-IsConsistent given steps owner fresh now s.plans (Requests-IsConsistent r)
Requests-IsConsistent (cancelling {s = s} r id) =
    cancel-IsConsistent id s.plans (Requests-IsConsistent r)
Requests-IsConsistent (cycling {s = s} {after = after} r kernels now delay advanced made) =
    let (q, out, good) = cycle-IsConsistent kernels now delay s (Requests-IsConsistent r) in
    let same : q ≡ (advanced, after) = same_result q (advanced, after) (sym out ∙ made) in
    subst (λ (t : ℕ × Service). IsConsistent t.1.plans) same good
Requests-IsConsistent (restarting r) = Requests-IsConsistent r
