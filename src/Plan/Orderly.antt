-- ===== src/Plan/Orderly.antt =====
-- What the executor of apps/plan_executor keeps true of the steps of a plan.
use chip_evolve.Base.{
  ◌≡◌, refl, Bool, true, not, ◌&&◌, Option, none, some, List, [], ◌∷◌, String, str_eq, is_some,
  arith, if◌then◌else◌, All, All-map, first, select, update_where, IsApart-update,
}
use chip_evolve.Plan.State.{Step, PlanFailure, Plan}
use chip_evolve.Plan.Store.{is_step, set_step}
use chip_evolve.Plan.Executor.{is_succeeded, is_open, cancellation, others_done}
use chip_evolve.Plan.Frontier.{
  IsFrontier, AreApart, AreBound, NoneWon, IsLoss, pending-IsFrontier, loss-IsFrontier,
  loss-NoneWon,
}

pub record IsOrdered (steps : List Step) : Type 0 where
  pub frontier : IsFrontier steps
  pub apart : AreApart steps
  pub bound : AreBound [] steps

-- A change that keeps what a step is: its id and its bindings.
pub record KeepsStep (f : Step → Step) : Type 0 where
  pub step_id : (s : Step) → (f s).step_id ≡ s.step_id
  pub bindings : (s : Step) → (f s).bindings ≡ s.bindings

bound_update :
    (p : Step → Bool) (f : Step → Step) (seen : List String) (steps : List Step)
    → KeepsStep f
    → AreBound seen steps
    → AreBound seen (update_where p f steps)
unfolding update_where
bound_update p f seen [] k h = tt
bound_update p f seen (s ∷ rest) k h =
    let same_id : (if p s then f s else s).step_id ≡ s.step_id = ground (arith, k.step_id s) in
    let same_bindings : (if p s then f s else s).bindings ≡ s.bindings =
      ground (arith, k.bindings s) in
    (rw same_bindings h.0, rw same_id (bound_update p f (s.step_id ∷ seen) rest k h.1))

pub pending-IsOrdered :
    (f : Step → Step) (steps : List Step) (s : Step)
    → KeepsStep f
    → IsOrdered steps
    → first is_open steps ≡ some s
    → (is_succeeded (f s) ≡ true → is_some (f s).run_id ≡ true)
    → IsOrdered (update_where (is_step s.step_id) f steps)
pending-IsOrdered f steps s k h found ran = record {
  frontier = pending-IsFrontier f steps s h.frontier h.apart found ran;
  apart = IsApart-update (λ t. t.step_id) (is_step s.step_id) f steps k.step_id h.apart;
  bound = bound_update (is_step s.step_id) f [] steps k h.bound;
}

pub set_step-KeepsStep :
    (status : String) (failure : Option PlanFailure) → KeepsStep (set_step status failure)
set_step-KeepsStep status failure = record { step_id = λ s. refl; bindings = λ s. refl }

abbrev pub cancel_step : Step → Step
cancel_step = set_step "cancelled" (some cancellation)

cancel_step-IsLoss : IsLoss cancel_step
cancel_step-IsLoss = record { lost = λ s. refl; run = λ s. refl }

-- The loop of _cancel over steps, on the rows of its plan.
abbrev pub cancel_rows : List Step → List Step → List Step
cancel_rows [] steps = steps
cancel_rows (s ∷ rest) steps = cancel_rows rest (update_where (is_step s.step_id) cancel_step steps)

pub cancel_rows-IsOrdered :
    (rows steps : List Step)
    → All (λ s. NoneWon s.step_id steps) rows
    → IsOrdered steps
    → IsOrdered (cancel_rows rows steps)
cancel_rows-IsOrdered [] steps open_rows h = h
cancel_rows-IsOrdered (s ∷ rest) steps open_rows h =
    cancel_rows-IsOrdered rest (update_where (is_step s.step_id) cancel_step steps)
      (All-map (λ r. NoneWon r.step_id steps)
        (λ r. NoneWon r.step_id (update_where (is_step s.step_id) cancel_step steps)) rest
        (λ r none_won.
          loss-NoneWon r.step_id s.step_id cancel_step steps cancel_step-IsLoss none_won)
        open_rows.1)
      (record {
        frontier =
            loss-IsFrontier s.step_id cancel_step steps cancel_step-IsLoss open_rows.0 h.frontier;
        apart =
            IsApart-update (λ t. t.step_id) (is_step s.step_id) cancel_step steps (λ t. refl)
              h.apart;
        bound =
            bound_update (is_step s.step_id) cancel_step [] steps
              (set_step-KeepsStep "cancelled" (some cancellation)) h.bound;
      })

abbrev pub AllWon : List Step → Type 0
AllWon = All (λ s. is_succeeded s ≡ true)

pub no_open-AllWon : (steps : List Step) → first is_open steps ≡ none → AllWon steps
unfolding first
no_open-AllWon [] h = tt
no_open-AllWon (s ∷ rest) h = (ground arith, no_open-AllWon rest (ground arith))

-- The last step to succeed completes the plan.
pub others_done-AllWon :
    (id : String) (f : Step → Step) (steps : List Step)
    → ((s : Step) → is_succeeded (f s) ≡ true)
    → others_done id steps ≡ true
    → AllWon (update_where (is_step id) f steps)
unfolding others_done update_where
others_done-AllWon id f [] won h = tt
others_done-AllWon id f (s ∷ rest) won h =
    (ground (arith, won s), others_done-AllWon id f rest won (ground arith))

pub none_left-AllWon :
    (id : String) (f : Step → Step) (steps : List Step)
    → ((s : Step) → is_succeeded (f s) ≡ true)
    → select (λ s. not (str_eq s.step_id id) && is_open s) steps ≡ []
    → AllWon (update_where (is_step id) f steps)
unfolding select update_where
none_left-AllWon id f [] won h = tt
none_left-AllWon id f (s ∷ rest) won h =
    (ground (arith, won s), none_left-AllWon id f rest won (ground arith))

pub record IsOrderly (p : Plan) : Type 0 where
  pub ordered : IsOrdered p.steps
  pub complete : p.status ≡ "succeeded" → AllWon p.steps
