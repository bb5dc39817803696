-- ===== src/Plan/Validate.antt =====
-- PlanStore._validate and _validate_binding in
-- apps/plan_executor/src/openroad_app_plan_executor/__main__.py.
use chip_evolve.Base.{
  ℕ, Bool, true, false, ◌&&◌, ◌||◌, not, List, [], ◌∷◌, ◌==◌, leb, ltb, String, str_eq, codes,
}
use chip_evolve.Contracts.Names.{is_alnum, all_codes, length}
use chip_evolve.Contracts.Task.{has_text, is_valid_task}
use chip_evolve.Plan.State.{Binding, StepSpec, max_steps}

-- [A-Za-z0-9._-]
is_plan_char : ℕ → Bool
unfolding is_alnum
is_plan_char c = is_alnum c || c == b'.' || c == b'_' || c == b'-'

matches_plan_identifier : List ℕ → Bool
matches_plan_identifier [] = false
matches_plan_identifier (c ∷ cs) = is_alnum c && leb (length cs) 127 && all_codes is_plan_char cs

-- IDENTIFIER.fullmatch of this module, whose names have no colon
unfoldable pub is_plan_identifier : String → Bool
unfolding matches_plan_identifier is_plan_char is_alnum all_codes
is_plan_identifier s = matches_plan_identifier (codes s)

-- _validate_binding
unfoldable pub is_valid_binding : List String → Binding → Bool
unfolding has_text
is_valid_binding earlier b =
    has_text earlier b.from_step && not (str_eq b.artifact_kind "") && not (str_eq b.destination "")

unfoldable pub all_valid_bindings : List String → List Binding → Bool
all_valid_bindings earlier [] = true
all_valid_bindings earlier (b ∷ bs) = is_valid_binding earlier b && all_valid_bindings earlier bs

-- The loop over the steps; `seen` holds the ids of those before.
unfoldable pub valid_steps : List String → List StepSpec → Bool
unfolding has_text
valid_steps seen [] = true
valid_steps seen (s ∷ rest) =
    is_plan_identifier s.step_id
    && not (has_text seen s.step_id)
    && is_valid_task s.task
    && all_valid_bindings seen s.bindings
    && valid_steps (s.step_id ∷ seen) rest

-- _validate
unfoldable pub is_valid_plan : String → List StepSpec → Bool
is_valid_plan plan_id steps =
    is_plan_identifier plan_id
    && ltb 0 (length steps)
    && leb (length steps) max_steps
    && valid_steps [] steps
