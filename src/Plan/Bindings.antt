-- ===== src/Plan/Bindings.antt =====
-- PlanExecutor._task_for in apps/plan_executor/src/openroad_app_plan_executor/__main__.py.
use chip_evolve.Base.{
  Bool, true, ◌&&◌, Option, none, some, List, [], ◌∷◌, ◌++◌, String, str_eq, if◌then◌else◌, first,
  select,
}
use chip_evolve.Contracts.Input.{InputFile}
use chip_evolve.Contracts.Task.{TaskSpec, Labels}
use chip_evolve.Plan.State.{
  Binding, Step, Plan, plan_error, key_error, Outcome, done, heard, raised, ArtifactView, Kernel,
}
use chip_evolve.Plan.Store.{is_step}

-- A statement that may raise, and what follows.
infixl 5 ◌>>=◌
abbrev pub ◌>>=◌ {ℓ μ} : {X : Type ℓ} {Y : Type μ} → Outcome X → (X → Outcome Y) → Outcome Y
raised e >>= rest = raised e
done x >>= rest = rest x

-- Dictionary access by `get`.
unfoldable pub value_of : String → Labels → Option String
value_of key [] = none
value_of key ((k, v) ∷ rest) = if str_eq k key then some v else value_of key rest

-- `.get(key) == value`, on canonical texts: an absent key gives None, which is JSON's null.
abbrev pub has_value : Option String → String → Bool
has_value none value = str_eq value "null"
has_value (some v) value = str_eq v value

unfoldable pub meets : Labels → Labels → Bool
unfolding value_of
meets metadata [] = true
meets metadata ((key, value) ∷ rest) =
    has_value (value_of key metadata) value && meets metadata rest

unfoldable pub matches_binding : Binding → ArtifactView → Bool
matches_binding b a = str_eq a.kind b.artifact_kind && meets a.metadata b.metadata

-- `len(matches) != 1`
abbrev pub only_match : List ArtifactView → Outcome ArtifactView
only_match (a ∷ []) = done a
only_match _ = raised (plan_error 400)

-- `by_id[step_id]`
abbrev pub step_by_id : String → List Step → Outcome Step
step_by_id id steps = elim (first (is_step id) steps) [ none ↦ raised key_error | some s ↦ done s ]

-- The entry that a binding adds to staged_inputs.
abbrev pub bound_input : Binding → ArtifactView → InputFile
bound_input b a = record {
  destination = b.destination;
  source = none;
  artifact_id = some a.artifact_id;
  input_id = none;
  required = true;
}

-- The loop over the bindings.
unfoldable pub bind_inputs : Kernel → List Step → List Binding → Outcome (List InputFile)
bind_inputs kernel steps [] = done []
bind_inputs kernel steps (b ∷ rest) = do
  source ← step_by_id b.from_step steps
  artifacts ← heard (kernel.artifacts source.run_id)
  found ← only_match (select (matches_binding b) artifacts)
  others ← bind_inputs kernel steps rest
  done (bound_input b found ∷ others)

-- _task_for
unfoldable pub task_for : Kernel → Plan → Step → Outcome TaskSpec
task_for kernel plan step = do
  bound ← bind_inputs kernel plan.steps step.bindings
  let task : TaskSpec = step.task
  done (record task { staged_inputs = task.staged_inputs ++ bound })
