-- ===== src/Plan/State.antt =====
-- apps/plan_executor/src/openroad_app_plan_executor/__main__.py: the plans that the service keeps, and
-- what it hears from the platform.
use chip_evolve.Base.{ℕ, Bool, Option, List, [], ◌∷◌, String}
use chip_evolve.Contracts.Task.{TaskSpec, Labels}

-- A binding of a step to an artifact of an earlier one. The metadata values, arbitrary JSON, are held
-- as their canonical text.
pub record Binding : Type 0 where
  pub from_step : String
  pub artifact_kind : String
  pub destination : String
  pub metadata : Labels

-- An entry of `steps` in the request; its task object is held as the TaskSpec that it parses to.
pub record StepSpec : Type 0 where
  pub step_id : String
  pub task : TaskSpec
  pub bindings : List Binding

-- The object in failure_json, in the four fields that the service sets itself.
pub record PlanFailure : Type 0 where
  pub source : String
  pub category : String
  pub message : String
  pub retryable : Bool

-- A row of plan_steps. The statuses are the texts that the table holds: a step's is what the platform
-- answered.
pub record Step : Type 0 where
  pub step_id : String
  pub task : TaskSpec
  pub bindings : List Binding
  pub run_id : Option String
  pub status : String
  pub failure : Option PlanFailure

-- A row of plans with its rows of plan_steps, in the order of their ordinals: an ordinal is the
-- position in the list.
pub record Plan : Type 0 where
  pub plan_id : String
  pub owner_id : Option String
  pub status : String
  pub failure : Option PlanFailure
  pub created_at : ℕ
  pub steps : List Step

-- The constants of the module.
abbrev pub active_statuses : List String
active_statuses = "queued" ∷ "preparing" ∷ "running" ∷ "retry_wait" ∷ "cancel_requested" ∷ []

abbrev pub failed_statuses : List String
failed_statuses = "failed" ∷ "cancelled" ∷ "timed_out" ∷ "lost" ∷ []

abbrev pub platform_failures : List String
platform_failures =
    "cancelled" ∷ "lease_expired" ∷ "protocol_error" ∷ "resource_exceeded" ∷ "runtime_error"
    ∷ "timeout" ∷ []

abbrev pub max_steps : ℕ
max_steps = 64

-- What ends a request or an advance early: the client's exceptions, the service's own, and Python's
-- KeyError.
pub data Raised : Type 0 where
  kernel_unavailable kernel_error : String → Raised
  plan_error : ℕ → Raised
  key_error : Raised

pub data Outcome {ℓ} (A : Type ℓ) : Type ℓ where
  done : A → Outcome A
  raised : Raised → Outcome A

-- An artifact of a run, as the platform lists it.
pub record ArtifactView : Type 0 where
  pub artifact_id : String
  pub kind : String
  pub metadata : Labels

-- A failure as an attempt records it.
pub record Recorded : Type 0 where
  pub category : Option String
  pub message : Option String
  pub retryable : Bool

-- A run as the platform describes it, with the failures of the attempts of each stage.
pub record Detail : Type 0 where
  pub status : String
  pub terminal_reason : Option String
  pub stages : List (List (Option Recorded))

-- An answer of the platform to the client: KernelUnavailable, or any other KernelError.
pub data Reply {ℓ} (A : Type ℓ) : Type ℓ where
  answered : A → Reply A
  unavailable : String → Reply A
  refused : String → Reply A

abbrev pub heard {ℓ} : {A : Type ℓ} → Reply A → Outcome A
heard (answered a) = done a
heard (unavailable text) = raised (kernel_unavailable text)
heard (refused text) = raised (kernel_error text)

-- The platform's answers, through KernelClient (core/client/src/openroad_platform_client/client.py).
pub record Kernel : Type 0 where
  pub submit : TaskSpec → String → Reply String
  pub run : String → Reply Detail
  pub cancel : String → Reply (Unit {0})
  pub artifacts : Option String → Reply (List ArtifactView)
