-- ===== src/Plan/Tests.antt =====
-- One plan of two steps (apps/plan_executor), the second of which takes the netlist of the first.
mod Cycles
use chip_evolve.Base.{◌≡◌, refl, Option, none, some, List, [], ◌∷◌, String, pos}
use chip_evolve.Contracts.Names.{is_identifier, is_optional_identifier, is_optional_sha256}
use chip_evolve.Contracts.Task.{TaskSpec, is_valid_task, all_different, has_text}
use chip_evolve.Plan.State.{Binding, StepSpec, Step, Plan, answered, unavailable, Kernel, done}
use chip_evolve.Plan.Validate.{
  is_plan_identifier, is_valid_plan, valid_steps, all_valid_bindings, is_valid_binding,
}
use chip_evolve.Plan.Store.{
  create_owned, plan_name, active, get, submitted, step_status, update_plan,
}
use chip_evolve.Plan.Executor.{
  Service, cycle, cycle_over, is_waiting, handled, advance, advance_open, submit_step,
  submission_key, settle_step, others_done,
}
use chip_evolve.Plan.Bindings.{task_for, bind_inputs, matches_binding, meets}

abbrev pub job : String → TaskSpec
job name = record {
  task_id = name;
  project_id = "project";
  design_id = "design";
  design_revision_id = none;
  experiment_id = none;
  input_manifest_sha256 = none;
  plugin_id = some "yosys";
  plugin_version = none;
  inputs = "{}";
  parameters = "{}";
  staged_inputs = [];
  resources = none;
  timeout_seconds = pos 60;
  max_attempts = pos 1;
  expected_artifacts = [];
  labels = [];
  schema_version = 3;
}

abbrev pub netlist_of_synth : Binding
netlist_of_synth = record {
  from_step = "synth";
  artifact_kind = "netlist";
  destination = "in/netlist.v";
  metadata = [];
}

abbrev pub specs : List StepSpec
specs =
    record { step_id = "synth"; task = job "synth-1"; bindings = [] }
    ∷ record { step_id = "place"; task = job "place-1"; bindings = netlist_of_synth ∷ [] }
    ∷ []

-- A platform on which every run succeeds at once, with one netlist, and that cannot cancel.
abbrev pub platform : Kernel
platform = record {
  submit = λ task key. answered key;
  run = λ run_id. answered (record { status = "succeeded"; terminal_reason = none; stages = [] });
  cancel = λ run_id. unavailable "down";
  artifacts =
      λ run_id. answered (record { artifact_id = "art-1"; kind = "netlist"; metadata = [] } ∷ []);
}

abbrev pub synth : Option String → String → Step
synth run_id status = record {
  step_id = "synth";
  task = job "synth-1";
  bindings = [];
  run_id = run_id;
  status = status;
  failure = none;
}

abbrev pub place : Option String → String → Step
place run_id status = record {
  step_id = "place";
  task = job "place-1";
  bindings = netlist_of_synth ∷ [];
  run_id = run_id;
  status = status;
  failure = none;
}

abbrev pub plan : String → Step → Step → Plan
plan status a b = record {
  plan_id = "p1";
  owner_id = none;
  status = status;
  failure = none;
  created_at = 5;
  steps = a ∷ b ∷ [];
}

abbrev pub at : Plan → Service
at p = record { plans = p ∷ []; retry_at = [] }

abbrev pub synth_run : Option String
synth_run = some "plan:p1:step:synth"

abbrev pub place_run : Option String
place_run = some "plan:p1:step:place"

abbrev pub fresh_plan : Plan
fresh_plan = plan "queued" (synth none "queued") (place none "queued")

abbrev pub synth_sent : Plan
synth_sent = plan "running" (synth synth_run "queued") (place none "queued")

abbrev pub synth_won : Plan
synth_won = plan "running" (synth synth_run "succeeded") (place none "queued")

abbrev pub place_sent : Plan
place_sent = plan "running" (synth synth_run "succeeded") (place place_run "queued")

abbrev pub all_won : Plan
all_won = plan "succeeded" (synth synth_run "succeeded") (place place_run "succeeded")
