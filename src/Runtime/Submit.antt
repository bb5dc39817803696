-- ===== src/Runtime/Submit.antt =====
-- RuntimeStore.submit_run and _equivalent_task_specs in
-- core/runtime/src/openroad_platform_runtime/store.py.
use chip_evolve.Base.{
  ℕ, Bool, true, false, ◌&&◌, ◌||◌, not, Option, none, some, List, [], ◌∷◌, ◌++◌, String, str_eq,
  opt_str_eq, opt_eq, list_eq, ◌==◌, if◌then◌else◌, first, select, some_row, ℤ, pos, negsuc,
}
use chip_evolve.Contracts.Status.{queued}
use chip_evolve.Contracts.Names.{starts_with}
use chip_evolve.Contracts.Resources.{ResourceRequest}
use chip_evolve.Contracts.Input.{InputFile}
use chip_evolve.Contracts.Task.{TaskSpec, Labels, is_valid_task}
use chip_evolve.Runtime.State.{Run, Stage, Db}
use chip_evolve.Runtime.Result.{
  Result, ok, err, unknown_input, unknown_artifact, plugin_missing, empty_key, spec_conflict,
  version_conflict, index_error, contract_error, integrity_error, ◌>>=◌, ◌>>◌, guard, required,
  transaction,
}
use chip_evolve.Runtime.Runs.{is_stage_of, earliest, find_run_by_task_id, get_run}

-- The arguments of submit_run beside the task.
pub record Submission : Type 0 where
  pub stage_key : String
  pub plugin_version : String
  pub idempotent : Bool
  pub idempotency_key : Option String
  pub resumable : Bool

-- `payload["labels"]` without the labels that the platform adds.
unfoldable pub caller_labels : Labels → Labels
caller_labels [] = []
caller_labels ((key, value) ∷ rest) =
    let others = caller_labels rest in
    if starts_with key "__platform_host_source_" then others else (key, value) ∷ others

unfoldable pub label : String → Labels → Option String
label key [] = none
label key ((k, v) ∷ rest) = if str_eq k key then some v else label key rest

unfoldable pub includes : Labels → Labels → Bool
unfolding label
includes a [] = true
includes a ((key, value) ∷ rest) = opt_str_eq (label key a) (some value) && includes a rest

-- Equality of two dictionaries: each has the other's entries.
unfoldable pub same_labels : Labels → Labels → Bool
unfolding includes
same_labels a b = includes a b && includes b a

-- An optional id with the digest of the bytes that it names in its place; an empty id stays.
digest_of : (String → Result String) → Option String → Result (Option String)
digest_of lookup none = ok none
digest_of lookup (some id) =
    if str_eq id "" then ok (some id) else (do digest ← lookup id; ok (some digest))

-- `get_uploaded_input(id).sha256`
unfoldable pub uploaded_digest : Db → String → Result String
uploaded_digest db id = do
  row ← required unknown_input (first (λ u. str_eq u.input_id id) db.uploaded_inputs)
  ok row.sha256

-- `get_artifact(id).sha256`
unfoldable pub artifact_digest : Db → String → Result String
artifact_digest db id = do
  row ← required unknown_artifact (first (λ a. str_eq a.artifact_id id) db.artifacts)
  ok row.sha256

unfoldable pub by_bytes : Db → List InputFile → Result (List InputFile)
unfolding digest_of uploaded_digest artifact_digest
by_bytes db [] = ok []
by_bytes db (item ∷ items) = do
  input ← digest_of (uploaded_digest db) item.input_id
  artifact ← digest_of (artifact_digest db) item.artifact_id
  rest ← by_bytes db items
  ok (record item { input_id = input; artifact_id = artifact } ∷ rest)

abbrev pub same_int : ℤ → ℤ → Bool
same_int (pos a) (pos b) = a == b
same_int (negsuc a) (negsuc b) = a == b
same_int _ _ = false

abbrev pub same_bool : Bool → Bool → Bool
same_bool true b = b
same_bool false b = not b

abbrev pub same_input : InputFile → InputFile → Bool
same_input a b =
    str_eq a.destination b.destination
    && opt_str_eq a.source b.source
    && opt_str_eq a.artifact_id b.artifact_id
    && opt_str_eq a.input_id b.input_id
    && same_bool a.required b.required

abbrev pub same_request : ResourceRequest → ResourceRequest → Bool
same_request a b =
    opt_eq same_int a.cpu_seconds b.cpu_seconds
    && opt_eq same_int a.cpu_cores b.cpu_cores
    && opt_eq same_int a.memory_bytes b.memory_bytes
    && opt_eq same_int a.processes b.processes

-- `left == right`, of the two payloads
unfoldable pub same_payload : TaskSpec → TaskSpec → Bool
unfolding list_eq same_labels
same_payload a b =
    str_eq a.task_id b.task_id
    && str_eq a.project_id b.project_id
    && str_eq a.design_id b.design_id
    && opt_str_eq a.design_revision_id b.design_revision_id
    && opt_str_eq a.experiment_id b.experiment_id
    && opt_str_eq a.input_manifest_sha256 b.input_manifest_sha256
    && opt_str_eq a.plugin_id b.plugin_id
    && opt_str_eq a.plugin_version b.plugin_version
    && str_eq a.inputs b.inputs
    && str_eq a.parameters b.parameters
    && list_eq same_input a.staged_inputs b.staged_inputs
    && opt_eq same_request a.resources b.resources
    && same_int a.timeout_seconds b.timeout_seconds
    && same_int a.max_attempts b.max_attempts
    && list_eq str_eq a.expected_artifacts b.expected_artifacts
    && same_labels a.labels b.labels
    && a.schema_version == b.schema_version

-- `to_dict` with the generated ids replaced: the payload that is compared.
unfoldable pub comparable : Db → TaskSpec → Result TaskSpec
unfolding by_bytes caller_labels
comparable db task = do
  guard (is_valid_task task) contract_error
  items ← by_bytes db task.staged_inputs
  ok (record task { labels = caller_labels task.labels; staged_inputs = items })

-- _equivalent_task_specs
unfoldable pub equivalent_task_specs : Db → TaskSpec → TaskSpec → Result Bool
equivalent_task_specs db a b = do
  left ← comparable db a
  right ← comparable db b
  ok (same_payload left right)

abbrev pub has_key : String → Run → Bool
has_key key run = opt_str_eq run.idempotency_key (some key)

-- The lookup at the head of the transaction.
unfoldable pub existing_run : TaskSpec → Submission → Db → Option Run
existing_run task sub db = elim sub.idempotency_key [
  | some key ↦ first (has_key key) db.runs
  | none ↦ if sub.idempotent then find_run_by_task_id task.task_id db else none
]

-- The keys of runtime_runs: run_id, and idempotency_key where it is given.
unfoldable pub run_clashes : Run → Run → Bool
run_clashes new old =
    old.run_id == new.run_id
    || elim new.idempotency_key [ none ↦ false | some key ↦ has_key key old ]

unfoldable pub stage_clashes : Stage → Stage → Bool
stage_clashes new old =
    old.stage_run_id == new.stage_run_id
    || old.run_id == new.run_id
      && (str_eq old.stage_key new.stage_key || old.ordinal == new.ordinal)

unfoldable pub insert_run : Run → List Run → Result (List Run)
unfolding run_clashes
insert_run run runs = do
  guard (not (some_row (run_clashes run) runs)) integrity_error
  ok (runs ++ run ∷ [])

unfoldable pub insert_stage : Stage → List Stage → Result (List Stage)
unfolding stage_clashes
insert_stage stage stages = do
  guard (not (some_row (stage_clashes stage) stages)) integrity_error
  ok (stages ++ stage ∷ [])

abbrev pub new_run : TaskSpec → Submission → ℕ → ℕ → Run
new_run task sub run_id now = record {
  run_id = run_id;
  task_id = task.task_id;
  idempotency_key = sub.idempotency_key;
  status = queued;
  task_spec = task;
  created_at = now;
  started_at = none;
  ended_at = none;
  terminal_reason = none;
}

abbrev pub new_stage : String → Submission → ℕ → ℕ → ℕ → Stage
new_stage plugin sub run_id stage_run_id now = record {
  stage_run_id = stage_run_id;
  run_id = run_id;
  stage_key = sub.stage_key;
  ordinal = 0;
  plugin_id = plugin;
  plugin_version = sub.plugin_version;
  status = queued;
  created_at = now;
  started_at = none;
  resumable = sub.resumable;
}

-- The run that is already there, if the request asks for the same.
unfoldable pub reuse_run : TaskSpec → Submission → Run → Db → Result (Run × Db)
reuse_run task sub existing db = do
  equivalent ← equivalent_task_specs db existing.task_spec task
  guard equivalent spec_conflict
  stage ←
      required index_error
        (earliest (λ s. s.ordinal) (select (is_stage_of existing.run_id) db.stages))
  guard (str_eq stage.plugin_version sub.plugin_version) version_conflict
  ok (existing, db)

-- The two INSERTs, and the run read back.
unfoldable pub create_run : TaskSpec → String → Submission → ℕ → ℕ → ℕ → Db → Result (Run × Db)
create_run task plugin sub run_id stage_run_id now db = do
  runs ← insert_run (new_run task sub run_id now) db.runs
  stages ← insert_stage (new_stage plugin sub run_id stage_run_id now) db.stages
  let after = record db { runs = runs; stages = stages }
  run ← get_run run_id after
  ok (run, after)

unfoldable pub submit_body : TaskSpec → String → Submission → ℕ → ℕ → ℕ → Db → Result (Run × Db)
submit_body task plugin sub run_id stage_run_id now db = elim (existing_run task sub db) [
  | some existing ↦ reuse_run task sub existing db
  | none ↦ create_run task plugin sub run_id stage_run_id now db
]

unfoldable pub submit_run : TaskSpec → Submission → ℕ → ℕ → ℕ → Db → Result Run × Db
submit_run task sub run_id stage_run_id now db =
    if not (is_valid_task task) then (err contract_error, db) else elim task.plugin_id [
      | none ↦ (err plugin_missing, db)
      | some plugin ↦
          if opt_str_eq sub.idempotency_key (some "")
          then (err empty_key, db)
          else transaction (submit_body task plugin sub run_id stage_run_id now) db
    ]
