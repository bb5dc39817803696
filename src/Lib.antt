-- ===== src/Lib.antt =====
-- ChipEvolve: the durable core of the platform that runs reviewed chip-design tasks.
--
-- The program. A caller submits a task (contracts/src/openroad_platform_contracts/task.py); the runtime
-- store (core/runtime/src/openroad_platform_runtime/store.py) keeps it as a run with one stage. Workers
-- poll the store, claim a stage as an attempt under a lease, reserve resources, renew the lease while
-- the tool runs and settle the attempt. A failed attempt may be retried, an expired lease is reclaimed,
-- and a caller may cancel. All of them meet in the tables of one SQLite database and in no other state.
--
-- The files.
--   Base: native numbers, texts, lists as tables (first, select, update_where, delete_where are the
--     SELECT, UPDATE and DELETE statements of the code), Python integers.
--   Contracts/Status: runtime.py, the statuses and the two transition tables.
--   Contracts/Names: version.py, the validators of identifiers, digests and relative paths.
--   Contracts/Resources, Contracts/Input, Contracts/Task: resources.py, input.py and task.py; a
--     validator that raises ContractError is a test that is false.
--   Runtime/State: the tables of store.py as records (Run is runtime_runs, Stage runtime_stage_runs,
--     Attempt runtime_attempts, Reservation runtime_resource_reservations), together the record Db.
--   Runtime/Result: the exceptions by the place that raises them, and the write transaction.
--   Runtime/Runs: get_run, find_run_by_task_id, transition_run, request_cancel, fail_queued_run,
--     record_event.
--   Runtime/Submit: submit_run and _equivalent_task_specs.
--   Runtime/Attempts: start_attempt and release_resources. Runtime/Leases: heartbeat, attach_process
--     and finish_attempt.
--   Runtime/Retry: schedule_retry, request_retry, _may_resume. Runtime/Reclaim:
--     reclaim_expired_attempts. Runtime/Queries: runnable_runs, abandoned_cancellations.
--   Runtime/Waiting: RuntimeConfig.reservation_for in runtime.py and ResourceQuery.waiting_for in
--     resource_query.py, both under core/runtime/src/openroad_platform_runtime. Its budget is
--     int(capacity * platform_fraction), the parameter `floor_fraction`.
--   Runtime/Admission: WorkflowRuntime._check_resources and the checks of RuntimeConfig.__post_init__ in
--     runtime.py. Runtime/Admission/Idle: what they are worth on an idle host.
--   Runtime/Execution: runtime.py, the end of an execution: _run_attempt from finish_attempt on,
--     _should_retry, _record_runtime_failure and the exception handler between them. What other processes do
--     between two of its calls is an argument, `others`. Runtime/Execution/Landing, Endings, Settled: what it leaves.
--   Runtime/Step: an abstract store, as a relation between states with one constructor for each kind of
--     change. Runtime/Sync, Budget, Evidence, Numbering, Keys, Lifecycle: what the steps preserve.
--   Runtime/Refines: each operation of the code as a sequence of those steps.
--   Runtime/Calls: the calls that clients make, in any order, and what holds of them. Two calls carry a
--     condition on the caller: a claim that states capacities states those of one host, whose budgets
--     are at most the given ones, and schedule_retry names a stage of its run, as
--     core/runtime/src/openroad_platform_runtime/runtime.py does.
--   Plan/State, Plan/Validate, Plan/Store: apps/plan_executor/src/openroad_app_plan_executor/__main__.py,
--     the service that submits the steps of a plan one after the other: its tables, PlanStore._validate
--     and the operations of PlanStore. Plan/Bindings: PlanExecutor._task_for.
--     Plan/Executor: the rest of PlanExecutor, and classify_failure.
--   Plan/Frontier, Plan/Orderly: how far the steps of a plan have come. Plan/Changes, Cancels, Advance:
--     each outcome of an advance as one change of the plan's rows. Plan/Resolved: bindings find their
--     steps. Plan/Service, Plan/Guarantees: the service under requests and cycles, in any order. The
--     rows of plan_steps are kept with their plan, in the order of their ordinals; the platform's
--     answers are a parameter, which may be another one for each plan and each cycle.
--   Identity/State, Names, Accounts, Owners, Allowance: core/identity/src/openroad_platform_identity/auth.py,
--     its tables, its checks of names, users and sessions, ownership, and allowances. Identity/Requests:
--     the calls of IdentityStore as data, and the state after a sequence of them. Identity/Changes, Refines:
--     the changes of the tables, and each call as a sequence of them; Identity/Kept, Sessions, Passwords, Registration, Spending: what follows.
--   Gateway/Access: gateway/src/openroad_platform_gateway/kernel_api.py, its authentication and checks of
--     ownership, and the handlers that cancel and retry a run. Gateway/Privacy: whom they let at a run.
--   Contracts/Plugin: task.py, the manifest and the result of a plugin. Registry/Records, Loading, Lookup:
--     core/registry/src/openroad_platform_registry/registry.py, the records of a plugin, discovery and
--     registration, and resolve and get; what the file system holds is an argument. Registry/Reviewed,
--     Registry/Exact: which plugins resolve.
--   Provenance/Runs: core/provenance/src/openroad_platform_provenance/index.py, EvidenceIndex.runs and count_runs;
--     Provenance/Runs/Count: that the count ends and is exact.
--   Contracts/Artifact: contracts/src/openroad_platform_contracts/artifact.py. Custody/Objects, Artifacts,
--     Inputs, Metrics: the rest of store.py, its object store and the tables of artifacts, uploads, staged inputs
--     and metrics, around the Db of the lifecycle. Custody/Freezing, Staging: runtime.py, the inputs of a task from
--     _check_inputs to _verify_input_manifest. Custody/Later, Registration, Registered, Steps, Kept: what each
--     operation adds, and that none removes anything. Custody/Guarantees, Submitted, Frozen, Submission:
--     what follows for artifacts and for the inputs of a task. Custody/Reports: validate_artifact_declarations of
--     core/runtime/src/openroad_platform_runtime/adapter.py, and how _register_metrics of runtime.py finds the
--     sources of metrics; Custody/Reports/Traced: what is registered of a report.
--
-- How the model corresponds to the code. An operation takes the state and returns its result with the
-- state after it; what it raises is a value of StoreError, one for each place that raises, and the
-- texts of the messages are left out. BEGIN IMMEDIATE to COMMIT is `transaction`: an error leaves the
-- state as it was. UNIQUE and CHECK constraints are guards that raise integrity_error. The ids that
-- the code draws at random (`_new_id`) and the time (`_now`) are arguments; a collision of ids is an
-- integrity_error, as it is in SQLite. The ids of runs, stages, attempts and events are natural
-- numbers, those of uploads and artifacts texts; times are natural numbers, in the order of the ISO
-- texts in UTC that the code writes and compares. Free-form JSON objects are held as the canonical text
-- that the store writes; labels, which the code reads, as pairs. Calls are atomic, as the store's lock
-- and SQLite's write lock make them: reclaim_expired_attempts is one call, although its second half
-- runs in transactions of its own. The reserved CPU seconds and the measured ones are whole numbers of
-- a fine enough unit, since the code compares the first with zero and only stores the second.
--
-- In the identity store user and session ids are natural numbers and times whole microseconds. `token_hash`
-- is SHA-256 and `derive` PBKDF2, any functions; a statement that needs two tokens to have different hashes
-- says so. A session is opened in a transaction after that of its user, as in the code, and each call is one
-- step.
--
-- In the custody of files `digest` is SHA-256, any function from bytes to texts; an object is named by its
-- digest, since object_path gives each name one path. A file that is read is given by what each of the
-- reads of it finds, so that it may change in between. The object store takes no part in a rollback. What is
-- copied to a destination is returned as bytes; the paths of a workspace are not followed.
--
-- Parameters. `ceil_fraction` is math.ceil(capacity * platform_fraction), in floats; the theorems hold
-- of every such function, and of every `floor_fraction` that is nowhere above it. `limits` is whether the
-- adapter can enforce limits. `fenced` is fence_expired_process, which asks the operating system. Every
-- recursion is on a list but that of count_runs, whose fuel is one pass more than there are runs: a pass
-- that does not end the count has counted a full page.
--
-- Not modelled: of store.py the evidence snapshots, the schema migrations and describe_run; the execution
-- of a task (worker.py, guardian.py and runtime.py but for its resource checks, its inputs, the reports of
-- adapters and the end of an execution), and the other handlers of the gateway, client, registry,
-- provenance, evaluator and other apps; of the plan executor the HTTP handler and its
-- authentication.
pub mod Base
pub mod Contracts
pub mod Runtime
pub mod Plan
pub mod Identity
pub mod Gateway
pub mod Registry
pub mod Custody
pub mod Provenance
