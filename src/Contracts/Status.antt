-- ===== src/Contracts/Status.antt =====
-- contracts/src/openroad_platform_contracts/runtime.py: the statuses of runs and attempts, and the
-- transitions that the store may make between them.
pub mod Laws
use chip_evolve.Base.{
  ℕ, Bool, true, false, ◌||◌, Option, none, some, List, [], ◌∷◌, ◌==◌, if◌then◌else◌, String,
  str_eq,
}

pub data RuntimeStatus : Type 0 where
  queued preparing running retry_wait cancel_requested : RuntimeStatus
  succeeded failed cancelled timed_out lost : RuntimeStatus

-- `status.value`
unfoldable pub value : RuntimeStatus → String
value queued = "queued"
value preparing = "preparing"
value running = "running"
value retry_wait = "retry_wait"
value cancel_requested = "cancel_requested"
value succeeded = "succeeded"
value failed = "failed"
value cancelled = "cancelled"
value timed_out = "timed_out"
value lost = "lost"

-- The members of the enum, in the order of their declaration.
abbrev pub statuses : List RuntimeStatus
statuses =
    queued ∷ preparing ∷ running ∷ retry_wait ∷ cancel_requested ∷ succeeded ∷ failed ∷ cancelled
    ∷ timed_out ∷ lost ∷ []

-- `RuntimeStatus(raw)`: the member whose value is `raw`; `none` is the ValueError.
member_with : String → List RuntimeStatus → Option RuntimeStatus
member_with raw [] = none
member_with raw (s ∷ rest) = if str_eq raw (value s) then some s else member_with raw rest

unfoldable pub of_value : String → Option RuntimeStatus
unfolding member_with value
of_value raw = member_with raw statuses

-- A number for each member, by which members are compared.
abbrev pub tag : RuntimeStatus → ℕ
tag queued = 0
tag preparing = 1
tag running = 2
tag retry_wait = 3
tag cancel_requested = 4
tag succeeded = 5
tag failed = 6
tag cancelled = 7
tag timed_out = 8
tag lost = 9

abbrev pub same : RuntimeStatus → RuntimeStatus → Bool
same a b = tag a == tag b

-- `target in statuses`
abbrev pub contains : List RuntimeStatus → RuntimeStatus → Bool
contains [] s = false
contains (x ∷ xs) s = same x s || contains xs s

abbrev pub terminal_runtime_statuses : List RuntimeStatus
terminal_runtime_statuses = succeeded ∷ failed ∷ cancelled ∷ timed_out ∷ lost ∷ []

unfoldable pub is_terminal : RuntimeStatus → Bool
is_terminal s = contains terminal_runtime_statuses s

-- RUN_TRANSITIONS, with `.get(current, frozenset())` for a status that it does not list.
unfoldable pub run_transitions : RuntimeStatus → List RuntimeStatus
run_transitions queued = preparing ∷ cancel_requested ∷ cancelled ∷ failed ∷ []
run_transitions preparing = running ∷ cancel_requested ∷ failed ∷ lost ∷ []
run_transitions running = retry_wait ∷ cancel_requested ∷ succeeded ∷ failed ∷ timed_out ∷ lost ∷ []
run_transitions retry_wait = queued ∷ cancel_requested ∷ failed ∷ lost ∷ []
run_transitions cancel_requested = cancelled ∷ failed ∷ lost ∷ []
run_transitions _ = []

unfoldable pub run_transition_allowed : RuntimeStatus → RuntimeStatus → Bool
unfolding is_terminal run_transitions
run_transition_allowed current target =
    if is_terminal current then false else contains (run_transitions current) target

pub data AttemptStatus : Type 0 where
  pending running succeeded failed lost : AttemptStatus

abbrev pub attempt_tag : AttemptStatus → ℕ
attempt_tag AttemptStatus.pending = 0
attempt_tag AttemptStatus.running = 1
attempt_tag AttemptStatus.succeeded = 2
attempt_tag AttemptStatus.failed = 3
attempt_tag AttemptStatus.lost = 4

abbrev pub same_attempt : AttemptStatus → AttemptStatus → Bool
same_attempt a b = attempt_tag a == attempt_tag b

abbrev pub contains_attempt : List AttemptStatus → AttemptStatus → Bool
contains_attempt [] s = false
contains_attempt (x ∷ xs) s = same_attempt x s || contains_attempt xs s

-- ATTEMPT_TRANSITIONS
unfoldable pub attempt_transitions : AttemptStatus → List AttemptStatus
attempt_transitions AttemptStatus.pending = AttemptStatus.running ∷ AttemptStatus.lost ∷ []
attempt_transitions AttemptStatus.running =
    AttemptStatus.succeeded ∷ AttemptStatus.failed ∷ AttemptStatus.lost ∷ []
attempt_transitions AttemptStatus.succeeded = []
attempt_transitions AttemptStatus.failed = []
attempt_transitions AttemptStatus.lost = []

unfoldable pub attempt_transition_allowed : AttemptStatus → AttemptStatus → Bool
unfolding attempt_transitions
attempt_transition_allowed current target = contains_attempt (attempt_transitions current) target
