-- ===== src/Runtime/Tests/Operations.antt =====
-- The operations of the runtime store at the states of the history.
use chip_evolve.Contracts.Task.{TaskSpec, all_different}
use chip_evolve.Runtime.Admission.{approval_missing}
use chip_evolve.Contracts.Names.{is_identifier, is_optional_identifier, is_optional_sha256}
use chip_evolve.Contracts.Resources.{declared, is_valid_request}
use chip_evolve.Contracts.Task.{is_valid_task, valid_resources}
use chip_evolve.Runtime.State.{Reservation}
use chip_evolve.Runtime.Submit.{label}
use chip_evolve.Runtime.Admission.{is_valid_config, check_resources}
use chip_evolve.Runtime.Admission.Idle.{admitted_reserves}
use chip_evolve.Runtime.Runs.{get_run}
use chip_evolve.Runtime.Waiting.{Config, claimable, short, waiting_for, is_short, reservation_for}
use chip_evolve.Runtime.Waiting.Room.{claimable_has_room}
use chip_evolve.Runtime.Calls.Fencing.{unfenced_kept}
use chip_evolve.Runtime.Reclaim.{reclaim_expired_attempts}
use chip_evolve.Runtime.Tests.{
  task, submission, worker, whole, run_row, attempt_row, submitted, claimed_once, run_failed,
  reopened, queued, held,
}
use chip_evolve.Base.{
  ◌∷◌, ◌⊎◌, ◌≡◌, refl, none, false, first, pos, ℕ, ◌≢◌, ◌-◌, some_row, arith, true, [], some,
}
use chip_evolve.Runtime.State.{empty}
use chip_evolve.Runtime.Result.{err, invalid_transition, ok}
use chip_evolve.Runtime.Attempts.{
  start_attempt, is_attempt, held_by, reserve_within, reserved_cpu, insert_reservation,
  reserved_memory, budget, full, reserved,
}
use chip_evolve.Runtime.Retry.{requested_by}
use chip_evolve.Runtime.Calls.{Calls-IsSound, empty-IsSound, IsSound}
use chip_evolve.Runtime.Calls.Claims.{second_claim_refused}
use chip_evolve.Runtime.Calls.Retries.{IsGranted, retry-IsGranted}
use chip_evolve.Runtime.Calls.Submissions.{IsReused, IsCreated, submit_by_key, resubmit_once}
use chip_evolve.Runtime.Tests.History.{
  to_claimed_once, to_run_failed, claim_once, retry_run, submit_runs, submit_again,
}

second_claim_refused_example :
    start_attempt whole 2 worker 9 21 claimed_once ≡ (err invalid_transition, claimed_once)
second_claim_refused_example =
    second_claim_refused whole 2 worker worker 3 9 20 21 submitted claimed_once (attempt_row 3 1 20)
      claim_once refl

run_failed-IsSound : IsSound 4 2000 run_failed
run_failed-IsSound = Calls-IsSound (to_run_failed to_claimed_once) (empty-IsSound 4 2000)

retry-IsGranted_example : IsGranted 1 (requested_by "alice" "again") run_failed reopened
retry-IsGranted_example =
    retry-IsGranted 1 "alice" "again" 4 40 run_failed reopened run_failed-IsSound retry_run

submit_by_key_example :
    IsReused "key-1" (run_row queued none none none) empty submitted
    ⊎ IsCreated "key-1" (run_row queued none none none) empty submitted
submit_by_key_example =
    submit_by_key task submission 1 2 10 empty submitted (run_row queued none none none) "key-1"
      refl submit_runs

resubmit_once_example :
    (run_row queued none none none ≡ run_row queued none none none) × (submitted ≡ submitted)
resubmit_once_example =
    resubmit_once task task submission submission 1 2 10 7 8 12 empty submitted submitted
      (run_row queued none none none) (run_row queued none none none) "key-1" refl refl submit_runs
      submit_again

-- The lease of attempt 3 was over at 50, and its process still runs.
unfenced_kept_example :
    let after = (reclaim_expired_attempts (λ a. false) 60 61 claimed_once).1 in
    (first (is_attempt 3) after.attempts ≡ first (is_attempt 3) claimed_once.attempts)
    × (first (held_by 3) after.reservations ≡ first (held_by 3) claimed_once.reservations)
unfenced_kept_example = unfenced_kept (λ a. false) 3 (λ a e. refl) 60 61 claimed_once

abbrev host : Config
host = record {
  default_task_cpu_cores = pos 1;
  default_task_memory_bytes = pos 100;
  capacity_cpu_cores = 4;
  capacity_memory_bytes = 2000;
}

told_claimable : waiting_for whole host 1 submitted ≡ ok claimable
unfolding waiting_for is_short get_run first reserved_cpu reserved_memory
told_claimable = refl

claimable_has_room_example :
    reserve_within whole (reservation_for host task) 4 2000 3 submitted.reservations ≢ ok full
unfolding first
claimable_has_room_example =
    claimable_has_room whole whole (λ n. omega arith) host 1 (run_row queued none none none) 3
      submitted refl told_claimable refl refl

-- Three cores at a fraction of 0.6 are a budget of two for a claim and of one for the query, which then
-- calls a run of two cores short of resources that a claim gives it.
abbrev low : ℕ → ℕ
low n = n - 2

abbrev high : ℕ → ℕ
high n = n - 1

told_short : waiting_for low (record host { capacity_cpu_cores = 3 }) 1 submitted ≡ ok short
unfolding waiting_for is_short get_run first reserved_cpu reserved_memory
told_short = refl

given_all_the_same :
    reserve_within high (reservation_for host task) 3 2000 3 submitted.reservations
    ≡ ok (reserved (held 3))
unfolding reserve_within insert_reservation budget some_row reserved_cpu reserved_memory
given_all_the_same = refl

host-IsValid : is_valid_config host ≡ true
unfolding is_valid_config
host-IsValid = refl

-- A task that asks for more than the default of 100 bytes, with the approval that this takes.
abbrev approved : TaskSpec
approved = record task { labels = ("memory_approval", "manual") ∷ [] }

unapproved : check_resources whole true host task ≡ some approval_missing
unfolding check_resources budget declared label
unapproved = refl

approved-IsValid : is_valid_task approved ≡ true
unfolding is_valid_task is_identifier is_optional_identifier is_optional_sha256 all_different
    is_valid_request valid_resources
approved-IsValid = refl

approved_admitted : check_resources whole true host approved ≡ none
unfolding check_resources budget declared label
approved_admitted = refl

admitted_reserves_example :
    (row : Reservation) × (reserve_within whole (reservation_for host approved) 4 2000 3 []
      ≡ ok (reserved row))
    × (pos row.cpu_cores ≡ pos 2)
    × (pos row.memory_bytes ≡ pos 1000)
admitted_reserves_example =
    admitted_reserves whole true host approved 3 host-IsValid approved-IsValid approved_admitted
