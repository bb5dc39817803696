-- ===== src/Plan/Tests/Cycles.antt =====
-- The plan of two steps, cycle by cycle, and what the service guarantees of it.
use mathlib.Core.Option
use chip_evolve.Plan.Orderly.{AllWon}
use chip_evolve.Plan.Service.{Requests, started, creating, cycling}
use chip_evolve.Plan.Guarantees.{sent_in_order, succeeded_complete, cancellation_lost}
use chip_evolve.Plan.Tests.{
  job, specs, platform, synth, place, at, synth_run, place_run, fresh_plan, synth_sent, synth_won,
  place_sent, all_won,
}
use chip_evolve.Base.{
  delete_where, update_where, some_row, ◌≡◌, refl, none, some, List, [], ◌∷◌, String, first, true,
  select, subst,
}
use chip_evolve.Contracts.Names.{is_identifier, is_optional_identifier, is_optional_sha256}
use chip_evolve.Contracts.Task.{TaskSpec, is_valid_task, all_different, has_text}
use chip_evolve.Plan.State.{Plan, done, Outcome}
use chip_evolve.Plan.Validate.{
  is_plan_identifier, is_valid_plan, valid_steps, all_valid_bindings, is_valid_binding,
}
use chip_evolve.Plan.Store.{
  create_owned, plan_name, active, get, submitted, step_status, update_plan, is_plan,
}
use chip_evolve.Plan.Executor.{
  Service, cycle, cycle_over, is_waiting, handled, advance, advance_open, submit_step,
  submission_key, settle_step, others_done,
}
use chip_evolve.Plan.Bindings.{task_for, bind_inputs, matches_binding, meets}

create_plan : create_owned (some "p1") specs none "plan-x" 5 [] ≡ (done "p1", fresh_plan ∷ [])
unfolding create_owned plan_name is_valid_plan is_plan_identifier valid_steps all_valid_bindings
    is_valid_binding is_valid_task is_identifier is_optional_identifier is_optional_sha256
    all_different has_text some_row
create_plan = refl

first_cycle : cycle (λ id. platform) 0 1 (at fresh_plan) ≡ some (1, at synth_sent)
unfolding cycle cycle_over is_waiting active handled advance get advance_open submit_step task_for
    bind_inputs submission_key submitted first some_row select update_where delete_where
first_cycle = refl

second_cycle : cycle (λ id. platform) 0 1 (at synth_sent) ≡ some (1, at synth_won)
unfolding cycle cycle_over is_waiting active handled advance get advance_open settle_step
    others_done step_status first some_row select update_where delete_where
second_cycle = refl

third_cycle : cycle (λ id. platform) 0 1 (at synth_won) ≡ some (1, at place_sent)
unfolding cycle cycle_over is_waiting active handled advance get advance_open submit_step task_for
    bind_inputs matches_binding meets submission_key submitted first some_row select update_where
    delete_where
third_cycle = refl

fourth_cycle : cycle (λ id. platform) 0 1 (at place_sent) ≡ some (1, at all_won)
unfolding cycle cycle_over is_waiting active handled advance get advance_open settle_step
    others_done step_status update_plan first some_row select update_where delete_where
fourth_cycle = refl

to_fresh : Requests (at fresh_plan)
to_fresh =
    subst (λ (o : Outcome String × List Plan). Requests (record { plans = o.1; retry_at = [] }))
      create_plan (creating started (some "p1") specs none "plan-x" 5)

to_place_sent : Requests (at place_sent)
to_place_sent =
    cycling
      (cycling (cycling to_fresh (λ id. platform) 0 1 1 first_cycle) (λ id. platform) 0 1 1
        second_cycle)
      (λ id. platform) 0 1 1 third_cycle

to_all_won : Requests (at all_won)
to_all_won = cycling to_place_sent (λ id. platform) 0 1 1 fourth_cycle

sent_in_order_example : AllWon (synth synth_run "succeeded" ∷ [])
unfolding first
sent_in_order_example =
    sent_in_order to_place_sent "p1" place_sent (synth synth_run "succeeded" ∷ []) []
      (place place_run "queued") "plan:p1:step:place" refl refl refl

succeeded_complete_example : AllWon all_won.steps
unfolding first
succeeded_complete_example = succeeded_complete to_all_won "p1" all_won refl refl

abbrev bound_job : TaskSpec
bound_job = record (job "place-1") {
  staged_inputs =
      record {
        destination = "in/netlist.v";
        source = none;
        artifact_id = some "art-1";
        input_id = none;
        required = true;
      }
      ∷ [];
}

abbrev cancelled_plan : Plan
cancelled_plan = record synth_sent { status = "cancel_requested" }

cancellation_lost_example :
    (after : Service) × (cycle_over (λ i. platform) 0 1 ("p1" ∷ []) (at cancelled_plan)
      ≡ some (0, after))
    × (Option.map (λ q. q.status) (first (is_plan "p1") after.plans) ≡ some "retry_wait")
unfolding is_waiting first
cancellation_lost_example =
    cancellation_lost platform 0 1 "p1" "plan:p1:step:synth" "down" (at cancelled_plan)
      cancelled_plan (synth synth_run "queued") refl refl refl refl refl refl
