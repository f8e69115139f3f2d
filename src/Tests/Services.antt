-- ===== src/Tests/Services.antt =====
-- The scheduler, the autoscaler and the event pipeline on concrete events.
use mini_databricks.Base.{
  List, ℕ, ◌+◌, ◌≡◌, ◌↔◌, refl, true, false, some, none, [], ◌∷◌, ◌++◌, All, select, map, length,
  arith,
}
use mini_databricks.Base.Text.{Text, codes}
use mini_databricks.Errors.{GoError, ok, is_permanent, plain, wrapped, permanent}
use mini_databricks.Errors.Kinds.{FirstJob, is_permanent_iff}
use mini_databricks.Db.{Json, other_json, Outbox, OutboxStatus}
use mini_databricks.Db.Row.{outbox_has_id}
use mini_databricks.World.{World, Message, calm, publish, actions, call}
use mini_databricks.Queries.Jobs.{update_job_state}
use mini_databricks.Queries.Runs.{create_run, update_run_tasks_total, init_run_progress}
use mini_databricks.Queries.Tasks.{create_task}
use mini_databricks.Autoscaler.{Autoscaler, main_config, evaluate}
use mini_databricks.Autoscaler.Bounds.{IsModest, evaluate-IsModest}
use mini_databricks.Kafka.{consume, dispatch, event_message, dead_letter}
use mini_databricks.Kafka.Attempts.{never, consume_succeeds, consume_gives_up}
use mini_databricks.Autoscaler.Decision.{Decision, evaluate-Decision}
use mini_databricks.Cleanup.{run_cleanup}
use mini_databricks.Cleanup.Kept.{SameLive, run_cleanup-SameLive}
use mini_databricks.Kafka.Delivered.{IsBacked, dispatch-IsBacked}
use mini_databricks.Kafka.Stuck.{dispatch_frame}
use mini_databricks.Kafka.Oldest.{IsOldestPending}
use mini_databricks.Kafka.Drained.{IsDelivered, dispatch_drains}
use mini_databricks.Scheduler.{handle_job_submitted, unmarshal_event}
use mini_databricks.Scheduler.Plan.{IsEvent, IsPlanned, handle_job_submitted_plans}
use mini_databricks.Scheduler.Redelivery.{redelivery_doubles}
use mini_databricks.Tests.Data.{steady_world, flaky_world, job_event, event_row, timeout}

event_read : IsEvent steady_world job_event 30 5
unfolding unmarshal_event
event_read = record {
  event = record { job_id = codes "30"; workspace_id = codes "5" };
  parsed = refl;
  job_id = refl;
  workspace_id = refl;
}

handle_job_submitted_plans_example :
    IsPlanned true job_event 30 5 steady_world event_read refl
      (refl, tt)
      (handle_job_submitted true job_event (calm steady_world))
handle_job_submitted_plans_example =
    handle_job_submitted_plans true job_event 30 5 steady_world event_read refl (refl, tt)

redelivery_doubles_example :
    let v = (handle_job_submitted false job_event (calm steady_world)).1 in
    let v' = (handle_job_submitted false job_event v).1 in
    (length v'.db.runs ≡ 1 + 2) × (length v'.db.tasks ≡ 2 + 6)
redelivery_doubles_example =
    redelivery_doubles job_event 30 5 steady_world event_read refl (omega arith, tt)

abbrev idle_autoscaler : Autoscaler
idle_autoscaler = record { has_controller = true; config = main_config; last_scale_at = none }

abbrev busy_autoscaler : Autoscaler
busy_autoscaler = record { has_controller = true; config = main_config; last_scale_at = some 95 }

evaluate-IsModest_example :
    All (IsModest main_config 2) (evaluate idle_autoscaler flaky_world).1.requests
evaluate-IsModest_example =
    evaluate-IsModest idle_autoscaler 2 flaky_world (λ k o e. ground arith) (omega arith)
      (omega arith) tt

is_permanent_iff_example :
    (is_permanent (wrapped (codes "task runner failed") timeout) ≡ true)
    ↔ FirstJob (wrapped (codes "task runner failed") timeout) permanent
is_permanent_iff_example = is_permanent_iff (wrapped (codes "task runner failed") timeout)

abbrev dlq : Text
dlq = codes "job.submitted.deadletter"

abbrev message_of : Json → Message
message_of j = record {
  topic = codes "job.submitted";
  key = 30 ∷ [];
  value = j;
  traceparent = none;
}

-- The first attempt fails at a refused call, and the second one loses an answer.
abbrev second_try : World
second_try =
    (handle_job_submitted false job_event (handle_job_submitted false job_event flaky_world).1).1

abbrev scheduled_at_last : World
scheduled_at_last = (handle_job_submitted false job_event second_try).1

consume_succeeds_example :
    consume never dlq (handle_job_submitted false) (message_of job_event) flaky_world
    ≡ (ok tt, scheduled_at_last)
unfolding handle_job_submitted actions call update_job_state create_run create_task
    update_run_tasks_total init_run_progress
consume_succeeds_example =
    consume_succeeds dlq (handle_job_submitted false) (message_of job_event) 2 flaky_world
      second_try scheduled_at_last (omega arith) (_, _, refl, (_, _, refl, refl)) refl

abbrev broken : Message
broken = message_of (other_json (codes "{"))

abbrev parse_error : GoError
parse_error = wrapped (codes "failed to parse event") (plain (codes "json: cannot unmarshal"))

consume_gives_up_example :
    consume never dlq (handle_job_submitted false) broken steady_world
    ≡ (ok tt, (publish (dead_letter dlq broken parse_error steady_world) steady_world).1)
unfolding handle_job_submitted actions call
consume_gives_up_example =
    consume_gives_up dlq (handle_job_submitted false) broken parse_error steady_world steady_world
      steady_world (_, _, refl, (_, _, refl, refl)) refl

dispatch_drains_example :
    (es : List Outbox) × IsOldestPending (event_row ∷ []) es
    × ((dispatch (calm steady_world)).0 ≡ ok tt)
    × ((dispatch (calm steady_world)).1.topics ≡ [] ++ map (λ e. event_message e steady_world) es)
    × All (λ e. IsDelivered e.id (dispatch (calm steady_world)).1.db.outbox) es
dispatch_drains_example = dispatch_drains steady_world

abbrev content_of : ℕ → Message
content_of k = event_message event_row flaky_world

dispatch-IsBacked_example :
    All
      (IsBacked content_of flaky_world (dispatch flaky_world).1.topics)
      (dispatch flaky_world).1.db.outbox
dispatch-IsBacked_example =
    dispatch-IsBacked content_of flaky_world
      (record { has_content = refl; published = λ d. absurd (ground (arith, d)) }, tt)

run_cleanup-SameLive_example : SameLive flaky_world.db (run_cleanup flaky_world).1.db
run_cleanup-SameLive_example = run_cleanup-SameLive flaky_world

abbrev failed_event : Outbox
failed_event = record event_row { status = OutboxStatus.failed }

abbrev failed_world : World
failed_world = record flaky_world { db = record flaky_world.db { outbox = failed_event ∷ [] } }

dispatch_frame_example :
    select (outbox_has_id 50) (dispatch failed_world).1.db.outbox ≡ failed_event ∷ []
dispatch_frame_example = dispatch_frame 50 failed_world (refl, tt)

evaluate-Decision_example :
    Decision idle_autoscaler 2 steady_world (evaluate idle_autoscaler (calm steady_world))
evaluate-Decision_example = evaluate-Decision idle_autoscaler 2 steady_world refl refl (λ k q. refl)
