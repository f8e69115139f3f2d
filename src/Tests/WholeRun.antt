-- ===== src/Tests/WholeRun.antt =====
-- A run of three tasks, one of them done, that two polls complete, and a job that is planned and
-- completed.
use native.Mathlib.Omega.{arith}
use mini_databricks.Base.{true, refl, inl, inr, [], ◌∷◌}
use mini_databricks.Base.Text.{codes}
use mini_databricks.Scheduler.{handle_job_submitted, unmarshal_event}
use mini_databricks.Scheduler.Plan.{IsEvent}
use mini_databricks.Queries.Jobs.{with_job_state}
use mini_databricks.Worker.Leases.{IsLeaseSound}
use mini_databricks.Pipeline.Completed.{IsIdle, planned_job-IsComplete}
use mini_databricks.Db.{JobState, Run}
use mini_databricks.World.{World, calm}
use mini_databricks.Worker.{poll_rounds}
use mini_databricks.Worker.WholeRun.Pending.{pending_count}
use mini_databricks.Worker.WholeRun.States.{IsUnderWay, IsComplete}
use mini_databricks.Worker.WholeRun.Rounds.{poll_rounds-IsComplete}
use mini_databricks.Tests.Drain.{done_sound, ids_unique, waiting_sound}
use mini_databricks.Tests.Data.{
  steady_world, job_event, held_task, worker_a, run_row, job_row, dataset_row, two_ready, env_with,
  flaky, prints, printed, world_with,
}

abbrev open_run : Run
open_run = record run_row { tasks_total = 3 }

abbrev open_world : World
open_world =
    world_with (env_with flaky (prints printed)) (record two_ready { runs = open_run ∷ [] })

under_way : IsUnderWay 20 open_run job_row dataset_row 2 open_world.db
unfolding pending_count
under_way = record {
  has_run = refl;
  has_job = refl;
  has_dataset = refl;
  live = refl;
  no_failure = refl;
  total = refl;
  counted = refl;
  queue = (
    (λ p. refl, λ mine. inr refl),
    ((λ p. refl, λ mine. inl refl), ((λ p. refl, λ mine. inl refl), tt)),
  );
  unique = ids_unique;
  sound = waiting_sound;
}

poll_rounds-IsComplete_example :
    IsComplete 20 3 job_row open_world (poll_rounds 2 worker_a (calm open_world)).1
poll_rounds-IsComplete_example =
    poll_rounds-IsComplete worker_a 20 open_run job_row dataset_row 2 open_world refl
      (λ i e. (printed, refl)) (omega arith) under_way

event_read : IsEvent steady_world job_event 30 5
unfolding unmarshal_event
event_read = record {
  event = record { job_id = codes "30"; workspace_id = codes "5" };
  parsed = refl;
  job_id = refl;
  workspace_id = refl;
}

held_sound : IsLeaseSound held_task
held_sound = record {
  pending_owner = λ h. absurd (ground arith);
  pending_expiry = λ h. absurd (ground arith);
  leased_owner = λ h. refl;
  leased_expiry = λ h. refl;
}

nothing_waits : IsIdle steady_world.db
nothing_waits = record {
  not_nil = refl;
  new_run = (refl, tt);
  no_pending = (refl, (refl, tt));
  below = (omega arith, (omega arith, tt));
  not_of_run = (refl, (refl, tt));
  unique = ((refl, tt), (tt, tt));
  sound = (done_sound, (held_sound, tt));
}

planned_job-IsComplete_example :
    IsComplete steady_world.db.next_id 3
      (with_job_state JobState.queued job_row)
      steady_world
      (poll_rounds 3 worker_a (calm (handle_job_submitted true job_event (calm steady_world)).1)).1
planned_job-IsComplete_example =
    planned_job-IsComplete job_event 30 5 steady_world event_read refl refl nothing_waits true
      worker_a (λ i e. (printed, refl))
