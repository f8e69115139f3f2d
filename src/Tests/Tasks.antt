-- ===== src/Tests/Tasks.antt =====
-- A worker at work on the run of two tasks.
use mini_databricks.Base.{
  All, ◌++◌, pos, ◌+◌, ◌+ℤ◌, ◌≡◌, ◌≢◌, refl, ◌⊎◌, [], ◌∷◌, map, first, select, some,
}
use mini_databricks.Errors.{ok, err, error_text, permanent}
use mini_databricks.Errors.Kinds.{FirstJob}
use mini_databricks.Db.{Task}
use mini_databricks.Db.Row.{task_has_id, run_has_id}
use native.Mathlib.Omega.{arith}
use mini_databricks.World.{World, calm, tick}
use mini_databricks.Queries.Tasks.{heartbeat_task, lease_task, lease_to, back_to_pending}
use mini_databricks.Queries.Runs.{count_started}
use mini_databricks.Queries.Rows.{no_rows}
use mini_databricks.Queries.Heartbeats.{IsHeld, IsExtended, heartbeat_task_lem}
use mini_databricks.Queries.Leasing.{IsLease, lease_task_lem}
use mini_databricks.Queries.Exclusive.{lease_task_exclusive}
use mini_databricks.Worker.{
  run_leased, poll_and_process, poll_rounds, check_and_complete_run, on_failure, start_task,
}
use mini_databricks.Base.Text.{codes, decimal}
use mini_databricks.Worker.Output.{leading_space, parse_output}
use mini_databricks.Worker.Parsed.{parse_output-printed}
use mini_databricks.Worker.Counters.{account, poll-account}
use mini_databricks.Worker.Leases.{LeasesSound, poll-LeasesSound}
use mini_databricks.Worker.Frame.{poll_rounds_frame}
use mini_databricks.Worker.Process.{HasInputs, runner_failed}
use mini_databricks.Worker.Completion.{HasEnded, check_and_complete_run_lem}
use mini_databricks.Worker.Finish.{Finishes, start_task-Finishes}
use mini_databricks.Worker.Retry.{MayRetry, IsRetried, IsFailed, on_failure_outcome}
use mini_databricks.Worker.Failure.{run_status, on_failure_completes_nothing}
use mini_databricks.Worker.Cancelled.{IsDropped, run_leased-IsDropped}
use mini_databricks.Worker.Success.{retry_stays_counted}
use mini_databricks.Tests.Data.{
  worker_a, worker_b, done_task, next_task, two_ready, held_task, run_row, full_run, job_row,
  dataset_row, flaky_world, steady_world, full_world, failing_world, cancelled_world, cancelled_run,
  printed, timeout,
}

poll-account_example :
    map account (poll_and_process worker_a flaky_world).1.db.runs ≡ map account (run_row ∷ [])
poll-account_example = poll-account worker_a flaky_world

tasks_sound : LeasesSound flaky_world
tasks_sound = (
  record {
    pending_owner = λ h. absurd (ground arith);
    pending_expiry = λ h. refl;
    leased_owner = λ h. absurd (ground arith);
    leased_expiry = λ h. absurd (ground arith);
  },
  (
    record {
      pending_owner = λ h. refl;
      pending_expiry = λ h. refl;
      leased_owner = λ h. absurd (ground arith);
      leased_expiry = λ h. absurd (ground arith);
    },
    tt,
  ),
)

poll-LeasesSound_example : LeasesSound (poll_and_process worker_a flaky_world).1
poll-LeasesSound_example = poll-LeasesSound worker_a flaky_world tasks_sound

poll_rounds_frame_example :
    select (task_has_id 11) (poll_rounds 3 worker_a flaky_world).1.db.tasks ≡ done_task ∷ []
poll_rounds_frame_example = poll_rounds_frame 3 worker_a 11 flaky_world (refl, tt)

check_and_complete_run_lem_example :
    let w' = (check_and_complete_run held_task (calm full_world)).1 in
    ((2 + 0 ≡ 2) × HasEnded held_task full_run job_row full_world w')
    ⊎ ((2 + 0 ≢ 2) × (w'.db ≡ full_world.db) × (w'.topics ≡ []))
check_and_complete_run_lem_example = check_and_complete_run_lem held_task full_world refl refl

inputs : (w : World) → w.db ≡ steady_world.db → HasInputs w.db held_task run_row job_row dataset_row
inputs w h = record { run = rw h; job = rw h; dataset = rw h }

start_task-Finishes_example :
    ((start_task held_task (calm steady_world)).0 ≡ ok tt)
    × Finishes held_task steady_world
        (inputs steady_world refl)
        printed
        refl
        refl
        held_task
        (start_task held_task (calm steady_world)).1
start_task-Finishes_example =
    start_task-Finishes held_task steady_world (inputs steady_world refl) printed refl refl refl

plain_retries : ¬ FirstJob (runner_failed timeout) permanent
plain_retries (FirstJob.skip m f) = no_plain f
  where
    no_plain : ¬ FirstJob timeout permanent
    no_plain g = elim g [ ]

may_retry : MayRetry held_task job_row (runner_failed timeout)
unfolding ◌+ℤ◌
may_retry = (omega arith, plain_retries)

on_failure_outcome_example :
    (MayRetry held_task job_row (runner_failed timeout)
      × IsRetried held_task
          (runner_failed timeout)
          steady_world
          {t = held_task}
          {r = run_row}
          {j = job_row}
          refl
          refl
          refl)
    ⊎ ((¬ MayRetry held_task job_row (runner_failed timeout))
        × IsFailed held_task
            (runner_failed timeout)
            steady_world
            {t = held_task}
            {r = run_row}
            {j = job_row}
            refl
            refl
            refl)
on_failure_outcome_example =
    on_failure_outcome held_task (runner_failed timeout) steady_world refl refl refl

on_failure_completes_nothing_example :
    let w' = (on_failure held_task timeout flaky_world).1 in
    (map run_status w'.db.runs ≡ map run_status (run_row ∷ []))
    × (w'.db.jobs ≡ job_row ∷ [])
    × (w'.topics ≡ [])
on_failure_completes_nothing_example = on_failure_completes_nothing held_task timeout flaky_world

retry_stays_counted_example :
    let w' = (start_task held_task (calm failing_world)).1 in
    (first (task_has_id 12) w'.db.tasks
      ≡ some (back_to_pending (error_text (runner_failed timeout)) held_task))
    × (first (run_has_id 20) w'.db.runs ≡ some (count_started (tick failing_world).now run_row))
retry_stays_counted_example =
    retry_stays_counted held_task failing_world (inputs failing_world refl) timeout refl refl
      may_retry

lease_task_lem_example : (chosen : Task) × IsLease worker_a 100 two_ready held_task chosen
unfolding lease_task
lease_task_lem_example = lease_task_lem worker_a 100 two_ready held_task refl

lease_task_exclusive_example : ¬ (next_task.id ≡ held_task.id)
unfolding lease_task
lease_task_exclusive_example =
    lease_task_exclusive worker_a worker_b 100 101 two_ready held_task
      (lease_to worker_b 101 next_task) refl refl

run_leased-IsDropped_example :
    IsDropped held_task cancelled_world {t = held_task} {r = cancelled_run} refl refl refl
      (run_leased held_task (calm cancelled_world))
run_leased-IsDropped_example = run_leased-IsDropped held_task cancelled_world refl refl refl

parse_output-printed_example :
    parse_output ((codes "out/1" ++ 58 ∷ decimal 64) ++ 10 ∷ []) ≡ (codes "out/1", pos 64)
unfolding leading_space
parse_output-printed_example =
    parse_output-printed (codes "out/1") 64 (refl, (refl, (refl, (refl, (refl, tt))))) refl
      (omega arith)

-- The no-break space, of two bytes, is trimmed.
no_break_space_trimmed : parse_output (194 ∷ 160 ∷ codes "a:1") ≡ (codes "a", pos 1)
unfolding parse_output
no_break_space_trimmed = refl

heartbeat_task_lem_example :
    IsExtended 12 worker_a 110 steady_world.db (heartbeat_task 12 worker_a 110 steady_world.db)
    ⊎ (All (λ t. ¬ IsHeld 12 worker_a t) steady_world.db.tasks
        × (heartbeat_task 12 worker_a 110 steady_world.db ≡ (err no_rows, steady_world.db)))
heartbeat_task_lem_example = heartbeat_task_lem 12 worker_a 110 steady_world.db
