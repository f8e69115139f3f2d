-- ===== src/Worker.antt =====
-- services/worker/cmd/worker.go: a poll that leases a task, runs it and records how it ended, and
-- the heartbeat beside it. Logs, spans and duration histograms are left out.
pub mod Output
pub mod Ending
pub mod Parsed
pub mod Steps
pub mod Polls
pub mod PollEnds
pub mod Counters
pub mod Leases
pub mod Frame
pub mod Failure
pub mod Retry
pub mod Cancelled
pub mod Process
pub mod Success
pub mod Finish
pub mod Completion
pub mod Drain
pub mod WholeRun
pub mod System
use mini_databricks.Base.{
  ℕ, zero, suc, ◌+◌, ℤ, pos, ltb_ℤ, Bool, true, false, ◌&&◌, Option, none, some, List, [], ◌∷◌,
  ◌++◌, ltb, ◌==◌, if◌then◌else◌,
}
use mini_databricks.Base.Text.{Text, codes, contains, decimal}
use mini_databricks.Errors.{GoError, Result, ok, err, error_text, is_transient}
use mini_databricks.Db.{
  Uuid, uuid_nil, Task, TaskState, RunState, Job, JobState, Json, object, Dataset,
}
use mini_databricks.Db.Row.{is_cancelled}
use mini_databricks.World.{
  World, Metrics, Action, Done, RunnerEnv, Message, pure, raise, from_result, attempt, wrap, ◌>>=◌,
  ◌>>◌, ignore, gets, modify, query, call, publish,
}
use mini_databricks.Queries.Tasks.{
  lease_task, update_task_state, retry_task, fail_task_with_error, heartbeat_task,
  get_run_task_count,
}
use mini_databricks.Queries.Runs.{
  RunProgress, get_run_state, task_started, task_succeeded, task_failed, get_run_progress,
  complete_run,
}
use mini_databricks.Queries.Jobs.{get_job_by_run_id, complete_job}
use mini_databricks.Queries.Files.{get_dataset_by_job_id, create_artifact, CreateArtifactParams}
use Output.{parse_output}
unfoldable pub use Ending.*

-- `dbBreaker.Execute`: the breaker rejects the request, or makes it and hands its result on.
abbrev admit : {A : Type 0} → Option GoError → Action A → Action A
admit none m = m
admit (some e) m = raise e

unfoldable pub breaker_execute : {A : Type 0} → Action A → Action A
breaker_execute m w = admit (w.env.breaker w.calls) m w

-- The variable `task` before a task is leased.
abbrev pub zero_task : Task
zero_task = record {
  id = uuid_nil;
  run_id = uuid_nil;
  workspace_id = uuid_nil;
  state = TaskState.pending;
  partition_index = 0;
  lease_owner = none;
  lease_expires_at = none;
  retry_count = 0;
  checkpoint_path = none;
  error_message = none;
  created_at = 0;
  started_at = none;
  finished_at = none;
}

-- The closure that `pollAndProcess` gives to the breaker: no row is no failure.
abbrev pub leased_or_none : Result Task → Action Task
leased_or_none (ok t) = pure t
leased_or_none (err e) =
    if contains (error_text e) (codes "no rows") then pure zero_task else raise e

unfoldable pub poll_lease : Text → Action Task
poll_lease worker_id = attempt (query (lease_task worker_id)) >>= leased_or_none

abbrev count_metric : (Metrics → Metrics) → Action Done
count_metric f = modify (λ w. record w { metrics = f w.metrics })

abbrev pub count_dead : Action Done
count_dead = count_metric (λ m. record m { tasks_dead = suc m.tasks_dead })

abbrev pub count_failed_task : Action Done
count_failed_task = count_metric (λ m. record m { tasks_failed = suc m.tasks_failed })

abbrev pub count_succeeded_task : Action Done
count_succeeded_task = count_metric (λ m. record m { tasks_succeeded = suc m.tasks_succeeded })

unfoldable pub mark_dead : Task → Action Done
mark_dead task = do ignore (query (update_task_state task.id TaskState.dead)); count_dead

abbrev pub or_empty : Option Text → Text
or_empty none = []
or_empty (some t) = t

-- `env` of `process`
abbrev pub runner_env : Task → Job → Dataset → ℕ → RunnerEnv
runner_env task job dataset total = record {
  task_id = task.id;
  run_id = task.run_id;
  dataset_storage_path = or_empty dataset.storage_path;
  partition_index = task.partition_index;
  total_partitions = total;
  job_entrypoint = job.entrypoint;
  job_parameters = job.parameters;
}

-- `cmd.Output()`: the process's standard output, or its exit error or the context's.
unfoldable pub run_python : RunnerEnv → Action Text
run_python e = call (λ w. (w.env.python w.calls e, w))

abbrev pub artifact_params : Task → Text × ℤ → CreateArtifactParams
artifact_params task (path, size) = record {
  run_id = task.run_id;
  workspace_id = task.workspace_id;
  name = codes "partition-" ++ decimal task.partition_index ++ codes ".csv";
  storage_path = path;
  content_type = codes "text/csv";
  size_bytes = size;
}

unfoldable pub process : Task → Action Done
unfolding parse_output
process task = do
  job ← wrap (codes "failed to get job") (query (get_job_by_run_id task.run_id))
  dataset ← wrap (codes "failed to get dataset") (query (get_dataset_by_job_id job.id))
  total ← wrap (codes "failed to get task count") (query (get_run_task_count task.run_id))
  output ← wrap (codes "task runner failed") (run_python (runner_env task job dataset total))
  ignore (query (create_artifact (artifact_params task (parse_output output))))

-- `jobErr == nil && task.RetryCount < job.MaxRetries && joberrors.IsTransient(err)`
unfoldable pub can_retry : Result Job → Task → GoError → Bool
can_retry (ok job) task e = ltb_ℤ (pos task.retry_count) job.max_retries && is_transient e
can_retry (err _) task e = false

unfoldable pub retry : Task → GoError → Action Done
retry task e = ignore (query (retry_task task.id (error_text e)))

-- The poll returns the error of the process.
unfoldable pub fail_permanently : Task → GoError → Action Done
fail_permanently task e = do
  ignore (query (fail_task_with_error task.id (error_text e)))
  ignore (query (task_failed task.run_id))
  count_failed_task
  raise e

unfoldable pub on_failure : Task → GoError → Action Done
unfolding retry fail_permanently can_retry
on_failure task e = do
  job ← attempt (query (get_job_by_run_id task.run_id))
  if can_retry job task e then retry task e else fail_permanently task e

unfoldable pub succeed : Task → Action Done
unfolding check_and_complete_run
succeed task = do
  query (update_task_state task.id TaskState.succeeded)
  ignore (query (task_succeeded task.run_id))
  ignore (check_and_complete_run task)
  count_succeeded_task

unfoldable pub on_success : Task → Action Done
unfolding mark_dead succeed
on_success task = do
  state ← query (get_run_state task.run_id)
  if is_cancelled state then mark_dead task else succeed task

abbrev pub after_process : Task → Result Done → Action Done
after_process task (ok _) = on_success task
after_process task (err e) = on_failure task e

unfoldable pub start_task : Task → Action Done
unfolding process on_success on_failure
start_task task = do
  ignore (query (task_started task.run_id))
  r ← attempt (process task)
  after_process task r

unfoldable pub run_leased : Task → Action Done
unfolding mark_dead start_task
run_leased task = do
  state ← query (get_run_state task.run_id)
  if is_cancelled state then mark_dead task else start_task task

-- A rejected or failed lease is no error of the poll.
abbrev pub after_lease : Result Task → Action Done
after_lease (err e) = pure tt
after_lease (ok task) = if task.run_id == uuid_nil then pure tt else run_leased task

unfoldable pub poll_and_process : Text → Action Done
unfolding breaker_execute poll_lease run_leased
poll_and_process worker_id = do
  leased ← attempt (breaker_execute (poll_lease worker_id))
  after_lease leased

-- `Start`: polls until the context is done, here for a number of rounds; an error is logged.
unfoldable pub poll_rounds : ℕ → Text → Action Done
unfolding poll_and_process
poll_rounds zero worker_id = pure tt
poll_rounds (suc n) worker_id = ignore (poll_and_process worker_id) >> poll_rounds n worker_id

-- `heartbeat`: one tick of the ticker; its error ends the loop.
unfoldable pub heartbeat_tick : Text → Uuid → Action Task
heartbeat_tick worker_id task = query (heartbeat_task task worker_id)

unfoldable pub heartbeat : ℕ → Text → Uuid → Action Done
unfolding heartbeat_tick
heartbeat zero worker_id task = pure tt
heartbeat (suc n) worker_id task = heartbeat_tick worker_id task >> heartbeat n worker_id task
