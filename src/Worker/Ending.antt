-- ===== src/Worker/Ending.antt =====
-- `checkAndCompleteRun` of services/worker/cmd/worker.go: the end of a run.
use mini_databricks.Base.{◌+◌, Bool, none, [], ◌∷◌, ltb, ◌==◌, if◌then◌else◌}
use mini_databricks.Base.Text.{Text, codes}
use mini_databricks.Db.{Task, RunState, Job, JobState, object}
use mini_databricks.World.{
  World, Action, Done, Message, pure, wrap, ◌>>=◌, ◌>>◌, ignore, gets, query, publish,
}
use mini_databricks.Queries.Runs.{RunProgress, get_run_progress, complete_run}
use mini_databricks.Queries.Jobs.{get_job_by_run_id, complete_job}

abbrev pub all_done : RunProgress → Bool
all_done p = p.tasks_done + p.tasks_failed == p.tasks_total

abbrev pub final_run_state : RunProgress → RunState
final_run_state p = if ltb 0 p.tasks_failed then RunState.failed else RunState.succeeded

abbrev pub final_job_state : RunProgress → JobState
final_job_state p = if ltb 0 p.tasks_failed then JobState.failed else JobState.succeeded

abbrev pub job_completed_topic : Text
job_completed_topic = codes "job.completed"

abbrev pub job_completed : Job → World → Message
job_completed job w = record {
  topic = job_completed_topic;
  key = w.env.format_uuid job.id;
  value = object (
      (codes "job_id", w.env.format_uuid job.id)
      ∷ (codes "workspace_id", w.env.format_uuid job.workspace_id)
      ∷ []);
  traceparent = none;
}

unfoldable pub announce : Job → Action Done
announce job = gets (job_completed job) >>= λ m. ignore (publish m)

unfoldable pub complete : Task → RunProgress → Action Done
unfolding announce
complete task p = do
  wrap (codes "failed to complete run") (query (complete_run task.run_id (final_run_state p)))
  job ← wrap (codes "failed to get job") (query (get_job_by_run_id task.run_id))
  wrap (codes "failed to complete job") (query (complete_job job.id (final_job_state p)))
  announce job

unfoldable pub check_and_complete_run : Task → Action Done
unfolding complete
check_and_complete_run task = do
  p ← wrap (codes "failed to get run progress") (query (get_run_progress task.run_id))
  if all_done p then complete task p else pure tt
