-- ===== src/Scheduler.antt =====
-- services/scheduler/cmd/scheduler.go: a submitted job becomes a run with its tasks.
pub mod Created
pub mod Plan
pub mod Redelivery
use mini_databricks.Base.{
  ℕ, zero, suc, ◌+◌, Bool, true, false, Option, none, some, List, [], ◌∷◌, ◌++◌, if◌then◌else◌,
}
use mini_databricks.Base.Text.{Text, codes, same_text, decimal}
use mini_databricks.Errors.{GoError, plain, Result, ok, err}
use mini_databricks.Db.{Uuid, Json, object, other_json, JobState, Run}
use mini_databricks.World.{
  World, Metrics, Action, Done, pure, raise, wrap, ignore, gets, modify, query, parse_uuid, ◌>>=◌,
  ◌>>◌,
}
use mini_databricks.Queries.Tasks.{create_task}
use mini_databricks.Queries.Runs.{create_run, update_run_tasks_total, init_run_progress}
use mini_databricks.Queries.Jobs.{update_job_state}
use mini_databricks.K8s.{ensure_namespace, create_worker_job}

-- `JobSubmittedEvent`
pub record JobSubmittedEvent : Type 0 where
  pub job_id : Text
  pub workspace_id : Text

-- A field that an object lacks stays empty; of two with one name the later counts.
unfoldable pub field_or : Text → List (Text × Text) → Text → Text
field_or k [] v = v
field_or k ((j, u) ∷ fields) v = field_or k fields (if same_text j k then u else v)

-- `json.Unmarshal(payload, &event)`
unfoldable pub unmarshal_event : Json → Result JobSubmittedEvent
unfolding field_or
unmarshal_event (object fields) = ok (record {
  job_id = field_or (codes "job_id") fields [];
  workspace_id = field_or (codes "workspace_id") fields [];
})
unmarshal_event (other_json t) = err (plain (codes "json: cannot unmarshal"))

abbrev pub from_json : Result JobSubmittedEvent → Action JobSubmittedEvent
from_json (ok e) = pure e
from_json (err x) = raise x

-- `numPartitions`
abbrev pub num_partitions : ℕ
num_partitions = 3

-- The loop over the partitions, with those left and the next index.
unfoldable pub create_tasks : ℕ → ℕ → Uuid → Uuid → Action Done
create_tasks zero i run workspace = pure tt
create_tasks (suc left) i run workspace =
    wrap (codes "failed to create task " ++ decimal i) (query (create_task run workspace i))
    >> create_tasks left (suc i) run workspace

abbrev pub count_run : World → World
count_run w = record w { metrics = record w.metrics { runs_created = suc w.metrics.runs_created } }

abbrev pub count_tasks : World → World
count_tasks w = record w {
  metrics = record w.metrics { tasks_created = w.metrics.tasks_created + num_partitions };
}

-- The controller is there or not; its errors are logged.
unfoldable pub start_workers : Bool → JobSubmittedEvent → Uuid → Action Done
start_workers false event run = pure tt
start_workers true event run = do
  ignore (ensure_namespace event.workspace_id)
  run_id ← gets (λ w. w.env.format_uuid run)
  ignore (create_worker_job event.job_id event.workspace_id run_id num_partitions)

unfoldable pub schedule : Bool → JobSubmittedEvent → Uuid → Uuid → Action Done
unfolding create_tasks start_workers
schedule has_controller event job workspace = do
  wrap (codes "failed to update job state") (query (update_job_state job JobState.queued))
  run ← wrap (codes "failed to create run") (query (create_run job workspace))
  modify count_run
  create_tasks num_partitions 0 run.id workspace
  modify count_tasks
  wrap (codes "failed to set tasks total") (query (update_run_tasks_total run.id num_partitions))
  wrap (codes "failed to init run progress") (query (init_run_progress run.id))
  start_workers has_controller event run.id

unfoldable pub handle_job_submitted : Bool → Json → Action Done
unfolding unmarshal_event schedule
handle_job_submitted has_controller payload = do
  event ← wrap (codes "failed to parse event") (from_json (unmarshal_event payload))
  job ← wrap (codes "invalid job id") (parse_uuid event.job_id)
  workspace ← wrap (codes "invalid workspace id") (parse_uuid event.workspace_id)
  schedule has_controller event job workspace
