-- ===== src/Gateway/Theirs/Statements.antt =====
-- The statements that leave an owner's workspaces alone, however
-- their calls end.
use mini_databricks.Base.{ℤ, refl, Option, arith}
use mini_databricks.Base.Text.{Text}
use mini_databricks.Db.{FileFormat, Json, Uuid, JobState, RunState}
use mini_databricks.World.{query, parse_uuid}
use mini_databricks.World.Keeps.{
  Keeps, IsTimeless, Keeps-pure, Keeps-raise, Keeps-attempt, Keeps-wrap, Keeps-ignore, Keeps-gets,
  Keeps-modify, Keeps-if, Keeps-bind, Keeps-then, Keeps-query, Keeps-call,
}
use mini_databricks.Queries.Accounts.{
  CreateUserParams, create_user, get_user_by_email, get_workspace_by_id, get_workspaces_by_owner,
}
use mini_databricks.Queries.Files.{
  initiate_dataset, update_dataset_storage_path, get_dataset_by_id, list_datasets_by_workspace,
  delete_dataset, list_artifacts_by_job, get_artifact,
}
use mini_databricks.Queries.Jobs.{
  CreateJobParams, create_job, get_job_by_id, list_jobs_by_workspace, update_job_state,
}
use mini_databricks.Queries.Runs.{list_runs_by_job, update_run_state, get_run_progress}
use mini_databricks.Queries.Outbox.{create_outbox_event}
use mini_databricks.Queries.Tasks.{get_pending_task_count, get_running_task_count}
use mini_databricks.Gateway.Theirs.{View, Theirs, Keeps-elsewhere}

module _ (v : View) where
  pub timeless : IsTimeless (Theirs v)
  timeless w h = h

  pub parse-Theirs : (t : Text) → Keeps (Theirs v) (parse_uuid t)
  unfolding parse_uuid
  parse-Theirs t = record { run = λ w h. h }

  pub ruleset keeps = (
    timeless, Keeps-pure, Keeps-raise, Keeps-attempt, Keeps-wrap, Keeps-ignore, Keeps-gets,
    Keeps-bind, Keeps-then, parse-Theirs,
  )

  pub create_user-Theirs : (p : CreateUserParams) → Keeps (Theirs v) (query (create_user p))
  unfolding create_user
  create_user-Theirs p = Keeps-elsewhere v (create_user p) (λ w. ground arith)

  pub get_user_by_email-Theirs : (t : Text) → Keeps (Theirs v) (query (get_user_by_email t))
  unfolding get_user_by_email
  get_user_by_email-Theirs t = Keeps-elsewhere v (get_user_by_email t) (λ w. refl)

  pub get_workspace_by_id-Theirs : (k : Uuid) → Keeps (Theirs v) (query (get_workspace_by_id k))
  unfolding get_workspace_by_id
  get_workspace_by_id-Theirs k = Keeps-elsewhere v (get_workspace_by_id k) (λ w. refl)

  pub get_workspaces_by_owner-Theirs :
      (k : Uuid) → Keeps (Theirs v) (query (get_workspaces_by_owner k))
  unfolding get_workspaces_by_owner
  get_workspaces_by_owner-Theirs k = Keeps-elsewhere v (get_workspaces_by_owner k) (λ w. refl)

  pub initiate_dataset-Theirs :
      (k u : Uuid) (t : Text) (f : FileFormat) → Keeps (Theirs v) (query (initiate_dataset k u t f))
  unfolding initiate_dataset
  initiate_dataset-Theirs k u t f = Keeps-elsewhere v (initiate_dataset k u t f) (λ w. ground arith)

  pub update_dataset_storage_path-Theirs :
      (k : Uuid) (p : Option Text) (s : Option ℤ)
      → Keeps (Theirs v) (query (update_dataset_storage_path k p s))
  unfolding update_dataset_storage_path
  update_dataset_storage_path-Theirs k p s =
      Keeps-elsewhere v (update_dataset_storage_path k p s) (λ w. refl)

  pub get_dataset_by_id-Theirs : (k ws : Uuid) → Keeps (Theirs v) (query (get_dataset_by_id k ws))
  unfolding get_dataset_by_id
  get_dataset_by_id-Theirs k ws = Keeps-elsewhere v (get_dataset_by_id k ws) (λ w. refl)

  pub list_datasets_by_workspace-Theirs :
      (ws : Uuid) → Keeps (Theirs v) (query (list_datasets_by_workspace ws))
  unfolding list_datasets_by_workspace
  list_datasets_by_workspace-Theirs ws =
      Keeps-elsewhere v (list_datasets_by_workspace ws) (λ w. refl)

  pub delete_dataset-Theirs : (k ws : Uuid) → Keeps (Theirs v) (query (delete_dataset k ws))
  unfolding delete_dataset
  delete_dataset-Theirs k ws = Keeps-elsewhere v (delete_dataset k ws) (λ w. refl)

  pub list_artifacts_by_job-Theirs : (k : Uuid) → Keeps (Theirs v) (query (list_artifacts_by_job k))
  unfolding list_artifacts_by_job
  list_artifacts_by_job-Theirs k = Keeps-elsewhere v (list_artifacts_by_job k) (λ w. refl)

  pub get_artifact-Theirs : (k : Uuid) → Keeps (Theirs v) (query (get_artifact k))
  unfolding get_artifact
  get_artifact-Theirs k = Keeps-elsewhere v (get_artifact k) (λ w. refl)

  pub create_job-Theirs : (p : CreateJobParams) → Keeps (Theirs v) (query (create_job p))
  unfolding create_job
  create_job-Theirs p = Keeps-elsewhere v (create_job p) (λ w. ground arith)

  pub get_job_by_id-Theirs : (k ws : Uuid) → Keeps (Theirs v) (query (get_job_by_id k ws))
  unfolding get_job_by_id
  get_job_by_id-Theirs k ws = Keeps-elsewhere v (get_job_by_id k ws) (λ w. refl)

  pub list_jobs_by_workspace-Theirs :
      (ws : Uuid) → Keeps (Theirs v) (query (list_jobs_by_workspace ws))
  unfolding list_jobs_by_workspace
  list_jobs_by_workspace-Theirs ws = Keeps-elsewhere v (list_jobs_by_workspace ws) (λ w. refl)

  pub update_job_state-Theirs :
      (k : Uuid) (s : JobState) → Keeps (Theirs v) (query (update_job_state k s))
  unfolding update_job_state
  update_job_state-Theirs k s = Keeps-elsewhere v (update_job_state k s) (λ w. refl)

  pub list_runs_by_job-Theirs : (k : Uuid) → Keeps (Theirs v) (query (list_runs_by_job k))
  unfolding list_runs_by_job
  list_runs_by_job-Theirs k = Keeps-elsewhere v (list_runs_by_job k) (λ w. refl)

  pub update_run_state-Theirs :
      (k : Uuid) (s : RunState) → Keeps (Theirs v) (query (update_run_state k s))
  unfolding update_run_state
  update_run_state-Theirs k s = Keeps-elsewhere v (update_run_state k s) (λ w. refl)

  pub get_run_progress-Theirs : (k : Uuid) → Keeps (Theirs v) (query (get_run_progress k))
  unfolding get_run_progress
  get_run_progress-Theirs k = Keeps-elsewhere v (get_run_progress k) (λ w. refl)

  pub create_outbox_event-Theirs :
      (t : Text) (k : Uuid) (p : Json) → Keeps (Theirs v) (query (create_outbox_event t k p))
  unfolding create_outbox_event
  create_outbox_event-Theirs t k p = Keeps-elsewhere v (create_outbox_event t k p) (λ w. refl)

  pub get_pending_task_count-Theirs : Keeps (Theirs v) (query get_pending_task_count)
  unfolding get_pending_task_count
  get_pending_task_count-Theirs = Keeps-elsewhere v get_pending_task_count (λ w. refl)

  pub get_running_task_count-Theirs : Keeps (Theirs v) (query get_running_task_count)
  unfolding get_running_task_count
  get_running_task_count-Theirs = Keeps-elsewhere v get_running_task_count (λ w. refl)

  pub ruleset statements = (
    create_user-Theirs, get_user_by_email-Theirs, get_workspace_by_id-Theirs,
    get_workspaces_by_owner-Theirs, initiate_dataset-Theirs, update_dataset_storage_path-Theirs,
    get_dataset_by_id-Theirs, list_datasets_by_workspace-Theirs, delete_dataset-Theirs,
    list_artifacts_by_job-Theirs, get_artifact-Theirs, create_job-Theirs, get_job_by_id-Theirs,
    list_jobs_by_workspace-Theirs, update_job_state-Theirs, list_runs_by_job-Theirs,
    update_run_state-Theirs, get_run_progress-Theirs, create_outbox_event-Theirs,
    get_pending_task_count-Theirs, get_running_task_count-Theirs,
  )
