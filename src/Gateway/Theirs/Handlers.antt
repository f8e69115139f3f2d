-- ===== src/Gateway/Theirs/Handlers.antt =====
-- Which handlers of services/api-gateway leave an owner's workspaces alone, however their calls end.
use mini_databricks.Base.{List, [], ◌∷◌}
use mini_databricks.Base.Text.{Text}
use mini_databricks.Errors.{GoError, Result, ok, err}
use mini_databricks.Db.{Job}
use mini_databricks.World.{World, Env, Action, pure}
use mini_databricks.World.Keeps.{
  Keeps, Keeps-pure, Keeps-bind, Keeps-then, Keeps-modify, Keeps-call, Keeps-gets,
}
use mini_databricks.Gateway.Http.{
  Request, Context, Response, JsonField, answer, with_bound, bind_json,
}
use mini_databricks.Gateway.Users.{handle_register, handle_login, handle_me}
use mini_databricks.Gateway.Workspaces.{
  handle_create_workspace, handle_get_workspace, handle_list_my_workspaces, handle_update_workspace,
  handle_delete_workspace,
}
use mini_databricks.Gateway.Datasets.{
  handle_initiate, handle_complete, handle_get_dataset, handle_list_datasets, handle_delete_dataset,
}
use mini_databricks.Gateway.Jobs.{
  counted_job, in_workspace, handle_create_job, handle_get_job, handle_list_jobs, handle_cancel_job,
  handle_get_progress, handle_get_artifacts, handle_download_artifact,
}
use mini_databricks.Gateway.Routes.{Endpoint}
use mini_databricks.Gateway.Serve.{
  Gateway, handle_health, handle_ready, handle_metrics, handle_stats, handler_of,
}
use mini_databricks.Gateway.Theirs.{View, Theirs}
use mini_databricks.Gateway.Theirs.Statements.{keeps, statements, timeless}
use mini_databricks.Gateway.Theirs.Services.{
  register-Theirs, login-Theirs, workspaces_of_owner-Theirs, find_workspace-Theirs,
  initiate_upload-Theirs, complete_upload-Theirs, get_dataset-Theirs, list_datasets-Theirs,
  remove_dataset-Theirs,
}
use mini_databricks.Gateway.Theirs.Jobs.{
  submit_job-Theirs, get_job-Theirs, list_jobs-Theirs, cancel_job-Theirs, get_job_progress-Theirs,
  get_job_artifacts-Theirs, get_artifact_download_url-Theirs,
}
use mini_databricks.Gateway.Theirs.Workspaces.{
  NotTheirs, new_workspace_for-Theirs, remove_workspace-Theirs, change_workspace-Theirs,
}

module _ (v : View) where
  answer-Theirs :
      {A : Type 0} (refuse : GoError → Response) (done : A → Response) {m : Action A}
      → Keeps (Theirs v) m
      → Keeps (Theirs v) (answer refuse done m)
  unfolding answer
  answer-Theirs refuse done k = search keeps

  with_bound-Theirs :
      {A : Type 0} (r : Result A) {f : A → Action Response}
      → ((a : A) → Keeps (Theirs v) (f a))
      → Keeps (Theirs v) (with_bound r f)
  unfolding with_bound
  with_bound-Theirs (ok a) k = k a
  with_bound-Theirs (err e) k = Keeps-pure (Theirs v) (timeless v) _

  bind_json-Theirs :
      {A : Type 0} (decode : Env → List JsonField → Result A) (req : Request)
      {f : A → Action Response}
      → ((a : A) → Keeps (Theirs v) (f a))
      → Keeps (Theirs v) (bind_json decode req f)
  unfolding bind_json
  bind_json-Theirs decode req k =
      Keeps-bind (Theirs v) (timeless v) (Keeps-gets (Theirs v) (timeless v) _)
        (λ r. with_bound-Theirs r k)

  counted_job-Theirs :
      (count : World → World) (done : Job → Response) (r : Result Job)
      → ((w : World) → Theirs v w → Theirs v (count w))
      → Keeps (Theirs v) (counted_job count done r)
  unfolding counted_job
  counted_job-Theirs count done (ok j) k =
      Keeps-then (Theirs v) (timeless v) (Keeps-modify (Theirs v) (timeless v) count k)
        (Keeps-pure (Theirs v) (timeless v) _)
  counted_job-Theirs count done (err e) k = Keeps-pure (Theirs v) (timeless v) _

  in_workspace-Theirs :
      (t : Text) {f : Text → Action Response}
      → ((ws : Text) → Keeps (Theirs v) (f ws))
      → Keeps (Theirs v) (in_workspace t f)
  unfolding in_workspace
  in_workspace-Theirs [] k = Keeps-pure (Theirs v) (timeless v) _
  in_workspace-Theirs (c ∷ t) k = k (c ∷ t)

  ruleset handlers = (keeps, answer-Theirs, bind_json-Theirs, in_workspace-Theirs)

  ready-Theirs : (req : Request) (ctx : Context) → Keeps (Theirs v) (handle_ready req ctx)
  unfolding handle_ready
  ready-Theirs req ctx =
      answer-Theirs _ _ (unfold pure in Keeps-call (Theirs v) (timeless v) (pure tt) (λ w h. h))

  pub handler-Theirs :
      (g : Gateway) (e : Endpoint) (req : Request) (ctx : Context)
      → NotTheirs v ctx.user_id
      → Keeps (Theirs v) (handler_of g e req ctx)
  unfolding handler_of
  handler-Theirs g Endpoint.health req ctx other = unfold handle_health in search keeps
  handler-Theirs g Endpoint.ready req ctx other = ready-Theirs req ctx
  handler-Theirs g Endpoint.metrics req ctx other = unfold handle_metrics in search keeps
  handler-Theirs g Endpoint.stats req ctx other = unfold handle_stats in search (keeps, statements)
  handler-Theirs g Endpoint.register req ctx other =
      unfold handle_register in search (handlers, register-Theirs)
  handler-Theirs g Endpoint.login req ctx other =
      unfold handle_login in search (handlers, login-Theirs)
  handler-Theirs g Endpoint.me req ctx other = unfold handle_me in search keeps
  handler-Theirs g Endpoint.create_workspace req ctx other =
      unfold handle_create_workspace in search (handlers, new_workspace_for-Theirs)
  handler-Theirs g Endpoint.list_workspaces req ctx other =
      unfold handle_list_my_workspaces in search (handlers, workspaces_of_owner-Theirs)
  handler-Theirs g Endpoint.get_workspace req ctx other =
      unfold handle_get_workspace in search (handlers, find_workspace-Theirs)
  handler-Theirs g Endpoint.update_workspace req ctx other =
      unfold handle_update_workspace in search (handlers, change_workspace-Theirs)
  handler-Theirs g Endpoint.delete_workspace req ctx other =
      unfold handle_delete_workspace in search (handlers, remove_workspace-Theirs)
  handler-Theirs g Endpoint.initiate_dataset req ctx other =
      unfold handle_initiate in search (handlers, initiate_upload-Theirs)
  handler-Theirs g Endpoint.complete_dataset req ctx other =
      unfold handle_complete in search (handlers, complete_upload-Theirs)
  handler-Theirs g Endpoint.get_dataset req ctx other =
      unfold handle_get_dataset in search (handlers, get_dataset-Theirs)
  handler-Theirs g Endpoint.list_datasets req ctx other =
      unfold handle_list_datasets in search (handlers, list_datasets-Theirs)
  handler-Theirs g Endpoint.delete_dataset req ctx other =
      unfold handle_delete_dataset in search (handlers, remove_dataset-Theirs)
  handler-Theirs g Endpoint.create_job req ctx other =
      unfold handle_create_job in search (handlers, submit_job-Theirs, counted_job-Theirs) depth 8
  handler-Theirs g Endpoint.list_jobs req ctx other =
      unfold handle_list_jobs in search (handlers, list_jobs-Theirs)
  handler-Theirs g Endpoint.get_job req ctx other =
      unfold handle_get_job in search (handlers, get_job-Theirs)
  handler-Theirs g Endpoint.cancel_job req ctx other =
      unfold handle_cancel_job in search (handlers, cancel_job-Theirs, counted_job-Theirs) depth 8
  handler-Theirs g Endpoint.get_progress req ctx other =
      unfold handle_get_progress in search (handlers, get_job_progress-Theirs)
  handler-Theirs g Endpoint.get_artifacts req ctx other =
      unfold handle_get_artifacts in search (handlers, get_job_artifacts-Theirs)
  handler-Theirs g Endpoint.download_artifact req ctx other =
      unfold handle_download_artifact in search (handlers, get_artifact_download_url-Theirs)
