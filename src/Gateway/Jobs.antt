-- ===== src/Gateway/Jobs.antt =====
-- services/api-gateway/handlers/job_handler.go. Spans are left out.
use mini_databricks.Base.{suc, List, [], ◌∷◌}
use mini_databricks.Base.Text.{Text, codes}
use mini_databricks.Errors.{Result, ok, err}
use mini_databricks.Db.{Job, Artifact}
use mini_databricks.World.{World, Action, pure, modify, attempt, ◌>>=◌, ◌>>◌}
use mini_databricks.Storage.{MinioClient}
use mini_databricks.RateLimit.{RateLimiter}
use mini_databricks.JobService.{
  Submission, submit_job, get_job, list_jobs, cancel_job, get_job_progress,
}
use mini_databricks.JobService.Artifacts.{get_job_artifacts, get_artifact_download_url}
use mini_databricks.Gateway.Http.{
  Request, Context, Response, Handler, error_reply, job_reply, jobs_reply, progress_reply,
  artifacts_reply, download_reply, value_at, respond, failed, answer_of, answer, bind_json,
}
use mini_databricks.Gateway.Binding.{JobRequest, job_request}

abbrev pub submission_of : JobRequest → Context → Request → Submission
submission_of r ctx req = record {
  workspace_id = r.workspace_id;
  created_by = ctx.user_id;
  dataset_id = r.dataset_id;
  entrypoint = r.entrypoint;
  parameters = r.parameters;
  compute = r.compute;
  max_retries = r.max_retries;
  idempotency_key = r.idempotency_key;
  traceparent = req.traceparent;
}

abbrev pub one_submitted : World → World
one_submitted w = record w {
  metrics = record w.metrics { jobs_submitted = suc w.metrics.jobs_submitted };
}

abbrev pub one_cancelled : World → World
one_cancelled w = record w {
  metrics = record w.metrics { jobs_cancelled = suc w.metrics.jobs_cancelled };
}

-- What follows the call of the service: its error is answered by 500, a job is counted and answered.
unfoldable pub counted_job : (World → World) → (Job → Response) → Result Job → Action Response
counted_job count done (ok j) = modify count >> pure (done j)
counted_job count done (err e) = pure (failed 500 e)

unfoldable pub handle_create_job : RateLimiter → Handler
unfolding counted_job
handle_create_job limiter req ctx = bind_json job_request req (λ r.
    attempt (submit_job limiter (submission_of r ctx req))
    >>= counted_job one_submitted (λ j. respond 201 (job_reply j)))

-- `workspace_id` of the query; without one the answer is 400.
unfoldable pub in_workspace : Text → (Text → Action Response) → Action Response
in_workspace [] f = pure (respond 400 (error_reply (codes "workspace_id is required")))
in_workspace (c ∷ t) f = f (c ∷ t)

unfoldable pub handle_get_job : Handler
unfolding in_workspace
handle_get_job req ctx = in_workspace (value_at (codes "workspace_id") req.query) (λ ws.
    answer (λ e. respond 404 (error_reply (codes "job not found"))) (λ j. respond 200 (job_reply j))
      (get_job (value_at (codes "id") ctx.params) ws))

unfoldable pub handle_list_jobs : Handler
unfolding in_workspace
handle_list_jobs req ctx =
    in_workspace (value_at (codes "workspace_id") req.query)
      (λ ws. answer (failed 500) (λ js. respond 200 (jobs_reply js)) (list_jobs ws))

unfoldable pub handle_cancel_job : Handler
unfolding counted_job
handle_cancel_job req ctx =
    attempt (cancel_job (value_at (codes "id") ctx.params))
    >>= counted_job one_cancelled (λ j. respond 200 (job_reply j))

unfoldable pub handle_get_progress : Handler
unfolding in_workspace
handle_get_progress req ctx = in_workspace (value_at (codes "workspace_id") req.query) (λ ws.
    answer (failed 404) (λ p. respond 200 (progress_reply (value_at (codes "id") ctx.params) p))
      (get_job_progress (value_at (codes "id") ctx.params) ws))

abbrev pub artifacts_answer : Result (List Artifact) → Response
artifacts_answer r = answer_of (failed 404) (λ xs. respond 200 (artifacts_reply xs)) r

-- A panic of the service is one of the handler.
unfoldable pub handle_get_artifacts : Handler
unfolding in_workspace
handle_get_artifacts req ctx = in_workspace (value_at (codes "workspace_id") req.query) (λ ws.
    get_job_artifacts (value_at (codes "id") ctx.params) ws >>= λ r. pure (artifacts_answer r))

unfoldable pub handle_download_artifact : MinioClient → Handler
handle_download_artifact minio req ctx =
    answer (failed 404) (λ url. respond 200 (download_reply url))
      (get_artifact_download_url minio (value_at (codes "artifact_id") ctx.params))
