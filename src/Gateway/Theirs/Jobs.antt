-- ===== src/Gateway/Theirs/Jobs.antt =====
-- internal/service/job_service.go leaves every workspace alone, however its calls end.
use mini_databricks.Base.{select, ◌≡◌, List, [], ◌∷◌}
use mini_databricks.Base.Text.{Text}
use mini_databricks.Errors.{Result, ok, err}
use mini_databricks.Db.{Db, Uuid, Run, RunState}
use mini_databricks.World.{World, Action, call, pure}
use mini_databricks.World.Keeps.{Keeps, Keeps-ignore, Keeps-if, Keeps-then, Keeps-call}
use mini_databricks.Queries.Jobs.{CreateJobParams}
use mini_databricks.Storage.{MinioClient}
use mini_databricks.Gateway.Theirs.{View, Theirs}
use mini_databricks.Db.Row.{workspace_owned_by}
use mini_databricks.Gateway.Theirs.Statements.{update_run_state-Theirs, keeps, statements, timeless}
use mini_databricks.Gateway.Theirs.Services.{generate_download_url-Theirs}
use mini_databricks.RateLimit.{RateLimiter, increment_running_jobs, allow_job_submission}
use mini_databricks.RateLimit.Counter.{allow_job_submission-Keeps, increment_running_jobs-Keeps}
use mini_databricks.World.{Outcome, answered, refused, lost}
use mini_databricks.JobService.{
  Submission, insert_job, in_transaction, transaction, finish_transaction, commit_as, committed,
  admitted, submit_job, get_job, list_jobs, cancel_job, cancel_runs, latest_run, get_job_progress,
}
use mini_databricks.JobService.Artifacts.{
  artifacts_in, artifacts_or_panic, get_job_artifacts, get_artifact_download_url,
}

module _ (v : View) where
  committed-Theirs :
      {A : Type 0} (o : Outcome) (a : A) (before : Db) (w : World)
      → select (workspace_owned_by v.owner) before.workspaces ≡ v.rows
      → Theirs v w
      → Theirs v (committed a (commit_as o before w)).1
  committed-Theirs answered a before w b h = h
  committed-Theirs (refused e) a before w b h = (h.0, b)
  committed-Theirs (lost e) a before w b h = h

  finished-Theirs :
      {A : Type 0} (r : Result A) (before : Db) (w : World)
      → select (workspace_owned_by v.owner) before.workspaces ≡ v.rows
      → Theirs v w
      → Theirs v (finish_transaction before r w).1
  finished-Theirs (ok a) before w b h = committed-Theirs (w.env.outcome w.calls) a before w b h
  finished-Theirs (err e) before w b h = (h.0, b)

  in_transaction-Theirs :
      {A : Type 0} {body : Action A}
      → Keeps (Theirs v) body
      → Keeps (Theirs v) (in_transaction body)
  unfolding in_transaction
  in_transaction-Theirs k = record { run = λ w h. finished-Theirs _ w.db _ h.1 (k.run w h) }

  insert_job-Theirs : (s : Submission) (p : CreateJobParams) → Keeps (Theirs v) (insert_job s p)
  unfolding insert_job
  insert_job-Theirs s p = search (keeps, statements) depth 12

  begun : Keeps (Theirs v) (call (pure tt))
  begun = unfold pure in Keeps-call (Theirs v) (timeless v) (pure tt) (λ w h. h)

  increment-Theirs : (t : Text) → Keeps (Theirs v) (increment_running_jobs t)
  increment-Theirs t = increment_running_jobs-Keeps (Theirs v) (timeless v) t (λ w h. h)

  admitted-Theirs : (s : Submission) → Keeps (Theirs v) (admitted s)
  unfolding admitted transaction
  admitted-Theirs s =
      search (keeps, begun, in_transaction-Theirs, insert_job-Theirs, increment-Theirs) depth 16

  allow-Theirs : (l : RateLimiter) (t : Text) → Keeps (Theirs v) (allow_job_submission l t)
  allow-Theirs l t = allow_job_submission-Keeps (Theirs v) (timeless v) l t

  pub submit_job-Theirs : (l : RateLimiter) (s : Submission) → Keeps (Theirs v) (submit_job l s)
  unfolding submit_job
  submit_job-Theirs l s = search (keeps, Keeps-if, allow-Theirs, admitted-Theirs) depth 8

  pub get_job-Theirs : (k ws : Text) → Keeps (Theirs v) (get_job k ws)
  unfolding get_job
  get_job-Theirs k ws = search (keeps, statements)

  pub list_jobs-Theirs : (ws : Text) → Keeps (Theirs v) (list_jobs ws)
  unfolding list_jobs
  list_jobs-Theirs ws = search (keeps, statements)

  cancel_runs-Theirs : (rs : List Run) → Keeps (Theirs v) (cancel_runs rs)
  unfolding cancel_runs
  cancel_runs-Theirs [] = search keeps
  cancel_runs-Theirs (r ∷ rs) =
      Keeps-then (Theirs v) (timeless v)
        (Keeps-ignore (Theirs v) (timeless v) (update_run_state-Theirs v r.id RunState.cancelled))
        (cancel_runs-Theirs rs)

  pub cancel_job-Theirs : (k : Text) → Keeps (Theirs v) (cancel_job k)
  unfolding cancel_job
  cancel_job-Theirs k = search (keeps, statements, cancel_runs-Theirs) depth 12

  latest_run-Theirs : (r : Result (List Run)) → Keeps (Theirs v) (latest_run r)
  latest_run-Theirs (ok []) = search keeps
  latest_run-Theirs (ok (r ∷ rs)) = search keeps
  latest_run-Theirs (err e) = search keeps

  pub get_job_progress-Theirs : (k ws : Text) → Keeps (Theirs v) (get_job_progress k ws)
  unfolding get_job_progress
  get_job_progress-Theirs k ws = search (keeps, statements, latest_run-Theirs) depth 16

  artifacts_in-Theirs : (k ws : Uuid) → Keeps (Theirs v) (artifacts_in k ws)
  unfolding artifacts_in
  artifacts_in-Theirs k ws = search (keeps, statements)

  artifacts_or_panic-Theirs :
      (ws : Text) (r : Result Uuid) → Keeps (Theirs v) (artifacts_or_panic ws r)
  unfolding artifacts_or_panic
  artifacts_or_panic-Theirs ws (ok k) = search (keeps, artifacts_in-Theirs)
  artifacts_or_panic-Theirs ws (err e) = search keeps

  pub get_job_artifacts-Theirs : (k ws : Text) → Keeps (Theirs v) (get_job_artifacts k ws)
  unfolding get_job_artifacts
  get_job_artifacts-Theirs k ws = search (keeps, artifacts_or_panic-Theirs)

  pub get_artifact_download_url-Theirs :
      (c : MinioClient) (k : Text) → Keeps (Theirs v) (get_artifact_download_url c k)
  unfolding get_artifact_download_url
  get_artifact_download_url-Theirs c k =
      search (keeps, statements, generate_download_url-Theirs) depth 8
