-- ===== src/JobService.antt =====
-- internal/service/job_service.go, and the gateway's handler of `job.completed`
-- (services/api-gateway/cmd/main.go). Spans are left out.
pub mod Atomic
pub mod Limit
pub mod Cancel
pub mod Count
pub mod Artifacts
use mini_databricks.Base.{ℕ, ℤ, Bool, true, false, Option, none, some, List, [], ◌∷◌, if◌then◌else◌}
use mini_databricks.Base.Text.{Text, codes}
use mini_databricks.Errors.{GoError, plain, wrapped, Result, ok, err}
use mini_databricks.Db.{Db, Uuid, Job, JobState, Run, RunState, Json, object, Artifact}
use mini_databricks.World.{
  World, Outcome, answered, refused, lost, Action, Done, pure, raise, attempt, wrap, ignore, gets,
  map_error, tick, call, query, parse_uuid, ◌>>=◌, ◌>>◌,
}
use mini_databricks.Queries.Jobs.{
  CreateJobParams, create_job, get_job_by_id, list_jobs_by_workspace, update_job_state,
}
use mini_databricks.Queries.Outbox.{create_outbox_event}
use mini_databricks.Queries.Runs.{RunProgress, list_runs_by_job, update_run_state, get_run_progress}
use mini_databricks.Queries.Files.{list_artifacts_by_job}
use mini_databricks.RateLimit.{
  RateLimiter, allow_job_submission, increment_running_jobs, decrement_running_jobs,
}
use mini_databricks.Scheduler.{JobSubmittedEvent, unmarshal_event}

-- The tables of the transaction are dropped, however the call of `Rollback` ends.
abbrev pub rolled_back : Db → World → World
rolled_back before w = record (tick w) { db = before }

-- `Commit`, by how its call ends: refused, the transaction is undone; with its answer lost, it is done.
abbrev pub commit_as : Outcome → Db → World → Result Done × World
commit_as answered before w = (ok tt, tick w)
commit_as (refused e) before w = (err e, rolled_back before w)
commit_as (lost e) before w = (err e, tick w)

abbrev pub commit : Db → Action Done
commit before w = commit_as (w.env.outcome w.calls) before w

-- `return dbgen.Job{}, fmt.Errorf("failed to commit transaction: %w", err)`
abbrev pub committed : {A : Type 0} → A → Result Done × World → Result A × World
committed a (ok _, w) = (ok a, w)
committed a (err e, w) = (err (wrapped (codes "failed to commit transaction") e), w)

-- The end of a transaction: its body has failed, and the deferred `Rollback` undoes it, or it is
-- committed.
abbrev pub finish_transaction : {A : Type 0} → Db → Result A → World → Result A × World
finish_transaction before (err e) w = (err e, rolled_back before w)
finish_transaction before (ok a) w = committed a (commit before w)

-- What runs between `Begin` and `Commit` sees its own changes.
unfoldable pub in_transaction : {A : Type 0} → Action A → Action A
in_transaction body w = let (r, v) = body w in finish_transaction w.db r v

unfoldable pub transaction : {A : Type 0} → Action A → Action A
unfolding in_transaction
transaction body =
    wrap (codes "failed to begin transaction") (call (pure tt)) >> in_transaction body

-- The arguments of `CreateJob`, and the `traceparent` that the propagator puts into the carrier.
pub record Submission : Type 0 where
  pub workspace_id : Text
  pub created_by : Text
  pub dataset_id : Text
  pub entrypoint : Text
  pub parameters : Text
  pub compute : Text
  pub max_retries : ℤ
  pub idempotency_key : Text
  pub traceparent : Text

-- `pgtype.Text{String: idempotencyKey, Valid: idempotencyKey != ""}`
abbrev pub text_or_null : Text → Option Text
text_or_null [] = none
text_or_null (c ∷ t) = some (c ∷ t)

abbrev pub job_params : Submission → Uuid → Uuid → Uuid → CreateJobParams
job_params s workspace user dataset = record {
  workspace_id = workspace;
  created_by = user;
  dataset_id = dataset;
  entrypoint = s.entrypoint;
  parameters = s.parameters;
  compute = s.compute;
  max_retries = s.max_retries;
  idempotency_key = text_or_null s.idempotency_key;
}

abbrev pub job_submitted_topic : Text
job_submitted_topic = codes "job.submitted"

abbrev pub submitted_payload : Submission → Job → World → Json
submitted_payload s job w = object (
    (codes "job_id", w.env.format_uuid job.id)
    ∷ (codes "workspace_id", s.workspace_id)
    ∷ (codes "traceparent", s.traceparent)
    ∷ [])

-- The two inserts of the transaction.
unfoldable pub insert_job : Submission → CreateJobParams → Action Job
insert_job s p = do
  job ← wrap (codes "failed to create job") (query (create_job p))
  payload ← gets (submitted_payload s job)
  wrap (codes "failed to create outbox event")
      (query (create_outbox_event job_submitted_topic job.id payload))
  pure job

unfoldable pub admitted : Submission → Action Job
unfolding transaction insert_job
admitted s = do
  workspace ← wrap (codes "invalid workspace id") (parse_uuid s.workspace_id)
  user ← wrap (codes "invalid user id") (parse_uuid s.created_by)
  dataset ← wrap (codes "invalid dataset id") (parse_uuid s.dataset_id)
  job ← transaction (insert_job s (job_params s workspace user dataset))
  wrap (codes "failed to increment rate limit") (increment_running_jobs s.workspace_id)
  pure job

abbrev pub rate_limit_exceeded : GoError
rate_limit_exceeded = plain (codes "rate limit exceeded: max 10 concurrent jobs per workspace")

-- `CreateJob`
unfoldable pub submit_job : RateLimiter → Submission → Action Job
unfolding admitted
submit_job limiter s = do
  allowed ← wrap (codes "rate limit check failed") (allow_job_submission limiter s.workspace_id)
  if allowed then admitted s else raise rate_limit_exceeded

unfoldable pub get_job : Text → Text → Action Job
get_job job workspace = do
  k ← wrap (codes "invalid job id") (parse_uuid job)
  ws ← wrap (codes "invalid workspace id") (parse_uuid workspace)
  query (get_job_by_id k ws)

unfoldable pub list_jobs : Text → Action (List Job)
list_jobs workspace = do
  ws ← wrap (codes "invalid workspace id") (parse_uuid workspace)
  query (list_jobs_by_workspace ws)

-- The loop over the runs; the error of an update is logged.
unfoldable pub cancel_runs : List Run → Action Done
cancel_runs [] = pure tt
cancel_runs (r ∷ rs) = ignore (query (update_run_state r.id RunState.cancelled)) >> cancel_runs rs

unfoldable pub cancel_job : Text → Action Job
unfolding cancel_runs
cancel_job job = do
  k ← wrap (codes "invalid job id") (parse_uuid job)
  j ← wrap (codes "failed to cancel job") (query (update_job_state k JobState.cancelled))
  runs ← wrap (codes "failed to list runs") (query (list_runs_by_job k))
  cancel_runs runs
  pure j

-- An error of the query and an empty list are one failure.
abbrev pub latest_run : Result (List Run) → Action Run
latest_run (ok []) = raise (plain (codes "no runs found for job: %!w(<nil>)"))
latest_run (ok (r ∷ rs)) = pure r
latest_run (err e) = raise (wrapped (codes "no runs found for job") e)

unfoldable pub get_job_progress : Text → Text → Action RunProgress
get_job_progress job workspace = do
  k ← wrap (codes "invalid job id") (parse_uuid job)
  ws ← wrap (codes "invalid workspace id") (parse_uuid workspace)
  j ← wrap (codes "job not found") (query (get_job_by_id k ws))
  runs ← attempt (query (list_runs_by_job j.id))
  run ← latest_run runs
  query (get_run_progress run.id)

-- The anonymous struct of the handler has the fields of `JobSubmittedEvent`.
abbrev pub completed_event : Result JobSubmittedEvent → Action Done
completed_event (ok event) = decrement_running_jobs event.workspace_id
completed_event (err e) = raise e

unfoldable pub handle_job_completed : Json → Action Done
handle_job_completed payload = completed_event (unmarshal_event payload)
