-- ===== src/JobService/Artifacts.antt =====
-- internal/service/job_service.go: the artifacts of a job, and where to download one.
use mini_databricks.Base.{List}
use mini_databricks.Base.Text.{Text, codes}
use mini_databricks.Errors.{wrapped, Result, ok, err}
use mini_databricks.Db.{Uuid, Artifact}
use mini_databricks.World.{Action, pure, attempt, wrap, query, parse_uuid, ◌>>=◌}
use mini_databricks.Queries.Jobs.{get_job_by_id}
use mini_databricks.Queries.Files.{list_artifacts_by_job, get_artifact}
use mini_databricks.Storage.{MinioClient, generate_download_url}

-- The function returns an error, or its code panics: the inner result is what it returns, and the
-- outer error is a panic.
abbrev pub Panicking : Type 0 → Type 0
Panicking A = Action (Result A)

-- `uuid.MustParse` panics where `uuid.Parse` returns an error; otherwise the job of the workspace is
-- looked up and its artifacts are listed.
unfoldable pub artifacts_in : Uuid → Uuid → Action (List Artifact)
artifacts_in k workspace = do
  j ← wrap (codes "job not found") (query (get_job_by_id k workspace))
  query (list_artifacts_by_job k)

unfoldable pub artifacts_or_panic : Text → Result Uuid → Panicking (List Artifact)
unfolding artifacts_in
artifacts_or_panic workspace (err e) = pure (err (wrapped (codes "invalid job id") e))
artifacts_or_panic workspace (ok k) = do ws ← parse_uuid workspace; attempt (artifacts_in k ws)

unfoldable pub get_job_artifacts : Text → Text → Panicking (List Artifact)
unfolding artifacts_or_panic
get_job_artifacts job workspace = do k ← attempt (parse_uuid job); artifacts_or_panic workspace k

unfoldable pub get_artifact_download_url : MinioClient → Text → Action Text
get_artifact_download_url minio artifact = do
  k ← wrap (codes "invalid artifact id") (parse_uuid artifact)
  a ← wrap (codes "artifact not found") (query (get_artifact k))
  generate_download_url minio a.storage_path
