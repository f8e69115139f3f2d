-- ===== src/Queries/Files.antt =====
-- internal/db/generated/datasets.sql.go and artifacts.sql.go
use mini_databricks.Base.{
  ◌+◌, ℤ, Bool, true, false, ◌&&◌, Option, none, some, List, [], ◌∷◌, ◌++◌, first, select, update,
  delete, order_by, ltb, ◌==◌, if◌then◌else◌,
}
use mini_databricks.Base.Text.{Text}
use mini_databricks.Errors.{Result, ok, err}
use mini_databricks.Db.{Db, Job, Run, Dataset, DatasetState, FileFormat, Artifact, Uuid, Timestamp}
use mini_databricks.Db.Row.{dataset_has_id, job_has_id, run_has_id}
use mini_databricks.World.{Query}
use mini_databricks.Queries.Rows.{no_rows, one, returning, take_id, invalid_enum}
use mini_databricks.Queries.Outbox.{day_seconds}

abbrev pub update_datasets : (Dataset → Bool) → (Dataset → Dataset) → Query Dataset
update_datasets p f now db =
    (returning p f db.datasets, record db { datasets = update p f db.datasets })

abbrev pub new_dataset : Uuid → Uuid → Text → FileFormat → Uuid → Timestamp → Dataset
new_dataset workspace user name format k now = record {
  id = k;
  workspace_id = workspace;
  created_by = user;
  name = name;
  state = DatasetState.initiated;
  storage_path = none;
  file_format = format;
  size_bytes = none;
  created_at = now;
  updated_at = now;
}

abbrev pub is_file_format : FileFormat → Bool
is_file_format (FileFormat.other_format t) = false
is_file_format _ = true

unfoldable pub initiate_dataset : Uuid → Uuid → Text → FileFormat → Query Dataset
initiate_dataset workspace user name format now db =
    let d : Dataset = new_dataset workspace user name format db.next_id now in
    if is_file_format format
    then (ok d, record (take_id db) { datasets = db.datasets ++ d ∷ [] })
    else (err invalid_enum, db)

abbrev pub with_dataset_state : DatasetState → Dataset → Dataset
with_dataset_state s d = record d { state = s }

unfoldable pub update_dataset_state : Uuid → DatasetState → Query Dataset
update_dataset_state k s = update_datasets (dataset_has_id k) (with_dataset_state s)

abbrev pub stored_at : Option Text → Option ℤ → Dataset → Dataset
stored_at path size d = record d {
  storage_path = path;
  size_bytes = size;
  state = DatasetState.ready;
}

unfoldable pub update_dataset_storage_path : Uuid → Option Text → Option ℤ → Query Dataset
update_dataset_storage_path k path size = update_datasets (dataset_has_id k) (stored_at path size)

abbrev pub dataset_in : Uuid → Uuid → Dataset → Bool
dataset_in k workspace d = dataset_has_id k d && d.workspace_id == workspace

unfoldable pub get_dataset_by_id : Uuid → Uuid → Query Dataset
get_dataset_by_id k workspace now db = (one (first (dataset_in k workspace) db.datasets), db)

-- `ORDER BY created_at DESC`
unfoldable pub list_datasets_by_workspace : Uuid → Query (List Dataset)
list_datasets_by_workspace workspace now db =
    let before : Dataset → Dataset → Bool = λ a b. ltb b.created_at a.created_at in
    (ok (order_by before (select (λ d. d.workspace_id == workspace) db.datasets)), db)

unfoldable pub delete_dataset : Uuid → Uuid → Query (Unit {0})
delete_dataset k workspace now db =
    (ok tt, record db { datasets = delete (dataset_in k workspace) db.datasets })

abbrev pub is_initiated : DatasetState → Bool
is_initiated DatasetState.initiated = true
is_initiated _ = false

-- `created_at < NOW() - INTERVAL '24 hours'`
abbrev pub is_stale_dataset : Timestamp → Dataset → Bool
is_stale_dataset now d = is_initiated d.state && ltb (d.created_at + day_seconds) now

unfoldable pub cleanup_stale_datasets_initiated : Query (Unit {0})
cleanup_stale_datasets_initiated now db =
    (ok tt, record db { datasets = delete (is_stale_dataset now) db.datasets })

abbrev pub dataset_of_job : Option Job → Db → Result Dataset
dataset_of_job none db = err no_rows
dataset_of_job (some j) db = one (first (dataset_has_id j.dataset_id) db.datasets)

-- The join of the job with its dataset, on keys that are unique.
unfoldable pub get_dataset_by_job_id : Uuid → Query Dataset
get_dataset_by_job_id job now db = (dataset_of_job (first (job_has_id job) db.jobs) db, db)

-- `CreateArtifactParams`
pub record CreateArtifactParams : Type 0 where
  pub run_id : Uuid
  pub workspace_id : Uuid
  pub name : Text
  pub storage_path : Text
  pub content_type : Text
  pub size_bytes : ℤ

abbrev pub new_artifact : CreateArtifactParams → Uuid → Timestamp → Artifact
new_artifact p k now = record {
  id = k;
  run_id = p.run_id;
  workspace_id = p.workspace_id;
  name = p.name;
  storage_path = p.storage_path;
  content_type = p.content_type;
  size_bytes = p.size_bytes;
  created_at = now;
  expires_at = none;
}

unfoldable pub create_artifact : CreateArtifactParams → Query Artifact
create_artifact p now db =
    let a : Artifact = new_artifact p db.next_id now in
    (ok a, record (take_id db) { artifacts = db.artifacts ++ a ∷ [] })

unfoldable pub get_artifact : Uuid → Query Artifact
get_artifact k now db = (one (first (λ a. a.id == k) db.artifacts), db)

abbrev pub artifact_is_newer : Artifact → Artifact → Bool
artifact_is_newer a b = ltb b.created_at a.created_at

unfoldable pub list_artifacts_by_run : Uuid → Query (List Artifact)
list_artifacts_by_run run now db =
    (ok (order_by artifact_is_newer (select (λ a. a.run_id == run) db.artifacts)), db)

abbrev is_run_of : Uuid → Option Run → Bool
is_run_of job none = false
is_run_of job (some r) = r.job_id == job

-- The join of each artifact with its run, on a key that is unique.
unfoldable pub list_artifacts_by_job : Uuid → Query (List Artifact)
list_artifacts_by_job job now db =
    let of_job : Artifact → Bool = λ a. is_run_of job (first (run_has_id a.run_id) db.runs) in
    (ok (order_by artifact_is_newer (select of_job db.artifacts)), db)
