-- ===== src/Queries/Jobs.antt =====
-- internal/db/generated/jobs.sql.go
use mini_databricks.Base.{
  ℤ, Bool, true, false, ◌&&◌, ◌||◌, Option, none, some, List, [], ◌∷◌, ◌++◌, first, select, update,
  order_by, ltb, ◌==◌, if◌then◌else◌,
}
use mini_databricks.Base.Text.{Text, codes}
use mini_databricks.Errors.{Result, ok, err, plain, GoError}
use mini_databricks.Db.{Db, Job, JobState, Run, Uuid, Timestamp}
use mini_databricks.Db.Row.{
  dataset_has_id, user_has_id, workspace_has_id, job_has_id, run_has_id, column_equals,
}
use mini_databricks.World.{Query}
use mini_databricks.Queries.Rows.{no_rows, one, returning, take_id}

abbrev pub update_jobs : (Job → Bool) → (Job → Job) → Query Job
update_jobs p f now db = (returning p f db.jobs, record db { jobs = update p f db.jobs })

-- `CreateJobParams`
pub record CreateJobParams : Type 0 where
  pub workspace_id : Uuid
  pub created_by : Uuid
  pub dataset_id : Uuid
  pub entrypoint : Text
  pub parameters : Text
  pub compute : Text
  pub max_retries : ℤ
  pub idempotency_key : Option Text

abbrev pub new_job : CreateJobParams → Uuid → Timestamp → Job
new_job p k now = record {
  id = k;
  workspace_id = p.workspace_id;
  created_by = p.created_by;
  dataset_id = p.dataset_id;
  state = JobState.submitted;
  entrypoint = p.entrypoint;
  parameters = p.parameters;
  compute = p.compute;
  retry_count = 0;
  max_retries = p.max_retries;
  idempotency_key = p.idempotency_key;
  error_message = none;
  created_at = now;
  started_at = none;
  finished_at = none;
}

-- The answer to an INSERT that breaks `idempotency_key TEXT UNIQUE`.
abbrev pub duplicate_key : GoError
duplicate_key = plain (codes "duplicate key value violates unique constraint")

-- NULL is no duplicate of NULL.
unfoldable pub key_is_taken : Option Text → List Job → Bool
key_is_taken none jobs = false
key_is_taken (some key) jobs = elim (first (λ j. column_equals j.idempotency_key key) jobs) [
  | none ↦ false
  | some j ↦ true
]

-- The answers to an INSERT without a value for `parameters` or `compute`, or whose workspace, user or
-- dataset has no row.
abbrev pub null_value : GoError
null_value = plain (codes "null value violates not-null constraint")

abbrev pub missing_row : GoError
missing_row = plain (codes "insert violates foreign key constraint")

-- An empty `json.RawMessage` is NULL.
abbrev pub is_null : Text → Bool
is_null [] = true
is_null (c ∷ t) = false

abbrev pub is_there : {A : Type 0} → Option A → Bool
is_there none = false
is_there (some a) = true

-- `workspace_id`, `created_by` and `dataset_id` reference rows.
abbrev pub has_references : CreateJobParams → Db → Bool
has_references p db =
    is_there (first (workspace_has_id p.workspace_id) db.workspaces)
    && is_there (first (user_has_id p.created_by) db.users)
    && is_there (first (dataset_has_id p.dataset_id) db.datasets)

-- The constraint of the table that the new row breaks, if it breaks one.
unfoldable pub broken_constraint : CreateJobParams → Db → Option GoError
unfolding key_is_taken
broken_constraint p db =
    if is_null p.parameters || is_null p.compute
    then some null_value
    else if key_is_taken p.idempotency_key db.jobs
    then some duplicate_key
    else if has_references p db
    then none
    else some missing_row

abbrev pub insert_unless : Option GoError → Job → Db → Result Job × Db
insert_unless (some e) j db = (err e, db)
insert_unless none j db = (ok j, record (take_id db) { jobs = db.jobs ++ j ∷ [] })

unfoldable pub create_job : CreateJobParams → Query Job
unfolding broken_constraint
create_job p now db = insert_unless (broken_constraint p db) (new_job p db.next_id now) db

unfoldable pub get_job_by_id : Uuid → Uuid → Query Job
get_job_by_id k workspace now db =
    (one (first (λ j. job_has_id k j && j.workspace_id == workspace) db.jobs), db)

-- `ORDER BY created_at DESC`
unfoldable pub list_jobs_by_workspace : Uuid → Query (List Job)
list_jobs_by_workspace workspace now db =
    let before : Job → Job → Bool = λ a b. ltb b.created_at a.created_at in
    (ok (order_by before (select (λ j. j.workspace_id == workspace) db.jobs)), db)

abbrev pub with_job_state : JobState → Job → Job
with_job_state s j = record j { state = s }

unfoldable pub update_job_state : Uuid → JobState → Query Job
update_job_state k s = update_jobs (job_has_id k) (with_job_state s)

-- The join of the run with its job, on keys that are unique.
abbrev pub job_of_run : Option Run → Db → Result Job
job_of_run none db = err no_rows
job_of_run (some r) db = one (first (job_has_id r.job_id) db.jobs)

unfoldable pub get_job_by_run_id : Uuid → Query Job
get_job_by_run_id run now db = (job_of_run (first (run_has_id run) db.runs) db, db)

abbrev pub completed_job : JobState → Timestamp → Job → Job
completed_job s now j = record j { state = s; finished_at = some now }

unfoldable pub complete_job : Uuid → JobState → Query Job
complete_job k s now = update_jobs (job_has_id k) (completed_job s now) now
