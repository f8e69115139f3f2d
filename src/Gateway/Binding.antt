-- ===== src/Gateway/Binding.antt =====
-- The structs that the handlers bind a body to, with their `json` and `binding` tags.
pub mod Checked
use mini_databricks.Base.{
  ℕ, ◌^◌, ◌-◌, ℤ, pos, negsuc, Bool, true, false, not, Option, none, some, List, [], ◌∷◌, length,
  leb, ltb, if◌then◌else◌,
}
use mini_databricks.Base.Text.{Text, codes, same_text}
use mini_databricks.Errors.{GoError, Result, ok, err}
use mini_databricks.Db.{FileFormat, WorkspacePlan}
use mini_databricks.World.{Env}
use mini_databricks.Gateway.Http.{JsonValue, text, number, null_value, JsonField}
use mini_databricks.Gateway.Fields.{
  ◌>>=◌, text_field, int_field, raw_field, pointer_field, rule, number_rule, required,
}

pub record Credentials : Type 0 where
  pub email : Text
  pub password : Text

unfoldable pub credentials : Env → List JsonField → Result Credentials
unfolding ◌>>=◌ text_field required rule
credentials env fields = do
  email ← text_field env.field_error fields (codes "email")
  password ← text_field env.field_error fields (codes "password")
  _ ← required env (codes "email") email
  _ ← rule env (codes "email") (codes "email") email
  _ ← required env (codes "password") password
  ok (record { email = email; password = password })

-- The struct of `Register`: the password has the tag `min=8` as well.
unfoldable pub new_credentials : Env → List JsonField → Result Credentials
unfolding credentials
new_credentials env fields = do
  c ← credentials env fields
  _ ← rule env (codes "password") (codes "min=8") c.password
  ok c

abbrev pub plan_of_text : Text → WorkspacePlan
plan_of_text t =
    if same_text t (codes "free")
    then WorkspacePlan.free
    else if same_text t (codes "pro")
    then WorkspacePlan.pro
    else if same_text t (codes "enterprise")
    then WorkspacePlan.enterprise
    else WorkspacePlan.other_plan t

pub record WorkspaceRequest : Type 0 where
  pub name : Text
  pub plan : WorkspacePlan

unfoldable pub workspace_request : Env → List JsonField → Result WorkspaceRequest
unfolding ◌>>=◌ text_field required
workspace_request env fields = do
  name ← text_field env.field_error fields (codes "name")
  plan ← text_field env.field_error fields (codes "plan")
  _ ← required env (codes "name") name
  _ ← required env (codes "plan") plan
  ok (record { name = name; plan = plan_of_text plan })

pub record WorkspaceChange : Type 0 where
  pub name : Option Text
  pub plan : Option WorkspacePlan

abbrev pub plan_pointer : Option Text → Option WorkspacePlan
plan_pointer none = none
plan_pointer (some t) = some (plan_of_text t)

unfoldable pub workspace_change : Env → List JsonField → Result WorkspaceChange
unfolding ◌>>=◌ pointer_field
workspace_change env fields = do
  name ← pointer_field env.field_error fields (codes "name")
  plan ← pointer_field env.field_error fields (codes "plan")
  ok (record { name = name; plan = plan_pointer plan })

abbrev pub format_of_text : Text → FileFormat
format_of_text t =
    if same_text t (codes "csv")
    then FileFormat.csv
    else if same_text t (codes "parquet")
    then FileFormat.parquet
    else if same_text t (codes "json")
    then FileFormat.json
    else if same_text t (codes "jsonl")
    then FileFormat.jsonl
    else FileFormat.other_format t

pub record UploadRequest : Type 0 where
  pub name : Text
  pub file_format : FileFormat
  pub workspace_id : Text

unfoldable pub upload_request : Env → List JsonField → Result UploadRequest
unfolding ◌>>=◌ text_field required
upload_request env fields = do
  name ← text_field env.field_error fields (codes "name")
  format ← text_field env.field_error fields (codes "file_format")
  workspace ← text_field env.field_error fields (codes "workspace_id")
  _ ← required env (codes "name") name
  _ ← required env (codes "file_format") format
  _ ← required env (codes "workspace_id") workspace
  ok (record { name = name; file_format = format_of_text format; workspace_id = workspace })

pub record CompleteRequest : Type 0 where
  pub storage_path : Text
  pub size_bytes : ℤ

unfoldable pub complete_request : Env → List JsonField → Result CompleteRequest
unfolding ◌>>=◌ text_field int_field required number_rule
complete_request env fields = do
  path ← text_field env.field_error fields (codes "storage_path")
  size ← int_field env.field_error fields 64 (codes "size_bytes")
  _ ← required env (codes "storage_path") path
  _ ← number_rule env (codes "size_bytes") (codes "required") size
  ok (record { storage_path = path; size_bytes = size })

pub record JobRequest : Type 0 where
  pub workspace_id : Text
  pub dataset_id : Text
  pub entrypoint : Text
  pub parameters : Text
  pub compute : Text
  pub max_retries : ℤ
  pub idempotency_key : Text

unfoldable pub job_request : Env → List JsonField → Result JobRequest
unfolding ◌>>=◌ text_field int_field raw_field required
job_request env fields = do
  workspace ← text_field env.field_error fields (codes "workspace_id")
  dataset ← text_field env.field_error fields (codes "dataset_id")
  entrypoint ← text_field env.field_error fields (codes "entrypoint")
  retries ← int_field env.field_error fields 32 (codes "max_retries")
  key ← text_field env.field_error fields (codes "idempotency_key")
  _ ← required env (codes "workspace_id") workspace
  _ ← required env (codes "dataset_id") dataset
  _ ← required env (codes "entrypoint") entrypoint
  ok (record {
    workspace_id = workspace;
    dataset_id = dataset;
    entrypoint = entrypoint;
    parameters = raw_field fields (codes "parameters");
    compute = raw_field fields (codes "compute");
    max_retries = retries;
    idempotency_key = key;
  })
