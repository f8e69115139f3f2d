-- ===== src/Db.antt =====
-- The tables of internal/db/migrations, as internal/db/generated/models.go reads their rows.
-- An identifier is a number, `uuid.Nil` is 0, and a time is a number of seconds. A column that can
-- be NULL is an `Option`.
use mini_databricks.Base.{ℕ, ℤ, Bool, true, false, Option, List}
use mini_databricks.Base.Text.{Text}
pub mod Row
pub mod Keys

abbrev pub Uuid : Type 0
Uuid = ℕ

abbrev pub uuid_nil : Uuid
uuid_nil = 0

abbrev pub Timestamp : Type 0
Timestamp = ℕ

pub data TaskState : Type 0 where
  pending leased running checkpointing succeeded failed dead : TaskState

pub data RunState : Type 0 where
  submitted planning provisioning running aggregating succeeded failed cancelled : RunState

pub data JobState : Type 0 where
  submitted validating queued provisioning running aggregating retrying succeeded : JobState
  failed cancelled : JobState

pub data OutboxStatus : Type 0 where
  pending delivered failed : OutboxStatus

pub data DatasetState : Type 0 where
  initiated uploading validating registering ready failed deprecated : DatasetState

-- `FileFormat` and `WorkspacePlan` are Go strings: a client may send a text that is no value of the
-- enumeration, and the table refuses it.
pub data FileFormat : Type 0 where
  csv parquet json jsonl : FileFormat
  other_format : Text → FileFormat

pub data WorkspacePlan : Type 0 where
  free pro enterprise : WorkspacePlan
  other_plan : Text → WorkspacePlan

pub data UserRole : Type 0 where
  admin editor viewer : UserRole

-- A JSON text as it is parsed: an object of text fields, or a text that is no such object.
pub data Json : Type 0 where
  object : List (Text × Text) → Json
  other_json : Text → Json

pub record Task : Type 0 where
  pub id : Uuid
  pub run_id : Uuid
  pub workspace_id : Uuid
  pub state : TaskState
  pub partition_index : ℕ
  pub lease_owner : Option Text
  pub lease_expires_at : Option Timestamp
  pub retry_count : ℕ
  pub checkpoint_path : Option Text
  pub error_message : Option Text
  pub created_at : Timestamp
  pub started_at : Option Timestamp
  pub finished_at : Option Timestamp

-- `tasks_pending` and `tasks_running` are decremented with no test, so they are signed.
pub record Run : Type 0 where
  pub id : Uuid
  pub job_id : Uuid
  pub workspace_id : Uuid
  pub state : RunState
  pub attempt_number : ℕ
  pub tasks_total : ℕ
  pub tasks_done : ℕ
  pub error_message : Option Text
  pub created_at : Timestamp
  pub started_at : Option Timestamp
  pub finished_at : Option Timestamp
  pub tasks_pending : ℤ
  pub tasks_running : ℤ
  pub tasks_failed : ℕ

pub record Job : Type 0 where
  pub id : Uuid
  pub workspace_id : Uuid
  pub created_by : Uuid
  pub dataset_id : Uuid
  pub state : JobState
  pub entrypoint : Text
  pub parameters : Text
  pub compute : Text
  pub retry_count : ℕ
  pub max_retries : ℤ
  pub idempotency_key : Option Text
  pub error_message : Option Text
  pub created_at : Timestamp
  pub started_at : Option Timestamp
  pub finished_at : Option Timestamp

pub record Outbox : Type 0 where
  pub id : Uuid
  pub event_type : Text
  pub aggregate_id : Uuid
  pub payload : Json
  pub status : OutboxStatus
  pub attempts : ℕ
  pub created_at : Timestamp
  pub published_at : Option Timestamp

pub record Dataset : Type 0 where
  pub id : Uuid
  pub workspace_id : Uuid
  pub created_by : Uuid
  pub name : Text
  pub state : DatasetState
  pub storage_path : Option Text
  pub file_format : FileFormat
  pub size_bytes : Option ℤ
  pub created_at : Timestamp
  pub updated_at : Timestamp

pub record Artifact : Type 0 where
  pub id : Uuid
  pub run_id : Uuid
  pub workspace_id : Uuid
  pub name : Text
  pub storage_path : Text
  pub content_type : Text
  pub size_bytes : ℤ
  pub created_at : Timestamp
  pub expires_at : Option Timestamp

pub record User : Type 0 where
  pub id : Uuid
  pub email : Text
  pub password_hash : Text
  pub role : UserRole
  pub created_at : Timestamp

pub record Workspace : Type 0 where
  pub id : Uuid
  pub owner_id : Uuid
  pub name : Text
  pub plan : WorkspacePlan
  pub created_at : Timestamp

-- The tables that the services read and write. `next_id` is what `gen_random_uuid()` returns next:
-- an identifier that no row has.
pub record Db : Type 0 where
  pub tasks : List Task
  pub runs : List Run
  pub jobs : List Job
  pub outbox : List Outbox
  pub datasets : List Dataset
  pub artifacts : List Artifact
  pub users : List User
  pub workspaces : List Workspace
  pub next_id : Uuid
