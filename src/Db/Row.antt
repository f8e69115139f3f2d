-- ===== src/Db/Row.antt =====
-- Tests on rows and states: what a WHERE clause or a comparison of the services asks of one.
use mini_databricks.Base.{Bool, true, false, Option, none, some, ◌==◌, ltb}
use mini_databricks.Base.Text.{Text, same_text}
use mini_databricks.Db.{
  Uuid, Timestamp, Task, Run, Job, Outbox, Dataset, TaskState, RunState, OutboxStatus, User,
  Workspace,
}

abbrev pub task_has_id : Uuid → Task → Bool
task_has_id k t = t.id == k

abbrev pub run_has_id : Uuid → Run → Bool
run_has_id k r = r.id == k

abbrev pub job_has_id : Uuid → Job → Bool
job_has_id k j = j.id == k

abbrev pub outbox_has_id : Uuid → Outbox → Bool
outbox_has_id k e = e.id == k

abbrev pub dataset_has_id : Uuid → Dataset → Bool
dataset_has_id k d = d.id == k

abbrev pub user_has_id : Uuid → User → Bool
user_has_id k u = u.id == k

abbrev pub workspace_has_id : Uuid → Workspace → Bool
workspace_has_id k ws = ws.id == k

abbrev pub workspace_owned_by : Uuid → Workspace → Bool
workspace_owned_by owner ws = ws.owner_id == owner

abbrev pub is_pending : TaskState → Bool
is_pending TaskState.pending = true
is_pending _ = false

abbrev pub is_leased : TaskState → Bool
is_leased TaskState.leased = true
is_leased _ = false

-- `SUCCEEDED`, `FAILED` or `DEAD`
abbrev pub is_finished : TaskState → Bool
is_finished TaskState.succeeded = true
is_finished TaskState.failed = true
is_finished TaskState.dead = true
is_finished _ = false

abbrev pub is_cancelled : RunState → Bool
is_cancelled RunState.cancelled = true
is_cancelled _ = false

abbrev pub outbox_is_pending : OutboxStatus → Bool
outbox_is_pending OutboxStatus.pending = true
outbox_is_pending _ = false

-- `column = $1` for a column that can be NULL
abbrev pub column_equals : Option Text → Text → Bool
column_equals none t = false
column_equals (some s) t = same_text s t

-- `lease_expires_at IS NULL OR lease_expires_at < NOW()`
abbrev pub is_free : Option Timestamp → Timestamp → Bool
is_free none now = true
is_free (some t) now = ltb t now
