-- ===== src/Queries/Tasks.antt =====
-- internal/db/generated/tasks.sql.go
use mini_databricks.Base.{
  ℕ, ◌+◌, Bool, true, false, ◌&&◌, Option, none, some, List, [], ◌∷◌, ◌++◌, length, select, update,
  delete, order_by, ltb, leb, ◌==◌, if◌then◌else◌,
}
use mini_databricks.Base.Text.{Text}
use mini_databricks.Errors.{ok, err}
use mini_databricks.Db.{Task, TaskState, Uuid, Timestamp}
use mini_databricks.Db.Row.{task_has_id, is_pending, is_leased, column_equals, is_free}
use mini_databricks.World.{Query}
use mini_databricks.Queries.Rows.{no_rows, returning, take_id}

-- `INTERVAL '30 seconds'`
abbrev pub lease_seconds : ℕ
lease_seconds = 30

-- `INTERVAL '7 days'`
abbrev pub week_seconds : ℕ
week_seconds = 604800

abbrev pub update_tasks : (Task → Bool) → (Task → Task) → Query Task
update_tasks p f now db = (returning p f db.tasks, record db { tasks = update p f db.tasks })

abbrev pub new_task : Uuid → Uuid → ℕ → Uuid → Timestamp → Task
new_task run workspace index k now = record {
  id = k;
  run_id = run;
  workspace_id = workspace;
  state = TaskState.pending;
  partition_index = index;
  lease_owner = none;
  lease_expires_at = none;
  retry_count = 0;
  checkpoint_path = none;
  error_message = none;
  created_at = now;
  started_at = none;
  finished_at = none;
}

unfoldable pub create_task : Uuid → Uuid → ℕ → Query Task
create_task run workspace index now db =
    let t : Task = new_task run workspace index db.next_id now in
    (ok t, record (take_id db) { tasks = db.tasks ++ t ∷ [] })

-- `WHERE state = 'PENDING' AND (lease_expires_at IS NULL OR lease_expires_at < NOW())`
abbrev pub is_leasable : Timestamp → Task → Bool
is_leasable now t = is_pending t.state && is_free t.lease_expires_at now

-- `ORDER BY created_at ASC LIMIT 1`, the first of those with the same time
abbrev pub older : Task → Option Task → Option Task
older t none = some t
older t (some u) = if leb t.created_at u.created_at then some t else some u

unfoldable pub oldest_leasable : Timestamp → List Task → Option Task
oldest_leasable now [] = none
oldest_leasable now (t ∷ ts) =
    let rest = oldest_leasable now ts in if is_leasable now t then older t rest else rest

abbrev pub lease_to : Text → Timestamp → Task → Task
lease_to owner now t = record t {
  state = TaskState.leased;
  lease_owner = some owner;
  lease_expires_at = some (now + lease_seconds);
}

abbrev pub lease_found : Text → Option Task → Query Task
lease_found owner none now db = (err no_rows, db)
lease_found owner (some t) now db = update_tasks (task_has_id t.id) (lease_to owner now) now db

unfoldable pub lease_task : Text → Query Task
unfolding oldest_leasable
lease_task owner now db = lease_found owner (oldest_leasable now db.tasks) now db

abbrev pub is_held_by : Uuid → Text → Task → Bool
is_held_by k owner t = task_has_id k t && column_equals t.lease_owner owner

abbrev pub extend_lease : Timestamp → Task → Task
extend_lease now t = record t { lease_expires_at = some (now + lease_seconds) }

unfoldable pub heartbeat_task : Uuid → Text → Query Task
heartbeat_task k owner now = update_tasks (is_held_by k owner) (extend_lease now) now

abbrev pub with_state : TaskState → Task → Task
with_state s t = record t { state = s }

unfoldable pub update_task_state : Uuid → TaskState → Query Task
update_task_state k s = update_tasks (task_has_id k) (with_state s)

-- `ORDER BY partition_index ASC`
unfoldable pub list_tasks_by_run : Uuid → Query (List Task)
list_tasks_by_run run now db =
    let before : Task → Task → Bool = λ a b. ltb a.partition_index b.partition_index in
    (ok (order_by before (select (λ t. t.run_id == run) db.tasks)), db)

unfoldable pub get_pending_task_count : Query ℕ
get_pending_task_count now db = (ok (length (select (λ t. is_pending t.state) db.tasks)), db)

unfoldable pub get_running_task_count : Query ℕ
get_running_task_count now db = (ok (length (select (λ t. is_leased t.state) db.tasks)), db)

abbrev pub back_to_pending : Text → Task → Task
back_to_pending m t = record t {
  state = TaskState.pending;
  retry_count = t.retry_count + 1;
  lease_owner = none;
  lease_expires_at = none;
  error_message = some m;
}

unfoldable pub retry_task : Uuid → Text → Query Task
retry_task k m = update_tasks (task_has_id k) (back_to_pending m)

abbrev pub failed_with : Text → Timestamp → Task → Task
failed_with m now t = record t {
  state = TaskState.failed;
  error_message = some m;
  finished_at = some now;
}

unfoldable pub fail_task_with_error : Uuid → Text → Query Task
fail_task_with_error k m now = update_tasks (task_has_id k) (failed_with m now) now

abbrev pub is_dead_or_failed : TaskState → Bool
is_dead_or_failed TaskState.dead = true
is_dead_or_failed TaskState.failed = true
is_dead_or_failed _ = false

-- `created_at < NOW() - INTERVAL '7 days'`, with the interval on the other side
abbrev pub is_stale_task : Timestamp → Task → Bool
is_stale_task now t = is_dead_or_failed t.state && ltb (t.created_at + week_seconds) now

unfoldable pub cleanup_dead_tasks : Query (Unit {0})
cleanup_dead_tasks now db = (ok tt, record db { tasks = delete (is_stale_task now) db.tasks })

unfoldable pub get_run_task_count : Uuid → Query ℕ
get_run_task_count run now db = (ok (length (select (λ t. t.run_id == run) db.tasks)), db)
