-- ===== src/Queries/Runs.antt =====
-- internal/db/generated/runs.sql.go
use mini_databricks.Base.{
  ℕ, ◌+◌, ◌*◌, ◌/◌, ℤ, pos, ◌+ℤ◌, ◌-ℤ◌, Bool, ◌&&◌, Option, none, some, List, [], ◌∷◌, ◌++◌, first,
  select, update, order_by, ltb, ◌==◌, if◌then◌else◌,
}
use mini_databricks.Errors.{ok}
use mini_databricks.Db.{Run, RunState, Uuid, Timestamp}
use mini_databricks.Db.Row.{run_has_id}
use mini_databricks.World.{Query}
use mini_databricks.Queries.Rows.{map_row, one, returning, take_id}

abbrev pub update_runs : (Run → Bool) → (Run → Run) → Query Run
update_runs p f now db = (returning p f db.runs, record db { runs = update p f db.runs })

abbrev pub new_run : Uuid → Uuid → Uuid → Timestamp → Run
new_run job workspace k now = record {
  id = k;
  job_id = job;
  workspace_id = workspace;
  state = RunState.submitted;
  attempt_number = 1;
  tasks_total = 0;
  tasks_done = 0;
  error_message = none;
  created_at = now;
  started_at = none;
  finished_at = none;
  tasks_pending = pos 0;
  tasks_running = pos 0;
  tasks_failed = 0;
}

unfoldable pub create_run : Uuid → Uuid → Query Run
create_run job workspace now db =
    let r : Run = new_run job workspace db.next_id now in
    (ok r, record (take_id db) { runs = db.runs ++ r ∷ [] })

unfoldable pub get_run_by_id : Uuid → Uuid → Query Run
get_run_by_id k workspace now db =
    (one (first (λ r. run_has_id k r && r.workspace_id == workspace) db.runs), db)

unfoldable pub get_run_state : Uuid → Query RunState
get_run_state k now db = (map_row (λ r. r.state) (first (run_has_id k) db.runs), db)

-- `ORDER BY created_at DESC`
unfoldable pub list_runs_by_job : Uuid → Query (List Run)
list_runs_by_job job now db =
    let before : Run → Run → Bool = λ a b. ltb b.created_at a.created_at in
    (ok (order_by before (select (λ r. r.job_id == job) db.runs)), db)

abbrev pub with_run_state : RunState → Run → Run
with_run_state s r = record r { state = s }

unfoldable pub update_run_state : Uuid → RunState → Query Run
update_run_state k s = update_runs (run_has_id k) (with_run_state s)

abbrev pub init_progress : Run → Run
init_progress r = record r { tasks_pending = pos r.tasks_total }

unfoldable pub init_run_progress : Uuid → Query Run
init_run_progress k = update_runs (run_has_id k) init_progress

-- `GetRunProgressRow`
pub record RunProgress : Type 0 where
  pub id : Uuid
  pub job_id : Uuid
  pub state : RunState
  pub tasks_total : ℕ
  pub tasks_pending : ℤ
  pub tasks_running : ℤ
  pub tasks_done : ℕ
  pub tasks_failed : ℕ
  pub percent_complete : ℕ
  pub started_at : Option Timestamp
  pub finished_at : Option Timestamp

-- `ROUND((tasks_done::numeric / tasks_total::numeric) * 100)`: half rounds up.
unfoldable pub percent : ℕ → ℕ → ℕ
percent done total = if total == 0 then 0 else (200 * done + total) / (2 * total)

unfoldable pub progress_of : Run → RunProgress
unfolding percent
progress_of r = record {
  id = r.id;
  job_id = r.job_id;
  state = r.state;
  tasks_total = r.tasks_total;
  tasks_pending = r.tasks_pending;
  tasks_running = r.tasks_running;
  tasks_done = r.tasks_done;
  tasks_failed = r.tasks_failed;
  percent_complete = percent r.tasks_done r.tasks_total;
  started_at = r.started_at;
  finished_at = r.finished_at;
}

unfoldable pub get_run_progress : Uuid → Query RunProgress
unfolding progress_of
get_run_progress k now db = (map_row progress_of (first (run_has_id k) db.runs), db)

-- `CASE WHEN started_at IS NULL THEN NOW() ELSE started_at END`
abbrev pub or_now : Option Timestamp → Timestamp → Timestamp
or_now none now = now
or_now (some t) now = t

abbrev pub count_started : Timestamp → Run → Run
count_started now r = record r {
  tasks_pending = r.tasks_pending -ℤ pos 1;
  tasks_running = r.tasks_running +ℤ pos 1;
  started_at = some (or_now r.started_at now);
}

unfoldable pub task_started : Uuid → Query Run
task_started k now = update_runs (run_has_id k) (count_started now) now

abbrev pub count_succeeded : Run → Run
count_succeeded r = record r {
  tasks_running = r.tasks_running -ℤ pos 1;
  tasks_done = r.tasks_done + 1;
}

unfoldable pub task_succeeded : Uuid → Query Run
task_succeeded k = update_runs (run_has_id k) count_succeeded

abbrev pub count_failed : Run → Run
count_failed r = record r {
  tasks_running = r.tasks_running -ℤ pos 1;
  tasks_failed = r.tasks_failed + 1;
}

unfoldable pub task_failed : Uuid → Query Run
task_failed k = update_runs (run_has_id k) count_failed

abbrev pub with_total : ℕ → Run → Run
with_total n r = record r { tasks_total = n }

unfoldable pub update_run_tasks_total : Uuid → ℕ → Query Run
update_run_tasks_total k n = update_runs (run_has_id k) (with_total n)

abbrev pub completed_run : RunState → Timestamp → Run → Run
completed_run s now r = record r { state = s; finished_at = some now }

unfoldable pub complete_run : Uuid → RunState → Query Run
complete_run k s now = update_runs (run_has_id k) (completed_run s now) now
