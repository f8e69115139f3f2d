-- ===== src/Worker/WholeRun/Turn.antt =====
-- A poll on a calm network that finds a task, up to the start of the task (`pollAndProcess`).
use mini_databricks.Base.{◌≡◌, ◌∙◌, refl, false, some, first, update, ◌==◌}
use mini_databricks.Base.Text.{Text}
use mini_databricks.Db.{Task, Run, uuid_nil}
use mini_databricks.Db.Row.{task_has_id, run_has_id, is_cancelled}
use mini_databricks.World.{World, calm, tick, actions, call}
use mini_databricks.Queries.Tasks.{lease_task, lease_to, oldest_leasable}
use mini_databricks.Queries.Runs.{get_run_state}
use mini_databricks.Worker.{poll_and_process, breaker_execute, poll_lease, run_leased, start_task}

module _ (owner : Text) (w : World) {c : Task} {r : Run}
    (chosen : oldest_leasable (tick w).now w.db.tasks ≡ some c)
    (found : first (task_has_id c.id) w.db.tasks ≡ some c)
    (has_run_id : (c.run_id == uuid_nil) ≡ false)
    (has_run : first (run_has_id c.run_id) w.db.runs ≡ some r)
    (live : is_cancelled r.state ≡ false) where
  -- The task as it is leased, and the world with its row.
  abbrev pub in_hand : Task
  in_hand = lease_to owner (tick w).now c

  abbrev pub leased : World
  leased = record (tick w) {
    db = record w.db { tasks = update (task_has_id c.id) (lease_to owner (tick w).now) w.db.tasks };
  }

  poll_leases : poll_and_process owner (calm w) ≡ run_leased in_hand (calm leased)
  unfolding poll_and_process breaker_execute poll_lease actions call lease_task
  poll_leases = rw (chosen, found, has_run_id) refl

  runs_on : run_leased in_hand (calm leased) ≡ start_task in_hand (calm (tick leased))
  unfolding run_leased get_run_state actions call
  runs_on = rw (has_run, live) refl

  pub poll_starts : poll_and_process owner (calm w) ≡ start_task in_hand (calm (tick leased))
  poll_starts = poll_leases ∙ runs_on
