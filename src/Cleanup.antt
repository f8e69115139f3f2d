-- ===== src/Cleanup.antt =====
-- services/cleanup/cmd/main.go: the cleanup that runs at the start and every hour.
pub mod Kept
use mini_databricks.World.{Action, Done, ignore, query, ◌>>◌}
use mini_databricks.Queries.Files.{cleanup_stale_datasets_initiated}
use mini_databricks.Queries.Tasks.{cleanup_dead_tasks}
use mini_databricks.Queries.Outbox.{cleanup_delivered_outbox_events}

-- `runCleanup`: the error of each statement is logged, and the next one is made.
unfoldable pub run_cleanup : Action Done
run_cleanup = do
  ignore (query cleanup_stale_datasets_initiated)
  ignore (query cleanup_dead_tasks)
  ignore (query cleanup_delivered_outbox_events)
