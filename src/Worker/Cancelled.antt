-- ===== src/Worker/Cancelled.antt =====
-- A task of a cancelled run, on a calm network.
use mini_databricks.Base.{◌≡◌, ◌∙◌, refl, ap, true, some, first, first-update, map_option}
use mini_databricks.Errors.{Result, ok}
use mini_databricks.Db.{Task, TaskState, Run}
use mini_databricks.Db.Row.{task_has_id, run_has_id, is_cancelled}
use mini_databricks.Queries.Tasks.{update_task_state, with_state}
use mini_databricks.Queries.Runs.{get_run_state}
use mini_databricks.World.{World, Done, calm, actions, call}
use mini_databricks.Worker.{run_leased, mark_dead}

module _ (task : Task) (w : World) {t : Task} {r : Run}
    (has_task : first (task_has_id task.id) w.db.tasks ≡ some t)
    (has_run : first (run_has_id task.run_id) w.db.runs ≡ some r)
    (cancelled : is_cancelled r.state ≡ true) where
  -- The task is dead, and nothing else has happened.
  abbrev pub IsDropped : Result Done × World → Type 0
  IsDropped x =
      (x.0 ≡ ok tt)
      × (first (task_has_id task.id) x.1.db.tasks ≡ some (with_state TaskState.dead t))
      × (x.1.db.runs ≡ w.db.runs)
      × (x.1.db.artifacts ≡ w.db.artifacts)
      × (x.1.db.jobs ≡ w.db.jobs)
      × (x.1.topics ≡ w.topics)

  -- On a network that answers every call: a leased task whose run is cancelled ends dead, and no
  -- run, job, artifact or topic changes.
  pub run_leased-IsDropped : IsDropped (run_leased task (calm w))
  unfolding run_leased mark_dead get_run_state update_task_state actions call
  run_leased-IsDropped =
      rw (has_run, cancelled)
        (
          refl,
          first-update (task_has_id task.id) (with_state TaskState.dead) (λ x. refl) w.db.tasks
              ∙ ap (map_option (with_state TaskState.dead)) has_task,
          refl,
          refl,
          refl,
          refl,
        )
