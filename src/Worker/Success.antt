-- ===== src/Worker/Success.antt =====
-- A whole task on a calm network, from its start to how it is recorded.
use mini_databricks.Base.{
  suc, ◌∙◌, ◌≡◌, refl, some, first, first-update, map_option, update, ap, inl, inr,
}
use mini_databricks.Errors.{GoError, ok, err, error_text}
use mini_databricks.Db.{Task, TaskState, Run, Job, Dataset}
use mini_databricks.Db.Row.{task_has_id, run_has_id}
use mini_databricks.Queries.Tasks.{back_to_pending, update_task_state, with_state}
use mini_databricks.Queries.Runs.{count_started, task_started, count_succeeded, task_succeeded}
use mini_databricks.World.{World, calm, tick, actions, call, query, ignore}
use mini_databricks.World.Chains.{bind_ok, then_ok, ignore_done, attempt_done}
use mini_databricks.Worker.{
  start_task, succeed, check_and_complete_run, count_succeeded_task, on_failure,
}
use mini_databricks.Worker.Retry.{MayRetry, on_failure_outcome}
use mini_databricks.Worker.Process.{
  HasInputs, runner_call, runner_input, runner_failed, after_four, process_fails,
}

-- The world in which the process starts: the run counts the task as running.
abbrev pub started : Task → World → World
started task w = record (tick w) {
  db = record w.db {
    runs = update (run_has_id task.run_id) (count_started (tick w).now) w.db.runs;
  };
}

module _ (task : Task) (w : World) {r : Run} {j : Job} {d : Dataset}
    (inputs : HasInputs w.db task r j d) where
  pub start_counts :
      ignore (query (task_started task.run_id)) (calm w) ≡ (ok tt, calm (started task w))
  unfolding actions call task_started
  start_counts = refl

  pub started_run :
      first (run_has_id task.run_id) (started task w).db.runs ≡ some (count_started (tick w).now r)
  started_run =
      first-update (run_has_id task.run_id) (count_started (tick w).now) (λ x. refl) w.db.runs
      ∙ ap (map_option (count_started (tick w).now)) inputs.run

  pub started_inputs : HasInputs (started task w).db task (count_started (tick w).now r) j d
  started_inputs = record { run = started_run; job = inputs.job; dataset = inputs.dataset }

  start_fails :
      (x : GoError)
      → w.env.python (runner_call (tick w)) (runner_input w task j d) ≡ err x
      → start_task task (calm w)
        ≡ on_failure task (runner_failed x) (calm (after_four (started task w)))
  unfolding start_task
  start_fails x p =
      then_ok _ _ (calm w) start_counts
      ∙ bind_ok _ _ (calm (started task w))
          (attempt_done _ _ (process_fails task (started task w) started_inputs x p))

  -- On a network that answers every call, with the rows of the task, its run, job and dataset there:
  -- when the Python process fails and the task may be retried, the task ends as pending with one
  -- more retry, and the run still counts it as running and not as pending.
  pub retry_stays_counted :
      {t : Task} (x : GoError)
      → first (task_has_id task.id) w.db.tasks ≡ some t
      → w.env.python (runner_call (tick w)) (runner_input w task j d) ≡ err x
      → MayRetry task j (runner_failed x)
      → let w' = (start_task task (calm w)).1 in
        (first (task_has_id task.id) w'.db.tasks
          ≡ some (back_to_pending (error_text (runner_failed x)) t))
        × (first (run_has_id task.run_id) w'.db.runs ≡ some (count_started (tick w).now r))
  retry_stays_counted {t} x has_task p may =
      elim (on_failure_outcome task (runner_failed x) (after_four (started task w)) has_task
        started_run inputs.job) [
          | inl (_, (_, retried, runs)) ↦
              rw (start_fails x p) (retried, ap (first (run_has_id task.run_id)) runs ∙ started_run)
          | inr (never, _) ↦ absurd (never may)
        ]

-- The world in which a success is recorded: the task has succeeded and the run counts it as done.
abbrev pub recorded : Task → World → World
recorded task v = record (tick (tick v)) {
  db = record v.db {
    tasks = update (task_has_id task.id) (with_state TaskState.succeeded) v.db.tasks;
    runs = update (run_has_id task.run_id) count_succeeded v.db.runs;
  };
}

abbrev pub one_more_succeeded : World → World
one_more_succeeded v = record v {
  metrics = record v.metrics { tasks_succeeded = suc v.metrics.tasks_succeeded };
}

module _ (task : Task) (v : World) {t : Task} {r : Run}
    (has_task : first (task_has_id task.id) v.db.tasks ≡ some t)
    (has_run : first (run_has_id task.run_id) v.db.runs ≡ some r) where
  pub succeeds :
      succeed task (calm v)
      ≡ (ok tt, one_more_succeeded (check_and_complete_run task (calm (recorded task v))).1)
  unfolding succeed
  succeeds =
      then_ok _ _ (calm v) state_set
      ∙ then_ok _ _ _ run_counted
      ∙ then_ok _ _ _ (ignore_done _ _ refl)
      ∙ metric (check_and_complete_run task (calm (recorded task v))).1
    where
      task_set : World
      task_set = record (tick v) {
        db = record v.db {
          tasks = update (task_has_id task.id) (with_state TaskState.succeeded) v.db.tasks;
        };
      }

      state_set :
          query (update_task_state task.id TaskState.succeeded) (calm v)
          ≡ (ok (with_state TaskState.succeeded t), calm task_set)
      state_set = unfold actions call update_task_state in rw has_task

      run_counted :
          ignore (query (task_succeeded task.run_id)) (calm task_set)
          ≡ (ok tt, calm (recorded task v))
      run_counted = unfold actions call task_succeeded in refl

      metric : (u : World) → count_succeeded_task u ≡ (ok tt, one_more_succeeded u)
      metric u = unfold actions in refl
