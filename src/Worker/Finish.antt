-- ===== src/Worker/Finish.antt =====
-- A task that succeeds on a calm network, from its start to the end of its run.
use mathlib.Core.Path.{subst}
use mini_databricks.Base.{
  ◌+◌, ◌∙◌, ◌≡◌, ◌⊎◌, inl, inr, refl, sym, false, some, first, first-update, map_option, ap, update,
  if◌then◌else◌,
}
use mini_databricks.Base.Text.{Text}
use mini_databricks.Errors.{ok}
use mini_databricks.Db.{Task, TaskState, Run, Job, Dataset}
use mini_databricks.Db.Row.{task_has_id, run_has_id, is_cancelled}
use mini_databricks.Queries.Tasks.{with_state}
use mini_databricks.Queries.Runs.{count_started, count_succeeded, get_run_state}
use mini_databricks.World.{World, calm, tick, actions, call, query}
use mini_databricks.World.Chains.{bind_ok, then_ok, attempt_done}
use mini_databricks.Worker.{start_task, succeed, on_success, mark_dead, check_and_complete_run}
use mini_databricks.Worker.Process.{
  HasInputs, runner_call, runner_input, after_four, with_artifact, process_succeeds,
}
use mini_databricks.Worker.Completion.{
  HasEnded, HasEnded-moved, check_and_complete_run_lem, check_and_complete_run-tasks,
}
use mini_databricks.Worker.Success.{
  started, start_counts, started_run, started_inputs, recorded, one_more_succeeded, succeeds,
}

module _ (task : Task) (w : World) {r : Run} {j : Job} {d : Dataset}
    (inputs : HasInputs w.db task r j d) (output : Text)
    (printed : w.env.python (runner_call (tick w)) (runner_input w task j d) ≡ ok output)
    (live : is_cancelled r.state ≡ false) where
  -- The world after the process, and after the run's state is read once more.
  abbrev processed : World
  processed =
      with_artifact task (started task w) (started_inputs task w inputs) output
        (tick (after_four (started task w)))

  state_read :
      query (get_run_state task.run_id) (calm processed) ≡ (ok r.state, calm (tick processed))
  unfolding actions call get_run_state
  state_read = rw (started_run task w inputs)

  start_succeeds : start_task task (calm w) ≡ succeed task (calm (tick processed))
  unfolding start_task on_success
  start_succeeds =
      then_ok _ _ (calm w) (start_counts task w inputs)
      ∙ bind_ok _ _ (calm (started task w)) (
          attempt_done _ _
            (process_succeeds task (started task w) (started_inputs task w inputs) output printed))
      ∙ bind_ok _ _ (calm processed) state_read
      ∙ ap (λ b. (if b then mark_dead task else succeed task) (calm (tick processed))) live

  abbrev pub done_run : Run
  done_run = count_succeeded (count_started (tick w).now r)

  abbrev pub IsFull : Type 0
  IsFull = done_run.tasks_done + done_run.tasks_failed ≡ done_run.tasks_total

  -- The task has succeeded, and its run either ends with it or goes on with nothing published.
  abbrev pub Finishes : Task → World → Type 0
  Finishes t w' =
      (first (task_has_id task.id) w'.db.tasks ≡ some (with_state TaskState.succeeded t))
      × ((IsFull × HasEnded task done_run j w w')
          ⊎ ((¬ IsFull)
              × (first (run_has_id task.run_id) w'.db.runs ≡ some done_run)
              × (w'.topics ≡ w.topics)))

  abbrev after_record : World
  after_record = recorded task (tick processed)

  recorded_run : first (run_has_id task.run_id) after_record.db.runs ≡ some done_run
  recorded_run =
      first-update (run_has_id task.run_id) count_succeeded (λ x. refl) processed.db.runs
      ∙ ap (map_option count_succeeded) (started_run task w inputs)

  recorded_task :
      {t : Task}
      → first (task_has_id task.id) w.db.tasks ≡ some t
      → first (task_has_id task.id) after_record.db.tasks ≡ some (with_state TaskState.succeeded t)
  recorded_task has_task =
      first-update (task_has_id task.id) (with_state TaskState.succeeded) (λ x. refl) w.db.tasks
      ∙ ap (map_option (with_state TaskState.succeeded)) has_task

  recorded-Finishes :
      {t : Task}
      → first (task_has_id task.id) w.db.tasks ≡ some t
      → Finishes t (check_and_complete_run task (calm after_record)).1
  recorded-Finishes has_task = (
    (ap (first (task_has_id task.id))
          (check_and_complete_run-tasks task after_record recorded_run inputs.job)
        ∙ recorded_task has_task),
    elim (check_and_complete_run_lem task after_record recorded_run inputs.job) [
      | inl (full, ended) ↦
          inl (full, HasEnded-moved task done_run j after_record _ w _ refl refl refl refl ended)
      | inr (open_tasks, same_db, same_topics) ↦ inr (
        open_tasks,
        ap (λ db. first (run_has_id task.run_id) db.runs) same_db ∙ recorded_run,
        same_topics,
      )
    ],
  )

  module _ {t : Task} (has_task : first (task_has_id task.id) w.db.tasks ≡ some t) where
    task_ends :
        start_task task (calm w)
        ≡ (ok tt, one_more_succeeded (check_and_complete_run task (calm after_record)).1)
    task_ends = start_succeeds ∙ succeeds task (tick processed) has_task (started_run task w inputs)

    -- The task's row is the only one that changes among the tasks.
    pub start_task-tasks :
        (start_task task (calm w)).1.db.tasks
        ≡ update (task_has_id task.id) (with_state TaskState.succeeded) w.db.tasks
    start_task-tasks =
        ap (λ x. x.1.db.tasks) task_ends
        ∙ check_and_complete_run-tasks task after_record recorded_run inputs.job

    -- While tasks of the run are open, no job and no dataset changes.
    pub start_task_open :
        ¬ IsFull
        → let w' = (start_task task (calm w)).1 in
          (w'.db.jobs ≡ w.db.jobs) × (w'.db.datasets ≡ w.db.datasets)
    start_task_open open_tasks =
        elim (check_and_complete_run_lem task after_record recorded_run inputs.job) [
          | inl (full, _) ↦ absurd (open_tasks full)
          | inr (_, same_db, _) ↦ (
            ap (λ x. x.1.db.jobs) task_ends ∙ ap (λ db. db.jobs) same_db,
            ap (λ x. x.1.db.datasets) task_ends ∙ ap (λ db. db.datasets) same_db,
          )
        ]

  -- On a network that answers every call, for a task whose run is not cancelled and whose rows are
  -- all there: when the Python process exits well, the task succeeds and its run counts it as done
  -- and no more as pending or running; if with it the done and failed tasks make up the total, the
  -- run and its job end and the end is published, and otherwise the run keeps its state and nothing
  -- is published.
  pub start_task-Finishes :
      {t : Task}
      → first (task_has_id task.id) w.db.tasks ≡ some t
      → ((start_task task (calm w)).0 ≡ ok tt) × Finishes t (start_task task (calm w)).1
  start_task-Finishes {t} has_task =
      subst (λ x. (x.0 ≡ ok tt) × Finishes t x.1) (sym (task_ends has_task))
        (
          refl,
          finishes_counted (check_and_complete_run task (calm after_record)).1
              (recorded-Finishes has_task),
        )
    where
      finishes_counted : (v : World) → Finishes t v → Finishes t (one_more_succeeded v)
      finishes_counted v (a, inl (full, ended)) = (
        a,
        inl (
          full,
          HasEnded-moved task done_run j w v w (one_more_succeeded v) refl refl refl refl ended,
        ),
      )
      finishes_counted v (a, inr open_run) = (a, inr open_run)
