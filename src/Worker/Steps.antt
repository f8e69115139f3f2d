-- ===== src/Worker/Steps.antt =====
-- A poll keeps a property of the world if each statement that it can make keeps it.
use mini_databricks.Base.{List, [], ◌∷◌, ◌++◌, inl, inr, refl, ◌≡◌, ◌⊎◌, suc}
use mini_databricks.Base.Text.{Text}
use mini_databricks.Errors.{GoError, Result, ok, err}
use mini_databricks.Db.{Uuid, Task, TaskState, RunState, JobState}
use mini_databricks.World.{World, Done, Metrics, Message, query, on_db, ignore}
use mini_databricks.World.Keeps.{
  Keeps, IsTimeless, Keeps-pure, Keeps-raise, Keeps-attempt, Keeps-wrap, Keeps-ignore, Keeps-gets,
  Keeps-modify, Keeps-if, Keeps-call, Keeps-query, Keeps-publish, Keeps-bind, Keeps-then,
}
use mini_databricks.Queries.Tasks.{
  update_task_state, retry_task, fail_task_with_error, get_run_task_count,
}
use mini_databricks.Queries.Runs.{
  RunProgress, get_run_state, task_started, task_succeeded, task_failed, get_run_progress,
  complete_run,
}
use mini_databricks.Queries.Jobs.{get_job_by_run_id, complete_job}
use mini_databricks.Queries.Files.{get_dataset_by_job_id, create_artifact, CreateArtifactParams}
use mini_databricks.Worker.{
  mark_dead, process, run_python, retry, fail_permanently, on_failure, complete,
  check_and_complete_run, succeed, on_success, after_process, start_task, run_leased, job_completed,
}

-- What the poll can do to the world once it has leased the task `t`, but for the row of the task.
pub record OtherSteps (P : World → Type 0) (t : Task) : Type 0 where
  pub timeless : IsTimeless P
  pub run_started : (w : World) → P w → P (on_db (task_started t.run_id) w).1
  pub run_succeeded : (w : World) → P w → P (on_db (task_succeeded t.run_id) w).1
  pub run_failed : (w : World) → P w → P (on_db (task_failed t.run_id) w).1
  pub artifact : (p : CreateArtifactParams) (w : World) → P w → P (on_db (create_artifact p) w).1
  pub run_completed : (s : RunState) (w : World) → P w → P (on_db (complete_run t.run_id s) w).1
  pub job_completes : (k : Uuid) (s : JobState) (w : World) → P w → P (on_db (complete_job k s) w).1
  pub published : (m : Message) (w : World) → P w → P (record w { topics = w.topics ++ m ∷ [] })
  pub counted : (f : Metrics → Metrics) (w : World) → P w → P (record w { metrics = f w.metrics })

-- A property of the rows of the tasks is kept by all of them.
pub others_of_tasks : (Q : List Task → Type 0) (t : Task) → OtherSteps (λ w. Q w.db.tasks) t
unfolding task_started task_succeeded task_failed complete_run complete_job create_artifact
others_of_tasks Q t = record {
  timeless = λ w h. h;
  run_started = λ w h. h;
  run_succeeded = λ w h. h;
  run_failed = λ w h. h;
  artifact = λ p w h. h;
  run_completed = λ s w h. h;
  job_completes = λ k s w h. h;
  published = λ m w h. h;
  counted = λ f w h. h;
}

-- The same, and ending the task without giving it back.
pub record QuietSteps (P : World → Type 0) (t : Task) : Type 0 where
  pub others : OtherSteps P t
  pub state :
      (s : TaskState)
      → ((s ≡ TaskState.dead) ⊎ (s ≡ TaskState.succeeded))
      → (w : World) → P w
      → P (on_db (update_task_state t.id s) w).1
  pub failed : (m : Text) (w : World) → P w → P (on_db (fail_task_with_error t.id m) w).1

-- The same, and giving it back.
pub record StepsKeep (P : World → Type 0) (t : Task) : Type 0 where
  pub quiet : QuietSteps P t
  pub retried : (m : Text) (w : World) → P w → P (on_db (retry_task t.id m) w).1

module _ (P : World → Type 0) (t : Task) (steps : OtherSteps P t) where
  open steps use {timeless, run_started, artifact, run_completed, job_completes, published}

  pub get_job-Keeps : Keeps P (query (get_job_by_run_id t.run_id))
  unfolding get_job_by_run_id
  get_job-Keeps = Keeps-query P timeless (get_job_by_run_id t.run_id) (λ w h. h)

  pub get_state-Keeps : Keeps P (query (get_run_state t.run_id))
  unfolding get_run_state
  get_state-Keeps = Keeps-query P timeless (get_run_state t.run_id) (λ w h. h)

  pub process-Keeps : Keeps P (process t)
  unfolding process get_dataset_by_job_id get_run_task_count run_python
  process-Keeps = Keeps-bind P timeless (Keeps-wrap P timeless _ get_job-Keeps) λ job.
      Keeps-bind P timeless (Keeps-wrap P timeless _ (Keeps-query P timeless _ (λ w h. h)))
        λ dataset.
          Keeps-bind P timeless (Keeps-wrap P timeless _ (Keeps-query P timeless _ (λ w h. h)))
            λ total.
              Keeps-bind P timeless (Keeps-wrap P timeless _ (Keeps-call P timeless _ (λ w h. h)))
                λ output. Keeps-ignore P timeless (Keeps-query P timeless _ (artifact _))

  complete-Keeps : (p : RunProgress) → Keeps P (complete t p)
  unfolding complete
  complete-Keeps p =
      Keeps-then P timeless (Keeps-wrap P timeless _ (Keeps-query P timeless _ (run_completed _))) (
        Keeps-bind P timeless (Keeps-wrap P timeless _ get_job-Keeps) λ job.
          Keeps-then P timeless
            (Keeps-wrap P timeless _ (Keeps-query P timeless _ (job_completes _ _)))
            (Keeps-bind P timeless (Keeps-gets P timeless (job_completed job))
              λ m. Keeps-ignore P timeless (Keeps-publish P timeless m (published m))))

  pub check-Keeps : Keeps P (check_and_complete_run t)
  unfolding check_and_complete_run get_run_progress
  check-Keeps =
      Keeps-bind P timeless (Keeps-wrap P timeless _ (Keeps-query P timeless _ (λ w h. h)))
        λ p. Keeps-if P timeless _ (complete-Keeps p) (Keeps-pure P timeless tt)

  pub started-Keeps : Keeps P (ignore (query (task_started t.run_id)))
  started-Keeps = Keeps-ignore P timeless (Keeps-query P timeless _ run_started)

module _ (P : World → Type 0) (t : Task) (steps : QuietSteps P t) where
  open steps use {others, state, failed}
  open others use {timeless, run_succeeded, run_failed, counted}

  pub mark_dead-Keeps : Keeps P (mark_dead t)
  unfolding mark_dead
  mark_dead-Keeps =
      Keeps-then P timeless
        (Keeps-ignore P timeless (Keeps-query P timeless _ (state TaskState.dead (inl refl))))
        (Keeps-modify P timeless _ (counted (λ m. record m { tasks_dead = suc m.tasks_dead })))

  succeed-Keeps : Keeps P (succeed t)
  unfolding succeed
  succeed-Keeps =
      Keeps-then P timeless (Keeps-query P timeless _ (state TaskState.succeeded (inr refl))) (
        Keeps-then P timeless (Keeps-ignore P timeless (Keeps-query P timeless _ run_succeeded)) (
          Keeps-then P timeless (Keeps-ignore P timeless (check-Keeps P t others)) (
            Keeps-modify P timeless _
              (counted (λ m. record m { tasks_succeeded = suc m.tasks_succeeded })))))

  pub on_success-Keeps : Keeps P (on_success t)
  unfolding on_success
  on_success-Keeps =
      Keeps-bind P timeless (get_state-Keeps P t others)
        λ s. Keeps-if P timeless _ mark_dead-Keeps succeed-Keeps

  pub fail-Keeps : (e : GoError) → Keeps P (fail_permanently t e)
  unfolding fail_permanently
  fail-Keeps e =
      Keeps-then P timeless (Keeps-ignore P timeless (Keeps-query P timeless _ (failed _))) (
        Keeps-then P timeless (Keeps-ignore P timeless (Keeps-query P timeless _ run_failed)) (
          Keeps-then P timeless
            (Keeps-modify P timeless _
              (counted (λ m. record m { tasks_failed = suc m.tasks_failed })))
            (Keeps-raise P timeless e)))

module _ (P : World → Type 0) (t : Task) (steps : StepsKeep P t) where
  open steps use {quiet, retried}
  open quiet use {others}
  open others use {timeless}

  on_failure-Keeps : (e : GoError) → Keeps P (on_failure t e)
  unfolding on_failure retry
  on_failure-Keeps e =
      Keeps-bind P timeless (Keeps-attempt P timeless (get_job-Keeps P t others)) λ job.
        Keeps-if P timeless _ (Keeps-ignore P timeless (Keeps-query P timeless _ (retried _)))
          (fail-Keeps P t quiet e)

  after_process-Keeps : (r : Result Done) → Keeps P (after_process t r)
  after_process-Keeps (ok _) = on_success-Keeps P t quiet
  after_process-Keeps (err e) = on_failure-Keeps e

  pub start_task-Keeps : Keeps P (start_task t)
  unfolding start_task
  start_task-Keeps = Keeps-then P timeless (started-Keeps P t others) (
      Keeps-bind P timeless (Keeps-attempt P timeless (process-Keeps P t others))
        after_process-Keeps)

  -- All of the poll that follows the lease.
  pub run_leased-Keeps : Keeps P (run_leased t)
  unfolding run_leased
  run_leased-Keeps =
      Keeps-bind P timeless (get_state-Keeps P t others)
        λ s. Keeps-if P timeless _ (mark_dead-Keeps P t quiet) start_task-Keeps
