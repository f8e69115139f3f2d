-- ===== src/Worker/Failure.antt =====
-- What a poll does after a process that failed.
use mini_databricks.Base.{◌∙◌, ◌≡◌, refl, Option, List, map, map-update}
use mini_databricks.Errors.{GoError}
use mini_databricks.Db.{Task, Run, RunState, Job, Uuid, Timestamp}
use mini_databricks.Db.Row.{run_has_id}
use mini_databricks.Queries.Tasks.{retry_task, fail_task_with_error}
use mini_databricks.Queries.Runs.{task_failed, count_failed}
use mini_databricks.Queries.Jobs.{get_job_by_run_id}
use mini_databricks.World.{World, Message}
use mini_databricks.World.Keeps.{
  Keeps, Keeps-raise, Keeps-attempt, Keeps-ignore, Keeps-modify, Keeps-if, Keeps-query, Keeps-bind,
  Keeps-then,
}
use mini_databricks.Worker.{on_failure}

-- What a client sees of a run's end.
pub record RunStatus : Type 0 where
  pub run : Uuid
  pub state : RunState
  pub finished_at : Option Timestamp

abbrev pub run_status : Run → RunStatus
run_status r = record { run = r.id; state = r.state; finished_at = r.finished_at }

module _ (statuses : List RunStatus) (jobs : List Job) (topics : List Message) where
  abbrev Unfinished : World → Type 0
  Unfinished w = (map run_status w.db.runs ≡ statuses) × (w.db.jobs ≡ jobs) × (w.topics ≡ topics)

  on_failure-Unfinished : (task : Task) (e : GoError) → Keeps Unfinished (on_failure task e)
  unfolding on_failure get_job_by_run_id retry_task fail_task_with_error task_failed
  on_failure-Unfinished task e =
      Keeps-bind Unfinished (λ w h. h)
        (Keeps-attempt Unfinished (λ w h. h) (Keeps-query Unfinished (λ w h. h) _ (λ w h. h)))
        λ job.
          Keeps-if Unfinished (λ w h. h) _
            (Keeps-ignore Unfinished (λ w h. h) (Keeps-query Unfinished (λ w h. h) _ (λ w h. h)))
            (Keeps-then Unfinished (λ w h. h)
              (Keeps-ignore Unfinished (λ w h. h) (Keeps-query Unfinished (λ w h. h) _ (λ w h. h)))
              (Keeps-then Unfinished (λ w h. h)
                (Keeps-ignore Unfinished (λ w h. h)
                  (Keeps-query Unfinished (λ w h. h) _
                    (λ w h. (
                      map-update run_status (run_has_id task.run_id) count_failed (λ r _. refl) _
                          ∙ h.0,
                      h.1,
                      h.2,
                    ))))
                (Keeps-then Unfinished (λ w h. h) (Keeps-modify Unfinished (λ w h. h) _ (λ w h. h))
                  (Keeps-raise Unfinished (λ w h. h) e))))

-- However its calls end, what a poll does after a failed process completes no run: the state and
-- the finishing time of every run, every job and the published messages stay as they were, also
-- where this was the run's last task.
pub on_failure_completes_nothing :
    (task : Task) (e : GoError) (w : World)
    → let w' = (on_failure task e w).1 in
      (map run_status w'.db.runs ≡ map run_status w.db.runs)
      × (w'.db.jobs ≡ w.db.jobs)
      × (w'.topics ≡ w.topics)
on_failure_completes_nothing task e w =
    (on_failure-Unfinished (map run_status w.db.runs) w.db.jobs w.topics task e).run w
      (refl, refl, refl)
