-- ===== src/Cleanup/Kept.antt =====
-- What a cleanup never removes.
use mini_databricks.Base.{◌≡◌, ◌∙◌, refl, not, List, select, select-delete, arith}
use mini_databricks.Db.{Db, Task, Dataset, Outbox}
use mini_databricks.World.{World, query}
use mini_databricks.World.Keeps.{Keeps, Keeps-then, Keeps-ignore, Keeps-query}
use mini_databricks.Queries.Files.{cleanup_stale_datasets_initiated, is_stale_dataset, is_initiated}
use mini_databricks.Queries.Tasks.{cleanup_dead_tasks, is_stale_task, is_dead_or_failed}
use mini_databricks.Queries.Outbox.{cleanup_delivered_outbox_events, is_old_delivery, is_delivered}
use mini_databricks.Cleanup.{run_cleanup}

-- The rows that a cleanup is not about.
abbrev pub live_tasks : Db → List Task
live_tasks db = select (λ t. not (is_dead_or_failed t.state)) db.tasks

abbrev pub used_datasets : Db → List Dataset
used_datasets db = select (λ d. not (is_initiated d.state)) db.datasets

abbrev pub undelivered_events : Db → List Outbox
undelivered_events db = select (λ e. not (is_delivered e.status)) db.outbox

pub record SameLive (a b : Db) : Type 0 where
  pub tasks : live_tasks b ≡ live_tasks a
  pub datasets : used_datasets b ≡ used_datasets a
  pub events : undelivered_events b ≡ undelivered_events a
  pub runs : b.runs ≡ a.runs
  pub jobs : b.jobs ≡ a.jobs
  pub artifacts : b.artifacts ≡ a.artifacts

module _ (before : Db) where
  abbrev Live : World → Type 0
  Live w = SameLive before w.db

  datasets_step : Keeps Live (query cleanup_stale_datasets_initiated)
  unfolding cleanup_stale_datasets_initiated
  datasets_step =
      Keeps-query Live (λ w h. h) cleanup_stale_datasets_initiated
        λ w h. record {
          tasks = h.tasks;
          events = h.events;
          runs = h.runs;
          jobs = h.jobs;
          artifacts = h.artifacts;
          datasets =
              select-delete (λ d. not (is_initiated d.state)) (is_stale_dataset w.now)
                (λ d e. ground (arith, e)) _
              ∙ h.datasets;
        }

  tasks_step : Keeps Live (query cleanup_dead_tasks)
  unfolding cleanup_dead_tasks
  tasks_step =
      Keeps-query Live (λ w h. h) cleanup_dead_tasks
        λ w h. record {
          datasets = h.datasets;
          events = h.events;
          runs = h.runs;
          jobs = h.jobs;
          artifacts = h.artifacts;
          tasks =
              select-delete (λ t. not (is_dead_or_failed t.state)) (is_stale_task w.now)
                (λ t e. ground (arith, e)) _
              ∙ h.tasks;
        }

  events_step : Keeps Live (query cleanup_delivered_outbox_events)
  unfolding cleanup_delivered_outbox_events
  events_step =
      Keeps-query Live (λ w h. h) cleanup_delivered_outbox_events
        λ w h. record {
          tasks = h.tasks;
          datasets = h.datasets;
          runs = h.runs;
          jobs = h.jobs;
          artifacts = h.artifacts;
          events =
              select-delete (λ e. not (is_delivered e.status)) (is_old_delivery w.now)
                (λ e d. ground (arith, d)) w.db.outbox
              ∙ h.events;
        }

  run_cleanup-Keeps : Keeps Live run_cleanup
  unfolding run_cleanup
  run_cleanup-Keeps =
      Keeps-then Live (λ w h. h) (Keeps-ignore Live (λ w h. h) datasets_step)
        (Keeps-then Live (λ w h. h) (Keeps-ignore Live (λ w h. h) tasks_step)
          (Keeps-ignore Live (λ w h. h) events_step))

-- However its calls end, a cleanup leaves every run, job and artifact, every task that is neither dead
-- nor failed, every dataset that is more than initiated, and every event that is not delivered.
pub run_cleanup-SameLive : (w : World) → SameLive w.db (run_cleanup w).1.db
run_cleanup-SameLive w = (run_cleanup-Keeps w.db).run w (record {
  tasks = refl;
  datasets = refl;
  events = refl;
  runs = refl;
  jobs = refl;
  artifacts = refl;
})
