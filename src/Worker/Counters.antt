-- ===== src/Worker/Counters.antt =====
-- The progress counters of the runs under a poll.
use mini_databricks.Base.{
  ℕ, ℤ, pos, ◌+ℤ◌, int_laws, ◌≡◌, refl, ◌∙◌, map, map-update, update, ap, List, Option, none, some,
}
use mini_databricks.Base.Text.{Text}
use mini_databricks.Db.{Run, Uuid, Task}
use mini_databricks.Db.Row.{run_has_id}
use mini_databricks.Queries.Tasks.{
  lease_task, update_task_state, retry_task, fail_task_with_error, lease_found, oldest_leasable,
}
use mini_databricks.Queries.Runs.{
  task_started, task_succeeded, task_failed, complete_run, count_started, count_succeeded,
  count_failed, completed_run,
}
use mini_databricks.Queries.Jobs.{complete_job}
use mini_databricks.Queries.Files.{create_artifact}
use mini_databricks.World.{World, on_db}
use mini_databricks.Worker.{poll_and_process}
use mini_databricks.Worker.Steps.{StepsKeep}
use mini_databricks.Worker.Polls.{any_task, poll-Keeps}

-- The tasks that a run accounts for: pending, running, done and failed.
abbrev pub accounted : Run → ℤ
accounted r = r.tasks_pending +ℤ r.tasks_running +ℤ pos r.tasks_done +ℤ pos r.tasks_failed

pub record Account : Type 0 where
  pub run : Uuid
  pub total : ℕ
  pub sum : ℤ

abbrev pub account : Run → Account
account r = record { run = r.id; total = r.tasks_total; sum = accounted r }

started_same : (now : ℕ) (r : Run) → accounted (count_started now r) ≡ accounted r
started_same now r = omega int_laws

succeeded_same : (r : Run) → accounted (count_succeeded r) ≡ accounted r
succeeded_same r = omega int_laws

failed_same : (r : Run) → accounted (count_failed r) ≡ accounted r
failed_same r = omega int_laws

same_account :
    (f : Run → Run)
    → ((r : Run) → (f r).id ≡ r.id)
    → ((r : Run) → (f r).tasks_total ≡ r.tasks_total)
    → ((r : Run) → accounted (f r) ≡ accounted r)
    → (k : Uuid) (rs : List Run) → map account (update (run_has_id k) f rs) ≡ map account rs
same_account f i n s k =
    map-update account (run_has_id k) f
      (λ r _ j. record { run = i r j; total = n r j; sum = s r j })

lease-runs : (owner : Text) (w : World) → (on_db (lease_task owner) w).1.db.runs ≡ w.db.runs
unfolding lease_task
lease-runs owner w = found (oldest_leasable w.now w.db.tasks)
  where
    found : (o : Option Task) → (lease_found owner o w.now w.db).1.runs ≡ w.db.runs
    found none = refl
    found (some t) = refl

module _ (accounts : List Account) where
  abbrev HasAccounts : World → Type 0
  HasAccounts w = map account w.db.runs ≡ accounts

  accounts_kept : (t : Task) → StepsKeep HasAccounts t
  unfolding update_task_state retry_task fail_task_with_error task_started task_succeeded
      task_failed complete_run complete_job create_artifact
  accounts_kept t = record {
    quiet = record {
      others = record {
        timeless = λ w h. h;
        run_started = λ w h.
            same_account (count_started w.now) (λ r. refl) (λ r. refl) (started_same w.now) t.run_id
              _
            ∙ h;
        run_succeeded = λ w h.
            same_account count_succeeded (λ r. refl) (λ r. refl) succeeded_same t.run_id _ ∙ h;
        run_failed =
            λ w h. same_account count_failed (λ r. refl) (λ r. refl) failed_same t.run_id _ ∙ h;
        artifact = λ p w h. h;
        run_completed = λ s w h.
            same_account (completed_run s w.now) (λ r. refl) (λ r. refl) (λ r. refl) t.run_id _ ∙ h;
        job_completes = λ k s w h. h;
        published = λ m w h. h;
        counted = λ f w h. h;
      };
      state = λ s p w h. h;
      failed = λ m w h. h;
    };
    retried = λ m w h. h;
  }

  accounts_poll :
      (owner : Text) (w : World) → HasAccounts w → HasAccounts (poll_and_process owner w).1
  accounts_poll owner =
      (poll-Keeps HasAccounts (λ t. Unit {0}) (λ w h. h) owner
        (λ w h. ap (map account) (lease-runs owner w) ∙ h)
        (λ w h. any_task (on_db (lease_task owner) w).0) (λ t _. accounts_kept t)).run

-- However its calls end, a poll adds no run and removes none, leaves each run's total, and leaves
-- the sum of each run's pending, running, done and failed tasks as it was.
pub poll-account :
    (owner : Text) (w : World)
    → map account (poll_and_process owner w).1.db.runs ≡ map account w.db.runs
poll-account owner w = accounts_poll (map account w.db.runs) owner w refl
