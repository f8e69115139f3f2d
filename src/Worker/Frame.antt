-- ===== src/Worker/Frame.antt =====
-- A poll changes no row but the pending one that it leases.
use mini_databricks.Base.{
  ℕ, zero, suc, ◌≡◌, refl, ◌≢◌, ◌∙◌, sym, inl, inr, false, List, All, All-of_select, select,
  select-update, update, arith, ◌==◌, Option-cases,
}
use mathlib.Core.Path.{subst}
use mini_databricks.Base.Text.{Text}
use mini_databricks.Db.{Task, Uuid}
use mini_databricks.Db.Row.{task_has_id, is_pending}
use mini_databricks.Queries.Tasks.{
  lease_task, update_task_state, retry_task, fail_task_with_error, oldest_leasable, with_state,
  back_to_pending, failed_with, lease_to,
}
use mini_databricks.Queries.Exclusive.{NotPending, chosen_ne, lease-ne_NotPending}
use mini_databricks.Queries.Runs.{task_started, task_succeeded, task_failed, complete_run}
use mini_databricks.Queries.Jobs.{complete_job}
use mini_databricks.Queries.Files.{create_artifact}
use mini_databricks.World.{World, on_db}
use mini_databricks.World.Keeps.{Keeps, Keeps-then, Keeps-ignore, Keeps-pure}
use mini_databricks.Worker.{poll_and_process, poll_rounds}
use mini_databricks.Worker.Steps.{others_of_tasks, StepsKeep}
use mini_databricks.Worker.Polls.{GivesTask, gives_of_ok, poll-Keeps}

abbrev pub IsIdle : Task → Type 0
IsIdle t = is_pending t.state ≡ false

differs : {k : Uuid} (t : Task) → t.id ≢ k → (t.id == k) ≡ false
differs t ne = ground arith

module _ (k : Uuid) (rows : List Task) (idle : All IsIdle rows) where
  abbrev HasRows : World → Type 0
  HasRows w = select (task_has_id k) w.db.tasks ≡ rows

  update_other :
      (j : Uuid) (f : Task → Task)
      → (j == k) ≡ false
      → ((t : Task) → (f t).id ≡ t.id)
      → (ts : List Task)
      → select (task_has_id k) (update (task_has_id j) f ts) ≡ select (task_has_id k) ts
  update_other j f ne same ts =
      select-update (task_has_id k) (task_has_id j) f
        (λ x hit. (ground arith, ground (arith, same x))) ts

  idle_rows : (w : World) → HasRows w → NotPending k w.db.tasks
  idle_rows w h = All-of_select IsIdle (task_has_id k) w.db.tasks (subst (All IsIdle) (sym h) idle)

  other_steps : (t : Task) → t.id ≢ k → StepsKeep HasRows t
  unfolding update_task_state retry_task fail_task_with_error task_started task_succeeded
      task_failed complete_run complete_job create_artifact
  other_steps t ne = record {
    quiet = record {
      others = others_of_tasks (λ ts. select (task_has_id k) ts ≡ rows) t;
      state = λ s p w h. update_other t.id (with_state s) (differs t ne) (λ x. refl) _ ∙ h;
      failed = λ m w h. update_other t.id (failed_with m w.now) (differs t ne) (λ x. refl) _ ∙ h;
    };
    retried = λ m w h. update_other t.id (back_to_pending m) (differs t ne) (λ x. refl) _ ∙ h;
  }

  lease-HasRows : (owner : Text) (w : World) → HasRows w → HasRows (on_db (lease_task owner) w).1
  unfolding lease_task
  lease-HasRows owner w h = elim (Option-cases (oldest_leasable w.now w.db.tasks)) [
    | inl e ↦ rw e h
    | inr (c, e) ↦ rw e (
        update_other c.id (lease_to owner w.now) (chosen_ne k w.now w.db.tasks (idle_rows w h) e)
          (λ x. refl) w.db.tasks
        ∙ h)
  ]

  lease_gives_other :
      (owner : Text) (w : World)
      → HasRows w
      → GivesTask (λ t. t.id ≢ k) (on_db (lease_task owner) w).0
  lease_gives_other owner w h =
      gives_of_ok (λ t. t.id ≢ k) _
        (λ t e. lease-ne_NotPending k owner w.now w.db t (idle_rows w h) e)

  poll-HasRows : (owner : Text) → Keeps HasRows (poll_and_process owner)
  poll-HasRows owner =
      poll-Keeps HasRows (λ t. t.id ≢ k) (λ w h. h) owner (lease-HasRows owner)
        (lease_gives_other owner) other_steps

  rounds-HasRows : (n : ℕ) (owner : Text) → Keeps HasRows (poll_rounds n owner)
  unfolding poll_rounds
  rounds-HasRows zero owner = Keeps-pure HasRows (λ w h. h) tt
  rounds-HasRows (suc n) owner =
      Keeps-then HasRows (λ w h. h) (Keeps-ignore HasRows (λ w h. h) (poll-HasRows owner))
        (rounds-HasRows n owner)

-- However its calls end, no number of polls changes the rows of a task that is not pending: not of
-- one that has succeeded, failed or died, and not of one that is leased, expired or not.
pub poll_rounds_frame :
    (n : ℕ) (owner : Text) (k : Uuid) (w : World)
    → All IsIdle (select (task_has_id k) w.db.tasks)
    → select (task_has_id k) (poll_rounds n owner w).1.db.tasks ≡ select (task_has_id k) w.db.tasks
poll_rounds_frame n owner k w idle =
    (rounds-HasRows k (select (task_has_id k) w.db.tasks) idle n owner).run w refl
