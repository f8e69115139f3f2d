-- ===== src/Worker/Leases.antt =====
-- Who holds a task: the lease columns agree with the task's state, after any poll or heartbeat.
use mini_databricks.Base.{
  ℕ, ◌≡◌, ◌⊎◌, Bool, true, false, Option, none, some, List, All, All-update, update, arith,
}
use mini_databricks.Base.Text.{Text}
use mini_databricks.Db.{Task, TaskState, Uuid}
use mini_databricks.Db.Row.{task_has_id, is_pending, is_leased}
use mini_databricks.Queries.Tasks.{
  lease_task, update_task_state, retry_task, fail_task_with_error, heartbeat_task, lease_found,
  oldest_leasable, with_state, back_to_pending, failed_with, lease_to, extend_lease, is_held_by,
}
use mini_databricks.Queries.Runs.{task_started, task_succeeded, task_failed, complete_run}
use mini_databricks.Queries.Jobs.{complete_job}
use mini_databricks.Queries.Files.{create_artifact}
use mini_databricks.World.{World, on_db}
use mini_databricks.World.Keeps.{Keeps-query}
use mini_databricks.Worker.{poll_and_process, heartbeat_tick}
use mini_databricks.Worker.Steps.{others_of_tasks, StepsKeep}
use mini_databricks.Worker.Polls.{any_task, poll-Keeps}

abbrev pub is_set {ℓ} : {A : Type ℓ} → Option A → Bool
is_set none = false
is_set (some a) = true

-- A pending task has no owner and no expiry; a leased one has both.
pub record IsLeaseSound (t : Task) : Type 0 where
  pub pending_owner : is_pending t.state ≡ true → is_set t.lease_owner ≡ false
  pub pending_expiry : is_pending t.state ≡ true → is_set t.lease_expires_at ≡ false
  pub leased_owner : is_leased t.state ≡ true → is_set t.lease_owner ≡ true
  pub leased_expiry : is_leased t.state ≡ true → is_set t.lease_expires_at ≡ true

abbrev pub LeasesSound : World → Type 0
LeasesSound w = All IsLeaseSound w.db.tasks

sound_state :
    (s : TaskState)
    → ((s ≡ TaskState.dead) ⊎ (s ≡ TaskState.succeeded))
    → (t : Task) → IsLeaseSound (with_state s t)
sound_state s p t = ground arith

sound_retry : (m : Text) (t : Task) → IsLeaseSound (back_to_pending m t)
sound_retry m t = ground arith

sound_failed : (m : Text) (now : ℕ) (t : Task) → IsLeaseSound (failed_with m now t)
sound_failed m now t = ground arith

sound_leased : (owner : Text) (now : ℕ) (t : Task) → IsLeaseSound (lease_to owner now t)
sound_leased owner now t = ground arith

sound_lease :
    (owner : Text) (now : ℕ) (ts : List Task) (k : Uuid)
    → All IsLeaseSound ts
    → All IsLeaseSound (update (task_has_id k) (lease_to owner now) ts)
sound_lease owner now ts k =
    All-update IsLeaseSound (task_has_id k) (lease_to owner now) (λ t p h. sound_leased owner now t)
      ts

lease-LeasesSound :
    (owner : Text) (w : World) → LeasesSound w → LeasesSound (on_db (lease_task owner) w).1
unfolding lease_task
lease-LeasesSound owner w h = found (oldest_leasable w.now w.db.tasks)
  where
    found : (o : Option Task) → All IsLeaseSound (lease_found owner o w.now w.db).1.tasks
    found none = h
    found (some t) = sound_lease owner w.now w.db.tasks t.id h

sound_steps : (t : Task) → StepsKeep LeasesSound t
unfolding update_task_state retry_task fail_task_with_error task_started task_succeeded task_failed
    complete_run complete_job create_artifact
sound_steps t = record {
  quiet = record {
    others = others_of_tasks (All IsLeaseSound) t;
    state = λ s p w h.
        All-update IsLeaseSound (task_has_id t.id) (with_state s) (λ r _ _. sound_state s p r) _ h;
    failed = λ m w h.
        All-update IsLeaseSound (task_has_id t.id) (failed_with m w.now)
          (λ r _ _. sound_failed m w.now r) _ h;
  };
  retried = λ m w h.
      All-update IsLeaseSound (task_has_id t.id) (back_to_pending m) (λ r _ _. sound_retry m r) _ h;
}

-- However its calls end, a poll keeps it true of every task that a pending one has no lease owner
-- and no expiry and that a leased one has both.
pub poll-LeasesSound :
    (owner : Text) (w : World) → LeasesSound w → LeasesSound (poll_and_process owner w).1
poll-LeasesSound owner =
    (poll-Keeps LeasesSound (λ t. Unit {0}) (λ w h. h) owner (lease-LeasesSound owner)
      (λ w h. any_task (on_db (lease_task owner) w).0) (λ t _. sound_steps t)).run

sound_extended :
    (now : ℕ) (owner : Text) (k : Uuid) (t : Task)
    → is_held_by k owner t ≡ true
    → IsLeaseSound t
    → IsLeaseSound (extend_lease now t)
sound_extended now owner k t held s = ground arith

-- A heartbeat keeps it too.
heartbeat-LeasesSound :
    (owner : Text) (k : Uuid) (w : World) → LeasesSound w → LeasesSound (heartbeat_tick owner k w).1
unfolding heartbeat_tick heartbeat_task
heartbeat-LeasesSound owner k =
    (Keeps-query LeasesSound (λ w h. h) (heartbeat_task k owner)
      (λ w h.
        All-update IsLeaseSound (is_held_by k owner) (extend_lease w.now)
          (sound_extended w.now owner k) _ h)).run
