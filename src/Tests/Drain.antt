-- ===== src/Tests/Drain.antt =====
-- The queue of the run's tasks is emptied although every attempt fails.
use native.Mathlib.Omega.{arith}
use mini_databricks.Base.{ℕ, refl}
use mini_databricks.World.{World, calm}
use mini_databricks.Worker.{poll_and_process, poll_rounds}
use mini_databricks.Worker.Leases.{IsLeaseSound, LeasesSound}
use mini_databricks.Worker.Drain.Measure.{work_left, Unique, ids_of}
use mini_databricks.Worker.Drain.Rows.{NonePending}
use mini_databricks.Worker.Drain.Polls.{Settled, poll-Settled}
use mini_databricks.Worker.Drain.Rounds.{poll_rounds_drain}
use mini_databricks.Tests.Data.{
  worker_a, done_task, ready_task, two_ready, env_with, flaky, exits, timeout, world_with,
}

abbrev waiting_world : World
waiting_world = world_with (env_with flaky (exits timeout)) two_ready

pending_sound :
    (k p : ℕ) → IsLeaseSound (record ready_task { id = k; partition_index = p; created_at = k })
pending_sound k p = record {
  pending_owner = λ h. refl;
  pending_expiry = λ h. refl;
  leased_owner = λ h. absurd (ground arith);
  leased_expiry = λ h. absurd (ground arith);
}

pub done_sound : IsLeaseSound done_task
done_sound = record {
  pending_owner = λ h. refl;
  pending_expiry = λ h. refl;
  leased_owner = λ h. absurd (ground arith);
  leased_expiry = λ h. absurd (ground arith);
}

pub waiting_sound : LeasesSound waiting_world
waiting_sound = (done_sound, (pending_sound 13 2, (pending_sound 12 1, tt)))

pub ids_unique : Unique (ids_of waiting_world.db.tasks)
ids_unique = ((refl, (refl, tt)), ((refl, tt), (tt, tt)))

poll-Settled_example :
    Settled 3 worker_a waiting_world
      (omega arith, tt)
      ids_unique
      waiting_sound
      (poll_and_process worker_a waiting_world).1
poll-Settled_example =
    poll-Settled 3 worker_a waiting_world (omega arith, tt) ids_unique waiting_sound

-- Two tasks of four attempts each.
poll_rounds_drain_example : NonePending (poll_rounds 8 worker_a (calm waiting_world)).1.db.tasks
unfolding work_left
poll_rounds_drain_example =
    poll_rounds_drain 3 worker_a 8 waiting_world (omega arith, tt) ids_unique waiting_sound
      (omega arith)
