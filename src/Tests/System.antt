-- ===== src/Tests/System.antt =====
-- Two workers with a task each, and a worker that takes its turn.
use native.Mathlib.Omega.{arith}
use mini_databricks.Base.{
  ℕ, zero, suc, ◌==◌, ◌≡◌, refl, none, some, false, [], ◌∷◌, All, select, ◌⊎◌,
}
use mini_databricks.Base.Text.{Text}
use mini_databricks.Db.{TaskState}
use mini_databricks.Db.Row.{task_has_id}
use mini_databricks.Queries.Tasks.{oldest_leasable, lease_to}
use mini_databricks.World.{World}
use mini_databricks.Worker.System.{System, set_hand, leased_tasks, PollStep, Step, Steps, IsStart}
use mini_databricks.Worker.System.Exclusive.{in_hand_exclusive}
use mini_databricks.Tests.Data.{
  worker_a, worker_b, done_task, next_task, ready_task, two_ready, env_with, flaky, exits, timeout,
  world_with,
}

abbrev worker_name : ℕ → Text
worker_name zero = worker_a
worker_name (suc n) = worker_b

abbrev at_start : System
at_start = record {
  tasks = done_task ∷ ready_task ∷ next_task ∷ [];
  next_id = 50;
  hand = λ i. none;
}

at_start-IsStart : IsStart at_start
at_start-IsStart = record {
  below = (omega arith, (omega arith, (omega arith, tt)));
  idle = λ i. refl;
}

abbrev one_leased : System
one_leased = record at_start {
  tasks = leased_tasks worker_a 100 ready_task at_start.tasks;
  hand = set_hand 0 (some (lease_to worker_a 100 ready_task)) at_start.hand;
}

abbrev two_leased : System
two_leased = record one_leased {
  tasks = leased_tasks worker_b 101 next_task one_leased.tasks;
  hand = set_hand 1 (some (lease_to worker_b 101 next_task)) one_leased.hand;
}

first_is_ready : oldest_leasable 100 at_start.tasks ≡ some ready_task
unfolding oldest_leasable
first_is_ready = refl

second_is_next : oldest_leasable 101 one_leased.tasks ≡ some next_task
unfolding oldest_leasable
second_is_next = refl

both_lease : Steps (Step worker_name) at_start two_leased
both_lease =
    Steps.later (Steps.later Steps.done (Step.polls 0 (PollStep.lease 100 refl first_is_ready)))
      (Step.polls 1 (PollStep.lease 101 refl second_is_next))

in_hand_exclusive_example :
    All
      (λ r. (r.state ≡ TaskState.leased) × (r.lease_owner ≡ some worker_a))
      (select (task_has_id 12) two_leased.tasks)
    × ((◌≡◌ {A = ℕ} 0 1) ⊎ ((12 == 13) ≡ false))
in_hand_exclusive_example =
    in_hand_exclusive {name = worker_name} {s = at_start} {v = two_leased} 0 1
      (lease_to worker_a 100 ready_task) (lease_to worker_b 101 next_task) at_start-IsStart
      both_lease refl refl

abbrev failing_world : World
failing_world = world_with (env_with flaky (exits timeout)) two_ready

abbrev idle_system : System
idle_system = record at_start { tasks = failing_world.db.tasks }
