-- ===== src/Autoscaler.antt =====
-- services/autoscaler/cmd/autoscaler.go. Gauges and logs are left out.
pub mod Bounds
pub mod Decision
use mini_databricks.Base.{
  ℕ, ◌+◌, ◌-◌, Bool, true, false, ◌&&◌, not, Option, none, some, ltb, leb, ◌==◌, if◌then◌else◌,
}
use mini_databricks.Errors.{Result, ok, err}
use mini_databricks.Db.{Timestamp}
use mini_databricks.World.{World, Action, pure, attempt, gets, query, ◌>>=◌, ◌>>◌}
use mini_databricks.Queries.Tasks.{get_pending_task_count, get_running_task_count}
use mini_databricks.K8s.{get_worker_replicas, set_worker_replicas}

pub record AutoscalerConfig : Type 0 where
  pub min_workers : ℕ
  pub max_workers : ℕ
  pub scale_up_threshold : ℕ
  pub scale_down_threshold : ℕ
  pub cooldown_seconds : ℕ
  pub poll_interval_seconds : ℕ

-- `last_scale_at` is `none` for Go's zero time, which lies longer back than any cooldown.
pub record Autoscaler : Type 0 where
  pub has_controller : Bool
  pub config : AutoscalerConfig
  pub last_scale_at : Option Timestamp

-- The configuration that `main` gives.
abbrev pub main_config : AutoscalerConfig
main_config = record {
  min_workers = 1;
  max_workers = 10;
  scale_up_threshold = 3;
  scale_down_threshold = 0;
  cooldown_seconds = 30;
  poll_interval_seconds = 10;
}

-- `time.Since(a.lastScaleAt) < cooldown`
abbrev pub in_cooldown : Option Timestamp → ℕ → Timestamp → Bool
in_cooldown none cooldown now = false
in_cooldown (some last) cooldown now = ltb (now - last) cooldown

abbrev pub wants_up : AutoscalerConfig → ℕ → ℕ → Bool
wants_up c pending replicas = ltb c.scale_up_threshold pending && ltb replicas c.max_workers

abbrev pub wants_down : AutoscalerConfig → ℕ → ℕ → ℕ → Bool
wants_down c pending running replicas =
    leb pending c.scale_down_threshold && running == 0 && ltb c.min_workers replicas

-- Sets the replicas and the time of the change.
unfoldable pub scale_to : Autoscaler → ℕ → Action Autoscaler
unfolding set_worker_replicas
scale_to a n = do
  set_worker_replicas n
  now ← gets (λ w. w.now)
  pure (record a { last_scale_at = some now })

unfoldable pub decide_scaling : Autoscaler → ℕ → ℕ → ℕ → Action Autoscaler
unfolding scale_to
decide_scaling a pending running replicas =
    if wants_up a.config pending replicas
    then scale_to a (replicas + 1)
    else if wants_down a.config pending running replicas
    then scale_to a (replicas - 1)
    else pure a

-- Where the replicas cannot be read the decision is only logged.
abbrev pub with_replicas : Autoscaler → ℕ → ℕ → Result ℕ → Action Autoscaler
with_replicas a pending running (ok replicas) = decide_scaling a pending running replicas
with_replicas a pending running (err e) = pure a

unfoldable pub after_cooldown : Autoscaler → ℕ → ℕ → Action Autoscaler
unfolding decide_scaling get_worker_replicas
after_cooldown a pending running =
    if a.has_controller
    then attempt get_worker_replicas >>= with_replicas a pending running
    else pure a

-- The new state of the autoscaler; on an error it is the old one.
unfoldable pub evaluate : Autoscaler → Action Autoscaler
unfolding after_cooldown
evaluate a = do
  pending ← query get_pending_task_count
  running ← query get_running_task_count
  now ← gets (λ w. w.now)
  if in_cooldown a.last_scale_at a.config.cooldown_seconds now
      then pure a
      else after_cooldown a pending running
