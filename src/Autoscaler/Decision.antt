-- ===== src/Autoscaler/Decision.antt =====
-- What an evaluation outside the cooldown decides, where the cluster answers.
use mathlib.Core.List.{append_assoc}
use mini_databricks.Base.{
  ltb, leb, ◌==◌, ◌&&◌, ℕ, ◌+◌, ◌-◌, ◌≤◌, ◌<◌, ◌≡◌, ◌∙◌, refl, sym, Bool, true, false, some, List,
  [], ◌∷◌, ◌++◌, if◌then◌else◌, arith, length, select,
}
use mathlib.Core.Path.{subst}
use mini_databricks.Errors.{Result, ok}
use mini_databricks.Db.{Timestamp}
use mini_databricks.Db.Row.{is_pending, is_leased}
use mini_databricks.World.{
  World, ClusterRequest, get_deployment, update_deployment, Action, pure, request, actions, call,
  calm, tick,
}
use mini_databricks.World.Chains.{then_ok, wrap_ok}
use mini_databricks.Queries.Tasks.{get_pending_task_count, get_running_task_count}
use mini_databricks.K8s.{get_worker_replicas, set_worker_replicas}
use mini_databricks.Autoscaler.{
  Autoscaler, scale_to, decide_scaling, wants_up, wants_down, after_cooldown, evaluate, in_cooldown,
}

abbrev pub pending_tasks : World → ℕ
pending_tasks w = length (select (λ t. is_pending t.state) w.db.tasks)

abbrev pub leased_tasks : World → ℕ
leased_tasks w = length (select (λ t. is_leased t.state) w.db.tasks)

-- One more replica, for more pending tasks than the threshold and below the maximum; one less, for no
-- more than the lower threshold, none leased, and above the minimum; otherwise none is set.
pub data Decision (a : Autoscaler) (n : ℕ) (w : World) : Result Autoscaler × World → Type 0 where
  up :
      (now : Timestamp) (v : World)
      → a.config.scale_up_threshold < pending_tasks w
      → n < a.config.max_workers
      → v.requests ≡ w.requests ++ get_deployment ∷ get_deployment ∷ update_deployment (n + 1) ∷ []
      → Decision a n w (ok (record a { last_scale_at = some now }), v)
  down :
      (now : Timestamp) (v : World)
      → pending_tasks w ≤ a.config.scale_down_threshold
      → leased_tasks w ≡ 0
      → a.config.min_workers < n
      → v.requests ≡ w.requests ++ get_deployment ∷ get_deployment ∷ update_deployment (n - 1) ∷ []
      → Decision a n w (ok (record a { last_scale_at = some now }), v)
  stay :
      (v : World)
      → ¬ ((a.config.scale_up_threshold < pending_tasks w) × (n < a.config.max_workers))
      → ¬ (
          (pending_tasks w ≤ a.config.scale_down_threshold)
          × (leased_tasks w ≡ 0)
          × (a.config.min_workers < n))
      → v.requests ≡ w.requests ++ get_deployment ∷ []
      → Decision a n w (ok a, v)

no_more :
    (low high pending n : ℕ)
    → (ltb low pending && ltb n high) ≡ false
    → ¬ ((low < pending) × (n < high))
no_more low high pending n h (many, room) = absurd (ground (arith, h, many, room))

no_fewer :
    (low least pending leased n : ℕ)
    → (leb pending low && leased == 0 && ltb least n) ≡ false
    → ¬ ((pending ≤ low) × (leased ≡ 0) × (least < n))
no_fewer low least pending leased n h (few, idle, room) =
    absurd (ground (arith, h, few, idle, room))

three :
    (rs : List ClusterRequest) (x y z : ClusterRequest)
    → ((rs ++ x ∷ []) ++ y ∷ []) ++ z ∷ [] ≡ rs ++ x ∷ y ∷ z ∷ []
three rs x y z =
    append_assoc (rs ++ x ∷ []) (y ∷ []) (z ∷ []) ∙ append_assoc rs (x ∷ []) (y ∷ z ∷ [])

module _ (a : Autoscaler) (n : ℕ) (w : World) (controller : a.has_controller ≡ true)
    (free : in_cooldown a.last_scale_at a.config.cooldown_seconds (tick (tick w)).now ≡ false)
    (answers : (k : ℕ) (q : ClusterRequest) → w.env.cluster k q ≡ ok (some n)) where
  -- The world after the two counts and the read of the replicas.
  abbrev read : World
  read = record (tick (tick (tick w))) { requests = w.requests ++ get_deployment ∷ [] }

  evaluate_reads :
      evaluate a (calm w) ≡ decide_scaling a (pending_tasks w) (leased_tasks w) n (calm read)
  unfolding evaluate after_cooldown get_worker_replicas get_pending_task_count
      get_running_task_count actions call
  evaluate_reads = rw (free, controller, answers)

  scaled : (m : ℕ) → World
  scaled m = record (tick (tick read)) {
    requests =
        ((w.requests ++ get_deployment ∷ []) ++ get_deployment ∷ []) ++ update_deployment m ∷ [];
  }

  request_answered :
      (q : ClusterRequest) (v : World)
      → v.env.cluster ≡ w.env.cluster
      → request q (calm v)
        ≡ (ok (some n), calm (record (tick v) { requests = v.requests ++ q ∷ [] }))
  unfolding request
  request_answered q v same = rw (same, answers)

  abbrev read_again : World
  read_again = record (tick read) {
    requests = (w.requests ++ get_deployment ∷ []) ++ get_deployment ∷ [];
  }

  set_runs : (m : ℕ) → set_worker_replicas m (calm read) ≡ (ok tt, calm (scaled m))
  unfolding set_worker_replicas scaled
  set_runs m =
      then_ok _ _ (calm read) (wrap_ok _ (calm read) _ (request_answered get_deployment read refl))
      ∙ then_ok _ _ (calm read_again)
          (wrap_ok _ (calm read_again) _ (request_answered (update_deployment m) read_again refl))
      ∙ done (scaled m)
    where
      done : (v : World) → pure tt (calm v) ≡ (ok tt, calm v)
      done v = unfold actions in refl

  -- The autoscaler after a change of the replicas.
  abbrev changed : Autoscaler
  changed = record a { last_scale_at = some (tick (tick read)).now }

  scale_to_runs : (m : ℕ) → scale_to a m (calm read) ≡ (ok changed, calm (scaled m))
  unfolding scale_to
  scale_to_runs m = then_ok _ _ (calm read) (set_runs m) ∙ unfold actions scaled in refl

  scaled-requests :
      (m : ℕ)
      → (calm (scaled m)).requests
        ≡ w.requests ++ get_deployment ∷ get_deployment ∷ update_deployment m ∷ []
  unfolding scaled
  scaled-requests m = three w.requests get_deployment get_deployment (update_deployment m)

  -- What is decided, for either answer to the two questions.
  abbrev choose : Bool → Bool → Action Autoscaler
  choose more fewer =
      if more then scale_to a (n + 1) else if fewer then scale_to a (n - 1) else pure a

  decided :
      (more fewer : Bool)
      → wants_up a.config (pending_tasks w) n ≡ more
      → wants_down a.config (pending_tasks w) (leased_tasks w) n ≡ fewer
      → Decision a n w (choose more fewer (calm read))
  decided true fewer m f =
      subst (Decision a n w) (sym (scale_to_runs (n + 1)))
        (up _ _ (ground (arith, m)) (ground (arith, m)) (scaled-requests (n + 1)))
  decided false true m f = subst (Decision a n w) (sym (scale_to_runs (n - 1))) (
      down _ _ (ground (arith, f)) (ground (arith, f)) (ground (arith, f))
        (scaled-requests (n - 1)))
  decided false false m f =
      unfold actions in
      stay _ (no_more a.config.scale_up_threshold a.config.max_workers (pending_tasks w) n m)
        (no_fewer a.config.scale_down_threshold a.config.min_workers (pending_tasks w)
          (leased_tasks w) n f)
        refl

  -- On a network that answers every call, with a controller, outside the cooldown, where the cluster
  -- answers that the deployment has `n` replicas: the evaluation sets one more, one less or none by
  -- the numbers of pending and leased tasks, the thresholds and the limits, and it makes no other
  -- requests than to read the deployment.
  pub evaluate-Decision : Decision a n w (evaluate a (calm w))
  unfolding decide_scaling
  evaluate-Decision = subst (Decision a n w) (sym evaluate_reads) (decided _ _ refl refl)
