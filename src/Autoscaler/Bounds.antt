-- ===== src/Autoscaler/Bounds.antt =====
-- How far one evaluation can move the number of replicas, and when it does not move it.
use mathlib.Core.Path.{subst}
use mini_databricks.Base.{
  lt→ltb, ℕ, ◌+◌, ◌-◌, ◌≤◌, ◌<◌, ◌≡◌, refl, Option, some, [], ◌∷◌, ◌++◌, All, All-append, arith,
  Bool-cases, inl, inr, sym,
}
use mini_databricks.Base.Text.{codes}
use mini_databricks.Errors.{Result, ok, err, wrapped}
use mini_databricks.World.{
  World, Env, ClusterRequest, get_deployment, update_deployment, actions, call, calm, tick, pure,
  attempt, bind_result, map_error, ◌>>=◌,
}
use mini_databricks.World.Keeps.{
  Keeps, Keeps-pure, Keeps-if, Keeps-bind, Keeps-then, Keeps-gets, Keeps-query, Keeps-wrap,
  Keeps-request,
}
use mini_databricks.Queries.Tasks.{get_pending_task_count, get_running_task_count}
use mini_databricks.K8s.{get_worker_replicas, replicas_or_one}
use mini_databricks.Autoscaler.{
  AutoscalerConfig, Autoscaler, scale_to, decide_scaling, wants_up, wants_down, with_replicas,
  evaluate,
}

-- A request for a number of replicas is within the limits, and at most one away from `current`.
abbrev pub IsModest : AutoscalerConfig → ℕ → ClusterRequest → Type 0
IsModest c current (update_deployment n) =
    (c.min_workers ≤ n) × (n ≤ c.max_workers) × (n ≤ current + 1) × (current ≤ n + 1)
IsModest c current _ = Unit {0}

-- Whenever the deployment can be read, it has `current` replicas.
abbrev pub ReadsReplicas : ℕ → Env → Type 0
ReadsReplicas current e =
    (k : ℕ) (o : Option ℕ) → e.cluster k get_deployment ≡ ok o → replicas_or_one o ≡ current

module _ (a : Autoscaler) (current : ℕ) where
  abbrev Modest : World → Type 0
  Modest w = ReadsReplicas current w.env × All (IsModest a.config current) w.requests

  one_more :
      (q : ClusterRequest)
      → IsModest a.config current q
      → (w : World) → Modest w
      → Modest (record w { requests = w.requests ++ q ∷ [] })
  one_more q m w (e, h) = (e, All-append (IsModest a.config current) w.requests (q ∷ []) h (m, tt))

  scale-Keeps :
      (n : ℕ) → IsModest a.config current (update_deployment n) → Keeps Modest (scale_to a n)
  unfolding scale_to
  scale-Keeps n m =
      Keeps-then Modest (λ w h. h)
        (Keeps-then Modest (λ w h. h)
          (Keeps-wrap Modest (λ w h. h) _
            (Keeps-request Modest (λ w h. h) get_deployment (one_more get_deployment tt)))
          (Keeps-then Modest (λ w h. h)
            (Keeps-wrap Modest (λ w h. h) _
              (Keeps-request Modest (λ w h. h) (update_deployment n)
                (one_more (update_deployment n) m)))
            (Keeps-pure Modest (λ w h. h) tt)))
        (Keeps-bind Modest (λ w h. h) (Keeps-gets Modest (λ w h. h) _)
          λ now. Keeps-pure Modest (λ w h. h) _)

  decide-Keeps :
      (pending running : ℕ)
      → a.config.min_workers ≤ current
      → current ≤ a.config.max_workers
      → Keeps Modest (decide_scaling a pending running current)
  unfolding decide_scaling
  decide-Keeps pending running low high = elim (Bool-cases (wants_up a.config pending current)) [
    | inl up ↦ rw up (scale-Keeps (current + 1) (ground arith))
    | inr stay ↦ rw stay (elim (Bool-cases (wants_down a.config pending running current)) [
      | inl down ↦ rw down (scale-Keeps (current - 1) (ground arith))
      | inr keep ↦ rw keep (Keeps-pure Modest (λ w h. h) a)
    ])
  ]

  read-Keeps : Keeps Modest get_worker_replicas
  unfolding get_worker_replicas
  read-Keeps =
      Keeps-bind Modest (λ w h. h)
        (Keeps-wrap Modest (λ w h. h) _
          (Keeps-request Modest (λ w h. h) get_deployment (one_more get_deployment tt)))
        λ spec. Keeps-pure Modest (λ w h. h) (replicas_or_one spec)

  reads_current :
      (w : World)
      → ReadsReplicas current w.env
      → (n : ℕ) → (get_worker_replicas w).0 ≡ ok n
      → n ≡ current
  unfolding get_worker_replicas actions
  reads_current w e n h = answer (w.env.cluster w.calls get_deployment) (e w.calls) h
    where
      answer :
          (r : Result (Option ℕ))
          → ((o : Option ℕ) → r ≡ ok o → replicas_or_one o ≡ current)
          → (bind_result
              (map_error (λ x. wrapped (codes "failed to get worker deployment") x) r)
              (λ spec. pure (replicas_or_one spec))
              (record (tick w) { requests = w.requests ++ get_deployment ∷ [] })).0
            ≡ ok n
          → n ≡ current
      answer (ok o) f h = ground (arith, f o refl)
      answer (err x) f h = cc

  module _ (low : a.config.min_workers ≤ current) (high : current ≤ a.config.max_workers) where
    with_replicas-Keeps :
        (pending running : ℕ) (r : Result ℕ)
        → ((n : ℕ) → r ≡ ok n → n ≡ current)
        → Keeps Modest (with_replicas a pending running r)
    with_replicas-Keeps pending running (ok n) f =
        subst (λ k. Keeps Modest (decide_scaling a pending running k)) (sym (f n refl))
          (decide-Keeps pending running low high)
    with_replicas-Keeps pending running (err e) f = Keeps-pure Modest (λ w h. h) a

    read_and_decide :
        (pending running : ℕ)
        → Keeps Modest (attempt get_worker_replicas >>= with_replicas a pending running)
    unfolding attempt ◌>>=◌
    read_and_decide pending running = record {
      run = λ w h.
          (with_replicas-Keeps pending running (get_worker_replicas w).0 (reads_current w h.0)).run
            (get_worker_replicas w).1 (read-Keeps.run w h);
    }

    evaluate-Keeps : Keeps Modest (evaluate a)
    unfolding evaluate get_pending_task_count get_running_task_count
    evaluate-Keeps =
        Keeps-bind Modest (λ w h. h) (Keeps-query Modest (λ w h. h) _ (λ w h. h))
          λ pending.
            Keeps-bind Modest (λ w h. h) (Keeps-query Modest (λ w h. h) _ (λ w h. h))
              λ running.
                Keeps-bind Modest (λ w h. h) (Keeps-gets Modest (λ w h. h) _)
                  λ now.
                    Keeps-if Modest (λ w h. h) _ (Keeps-pure Modest (λ w h. h) a)
                      (Keeps-if Modest (λ w h. h) a.has_controller (read_and_decide pending running)
                        (Keeps-pure Modest (λ w h. h) a))

-- While the deployment has a number of replicas within the limits, however the calls end, every
-- request for a number of replicas is within the limits and at most one away after an evaluation,
-- if those before it were.
pub evaluate-IsModest :
    (a : Autoscaler) (current : ℕ) (w : World)
    → ReadsReplicas current w.env
    → a.config.min_workers ≤ current
    → current ≤ a.config.max_workers
    → All (IsModest a.config current) w.requests
    → All (IsModest a.config current) (evaluate a w).1.requests
evaluate-IsModest a current w reads low high h =
    ((evaluate-Keeps a current low high).run w (reads, h)).1

-- On a network that answers every call, an evaluation less than the cooldown after the last change
-- of the replicas asks the cluster nothing and leaves the autoscaler as it was.
pub evaluate_in_cooldown :
    (a : Autoscaler) (last : ℕ) (w : World)
    → a.last_scale_at ≡ some last
    → (tick (tick w)).now - last < a.config.cooldown_seconds
    → evaluate a (calm w) ≡ (ok a, calm (tick (tick w)))
unfolding evaluate actions call get_pending_task_count get_running_task_count
evaluate_in_cooldown a last w e h = rw (e, lt→ltb _ _ h)
