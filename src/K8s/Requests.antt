-- ===== src/K8s/Requests.antt =====
-- The controller only makes requests: it changes no table and publishes nothing.
use mini_databricks.Base.{Option, ℕ, List}
use mini_databricks.Base.Text.{Text}
use mini_databricks.Errors.{Result, ok, err}
use mini_databricks.Db.{Db}
use mini_databricks.World.{World, Env, Message}
use mini_databricks.World.Keeps.{
  Keeps, Keeps-pure, Keeps-raise, Keeps-if, Keeps-then, Keeps-bind, Keeps-wrap, Keeps-ignore,
  Keeps-attempt, Keeps-request,
}
use mini_databricks.K8s.{
  apply_network_policy, apply_resource_quota, unless_exists, create_if_missing, ensure_namespace,
  create_worker_job, is_already_exists,
}

-- A property of the environment, the tables and the topics.
module _ (K : Env → Db → List Message → Type 0) where
  abbrev pub Holds : World → Type 0
  Holds w = K w.env w.db w.topics

  unless_exists-Keeps : (m : Text) (r : Result (Option ℕ)) → Keeps Holds (unless_exists m r)
  unless_exists-Keeps m (ok _) = Keeps-pure Holds (λ w h. h) tt
  unless_exists-Keeps m (err e) =
      Keeps-if Holds (λ w h. h) (is_already_exists e) (Keeps-pure Holds (λ w h. h) tt)
        (Keeps-raise Holds (λ w h. h) _)

  policy-Keeps : (workspace : Text) → Keeps Holds (apply_network_policy workspace)
  unfolding apply_network_policy
  policy-Keeps workspace =
      Keeps-bind Holds (λ w h. h)
        (Keeps-attempt Holds (λ w h. h) (Keeps-request Holds (λ w h. h) _ (λ w h. h)))
        (unless_exists-Keeps _)

  quota-Keeps : (workspace : Text) → Keeps Holds (apply_resource_quota workspace)
  unfolding apply_resource_quota
  quota-Keeps workspace =
      Keeps-bind Holds (λ w h. h)
        (Keeps-attempt Holds (λ w h. h) (Keeps-request Holds (λ w h. h) _ (λ w h. h)))
        (unless_exists-Keeps _)

  missing-Keeps :
      (workspace : Text) (r : Result (Option ℕ)) → Keeps Holds (create_if_missing workspace r)
  missing-Keeps workspace (ok _) = Keeps-pure Holds (λ w h. h) tt
  missing-Keeps workspace (err _) =
      Keeps-then Holds (λ w h. h)
        (Keeps-wrap Holds (λ w h. h) _ (Keeps-request Holds (λ w h. h) _ (λ w h. h)))
        (Keeps-then Holds (λ w h. h) (Keeps-ignore Holds (λ w h. h) (policy-Keeps workspace))
          (Keeps-ignore Holds (λ w h. h) (quota-Keeps workspace)))

  pub namespace-Keeps : (workspace : Text) → Keeps Holds (ensure_namespace workspace)
  unfolding ensure_namespace
  namespace-Keeps workspace =
      Keeps-bind Holds (λ w h. h)
        (Keeps-attempt Holds (λ w h. h) (Keeps-request Holds (λ w h. h) _ (λ w h. h)))
        (missing-Keeps workspace)

  pub worker_job-Keeps :
      (job workspace run : Text) (n : ℕ) → Keeps Holds (create_worker_job job workspace run n)
  unfolding create_worker_job
  worker_job-Keeps job workspace run n =
      Keeps-then Holds (λ w h. h)
        (Keeps-wrap Holds (λ w h. h) _ (Keeps-request Holds (λ w h. h) _ (λ w h. h)))
        (Keeps-pure Holds (λ w h. h) tt)
