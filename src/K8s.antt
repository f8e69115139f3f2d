-- ===== src/K8s.antt =====
-- internal/k8s/controller.go, as the requests that it makes of the Kubernetes API. Of the objects
-- that it builds, the model has what varies: names, labels and counts.
pub mod Requests
use mini_databricks.Base.{ℕ, Bool, true, false, Option, none, some, ◌∷◌, ◌++◌, take, if◌then◌else◌}
use mini_databricks.Base.Text.{Text, codes, contains}
use mini_databricks.Errors.{GoError, Result, ok, err, error_text, wrapped}
use mini_databricks.World.{
  World, Action, Done, ClusterRequest, get_namespace, create_namespace, create_network_policy,
  create_resource_quota, create_job, delete_job, get_deployment, update_deployment, request, pure,
  raise, attempt, wrap, ignore, ◌>>=◌, ◌>>◌,
}

-- `fmt.Sprintf("worker-%s", runID[:8])`
abbrev pub worker_job_name : Text → Text
worker_job_name run_id = codes "worker-" ++ take 8 run_id

abbrev pub namespace_of : Text → Text
namespace_of workspace_id = codes "workspace-" ++ take 8 workspace_id

unfoldable pub create_worker_job : Text → Text → Text → ℕ → Action Done
create_worker_job job_id workspace_id run_id workers =
    wrap (codes "failed to create k8s job")
      (request (create_job (worker_job_name run_id) job_id workspace_id run_id workers))
    >> pure tt

unfoldable pub delete_worker_job : Text → Action Done
delete_worker_job run_id =
    wrap (codes "failed to delete k8s job") (request (delete_job (worker_job_name run_id)))
    >> pure tt

-- `isAlreadyExists`
abbrev pub is_already_exists : GoError → Bool
is_already_exists e = contains (error_text e) (codes "already exists")

abbrev pub unless_exists : Text → Result (Option ℕ) → Action Done
unless_exists m (ok _) = pure tt
unless_exists m (err e) = if is_already_exists e then pure tt else raise (wrapped m e)

unfoldable pub apply_network_policy : Text → Action Done
apply_network_policy workspace_id =
    attempt (request (create_network_policy (namespace_of workspace_id)))
    >>= unless_exists (codes "failed to apply network policy")

unfoldable pub apply_resource_quota : Text → Action Done
apply_resource_quota workspace_id =
    attempt (request (create_resource_quota (namespace_of workspace_id)))
    >>= unless_exists (codes "failed to apply resource quota")

abbrev pub create_if_missing : Text → Result (Option ℕ) → Action Done
create_if_missing workspace_id (ok _) = pure tt
create_if_missing workspace_id (err _) = do
  wrap (codes "failed to create namespace") (request (create_namespace (namespace_of workspace_id)))
  ignore (apply_network_policy workspace_id)
  ignore (apply_resource_quota workspace_id)

unfoldable pub ensure_namespace : Text → Action Done
unfolding apply_network_policy apply_resource_quota
ensure_namespace workspace_id =
    attempt (request (get_namespace (namespace_of workspace_id))) >>= create_if_missing workspace_id

-- `Spec.Replicas` is a pointer: 1 where it is nil.
abbrev pub replicas_or_one : Option ℕ → ℕ
replicas_or_one none = 1
replicas_or_one (some n) = n

unfoldable pub get_worker_replicas : Action ℕ
get_worker_replicas = do
  spec ← wrap (codes "failed to get worker deployment") (request get_deployment)
  pure (replicas_or_one spec)

unfoldable pub set_worker_replicas : ℕ → Action Done
set_worker_replicas n = do
  wrap (codes "failed to get worker deployment") (request get_deployment)
  wrap (codes "failed to update worker replicas") (request (update_deployment n))
  pure tt
