-- ===== src/Gateway/Serve.antt =====
-- How the gateway of services/api-gateway/cmd/main.go serves a request: its routes with the
-- middleware, and gin's `Recovery`.
use mini_databricks.Base.{ℕ, Bool, true, false, Option, none, some, List, [], ◌++◌}
use mini_databricks.Base.Text.{Text, codes}
use mini_databricks.Errors.{Result, ok, err}
use mini_databricks.World.{World, Action, pure, gets, attempt, call, query, ◌>>=◌}
use mini_databricks.Storage.{MinioClient}
use mini_databricks.RateLimit.{RateLimiter}
use mini_databricks.Queries.Tasks.{get_pending_task_count, get_running_task_count}
use mini_databricks.Gateway.Http.{
  Method, Request, Context, Response, Handler, Reply, error_reply, message, status_reply,
  stats_reply, respond, answer,
}
use mini_databricks.Gateway.Auth.{auth_middleware}
use mini_databricks.Gateway.Users.{handle_register, handle_login, handle_me}
use mini_databricks.Gateway.Workspaces.{
  handle_create_workspace, handle_get_workspace, handle_list_my_workspaces, handle_update_workspace,
  handle_delete_workspace,
}
use mini_databricks.Gateway.Datasets.{
  handle_initiate, handle_complete, handle_get_dataset, handle_list_datasets, handle_delete_dataset,
}
use mini_databricks.Gateway.Jobs.{
  handle_create_job, handle_get_job, handle_list_jobs, handle_cancel_job, handle_get_progress,
  handle_get_artifacts, handle_download_artifact,
}
use mini_databricks.Gateway.Routes.{
  Endpoint, Route, protected_group, main_routes, setup_routes, Router,
}

-- What `main` builds, and of the libraries that it uses: how gin's engine chooses among the routes, the
-- redirection with which it answers a path that differs from a route's in a slash at its end, what
-- gin-contrib/cors answers to an origin itself, if anything, and the page of promhttp.
pub record Gateway : Type 0 where
  pub minio : MinioClient
  pub limiter : RateLimiter
  pub jwt_secret : Text
  pub router : Router
  pub redirect : Request → Option Response
  pub cors : Text → Method → Option Response
  pub metrics_page : Request → World → Response

unfoldable pub handle_health : Handler
handle_health req ctx = pure (respond 200 (status_reply (codes "ok")))

-- `pool.Ping`
unfoldable pub handle_ready : Handler
handle_ready req ctx =
    answer (λ e. respond 503 (error_reply (codes "database unreachable")))
      (λ d. respond 200 (status_reply (codes "ready"))) (call (pure tt))

-- `promhttp.Handler`
unfoldable pub handle_metrics : (Request → World → Response) → Handler
handle_metrics page req ctx = gets (page req)

-- The errors of the two queries are dropped.
abbrev pub count_or_zero : Result ℕ → ℕ
count_or_zero (ok n) = n
count_or_zero (err e) = 0

unfoldable pub handle_stats : Handler
handle_stats req ctx = do
  pending ← attempt (query get_pending_task_count)
  running ← attempt (query get_running_task_count)
  pure (respond 200 (stats_reply (count_or_zero pending) (count_or_zero running)))

unfoldable pub handler_of : Gateway → Endpoint → Handler
handler_of g Endpoint.health = handle_health
handler_of g Endpoint.ready = handle_ready
handler_of g Endpoint.metrics = handle_metrics g.metrics_page
handler_of g Endpoint.stats = handle_stats
handler_of g Endpoint.register = handle_register
handler_of g Endpoint.login = handle_login g.jwt_secret
handler_of g Endpoint.me = handle_me
handler_of g Endpoint.create_workspace = handle_create_workspace
handler_of g Endpoint.list_workspaces = handle_list_my_workspaces
handler_of g Endpoint.get_workspace = handle_get_workspace
handler_of g Endpoint.update_workspace = handle_update_workspace
handler_of g Endpoint.delete_workspace = handle_delete_workspace
handler_of g Endpoint.initiate_dataset = handle_initiate g.minio
handler_of g Endpoint.complete_dataset = handle_complete
handler_of g Endpoint.get_dataset = handle_get_dataset
handler_of g Endpoint.list_datasets = handle_list_datasets
handler_of g Endpoint.delete_dataset = handle_delete_dataset
handler_of g Endpoint.create_job = handle_create_job g.limiter
handler_of g Endpoint.list_jobs = handle_list_jobs
handler_of g Endpoint.get_job = handle_get_job
handler_of g Endpoint.cancel_job = handle_cancel_job
handler_of g Endpoint.get_progress = handle_get_progress
handler_of g Endpoint.get_artifacts = handle_get_artifacts
handler_of g Endpoint.download_artifact = handle_download_artifact g.minio

abbrev pub bare_context : List (Text × Text) → Context
bare_context ps = record { params = ps; user_id = []; role = [] }

-- The middleware of a route's group, and then its handler.
abbrev pub enter : Gateway → Bool → Handler → Request → Context → Action Response
enter g true h req ctx = auth_middleware g.jwt_secret req.authorization (h req) ctx
enter g false h req ctx = h req ctx

-- `Recovery`: a panic is answered by 500.
abbrev pub recovered : Result Response → Response
recovered (ok r) = r
recovered (err e) = respond 500 Reply.empty

-- gin's answer, a plain text
abbrev pub not_found : Response
not_found = respond 404 (message (codes "404 page not found"))

-- `cors.New`: a request without an `Origin` header is no matter of CORS.
abbrev pub cors_answer : Gateway → Option Text → Method → Option Response
cors_answer g none m = none
cors_answer g (some origin) m = g.cors origin m

-- The middleware answers itself, or goes on to the handlers.
abbrev pub unless_answered : Option Response → Action Response → Action Response
unless_answered (some r) m = pure r
unless_answered none m = m

abbrev pub after_cors : Gateway → Request → Action Response → Action Response
after_cors g req m = unless_answered (cors_answer g req.origin req.method) m

-- gin redirects before it runs any middleware.
abbrev pub unrouted : Gateway → Request → Option Response → Action Response
unrouted g req (some r) = pure r
unrouted g req none = after_cors g req (pure not_found)

unfoldable pub run_route : Gateway → Request → Option (Route × List (Text × Text)) → Action Response
unfolding handler_of
run_route g req none = unrouted g req (g.redirect req)
run_route g req (some (r, ps)) =
    after_cors g req (enter g r.protected (handler_of g r.endpoint) req (bare_context ps))

abbrev pub all_routes : List Route
all_routes = main_routes ++ setup_routes

-- A request is always answered.
unfoldable pub serve : Gateway → Request → World → Response × World
unfolding run_route protected_group
serve g req w =
    let (r, v) = run_route g req (g.router all_routes req.method req.path) w in (recovered r, v)
