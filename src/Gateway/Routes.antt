-- ===== src/Gateway/Routes.antt =====
-- services/api-gateway/routes/routes.go, with the routes of services/api-gateway/cmd/main.go.
use mini_databricks.Base.{Bool, true, false, Option, List, [], ◌∷◌, ◌++◌}
use mini_databricks.Base.Text.{Text, codes}
use mini_databricks.Gateway.Http.{Method}

-- The handlers, by what they do.
pub data Endpoint : Type 0 where
  health ready metrics stats : Endpoint
  register login me : Endpoint
  create_workspace list_workspaces get_workspace update_workspace delete_workspace : Endpoint
  initiate_dataset complete_dataset get_dataset list_datasets delete_dataset : Endpoint
  create_job list_jobs get_job cancel_job get_progress get_artifacts download_artifact : Endpoint

-- A pattern without its slashes; a part that starts with a colon is a parameter.
pub record Route : Type 0 where
  pub method : Method
  pub pattern : List Text
  pub protected : Bool
  pub endpoint : Endpoint

-- `r.GET`, and `auth.POST`
abbrev open_route : Method → List Text → Endpoint → Route
open_route m pattern e = record { method = m; pattern = pattern; protected = false; endpoint = e }

abbrev v1 : List Text → List Text
v1 rest = codes "api" ∷ codes "v1" ∷ rest

-- `protected.GET` and the like
abbrev row : Method → List Text → Endpoint → Method × List Text × Endpoint
row m rest e = (m, rest, e)

-- The routes of the group that uses `AuthMiddleware`.
unfoldable pub protected_group : List (Method × List Text × Endpoint) → List Route
protected_group [] = []
protected_group ((m, rest, e) ∷ rows) =
    record { method = m; pattern = v1 rest; protected = true; endpoint = e } ∷ protected_group rows

abbrev pub main_routes : List Route
main_routes =
    open_route Method.get (codes "health" ∷ []) health
    ∷ open_route Method.get (codes "ready" ∷ []) ready
    ∷ open_route Method.get (codes "metrics" ∷ []) metrics
    ∷ open_route Method.get (codes "admin" ∷ codes "stats" ∷ []) stats
    ∷ []

abbrev pub auth_routes : List Route
auth_routes =
    open_route Method.post (v1 (codes "auth" ∷ codes "register" ∷ [])) register
    ∷ open_route Method.post (v1 (codes "auth" ∷ codes "login" ∷ [])) login
    ∷ []

abbrev pub guarded_rows : List (Method × List Text × Endpoint)
guarded_rows =
    row Method.get (codes "me" ∷ []) me
    ∷ row Method.post (codes "workspaces" ∷ []) create_workspace
    ∷ row Method.get (codes "workspaces" ∷ []) list_workspaces
    ∷ row Method.get (codes "workspaces" ∷ codes ":id" ∷ []) get_workspace
    ∷ row Method.patch (codes "workspaces" ∷ codes ":id" ∷ []) update_workspace
    ∷ row Method.delete (codes "workspaces" ∷ codes ":id" ∷ []) delete_workspace
    ∷ row Method.post (codes "datasets" ∷ codes "initiate" ∷ []) initiate_dataset
    ∷ row Method.post (codes "datasets" ∷ codes ":id" ∷ codes "complete" ∷ []) complete_dataset
    ∷ row Method.get (codes "datasets" ∷ codes ":id" ∷ []) get_dataset
    ∷ row Method.get (codes "datasets" ∷ []) list_datasets
    ∷ row Method.delete (codes "datasets" ∷ codes ":id" ∷ []) delete_dataset
    ∷ row Method.post (codes "jobs" ∷ []) create_job
    ∷ row Method.get (codes "jobs" ∷ []) list_jobs
    ∷ row Method.get (codes "jobs" ∷ codes ":id" ∷ []) get_job
    ∷ row Method.post (codes "jobs" ∷ codes ":id" ∷ codes "cancel" ∷ []) cancel_job
    ∷ row Method.get (codes "jobs" ∷ codes ":id" ∷ codes "progress" ∷ []) get_progress
    ∷ row Method.get (codes "jobs" ∷ codes ":id" ∷ codes "artifacts" ∷ []) get_artifacts
    ∷ row Method.get
        (codes "jobs"
          ∷ codes ":id"
          ∷ codes "artifacts"
          ∷ codes ":artifact_id"
          ∷ codes "download"
          ∷ [])
        download_artifact
    ∷ []

-- `Setup`
abbrev pub setup_routes : List Route
setup_routes = auth_routes ++ protected_group guarded_rows

-- What gin's tree answers for routes, a method and a path: the route and its parameters.
abbrev pub Router : Type 0
Router = List Route → Method → List Text → Option (Route × List (Text × Text))
