-- ===== src/Gateway/Owners.antt =====
-- Who can change a workspace (services/api-gateway with internal/service).
use mini_databricks.Base.{◌≡◌, ◌≢◌, refl, Bool, true, false, Option, none, some, List, [], inl, inr}
use mini_databricks.Base.Text.{Text}
use mini_databricks.Errors.{ok, Result-cases}
use mini_databricks.Db.{Uuid}
use mini_databricks.World.{World, Claims, Action, pure, actions, bind_result}
use mini_databricks.Gateway.Http.{Request, Response}
use mini_databricks.Gateway.Auth.{bearer_claims, continue_as, auth_middleware}
use mini_databricks.Gateway.Tokens.{bearer, bearer_claims_valid}
use mini_databricks.Gateway.Routes.{Route}
use mini_databricks.Gateway.Serve.{
  Gateway, handler_of, enter, bare_context, run_route, all_routes, serve, cors_answer,
  unless_answered, unrouted,
}
use mini_databricks.Gateway.Theirs.{View, Theirs, workspaces_owned}
use mini_databricks.Gateway.Theirs.Handlers.{handler-Theirs}

module _ (g : Gateway) (req : Request) (w : World) (o : Uuid)
    (not_empty : w.env.parse_uuid [] ≢ ok o)
    (another : (token : Text) (c : Claims)
      → req.authorization ≡ bearer token
      → w.env.read_token g.jwt_secret w.now token ≡ some c
      → w.env.parse_uuid c.user_id ≢ ok o) where
  abbrev before : View
  before = record { env = w.env; owner = o; rows = workspaces_owned o w }

  entered-Theirs :
      (r : Route) (ps : List (Text × Text)) (b : Bool)
      → Theirs before (enter g b (handler_of g r.endpoint) req (bare_context ps) w).1
  unfolding actions auth_middleware bind_result
  entered-Theirs r ps false =
      (handler-Theirs before g r.endpoint req (bare_context ps) not_empty).run w (refl, refl)
  entered-Theirs r ps true = elim (Result-cases (bearer_claims g.jwt_secret req.authorization w)) [
    | inl (e, bad) ↦ rw bad (unfold continue_as in (refl, refl))
    | inr (c, good) ↦ rw good (
        unfold continue_as in
        let (token, is_bearer, valid) = bearer_claims_valid g.jwt_secret req.authorization w good in
        (handler-Theirs before g r.endpoint req
            (record (bare_context ps) { user_id = c.user_id; role = c.role })
            (another token c is_bearer valid)).run
          w (refl, refl))
  ]

  cors-Theirs :
      (o : Option Response) (m : Action Response)
      → Theirs before (m w).1
      → Theirs before (unless_answered o m w).1
  unfolding pure
  cors-Theirs (some r) m h = (refl, refl)
  cors-Theirs none m h = h

  unrouted-Theirs : (o : Option Response) → Theirs before (unrouted g req o w).1
  unfolding pure
  unrouted-Theirs (some r) = (refl, refl)
  unrouted-Theirs none = cors-Theirs (cors_answer g req.origin req.method) _ (refl, refl)

  run_route-Theirs :
      (found : Option (Route × List (Text × Text))) → Theirs before (run_route g req found w).1
  unfolding run_route pure
  run_route-Theirs none = unrouted-Theirs (g.redirect req)
  run_route-Theirs (some (r, ps)) =
      cors-Theirs (cors_answer g req.origin req.method) _ (entered-Theirs r ps r.protected)

  -- The workspaces of an owner are the same after a request, however the calls that serve it end,
  -- unless the request has a valid token of the owner. The hypothesis on the empty text says that it
  -- is no identifier.
  pub serve-SameWorkspaces : workspaces_owned o (serve g req w).1 ≡ workspaces_owned o w
  unfolding serve
  serve-SameWorkspaces = (run_route-Theirs (g.router all_routes req.method req.path)).1
