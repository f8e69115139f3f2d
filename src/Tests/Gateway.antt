-- ===== src/Tests/Gateway.antt =====
-- Runs of the gateway, and the theorems about it at concrete requests.
use mathlib.Core.Path.{subst}
use mini_databricks.Base.{
  ◌<◌, ◌++◌, length, take, drop, lt→ltb, ℕ, sym, ◌≡◌, ◌≢◌, refl, ap, ◌⊎◌, pos, none, Option, some,
  List, if◌then◌else◌, [], ◌∷◌,
}
use mini_databricks.Base.Text.{Text, codes, same_text, decimal}
use mini_databricks.Errors.{Result, ok}
use mini_databricks.Db.{FileFormat}
use mini_databricks.World.{World, Claims}
use mini_databricks.Storage.{MinioClient}
use mini_databricks.DatasetService.Uploads.{IsUploaded, upload-IsUploaded}
use mini_databricks.Gateway.Http.{
  Method, other_method, JsonField, text, Request, Response, Reply, message, respond,
}
use mini_databricks.Gateway.Binding.{new_credentials}
use mini_databricks.Queries.Accounts.{email_is_taken}
use mini_databricks.Gateway.Tokens.{bearer}
use mini_databricks.Gateway.Serve.{Gateway, serve}
use mini_databricks.Gateway.Unauthorized.{
  Refused, AnsweredAside, IsAmong, public_requests, serve_unauthorized,
}
use mini_databricks.Gateway.Theirs.{workspaces_owned}
use mini_databricks.Gateway.Owners.{serve-SameWorkspaces}
use mini_databricks.Gateway.Session.{IsSession, serve-IsSession}
use mini_databricks.Tests.Router.{find_route, find_route-IsRouter}
use mini_databricks.Tests.Data.{
  workspace_row, quiet_db, uuid_env, flaky, world_with, limiter_of_ten,
}

abbrev minio_client : MinioClient
minio_client = record { bucket_name = codes "data" }

-- The development server may ask; its preflights are answered by 204, and other origins by 403.
abbrev cors_of : Text → Method → Option Response
cors_of origin (other_method m) = some (respond 204 Reply.empty)
cors_of origin m =
    if same_text origin (codes "http://localhost:5173")
    then none
    else some (respond 403 Reply.empty)

abbrev pub gateway : Gateway
gateway = record {
  minio = minio_client;
  limiter = limiter_of_ten;
  jwt_secret = codes "secret";
  router = find_route;
  redirect = λ req. none;
  cors = cors_of;
  metrics_page = λ req w. respond 200 (message (decimal w.metrics.tasks_dead));
}

-- Two users, and a workspace of each.
abbrev pub shared_world : World
shared_world =
    world_with (uuid_env flaky)
      (record quiet_db { workspaces = workspace_row 7 1 ∷ workspace_row 8 2 ∷ [] })

-- User 1's token, which expires at 1000.
abbrev pub token_of_user : Text
token_of_user = 6 ∷ 1000 ∷ 1 ∷ 1 ∷ codes "viewer"

abbrev pub delete_request : ℕ → Text → Request
delete_request k header = record {
  method = Method.delete;
  path = codes "api" ∷ codes "v1" ∷ codes "workspaces" ∷ (k ∷ []) ∷ [];
  query = [];
  authorization = header;
  origin = none;
  body = ok [];
  traceparent = [];
}

take-length : (s t : Text) → take (length s) (s ++ t) ≡ s
take-length [] t = refl
take-length (c ∷ s) t = ap (λ r. c ∷ r) (take-length s t)

drop-length : (s t : Text) → drop (length s) (s ++ t) ≡ t
drop-length [] t = refl
drop-length (c ∷ s) t = drop-length s t

serve_unauthorized_example :
    Refused gateway (delete_request 7 []) shared_world
    ⊎ AnsweredAside gateway (delete_request 7 []) shared_world
    ⊎ IsAmong (delete_request 7 []) public_requests
serve_unauthorized_example =
    serve_unauthorized gateway (delete_request 7 []) shared_world find_route-IsRouter
      (λ token e. cc)

-- User 1 asks for the deletion of user 2's workspace.
abbrev foreign_request : Request
foreign_request = delete_request 8 (bearer token_of_user)

abbrev one_claims : Claims
one_claims = record { user_id = 1 ∷ []; role = codes "viewer"; exp = 1000 }

only_user :
    (token : Text) (c : Claims)
    → bearer token_of_user ≡ bearer token
    → shared_world.env.read_token gateway.jwt_secret 100 token ≡ some c
    → shared_world.env.parse_uuid c.user_id ≢ ok 2
only_user token c e valid same =
    let is_token : token_of_user ≡ token = cc in
    let read : some one_claims ≡ some c = rw (sym is_token) at valid in
    let is_claims : one_claims ≡ c = cc in
    let one_two : ◌≡◌ {A = Result ℕ} (ok 1) (ok 2) =
      subst (λ k. shared_world.env.parse_uuid k.user_id ≡ ok 2) (sym is_claims) same in
    cc

serve-SameWorkspaces_example :
    workspaces_owned 2 (serve gateway foreign_request shared_world).1
    ≡ workspaces_owned 2 shared_world
serve-SameWorkspaces_example =
    serve-SameWorkspaces gateway foreign_request shared_world 2 (λ e. cc) only_user

abbrev field : Text → Text → JsonField
field name value = record { name = name; value = text value; raw = value }

abbrev pub account : List JsonField
account =
    field (codes "email") (codes "ann@example.org")
    ∷ field (codes "password") (codes "correct horse")
    ∷ []

-- The expiry stands second in a token, and the secret's length first.
token_read :
    (k : Claims) (now : ℕ)
    → now < k.exp
    → shared_world.env.read_token gateway.jwt_secret now
        (6 ∷ k.exp ∷ length k.user_id ∷ k.user_id ++ k.role)
      ≡ some k
token_read k now soon =
    rw (lt→ltb now k.exp soon, take-length k.user_id k.role, drop-length k.user_id k.role)

serve-IsSession_example : IsSession gateway none account shared_world (codes "ann@example.org")
unfolding new_credentials email_is_taken
serve-IsSession_example =
    serve-IsSession gateway none account shared_world
      {c = record { email = codes "ann@example.org"; password = codes "correct horse" }} (λ m. refl)
      find_route-IsRouter refl refl (λ k. (k ∷ codes "correct horse", refl, refl))
      (λ k. (_, refl, token_read k))

upload-IsUploaded_example :
    IsUploaded minio_client
      (5 ∷ [])
      (1 ∷ [])
      (codes "sales")
      FileFormat.csv
      shared_world
      (codes "5/100/sales.csv")
      (pos 64)
upload-IsUploaded_example =
    upload-IsUploaded minio_client (5 ∷ []) (1 ∷ []) (codes "sales") FileFormat.csv shared_world 5 1
      (codes "5/100/sales.csv") (pos 64) refl refl refl (refl, tt) refl
