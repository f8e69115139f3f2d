-- ===== src/Gateway/Http.antt =====
-- What a handler of services/api-gateway reads of a request, and what it answers.
use mini_databricks.Base.{ℕ, ℤ, Option, List, [], ◌∷◌, if◌then◌else◌}
use mini_databricks.Base.Text.{Text, same_text}
use mini_databricks.Errors.{GoError, Result, ok, err, error_text}
use mini_databricks.Db.{Uuid, UserRole, Workspace, Dataset, Job, Artifact}
use mini_databricks.Queries.Runs.{RunProgress}
use mini_databricks.World.{Env, Action, pure, gets, attempt, ◌>>=◌}

pub data Method : Type 0 where
  get post patch delete : Method
  other_method : Text → Method

-- A value in the object of a body; `other_value` is an object, an array, a Boolean or a number that
-- is no integer.
pub data JsonValue : Type 0 where
  text : Text → JsonValue
  number : ℤ → JsonValue
  null_value other_value : JsonValue

pub record JsonField : Type 0 where
  pub name : Text
  pub value : JsonValue
  pub raw : Text

-- The parts of the path between its slashes, the value of the `Authorization` header, empty if there
-- is none, the value of the `Origin` header, the fields of the body or the error of a body that is no JSON object, and the `traceparent` of the
-- request's span.
pub record Request : Type 0 where
  pub method : Method
  pub path : List Text
  pub query : List (Text × Text)
  pub authorization : Text
  pub origin : Option Text
  pub body : Result (List JsonField)
  pub traceparent : Text

-- What gin and the middleware add: the parameters of the route, and the user, empty texts if unset.
pub record Context : Type 0 where
  pub params : List (Text × Text)
  pub user_id : Text
  pub role : Text

-- `c.Param`, `c.Query`: the empty text if there is none.
abbrev pub value_at : Text → List (Text × Text) → Text
value_at key [] = []
value_at key ((k, v) ∷ rest) = if same_text k key then v else value_at key rest

-- The JSON of an answer, by what is printed.
pub data Reply : Type 0 where
  empty : Reply
  error_reply : Text → Reply
  message : Text → Reply
  status_reply : Text → Reply
  user_reply : Uuid → Text → UserRole → Reply
  token_reply : Text → Reply
  me_reply : Text → Text → Reply
  workspace_reply : Workspace → Reply
  workspaces_reply : List Workspace → Reply
  upload_reply : Dataset → Text → Reply
  dataset_reply : Dataset → Reply
  datasets_reply : List Dataset → Reply
  job_reply : Job → Reply
  jobs_reply : List Job → Reply
  progress_reply : Text → RunProgress → Reply
  artifacts_reply : List Artifact → Reply
  download_reply : Text → Reply
  stats_reply : ℕ → ℕ → Reply

pub record Response : Type 0 where
  pub status : ℕ
  pub reply : Reply

-- `c.JSON`
abbrev pub respond : ℕ → Reply → Response
respond status reply = record { status = status; reply = reply }

-- `gin.H{"error": err.Error()}`
abbrev pub failed : ℕ → GoError → Response
failed status e = respond status (error_reply (error_text e))

-- A handler: it answers, or its code panics.
abbrev pub Handler : Type 0
Handler = Request → Context → Action Response

abbrev pub answer_of : {A : Type 0} → (GoError → Response) → (A → Response) → Result A → Response
answer_of refuse done (ok a) = done a
answer_of refuse done (err e) = refuse e

-- The end of most handlers: the call of the service, `if err != nil`, and the answer.
unfoldable pub answer :
    {A : Type 0} → (GoError → Response) → (A → Response) → Action A → Action Response
answer refuse done m = do r ← attempt m; pure (answer_of refuse done r)

unfoldable pub with_bound : {A : Type 0} → Result A → (A → Action Response) → Action Response
with_bound (ok a) f = f a
with_bound (err e) f = pure (failed 400 e)

abbrev pub decoded :
    {A : Type 0} → (Env → List JsonField → Result A) → Result (List JsonField) → Env → Result A
decoded decode (err e) env = err e
decoded decode (ok fields) env = decode env fields

-- `ShouldBindJSON`, whose error is answered by 400.
unfoldable pub bind_json :
    {A : Type 0}
    → (Env → List JsonField → Result A)
    → Request
    → (A → Action Response)
    → Action Response
unfolding with_bound
bind_json decode req f = do a ← gets (λ w. decoded decode req.body w.env); with_bound a f
