-- ===== src/World.antt =====
-- What a service can see and change, and the calls that it makes: to the database, to Kafka, to
-- Redis, to the worker's Python process. The environment decides how each call ends.
pub mod Keeps
pub mod Ends
pub mod Chains
use mini_databricks.Base.{
  ℕ, suc, ◌+◌, ℤ, Bool, true, false, Option, none, some, List, [], ◌∷◌, ◌++◌, if◌then◌else◌,
}
use mini_databricks.Base.Text.{Text}
use mini_databricks.Errors.{GoError, wrapped, Result, ok, err}
use mini_databricks.Db.{Db, Json, Uuid}

-- How a call over the network ends: it is done and answered, or refused with an error before
-- anything is done, or done with its answer lost.
pub data Outcome : Type 0 where
  answered : Outcome
  refused lost : GoError → Outcome

-- What a worker hands to the Python process, beside its own environment and MinIO settings.
pub record RunnerEnv : Type 0 where
  pub task_id : Uuid
  pub run_id : Uuid
  pub dataset_storage_path : Text
  pub partition_index : ℕ
  pub total_partitions : ℕ
  pub job_entrypoint : Text
  pub job_parameters : Text

-- The requests to the Kubernetes API that the controller makes.
pub data ClusterRequest : Type 0 where
  get_namespace create_namespace create_network_policy create_resource_quota : Text → ClusterRequest
  create_job : Text → Text → Text → Text → ℕ → ClusterRequest
  delete_job : Text → ClusterRequest
  get_deployment : ClusterRequest
  update_deployment : ℕ → ClusterRequest

-- What a token says of its bearer: `user_id` and `role` as texts, empty if the claim is none, and
-- when it expires.
pub record Claims : Type 0 where
  pub user_id : Text
  pub role : Text
  pub exp : ℕ

-- What the program does not implement. `elapsed k` and `outcome k` are the time that the k-th call
-- takes and how it ends. `breaker k` is the error with which `gobreaker` rejects a request at that
-- point, if it does. `cluster` is the Kubernetes API's answer to a request, for a deployment with its
-- number of replicas if that is set. `python` is the task runner's standard output or exit error. `format_uuid` and
-- `parse_uuid` are those of google/uuid, and `json_text` is the text of a JSON value. `hash_password k`
-- and `password_matches` are bcrypt's `GenerateFromPassword`, whose salt is another at each call, and
-- `CompareHashAndPassword`. `sign_token` and `read_token` are those of golang-jwt, for a secret: the
-- claims of a token that is valid at a time. `satisfies` and `number_satisfies` are the validator's, for a
-- `binding` tag and a value, and `field_error` is the error of a field that breaks one. `upload_url` and
-- `download_url` are MinIO's signed addresses for a bucket and a key, made at a time.
pub record Env : Type 0 where
  pub elapsed : ℕ → ℕ
  pub outcome : ℕ → Outcome
  pub breaker : ℕ → Option GoError
  pub python : ℕ → RunnerEnv → Result Text
  pub cluster : ℕ → ClusterRequest → Result (Option ℕ)
  pub format_uuid : Uuid → Text
  pub parse_uuid : Text → Result Uuid
  pub json_text : Json → Text
  pub hash_password : ℕ → Text → Result Text
  pub password_matches : Text → Text → Bool
  pub sign_token : Text → Claims → Result Text
  pub read_token : Text → ℕ → Text → Option Claims
  pub satisfies : Text → Text → Bool
  pub number_satisfies : Text → ℤ → Bool
  pub field_error : Text → Text → GoError
  pub upload_url : ℕ → Text → Text → Text
  pub download_url : ℕ → Text → Text → Text

-- A Kafka message; of the headers the program uses `traceparent` alone.
pub record Message : Type 0 where
  pub topic : Text
  pub key : Text
  pub value : Json
  pub traceparent : Option Text

-- The Prometheus counters that the services increment.
pub record Metrics : Type 0 where
  pub tasks_succeeded : ℕ
  pub tasks_failed : ℕ
  pub tasks_dead : ℕ
  pub runs_created : ℕ
  pub tasks_created : ℕ
  pub jobs_submitted : ℕ
  pub jobs_cancelled : ℕ

-- An object that MinIO holds.
pub record StoredObject : Type 0 where
  pub bucket : Text
  pub key : Text
  pub bytes : Text
  pub content_type : Text

pub record World : Type 0 where
  pub env : Env
  pub calls : ℕ
  pub now : ℕ
  pub db : Db
  pub topics : List Message
  pub running_jobs : List (Text × ℤ)
  pub requests : List ClusterRequest
  pub metrics : Metrics
  pub buckets : List Text
  pub objects : List StoredObject

abbrev pub Action : Type 0 → Type 0
Action A = World → Result A × World

abbrev pub Done : Type 0
Done = Unit {0}

module _ {A : Type 0} where
  unfoldable pub pure : A → Action A
  pure a w = (ok a, w)

  unfoldable pub raise : GoError → Action A
  raise e w = (err e, w)

  unfoldable pub from_result : Result A → Action A
  from_result r w = (r, w)

  -- The call's error as a value, for code that inspects it and goes on.
  unfoldable pub attempt : Action A → Action (Result A)
  attempt m w = let (r, w') = m w in (ok r, w')

  abbrev pub map_error : (GoError → GoError) → Result A → Result A
  map_error f (ok a) = ok a
  map_error f (err e) = err (f e)

  -- `return fmt.Errorf("…: %w", err)`
  unfoldable pub wrap : Text → Action A → Action A
  wrap m act w = let (r, w') = act w in (map_error (wrapped m) r, w')

infixl 5 ◌>>=◌ ◌>>◌
unfoldable pub bind_result : {A B : Type 0} → Result A → (A → Action B) → Action B
unfolding raise
bind_result (ok a) f = f a
bind_result (err e) f = raise e

unfoldable pub ◌>>=◌ : {A B : Type 0} → Action A → (A → Action B) → Action B
unfolding bind_result
◌>>=◌ m f w = let (r, w') = m w in bind_result r f w'

unfoldable pub ◌>>◌ : {A B : Type 0} → Action A → Action B → Action B
unfolding ◌>>=◌
m >> k = m >>= λ _. k

-- A call whose error is logged and dropped.
unfoldable pub ignore : {A : Type 0} → Action A → Action Done
ignore m w = let (r, w') = m w in (ok tt, w')

unfoldable pub gets : {A : Type 0} → (World → A) → Action A
gets f w = (ok (f w), w)

unfoldable pub modify : (World → World) → Action Done
modify f w = (ok tt, f w)

-- The call's time passes, and the next call is another.
abbrev pub tick : World → World
tick w = record w { calls = suc w.calls; now = w.now + w.env.elapsed w.calls }

-- A call over the network, by how it ends.
abbrev pub settle : {A : Type 0} → Outcome → Action A → Action A
settle answered act w = act w
settle (refused e) act w = (err e, w)
settle (lost e) act w = (err e, (act w).1)

unfoldable pub call : {A : Type 0} → Action A → Action A
call act w = settle (w.env.outcome w.calls) act (tick w)

-- A statement of the generated queries: its result and the tables after it, at the time of NOW().
abbrev pub Query : Type 0 → Type 0
Query A = ℕ → Db → Result A × Db

abbrev pub on_db : {A : Type 0} → Query A → Action A
on_db q w = let (r, db') = q w.now w.db in (r, record w { db = db' })

unfoldable pub query : {A : Type 0} → Query A → Action A
unfolding call
query q = call (on_db q)

-- `Producer.Publish`
unfoldable pub publish : Message → Action Done
unfolding call modify
publish m = call (modify (λ w. record w { topics = w.topics ++ m ∷ [] }))

-- A request to the Kubernetes API; `World` keeps those that were made.
unfoldable pub request : ClusterRequest → Action (Option ℕ)
request r w = (w.env.cluster w.calls r, record (tick w) { requests = w.requests ++ r ∷ [] })

-- `uuid.Parse` and `String()`
unfoldable pub parse_uuid : Text → Action Uuid
parse_uuid t w = (w.env.parse_uuid t, w)

-- Named on an `unfolding` line, it opens the ways to compose actions and the calls.
unfoldable pub actions : Done
unfolding pure raise from_result attempt wrap ◌>>=◌ ◌>>◌ ignore gets modify query publish request
    parse_uuid
actions = tt

-- The same world with a network on which every call is answered and no breaker is open.
abbrev pub calm : World → World
calm w = record w { env = record w.env { outcome = λ _. answered; breaker = λ _. none } }
