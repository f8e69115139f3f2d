-- ===== src/Tests/Data.antt =====
-- The rows of one run with two tasks, and the worlds around them.
use mini_databricks.Base.{
  true, leb_ℤ, ℕ, pos, Bool, false, ◌&&◌, Option, none, some, List, [], ◌∷◌, ◌++◌, ltb, ◌==◌,
  length, take, drop, if◌then◌else◌,
}
use mini_databricks.Base.Text.{Text, codes, same_text, contains}
use mini_databricks.Errors.{GoError, plain, Result, ok, err}
use mini_databricks.Db.{
  User, UserRole, Workspace, WorkspacePlan, Db, Task, TaskState, Run, RunState, Job, JobState,
  Dataset, DatasetState, FileFormat, Outbox, OutboxStatus, Json, object,
}
use mini_databricks.JobService.{Submission}
use mini_databricks.RateLimit.{RateLimiter}
use mini_databricks.World.{World, Env, Claims, Outcome, answered, refused, lost, RunnerEnv}

abbrev pub task_row : ℕ → TaskState → ℕ → Option Text → Option ℕ → Task
task_row k s partition owner expiry = record {
  id = k;
  run_id = 20;
  workspace_id = 5;
  state = s;
  partition_index = partition;
  lease_owner = owner;
  lease_expires_at = expiry;
  retry_count = 0;
  checkpoint_path = none;
  error_message = none;
  created_at = k;
  started_at = none;
  finished_at = none;
}

abbrev pub worker_a : Text
worker_a = codes "worker-a"

abbrev pub worker_b : Text
worker_b = codes "worker-b"

abbrev pub done_task : Task
done_task = task_row 11 TaskState.succeeded 0 none none

abbrev pub ready_task : Task
ready_task = task_row 12 TaskState.pending 1 none none

abbrev pub next_task : Task
next_task = task_row 13 TaskState.pending 2 none none

abbrev pub held_task : Task
held_task = task_row 12 TaskState.leased 1 (some worker_a) (some 130)

-- A run of two tasks, one of them done.
abbrev pub run_row : Run
run_row = record {
  id = 20;
  job_id = 30;
  workspace_id = 5;
  state = RunState.submitted;
  attempt_number = 1;
  tasks_total = 2;
  tasks_done = 1;
  error_message = none;
  created_at = 1;
  started_at = none;
  finished_at = none;
  tasks_pending = pos 1;
  tasks_running = pos 0;
  tasks_failed = 0;
}

-- The same run with the second task done.
abbrev pub full_run : Run
full_run = record run_row { tasks_done = 2; tasks_pending = pos 0 }

abbrev pub job_row : Job
job_row = record {
  id = 30;
  workspace_id = 5;
  created_by = 1;
  dataset_id = 40;
  state = JobState.queued;
  entrypoint = codes "main.py";
  parameters = codes "{}";
  compute = codes "{}";
  retry_count = 0;
  max_retries = pos 3;
  idempotency_key = none;
  error_message = none;
  created_at = 1;
  started_at = none;
  finished_at = none;
}

abbrev pub dataset_row : Dataset
dataset_row = record {
  id = 40;
  workspace_id = 5;
  created_by = 1;
  name = codes "sales";
  state = DatasetState.ready;
  storage_path = some (codes "datasets/sales.csv");
  file_format = FileFormat.csv;
  size_bytes = some (pos 100);
  created_at = 1;
  updated_at = 1;
}

abbrev pub job_event : Json
job_event = object ((codes "job_id", codes "30") ∷ (codes "workspace_id", codes "5") ∷ [])

abbrev pub event_row : Outbox
event_row = record {
  id = 50;
  event_type = codes "job.submitted";
  aggregate_id = 30;
  payload = job_event;
  status = OutboxStatus.pending;
  attempts = 0;
  created_at = 1;
  published_at = none;
}

abbrev pub db_with : List Task → Run → Db
db_with tasks run = record {
  tasks = tasks;
  runs = run ∷ [];
  jobs = job_row ∷ [];
  outbox = event_row ∷ [];
  datasets = dataset_row ∷ [];
  artifacts = [];
  users = [];
  workspaces = [];
  next_id = 100;
}

-- Identifiers are printed as one code; the texts "30" and "5" are the identifiers of the event.
abbrev pub ids : Text → Result ℕ
ids (a ∷ b ∷ []) = ok 30
ids (a ∷ []) = ok 5
ids t = err (plain (codes "invalid UUID"))

abbrev pub prints : Text → ℕ → RunnerEnv → Result Text
prints t k e = ok t

abbrev pub exits : GoError → ℕ → RunnerEnv → Result Text
exits x k e = err x

-- A hash is the salt and the password.
abbrev pub matches : Text → Text → Bool
matches [] t = false
matches (k ∷ s) t = same_text s t

-- A token is the number that stands for its secret, the expiry, the length of the user and the texts.
abbrev pub signed : Text → Claims → Result Text
signed secret c = ok (length secret ∷ c.exp ∷ length c.user_id ∷ c.user_id ++ c.role)

abbrev pub read : Text → ℕ → Text → Option Claims
read secret now (s ∷ e ∷ n ∷ t) =
    if s == length secret && ltb now e
    then some (record { user_id = take n t; role = drop n t; exp = e })
    else none
read secret now _ = none

-- The tags `required`, `email` and `min=8`.
abbrev pub satisfies_tag : Text → Text → Bool
satisfies_tag tag t =
    if same_text tag (codes "required")
    then ltb 0 (length t)
    else if same_text tag (codes "email")
    then contains t (codes "@")
    else ltb 7 (length t)

abbrev pub env_with : (ℕ → Outcome) → (ℕ → RunnerEnv → Result Text) → Env
env_with outcome python = record {
  elapsed = λ k. 1;
  outcome = outcome;
  breaker = λ k. none;
  python = python;
  cluster = λ k q. ok (some 2);
  format_uuid = λ k. k ∷ [];
  parse_uuid = ids;
  json_text = λ j. [];
  hash_password = λ k t. ok (k ∷ t);
  password_matches = matches;
  sign_token = signed;
  read_token = read;
  satisfies = satisfies_tag;
  number_satisfies = λ tag n. if leb_ℤ n (pos 0) && leb_ℤ (pos 0) n then false else true;
  field_error = λ key tag. plain tag;
  upload_url = λ now bucket key. codes "put:" ++ key;
  download_url = λ now bucket key. codes "get:" ++ key;
}

-- The third call is refused, the fifth loses its answer, and the others are answered.
abbrev pub flaky : ℕ → Outcome
flaky k =
    if k == 2
    then refused (plain (codes "connection refused"))
    else if k == 4
    then lost (plain (codes "connection reset"))
    else answered

abbrev pub steady : ℕ → Outcome
steady k = answered

abbrev pub world_with : Env → Db → World
world_with env db = record {
  env = env;
  calls = 0;
  now = 100;
  db = db;
  topics = [];
  running_jobs = [];
  requests = [];
  metrics = record {
    tasks_succeeded = 0;
    tasks_failed = 0;
    tasks_dead = 0;
    runs_created = 0;
    tasks_created = 0;
    jobs_submitted = 0;
    jobs_cancelled = 0;
  };
  buckets = [];
  objects = [];
}

-- What the task runner prints: where its output is and how large it is.
abbrev pub printed : Text
printed = codes "out/part-1.csv:64"

abbrev pub timeout : GoError
timeout = plain (codes "exit status 1")

abbrev pub flaky_world : World
flaky_world =
    world_with (env_with flaky (prints printed)) (db_with (done_task ∷ ready_task ∷ []) run_row)

abbrev pub steady_world : World
steady_world =
    world_with (env_with steady (prints printed)) (db_with (done_task ∷ held_task ∷ []) run_row)

abbrev pub full_world : World
full_world =
    world_with (env_with steady (prints printed)) (db_with (done_task ∷ held_task ∷ []) full_run)

abbrev pub failing_world : World
failing_world =
    world_with (env_with steady (exits timeout)) (db_with (done_task ∷ held_task ∷ []) run_row)

abbrev pub two_ready : Db
two_ready = db_with (done_task ∷ next_task ∷ ready_task ∷ []) run_row

-- A UUID is printed as one code, and parsed from a text that starts with it.
abbrev pub uuid_of : Text → Result ℕ
uuid_of [] = err (plain (codes "invalid UUID length: 0"))
uuid_of (k ∷ t) = ok k

abbrev pub uuid_env : (ℕ → Outcome) → Env
uuid_env outcome = record (env_with outcome (prints printed)) { parse_uuid = uuid_of }

-- The user and the workspace of the submissions.
abbrev pub submitter : User
submitter = record {
  id = 1;
  email = codes "bob@example.org";
  password_hash = [];
  role = UserRole.viewer;
  created_at = 1;
}

abbrev pub workspace_row : ℕ → ℕ → Workspace
workspace_row k owner = record {
  id = k;
  owner_id = owner;
  name = codes "team";
  plan = WorkspacePlan.free;
  created_at = 1;
}

-- No event waits in the outbox.
abbrev pub quiet_db : Db
quiet_db = record (db_with (done_task ∷ ready_task ∷ []) run_row) {
  outbox = [];
  users = submitter ∷ [];
  workspaces = workspace_row 5 1 ∷ [];
}

abbrev pub quiet_world : World
quiet_world = world_with (uuid_env steady) quiet_db

abbrev pub flaky_quiet_world : World
flaky_quiet_world = world_with (uuid_env flaky) quiet_db

abbrev pub submission_for : Text → Submission
submission_for workspace = record {
  workspace_id = workspace;
  created_by = 1 ∷ [];
  dataset_id = 40 ∷ [];
  entrypoint = codes "main.py";
  parameters = codes "{}";
  compute = codes "{}";
  max_retries = pos 3;
  idempotency_key = [];
  traceparent = codes "00-trace";
}

abbrev pub limiter_of_ten : RateLimiter
limiter_of_ten = record { max_running_jobs = pos 10 }

abbrev pub closed_limiter : RateLimiter
closed_limiter = record { max_running_jobs = pos 0 }

abbrev pub cancelled_run : Run
cancelled_run = record run_row { state = RunState.cancelled }

abbrev pub cancelled_world : World
cancelled_world =
    world_with (env_with steady (prints printed))
      (db_with (done_task ∷ held_task ∷ []) cancelled_run)
