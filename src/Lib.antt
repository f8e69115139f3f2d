-- ===== src/Lib.antt =====
-- A model of the Mini-Databricks services and the theorems about it.
--
-- The program. A client registers at the API gateway, logs in, and manages workspaces and datasets.
-- It submits a job to the gateway, which writes the job and an outbox event.
-- The dispatcher (internal/kafka/dispatcher.go) publishes pending events. The scheduler
-- (services/scheduler) consumes `job.submitted`, queues the job and creates a run of three tasks.
-- Workers (services/worker) poll the tasks table, lease the oldest task that is free, run it as a
-- Python process and record how it ended; the last success ends the run and the job and publishes
-- `job.completed`. The autoscaler (services/autoscaler) changes the number of workers with the
-- number of open tasks. The services share PostgreSQL, Kafka, Redis and the Kubernetes API, and
-- nothing else.
--
-- The files, and what they model:
--   Errors           internal/errors/errors.go: `GoError` is a chain of wrapped errors.
--   Db               the rows of internal/db/generated/models.go; `Db` is the tables.
--   Queries          internal/db/generated/*.sql.go, a function per statement, by the table that
--                    it changes: Tasks, Runs, Jobs, Outbox, Files (datasets and artifacts),
--                    Accounts (users and workspaces).
--   World            what the services see: the tables, the topics, the counters in Redis, the
--                    object store, the cluster's requests, the metrics and the time. `Action A` is
--                    Go code that returns `(A, error)`: it takes a world to a result and the next
--                    world, and `>>=` returns the first error.
--   K8s              internal/k8s/controller.go
--   RateLimit        internal/ratelimit/ratelimit.go: the Redis counters of running jobs.
--   JobService       internal/service/job_service.go, and the handler of `job.completed` in
--                    services/api-gateway/cmd/main.go. `submit_job` is `CreateJob`: `create_job` is
--                    the statement.
--   Storage          internal/storage/minio.go
--   UserService, WorkspaceService, DatasetService
--                    the files of those names in internal/service. Where a method is named like the
--                    statement that it calls, the model's function has a name of its own:
--                    `CreateWorkspace` is `new_workspace_for`, `GetWorkspacesByOwner`
--                    `workspaces_of_owner`, `GetWorkspaceByID` `find_workspace`, `DeleteWorkspace`
--                    `remove_workspace`, `UpdateWorkspace` `change_workspace`, `DeleteDataset`
--                    `remove_dataset`.
--   Gateway          the HTTP gateway. Http is a request and a response, Fields and Binding the structs
--                    that bodies are bound to, Auth internal/middleware/auth.go, Users, Workspaces,
--                    Datasets and Jobs services/api-gateway/handlers, Routes
--                    services/api-gateway/routes/routes.go, and Serve how a request is served.
--   Autoscaler       services/autoscaler/cmd/autoscaler.go
--   Scheduler        services/scheduler/cmd/scheduler.go
--   Kafka            internal/kafka/{dispatcher,consumer,producer}.go
--   Worker           services/worker/cmd/worker.go; Worker/Output is the parser of the task's output and
--                    Worker/Ending the end of a run. Worker/Drain measures the attempts that the
--                    pending tasks have left. Worker/WholeRun follows a run to its end when its
--                    tasks succeed. Worker/System is several workers, their heartbeats, the scheduler
--                    and the cleanup on one tasks table: a relation whose steps are
--                    single statements, in any order.
--   Cleanup          services/cleanup/cmd/main.go
--   Pipeline         how a submission, a dispatch, the scheduler and the workers work together.
-- The other modules below these hold the proofs, named for what they prove; Base is shared.
--
-- Faults. Every statement, every message and every run of the Python process is a `call`. The
-- environment says of each call, by its number, whether it is answered, refused before it does
-- anything, or done with its answer lost, and how long it takes. A theorem that says "however its
-- calls end" is about all such environments. `calm w` is `w` with every call answered and no breaker
-- open; the theorems about a calm network say what the code does when nothing fails around it.
-- A request to the Kubernetes API is answered by the environment, and the world keeps the request.
--
-- A transaction is what its statements do to the tables, undone when one of them fails or the commit
-- is refused; a commit whose answer is lost is done.
--
-- Time and numbers. A time is a number of seconds and a counter is a natural number; the two run
-- counters that the code decrements with no test are integers. The counters of the program are
-- 32-bit integers and of 64 bits in the autoscaler; they count tasks of a run, of which the scheduler
-- creates three, and are not wrapped here. A text is the list of its bytes.
--
-- Loops. The scheduler's loop over the partitions and the consumer's loop over its attempts recurse
-- on the iterations left, three in each, as the code has them. The worker's and the
-- heartbeat's endless loops are taken for a given number of rounds, which is arbitrary in the
-- theorems, so that they speak of every moment of the loop. The dispatcher's loop recurses on the
-- list of events.
--
-- Not modelled: logs, spans, gauges and histograms; the interleaving of services on tables
-- other than the tasks; the foreign keys and NOT NULL columns of the migrations other than those that
-- the insertion of a job can break; the objects that a Kubernetes request carries beyond names and
-- numbers; start-up and configuration; of the gateway how gin splits a path and prints a value, and
-- the case of a body's field names. How gin chooses a route and redirects, what the CORS middleware
-- answers itself and the page of `/metrics` are parameters of the gateway; the circuit breaker, the
-- UUID and JSON texts, bcrypt, golang-jwt, the validator's errors, MinIO's addresses and the Python
-- process are parameters of the environment.
pub mod Base
pub mod Errors
pub mod Db
pub mod World
pub mod Queries
pub mod K8s
pub mod Autoscaler
pub mod Scheduler
pub mod RateLimit
pub mod JobService
pub mod Storage
pub mod UserService
pub mod WorkspaceService
pub mod DatasetService
pub mod Gateway
pub mod Kafka
pub mod Worker
pub mod Pipeline
pub mod Cleanup
pub mod Tests
