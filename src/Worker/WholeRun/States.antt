-- ===== src/Worker/WholeRun/States.antt =====
-- A run that is under way and a run that is complete (services/worker).
use mini_databricks.Base.{
  ℕ, ◌+◌, ◌≡◌, refl, true, false, some, List, [], ◌∷◌, ◌++◌, All, first, inl, inr, arith, ◌⊎◌,
}
use mini_databricks.Base.Text.{Text}
use mini_databricks.Errors.{ok}
use mini_databricks.Db.{Db, Task, TaskState, Run, RunState, Job, JobState, Dataset, Uuid}
use mini_databricks.Db.Row.{run_has_id, job_has_id, dataset_has_id, is_pending, is_cancelled}
use mini_databricks.World.{World, RunnerEnv}
use mini_databricks.Queries.Jobs.{completed_job}
use mini_databricks.Worker.{job_completed}
use mini_databricks.Worker.Leases.{IsLeaseSound}
use mini_databricks.Worker.Completion.{Verdict, all_succeeded, some_failed}
use mini_databricks.Worker.Drain.Measure.{Unique, ids_of}
use mini_databricks.Worker.Drain.Rows.{NonePending}
use mini_databricks.Worker.WholeRun.Pending.{pending_count}

-- The Python process of every task exits well and prints something.
abbrev pub ExitsWell : World → Type 0
ExitsWell w = (i : ℕ) (e : RunnerEnv) → (output : Text) × (w.env.python i e ≡ ok output)

-- A task of the run waits or has succeeded, and no other run's task waits.
abbrev pub WaitsOrDone : Uuid → Task → Type 0
WaitsOrDone k t =
    (is_pending t.state ≡ true → t.run_id ≡ k)
    × (t.run_id ≡ k → (is_pending t.state ≡ true) ⊎ (t.state ≡ TaskState.succeeded))

-- A run with a number of pending tasks: its rows are there, it is not cancelled, none of its tasks
-- has failed, the done and the pending ones make up its total, and the queue holds its tasks only.
pub record IsUnderWay (k : Uuid) (r : Run) (j : Job) (d : Dataset) (n : ℕ) (db : Db) : Type 0 where
  pub has_run : first (run_has_id k) db.runs ≡ some r
  pub has_job : first (job_has_id r.job_id) db.jobs ≡ some j
  pub has_dataset : first (dataset_has_id j.dataset_id) db.datasets ≡ some d
  pub live : is_cancelled r.state ≡ false
  pub no_failure : r.tasks_failed ≡ 0
  pub total : r.tasks_done + n ≡ r.tasks_total
  pub counted : pending_count db.tasks ≡ n
  pub queue : All (WaitsOrDone k) db.tasks
  pub unique : Unique (ids_of db.tasks)
  pub sound : All IsLeaseSound db.tasks

-- The run has succeeded with all of its tasks, its job has succeeded, and the end is published.
pub record IsComplete (k : Uuid) (total : ℕ) (j : Job) (before after : World) : Type 0 where
  pub run : Run
  pub has_run : first (run_has_id k) after.db.runs ≡ some run
  pub state : run.state ≡ RunState.succeeded
  pub all_counted : run.tasks_done ≡ total
  pub tasks : All (λ t. t.run_id ≡ k → t.state ≡ TaskState.succeeded) after.db.tasks
  pub job_time : ℕ
  pub job :
      first (job_has_id j.id) after.db.jobs ≡ some (completed_job JobState.succeeded job_time j)
  pub message : after.topics ≡ before.topics ++ job_completed j before ∷ []

-- A run with no failed task ends well.
pub Verdict-none :
    {f : ℕ} {s : RunState} {u : JobState}
    → f ≡ 0
    → Verdict f s u
    → (s ≡ RunState.succeeded) × (u ≡ JobState.succeeded)
Verdict-none e (all_succeeded z) = (refl, refl)
Verdict-none e (some_failed p) = absurd (omega (arith, e, p))

-- With no task waiting, all tasks of the run have succeeded.
pub none_waits :
    (k : Uuid) (ts : List Task)
    → NonePending ts
    → All (WaitsOrDone k) ts
    → All (λ t. t.run_id ≡ k → t.state ≡ TaskState.succeeded) ts
none_waits k [] n q = tt
none_waits k (t ∷ ts) n q = (
  (λ mine. elim (q.0.1 mine) [ inl waits ↦ absurd (ground (arith, waits, n.0)) | inr done ↦ done ]),
  none_waits k ts n.1 q.1,
)
