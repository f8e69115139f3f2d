-- ===== src/Scheduler/Created.antt =====
-- What handling a submitted job leaves in the tables.
use mini_databricks.Base.{
  ℕ, ◌∙◌, ◌≡◌, refl, Bool, true, false, some, List, [], ◌∷◌, ◌++◌, All, first, update,
  update-append, update_none, first-append_none, ==_refl,
}
use mini_databricks.Errors.{ok}
use mini_databricks.K8s.Requests.{Holds, namespace-Keeps, worker_job-Keeps}
use mini_databricks.World.Keeps.{
  Keeps, Keeps-pure, Keeps-then, Keeps-ignore, Keeps-bind, Keeps-gets,
}
use mini_databricks.Db.{Db, Uuid, Run, Job, JobState}
use mini_databricks.Db.Row.{job_has_id, run_has_id}
use mini_databricks.World.{World, Env, Message, calm, tick, actions, call, query, modify}
use mini_databricks.World.Chains.{bind_ok, then_ok, wrap_ok}
use mini_databricks.Queries.Rows.{take_id}
use mini_databricks.Queries.Tasks.{create_task, new_task}
use mini_databricks.Queries.Runs.{
  create_run, new_run, update_run_tasks_total, with_total, init_run_progress, init_progress,
}
use mini_databricks.Queries.Jobs.{update_job_state, with_job_state}
use mini_databricks.Scheduler.{
  JobSubmittedEvent, create_tasks, num_partitions, start_workers, schedule, count_run, count_tasks,
}

-- The run has no row yet.
abbrev pub IsNewRun : Uuid → List Run → Type 0
IsNewRun k rs = All (λ r. run_has_id k r ≡ false) rs

update_new :
    (k : Uuid) (f : Run → Run) (rs : List Run) (r : Run)
    → IsNewRun k rs
    → run_has_id k r ≡ true
    → update (run_has_id k) f (rs ++ r ∷ []) ≡ rs ++ f r ∷ []
update_new k f rs r new same =
    update-append (run_has_id k) f rs (r ∷ []) ∙ rw (update_none (run_has_id k) f rs new, same)

pub first_new :
    (k : Uuid) (rs : List Run) (r : Run)
    → IsNewRun k rs
    → run_has_id k r ≡ true
    → first (run_has_id k) (rs ++ r ∷ []) ≡ some r
first_new k rs r new same = first-append_none (run_has_id k) rs (r ∷ []) new ∙ rw same

pub start_workers-Keeps :
    (K : Env → Db → List Message → Type 0) (b : Bool) (e : JobSubmittedEvent) (run : Uuid)
    → Keeps (Holds K) (start_workers b e run)
unfolding start_workers
start_workers-Keeps K false e run = Keeps-pure (Holds K) (λ w h. h) tt
start_workers-Keeps K true e run =
    Keeps-then (Holds K) (λ w h. h)
      (Keeps-ignore (Holds K) (λ w h. h) (namespace-Keeps K e.workspace_id))
      (Keeps-bind (Holds K) (λ w h. h) (Keeps-gets (Holds K) (λ w h. h) _)
        λ run_id.
          Keeps-ignore (Holds K) (λ w h. h)
            (worker_job-Keeps K e.job_id e.workspace_id run_id num_partitions))

pub start_workers_ok :
    (b : Bool) (e : JobSubmittedEvent) (run : Uuid) (w : World)
    → (start_workers b e run w).0 ≡ ok tt
unfolding start_workers actions
start_workers_ok false e run w = refl
start_workers_ok true e run w = refl

module _ (event : JobSubmittedEvent) (job workspace : Uuid) (w : World) {j : Job}
    (has_job : first (job_has_id job) w.db.jobs ≡ some j)
    (new : IsNewRun w.db.next_id w.db.runs) where
  abbrev pub run_id : Uuid
  run_id = w.db.next_id

  -- The run as it is created, and as it is when its tasks are set up.
  abbrev pub fresh_run : Run
  fresh_run = new_run job workspace run_id (tick (tick w)).now

  abbrev pub ready_run : Run
  ready_run = init_progress (with_total num_partitions fresh_run)

  abbrev pub queued : World
  queued = record (tick w) {
    db = record w.db { jobs = update (job_has_id job) (with_job_state JobState.queued) w.db.jobs };
  }

  abbrev pub with_run : World
  with_run = count_run (record (tick queued) {
    db = record (take_id queued.db) { runs = w.db.runs ++ fresh_run ∷ [] };
  })

  abbrev pub one_task : ℕ → World → World
  one_task i v = record (tick v) {
    db = record (take_id v.db) {
      tasks = v.db.tasks ++ new_task run_id workspace i v.db.next_id (tick v).now ∷ [];
    };
  }

  abbrev pub with_tasks : World
  with_tasks = count_tasks (one_task 2 (one_task 1 (one_task 0 with_run)))

  abbrev pub ready : World
  ready = record (tick (tick with_tasks)) {
    db = record with_tasks.db { runs = w.db.runs ++ ready_run ∷ [] };
  }

  tasks_created :
      create_tasks num_partitions 0 run_id workspace (calm with_run)
      ≡ (ok tt, calm (one_task 2 (one_task 1 (one_task 0 with_run))))
  unfolding create_tasks actions call create_task
  tasks_created = refl

  state_set :
      query (update_job_state job JobState.queued) (calm w)
      ≡ (ok (with_job_state JobState.queued j), calm queued)
  unfolding actions call update_job_state
  state_set = rw has_job

  total_set : query (update_run_tasks_total run_id num_partitions) (calm with_tasks) ≡ (
    ok (with_total num_partitions fresh_run),
    calm (record (tick with_tasks) {
      db = record with_tasks.db { runs = w.db.runs ++ with_total num_partitions fresh_run ∷ [] };
    }),
  )
  unfolding actions call update_run_tasks_total
  total_set = rw (
    first_new run_id w.db.runs fresh_run new (==_refl run_id),
    update_new run_id (with_total num_partitions) w.db.runs fresh_run new (==_refl run_id),
  )

  progress_set :
      query (init_run_progress run_id) (
        calm (record (tick with_tasks) {
          db = record with_tasks.db {
            runs = w.db.runs ++ with_total num_partitions fresh_run ∷ [];
          };
        }))
      ≡ (ok ready_run, calm ready)
  unfolding actions call init_run_progress
  progress_set = rw (
    first_new run_id w.db.runs (with_total num_partitions fresh_run) new (==_refl run_id),
    update_new run_id init_progress w.db.runs (with_total num_partitions fresh_run) new
        (==_refl run_id),
  )

  pub scheduled :
      (has_controller : Bool)
      → schedule has_controller event job workspace (calm w)
        ≡ start_workers has_controller event run_id (calm ready)
  unfolding schedule
  scheduled has_controller =
      then_ok _ _ (calm w) (wrap_ok _ (calm w) _ state_set)
      ∙ bind_ok _ _ (calm queued) (wrap_ok _ (calm queued) _ created)
      ∙ then_ok _ _ _ counted
      ∙ then_ok _ _ (calm with_run) tasks_created
      ∙ then_ok _ _ _ tasks_counted
      ∙ then_ok _ _ (calm with_tasks) (wrap_ok _ (calm with_tasks) _ total_set)
      ∙ then_ok _ _ _ (wrap_ok _ _ _ progress_set)
    where
      created : query (create_run job workspace) (calm queued) ≡ (
        ok fresh_run,
        calm (record (tick queued) {
          db = record (take_id queued.db) { runs = w.db.runs ++ fresh_run ∷ [] };
        }),
      )
      created = unfold actions call create_run in refl

      counted :
          modify count_run (
            calm (record (tick queued) {
              db = record (take_id queued.db) { runs = w.db.runs ++ fresh_run ∷ [] };
            }))
          ≡ (ok tt, calm with_run)
      counted = unfold actions in refl

      tasks_counted :
          modify count_tasks (calm (one_task 2 (one_task 1 (one_task 0 with_run))))
          ≡ (ok tt, calm with_tasks)
      tasks_counted = unfold actions in refl
