-- ===== src/Scheduler/Plan.antt =====
-- A submitted job that the scheduler handles on a calm network gets a run of three tasks.
use mathlib.Core.Path.{subst}
use mathlib.Core.List.{append_assoc}
use mini_databricks.Base.{
  ℕ, ◌∙◌, pos, ◌≡◌, refl, sym, ap, Bool, none, some, [], ◌∷◌, ◌++◌, first, first-update, map_option,
}
use mini_databricks.Base.Text.{Text}
use mini_databricks.Errors.{Result, ok}
use mini_databricks.Db.{Db, Uuid, Task, TaskState, Run, RunState, Job, JobState, Json}
use mini_databricks.Db.Row.{job_has_id}
use mini_databricks.World.{World, Done, calm, actions, parse_uuid}
use mini_databricks.World.Chains.{bind_ok, wrap_ok}
use mini_databricks.Queries.Jobs.{with_job_state}
use mini_databricks.Scheduler.{
  JobSubmittedEvent, unmarshal_event, from_json, schedule, handle_job_submitted, start_workers,
}
use mini_databricks.Scheduler.Created.{
  IsNewRun, scheduled, ready, ready_run, start_workers-Keeps, start_workers_ok,
}

-- The payload names a job and a workspace.
pub record IsEvent (w : World) (payload : Json) (job workspace : Uuid) : Type 0 where
  pub event : JobSubmittedEvent
  pub parsed : unmarshal_event payload ≡ ok event
  pub job_id : w.env.parse_uuid event.job_id ≡ ok job
  pub workspace_id : w.env.parse_uuid event.workspace_id ≡ ok workspace

-- A run of three pending tasks, none of them running or done.
pub record IsPlannedRun (job workspace : Uuid) (r : Run) : Type 0 where
  pub job_id : r.job_id ≡ job
  pub workspace_id : r.workspace_id ≡ workspace
  pub state : r.state ≡ RunState.submitted
  pub total : r.tasks_total ≡ 3
  pub pending : r.tasks_pending ≡ pos 3
  pub running : r.tasks_running ≡ pos 0
  pub done : r.tasks_done ≡ 0
  pub failed : r.tasks_failed ≡ 0

pub record IsPlannedTask (r : Run) (partition : ℕ) (t : Task) : Type 0 where
  pub run_id : t.run_id ≡ r.id
  pub index : t.partition_index ≡ partition
  pub state : t.state ≡ TaskState.pending
  pub owner : t.lease_owner ≡ none
  pub retries : t.retry_count ≡ 0

-- The tables before and after the job is planned.
pub record IsPlan (job workspace : Uuid) (before after : Db) : Type 0 where
  pub run : Run
  pub planned : IsPlannedRun job workspace run
  pub runs : after.runs ≡ before.runs ++ run ∷ []
  pub task_0 : Task
  pub task_1 : Task
  pub task_2 : Task
  pub planned_0 : IsPlannedTask run 0 task_0
  pub planned_1 : IsPlannedTask run 1 task_1
  pub planned_2 : IsPlannedTask run 2 task_2
  pub tasks : after.tasks ≡ before.tasks ++ task_0 ∷ task_1 ∷ task_2 ∷ []

handled :
    (has_controller : Bool) (payload : Json) (job workspace : Uuid) (w : World)
    → (e : IsEvent w payload job workspace)
    → handle_job_submitted has_controller payload (calm w)
      ≡ schedule has_controller e.event job workspace (calm w)
unfolding handle_job_submitted
handled has_controller payload job workspace w e =
    bind_ok _ _ (calm w) (wrap_ok _ (calm w) _ event_read)
    ∙ bind_ok _ _ (calm w) (wrap_ok _ (calm w) _ (id_read e.event.job_id e.job_id))
    ∙ bind_ok _ _ (calm w) (wrap_ok _ (calm w) _ (id_read e.event.workspace_id e.workspace_id))
  where
    id_read :
        (t : Text) {k : Uuid} → w.env.parse_uuid t ≡ ok k → parse_uuid t (calm w) ≡ (ok k, calm w)
    id_read t h = unfold actions in ap (λ r. (r, calm w)) h

    event_read : from_json (unmarshal_event payload) (calm w) ≡ (ok e.event, calm w)
    event_read = unfold actions in ap (λ r. from_json r (calm w)) e.parsed

module _ (has_controller : Bool) (payload : Json) (job workspace : Uuid) (w : World) {j : Job}
    (e : IsEvent w payload job workspace) (has_job : first (job_has_id job) w.db.jobs ≡ some j)
    (new : IsNewRun w.db.next_id w.db.runs) where
  pub handled_all :
      handle_job_submitted has_controller payload (calm w)
      ≡ start_workers has_controller e.event w.db.next_id
          (calm (ready e.event job workspace w has_job new))
  handled_all =
      handled has_controller payload job workspace w e
      ∙ scheduled e.event job workspace w has_job new has_controller

  pub ready-IsPlan : IsPlan job workspace w.db (ready e.event job workspace w has_job new).db
  ready-IsPlan = record {
    run = ready_run e.event job workspace w has_job new;
    planned = record {
      job_id = refl;
      workspace_id = refl;
      state = refl;
      total = refl;
      pending = refl;
      running = refl;
      done = refl;
      failed = refl;
    };
    runs = refl;
    task_0 = _;
    task_1 = _;
    task_2 = _;
    planned_0 = record { run_id = refl; index = refl; state = refl; owner = refl; retries = refl };
    planned_1 = record { run_id = refl; index = refl; state = refl; owner = refl; retries = refl };
    planned_2 = record { run_id = refl; index = refl; state = refl; owner = refl; retries = refl };
    tasks =
        append_assoc (w.db.tasks ++ _ ∷ []) (_ ∷ []) (_ ∷ [])
        ∙ append_assoc w.db.tasks (_ ∷ []) (_ ∷ _ ∷ []);
  }

  abbrev pub IsPlanned : Result Done × World → Type 0
  IsPlanned x =
      (x.0 ≡ ok tt)
      × IsPlan job workspace w.db x.1.db
      × (first (job_has_id job) x.1.db.jobs ≡ some (with_job_state JobState.queued j))

  abbrev pub planned_db : Db
  planned_db = (ready e.event job workspace w has_job new).db

  pub job_queued : first (job_has_id job) planned_db.jobs ≡ some (with_job_state JobState.queued j)
  job_queued =
      first-update (job_has_id job) (with_job_state JobState.queued) (λ x. refl) w.db.jobs
      ∙ ap (map_option (with_job_state JobState.queued)) has_job

  workers_keep_plan :
      (v : World)
      → v.db ≡ planned_db
      → IsPlanned (start_workers has_controller e.event w.db.next_id v)
  workers_keep_plan v h =
      let same =
        (start_workers-Keeps (λ _ db _. db ≡ planned_db) has_controller e.event w.db.next_id).run v
          h in
      (
        start_workers_ok has_controller e.event w.db.next_id v,
        subst (IsPlan job workspace w.db) (sym same) ready-IsPlan,
        ap (λ db. first (job_has_id job) db.jobs) same ∙ job_queued,
      )

  -- On a network that answers every call, with a well-formed event about a job that has a row, and
  -- where no run has the next new identifier: whatever the job's state was, it is now queued, and one run of it is added with three pending
  -- tasks, for the partitions 0, 1 and 2.
  pub handle_job_submitted_plans : IsPlanned (handle_job_submitted has_controller payload (calm w))
  handle_job_submitted_plans =
      subst IsPlanned (sym handled_all)
        (workers_keep_plan (calm (ready e.event job workspace w has_job new)) refl)
