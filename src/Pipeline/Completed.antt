-- ===== src/Pipeline/Completed.antt =====
-- A job from the scheduler (services/scheduler) through the workers (services/worker) to its end.
use mathlib.Core.Path.{subst}
use mathlib.Core.List.{append_assoc}
use mini_databricks.Base.{
  ℕ, suc, ◌<◌, ◌≡◌, ◌∙◌, refl, sym, ap, Bool, true, false, some, List, [], ◌∷◌, ◌++◌, All,
  All-append, inl, first, ==_refl, ◌==◌, arith,
}
use mini_databricks.Base.Text.{Text}
use mini_databricks.Db.{Db, Task, Run, Job, JobState, Dataset, Uuid, uuid_nil, Json}
use mini_databricks.Db.Row.{job_has_id, dataset_has_id}
use mini_databricks.World.{World, Env, Message, calm, tick}
use mini_databricks.Queries.Tasks.{new_task}
use mini_databricks.Queries.Jobs.{with_job_state}
use mini_databricks.Scheduler.{handle_job_submitted}
use mini_databricks.Scheduler.Created.{
  IsNewRun, ready, ready_run, with_run, first_new, start_workers-Keeps,
}
use mini_databricks.Scheduler.Plan.{IsEvent, handled_all, job_queued}
use mini_databricks.Worker.{poll_rounds, job_completed}
use mini_databricks.Worker.Leases.{IsLeaseSound}
use mini_databricks.Worker.Drain.Measure.{Unique, ids_of}
use mini_databricks.Worker.Drain.Rows.{NonePending}
use mini_databricks.Worker.WholeRun.Pending.{pending_count, none_counted}
use mini_databricks.Worker.WholeRun.States.{ExitsWell, WaitsOrDone, IsUnderWay, IsComplete}
use mini_databricks.Worker.WholeRun.Rounds.{moved, poll_rounds-IsComplete}
use mini_databricks.Pipeline.Queue.{pending_count-append, Unique-append}

-- No task is pending, and the identifiers to come are new.
pub record IsIdle (db : Db) : Type 0 where
  pub not_nil : (db.next_id == uuid_nil) ≡ false
  pub new_run : IsNewRun db.next_id db.runs
  pub no_pending : NonePending db.tasks
  pub below : All (λ t. t.id < db.next_id) db.tasks
  pub not_of_run : All (λ t. (t.run_id == db.next_id) ≡ false) db.tasks
  pub unique : Unique (ids_of db.tasks)
  pub sound : All IsLeaseSound db.tasks

old_done :
    (k : Uuid) (ts : List Task)
    → NonePending ts
    → All (λ t. (t.run_id == k) ≡ false) ts
    → All (WaitsOrDone k) ts
old_done k [] n o = tt
old_done k (t ∷ ts) n o = (
  ((λ waits. absurd (ground (arith, waits, n.0))), λ mine. absurd (ground (arith, mine, o.0))),
  old_done k ts n.1 o.1,
)

module _ (payload : Json) (job workspace : Uuid) (w : World) {j : Job} {d : Dataset}
    (e : IsEvent w payload job workspace) (has_job : first (job_has_id job) w.db.jobs ≡ some j)
    (has_dataset : first (dataset_has_id j.dataset_id) w.db.datasets ≡ some d)
    (idle : IsIdle w.db) where
  abbrev planned : World
  planned = ready e.event job workspace w has_job idle.new_run

  abbrev run : Run
  run = ready_run e.event job workspace w has_job idle.new_run

  abbrev queued_job : Job
  queued_job = with_job_state JobState.queued j

  abbrev before_tasks : World
  before_tasks = with_run e.event job workspace w has_job idle.new_run

  abbrev nth_task : ℕ → Uuid → ℕ → Task
  nth_task i k now = new_task w.db.next_id workspace i k now

  abbrev new_tasks : List Task
  new_tasks =
      nth_task 0 (suc w.db.next_id) (tick before_tasks).now
      ∷ nth_task 1 (suc (suc w.db.next_id)) (tick (tick before_tasks)).now
      ∷ nth_task 2 (suc (suc (suc w.db.next_id))) (tick (tick (tick before_tasks))).now
      ∷ []

  all_tasks : planned.db.tasks ≡ w.db.tasks ++ new_tasks
  all_tasks =
      append_assoc (w.db.tasks ++ _ ∷ []) (_ ∷ []) (_ ∷ [])
      ∙ append_assoc w.db.tasks (_ ∷ []) (_ ∷ _ ∷ [])

  sound_new : (i k now : ℕ) → IsLeaseSound (nth_task i k now)
  sound_new i k now = ground arith

  three_counted : pending_count new_tasks ≡ 3
  unfolding pending_count
  three_counted = omega arith

  under_way : IsUnderWay w.db.next_id run queued_job d 3 planned.db
  under_way = record {
    has_run = first_new w.db.next_id w.db.runs run idle.new_run (==_refl w.db.next_id);
    has_job = job_queued true payload job workspace w e has_job idle.new_run;
    has_dataset = has_dataset;
    live = refl;
    no_failure = refl;
    total = refl;
    counted =
        ap pending_count all_tasks
        ∙ pending_count-append w.db.tasks new_tasks
        ∙ omega (arith, none_counted w.db.tasks idle.no_pending, three_counted);
    queue = subst (All (WaitsOrDone w.db.next_id)) (sym all_tasks) (
        All-append _ w.db.tasks new_tasks
          (old_done w.db.next_id w.db.tasks idle.no_pending idle.not_of_run)
          (
            ((λ p. refl), λ m. inl refl),
            (((λ p. refl), λ m. inl refl), (((λ p. refl), λ m. inl refl), tt)),
          ));
    unique =
        subst (λ ts. Unique (ids_of ts)) (sym all_tasks)
          (Unique-append w.db.next_id w.db.tasks new_tasks idle.unique idle.below
            ((ground arith, (ground arith, tt)), ((ground arith, tt), (tt, tt)))
            (omega arith, (omega arith, (omega arith, tt))));
    sound = subst (All IsLeaseSound) (sym all_tasks) (
        All-append _ w.db.tasks new_tasks idle.sound
          (sound_new _ _ _, (sound_new _ _ _, (sound_new _ _ _, tt))));
  }

  module _ (has_controller : Bool) where
    abbrev pub handled : World
    handled = (handle_job_submitted has_controller payload (calm w)).1

    abbrev IsPlanned : Env → Db → List Message → Type 0
    IsPlanned env db topics = (env ≡ (calm w).env) × (db ≡ planned.db) × (topics ≡ w.topics)

    handled-IsPlanned : IsPlanned handled.env handled.db handled.topics
    handled-IsPlanned =
        subst (λ x. IsPlanned x.1.env x.1.db x.1.topics)
          (sym (handled_all has_controller payload job workspace w e has_job idle.new_run))
          ((start_workers-Keeps IsPlanned has_controller e.event w.db.next_id).run (calm planned)
            (refl, refl, refl))

    -- On a network that answers every call, for a well-formed event about a job that has a row and a
    -- dataset, when no task is pending, the identifiers to come are new and the Python process of
    -- every task exits well: once the scheduler's handler has planned the job, three polls of a
    -- worker complete its run. All of its tasks have succeeded and are counted, the run and the job
    -- have succeeded, and one `job.completed` message about the job is published.
    pub planned_job-IsComplete :
        (owner : Text)
        → ExitsWell w
        → IsComplete w.db.next_id 3
            (with_job_state JobState.queued j)
            w
            (poll_rounds 3 owner (calm handled)).1
    planned_job-IsComplete owner well =
        let (same_env, same_db, same_topics) = handled-IsPlanned in
        moved w.db.next_id 3 queued_job w handled (poll_rounds 3 owner (calm handled)).1
          (ap (λ env. job_completed queued_job (record w { env = env })) same_env) same_topics
          (poll_rounds-IsComplete owner w.db.next_id run queued_job d 3 handled idle.not_nil
            (subst (λ env. ExitsWell (record w { env = env })) (sym same_env) well) (omega arith)
            (subst (λ db. IsUnderWay w.db.next_id run queued_job d 3 db) (sym same_db) under_way))
