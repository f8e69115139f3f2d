-- ===== src/Worker/Drain/Held.antt =====
-- What the rest of a poll does to the attempts left, once it has leased a task (services/worker).
use mathlib.Core.Path.{subst}
use mini_databricks.Base.{
  first, ◌==◌, sym, ℕ, suc, ◌+◌, ◌-◌, ◌≤◌, pos, ◌≤ℤ◌, ◌≡◌, ◌∙◌, refl, Bool, true, false, List, All,
  All-update, inl, inr, Bool-cases, map-update, update, arith, if◌then◌else◌, ◌⊎◌,
}
use mini_databricks.Base.Text.{Text}
use mini_databricks.Errors.{GoError, Result, ok, err}
use mini_databricks.Db.{Task, TaskState, Job, Uuid}
use mini_databricks.Db.Row.{task_has_id, is_pending, job_has_id, run_has_id, is_cancelled}
use mini_databricks.World.{World, Action, Done, query, on_db, ignore}
use mini_databricks.World.Ends.{Ends, Ends-Keeps, Ends-bind, Ends-then, Ends-attempt, Ends-query}
use mini_databricks.World.Keeps.{Keeps, Keeps-attempt}
use mini_databricks.Queries.Tasks.{
  update_task_state, retry_task, fail_task_with_error, with_state, back_to_pending, failed_with,
}
use mini_databricks.Queries.Runs.{task_started, task_succeeded, task_failed, complete_run}
use mini_databricks.Queries.Jobs.{get_job_by_run_id, complete_job, completed_job}
use mini_databricks.Queries.Files.{create_artifact}
use mini_databricks.Worker.{
  can_retry, retry, fail_permanently, on_failure, after_process, start_task, run_leased, mark_dead,
}
use mini_databricks.Worker.Steps.{
  QuietSteps, get_state-Keeps, mark_dead-Keeps, process-Keeps, on_success-Keeps, fail-Keeps,
  started-Keeps,
}
use mini_databricks.Worker.Drain.Measure.{
  work_left, Unique, ids_of, work_left-update_out, work_left-given_back,
}
use mini_databricks.Worker.Drain.Limits.{JobsBounded, below_limit, job_bounded}

module _ (limit : ℕ) (ids : List Uuid) (unique : Unique ids) (bound : ℕ) where
  -- The attempts left are fewer than a bound.
  pub record LessRows (jobs : List Job) (tasks : List Task) : Type 0 where
    pub bounded : JobsBounded limit jobs
    pub same_ids : ids_of tasks ≡ ids
    pub work : suc (work_left limit tasks) ≤ bound

  abbrev pub Less : World → Type 0
  Less w = LessRows w.db.jobs w.db.tasks

  module _ (t : Task) where
    -- The task in hand has its first count of retries, and its attempts are taken off the bound.
    pub record InHandRows (jobs : List Job) (tasks : List Task) : Type 0 where
      pub bounded : JobsBounded limit jobs
      pub same_ids : ids_of tasks ≡ ids
      pub count : All (λ r. task_has_id t.id r ≡ true → r.retry_count ≡ t.retry_count) tasks
      pub work : work_left limit tasks + suc (limit - t.retry_count) ≤ bound

    abbrev pub InHand : World → Type 0
    InHand w = InHandRows w.db.jobs w.db.tasks

    pub InHand-Less : (w : World) → InHand w → Less w
    InHand-Less w h = record {
      bounded = h.bounded;
      same_ids = h.same_ids;
      work = omega (arith, h.work);
    }

    -- An update of a task that leaves it out of the queue.
    taken_out :
        (k : Uuid) (f : Task → Task)
        → ((r : Task) → is_pending (f r).state ≡ false)
        → ((r : Task) → (f r).id ≡ r.id)
        → ((r : Task) → (f r).retry_count ≡ r.retry_count)
        → (w : World) → InHand w
        → InHand (record w { db = record w.db { tasks = update (task_has_id k) f w.db.tasks } })
    taken_out k f out same count w h = record {
      bounded = h.bounded;
      same_ids = map-update (λ r. r.id) (task_has_id k) f (λ r _. same r) w.db.tasks ∙ h.same_ids;
      count =
          All-update _ (task_has_id k) f
            (λ r _ c e. count r ∙ c (subst (λ i. (i == t.id) ≡ true) (same r) e)) w.db.tasks
            h.count;
      work = omega (arith, h.work, work_left-update_out limit (task_has_id k) f out w.db.tasks);
    }

    finished_out :
        (s : TaskState)
        → ((s ≡ TaskState.dead) ⊎ (s ≡ TaskState.succeeded))
        → (r : Task) → is_pending (with_state s r).state ≡ false
    finished_out s e r = ground arith

    quiet_steps : QuietSteps InHand t
    unfolding update_task_state fail_task_with_error task_started task_succeeded task_failed
        complete_run complete_job create_artifact
    quiet_steps = record {
      others = record {
        timeless = λ w h. h;
        run_started = λ w h. h;
        run_succeeded = λ w h. h;
        run_failed = λ w h. h;
        artifact = λ p w h. h;
        run_completed = λ s w h. h;
        job_completes = λ k s w h. record {
          bounded =
              All-update _ (job_has_id k) (completed_job s w.now) (λ j _ b. b) w.db.jobs h.bounded;
          same_ids = h.same_ids;
          count = h.count;
          work = h.work;
        };
        published = λ m w h. h;
        counted = λ f w h. h;
      };
      state =
          λ s e w h. taken_out t.id (with_state s) (finished_out s e) (λ r. refl) (λ r. refl) w h;
      failed =
          λ m w h. taken_out t.id (failed_with m w.now) (λ r. refl) (λ r. refl) (λ r. refl) w h;
    }

    to_less : {A : Type 0} {m : Action A} → Keeps InHand m → Ends InHand m (λ r w. Less w)
    to_less {m = m} k = record { run = λ w h. InHand-Less (m w).1 (k.run w h) }

    -- The retry of a task whose count is below its job's maximum.
    given_back :
        (m : Text)
        → suc t.retry_count ≤ limit
        → (w : World) → InHand w
        → Less (on_db (retry_task t.id m) w).1
    unfolding retry_task
    given_back m below w h = record {
      bounded = h.bounded;
      same_ids =
          map-update (λ r. r.id) (task_has_id t.id) (back_to_pending m) (λ r _. refl) w.db.tasks
          ∙ h.same_ids;
      work = omega (
        arith,
        h.work,
        work_left-given_back limit t.id m t.retry_count w.db.tasks below
            (subst Unique (sym h.same_ids) unique) h.count,
      );
    }

    retry-Less : (e : GoError) → suc t.retry_count ≤ limit → Ends InHand (retry t e) (λ r w. Less w)
    unfolding retry ignore
    retry-Less e below = record {
      run = λ w h.
          (Ends-query {P = InHand} (retry_task t.id _) {Q = λ r v. Less v} (λ v g. g)
              (given_back _ below) (λ x v g. InHand-Less v g) (λ x v g. given_back _ below v g)).run
            w h;
    }

    -- The job that a worker reads is one of the table.
    abbrev Reads : Result Job → World → Type 0
    Reads r w = InHand w × ((j : Job) → r ≡ ok j → j.max_retries ≤ℤ pos limit)

    get_job-Reads : Ends InHand (query (get_job_by_run_id t.run_id)) Reads
    unfolding get_job_by_run_id
    get_job-Reads =
        Ends-query (get_job_by_run_id t.run_id) (λ w h. h)
          (λ w h. (h, job_bounded limit (first (run_has_id t.run_id) w.db.runs) w.db h.bounded))
          (λ e w h. (h, λ j x. absurd (ground arith))) (λ e w h. (h, λ j x. absurd (ground arith)))

    decided :
        (r : Result Job) (e : GoError)
        → Ends
            (Reads r)
            (if can_retry r t e then retry t e else fail_permanently t e)
            (λ r w. Less w)
    decided r e = elim (Bool-cases (can_retry r t e)) [
      | inl retries ↦
          rw retries
            (record { run = λ w h. (retry-Less e (below_limit limit t r e h.1 retries)).run w h.0 })
      | inr fails ↦
          rw fails (record { run = λ w h. (to_less (fail-Keeps InHand t quiet_steps e)).run w h.0 })
    ]

    abbrev ReadJob : Result (Result Job) → World → Type 0
    ReadJob (ok r) w = Reads r w
    ReadJob (err e) w = InHand w

    on_failure-Less : (e : GoError) → Ends InHand (on_failure t e) (λ r w. Less w)
    unfolding on_failure
    on_failure-Less e =
        Ends-bind (Ends-attempt {Q = ReadJob} get_job-Reads (λ r w h. h)) (λ r. decided r e)
          (λ x w h. InHand-Less w h)

    after_process-Less : (r : Result Done) → Ends InHand (after_process t r) (λ r w. Less w)
    after_process-Less (ok d) = to_less (on_success-Keeps InHand t quiet_steps)
    after_process-Less (err e) = on_failure-Less e

    start_task-Less : Ends InHand (start_task t) (λ r w. Less w)
    unfolding start_task
    start_task-Less =
        Ends-then (Ends-Keeps (started-Keeps InHand t quiet_steps.others))
          (λ d.
            Ends-bind
              (Ends-Keeps
                (Keeps-attempt InHand (λ w h. h) (process-Keeps InHand t quiet_steps.others)))
              after_process-Less (λ x w h. InHand-Less w h))
          (λ x w h. InHand-Less w h)

    -- However its calls end, the rest of a poll leaves fewer attempts than the bound.
    pub run_leased-Less : Ends InHand (run_leased t) (λ r w. Less w)
    unfolding run_leased
    run_leased-Less =
        Ends-bind (Ends-Keeps (get_state-Keeps InHand t quiet_steps.others))
          (λ s. by_state (is_cancelled s)) (λ x w h. InHand-Less w h)
      where
        by_state :
            (b : Bool) → Ends InHand (if b then mark_dead t else start_task t) (λ r w. Less w)
        by_state true = to_less (mark_dead-Keeps InHand t quiet_steps)
        by_state false = start_task-Less
