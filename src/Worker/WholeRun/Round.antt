-- ===== src/Worker/WholeRun/Round.antt =====
-- One poll of a run that is under way, when its task succeeds (`pollAndProcess` of services/worker).
use mathlib.Core.Path.{subst}
use mathlib.Core.List.{Memᴰ}
use native.Mathlib.Decide.{ℕ_discrete}
use mini_databricks.Base.{
  ℕ, suc, ◌<◌, ◌≡◌, ◌∙◌, refl, sym, ap, true, false, some, All, All-update, map-update, first,
  first-update, map_option, update, update-update, inl, inr, Option-cases, ◌==◌, ==_refl, arith,
  ◌⊎◌,
}
use mini_databricks.Base.Text.{Text}
use mini_databricks.Errors.{ok}
use mini_databricks.Db.{Task, TaskState, Run, Job, Dataset, Uuid, uuid_nil}
use mini_databricks.Db.Row.{task_has_id, run_has_id, job_has_id, dataset_has_id, is_pending}
use mini_databricks.World.{World, calm, tick}
use mini_databricks.Queries.Tasks.{oldest_leasable, is_leasable, lease_to, with_state}
use mini_databricks.Queries.Jobs.{completed_job}
use mini_databricks.Queries.Runs.{completed_run}
use mini_databricks.Queries.Leasing.{oldest_leasable-none, oldest_leasable-All, All-Memᴰ}
use mini_databricks.Worker.{poll_and_process, start_task}
use mini_databricks.Worker.Leases.{LeasesSound, poll-LeasesSound}
use mini_databricks.Worker.Process.{HasInputs, runner_call, runner_input}
use mini_databricks.Worker.Completion.{HasEnded}
use mini_databricks.Worker.Finish.{
  done_run, IsFull, start_task-Finishes, start_task-tasks, start_task_open,
}
use mini_databricks.Worker.Drain.Measure.{Unique, ids_of}
use mini_databricks.Worker.Drain.Rows.{of_Memᴰ, only_row, first_only, none_leasable}
use mini_databricks.Worker.WholeRun.Pending.{pending_count, none_counted, count_none, count_taken}
use mini_databricks.Worker.WholeRun.States.{
  ExitsWell, WaitsOrDone, IsUnderWay, IsComplete, Verdict-none, none_waits,
}
use mini_databricks.Worker.WholeRun.Turn.{in_hand, leased, poll_starts}

module _ (owner : Text) (k : Uuid) (j : Job) (d : Dataset) (w : World)
    (not_nil : (k == uuid_nil) ≡ false) (well : ExitsWell w) where
  module _ (n : ℕ) {r : Run} (h : IsUnderWay k r j d (suc n) w.db) {c : Task}
      (chosen : oldest_leasable (tick w).now w.db.tasks ≡ some c) where
    present : Memᴰ c w.db.tasks × (is_leasable (tick w).now c ≡ true)
    present =
        oldest_leasable-All (λ x. Memᴰ x w.db.tasks) (tick w).now w.db.tasks
          (All-Memᴰ (λ x. Memᴰ x w.db.tasks) w.db.tasks (λ x m. m)) chosen

    waits : is_pending c.state ≡ true
    waits = ground (arith, present.1)

    of_run : c.run_id ≡ k
    of_run = (of_Memᴰ (WaitsOrDone k) w.db.tasks h.queue present.0).0 waits

    found : first (task_has_id c.id) w.db.tasks ≡ some c
    found =
        first_only (task_has_id c.id) w.db.tasks present.0 (==_refl c.id)
          (only_row w.db.tasks h.unique present.0)

    run_of_task : first (run_has_id c.run_id) w.db.runs ≡ some r
    run_of_task = subst (λ i. first (run_has_id i) w.db.runs ≡ some r) (sym of_run) h.has_run

    has_run_id : (c.run_id == uuid_nil) ≡ false
    has_run_id = subst (λ i. (i == uuid_nil) ≡ false) (sym of_run) not_nil

    abbrev task : Task
    task = in_hand owner w chosen found has_run_id run_of_task h.live

    abbrev before : World
    before = tick (leased owner w chosen found has_run_id run_of_task h.live)

    inputs : HasInputs before.db task r j d
    inputs = record { run = run_of_task; job = h.has_job; dataset = h.has_dataset }

    abbrev output : Text
    output = (well (runner_call (tick before)) (runner_input before task j d)).0

    printed : w.env.python (runner_call (tick before)) (runner_input before task j d) ≡ ok output
    printed = (well (runner_call (tick before)) (runner_input before task j d)).1

    polled : poll_and_process owner (calm w) ≡ start_task task (calm before)
    polled = poll_starts owner w chosen found has_run_id run_of_task h.live

    in_table : first (task_has_id task.id) before.db.tasks ≡ some task
    in_table =
        first-update (task_has_id c.id) (lease_to owner (tick w).now) (λ x. refl) w.db.tasks
        ∙ ap (map_option (lease_to owner (tick w).now)) found

    abbrev after : World
    after = (start_task task (calm before)).1

    abbrev ended : Task → Task
    ended x = with_state TaskState.succeeded (lease_to owner (tick w).now x)

    tasks_after : after.db.tasks ≡ update (task_has_id c.id) ended w.db.tasks
    tasks_after =
        start_task-tasks task before inputs output printed h.live in_table
        ∙ update-update (task_has_id c.id) (lease_to owner (tick w).now)
            (with_state TaskState.succeeded) (λ x. refl) w.db.tasks

    counted_after : pending_count after.db.tasks ≡ n
    counted_after =
        let one_less = count_taken ended (λ x. refl) w.db.tasks h.unique present.0 waits in
        ap pending_count tasks_after ∙ omega (arith, one_less, h.counted)

    queue_after : All (WaitsOrDone k) after.db.tasks
    queue_after = subst (All (WaitsOrDone k)) (sym tasks_after) (
        All-update (WaitsOrDone k) (task_has_id c.id) ended
          (λ x _ old. ((λ p. absurd (ground (arith, p))), λ mine. inr refl)) w.db.tasks h.queue)

    unique_after : Unique (ids_of after.db.tasks)
    unique_after =
        subst Unique
          (sym (
            ap ids_of tasks_after
            ∙ map-update (λ x. x.id) (task_has_id c.id) ended (λ x _. refl) w.db.tasks))
          h.unique

    sound_after : LeasesSound after
    sound_after = subst (λ x. LeasesSound x.1) polled (poll-LeasesSound owner (calm w) h.sound)

    abbrev counted_run : Run
    counted_run = done_run task before inputs output printed h.live

    IsComplete-after :
        IsFull task before inputs output printed h.live
        → HasEnded task counted_run j before after
        → (n ≡ 0) × IsComplete k r.tasks_total j w after
    IsComplete-after full e =
        let last : n ≡ 0 = omega (arith, full, h.total, h.no_failure) in
        (
          last,
          record {
            run = completed_run e.run_state e.run_time counted_run;
            has_run =
                subst
                  (λ i.
                    first (run_has_id i) after.db.runs
                    ≡ some (completed_run e.run_state e.run_time counted_run))
                  of_run e.run;
            state = (Verdict-none h.no_failure e.verdict).0;
            all_counted = omega (arith, h.total, last);
            tasks =
                none_waits k after.db.tasks (count_none after.db.tasks (counted_after ∙ last))
                  queue_after;
            job_time = e.job_time;
            job =
                subst
                  (λ s. first (job_has_id j.id) after.db.jobs ≡ some (completed_job s e.job_time j))
                  (Verdict-none h.no_failure e.verdict).1 e.job;
            message = e.message;
          },
        )

    open_after :
        ¬ IsFull task before inputs output printed h.live
        → first (run_has_id task.run_id) after.db.runs ≡ some counted_run
        → (0 < n) × IsUnderWay k counted_run j d n after.db
    open_after not_full same_run =
        let (same_jobs, same_datasets) =
          start_task_open task before inputs output printed h.live in_table not_full in
        (
          elim (ℕ_discrete n 0) [
            | yes last ↦ absurd (not_full (omega (arith, h.total, h.no_failure, last)))
            | no more ↦ omega (arith, more)
          ],
          record {
            has_run =
                subst (λ i. first (run_has_id i) after.db.runs ≡ some counted_run) of_run same_run;
            has_job = ap (first (job_has_id r.job_id)) same_jobs ∙ h.has_job;
            has_dataset = ap (first (dataset_has_id j.dataset_id)) same_datasets ∙ h.has_dataset;
            live = h.live;
            no_failure = h.no_failure;
            total = omega (arith, h.total);
            counted = counted_after;
            queue = queue_after;
            unique = unique_after;
            sound = sound_after;
          },
        )

    step :
        ((n ≡ 0) × IsComplete k r.tasks_total j w after)
        ⊎ ((0 < n) × IsUnderWay k counted_run j d n after.db × (after.topics ≡ w.topics))
    step = elim (start_task-Finishes task before inputs output printed h.live in_table).1.1 [
      | inl (full, e) ↦ inl (IsComplete-after full e)
      | inr (not_full, same_run, same_topics) ↦
          let (more, under_way) = open_after not_full same_run in inr (more, under_way, same_topics)
    ]

  -- After a poll the run is complete, or it is under way with one pending task less.
  abbrev pub Stepped : ℕ → ℕ → World → Type 0
  Stepped n total v =
      ((n ≡ 0) × IsComplete k total j w v)
      ⊎ ((0 < n)
          × (r : Run) × (r.tasks_total ≡ total)
          × IsUnderWay k r j d n v.db
          × (v.topics ≡ w.topics))

  pub poll-Stepped :
      (n : ℕ) {r : Run}
      → IsUnderWay k r j d (suc n) w.db
      → Stepped n r.tasks_total (poll_and_process owner (calm w)).1
  poll-Stepped n {r} h = elim (Option-cases (oldest_leasable (tick w).now w.db.tasks)) [
    | inl missed ↦
        let nothing = none_counted w.db.tasks (
          none_leasable (tick w).now w.db.tasks h.sound
            (oldest_leasable-none (tick w).now w.db.tasks missed)) in
        absurd (omega (arith, nothing, h.counted))
    | inr (c, chosen) ↦
        subst (λ x. Stepped n r.tasks_total x.1) (sym (polled n h chosen))
          (elim (step n h chosen) [
            | inl complete ↦ inl complete
            | inr (more, under_way, same_topics) ↦ inr (more, _, refl, under_way, same_topics)
          ])
  ]
