-- ===== src/Worker/Completion.antt =====
-- `checkAndCompleteRun` on a calm network: when it ends a run, and how.
use mathlib.Core.Path.{subst}
use native.Mathlib.Decide.{ℕ_discrete}
use mini_databricks.Base.{
  ℕ, ◌+◌, sym, eq→==, ne→==, ◌∙◌, ◌<◌, ◌≡◌, ◌≢◌, refl, some, [], ◌∷◌, ◌++◌, first, first-update,
  map_option, update, if◌then◌else◌, arith, ap, ltb, Bool-cases, ◌⊎◌, inl, inr,
}
use mini_databricks.Errors.{ok}
use mini_databricks.Db.{Task, Run, RunState, Job, JobState}
use mini_databricks.Db.Keys.{job_found_again}
use mini_databricks.Db.Row.{run_has_id, job_has_id}
use mini_databricks.Queries.Runs.{progress_of, get_run_progress, complete_run, completed_run}
use mini_databricks.Queries.Jobs.{get_job_by_run_id, complete_job, completed_job}
use mini_databricks.World.{World, calm, tick, actions, call, query, pure}
use mini_databricks.World.Chains.{bind_ok, then_ok, wrap_ok}
use mini_databricks.Worker.{
  check_and_complete_run, complete, announce, all_done, final_run_state, final_job_state,
  job_completed,
}

-- How a run with this many failed tasks ends, as a run and as a job.
pub data Verdict (failures : ℕ) : RunState → JobState → Type 0 where
  all_succeeded : failures ≡ 0 → Verdict failures RunState.succeeded JobState.succeeded
  some_failed : 0 < failures → Verdict failures RunState.failed JobState.failed

Verdict-of :
    (f : ℕ)
    → Verdict f
        (if ltb 0 f then RunState.failed else RunState.succeeded)
        (if ltb 0 f then JobState.failed else JobState.succeeded)
Verdict-of f = elim (Bool-cases (ltb 0 f)) [
  | inl some_failures ↦ rw some_failures (some_failed (ground arith))
  | inr no_failure ↦ rw no_failure (all_succeeded (ground arith))
]

-- The run and its job have ended between the two worlds, and the job's end is published.
pub record HasEnded (task : Task) (r : Run) (j : Job) (before after : World) : Type 0 where
  pub run_state : RunState
  pub job_state : JobState
  pub verdict : Verdict r.tasks_failed run_state job_state
  pub run_time : ℕ
  pub job_time : ℕ
  pub run : first (run_has_id task.run_id) after.db.runs ≡ some (completed_run run_state run_time r)
  pub job : first (job_has_id j.id) after.db.jobs ≡ some (completed_job job_state job_time j)
  pub message : after.topics ≡ before.topics ++ job_completed j before ∷ []

-- An end between two worlds is one between two others with the same topics, tables and names.
pub HasEnded-moved :
    (task : Task) (r : Run) (j : Job) (before after before' after' : World)
    → before'.topics ≡ before.topics
    → job_completed j before' ≡ job_completed j before
    → after'.db ≡ after.db
    → after'.topics ≡ after.topics
    → HasEnded task r j before after
    → HasEnded task r j before' after'
HasEnded-moved task r j before after before' after' b m d a h = record {
  run_state = h.run_state;
  job_state = h.job_state;
  verdict = h.verdict;
  run_time = h.run_time;
  job_time = h.job_time;
  run = ap (λ db. first (run_has_id task.run_id) db.runs) d ∙ h.run;
  job = ap (λ db. first (job_has_id j.id) db.jobs) d ∙ h.job;
  message = rw (a, b, m) h.message;
}

module _ (task : Task) (w : World) {r : Run}
    (has_run : first (run_has_id task.run_id) w.db.runs ≡ some r) where
  progress_read :
      query (get_run_progress task.run_id) (calm w) ≡ (ok (progress_of r), tick (calm w))
  unfolding actions call get_run_progress
  progress_read = rw has_run

  checked :
      check_and_complete_run task (calm w)
      ≡ (if all_done (progress_of r) then complete task (progress_of r) else pure tt)
          (calm (tick w))
  unfolding check_and_complete_run
  checked = bind_ok _ _ (calm w) (wrap_ok _ (calm w) _ progress_read)

  -- The tables and topics after a completed run.
  abbrev run_ended : World → World
  run_ended v = record (tick v) {
    db = record v.db {
      runs =
          update (run_has_id task.run_id)
            (completed_run (final_run_state (progress_of r)) (tick v).now) v.db.runs;
    };
  }

  abbrev job_ended : Job → World → World
  job_ended j v = record (tick v) {
    db = record v.db {
      jobs =
          update (job_has_id j.id) (completed_job (final_job_state (progress_of r)) (tick v).now)
            v.db.jobs;
    };
  }

  abbrev announced : Job → World → World
  announced j v = record (tick v) { topics = v.topics ++ job_completed j v ∷ [] }

  abbrev ended : Job → World
  ended j = announced j (job_ended j (tick (run_ended (tick w))))

  completes :
      {j : Job}
      → first (job_has_id r.job_id) w.db.jobs ≡ some j
      → complete task (progress_of r) (calm (tick w)) ≡ (ok tt, calm (ended j))
  unfolding complete
  completes {j} has_job =
      then_ok _ _ (calm (tick w)) (wrap_ok _ (calm (tick w)) _ run_done)
      ∙ bind_ok _ _ (calm (run_ended (tick w))) (wrap_ok _ _ _ job_read)
      ∙ then_ok _ _ _ (wrap_ok _ (calm (tick (run_ended (tick w)))) _ job_done)
      ∙ told
    where
      run_done :
          query (complete_run task.run_id (final_run_state (progress_of r))) (calm (tick w)) ≡ (
            ok (completed_run (final_run_state (progress_of r)) (tick (tick w)).now r),
            calm (run_ended (tick w)),
          )
      run_done = unfold actions call complete_run in rw has_run

      same_run :
          first (run_has_id task.run_id) (run_ended (tick w)).db.runs
          ≡ some (completed_run (final_run_state (progress_of r)) (tick (tick w)).now r)
      same_run =
          first-update (run_has_id task.run_id)
            (completed_run (final_run_state (progress_of r)) (tick (tick w)).now) (λ x. refl)
            w.db.runs
          ∙ ap (map_option (completed_run (final_run_state (progress_of r)) (tick (tick w)).now))
              has_run

      job_read :
          query (get_job_by_run_id task.run_id) (calm (run_ended (tick w)))
          ≡ (ok j, calm (tick (run_ended (tick w))))
      job_read = unfold actions call get_job_by_run_id in rw (same_run, has_job)

      job_done :
          query
            (complete_job j.id (final_job_state (progress_of r)))
            (calm (tick (run_ended (tick w))))
          ≡ (
            ok (
                completed_job
                  (final_job_state (progress_of r))
                  (tick (tick (run_ended (tick w)))).now
                  j),
            calm (job_ended j (tick (run_ended (tick w)))),
          )
      job_done = unfold actions call complete_job in rw (job_found_again r.job_id w.db.jobs has_job)

      told : announce j (calm (job_ended j (tick (run_ended (tick w))))) ≡ (ok tt, calm (ended j))
      told = unfold announce actions call in refl

  when_full :
      r.tasks_done + r.tasks_failed ≡ r.tasks_total
      → (if all_done (progress_of r) then complete task (progress_of r) else pure tt)
          (calm (tick w))
        ≡ complete task (progress_of r) (calm (tick w))
  unfolding progress_of
  when_full e = rw (eq→== _ _ e)

  when_open :
      r.tasks_done + r.tasks_failed ≢ r.tasks_total
      → (if all_done (progress_of r) then complete task (progress_of r) else pure tt)
          (calm (tick w))
        ≡ (ok tt, calm (tick w))
  unfolding progress_of actions
  when_open n = rw (ne→== _ _ n)

  has_ended :
      {j : Job}
      → first (job_has_id r.job_id) w.db.jobs ≡ some j
      → HasEnded task r j w (calm (ended j))
  unfolding progress_of
  has_ended {j} has_job = record {
    run_state = final_run_state (progress_of r);
    job_state = final_job_state (progress_of r);
    verdict = Verdict-of r.tasks_failed;
    run_time = _;
    job_time = _;
    run =
        first-update (run_has_id task.run_id) (completed_run _ _) (λ x. refl) w.db.runs
        ∙ ap (map_option (completed_run _ _)) has_run;
    job =
        first-update (job_has_id j.id) (completed_job _ _) (λ x. refl) w.db.jobs
        ∙ ap (map_option (completed_job _ _)) (job_found_again r.job_id w.db.jobs has_job);
    message = refl;
  }

  -- On a network that answers every call, with the rows of the run and of its job there: if the
  -- done and the failed tasks make up the total, the run ends, as failed if a task has failed and
  -- as succeeded if none has, its job ends the same way, and one `job.completed` message about the
  -- job is published; otherwise no table and no topic changes.
  pub check_and_complete_run_lem :
      {j : Job}
      → first (job_has_id r.job_id) w.db.jobs ≡ some j
      → let w' = (check_and_complete_run task (calm w)).1 in
        ((r.tasks_done + r.tasks_failed ≡ r.tasks_total) × HasEnded task r j w w')
        ⊎ ((r.tasks_done + r.tasks_failed ≢ r.tasks_total)
            × (w'.db ≡ w.db)
            × (w'.topics ≡ w.topics))
  check_and_complete_run_lem {j} has_job =
      elim (ℕ_discrete (r.tasks_done + r.tasks_failed) r.tasks_total) [
        | yes full ↦ inl (
          full,
          subst (λ x. HasEnded task r j w x.1) (sym (checked ∙ when_full full ∙ completes has_job))
              (has_ended has_job),
        )
        | no open_tasks ↦ inr (
          open_tasks,
          ap (λ x. x.1.db) (checked ∙ when_open open_tasks),
          ap (λ x. x.1.topics) (checked ∙ when_open open_tasks),
        )
      ]

  -- Neither way touches a task.
  pub check_and_complete_run-tasks :
      {j : Job}
      → first (job_has_id r.job_id) w.db.jobs ≡ some j
      → (check_and_complete_run task (calm w)).1.db.tasks ≡ w.db.tasks
  check_and_complete_run-tasks has_job =
      elim (ℕ_discrete (r.tasks_done + r.tasks_failed) r.tasks_total) [
        | yes full ↦ ap (λ x. x.1.db.tasks) (checked ∙ when_full full ∙ completes has_job)
        | no open_tasks ↦ ap (λ x. x.1.db.tasks) (checked ∙ when_open open_tasks)
      ]
