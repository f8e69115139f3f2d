-- ===== src/Worker/Retry.antt =====
-- How a failed process ends on a calm network: with a retry or with a permanent failure.
use mini_databricks.Base.{
  ℕ, ◌∙◌, pos, ◌+ℤ◌, ◌≤ℤ◌, ◌≡◌, refl, ◌⊎◌, inl, inr, Bool, true, false, some, first, first-update,
  map_option, arith, Bool-cases, ap,
}
use mini_databricks.Errors.{
  GoError, Result, ok, err, error_text, is_transient, is_permanent, permanent,
}
use mini_databricks.Errors.Kinds.{FirstJob, is_permanent_iff}
use mini_databricks.Db.{Task, Run, Job}
use mini_databricks.Db.Row.{task_has_id, run_has_id, job_has_id}
use mini_databricks.Queries.Tasks.{retry_task, fail_task_with_error, back_to_pending, failed_with}
use mini_databricks.Queries.Runs.{task_failed, count_failed}
use mini_databricks.Queries.Jobs.{get_job_by_run_id}
use mini_databricks.World.{World, Done, actions, calm, call}
use mini_databricks.Worker.{on_failure, can_retry}

-- The task has retries left, and the first job error in the chain of the error, if there is one, is
-- not permanent.
abbrev pub MayRetry : Task → Job → GoError → Type 0
MayRetry task job e = (pos task.retry_count +ℤ pos 1 ≤ℤ job.max_retries) × (¬ FirstJob e permanent)

not_permanent : (e : GoError) → ¬ FirstJob e permanent → is_transient e ≡ true
unfolding is_permanent
not_permanent e h = elim (Bool-cases (is_transient e)) [
  | inl yes' ↦ yes'
  | inr no' ↦ absurd (h ((is_permanent_iff e).0 (unfold is_permanent in ground arith)))
]

transient_kind : (e : GoError) → is_transient e ≡ true → ¬ FirstJob e permanent
unfolding is_permanent
transient_kind e h f = permanent_clash e h ((is_permanent_iff e).1 f)
  where
    permanent_clash : (e : GoError) → is_transient e ≡ true → is_permanent e ≡ true → ⊥
    permanent_clash e h p = ground arith

can_retry-true :
    (task : Task) (job : Job) (e : GoError) → MayRetry task job e → can_retry (ok job) task e ≡ true
unfolding can_retry ◌+ℤ◌
can_retry-true task job e (left, kind) = ground (arith, not_permanent e kind)

MayRetry-of :
    (task : Task) (job : Job) (e : GoError) → can_retry (ok job) task e ≡ true → MayRetry task job e
unfolding can_retry ◌+ℤ◌
MayRetry-of task job e h = (ground arith, transient_kind e (ground arith))

module _ (task : Task) (e : GoError) (w : World) {t : Task} {r : Run} {j : Job}
    (has_task : first (task_has_id task.id) w.db.tasks ≡ some t)
    (has_run : first (run_has_id task.run_id) w.db.runs ≡ some r)
    (has_job : first (job_has_id r.job_id) w.db.jobs ≡ some j) where
  abbrev pub after : Result Done × World
  after = on_failure task e (calm w)

  -- The task is pending once more, with one more retry and its error kept; the poll succeeds.
  abbrev pub IsRetried : Type 0
  IsRetried =
      (after.0 ≡ ok tt)
      × (first (task_has_id task.id) after.1.db.tasks ≡ some (back_to_pending (error_text e) t))
      × (after.1.db.runs ≡ w.db.runs)

  -- The task has failed with its error, the run counts one failed task instead of a running one,
  -- and the poll returns the error.
  abbrev pub IsFailed : Type 0
  IsFailed =
      (after.0 ≡ err e)
      × ((now : ℕ) × (first (task_has_id task.id) after.1.db.tasks
            ≡ some (failed_with (error_text e) now t)))
      × (first (run_has_id task.run_id) after.1.db.runs ≡ some (count_failed r))

  retried : can_retry (ok j) task e ≡ true → IsRetried
  unfolding on_failure actions call get_job_by_run_id retry_task
  retried may =
      rw (has_run, has_job, may)
        (
          refl,
          first-update (task_has_id task.id) (back_to_pending (error_text e)) (λ x. refl) w.db.tasks
              ∙ ap (map_option (back_to_pending (error_text e))) has_task,
          refl,
        )

  failed : can_retry (ok j) task e ≡ false → IsFailed
  unfolding on_failure actions call get_job_by_run_id fail_task_with_error task_failed
  failed may =
      rw (has_run, has_job, may)
        (
          refl,
          (
            _,
            first-update (task_has_id task.id) (failed_with (error_text e) _) (λ x. refl) w.db.tasks
                ∙ ap (map_option (failed_with (error_text e) _)) has_task,
          ),
          first-update (run_has_id task.run_id) count_failed (λ x. refl) w.db.runs
              ∙ ap (map_option count_failed) has_run,
        )

  -- On a network that answers every call, with the rows of the task, of its run and of its job
  -- there: if the task has a retry left and its error is not permanent, the task goes back to
  -- pending with one more retry, and no run changes; otherwise the task fails with its error and
  -- the run counts it as failed.
  pub on_failure_outcome : (MayRetry task j e × IsRetried) ⊎ ((¬ MayRetry task j e) × IsFailed)
  on_failure_outcome = elim (Bool-cases (can_retry (ok j) task e)) [
    | inl may ↦ inl (MayRetry-of task j e may, retried may)
    | inr stop ↦ inr (λ may. absurd (clash (can_retry-true task j e may) stop), failed stop)
  ]
    where
      clash : {b : Bool} → b ≡ true → b ≡ false → ⊥
      clash h k = ground (arith, h, k)
