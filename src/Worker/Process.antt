-- ===== src/Worker/Process.antt =====
-- `process` on a calm network, by how the Python process ends.
use mini_databricks.Base.{
  ℕ, suc, ◌∙◌, ◌≡◌, refl, some, [], ◌∷◌, ◌++◌, first, length, select, ◌==◌, ap,
}
use mini_databricks.Base.Text.{Text, codes}
use mini_databricks.Errors.{GoError, Result, ok, err, wrapped}
use mini_databricks.Db.{Db, Task, Run, Job, Dataset}
use mini_databricks.Db.Row.{run_has_id, job_has_id, dataset_has_id}
use mini_databricks.Db.Keys.{job_found_again}
use mini_databricks.Queries.Rows.{take_id}
use mini_databricks.Queries.Tasks.{get_run_task_count}
use mini_databricks.Queries.Jobs.{get_job_by_run_id}
use mini_databricks.Queries.Files.{get_dataset_by_job_id, create_artifact, new_artifact}
use mini_databricks.World.{World, query, ignore, ◌>>=◌, wrap, RunnerEnv, actions, calm, tick, call}
use mini_databricks.World.Chains.{bind_ok, bind_err, wrap_ok, wrap_err}
use mini_databricks.Worker.{process, run_python, artifact_params, runner_env}
use mini_databricks.Worker.Output.{parse_output}

-- What `process` reads: the run, its job, the job and its dataset.
pub record HasInputs (db : Db) (task : Task) (r : Run) (j : Job) (d : Dataset) : Type 0 where
  pub run : first (run_has_id task.run_id) db.runs ≡ some r
  pub job : first (job_has_id r.job_id) db.jobs ≡ some j
  pub dataset : first (dataset_has_id j.dataset_id) db.datasets ≡ some d

abbrev pub runner_input : World → Task → Job → Dataset → RunnerEnv
runner_input w task j d =
    runner_env task j d (length (select (λ t. t.run_id == task.run_id) w.db.tasks))

-- The world after four calls that change no table.
abbrev pub after_four : World → World
after_four w = tick (tick (tick (tick w)))

abbrev pub runner_call : World → ℕ
runner_call w = suc (suc (suc (suc w.calls)))

abbrev pub runner_failed : GoError → GoError
runner_failed x = wrapped (codes "task runner failed") x

module _ (task : Task) (w : World) {r : Run} {j : Job} {d : Dataset}
    (inputs : HasInputs w.db task r j d) where
  job_read : query (get_job_by_run_id task.run_id) (calm w) ≡ (ok j, tick (calm w))
  unfolding actions call get_job_by_run_id
  job_read = rw (inputs.run, inputs.job)

  dataset_read :
      (v : World)
      → v.db ≡ w.db
      → query (get_dataset_by_job_id j.id) (calm v) ≡ (ok d, tick (calm v))
  unfolding actions call get_dataset_by_job_id
  dataset_read v e = rw (e, job_found_again r.job_id w.db.jobs inputs.job, inputs.dataset)

  count_read :
      (v : World)
      → v.db ≡ w.db
      → query (get_run_task_count task.run_id) (calm v)
        ≡ (ok (length (select (λ t. t.run_id == task.run_id) w.db.tasks)), tick (calm v))
  unfolding actions call get_run_task_count
  count_read v e = rw e

  -- Up to the call of the Python process, whose input is then known.
  run_input :
      process task (calm w)
      ≡ (wrap (codes "task runner failed") (run_python (runner_input w task j d)) >>= λ output.
            ignore (query (create_artifact (artifact_params task (parse_output output)))))
          (tick (tick (tick (calm w))))
  unfolding process
  run_input =
      bind_ok _ _ (calm w) (wrap_ok _ (calm w) _ job_read)
      ∙ bind_ok _ _ (tick (calm w)) (wrap_ok _ (tick (calm w)) _ (dataset_read (tick w) refl))
      ∙ bind_ok _ _ (tick (tick (calm w)))
          (wrap_ok _ (tick (tick (calm w))) _ (count_read (tick (tick w)) refl))

  python_run :
      (r : Result Text)
      → w.env.python (runner_call w) (runner_input w task j d) ≡ r
      → run_python (runner_input w task j d) (tick (tick (tick (calm w))))
        ≡ (r, after_four (calm w))
  unfolding run_python call
  python_run r p = ap (λ x. (x, after_four (calm w))) p

  pub process_fails :
      (x : GoError)
      → w.env.python (runner_call w) (runner_input w task j d) ≡ err x
      → process task (calm w) ≡ (err (runner_failed x), after_four (calm w))
  process_fails x p =
      run_input ∙ bind_err _ _ _ (wrap_err _ _ (codes "task runner failed") (python_run (err x) p))

  abbrev pub with_artifact : Text → World → World
  with_artifact output v = record v {
    db = record (take_id v.db) {
      artifacts =
          v.db.artifacts
          ++ new_artifact (artifact_params task (parse_output output)) v.db.next_id v.now ∷ [];
    };
  }

  artifact_created :
      (output : Text) (v : World)
      → ignore (query (create_artifact (artifact_params task (parse_output output)))) (calm v)
        ≡ (ok tt, with_artifact output (tick (calm v)))
  unfolding actions call create_artifact
  artifact_created output v = refl

  pub process_succeeds :
      (output : Text)
      → w.env.python (runner_call w) (runner_input w task j d) ≡ ok output
      → process task (calm w) ≡ (ok tt, with_artifact output (tick (after_four (calm w))))
  process_succeeds output p =
      run_input
      ∙ bind_ok _ _ _ (wrap_ok _ _ (codes "task runner failed") (python_run (ok output) p))
      ∙ artifact_created output (after_four w)
