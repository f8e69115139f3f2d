-- ===== src/Worker/Drain/Limits.antt =====
-- What a worker reads of a job whose retries are limited (services/worker).
use mathlib.Core.Path.{subst}
use mini_databricks.Base.{
  Option-cases, first, ℕ, suc, ◌≤◌, pos, ◌≤ℤ◌, ◌≡◌, refl, true, List, All, All-first, inl, inr,
  arith, Option, some, none,
}
use mini_databricks.Errors.{GoError, Result, ok, err}
use mini_databricks.Db.{Db, Task, Job, Uuid, Run}
use mini_databricks.Db.Row.{job_has_id}
use mini_databricks.Queries.Rows.{one, no_rows}
use mini_databricks.Queries.Jobs.{job_of_run}
use mini_databricks.Worker.{can_retry}

-- No job allows more retries than the limit.
abbrev pub JobsBounded : ℕ → List Job → Type 0
JobsBounded limit jobs = All (λ j. j.max_retries ≤ℤ pos limit) jobs

module _ (limit : ℕ) where
  -- A task that can be retried has been tried less often than the limit.
  pub below_limit :
      (t : Task) (r : Result Job) (e : GoError)
      → ((j : Job) → r ≡ ok j → j.max_retries ≤ℤ pos limit)
      → can_retry r t e ≡ true
      → suc t.retry_count ≤ limit
  unfolding can_retry
  below_limit t (ok j) e b h = ground (arith, b j refl)
  below_limit t (err x) e b h = cc

  one_bounded :
      (k : Uuid) (jobs : List Job)
      → JobsBounded limit jobs
      → (j : Job) → one (first (job_has_id k) jobs) ≡ ok j
      → j.max_retries ≤ℤ pos limit
  one_bounded k jobs b j e = elim (Option-cases (first (job_has_id k) jobs)) [
    | inl missed ↦
        let found : ◌≡◌ {A = Result Job} (err no_rows) (ok j) = rw missed at e in
        absurd (ground arith)
    | inr (j', hit) ↦
        let found : ◌≡◌ {A = Result Job} (ok j') (ok j) = rw hit at e in
        let same : j' ≡ j = cc in
        subst (λ x. x.max_retries ≤ℤ pos limit) same (All-first _ (job_has_id k) jobs b hit)
  ]

  pub job_bounded :
      (r : Option Run) (db : Db)
      → JobsBounded limit db.jobs
      → (j : Job) → job_of_run r db ≡ ok j
      → j.max_retries ≤ℤ pos limit
  job_bounded none db b j e = absurd (ground arith)
  job_bounded (some r) db b j e = one_bounded r.job_id db.jobs b j e
