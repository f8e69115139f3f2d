-- ===== src/JobService/Limit.antt =====
-- The rate limit: who is turned away, who is counted, and when the count goes back.
use mini_databricks.Base.{ℤ, ◌≤ℤ◌, leb_ℤ, ◌≡◌, refl, ap, Bool, true, false, arith, if◌then◌else◌}
use mini_databricks.Base.Text.{Text}
use mini_databricks.Errors.{GoError, Result, ok, err}
use mini_databricks.Db.{Job}
use mini_databricks.World.{World, call, gets, raise}
use mini_databricks.World.Ends.{Ends, Ends-bind, Ends-wrap, Ends-call, Ends-pure}
use mini_databricks.RateLimit.{RateLimiter, counter_key, counter_at, or_zero, allow_job_submission}
use mini_databricks.JobService.{Submission, submit_job, admitted, rate_limit_exceeded}

-- The count of the workspace's running jobs.
abbrev pub count_of : Text → World → ℤ
count_of workspace w = or_zero (counter_at (counter_key workspace) w.running_jobs)

at_least : (a b : ℤ) → a ≤ℤ b → leb_ℤ a b ≡ true
at_least a b h = ground (arith, h)

module _ (limiter : RateLimiter) (s : Submission) (w : World)
    (full : limiter.max_running_jobs ≤ℤ count_of s.workspace_id w) where
  abbrev Kept : World → Type 0
  Kept v = (v.db ≡ w.db) × (v.running_jobs ≡ w.running_jobs)

  abbrev pub Refused : Result Job → World → Type 0
  Refused r v = ((e : GoError) × (r ≡ err e)) × (v.db ≡ w.db) × (v.running_jobs ≡ w.running_jobs)

  abbrev Counted : Result ℤ → World → Type 0
  Counted (ok n) v = Kept v × (n ≡ count_of s.workspace_id w)
  Counted (err e) v = Kept v

  abbrev NotAllowed : Result Bool → World → Type 0
  NotAllowed (ok b) v = Kept v × (b ≡ false)
  NotAllowed (err e) v = Kept v

  counted :
      Ends Kept
        (call (gets (λ v. or_zero (counter_at (counter_key s.workspace_id) v.running_jobs))))
        Counted
  unfolding gets
  counted =
      Ends-call (gets (λ v. or_zero (counter_at (counter_key s.workspace_id) v.running_jobs)))
        (λ v h. h) (λ v h. (h, ap (λ cs. or_zero (counter_at (counter_key s.workspace_id) cs)) h.1))
        (λ e v h. h) (λ e v h. h)

  not_allowed : Ends Kept (allow_job_submission limiter s.workspace_id) NotAllowed
  unfolding allow_job_submission
  not_allowed =
      Ends-bind (Ends-wrap _ counted (λ e v h. h))
        (λ n. Ends-pure _ (λ v h. (h.0, rw (h.1, at_least _ _ full)))) (λ e v h. h)

  submit_job-Refused : Ends Kept (submit_job limiter s) Refused
  unfolding submit_job
  submit_job-Refused =
      Ends-bind (Ends-wrap _ not_allowed (λ e v h. h)) turned_away (λ e v h. ((e, refl), h.0, h.1))
    where
      turned_away :
          (b : Bool)
          → Ends (NotAllowed (ok b)) (if b then admitted s else raise rate_limit_exceeded) Refused
      turned_away true = record { run = λ v h. absurd (ground (arith, h.1)) }
      turned_away false = record {
        run = λ v h. unfold raise in ((rate_limit_exceeded, refl), h.0.0, h.0.1);
      }

  -- However its calls end, a submission for a workspace that has as many running jobs as the
  -- limiter admits, or more, ends with an error and changes neither the tables nor the counters.
  pub submit_job_at_limit : Refused (submit_job limiter s w).0 (submit_job limiter s w).1
  submit_job_at_limit = submit_job-Refused.run w (refl, refl)
