-- ===== src/Tests/Jobs.antt =====
-- Submissions and a cancellation on the world with no event.
use native.Mathlib.Omega.{arith}
use mini_databricks.Base.{◌≢◌, ◌≤ℤ◌, refl, true, [], ◌∷◌, pos}
use mini_databricks.World.{calm}
use mini_databricks.JobService.{Submission, submit_job, cancel_job}
use mini_databricks.JobService.Atomic.{HowSubmitted, submit_job-HowSubmitted}
use mini_databricks.JobService.Limit.{Refused, count_of, submit_job_at_limit}
use mini_databricks.JobService.Count.{IsValid, IsCounted, count_returns, count_leaks}
use mini_databricks.JobService.Cancel.{IsCancelled, cancel_job-IsCancelled}
use mini_databricks.Queries.Jobs.{key_is_taken}
use mini_databricks.RateLimit.{counter_at, one_more}
use mini_databricks.Pipeline.{IsQuiet, IsOnItsWay, submitted_job_is_planned}
use mini_databricks.Tests.Data.{
  quiet_world, flaky_quiet_world, submission_for, limiter_of_ten, closed_limiter,
}

abbrev submission : Submission
submission = submission_for (5 ∷ [])

-- The same workspace, spelled otherwise.
abbrev respelled : Submission
respelled = submission_for (5 ∷ 32 ∷ [])

submit_job-HowSubmitted_example :
    HowSubmitted submission flaky_quiet_world
      (submit_job limiter_of_ten submission flaky_quiet_world).1.db
      (submit_job limiter_of_ten submission flaky_quiet_world).0
submit_job-HowSubmitted_example =
    submit_job-HowSubmitted limiter_of_ten submission flaky_quiet_world

no_room : closed_limiter.max_running_jobs ≤ℤ count_of submission.workspace_id flaky_quiet_world
unfolding counter_at
no_room = omega arith

submit_job_at_limit_example :
    Refused closed_limiter submission flaky_quiet_world no_room
      (submit_job closed_limiter submission flaky_quiet_world).0
      (submit_job closed_limiter submission flaky_quiet_world).1
submit_job_at_limit_example =
    submit_job_at_limit closed_limiter submission flaky_quiet_world no_room

valid : IsValid submission quiet_world 5 1 40
unfolding key_is_taken
valid = record {
  workspace_id = refl;
  user_id = refl;
  dataset_id = refl;
  key = refl;
  parameters = refl;
  compute = refl;
  has_rows = refl;
}

valid_respelled : IsValid respelled quiet_world 5 1 40
unfolding key_is_taken
valid_respelled = record {
  workspace_id = refl;
  user_id = refl;
  dataset_id = refl;
  key = refl;
  parameters = refl;
  compute = refl;
  has_rows = refl;
}

room : (s : Submission) → ¬ (limiter_of_ten.max_running_jobs ≤ℤ count_of s.workspace_id quiet_world)
unfolding counter_at
room s h = omega (arith, h)

count_returns_example :
    IsCounted limiter_of_ten submission quiet_world 5 1 40 valid
      (room submission)
      (pos 0)
      (submit_job limiter_of_ten submission (calm quiet_world))
unfolding counter_at
count_returns_example =
    count_returns limiter_of_ten submission quiet_world 5 1 40 valid (room submission) refl

other_text : (5 ∷ []) ≢ respelled.workspace_id
other_text h = ground (arith, h)

count_leaks_example :
    IsCounted limiter_of_ten respelled quiet_world 5 1 40 valid_respelled
      (room respelled)
      (one_more (pos 0))
      (submit_job limiter_of_ten respelled (calm quiet_world))
unfolding counter_at
count_leaks_example =
    count_leaks limiter_of_ten respelled quiet_world 5 1 40 valid_respelled (room respelled)
      other_text

cancel_job-IsCancelled_example :
    IsCancelled (30 ∷ []) 30 quiet_world refl refl (cancel_job (30 ∷ []) (calm quiet_world))
cancel_job-IsCancelled_example = cancel_job-IsCancelled (30 ∷ []) 30 quiet_world refl refl

quiet : IsQuiet quiet_world
quiet = record { no_event = refl; new_job = (refl, tt); new_run = (refl, tt); uuids = λ k. refl }

submitted_job_is_planned_example :
    IsOnItsWay limiter_of_ten submission quiet_world 5 1 40 valid
      (room submission)
      quiet
      true
      (submit_job limiter_of_ten submission (calm quiet_world))
submitted_job_is_planned_example =
    submitted_job_is_planned limiter_of_ten submission quiet_world 5 1 40 valid (room submission)
      quiet true
