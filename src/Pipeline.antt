-- ===== src/Pipeline.antt =====
-- A job on its way from the submission through the outbox and Kafka to the scheduler.
pub mod Queue
pub mod Completed
use mathlib.Core.Path.{subst}
use mini_databricks.Base.{
  suc, ◌≤ℤ◌, ◌≡◌, ◌∙◌, refl, sym, ap, Bool, false, some, [], ◌∷◌, ◌++◌, All, select, select-append,
  first, first-append_none, take, order_by, ==_refl, none, if◌then◌else◌,
}
use mini_databricks.Errors.{Result, ok}
use mini_databricks.Db.{Db, Uuid, Job, JobState, Outbox, Json}
use mini_databricks.Db.Row.{job_has_id, outbox_is_pending}
use mini_databricks.World.{World, Message, Done, calm, tick}
use mini_databricks.Queries.Jobs.{with_job_state}
use mini_databricks.Queries.Outbox.{pending_events, new_event, created_before}
use mini_databricks.RateLimit.{RateLimiter}
use mini_databricks.JobService.{Submission, submit_job, submitted_payload, job_submitted_topic}
use mini_databricks.JobService.Limit.{count_of}
use mini_databricks.JobService.Count.{IsValid, created_job, submitted, submit_job_runs}
use mini_databricks.Kafka.{dispatch, event_message}
use mini_databricks.Kafka.Drained.{delivered, all_delivered, dispatch_run}
use mini_databricks.Scheduler.{handle_job_submitted, unmarshal_event}
use mini_databricks.Scheduler.Created.{IsNewRun}
use mini_databricks.Scheduler.Plan.{IsEvent, IsPlan, handle_job_submitted_plans}

-- What lies before the submission: no event waits, the identifiers to come are new, and google/uuid
-- parses what it prints.
pub record IsQuiet (w : World) : Type 0 where
  pub no_event : select (λ e. outbox_is_pending e.status) w.db.outbox ≡ []
  pub new_job : All (λ j. job_has_id w.db.next_id j ≡ false) w.db.jobs
  pub new_run : IsNewRun (suc (suc w.db.next_id)) w.db.runs
  pub uuids : (k : Uuid) → w.env.parse_uuid (w.env.format_uuid k) ≡ ok k

module _ (limiter : RateLimiter) (s : Submission) (w : World) (workspace user dataset : Uuid)
    (valid : IsValid s w workspace user dataset)
    (room : ¬ (limiter.max_running_jobs ≤ℤ count_of s.workspace_id w)) (quiet : IsQuiet w) where
  abbrev job : Job
  job = created_job limiter s w workspace user dataset valid room

  abbrev after_submission : World
  after_submission = submitted limiter s w workspace user dataset valid room

  abbrev payload : Json
  payload = submitted_payload s job w

  abbrev event : Outbox
  event =
      new_event job_submitted_topic job.id payload (suc w.db.next_id)
        (tick (tick (tick (tick w)))).now

  one_event : pending_events after_submission.db.outbox ≡ event ∷ []
  one_event =
      ap (λ es. take 10 (order_by created_before es))
        (select-append (λ e. outbox_is_pending e.status) w.db.outbox (event ∷ [])
          ∙ ap (λ es. es ++ event ∷ []) quiet.no_event)

  abbrev after_dispatch : World
  after_dispatch = delivered event (tick after_submission)

  dispatched : (dispatch (calm after_submission)).1 ≡ calm after_dispatch
  dispatched =
      ap (λ x. x.1) (dispatch_run after_submission)
      ∙ ap (λ es. calm (all_delivered es (tick after_submission))) one_event

  is_event : IsEvent after_dispatch payload job.id workspace
  unfolding unmarshal_event
  is_event = record {
    event = record { job_id = w.env.format_uuid job.id; workspace_id = s.workspace_id };
    parsed = refl;
    job_id = quiet.uuids job.id;
    workspace_id = valid.workspace_id;
  }

  job_found : first (job_has_id job.id) after_dispatch.db.jobs ≡ some job
  job_found =
      first-append_none (job_has_id job.id) w.db.jobs (job ∷ []) quiet.new_job
      ∙ ap (λ b. if b then some job else none) (==_refl job.id)

  -- The message about the job is handled, and the job is queued with a run of three tasks.
  abbrev IsScheduled : Db → Result Done × World → Type 0
  IsScheduled before x =
      (x.0 ≡ ok tt)
      × IsPlan job.id workspace before x.1.db
      × (first (job_has_id job.id) x.1.db.jobs ≡ some (with_job_state JobState.queued job))

  -- One message is published, and the scheduler plans the job that it tells of.
  abbrev IsPublished : Bool → World → Type 0
  IsPublished has_controller v =
      (m : Message) × (v.topics ≡ w.topics ++ m ∷ [])
      × (m.topic ≡ job_submitted_topic)
      × IsScheduled v.db (handle_job_submitted has_controller m.value v)

  abbrev pub IsOnItsWay : Bool → Result Job × World → Type 0
  IsOnItsWay has_controller x = (x.0 ≡ ok job) × IsPublished has_controller (dispatch x.1).1

  published : (has_controller : Bool) → IsPublished has_controller (calm after_dispatch)
  published has_controller = (
    event_message event (tick after_submission),
    refl,
    refl,
    handle_job_submitted_plans has_controller payload job.id workspace after_dispatch is_event
        job_found quiet.new_run,
  )

  -- On a network that answers every call, for a workspace below its limit, a valid submission, no
  -- event that waits, identifiers not used before, and UUIDs that parse as they are printed: the
  -- job is created, the dispatch that follows publishes one message, and the scheduler's handler on
  -- this message queues the job and gives it a run of three tasks.
  pub submitted_job_is_planned :
      (has_controller : Bool) → IsOnItsWay has_controller (submit_job limiter s (calm w))
  submitted_job_is_planned has_controller =
      subst (IsOnItsWay has_controller)
        (sym (submit_job_runs limiter s w workspace user dataset valid room))
        (refl, subst (IsPublished has_controller) (sym dispatched) (published has_controller))
