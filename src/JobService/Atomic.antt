-- ===== src/JobService/Atomic.antt =====
-- A submission writes its job and its event together or writes neither, however its calls end.
use mini_databricks.Base.{
  ◌≡◌, refl, ap, Bool, true, false, [], ◌∷◌, ◌++◌, inl, inr, Option-cases, if◌then◌else◌, arith,
}
use mini_databricks.Base.Text.{Text, codes}
use mini_databricks.Errors.{GoError, Result, ok, err}
use mini_databricks.Db.{Db, Job, JobState, Outbox, OutboxStatus, Json}
use mini_databricks.World.{
  World, Env, Outcome, answered, refused, lost, call, query, on_db, raise, gets, parse_uuid, wrap,
  pure, ◌>>◌, actions,
}
use mini_databricks.World.Keeps.{Keeps, Keeps-call, Keeps-wrap}
use mini_databricks.World.Ends.{
  Ends, Ends-Keeps, Ends-bind, Ends-then, Ends-wrap, Ends-query, Ends-pure,
}
use mini_databricks.Queries.Jobs.{CreateJobParams, create_job, new_job, broken_constraint}
use mini_databricks.Queries.Outbox.{create_outbox_event, new_event}
use mini_databricks.RateLimit.{RateLimiter, increment_running_jobs}
use mini_databricks.RateLimit.Counter.{allow_job_submission-Keeps, increment_running_jobs-Keeps}
use mini_databricks.JobService.{
  Submission, job_submitted_topic, submitted_payload, insert_job, in_transaction, transaction,
  finish_transaction, commit_as, committed, admitted, submit_job, job_params, rate_limit_exceeded,
}

-- One new job, and one new pending event that tells of it.
pub record IsSubmitted (s : Submission) (j : Job) (w : World) (after : Db) : Type 0 where
  pub event : Outbox
  pub jobs : after.jobs ≡ w.db.jobs ++ j ∷ []
  pub outbox : after.outbox ≡ w.db.outbox ++ event ∷ []
  pub job_state : j.state ≡ JobState.submitted
  pub kind : event.event_type ≡ job_submitted_topic
  pub about : event.aggregate_id ≡ j.id
  pub payload : event.payload ≡ submitted_payload s j w
  pub status : event.status ≡ OutboxStatus.pending

-- How a submission ends: with an error and nothing written, with the job's answer and both rows
-- written, or with an error and both rows written.
pub data HowSubmitted (s : Submission) (w : World) (after : Db) : Result Job → Type 0 where
  nothing : (e : GoError) → after ≡ w.db → HowSubmitted s w after (err e)
  created : (j : Job) → IsSubmitted s j w after → HowSubmitted s w after (ok j)
  unreported : (e : GoError) (j : Job) → IsSubmitted s j w after → HowSubmitted s w after (err e)

ok_injective : {A : Type 0} {a b : A} → ok a ≡ ok b → a ≡ b
ok_injective h = ground (arith, h)

module _ (s : Submission) (w : World) where
  abbrev Same : World → Type 0
  Same v = (v.db ≡ w.db) × (v.env ≡ w.env)

  -- Between the two inserts.
  record HasJob (j : Job) (db : Db) (e : Env) : Type 0 where
    jobs : db.jobs ≡ w.db.jobs ++ j ∷ []
    outbox : db.outbox ≡ w.db.outbox
    env : e ≡ w.env
    job_state : j.state ≡ JobState.submitted

  abbrev AfterJob : Result Job → World → Type 0
  AfterJob (ok j) v = HasJob j v.db v.env
  AfterJob (err e) v = Unit {0}

  abbrev AfterBody : Result Job → World → Type 0
  AfterBody (ok j) v = IsSubmitted s j w v.db
  AfterBody (err e) v = Unit {0}

  abbrev Final : Result Job → World → Type 0
  Final r v = HowSubmitted s w v.db r

  Keeps-parse : (t : Text) → Keeps Same (parse_uuid t)
  unfolding actions
  Keeps-parse t = record { run = λ v h. h }

  job_row :
      (p : CreateJobParams) (v : World)
      → Same v
      → AfterJob (on_db (create_job p) v).0 (on_db (create_job p) v).1
  unfolding create_job
  job_row p v h = elim (Option-cases (broken_constraint p v.db)) [
    | inr (e, broken) ↦ rw broken tt
    | inl free ↦ rw free (record {
      jobs = ap (λ db. db.jobs ++ new_job p v.db.next_id v.now ∷ []) h.0;
      outbox = ap (λ db. db.outbox) h.0;
      env = h.1;
      job_state = refl;
    })
  ]

  create_job-AfterJob : (p : CreateJobParams) → Ends Same (query (create_job p)) AfterJob
  create_job-AfterJob p =
      Ends-query (create_job p) (λ v h. h) (job_row p) (λ e v h. tt) (λ e v h. tt)

  abbrev AfterEvent : Job → Result Outbox → World → Type 0
  AfterEvent j (ok e) v = IsSubmitted s j w v.db
  AfterEvent j (err e) v = Unit {0}

  abbrev HasPayload : Job → Result Json → World → Type 0
  HasPayload j r v = HasJob j v.db v.env × (r ≡ ok (submitted_payload s j w))

  event_row :
      (j : Job) (p : Json) (v : World)
      → HasPayload j (ok p) v
      → AfterEvent j
          (on_db (create_outbox_event job_submitted_topic j.id p) v).0
          (on_db (create_outbox_event job_submitted_topic j.id p) v).1
  unfolding create_outbox_event
  event_row j p v (h, e) = record {
    event = new_event job_submitted_topic j.id p v.db.next_id v.now;
    jobs = h.jobs;
    outbox =
        ap (λ rows. rows ++ new_event job_submitted_topic j.id p v.db.next_id v.now ∷ []) h.outbox;
    job_state = h.job_state;
    kind = refl;
    about = refl;
    payload = ok_injective e;
    status = refl;
  }

  create_outbox_event-AfterEvent :
      (j : Job) (p : Json)
      → Ends
          (HasPayload j (ok p))
          (query (create_outbox_event job_submitted_topic j.id p))
          (AfterEvent j)
  create_outbox_event-AfterEvent j p =
      Ends-query (create_outbox_event job_submitted_topic j.id p) (λ v h. h) (event_row j p)
        (λ e v h. tt) (λ e v h. tt)

  payload_of :
      (j : Job) → Ends (λ v. HasJob j v.db v.env) (gets (submitted_payload s j)) (HasPayload j)
  unfolding gets
  payload_of j = record { run = λ v h. (h, rw h.env) }

  insert-AfterBody : (p : CreateJobParams) → Ends Same (insert_job s p) AfterBody
  unfolding insert_job
  insert-AfterBody p =
      Ends-bind (Ends-wrap _ (create_job-AfterJob p) (λ e v h. tt))
        (λ j.
          Ends-bind (payload_of j)
            (λ payload.
              Ends-then (Ends-wrap _ (create_outbox_event-AfterEvent j payload) (λ e v h. tt))
                (λ event. Ends-pure j (λ v h. h)) (λ e v h. tt))
            (λ e v h. tt))
        (λ e v h. tt)

  committed_as :
      (o : Outcome) (j : Job) (before : Db) (v : World)
      → before ≡ w.db
      → IsSubmitted s j w v.db
      → Final (committed j (commit_as o before v)).0 (committed j (commit_as o before v)).1
  committed_as answered j before v h sub = created j sub
  committed_as (refused e) j before v h sub = nothing _ h
  committed_as (lost e) j before v h sub = unreported _ j sub

  finished :
      (r : Result Job) (before : Db) (v : World)
      → before ≡ w.db
      → AfterBody r v
      → Final (finish_transaction before r v).0 (finish_transaction before r v).1
  finished (ok j) before v h sub = committed_as (v.env.outcome v.calls) j before v h sub
  finished (err e) before v h sub = nothing e h

  transaction-Final : (p : CreateJobParams) → Ends Same (transaction (insert_job s p)) Final
  unfolding transaction in_transaction
  transaction-Final p =
      Ends-then (Ends-Keeps (Keeps-wrap Same (λ v h. h) _ begun))
        (λ _. record { run = λ v h. finished _ v.db _ h.0 ((insert-AfterBody p).run v h) })
        (λ e v h. nothing e h.0)
    where
      begun : Keeps Same (call (pure tt))
      begun = unfold pure in Keeps-call Same (λ v h. h) (pure tt) (λ v h. h)

  counted :
      (j : Job)
      → Ends
          (Final (ok j))
          (wrap (codes "failed to increment rate limit") (increment_running_jobs s.workspace_id)
            >> pure j)
          Final
  counted j =
      Ends-then
        (Ends-Keeps (
          Keeps-wrap (Final (ok j)) (λ v h. h) _
            (increment_running_jobs-Keeps (Final (ok j)) (λ v h. h) s.workspace_id (λ v h. h))))
        (λ _. Ends-pure j (λ v h. h)) (λ e v h. unreported e j (submitted h))
    where
      submitted : {db : Db} → HowSubmitted s w db (ok j) → IsSubmitted s j w db
      submitted (created j sub) = sub

  admitted-Final : Ends Same (admitted s) Final
  unfolding admitted
  admitted-Final =
      Ends-bind (parsed _ _)
        (λ workspace.
          Ends-bind (parsed _ _)
            (λ user.
              Ends-bind (parsed _ _)
                (λ dataset.
                  Ends-bind (transaction-Final (job_params s workspace user dataset)) counted
                    (λ e v h. h))
                (λ e v h. nothing e h.0))
            (λ e v h. nothing e h.0))
        (λ e v h. nothing e h.0)
    where
      parsed : (m t : Text) → Ends Same (wrap m (parse_uuid t)) (λ r v. Same v)
      parsed m t = Ends-Keeps (Keeps-wrap Same (λ v h. h) m (Keeps-parse t))

  submit_job-Final : (limiter : RateLimiter) → Ends Same (submit_job limiter s) Final
  unfolding submit_job raise
  submit_job-Final limiter =
      Ends-bind
        (Ends-Keeps (
          Keeps-wrap Same (λ v h. h) _
            (allow_job_submission-Keeps Same (λ v h. h) limiter s.workspace_id)))
        by_answer (λ e v h. nothing e h.0)
    where
      by_answer : (b : Bool) → Ends Same (if b then admitted s else raise rate_limit_exceeded) Final
      by_answer true = admitted-Final
      by_answer false = record { run = λ v h. nothing _ h.0 }

-- However its calls end, a submission either ends with an error and leaves the tables as they were,
-- or adds one submitted job and one pending `job.submitted` event with the job's identifier and the
-- workspace in its payload, and ends with that job or with an error.
pub submit_job-HowSubmitted :
    (limiter : RateLimiter) (s : Submission) (w : World)
    → HowSubmitted s w (submit_job limiter s w).1.db (submit_job limiter s w).0
submit_job-HowSubmitted limiter s w = (submit_job-Final s w limiter).run w (refl, refl)
