-- ===== src/JobService/Count.antt =====
-- A submission on a calm network counts its job, and the end of the job takes it off again.
use mini_databricks.Base.{
  none, suc, ℤ, ◌≤ℤ◌, leb_ℤ, ◌≡◌, ◌≢◌, ◌∙◌, refl, sym, ap, true, false, [], ◌∷◌, ◌++◌, arith,
  Bool-cases, inl, inr,
}
use mathlib.Core.Path.{subst}
use mini_databricks.Base.Text.{Text, codes, same_text, same_text→eq}
use mini_databricks.Errors.{Result, ok}
use mini_databricks.Db.{Uuid, Job}
use mini_databricks.World.{World, calm, tick, call, actions, parse_uuid, pure, wrap, ◌>>◌}
use mini_databricks.World.Chains.{bind_ok, wrap_ok}
use mini_databricks.Queries.Jobs.{
  create_job, new_job, key_is_taken, is_null, has_references, broken_constraint,
}
use mini_databricks.Queries.Outbox.{create_outbox_event, new_event}
use mini_databricks.RateLimit.{
  RateLimiter, Counters, counter_key, counter_at, or_zero, change_counter, add_to_counter, one_more,
  one_less, allow_job_submission, increment_running_jobs, decrement_running_jobs,
}
use mini_databricks.RateLimit.Counter.{
  counter_at-change, counter_at-change_other, one_less-one_more,
}
use mini_databricks.Scheduler.{unmarshal_event}
use mini_databricks.Worker.{job_completed}
use mini_databricks.JobService.{
  Submission, submit_job, admitted, transaction, in_transaction, insert_job, job_params,
  text_or_null, handle_job_completed, job_submitted_topic, submitted_payload,
}
use mini_databricks.JobService.Limit.{count_of}

below : (a b : ℤ) → ¬ (a ≤ℤ b) → leb_ℤ a b ≡ false
below a b h = ground (arith, h)

different : (a b : Text) → a ≢ b → same_text (counter_key a) (counter_key b) ≡ false
different a b h = elim (Bool-cases (same_text a b)) [
  | inl same ↦ absurd (h (same_text→eq a b same))
  | inr differ ↦ differ
]

-- The submission names a workspace, a user and a dataset that have rows, it has parameters and a compute
-- configuration, and its key, if it has one, is new.
pub record IsValid (s : Submission) (w : World) (workspace user dataset : Uuid) : Type 0 where
  pub workspace_id : w.env.parse_uuid s.workspace_id ≡ ok workspace
  pub user_id : w.env.parse_uuid s.created_by ≡ ok user
  pub dataset_id : w.env.parse_uuid s.dataset_id ≡ ok dataset
  pub key : key_is_taken (text_or_null s.idempotency_key) w.db.jobs ≡ false
  pub parameters : is_null s.parameters ≡ false
  pub compute : is_null s.compute ≡ false
  pub has_rows : has_references (job_params s workspace user dataset) w.db ≡ true

module _ (limiter : RateLimiter) (s : Submission) (w : World) (workspace user dataset : Uuid)
    (valid : IsValid s w workspace user dataset)
    (room : ¬ (limiter.max_running_jobs ≤ℤ count_of s.workspace_id w)) where
  abbrev pub created_job : Job
  created_job =
      new_job (job_params s workspace user dataset) w.db.next_id (tick (tick (tick w))).now

  -- The world in which both rows are written.
  abbrev pub written : World
  written = record (tick (tick (tick (tick w)))) {
    db = record w.db {
      jobs = w.db.jobs ++ created_job ∷ [];
      outbox =
          w.db.outbox
          ++ new_event job_submitted_topic created_job.id (submitted_payload s created_job w)
              (suc w.db.next_id) (tick (tick (tick (tick w)))).now
            ∷ [];
      next_id = suc (suc w.db.next_id);
    };
  }

  abbrev pub submitted : World
  submitted = add_to_counter one_more s.workspace_id (tick (tick written))

  is_allowed : allow_job_submission limiter s.workspace_id (calm w) ≡ (ok true, calm (tick w))
  unfolding allow_job_submission actions call
  is_allowed = rw (below _ _ room)

  accepted : broken_constraint (job_params s workspace user dataset) w.db ≡ none
  unfolding broken_constraint
  accepted = rw (valid.parameters, valid.compute, valid.key, valid.has_rows) refl

  is_written :
      transaction (insert_job s (job_params s workspace user dataset)) (calm (tick w))
      ≡ (ok created_job, calm (tick written))
  unfolding transaction in_transaction insert_job actions call create_job create_outbox_event
  is_written = rw accepted

  id_read :
      (t : Text) {k : Uuid} (v : World)
      → v.env.parse_uuid t ≡ ok k
      → parse_uuid t (calm v) ≡ (ok k, calm v)
  unfolding actions
  id_read t v h = ap (λ r. (r, calm v)) h

  is_counted :
      (wrap (codes "failed to increment rate limit") (increment_running_jobs s.workspace_id)
          >> pure created_job)
        (calm (tick written))
      ≡ (ok created_job, calm submitted)
  unfolding increment_running_jobs actions call
  is_counted = refl

  pub submit_job_runs : submit_job limiter s (calm w) ≡ (ok created_job, calm submitted)
  unfolding submit_job admitted
  submit_job_runs =
      bind_ok _ _ (calm w) (wrap_ok _ (calm w) _ is_allowed)
      ∙ bind_ok _ _ (calm (tick w))
          (wrap_ok _ (calm (tick w)) _ (id_read s.workspace_id (tick w) valid.workspace_id))
      ∙ bind_ok _ _ (calm (tick w))
          (wrap_ok _ (calm (tick w)) _ (id_read s.created_by (tick w) valid.user_id))
      ∙ bind_ok _ _ (calm (tick w))
          (wrap_ok _ (calm (tick w)) _ (id_read s.dataset_id (tick w) valid.dataset_id))
      ∙ bind_ok _ _ (calm (tick w)) is_written
      ∙ is_counted

  -- The world after the gateway has handled the message about the job's end.
  abbrev pub completed : World → World
  completed v = (handle_job_completed (job_completed created_job v).value v).1

  -- The counters after that.
  abbrev counters_after : Counters
  counters_after =
      change_counter one_less (counter_key (w.env.format_uuid workspace)) submitted.running_jobs

  off_counter : (completed (calm submitted)).running_jobs ≡ counters_after
  unfolding handle_job_completed decrement_running_jobs unmarshal_event actions call
  off_counter = refl

  submitted-count : count_of s.workspace_id submitted ≡ one_more (count_of s.workspace_id w)
  submitted-count =
      ap or_zero (counter_at-change one_more (counter_key s.workspace_id) w.running_jobs)

  count_after : ℤ
  count_after = or_zero (counter_at (counter_key s.workspace_id) counters_after)

  count_back :
      w.env.format_uuid workspace ≡ s.workspace_id → count_after ≡ count_of s.workspace_id w
  unfolding count_after
  count_back same = rw same (
      ap or_zero (counter_at-change one_less (counter_key s.workspace_id) submitted.running_jobs)
      ∙ ap one_less submitted-count
      ∙ one_less-one_more (count_of s.workspace_id w))

  count_stays :
      w.env.format_uuid workspace ≢ s.workspace_id
      → count_after ≡ one_more (count_of s.workspace_id w)
  unfolding count_after
  count_stays differ =
      ap or_zero (
        counter_at-change_other one_less (counter_key s.workspace_id)
          (counter_key (w.env.format_uuid workspace)) submitted.running_jobs
          (different (w.env.format_uuid workspace) s.workspace_id differ))
      ∙ submitted-count

  -- The job is created and counted, and its end leaves the count at `n`.
  abbrev pub IsCounted : ℤ → Result Job × World → Type 0
  IsCounted n x =
      (x.0 ≡ ok created_job)
      × (count_of s.workspace_id x.1 ≡ one_more (count_of s.workspace_id w))
      × (count_of s.workspace_id (completed x.1) ≡ n)

  IsCounted-at : {n : ℤ} → count_after ≡ n → IsCounted n (submit_job limiter s (calm w))
  unfolding count_after
  IsCounted-at {n} h = subst (IsCounted n) (sym submit_job_runs) (
    refl,
    submitted-count,
    ap (λ cs. or_zero (counter_at (counter_key s.workspace_id) cs)) off_counter ∙ h,
  )

  -- On a network that answers every call, for a workspace below its limit and a valid submission
  -- whose text for the workspace is the one that its UUID prints: the job is created and counted,
  -- and once the message about its end is handled, the count is what it was before.
  pub count_returns :
      w.env.format_uuid workspace ≡ s.workspace_id
      → IsCounted (count_of s.workspace_id w) (submit_job limiter s (calm w))
  count_returns same = IsCounted-at (count_back same)

  -- On a network that answers every call, for a workspace below its limit and a valid submission
  -- with another text for the workspace than its UUID prints: the job is created and counted, and
  -- the message about its end does not take it off the count again.
  pub count_leaks :
      w.env.format_uuid workspace ≢ s.workspace_id
      → IsCounted (one_more (count_of s.workspace_id w)) (submit_job limiter s (calm w))
  count_leaks differ = IsCounted-at (count_stays differ)
