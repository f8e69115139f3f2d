-- ===== src/Worker/WholeRun/Rounds.antt =====
-- As many polls as a run has pending tasks (`Start` and `pollAndProcess` of services/worker).
use mathlib.Core.Path.{subst}
use mini_databricks.Base.{
  ℕ, zero, suc, ◌<◌, ◌≡◌, ◌∙◌, refl, sym, ap, false, none, [], ◌∷◌, ◌++◌, inl, inr, ◌==◌, arith,
}
use mini_databricks.Base.Text.{Text}
use mini_databricks.Db.{Run, Job, Dataset, Uuid, uuid_nil}
use mini_databricks.World.{World, answered, calm, actions}
use mini_databricks.Worker.{poll_and_process, poll_rounds, job_completed}
use mini_databricks.Worker.Drain.Rounds.{poll-SameEnv}
use mini_databricks.Worker.WholeRun.States.{ExitsWell, IsUnderWay, IsComplete}
use mini_databricks.Worker.WholeRun.Round.{poll-Stepped}

-- A world in which nothing fails is calm.
calm-same : (w : World) → w.env.outcome ≡ (λ _. answered) → w.env.breaker ≡ (λ _. none) → calm w ≡ w
calm-same w q c = sym (
    subst (λ b. w ≡ record w { env = record w.env { outcome = λ _. answered; breaker = b } }) c
      (subst (λ o. w ≡ record w { env = record w.env { outcome = o } }) q refl))

-- A completion is told of any earlier world with the same topics and names.
pub moved :
    (k : Uuid) (total : ℕ) (j : Job) (w v u : World)
    → job_completed j v ≡ job_completed j w
    → v.topics ≡ w.topics
    → IsComplete k total j v u
    → IsComplete k total j w u
moved k total j w v u same_message same_topics h = record {
  run = h.run;
  has_run = h.has_run;
  state = h.state;
  all_counted = h.all_counted;
  tasks = h.tasks;
  job_time = h.job_time;
  job = h.job;
  message =
      h.message
      ∙ ap (λ m. v.topics ++ m ∷ []) same_message
      ∙ ap (λ ms. ms ++ job_completed j w ∷ []) same_topics;
}

module _ (owner : Text) (k : Uuid) (j : Job) (d : Dataset) (not_nil : (k == uuid_nil) ≡ false) where
  -- The polls one after the other, on a network that stays calm.
  rounds-IsComplete :
      (n : ℕ) (w : World) {r : Run}
      → ExitsWell w
      → IsUnderWay k r j d (suc n) w.db
      → IsComplete k r.tasks_total j w (poll_rounds (suc n) owner (calm w)).1
  unfolding poll_rounds actions
  rounds-IsComplete zero w {r} well h = elim (poll-Stepped owner k j d w not_nil well 0 h) [
    | inl (last, complete) ↦ complete
    | inr (more, _, _, _, _) ↦ absurd (omega (arith, more))
  ]
  rounds-IsComplete (suc n) w {r} well h =
      elim (poll-Stepped owner k j d w not_nil well (suc n) h) [
        | inl (last, _) ↦ absurd (omega (arith, last))
        | inr (_, s, same_total, under_way, same_topics) ↦
            subst (λ m. IsComplete k m j w (poll_rounds (suc n) owner next).1) same_total
              (moved k s.tasks_total j w next (poll_rounds (suc n) owner next).1
                (ap (λ e. job_completed j (record w { env = e })) same_env) same_topics
                (subst (λ v. IsComplete k s.tasks_total j next (poll_rounds (suc n) owner v).1)
                  (calm-same next (ap (λ e. e.outcome) same_env) (ap (λ e. e.breaker) same_env))
                  (rounds-IsComplete n next
                    (subst (λ e. ExitsWell (record w { env = e })) (sym same_env) well) under_way)))
      ]
    where
      next : World
      next = (poll_and_process owner (calm w)).1

      same_env : (poll_and_process owner (calm w)).1.env ≡ (calm w).env
      same_env = (poll-SameEnv (calm w).env owner).run (calm w) refl

-- On a network that answers every call, when the Python process of every task exits well: a run
-- that is under way with pending tasks is complete after as many polls as it has pending tasks. All
-- of its tasks have succeeded and are counted, the run and its job have succeeded, and one
-- `job.completed` message about the job is published. Under way means that the rows of the run, its
-- job and its dataset are there, the run is not cancelled and none of its tasks has failed, the done
-- and the pending tasks make up its total, its other tasks have succeeded and no other run's task is
-- pending, the tasks' identifiers are unique and their lease columns agree with their states.
pub poll_rounds-IsComplete :
    (owner : Text) (k : Uuid) (r : Run) (j : Job) (d : Dataset) (n : ℕ) (w : World)
    → (k == uuid_nil) ≡ false
    → ExitsWell w
    → 0 < n
    → IsUnderWay k r j d n w.db
    → IsComplete k r.tasks_total j w (poll_rounds n owner (calm w)).1
poll_rounds-IsComplete owner k r j d zero w not_nil well more h = absurd (omega (arith, more))
poll_rounds-IsComplete owner k r j d (suc n) w not_nil well more h =
    rounds-IsComplete owner k j d not_nil n w well h
