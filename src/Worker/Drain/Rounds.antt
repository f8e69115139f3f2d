-- ===== src/Worker/Drain/Rounds.antt =====
-- The workers' loop empties the queue (`Start` and `pollAndProcess` of services/worker).
use mathlib.Core.Path.{subst}
use mini_databricks.Base.{
  ℕ, zero, suc, ◌≤◌, ◌≡◌, ◌∙◌, refl, sym, ap, none, some, List, [], ◌∷◌, inl, inr, arith,
}
use mini_databricks.Base.Text.{Text}
use mini_databricks.Db.{Task}
use mini_databricks.World.{World, Env, Outcome, answered, calm, actions}
use mini_databricks.World.Keeps.{Keeps}
use mini_databricks.Worker.{poll_and_process, poll_rounds}
use mini_databricks.Worker.Steps.{StepsKeep}
use mini_databricks.Worker.Polls.{any_task, poll-Keeps}
use mini_databricks.Worker.Leases.{LeasesSound, poll-LeasesSound}
use mini_databricks.Worker.Drain.Limits.{JobsBounded}
use mini_databricks.Worker.Drain.Measure.{work_left, Unique, ids_of, none_pending}
use mini_databricks.Worker.Drain.Rows.{NonePending}
use mini_databricks.Worker.Drain.Polls.{poll-Settled}

no_work : (limit : ℕ) (ts : List Task) → NonePending ts → work_left limit ts ≡ 0
unfolding work_left
no_work limit [] h = refl
no_work limit (t ∷ ts) h = rw (h.0, no_work limit ts h.1)

module _ (env : Env) where
  abbrev pub SameEnv : World → Type 0
  SameEnv w = w.env ≡ env

  SameEnv-steps : (t : Task) → StepsKeep SameEnv t
  SameEnv-steps t = record {
    quiet = record {
      others = record {
        timeless = λ w h. h;
        run_started = λ w h. h;
        run_succeeded = λ w h. h;
        run_failed = λ w h. h;
        artifact = λ p w h. h;
        run_completed = λ s w h. h;
        job_completes = λ k s w h. h;
        published = λ m w h. h;
        counted = λ f w h. h;
      };
      state = λ s e w h. h;
      failed = λ m w h. h;
    };
    retried = λ m w h. h;
  }

  pub poll-SameEnv : (owner : Text) → Keeps SameEnv (poll_and_process owner)
  poll-SameEnv owner =
      poll-Keeps SameEnv (λ t. Unit {0}) (λ w h. h) owner (λ w h. h) (λ w h. any_task _)
        (λ t q. SameEnv-steps t)

module _ (limit : ℕ) (owner : Text) where
  -- What the rounds need of a world.
  record CanDrain (n : ℕ) (w : World) : Type 0 where
    answers : w.env.outcome ≡ λ _. answered
    closed : w.env.breaker ≡ λ _. none
    bounded : JobsBounded limit w.db.jobs
    unique : Unique (ids_of w.db.tasks)
    sound : LeasesSound w
    enough : work_left limit w.db.tasks ≤ n

  next_round : (n : ℕ) (w : World) → CanDrain (suc n) w → CanDrain n (poll_and_process owner w).1
  next_round n w h = elim (poll-Settled limit owner w h.bounded h.unique h.sound) [
    | inl less ↦ record {
      answers = ap (λ e. e.outcome) env_same ∙ h.answers;
      closed = ap (λ e. e.breaker) env_same ∙ h.closed;
      bounded = less.bounded;
      unique = subst Unique (sym less.same_ids) h.unique;
      sound = poll-LeasesSound owner w h.sound;
      enough = omega (arith, less.work, h.enough);
    }
    | inr (same, inl nothing) ↦ record {
      answers = ap (λ e. e.outcome) env_same ∙ h.answers;
      closed = ap (λ e. e.breaker) env_same ∙ h.closed;
      bounded = subst (λ db. JobsBounded limit db.jobs) (sym same) h.bounded;
      unique = subst (λ db. Unique (ids_of db.tasks)) (sym same) h.unique;
      sound = poll-LeasesSound owner w h.sound;
      enough =
          subst (λ db. work_left limit db.tasks ≤ n) (sym same)
            (rw (no_work limit w.db.tasks nothing) (omega arith));
    }
    | inr (same, inr (e, inl rejected)) ↦
        let clash : some e ≡ none = sym rejected ∙ ap (λ f. f w.calls) h.closed in
        absurd (ground arith)
    | inr (same, inr (e, inr not_done)) ↦
        let clash : Outcome.refused e ≡ answered = sym not_done ∙ ap (λ f. f w.calls) h.answers in
        absurd (ground arith)
  ]
    where
      env_same : (poll_and_process owner w).1.env ≡ w.env
      env_same = (poll-SameEnv w.env owner).run w refl

  rounds-drain : (n : ℕ) (w : World) → CanDrain n w → NonePending (poll_rounds n owner w).1.db.tasks
  unfolding poll_rounds actions
  rounds-drain zero w h = none_pending limit w.db.tasks (omega (arith, h.enough))
  rounds-drain (suc n) w h = rounds-drain n (poll_and_process owner w).1 (next_round n w h)

-- On a calm network the polls empty the queue, whatever the Python process does: where no job allows
-- more retries than a limit, the identifiers of the tasks are unique and the lease columns agree
-- with the states, no task is pending after as many polls as the pending tasks have attempts left.
pub poll_rounds_drain :
    (limit : ℕ) (owner : Text) (n : ℕ) (w : World)
    → JobsBounded limit w.db.jobs
    → Unique (ids_of w.db.tasks)
    → LeasesSound w
    → work_left limit w.db.tasks ≤ n
    → NonePending (poll_rounds n owner (calm w)).1.db.tasks
poll_rounds_drain limit owner n w bounded unique sound enough =
    rounds-drain limit owner n (calm w) (record {
      answers = refl;
      closed = refl;
      bounded = bounded;
      unique = unique;
      sound = sound;
      enough = enough;
    })
