-- ===== src/Worker/System/Turns.antt =====
-- What one poll does to the rows of the tasks: at most a lease, and at most one end of that task
-- (`pollAndProcess` of services/worker).
use mathlib.Core.Path.{subst}
use mini_databricks.Base.{◌≡◌, sym, ℕ, Bool, true, false, some, List, update, if◌then◌else◌}
use mini_databricks.Base.Text.{Text}
use mini_databricks.Errors.{GoError, Result, ok, err}
use mini_databricks.Db.{Task, TaskState}
use mini_databricks.Db.Row.{task_has_id, is_cancelled}
use mini_databricks.World.{World, Action, Done, Query, on_db, query, ignore}
use mini_databricks.World.Keeps.{
  Keeps, Keeps-attempt, Keeps-ignore, Keeps-query, Keeps-modify, Keeps-then, Keeps-raise,
}
use mini_databricks.World.Ends.{Ends, Ends-Keeps, Ends-bind, Ends-then, Ends-query}
use mini_databricks.Queries.Tasks.{
  oldest_leasable, update_task_state, retry_task, fail_task_with_error,
}
use mini_databricks.Queries.Runs.{task_succeeded, task_failed}
use mini_databricks.Worker.{
  can_retry, retry, fail_permanently, on_failure, on_success, succeed, after_process, start_task,
  run_leased, mark_dead,
}
use mini_databricks.Worker.Steps.{
  OtherSteps, others_of_tasks, get_job-Keeps, get_state-Keeps, process-Keeps, started-Keeps,
  check-Keeps,
}
use mini_databricks.Worker.System.{Ending, dies, succeeds, fails, goes_back, leased_tasks}

-- The rows after one worker's turn: as they were, with the oldest task leased, or with that task
-- leased and ended.
pub data Turn (owner : Text) (ts : List Task) : List Task → Type 0 where
  no_lease : Turn owner ts ts
  leased_only :
      (now : ℕ) {c : Task}
      → oldest_leasable now ts ≡ some c
      → Turn owner ts (leased_tasks owner now c ts)
  leased_ended :
      (now : ℕ) {c : Task} {f : Task → Task}
      → oldest_leasable now ts ≡ some c
      → Ending f
      → Turn owner ts (update (task_has_id c.id) f (leased_tasks owner now c ts))

module _ (owner : Text) (ts : List Task) where
  abbrev pub Turned : World → Type 0
  Turned v = Turn owner ts v.db.tasks

  module _ (now : ℕ) (c : Task) (chosen : oldest_leasable now ts ≡ some c) (t : Task)
      (same : t.id ≡ c.id) where
    -- The worker has the leased task in hand.
    abbrev pub Hand : World → Type 0
    Hand v = v.db.tasks ≡ leased_tasks owner now c ts

    pub given_up : (v : World) → Hand v → Turned v
    given_up v h = subst (Turn owner ts) (sym h) (Turn.leased_only now chosen)

    ended :
        {f : Task → Task}
        → Ending f
        → (v : World) → Hand v
        → Turn owner ts (update (task_has_id t.id) f v.db.tasks)
    ended {f} e v h =
        subst (λ k. Turn owner ts (update (task_has_id k) f v.db.tasks)) (sym same)
          (subst (λ us. Turn owner ts (update (task_has_id c.id) f us)) (sym h)
            (Turn.leased_ended now chosen e))

    Hand-steps : OtherSteps Hand t
    Hand-steps = others_of_tasks (λ us. us ≡ leased_tasks owner now c ts) t

    Turned-steps : OtherSteps Turned t
    Turned-steps = others_of_tasks (Turn owner ts) t

    -- A statement on the task's row ends the task, or its error leaves it leased.
    ending :
        (q : Query Task)
        → ((v : World) → Hand v → Turned (on_db q v).1)
        → Ends Hand (query q) (λ r v. Turned v)
    ending q ends = Ends-query q (λ v h. h) ends (λ e v h. given_up v h) (λ e v h. ends v h)

    ending_ignored :
        (q : Query Task)
        → ((v : World) → Hand v → Turned (on_db q v).1)
        → Ends Hand (ignore (query q)) (λ r v. Turned v)
    unfolding ignore
    ending_ignored q ends = record { run = (ending q ends).run }

    -- Once the task has ended, the rest leaves the rows as they are.
    rest-Turned : {A : Type 0} {m : Action A} → Keeps Turned m → Ends Turned m (λ r v. Turned v)
    rest-Turned k = Ends-Keeps k

    mark_dead-Turned : Ends Hand (mark_dead t) (λ r v. Turned v)
    unfolding mark_dead update_task_state
    mark_dead-Turned =
        Ends-then (ending_ignored (update_task_state t.id TaskState.dead) (ended dies))
          (λ d. rest-Turned (Keeps-modify Turned (λ v h. h) _ (λ v h. h))) (λ e v h. h)

    succeed-Turned : Ends Hand (succeed t) (λ r v. Turned v)
    unfolding succeed update_task_state task_succeeded
    succeed-Turned =
        Ends-then (ending (update_task_state t.id TaskState.succeeded) (ended succeeds))
          (λ d. rest-Turned (
            Keeps-then Turned (λ v h. h)
              (Keeps-ignore Turned (λ v h. h)
                (Keeps-query Turned (λ v h. h) (task_succeeded t.run_id) (λ v h. h)))
              (Keeps-then Turned (λ v h. h)
                (Keeps-ignore Turned (λ v h. h) (check-Keeps Turned t Turned-steps))
                (Keeps-modify Turned (λ v h. h) _ (λ v h. h)))))
          (λ e v h. h)

    fail-Turned : (e : GoError) → Ends Hand (fail_permanently t e) (λ r v. Turned v)
    unfolding fail_permanently fail_task_with_error task_failed
    fail-Turned e =
        Ends-then (ending_ignored (fail_task_with_error t.id _) (λ v h. ended (fails _ v.now) v h))
          (λ d. rest-Turned (
            Keeps-then Turned (λ v h. h)
              (Keeps-ignore Turned (λ v h. h)
                (Keeps-query Turned (λ v h. h) (task_failed t.run_id) (λ v h. h)))
              (Keeps-then Turned (λ v h. h) (Keeps-modify Turned (λ v h. h) _ (λ v h. h))
                (Keeps-raise Turned (λ v h. h) e))))
          (λ e v h. h)

    retry-Turned : (e : GoError) → Ends Hand (retry t e) (λ r v. Turned v)
    unfolding retry retry_task
    retry-Turned e = ending_ignored (retry_task t.id _) (ended (goes_back _))

    either :
        {m k : Action Done} (b : Bool)
        → Ends Hand m (λ r v. Turned v)
        → Ends Hand k (λ r v. Turned v)
        → Ends Hand (if b then m else k) (λ r v. Turned v)
    either true em ek = em
    either false em ek = ek

    on_success-Turned : Ends Hand (on_success t) (λ r v. Turned v)
    unfolding on_success
    on_success-Turned =
        Ends-bind (Ends-Keeps (get_state-Keeps Hand t Hand-steps))
          (λ s. either (is_cancelled s) mark_dead-Turned succeed-Turned) (λ e v h. given_up v h)

    after_process-Turned : (r : Result Done) → Ends Hand (after_process t r) (λ r v. Turned v)
    unfolding on_failure
    after_process-Turned (ok d) = on_success-Turned
    after_process-Turned (err e) =
        Ends-bind (Ends-Keeps (Keeps-attempt Hand (λ v h. h) (get_job-Keeps Hand t Hand-steps)))
          (λ job. either (can_retry job t e) (retry-Turned e) (fail-Turned e))
          (λ e v h. given_up v h)

    start_task-Turned : Ends Hand (start_task t) (λ r v. Turned v)
    unfolding start_task
    start_task-Turned =
        Ends-then (Ends-Keeps (started-Keeps Hand t Hand-steps))
          (λ d.
            Ends-bind (Ends-Keeps (Keeps-attempt Hand (λ v h. h) (process-Keeps Hand t Hand-steps)))
              after_process-Turned (λ e v h. given_up v h))
          (λ e v h. given_up v h)

    pub run_leased-Turned : Ends Hand (run_leased t) (λ r v. Turned v)
    unfolding run_leased
    run_leased-Turned =
        Ends-bind (Ends-Keeps (get_state-Keeps Hand t Hand-steps))
          (λ s. either (is_cancelled s) mark_dead-Turned start_task-Turned) (λ e v h. given_up v h)
