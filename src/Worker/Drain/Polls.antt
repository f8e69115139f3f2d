-- ===== src/Worker/Drain/Polls.antt =====
-- What one poll does to the attempts left, however its calls end (services/worker).
use mathlib.Core.Path.{subst}
use mathlib.Core.List.{Memᴰ}
use mini_databricks.Base.{
  ℕ, suc, ◌+◌, ◌-◌, ◌≤◌, ◌≡◌, ◌∙◌, refl, sym, ap, true, some, All, All-weaken, All-update,
  map-update, update, inl, inr, Option-cases, ==_refl, arith, ◌⊎◌,
}
use mini_databricks.Base.Text.{Text}
use mini_databricks.Errors.{GoError}
use mini_databricks.Db.{Task}
use mini_databricks.Db.Row.{task_has_id, is_pending}
use mini_databricks.World.{World, refused, on_db, tick}
use mini_databricks.Queries.Tasks.{lease_task, lease_to, oldest_leasable}
use mini_databricks.Queries.Leasing.{oldest_leasable-All, oldest_leasable-none, All-Memᴰ}
use mini_databricks.World.Ends.{Ends}
use mini_databricks.Worker.PollEnds.{Got, poll-Ends}
use mini_databricks.Worker.{run_leased, poll_and_process}
use mini_databricks.Worker.Leases.{LeasesSound}
use mini_databricks.Worker.Drain.Limits.{JobsBounded}
use mini_databricks.Worker.Drain.Measure.{work_left, Unique, ids_of, work_left-taken}
use mini_databricks.Worker.Drain.Held.{Less, InHand, InHand-Less, run_leased-Less}
use mini_databricks.Worker.Drain.Rows.{NonePending, only_row, first_only, none_leasable}

module _ (limit : ℕ) (owner : Text) (w : World) (bounded : JobsBounded limit w.db.jobs)
    (unique : Unique (ids_of w.db.tasks)) (sound : LeasesSound w) where
  -- The poll has used an attempt up.
  abbrev pub Progress : World → Type 0
  Progress v = Less limit (ids_of w.db.tasks) unique (work_left limit w.db.tasks) v

  -- The lease is not made: the breaker is open, or its call is refused.
  abbrev pub NotAsked : Type 0
  NotAsked =
      (e : GoError) × ((w.env.breaker w.calls ≡ some e) ⊎ (w.env.outcome w.calls ≡ refused e))

  abbrev pub Settled : World → Type 0
  Settled v = Progress v ⊎ ((v.db ≡ w.db) × (NonePending w.db.tasks ⊎ NotAsked))

  abbrev Holds : Task → World → Type 0
  Holds t v = InHand limit (ids_of w.db.tasks) unique (work_left limit w.db.tasks) t v

  -- What the lease of a chosen task leaves.
  chosen_Taken :
      (now : ℕ) (c : Task)
      → Memᴰ c w.db.tasks
      → is_pending c.state ≡ true
      → (v : World) → v.db.jobs ≡ w.db.jobs
      → v.db.tasks ≡ update (task_has_id c.id) (lease_to owner now) w.db.tasks
      → Holds (lease_to owner now c) v
  chosen_Taken now c m pending v same_jobs rows = record {
    bounded = subst (JobsBounded limit) (sym same_jobs) bounded;
    same_ids =
        ap ids_of rows
        ∙ map-update (λ r. r.id) (task_has_id c.id) (lease_to owner now) (λ r _. refl) w.db.tasks;
    count = subst (All _) (sym rows) (
        All-update _ (task_has_id c.id) (lease_to owner now) (λ r _ h. h) w.db.tasks
          (All-weaken _ _ (λ r only hit. ap (λ (x : Task). x.retry_count) (only hit)) w.db.tasks
            (only_row w.db.tasks unique m)));
    work =
        subst (λ ts. work_left limit ts + suc (limit - c.retry_count) ≤ work_left limit w.db.tasks)
          (sym rows)
          (rw pending at (
            work_left-taken limit (task_has_id c.id) (lease_to owner now) (λ r. refl) w.db.tasks m
              (==_refl c.id)));
  }

  lease_Taken :
      Got Holds Settled (on_db (lease_task owner) (tick w)).0 (on_db (lease_task owner) (tick w)).1
  unfolding lease_task
  lease_Taken = elim (Option-cases (oldest_leasable (tick w).now w.db.tasks)) [
    | inl missed ↦ rw missed (
        inr (
          refl,
          inl (
              none_leasable (tick w).now w.db.tasks sound
                (oldest_leasable-none (tick w).now w.db.tasks missed)),
        ))
    | inr (c, chosen) ↦
        let (m, leasable) =
          oldest_leasable-All (λ x. Memᴰ x w.db.tasks) (tick w).now w.db.tasks
            (All-Memᴰ (λ x. Memᴰ x w.db.tasks) w.db.tasks (λ x m. m)) chosen in
        rw
          (
            chosen,
            first_only (task_has_id c.id) w.db.tasks m (==_refl c.id)
                (only_row w.db.tasks unique m),
          )
          (chosen_Taken (tick w).now c m (ground (arith, leasable))
            (record (tick w) {
              db = record w.db {
                tasks = update (task_has_id c.id) (lease_to owner (tick w).now) w.db.tasks;
              };
            })
            refl refl)
  ]

  -- Where no job allows more retries than a limit, the identifiers of the tasks are unique and the
  -- lease columns agree with the states: however its calls end, a poll either leaves fewer attempts
  -- than there were, or it changes no table, and then no task is pending or the lease has not been
  -- asked for: the breaker is open or the call is refused.
  pub poll-Settled : Settled (poll_and_process owner w).1
  poll-Settled = poll-Ends owner Holds Settled w (record {
    lease = lease_Taken;
    left = used_up;
    rejected = λ e closed. inr (refl, inr (e, inl closed));
    not_done = λ e refusal. inr (refl, inr (e, inr refusal));
    runs = runs;
  })
    where
      used_up : (t : Task) (v : World) → Holds t v → Settled v
      used_up t v h =
          inl (InHand-Less limit (ids_of w.db.tasks) unique (work_left limit w.db.tasks) t v h)

      runs : (t : Task) → Ends (Holds t) (run_leased t) (λ r v. Settled v)
      runs t = record {
        run = λ v h. inl (
            (run_leased-Less limit (ids_of w.db.tasks) unique (work_left limit w.db.tasks) t).run v
              h);
      }
