-- ===== src/Worker/PollEnds.antt =====
-- What a poll ends in, by how its lease ends (`pollAndProcess` of services/worker).
use mini_databricks.Base.{◌==◌, ◌≡◌, refl, true, Option, none, some, inl, inr, ◌⊎◌, Bool-cases}
use mini_databricks.Base.Text.{Text, codes, contains}
use mini_databricks.Errors.{GoError, Result, ok, err, error_text}
use mini_databricks.Db.{Task, uuid_nil}
use mini_databricks.World.{
  World, Outcome, answered, refused, lost, on_db, tick, settle, call, actions,
}
use mini_databricks.World.Ends.{Ends}
use mini_databricks.Queries.Tasks.{lease_task}
use mini_databricks.Worker.{
  breaker_execute, admit, poll_lease, leased_or_none, after_lease, poll_and_process, run_leased,
}

-- What holds of a task that the lease returns, and what holds when it returns none.
abbrev pub Got : (Task → World → Type 0) → (World → Type 0) → Result Task → World → Type 0
Got T Q (ok t) v = T t v
Got T Q (err e) v = Q v

-- What a poll from a world ends in: how it ends with a leased task, and how without one.
pub record PollCases (owner : Text) (T : Task → World → Type 0) (Q : World → Type 0) (w : World)
    : Type 0 where
  pub lease : Got T Q (on_db (lease_task owner) (tick w)).0 (on_db (lease_task owner) (tick w)).1
  pub left : (t : Task) (v : World) → T t v → Q v
  pub rejected : (e : GoError) → w.env.breaker w.calls ≡ some e → Q w
  pub not_done : (e : GoError) → w.env.outcome w.calls ≡ refused e → Q (tick w)
  pub runs : (t : Task) → Ends (T t) (run_leased t) (λ r v. Q v)

module _ (owner : Text) (T : Task → World → Type 0) (Q : World → Type 0) (w : World)
    (cases : PollCases owner T Q w) where
  open cases use {lease, left, rejected, not_done, runs}

  got_any : (r : Result Task) (v : World) → Got T Q r v → Q v
  got_any (ok t) v h = left t v h
  got_any (err e) v h = h

  -- No row stands for the task with no run.
  abbrev GoesOn : Result Task → World → Type 0
  GoesOn (ok t) v = (((t.run_id == uuid_nil) ≡ true) × Q v) ⊎ T t v
  GoesOn (err e) v = Q v

  settle-Got :
      (o : Outcome)
      → w.env.outcome w.calls ≡ o
      → Got T Q
          (settle o (on_db (lease_task owner)) (tick w)).0
          (settle o (on_db (lease_task owner)) (tick w)).1
  settle-Got answered e = lease
  settle-Got (refused x) e = not_done x e
  settle-Got (lost x) e = got_any _ _ lease

  none-GoesOn :
      (r : Result Task) (v : World)
      → Got T Q r v
      → GoesOn (leased_or_none r v).0 (leased_or_none r v).1
  unfolding actions
  none-GoesOn (ok t) v h = inr h
  none-GoesOn (err e) v h = elim (Bool-cases (contains (error_text e) (codes "no rows"))) [
    | inl no_row ↦ rw no_row (inl (refl, h))
    | inr real ↦ rw real h
  ]

  poll_lease-GoesOn : GoesOn (poll_lease owner w).0 (poll_lease owner w).1
  unfolding poll_lease actions call
  poll_lease-GoesOn = none-GoesOn _ _ (settle-Got (w.env.outcome w.calls) refl)

  admit-GoesOn :
      (o : Option GoError)
      → w.env.breaker w.calls ≡ o
      → GoesOn (admit o (poll_lease owner) w).0 (admit o (poll_lease owner) w).1
  unfolding actions
  admit-GoesOn none e = poll_lease-GoesOn
  admit-GoesOn (some x) e = rejected x e

  after_lease-Ends : (r : Result Task) (v : World) → GoesOn r v → Q (after_lease r v).1
  unfolding actions
  after_lease-Ends (err e) v h = h
  after_lease-Ends (ok t) v (inl (no_task, h)) = rw no_task h
  after_lease-Ends (ok t) v (inr h) = elim (Bool-cases (t.run_id == uuid_nil)) [
    | inl no_task ↦ rw no_task (left t v h)
    | inr found ↦ rw found ((runs t).run v h)
  ]

  -- A poll ends as each of its cases says.
  pub poll-Ends : Q (poll_and_process owner w).1
  unfolding poll_and_process breaker_execute actions
  poll-Ends = after_lease-Ends _ _ (admit-GoesOn (w.env.breaker w.calls) refl)
