-- ===== src/Worker/Polls.antt =====
-- A poll keeps a property of the world if the lease does and every statement that can follow it.
use mini_databricks.Base.{◌≡◌, refl, ◌⊎◌, inl, inr, true, Option, none, some, ◌==◌, Bool-cases}
use mini_databricks.Base.Text.{Text, codes, contains}
use mini_databricks.Errors.{GoError, Result, ok, err, error_text}
use mini_databricks.Db.{Task, uuid_nil}
use mini_databricks.World.{World, Outcome, answered, refused, lost, on_db, tick, settle, actions}
use mini_databricks.World.Keeps.{Keeps, IsTimeless}
use mini_databricks.Queries.Tasks.{lease_task}
use mini_databricks.Worker.{admit, poll_lease, leased_or_none, after_lease, poll_and_process}
use mini_databricks.Worker.Steps.{StepsKeep, run_leased-Keeps}

abbrev pub GivesTask : (Task → Type 0) → Result Task → Type 0
GivesTask Q (ok t) = Q t
GivesTask Q (err e) = Unit {0}

pub any_task : (r : Result Task) → GivesTask (λ t. Unit {0}) r
any_task (ok t) = tt
any_task (err e) = tt

pub gives_of_ok :
    (Q : Task → Type 0) (r : Result Task) → ((t : Task) → r ≡ ok t → Q t) → GivesTask Q r
gives_of_ok Q (ok t) h = h t refl
gives_of_ok Q (err e) h = tt

module _ (P : World → Type 0) (Q : Task → Type 0) (timeless : IsTimeless P) (owner : Text)
    (lease : (w : World) → P w → P (on_db (lease_task owner) w).1)
    (gives : (w : World) → P w → GivesTask Q (on_db (lease_task owner) w).0)
    (steps : (t : Task) → Q t → StepsKeep P t) where
  -- What the poll goes on with: no task, or one that the lease gave.
  abbrev Leased : Task → Type 0
  Leased t = ((t.run_id == uuid_nil) ≡ true) ⊎ Q t

  settle_gives :
      (o : Outcome) (w : World)
      → P w
      → P (settle o (on_db (lease_task owner)) w).1
        × GivesTask Q (settle o (on_db (lease_task owner)) w).0
  settle_gives answered w h = (lease w h, gives w h)
  settle_gives (refused e) w h = (h, tt)
  settle_gives (lost e) w h = (lease w h, tt)

  none_gives :
      (r : Result Task) (w : World)
      → P w
      → GivesTask Q r
      → P (leased_or_none r w).1 × GivesTask Leased (leased_or_none r w).0
  unfolding actions
  none_gives (ok t) w h q = (h, inr q)
  none_gives (err e) w h q = elim (Bool-cases (contains (error_text e) (codes "no rows"))) [
    | inl no_row ↦ rw no_row (h, inl refl)
    | inr real ↦ rw real (h, tt)
  ]

  poll_lease_gives :
      (w : World) → P w → P (poll_lease owner w).1 × GivesTask Leased (poll_lease owner w).0
  unfolding poll_lease actions
  poll_lease_gives w h =
      let (p, q) = settle_gives (w.env.outcome w.calls) (tick w) (timeless w h) in
      none_gives _ _ p q

  admit_gives :
      (o : Option GoError) (w : World)
      → P w
      → P (admit o (poll_lease owner) w).1 × GivesTask Leased (admit o (poll_lease owner) w).0
  unfolding actions
  admit_gives none w h = poll_lease_gives w h
  admit_gives (some e) w h = (h, tt)

  after_lease_keeps :
      (r : Result Task) (w : World) → P w → GivesTask Leased r → P (after_lease r w).1
  unfolding actions
  after_lease_keeps (err e) w h q = h
  after_lease_keeps (ok t) w h (inl no_task) = rw no_task h
  after_lease_keeps (ok t) w h (inr q) = elim (Bool-cases (t.run_id == uuid_nil)) [
    | inl no_task ↦ rw no_task h
    | inr found ↦ rw found ((run_leased-Keeps P t (steps t q)).run w h)
  ]

  pub poll-Keeps : Keeps P (poll_and_process owner)
  unfolding poll_and_process actions
  poll-Keeps = record {
    run = λ w h. let (p, q) = admit_gives (w.env.breaker w.calls) w h in after_lease_keeps _ _ p q;
  }
