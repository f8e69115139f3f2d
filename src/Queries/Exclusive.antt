-- ===== src/Queries/Exclusive.antt =====
-- Two leases never give out the same task, unless it is made pending in between.
use mathlib.Core.Path.{subst}
use mathlib.Core.List.{Memᴰ}
use mini_databricks.Base.{
  ◌≡◌, refl, ◌≢◌, inl, inr, true, false, some, List, [], ◌∷◌, All, Bool-cases, Option-cases, arith,
  ap, ◌∙◌, sym, ==→eq, update,
}
use mini_databricks.Base.Text.{Text}
use mini_databricks.Errors.{ok}
use mini_databricks.Db.{Db, Task, Timestamp, Uuid}
use mini_databricks.Db.Row.{task_has_id, is_pending}
use mini_databricks.Queries.Tasks.{is_leasable, oldest_leasable, lease_task, lease_found, lease_to}
use mini_databricks.Queries.Leasing.{lease_task_lem, oldest_leasable-All, returning_passes}

-- Every row with the identifier is in a state other than `PENDING`.
abbrev pub NotPending : Uuid → List Task → Type 0
NotPending k ts = All (λ x. task_has_id k x ≡ true → is_pending x.state ≡ false) ts

abbrev NotPendingRow : Uuid → Task → Type 0
NotPendingRow k x = task_has_id k x ≡ true → is_pending x.state ≡ false

pending_clash :
    (c : Task) (now : Timestamp) → is_pending c.state ≡ false → is_leasable now c ≡ true → ⊥
pending_clash c now p r = ground arith

pub chosen_ne :
    (k : Uuid) (now : Timestamp) (ts : List Task) {c : Task}
    → NotPending k ts
    → oldest_leasable now ts ≡ some c
    → task_has_id k c ≡ false
chosen_ne k now ts {c} h e =
    let (row, ready) = oldest_leasable-All (NotPendingRow k) now ts h e in
    elim (Bool-cases (task_has_id k c)) [
      | inl same ↦ absurd (pending_clash c now (row same) ready)
      | inr other ↦ other
    ]

All-get : (P : Task → Type 0) (ts : List Task) {x : Task} → All P ts → Memᴰ x ts → P x
All-get P [] h m = elim m [ ]
All-get P (y ∷ ys) h (Memᴰ.head e) = subst P (sym e) h.0
All-get P (y ∷ ys) h (Memᴰ.tail m) = All-get P ys h.1 m

-- A lease never gives a task whose rows are all out of `PENDING`.
pub lease-ne_NotPending :
    (k : Uuid) (owner : Text) (now : Timestamp) (db : Db) (t : Task)
    → NotPending k db.tasks
    → (lease_task owner now db).0 ≡ ok t
    → t.id ≢ k
lease-ne_NotPending k owner now db t h e same =
    let (c, l) = lease_task_lem owner now db t e in
    pending_clash c now
      (All-get (NotPendingRow k) db.tasks h l.present (id_matches c (sym l.same_id ∙ same)))
      l.leasable
  where
    id_matches : (c : Task) → c.id ≡ k → task_has_id k c ≡ true
    id_matches c e = ground arith

leased-NotPending :
    (owner : Text) (now : Timestamp) (k : Uuid) (ts : List Task)
    → NotPending k (update (task_has_id k) (lease_to owner now) ts)
leased-NotPending owner now k [] = tt
leased-NotPending owner now k (x ∷ xs) = elim (Bool-cases (task_has_id k x)) [
  | inl hit ↦ rw hit (λ _. refl, leased-NotPending owner now k xs)
  | inr miss ↦ rw miss (λ e. absurd (ground arith), leased-NotPending owner now k xs)
]

after_lease-NotPending :
    (owner : Text) (now : Timestamp) (db : Db) (t : Task)
    → (lease_task owner now db).0 ≡ ok t
    → NotPending t.id (lease_task owner now db).1.tasks
unfolding lease_task
after_lease-NotPending owner now db t h = elim (Option-cases (oldest_leasable now db.tasks)) [
  | inl e ↦ absurd (ground arith)
  | inr (c, e) ↦ rw e (
      subst (λ k. NotPending k (update (task_has_id c.id) (lease_to owner now) db.tasks))
        (returned_id c (rw e at h)) (leased-NotPending owner now c.id db.tasks))
]
  where
    returned_id : (c : Task) → (lease_found owner (some c) now db).0 ≡ ok t → c.id ≡ t.id
    returned_id c h =
        let (r, passes, eq) = returning_passes (task_has_id c.id) (lease_to owner now) db.tasks h in
        sym (ap (λ x. x.id) eq ∙ ==→eq r.id c.id passes)

-- Of two leases in a row, by any workers and at any times, the second never gives the task that the
-- first gave.
pub lease_task_exclusive :
    (a b : Text) (now later : Timestamp) (db : Db) (t u : Task)
    → (lease_task a now db).0 ≡ ok t
    → (lease_task b later (lease_task a now db).1).0 ≡ ok u
    → u.id ≢ t.id
lease_task_exclusive a b now later db t u first second =
    lease-ne_NotPending t.id b later (lease_task a now db).1 u
      (after_lease-NotPending a now db t first) second
