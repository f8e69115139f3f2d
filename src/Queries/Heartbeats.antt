-- ===== src/Queries/Heartbeats.antt =====
-- Whose lease a heartbeat extends.
use mathlib.Core.Path.{subst}
use mathlib.Core.List.{Memᴰ}
use mini_databricks.Base.{
  ◌+◌, ◌≡◌, refl, ap, Bool, true, false, ◌&&◌, Option, none, some, List, [], ◌∷◌, All, first, ==→eq,
  ==_refl, arith, Bool-cases, inl, inr, ◌⊎◌, Option-cases, update, update_none,
}
use mini_databricks.Base.Text.{Text, same_text→eq, same_text_refl}
use mini_databricks.Errors.{Result, ok, err}
use mini_databricks.Db.{Db, Task, Uuid, Timestamp}
use mini_databricks.Db.Row.{task_has_id, column_equals}
use mini_databricks.Queries.Rows.{no_rows}
use mini_databricks.Queries.Tasks.{heartbeat_task, is_held_by, extend_lease}

-- The task with this identifier belongs to this worker.
abbrev pub IsHeld : Uuid → Text → Task → Type 0
IsHeld k owner t = (t.id ≡ k) × (t.lease_owner ≡ some owner)

owned : (o : Option Text) (owner : Text) → column_equals o owner ≡ true → o ≡ some owner
owned none owner h = cc
owned (some t) owner h = ap some (same_text→eq t owner h)

both : (a b : Bool) → (a && b) ≡ true → (a ≡ true) × (b ≡ true)
both true b h = (refl, h)
both false b h = cc

held : (k : Uuid) (owner : Text) (t : Task) → is_held_by k owner t ≡ true → IsHeld k owner t
held k owner t h =
    let (same, mine) = both (task_has_id k t) (column_equals t.lease_owner owner) h in
    (==→eq t.id k same, owned t.lease_owner owner mine)

not-IsHeld :
    (k : Uuid) (owner : Text) (t : Task) → is_held_by k owner t ≡ false → ¬ IsHeld k owner t
not-IsHeld k owner t miss (same, mine) =
    let hit : is_held_by k owner t ≡ true =
      rw (same, mine) (rw (==_refl k, same_text_refl owner) refl) in
    absurd (ground (arith, miss, hit))

-- The row of a table before and after a heartbeat: a lease that the worker holds ends 30 seconds from
-- now, and every other row is as it was.
abbrev pub IsBeaten : Uuid → Text → Timestamp → Task → Task → Type 0
IsBeaten k owner now before after =
    (IsHeld k owner before × (after ≡ record before { lease_expires_at = some (now + 30) }))
    ⊎ ((¬ IsHeld k owner before) × (after ≡ before))

abbrev pub AllBeaten : Uuid → Text → Timestamp → List Task → List Task → Type 0
AllBeaten k owner now [] [] = Unit
AllBeaten k owner now (t ∷ ts) (u ∷ us) = IsBeaten k owner now t u × AllBeaten k owner now ts us
AllBeaten k owner now _ _ = (true ≡ false)

update-AllBeaten :
    (k : Uuid) (owner : Text) (now : Timestamp) (ts : List Task)
    → AllBeaten k owner now ts (update (is_held_by k owner) (extend_lease now) ts)
update-AllBeaten k owner now [] = tt
update-AllBeaten k owner now (t ∷ ts) = elim (Bool-cases (is_held_by k owner t)) [
  | inl hit ↦ rw hit (inl (held k owner t hit, refl), update-AllBeaten k owner now ts)
  | inr miss ↦ rw miss (inr (not-IsHeld k owner t miss, refl), update-AllBeaten k owner now ts)
]

none-IsHeld :
    (k : Uuid) (owner : Text) (ts : List Task)
    → first (is_held_by k owner) ts ≡ none
    → All (λ t. is_held_by k owner t ≡ false) ts × All (λ t. ¬ IsHeld k owner t) ts
none-IsHeld k owner [] h = (tt, tt)
none-IsHeld k owner (t ∷ ts) h = elim (Bool-cases (is_held_by k owner t)) [
  | inl hit ↦ absurd (ground (arith, rw hit at h))
  | inr miss ↦
      let (misses, rest) = none-IsHeld k owner ts (rw miss at h) in
      ((miss, misses), (not-IsHeld k owner t miss, rest))
]

first-IsHeld :
    (k : Uuid) (owner : Text) (ts : List Task) {t : Task}
    → first (is_held_by k owner) ts ≡ some t
    → Memᴰ t ts × IsHeld k owner t
first-IsHeld k owner [] h = cc
first-IsHeld k owner (x ∷ ts) {t} h = elim (Bool-cases (is_held_by k owner x)) [
  | inl hit ↦
      let same : x ≡ t = ground (arith, rw hit at h) in
      subst (λ y. Memᴰ y (x ∷ ts) × IsHeld k owner y) same (Memᴰ.head refl, held k owner x hit)
  | inr miss ↦ let (here, mine) = first-IsHeld k owner ts (rw miss at h) in (Memᴰ.tail here, mine)
]

-- A task of the table that the worker holds is returned with its lease extended, and the table's rows
-- are beaten; no other table changes.
abbrev pub IsExtended : Uuid → Text → Timestamp → Db → Result Task × Db → Type 0
IsExtended k owner now db x =
    (t : Task) × Memᴰ t db.tasks
    × IsHeld k owner t
    × (x.0 ≡ ok (record t { lease_expires_at = some (now + 30) }))
    × AllBeaten k owner now db.tasks x.1.tasks
    × (x.1 ≡ record db { tasks = x.1.tasks })

-- A heartbeat for an identifier and a worker, at a time. Either some task of the table has the
-- identifier and the worker as its lease owner, and then such a task is returned with a lease until
-- 30 seconds from that time, every row of such a task has this lease, and the other rows and the
-- other tables are as they were; or no task of the table has them, and then the heartbeat fails with
-- `no rows` and changes nothing.
pub heartbeat_task_lem :
    (k : Uuid) (owner : Text) (now : Timestamp) (db : Db)
    → IsExtended k owner now db (heartbeat_task k owner now db)
      ⊎ (All (λ t. ¬ IsHeld k owner t) db.tasks
          × (heartbeat_task k owner now db ≡ (err no_rows, db)))
unfolding heartbeat_task
heartbeat_task_lem k owner now db = elim (Option-cases (first (is_held_by k owner) db.tasks)) [
  | inl e ↦
      let (misses, nobody) = none-IsHeld k owner db.tasks e in
      inr (nobody, rw (e, update_none (is_held_by k owner) (extend_lease now) db.tasks misses) refl)
  | inr (t, e) ↦
      let (here, mine) = first-IsHeld k owner db.tasks e in
      inl (t, here, mine, rw e refl, update-AllBeaten k owner now db.tasks, refl)
]
