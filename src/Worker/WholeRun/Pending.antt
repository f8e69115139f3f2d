-- ===== src/Worker/WholeRun/Pending.antt =====
-- How many tasks are pending, and how the end of one changes it.
use mathlib.Core.Path.{subst}
use mathlib.Core.List.{Memᴰ}
use mini_databricks.Base.{
  ℕ, suc, ◌+◌, ◌≡◌, sym, true, false, List, [], ◌∷◌, inl, inr, Bool-cases, update, update_none,
  ◌==◌, ==_refl, refl, if◌then◌else◌, arith,
}
use mini_databricks.Db.{Task}
use mini_databricks.Db.Row.{task_has_id, is_pending}
use mini_databricks.Worker.Drain.Measure.{Unique, ids_of, no_other}
use mini_databricks.Worker.Drain.Rows.{NonePending, of_Memᴰ}

unfoldable pub pending_count : List Task → ℕ
pending_count [] = 0
pending_count (t ∷ ts) = (if is_pending t.state then 1 else 0) + pending_count ts

pub none_counted : (ts : List Task) → NonePending ts → pending_count ts ≡ 0
unfolding pending_count
none_counted [] h = refl
none_counted (t ∷ ts) h = rw (h.0, none_counted ts h.1)

pub count_none : (ts : List Task) → pending_count ts ≡ 0 → NonePending ts
unfolding pending_count
count_none [] h = tt
count_none (t ∷ ts) h = elim (Bool-cases (is_pending t.state)) [
  | inl p ↦ absurd (ground (arith, p))
  | inr n ↦ (n, count_none ts (ground (arith, n)))
]

-- A pending task that is taken out of the queue is one less.
pub count_taken :
    (f : Task → Task)
    → ((t : Task) → is_pending (f t).state ≡ false)
    → (ts : List Task) {c : Task} → Unique (ids_of ts)
    → Memᴰ c ts
    → is_pending c.state ≡ true
    → suc (pending_count (update (task_has_id c.id) f ts)) ≡ pending_count ts
unfolding pending_count
count_taken f out [] u m p = elim m [ ]
count_taken f out (x ∷ ts) {c} u (Memᴰ.head e) p =
    subst
      (λ (y : Task).
        suc (pending_count (update (task_has_id y.id) f (x ∷ ts))) ≡ pending_count (x ∷ ts))
      (sym e)
      (rw
        (
          ==_refl x.id,
          out x,
          update_none (task_has_id x.id) f ts (no_other x.id ts u.0),
          subst (λ (y : Task). is_pending y.state ≡ true) e p,
        )
        (omega arith))
count_taken f out (x ∷ ts) {c} u (Memᴰ.tail m) p =
    rw (of_later (x.id) (c.id) (of_Memᴰ _ ts (no_other x.id ts u.0) m))
      (omega (arith, count_taken f out ts u.1 m p))
  where
    of_later : (a b : ℕ) → (b == a) ≡ false → (a == b) ≡ false
    of_later a b h = ground arith
