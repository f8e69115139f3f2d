-- ===== src/Worker/Drain/Measure.antt =====
-- The attempts that pending tasks have left, when no job allows more than a number of retries, and
-- what the statements of internal/db/generated/tasks.sql.go do to their sum.
use mathlib.Core.Path.{subst}
use mini_databricks.Base.{
  ℕ, suc, ◌+◌, ◌-◌, ◌≤◌, ◌≡◌, sym, Bool, true, false, List, [], ◌∷◌, All, inl, inr, Bool-cases, map,
  update, update_none, ◌==◌, ==→eq, if◌then◌else◌, arith,
}
use mathlib.Core.List.{Memᴰ}
use mini_databricks.Base.Text.{Text}
use mini_databricks.Db.{Task, Uuid}
use mini_databricks.Db.Row.{task_has_id, is_pending}
use mini_databricks.Queries.Tasks.{back_to_pending}

-- The first attempt of a pending task and its retries.
abbrev pub attempts_left : ℕ → Task → ℕ
attempts_left limit t = if is_pending t.state then suc (limit - t.retry_count) else 0

unfoldable pub work_left : ℕ → List Task → ℕ
work_left limit [] = 0
work_left limit (t ∷ ts) = attempts_left limit t + work_left limit ts

-- A task that has attempts left is pending, and a list with none has no pending task.
pub none_pending :
    (limit : ℕ) (ts : List Task) → work_left limit ts ≡ 0 → All (λ t. is_pending t.state ≡ false) ts
unfolding work_left
none_pending limit [] h = tt
none_pending limit (t ∷ ts) h = elim (Bool-cases (is_pending t.state)) [
  | inl p ↦ absurd (ground (arith, p))
  | inr n ↦ (n, none_pending limit ts (ground (arith, n)))
]

-- No two rows have the same identifier.
abbrev pub Unique : List Uuid → Type 0
Unique [] = Unit
Unique (k ∷ ks) = All (λ j. (j == k) ≡ false) ks × Unique ks

abbrev pub ids_of : List Task → List Uuid
ids_of ts = map (λ t. t.id) ts

-- An update that takes its rows out of the queue.
pub work_left-update_out :
    (limit : ℕ) (p : Task → Bool) (f : Task → Task)
    → ((t : Task) → is_pending (f t).state ≡ false)
    → (ts : List Task) → work_left limit (update p f ts) ≤ work_left limit ts
unfolding work_left
work_left-update_out limit p f out [] = omega arith
work_left-update_out limit p f out (t ∷ ts) = elim (Bool-cases (p t)) [
  | inl hit ↦ rw (hit, out t) (omega (arith, work_left-update_out limit p f out ts))
  | inr miss ↦ rw miss (omega (arith, work_left-update_out limit p f out ts))
]

-- It takes the attempts of each such row with it.
pub work_left-taken :
    (limit : ℕ) (p : Task → Bool) (f : Task → Task)
    → ((t : Task) → is_pending (f t).state ≡ false)
    → (ts : List Task) {t : Task} → Memᴰ t ts
    → p t ≡ true
    → work_left limit (update p f ts) + attempts_left limit t ≤ work_left limit ts
unfolding work_left
work_left-taken limit p f out [] m hit = elim m [ ]
work_left-taken limit p f out (x ∷ ts) {t} (Memᴰ.head e) hit =
    let here : p x ≡ true = subst (λ y. p y ≡ true) e hit in
    subst
      (λ y.
        work_left limit (update p f (x ∷ ts)) + attempts_left limit y ≤ work_left limit (x ∷ ts))
      (sym e) (rw (here, out x) (omega (arith, work_left-update_out limit p f out ts)))
work_left-taken limit p f out (x ∷ ts) {t} (Memᴰ.tail m) hit = elim (Bool-cases (p x)) [
  | inl here ↦ rw (here, out x) (omega (arith, work_left-taken limit p f out ts m hit))
  | inr miss ↦ rw miss (omega (arith, work_left-taken limit p f out ts m hit))
]

-- The row with an identifier is the only one.
pub no_other :
    (k : Uuid) (ts : List Task)
    → All (λ j. (j == k) ≡ false) (ids_of ts)
    → All (λ t. task_has_id k t ≡ false) ts
no_other k [] h = tt
no_other k (t ∷ ts) h = (h.0, no_other k ts h.1)

-- A task with attempts left that is given back is one attempt poorer.
pub work_left-given_back :
    (limit : ℕ) (k : Uuid) (m : Text) (c : ℕ) (ts : List Task)
    → suc c ≤ limit
    → Unique (ids_of ts)
    → All (λ t. task_has_id k t ≡ true → t.retry_count ≡ c) ts
    → work_left limit (update (task_has_id k) (back_to_pending m) ts)
      ≤ work_left limit ts + (limit - c)
unfolding work_left
work_left-given_back limit k m c [] le u h = omega arith
work_left-given_back limit k m c (t ∷ ts) le u h = elim (Bool-cases (task_has_id k t)) [
  | inl hit ↦
      let same : t.id ≡ k = ==→eq t.id k hit in
      let others : All (λ j. (j == k) ≡ false) (ids_of ts) =
        subst (λ i. All (λ j. (j == i) ≡ false) (ids_of ts)) same u.0 in
      let count : t.retry_count ≡ c = h.0 hit in
      rw (hit, update_none (task_has_id k) (back_to_pending m) ts (no_other k ts others), count)
        (omega arith)
  | inr miss ↦ rw miss (omega (arith, work_left-given_back limit k m c ts le u.1 h.1))
]
