-- ===== src/Queries/Leasing.antt =====
-- Which task `LeaseTask` takes.
use mathlib.Core.Path.{subst}
use mini_databricks.Base.{
  ℕ, ◌≤◌, ◌≡◌, refl, ◌⊎◌, inl, inr, Bool, true, false, Option, none, some, List, [], ◌∷◌, All,
  Bool-cases, Option-cases, leb, arith, ap, ◌∙◌, ◌+◌, first, first_passes, ==→eq,
}
use mathlib.Core.List.{Memᴰ}
use mini_databricks.Base.Text.{Text}
use mini_databricks.Errors.{ok}
use mini_databricks.Db.{Db, Task, TaskState, Timestamp}
use mini_databricks.Db.Row.{task_has_id}
use mini_databricks.Queries.Rows.{returning}
use mini_databricks.Queries.Tasks.{
  oldest_leasable, is_leasable, older, lease_task, lease_found, lease_to, lease_seconds,
}

older_cases : (t : Task) (o : Option Task) {r : Task} → older t o ≡ some r → (t ≡ r) ⊎ (o ≡ some r)
older_cases t none h = inl (ground arith)
older_cases t (some u) h = elim (Bool-cases (leb t.created_at u.created_at)) [
  | inl first ↦ inl (ground arith)
  | inr later ↦ inr (ground arith)
]

older-le :
    (t : Task) (o : Option Task) {r : Task} → older t o ≡ some r → r.created_at ≤ t.created_at
older-le t none h = ground arith
older-le t (some u) h = ground arith

older-le_other : (t u : Task) {r : Task} → older t (some u) ≡ some r → r.created_at ≤ u.created_at
older-le_other t u h = ground arith

-- The chosen task has what every task has, and can be leased.
pub oldest_leasable-All {ℓ} :
    (R : Task → Type ℓ) (now : Timestamp) (ts : List Task) {t : Task}
    → All R ts
    → oldest_leasable now ts ≡ some t
    → R t × (is_leasable now t ≡ true)
unfolding oldest_leasable
oldest_leasable-All R now [] a h = cc
oldest_leasable-All R now (u ∷ us) {t} a h = elim (Bool-cases (is_leasable now u)) [
  | inr miss ↦ oldest_leasable-All R now us a.1 (rw miss at h)
  | inl hit ↦ elim (older_cases u (oldest_leasable now us) (rw hit at h)) [
    | inl e ↦ subst (λ x. R x × (is_leasable now x ≡ true)) e (a.0, hit)
    | inr e ↦ oldest_leasable-All R now us a.1 e
  ]
]

-- No leasable task is older than the bound.
abbrev pub NoneOlder : Timestamp → ℕ → List Task → Type 0
NoneOlder now bound ts = All (λ x. is_leasable now x ≡ true → bound ≤ x.created_at) ts

NoneOlder-le :
    (now bound b : ℕ) (ts : List Task) → b ≤ bound → NoneOlder now bound ts → NoneOlder now b ts
NoneOlder-le now bound b [] le h = tt
NoneOlder-le now bound b (x ∷ xs) le h =
    (λ l. omega (arith, h.0 l), NoneOlder-le now bound b xs le h.1)

-- With no task chosen, none can be leased.
pub oldest_leasable-none :
    (now : Timestamp) (ts : List Task)
    → oldest_leasable now ts ≡ none
    → All (λ x. is_leasable now x ≡ false) ts
unfolding oldest_leasable
oldest_leasable-none now [] h = tt
oldest_leasable-none now (u ∷ us) h = elim (Bool-cases (is_leasable now u)) [
  | inr miss ↦ (miss, oldest_leasable-none now us (rw miss at h))
  | inl hit ↦ absurd (older-ne-none u (oldest_leasable now us) (rw hit at h))
]
  where
    older-ne-none : (t : Task) (o : Option Task) → older t o ≡ none → ⊥
    older-ne-none t none h = cc
    older-ne-none t (some u) h = ground arith

none_leasable_bound :
    (now b : ℕ) (ts : List Task) → All (λ x. is_leasable now x ≡ false) ts → NoneOlder now b ts
none_leasable_bound now b [] h = tt
none_leasable_bound now b (x ∷ xs) h = (λ l. ground (arith, h.0), none_leasable_bound now b xs h.1)

-- No task that can be leased is older than the chosen one.
pub oldest_leasable-NoneOlder :
    (now : Timestamp) (ts : List Task) {t : Task}
    → oldest_leasable now ts ≡ some t
    → NoneOlder now t.created_at ts
unfolding oldest_leasable
oldest_leasable-NoneOlder now [] h = tt
oldest_leasable-NoneOlder now (u ∷ us) {t} h = elim (Bool-cases (is_leasable now u)) [
  | inr miss ↦ (λ l. absurd (ground arith), oldest_leasable-NoneOlder now us (rw miss at h))
  | inl hit ↦ elim (Option-cases (oldest_leasable now us)) [
    | inl e ↦ (
      λ _. older-le u (oldest_leasable now us) (rw hit at h),
      none_leasable_bound now t.created_at us (oldest_leasable-none now us e),
    )
    | inr (v, e) ↦ (
      λ _. older-le u (oldest_leasable now us) (rw hit at h),
      NoneOlder-le now v.created_at t.created_at us (older-le_other u v {r = t} (rw (hit, e) at h))
          (oldest_leasable-NoneOlder now us e),
    )
  ]
]

-- The row that the update returns is the chosen one, or another of its identifier.
pub returning_passes :
    (p : Task → Bool) (f : Task → Task) (ts : List Task) {t : Task}
    → returning p f ts ≡ ok t
    → (r : Task) × (p r ≡ true) × (t ≡ f r)
returning_passes p f ts {t} h = elim (Option-cases (first p ts)) [
  | inl e ↦ absurd (ground arith)
  | inr (r, e) ↦ (r, first_passes p ts e, ground arith)
]

pub All-Memᴰ : (P : Task → Type 0) (ts : List Task) → ((x : Task) → Memᴰ x ts → P x) → All P ts
All-Memᴰ P [] h = tt
All-Memᴰ P (x ∷ xs) h = (h x (Memᴰ.head refl), All-Memᴰ P xs (λ y m. h y (Memᴰ.tail m)))

-- What a successful lease has chosen and what it returns.
pub record IsLease (owner : Text) (now : Timestamp) (db : Db) (t chosen : Task) : Type 0 where
  pub present : Memᴰ chosen db.tasks
  pub leasable : is_leasable now chosen ≡ true
  pub oldest : NoneOlder now chosen.created_at db.tasks
  pub same_id : t.id ≡ chosen.id
  pub state : t.state ≡ TaskState.leased
  pub held : t.lease_owner ≡ some owner
  pub expires : t.lease_expires_at ≡ some (now + lease_seconds)

-- A lease that succeeds has chosen a pending task whose lease columns are free, no task that could
-- be leased is older than the chosen one, and the task returned has its identifier, is leased, to
-- this owner, until 30 seconds from now.
pub lease_task_lem :
    (owner : Text) (now : Timestamp) (db : Db) (t : Task)
    → (lease_task owner now db).0 ≡ ok t
    → (chosen : Task) × IsLease owner now db t chosen
unfolding lease_task
lease_task_lem owner now db t h = elim (Option-cases (oldest_leasable now db.tasks)) [
  | inl e ↦ absurd (ground arith)
  | inr (c, e) ↦ (c, leased c e (rw e at h))
]
  where
    leased :
        (c : Task)
        → oldest_leasable now db.tasks ≡ some c
        → (lease_found owner (some c) now db).0 ≡ ok t
        → IsLease owner now db t c
    leased c e h =
        let (mem, ready) =
          oldest_leasable-All (λ x. Memᴰ x db.tasks) now db.tasks
            (All-Memᴰ (λ x. Memᴰ x db.tasks) db.tasks (λ x m. m)) e in
        let (r, passes, eq) = returning_passes (task_has_id c.id) (lease_to owner now) db.tasks h in
        record {
          present = mem;
          leasable = ready;
          oldest = oldest_leasable-NoneOlder now db.tasks e;
          same_id = ap (λ x. x.id) eq ∙ ==→eq r.id c.id passes;
          state = ap (λ x. x.state) eq;
          held = ap (λ x. x.lease_owner) eq;
          expires = ap (λ x. x.lease_expires_at) eq;
        }
