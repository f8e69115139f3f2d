-- ===== src/Worker/Drain/Rows.antt =====
-- Rows with unique identifiers, and what is left when no task can be leased.
use mathlib.Core.Path.{subst}
use mathlib.Core.List.{Memᴰ}
use mini_databricks.Base.{
  ℕ, ◌≡◌, sym, Bool, true, false, some, List, [], ◌∷◌, All, All-weaken, first, inl, inr, Bool-cases,
  ◌==◌, arith,
}
use mini_databricks.Db.{Task}
use mini_databricks.Db.Row.{task_has_id, is_pending}
use mini_databricks.Queries.Tasks.{is_leasable}
use mini_databricks.Worker.Leases.{IsLeaseSound}
use mini_databricks.Worker.Drain.Measure.{Unique, ids_of, no_other}

abbrev pub NonePending : List Task → Type 0
NonePending ts = All (λ t. is_pending t.state ≡ false) ts

pub of_Memᴰ : (P : Task → Type 0) (ts : List Task) {t : Task} → All P ts → Memᴰ t ts → P t
of_Memᴰ P [] a m = elim m [ ]
of_Memᴰ P (x ∷ ts) a (Memᴰ.head e) = subst P (sym e) a.0
of_Memᴰ P (x ∷ ts) a (Memᴰ.tail m) = of_Memᴰ P ts a.1 m

-- A row is the only one with its identifier.
pub only_row :
    (ts : List Task) {t : Task}
    → Unique (ids_of ts)
    → Memᴰ t ts
    → All (λ r. task_has_id t.id r ≡ true → r ≡ t) ts
only_row [] u m = elim m [ ]
only_row (x ∷ ts) {t} u (Memᴰ.head e) = (
  λ h. sym e,
  All-weaken (λ r. task_has_id x.id r ≡ false) _
      (λ r miss hit.
        absurd (clash r.id x.id miss (subst (λ (y : Task). (r.id == y.id) ≡ true) e hit)))
      ts (no_other x.id ts u.0),
)
  where
    clash : (a b : ℕ) → (a == b) ≡ false → (a == b) ≡ true → ⊥
    clash a b f t = ground arith
only_row (x ∷ ts) {t} u (Memᴰ.tail m) =
    (λ h. absurd (clash x.id t.id h (of_Memᴰ _ ts (no_other x.id ts u.0) m)), only_row ts u.1 m)
  where
    clash : (a b : ℕ) → (a == b) ≡ true → (b == a) ≡ false → ⊥
    clash a b f t = ground arith

-- A pending task whose lease columns are sound can be leased.
pending_leasable :
    (now : ℕ) (t : Task) → IsLeaseSound t → is_leasable now t ≡ false → is_pending t.state ≡ false
pending_leasable now t s h = grind (arith, s.pending_expiry)

pub first_only :
    (p : Task → Bool) (ts : List Task) {c : Task}
    → Memᴰ c ts
    → p c ≡ true
    → All (λ r. p r ≡ true → r ≡ c) ts
    → first p ts ≡ some c
first_only p [] m h a = elim m [ ]
first_only p (x ∷ ts) {c} m h a = elim (Bool-cases (p x)) [
  | inl hit ↦ rw (hit, a.0 hit)
  | inr miss ↦ rw miss (first_only p ts (later miss m) h a.1)
]
  where
    later : p x ≡ false → Memᴰ c (x ∷ ts) → Memᴰ c ts
    later miss (Memᴰ.head e) = absurd (ground (arith, subst (λ y. p y ≡ true) e h))
    later miss (Memᴰ.tail m) = m

pub none_leasable :
    (now : ℕ) (ts : List Task)
    → All IsLeaseSound ts
    → All (λ t. is_leasable now t ≡ false) ts
    → NonePending ts
none_leasable now [] s h = tt
none_leasable now (t ∷ ts) s h = (pending_leasable now t s.0 h.0, none_leasable now ts s.1 h.1)
