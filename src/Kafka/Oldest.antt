-- ===== src/Kafka/Oldest.antt =====
-- Which events of the outbox a dispatch takes (`GetPendingOutboxEvents`), told by the rows themselves.
use mathlib.Core.Path.{subst}
use mathlib.Core.List.{Perm, perm_middle}
use mathlib.Core.List.Perm
use mini_databricks.Base.{
  ℕ, zero, suc, ◌≤◌, ◌≡◌, refl, ap, Bool, true, false, List, [], ◌∷◌, ◌++◌, All, inl, inr, ◌⊎◌,
  Bool-cases, select, insert_by, order_by, take, drop, length, length-take-le, not, arith,
}
use mini_databricks.Base.Sorted.{All-order_by}
use mini_databricks.Db.{Outbox, OutboxStatus}
use mini_databricks.Db.Row.{outbox_is_pending}
use mini_databricks.Queries.Outbox.{pending_events, created_before}

-- No event is newer than one that follows it.
abbrev pub OldestFirst : List Outbox → Type 0
OldestFirst [] = Unit
OldestFirst (e ∷ es) = All (λ x. e.created_at ≤ x.created_at) es × OldestFirst es

-- The outbox has these events, the pending ones that are left, and those that are not pending. None of
-- the events is newer than one that is left, and some are left only when there are ten.
pub record IsOldestPending (rows es : List Outbox) : Type 0 where
  pub left : List Outbox
  pub settled : List Outbox
  pub parts : Perm rows ((es ++ left) ++ settled)
  pub pending : All (λ e. e.status ≡ OutboxStatus.pending) es
  pub left_pending : All (λ e. e.status ≡ OutboxStatus.pending) left
  pub not_pending : All (λ e. ¬ (e.status ≡ OutboxStatus.pending)) settled
  pub ordered : OldestFirst es
  pub oldest : All (λ e. All (λ x. e.created_at ≤ x.created_at) left) es
  pub at_most_ten : length es ≤ 10
  pub filled : (left ≡ []) ⊎ (length es ≡ 10)

abbrev select_others : List Outbox → List Outbox
select_others rows = select (λ e. not (outbox_is_pending e.status)) rows

abbrev select_pending : List Outbox → List Outbox
select_pending rows = select (λ e. outbox_is_pending e.status) rows

Perm-select : (rows : List Outbox) → Perm rows (select_pending rows ++ select_others rows)
Perm-select [] = Perm.refl []
Perm-select (r ∷ rows) = elim (Bool-cases (outbox_is_pending r.status)) [
  | inl hit ↦ rw hit (Perm.cons r (Perm-select rows))
  | inr miss ↦ rw miss (
      Perm.trans (Perm.cons r (Perm-select rows))
        (Perm.symm (perm_middle (select_pending rows) (select_others rows))))
]

Perm-insert_by :
    (before : Outbox → Outbox → Bool) (x : Outbox) (xs : List Outbox)
    → Perm (x ∷ xs) (insert_by before x xs)
Perm-insert_by before x [] = Perm.refl (x ∷ [])
Perm-insert_by before x (y ∷ ys) = elim (Bool-cases (before y x)) [
  | inl later ↦ rw later (Perm.trans (Perm.swap y x ys) (Perm.cons y (Perm-insert_by before x ys)))
  | inr first ↦ rw first (Perm.refl (x ∷ y ∷ ys))
]

Perm-order_by : (before : Outbox → Outbox → Bool) (xs : List Outbox) → Perm xs (order_by before xs)
Perm-order_by before [] = Perm.refl []
Perm-order_by before (x ∷ xs) =
    Perm.trans (Perm.cons x (Perm-order_by before xs))
      (Perm-insert_by (λ a b. before a b) x (order_by before xs))

-- An event goes in front of the first that is not older.
insert_by-All :
    (t : ℕ) (x : Outbox) (xs : List Outbox)
    → t ≤ x.created_at
    → All (λ y. t ≤ y.created_at) xs
    → All (λ y. t ≤ y.created_at) (insert_by created_before x xs)
insert_by-All t x [] le h = (le, tt)
insert_by-All t x (y ∷ ys) le h = elim (Bool-cases (created_before y x)) [
  | inl later ↦ rw later (h.0, insert_by-All t x ys le h.1)
  | inr first ↦ rw first (le, (h.0, h.1))
]

no_older :
    (t u : ℕ) (xs : List Outbox)
    → t ≤ u
    → All (λ y. u ≤ y.created_at) xs
    → All (λ y. t ≤ y.created_at) xs
no_older t u [] le h = tt
no_older t u (x ∷ xs) le h = (omega (arith, le, h.0), no_older t u xs le h.1)

insert_by-OldestFirst :
    (x : Outbox) (xs : List Outbox) → OldestFirst xs → OldestFirst (insert_by created_before x xs)
insert_by-OldestFirst x [] h = (tt, tt)
insert_by-OldestFirst x (y ∷ ys) h = elim (Bool-cases (created_before y x)) [
  | inl later ↦
      rw later (
        insert_by-All y.created_at x ys (ground (arith, later)) h.0,
        insert_by-OldestFirst x ys h.1,
      )
  | inr first ↦
      let le : x.created_at ≤ y.created_at = ground (arith, first) in
      rw first ((le, no_older x.created_at y.created_at ys le h.0), h)
]

order_by-OldestFirst : (xs : List Outbox) → OldestFirst (order_by created_before xs)
order_by-OldestFirst [] = tt
order_by-OldestFirst (x ∷ xs) =
    insert_by-OldestFirst x (order_by created_before xs) (order_by-OldestFirst xs)

take-drop : (n : ℕ) (xs : List Outbox) → xs ≡ take n xs ++ drop n xs
take-drop zero xs = refl
take-drop (suc n) [] = refl
take-drop (suc n) (x ∷ xs) = ap (λ ys. x ∷ ys) (take-drop n xs)

take-filled : (n : ℕ) (xs : List Outbox) → (drop n xs ≡ []) ⊎ (length (take n xs) ≡ n)
take-filled zero xs = inr refl
take-filled (suc n) [] = inl refl
take-filled (suc n) (x ∷ xs) = elim (take-filled n xs) [
  | inl e ↦ inl e
  | inr e ↦ inr (omega (arith, e))
]

All-parts :
    (P : Outbox → Type 0) (es left : List Outbox) → All P (es ++ left) → All P es × All P left
All-parts P [] left h = (tt, h)
All-parts P (e ∷ es) left h = let (here, rest) = All-parts P es left h.1 in ((h.0, here), rest)

OldestFirst-parts :
    (es left : List Outbox)
    → OldestFirst (es ++ left)
    → OldestFirst es × All (λ e. All (λ x. e.created_at ≤ x.created_at) left) es
OldestFirst-parts [] left h = (tt, tt)
OldestFirst-parts (e ∷ es) left h =
    let (here, rest) = All-parts (λ x. e.created_at ≤ x.created_at) es left h.0 in
    let (ordered, oldest) = OldestFirst-parts es left h.1 in ((here, ordered), (rest, oldest))

is_pending_of : (s : OutboxStatus) → outbox_is_pending s ≡ true → s ≡ OutboxStatus.pending
is_pending_of s h = ground (arith, h)

not_pending_of : (s : OutboxStatus) → outbox_is_pending s ≡ false → ¬ (s ≡ OutboxStatus.pending)
not_pending_of s h e = absurd (ground (arith, subst (λ x. outbox_is_pending x ≡ false) e h))

selected_pending :
    (rows : List Outbox) → All (λ e. e.status ≡ OutboxStatus.pending) (select_pending rows)
selected_pending [] = tt
selected_pending (r ∷ rows) = elim (Bool-cases (outbox_is_pending r.status)) [
  | inl hit ↦ rw hit (is_pending_of r.status hit, selected_pending rows)
  | inr miss ↦ rw miss (selected_pending rows)
]

others_not_pending :
    (rows : List Outbox) → All (λ e. ¬ (e.status ≡ OutboxStatus.pending)) (select_others rows)
others_not_pending [] = tt
others_not_pending (r ∷ rows) = elim (Bool-cases (outbox_is_pending r.status)) [
  | inl hit ↦ rw hit (others_not_pending rows)
  | inr miss ↦ rw miss (not_pending_of r.status miss, others_not_pending rows)
]

pub pending_events-IsOldestPending :
    (rows : List Outbox) → IsOldestPending rows (pending_events rows)
pending_events-IsOldestPending rows = record {
  left = drop 10 queue;
  settled = select_others rows;
  parts = Perm.trans (Perm-select rows) (
      subst (λ xs. Perm (select_pending rows ++ select_others rows) xs)
        (ap (λ q. q ++ select_others rows) (take-drop 10 queue))
        (Perm.append (Perm-order_by created_before (select_pending rows))
          (Perm.refl (select_others rows))));
  pending = both_pending.0;
  left_pending = both_pending.1;
  not_pending = others_not_pending rows;
  ordered = in_order.0;
  oldest = in_order.1;
  at_most_ten = length-take-le 10 queue;
  filled = take-filled 10 queue;
}
  where
    queue : List Outbox
    queue = order_by created_before (select_pending rows)

    both_pending :
        All (λ e. e.status ≡ OutboxStatus.pending) (take 10 queue)
        × All (λ e. e.status ≡ OutboxStatus.pending) (drop 10 queue)
    both_pending =
        All-parts (λ e. e.status ≡ OutboxStatus.pending) (take 10 queue) (drop 10 queue)
          (subst (All (λ e. e.status ≡ OutboxStatus.pending)) (take-drop 10 queue) (
            All-order_by (λ e. e.status ≡ OutboxStatus.pending) created_before (select_pending rows)
              (selected_pending rows)))

    in_order :
        OldestFirst (take 10 queue)
        × All (λ e. All (λ x. e.created_at ≤ x.created_at) (drop 10 queue)) (take 10 queue)
    in_order =
        OldestFirst-parts (take 10 queue) (drop 10 queue)
          (subst OldestFirst (take-drop 10 queue) (order_by-OldestFirst (select_pending rows)))
