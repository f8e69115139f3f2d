-- ===== src/Worker/System/Exclusive.antt =====
-- No two workers have one task in hand, in any state that is reached.
use mini_databricks.Base.{
  select, ◌≤◌, ℕ, suc, ◌<◌, ◌≡◌, refl, inl, inr, Bool, true, false, Option, none, some, List, [],
  ◌∷◌, ◌++◌, All, All-update, All-select, All-append, All-weaken, update, delete, not, ◌==◌, ==→eq,
  Bool-cases, arith, ◌⊎◌,
}
use mini_databricks.Base.Text.{Text}
use mini_databricks.Db.{Task, TaskState, Uuid}
use mini_databricks.Db.Row.{task_has_id}
use mini_databricks.Queries.Tasks.{lease_to, is_held_by, extend_lease, new_task, is_stale_task}
use mini_databricks.Worker.System.{
  System, set_hand, leased_tasks, PollStep, BeatStep, Step, Steps, IsStart,
}
use mini_databricks.Worker.System.Held.{
  LeasedTo, Inv, start-Inv, set_hand-some, chosen_free, others_kept, Ending-same_id, update_below,
  lease-Inv,
}

module _ (name : ℕ → Text) where
  -- A worker that has a task in hand after a hand is emptied is another one, and had it before.
  set_hand-none :
      (i j : ℕ) (hand : ℕ → Option Task) (t : Task)
      → set_hand i none hand j ≡ some t
      → ((j == i) ≡ false) × (hand j ≡ some t)
  set_hand-none i j hand t e = elim (set_hand-some name i j none hand t e) [
    | inl (same, nothing) ↦ absurd (ground (arith, nothing))
    | inr was ↦ was
  ]

  -- A hand is emptied, and the rows of the other tasks in hand stay leased.
  emptied-Inv :
      {s : System} (i : ℕ) (ts : List Task)
      → All (λ r. r.id < s.next_id) ts
      → ((j : ℕ) (t : Task)
          → (j == i) ≡ false
          → s.hand j ≡ some t
          → All (LeasedTo (name j) t.id) ts)
      → Inv name s
      → Inv name (record s { tasks = ts; hand = set_hand i none s.hand })
  emptied-Inv {s} i ts below held inv = record {
    below = below;
    hands_below = λ j t e. inv.hands_below j t (set_hand-none i j s.hand t e).1;
    held = λ j t e. let (other, was) = set_hand-none i j s.hand t e in held j t other was;
    apart = λ j k t u e e' same.
        inv.apart j k t u (set_hand-none i j s.hand t e).1 (set_hand-none i k s.hand u e').1 same;
  }

  -- The tasks change and the hands do not.
  rows-Inv :
      {s : System} (n : ℕ) (ts : List Task)
      → s.next_id ≤ n
      → All (λ r. r.id < n) ts
      → ((j : ℕ) (t : Task) → s.hand j ≡ some t → All (LeasedTo (name j) t.id) ts)
      → Inv name s
      → Inv name (record s { tasks = ts; next_id = n })
  rows-Inv {s} n ts le below held inv = record {
    below = below;
    hands_below = λ j t e. omega (arith, le, inv.hands_below j t e);
    held = held;
    apart = inv.apart;
  }

  other_task :
      (s : System)
      → Inv name s
      → (i j : ℕ) (t u : Task) → (j == i) ≡ false
      → s.hand i ≡ some t
      → s.hand j ≡ some u
      → (t.id == u.id) ≡ false
  other_task s inv i j t u other e e' = elim (Bool-cases (t.id == u.id)) [
    | inr apart ↦ apart
    | inl same ↦
        let one_worker = inv.apart i j t u e e' (==→eq t.id u.id same) in
        absurd (ground (arith, one_worker))
  ]

  beaten :
      (owner : Text) (k j : Uuid) (beater : Text) (now : ℕ) (ts : List Task)
      → All (LeasedTo owner k) ts
      → All (LeasedTo owner k) (update (is_held_by j beater) (extend_lease now) ts)
  beaten owner k j beater now ts h =
      All-update (LeasedTo owner k) (is_held_by j beater) (extend_lease now) (λ r hit old. old) ts h

  new_is_free : (n k : ℕ) → k < n → (n == k) ≡ true → ⊥
  new_is_free n k le same = ground arith

  PollStep-Inv : {s : System} (i : ℕ) {t : System} → PollStep name i s t → Inv name s → Inv name t
  PollStep-Inv i (PollStep.lease now idle chosen) inv = lease-Inv name i now idle chosen inv
  PollStep-Inv {s} i (PollStep.lease_unanswered now {c} idle chosen) inv =
      rows-Inv s.next_id (leased_tasks (name i) now c s.tasks) (omega arith)
        (update_below name s.next_id (task_has_id c.id) (lease_to (name i) now) s.tasks (λ r. refl)
          inv.below)
        (λ j t e.
          others_kept name (name j) t.id c.id (lease_to (name i) now) s.tasks
            (chosen_free name s inv now c chosen j t e) (λ r. refl) (inv.held j t e))
        inv
  PollStep-Inv {s} i (PollStep.finish {t} {f} e ending) inv =
      emptied-Inv i (update (task_has_id t.id) f s.tasks)
        (update_below name s.next_id (task_has_id t.id) f s.tasks (Ending-same_id name ending)
          inv.below)
        (λ j u other e'.
          others_kept name (name j) u.id t.id f s.tasks (other_task s inv i j t u other e e')
            (Ending-same_id name ending) (inv.held j u e'))
        inv
  PollStep-Inv {s} i PollStep.give_up inv =
      emptied-Inv i s.tasks inv.below (λ j u other e. inv.held j u e) inv

  BeatStep-Inv :
      {s : System} (i : ℕ) (k : Uuid) {t : System} → BeatStep name i k s t → Inv name s → Inv name t
  BeatStep-Inv {s} i k (BeatStep.beat now) inv =
      rows-Inv s.next_id (update (is_held_by k (name i)) (extend_lease now) s.tasks) (omega arith)
        (update_below name s.next_id (is_held_by k (name i)) (extend_lease now) s.tasks (λ r. refl)
          inv.below)
        (λ j t e. beaten (name j) t.id k (name i) now s.tasks (inv.held j t e)) inv

  Step-Inv : {s t : System} → Step name s t → Inv name s → Inv name t
  Step-Inv (Step.polls i st) inv = PollStep-Inv i st inv
  Step-Inv (Step.beats i k st) inv = BeatStep-Inv i k st inv
  Step-Inv {s} (Step.create run workspace index now) inv =
      rows-Inv (suc s.next_id) (s.tasks ++ new_task run workspace index s.next_id now ∷ [])
        (omega arith)
        (All-append _ s.tasks _ (All-weaken _ _ (λ r b. omega arith) s.tasks inv.below)
          (omega arith, tt))
        (λ j t e.
          All-append _ s.tasks _ (inv.held j t e)
            ((λ is_new. absurd (new_is_free s.next_id t.id (inv.hands_below j t e) is_new)), tt))
        inv
  Step-Inv {s} (Step.clean now) inv =
      rows-Inv s.next_id (delete (is_stale_task now) s.tasks) (omega arith)
        (All-select _ (λ r. not (is_stale_task now r)) s.tasks inv.below)
        (λ j t e. All-select _ (λ r. not (is_stale_task now r)) s.tasks (inv.held j t e)) inv

  Steps-Inv : {s t : System} → Steps (Step name) s t → Inv name s → Inv name t
  Steps-Inv Steps.done inv = inv
  Steps-Inv (Steps.later r st) inv = Step-Inv st (Steps-Inv r inv)

-- What holds of a selected row.
All-selected :
    (P : Task → Type 0) (p : Task → Bool) (ts : List Task)
    → All (λ r. p r ≡ true → P r) ts
    → All P (select p ts)
All-selected P p [] h = tt
All-selected P p (r ∷ ts) h = elim (Bool-cases (p r)) [
  | inl hit ↦ rw hit (h.0 hit, All-selected P p ts h.1)
  | inr miss ↦ rw miss (All-selected P p ts h.1)
]

-- In every order of their statements, and of those of the heartbeats, the scheduler and the cleanup,
-- the row of a task that a worker has in hand is leased to that worker, and two workers have no
-- task in common. The start has no task in hand and identifiers that have been given out.
pub in_hand_exclusive :
    {name : ℕ → Text} {s v : System} (i j : ℕ) (t u : Task)
    → IsStart s
    → Steps (Step name) s v
    → v.hand i ≡ some t
    → v.hand j ≡ some u
    → All
        (λ r. (r.state ≡ TaskState.leased) × (r.lease_owner ≡ some (name i)))
        (select (task_has_id t.id) v.tasks)
      × ((i ≡ j) ⊎ ((t.id == u.id) ≡ false))
in_hand_exclusive {name} {s} {v} i j t u start steps e e' = (
  All-selected _ (task_has_id t.id) v.tasks (inv.held i t e),
  elim (Bool-cases (t.id == u.id)) [
    | inl same ↦ inl (inv.apart i j t u e e' (==→eq t.id u.id same))
    | inr apart ↦ inr apart
  ],
)
  where
    inv : Inv name v
    inv = Steps-Inv name steps (start-Inv name s start)
