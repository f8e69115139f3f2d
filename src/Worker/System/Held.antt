-- ===== src/Worker/System/Held.antt =====
-- Who has which task in hand, in every reachable state.
use mathlib.Core.Path.{subst}
use mini_databricks.Base.{
  ℕ, ◌<◌, ◌≡◌, refl, sym, ap, ◌∙◌, inl, inr, Bool, true, false, Option, none, some, List, [], ◌∷◌,
  All, All-update, update, ◌==◌, ==→eq, Bool-cases, arith, ◌⊎◌,
}
use mini_databricks.Base.Text.{Text}
use mini_databricks.Db.{Task, TaskState, Uuid}
use mini_databricks.Db.Row.{task_has_id}
use mini_databricks.Queries.Tasks.{oldest_leasable, lease_to}
use mini_databricks.Queries.Leasing.{oldest_leasable-All}
use mini_databricks.Worker.System.{
  System, set_hand, Ending, dies, succeeds, fails, goes_back, leased_tasks, IsStart,
}

-- The row of a task is leased to a worker.
abbrev pub LeasedTo : Text → Uuid → Task → Type 0
LeasedTo owner k r =
    task_has_id k r ≡ true → (r.state ≡ TaskState.leased) × (r.lease_owner ≡ some owner)

some-injective : {A : Type 0} {x y : A} → some x ≡ some y → x ≡ y
some-injective e = ground (arith, e)

module _ (name : ℕ → Text) where
  pub record Inv (s : System) : Type 0 where
    pub below : All (λ r. r.id < s.next_id) s.tasks
    pub hands_below : (i : ℕ) (t : Task) → s.hand i ≡ some t → t.id < s.next_id
    pub held : (i : ℕ) (t : Task) → s.hand i ≡ some t → All (LeasedTo (name i) t.id) s.tasks
    pub apart : (i j : ℕ) (t u : Task) → s.hand i ≡ some t → s.hand j ≡ some u → t.id ≡ u.id → i ≡ j

  pub start-Inv : (s : System) → IsStart s → Inv s
  start-Inv s h = record {
    below = h.below;
    hands_below = λ i t e. absurd (ground (arith, h.idle i));
    held = λ i t e. absurd (ground (arith, h.idle i));
    apart = λ i j t u e e' same. absurd (ground (arith, h.idle i));
  }

  -- What a worker has in hand after another's, or its own, hand is set.
  pub set_hand-some :
      (i j : ℕ) (x : Option Task) (hand : ℕ → Option Task) (t : Task)
      → set_hand i x hand j ≡ some t
      → ((j ≡ i) × (x ≡ some t)) ⊎ (((j == i) ≡ false) × (hand j ≡ some t))
  set_hand-some i j x hand t e = elim (Bool-cases (j == i)) [
    | inl same ↦ inl (==→eq j i same, rw same at e)
    | inr other ↦ inr (other, rw other at e)
  ]

  -- A chosen task is in nobody's hand.
  pub chosen_free :
      (s : System)
      → Inv s
      → (now : ℕ) (c : Task) → oldest_leasable now s.tasks ≡ some c
      → (j : ℕ) (t : Task) → s.hand j ≡ some t
      → (c.id == t.id) ≡ false
  chosen_free s inv now c chosen j t e = elim (Bool-cases (c.id == t.id)) [
    | inr apart ↦ apart
    | inl same ↦
        let (held, leasable) =
          oldest_leasable-All (LeasedTo (name j) t.id) now s.tasks (inv.held j t e) chosen in
        let leased = (held same).0 in absurd (ground arith)
  ]

  -- The rows of a task in hand after an update of another task.
  pub others_kept :
      (owner : Text) (k j : Uuid) (f : Task → Task) (ts : List Task)
      → (j == k) ≡ false
      → ((r : Task) → (f r).id ≡ r.id)
      → All (LeasedTo owner k) ts
      → All (LeasedTo owner k) (update (task_has_id j) f ts)
  others_kept owner k j f ts apart same h =
      All-update (LeasedTo owner k) (task_has_id j) f
        (λ r hit old is_k. absurd (ground (arith, same r))) ts h

  pub Ending-same_id : {f : Task → Task} → Ending f → (r : Task) → (f r).id ≡ r.id
  Ending-same_id dies r = refl
  Ending-same_id succeeds r = refl
  Ending-same_id (fails m now) r = refl
  Ending-same_id (goes_back m) r = refl

  pub update_below :
      (n : ℕ) (p : Task → Bool) (f : Task → Task) (ts : List Task)
      → ((r : Task) → (f r).id ≡ r.id)
      → All (λ r. r.id < n) ts
      → All (λ r. r.id < n) (update p f ts)
  update_below n p f ts same h =
      All-update (λ r. r.id < n) p f (λ r hit b. subst (λ i. i < n) (sym (same r)) b) ts h

  updated_mine :
      (owner : Text) (now : ℕ) (k : Uuid) (ts : List Task)
      → All (LeasedTo owner k) (update (task_has_id k) (lease_to owner now) ts)
  updated_mine owner now k [] = tt
  updated_mine owner now k (r ∷ ts) = elim (Bool-cases (task_has_id k r)) [
    | inl hit ↦ rw hit ((λ h. (refl, refl)), updated_mine owner now k ts)
    | inr miss ↦ rw miss ((λ h. absurd (ground (arith, miss))), updated_mine owner now k ts)
  ]

  pub lease-Inv :
      {s : System} (i now : ℕ) {c : Task}
      → s.hand i ≡ none
      → oldest_leasable now s.tasks ≡ some c
      → Inv s
      → Inv (record s {
        tasks = leased_tasks (name i) now c s.tasks;
        hand = set_hand i (some (lease_to (name i) now c)) s.hand;
      })
  lease-Inv {s} i now {c} idle chosen inv = record {
    below =
        update_below s.next_id (task_has_id c.id) (lease_to (name i) now) s.tasks (λ r. refl)
          inv.below;
    hands_below = λ j t e. elim (set_hand-some i j (some (lease_to (name i) now c)) s.hand t e) [
      | inl (same, now_t) ↦ subst (λ (x : Task). x.id < s.next_id) (some-injective now_t) c_below
      | inr (other, was) ↦ inv.hands_below j t was
    ];
    held = λ j t e. elim (set_hand-some i j (some (lease_to (name i) now c)) s.hand t e) [
      | inl (same, now_t) ↦
          subst (λ (x : Task). All (LeasedTo (name j) x.id) (leased_tasks (name i) now c s.tasks))
            (some-injective now_t)
            (subst (λ k. All (LeasedTo (name k) c.id) (leased_tasks (name i) now c s.tasks))
              (sym same) (updated_mine (name i) now c.id s.tasks))
      | inr (other, was) ↦
          others_kept (name j) t.id c.id (lease_to (name i) now) s.tasks
            (chosen_free s inv now c chosen j t was) (λ r. refl) (inv.held j t was)
    ];
    apart = λ j k t u e e' same_id.
        two_hands j k t u same_id (set_hand-some i j (some (lease_to (name i) now c)) s.hand t e)
          (set_hand-some i k (some (lease_to (name i) now c)) s.hand u e');
  }
    where
      c_below : c.id < s.next_id
      c_below = (oldest_leasable-All (λ r. r.id < s.next_id) now s.tasks inv.below chosen).0

      taken_clash :
          (t u : Task)
          → some (lease_to (name i) now c) ≡ some t
          → (c.id == u.id) ≡ false
          → t.id ≡ u.id
          → ⊥
      taken_clash t u now_t free same_id =
          let c_id : c.id ≡ u.id = ap (λ (x : Task). x.id) (some-injective now_t) ∙ same_id in
          absurd (ground (arith, c_id))

      two_hands :
          (j k : ℕ) (t u : Task)
          → t.id ≡ u.id
          → ((j ≡ i) × (some (lease_to (name i) now c) ≡ some t))
            ⊎ (((j == i) ≡ false) × (s.hand j ≡ some t))
          → ((k ≡ i) × (some (lease_to (name i) now c) ≡ some u))
            ⊎ (((k == i) ≡ false) × (s.hand k ≡ some u))
          → j ≡ k
      two_hands j k t u same_id (inl (a, x)) (inl (b, y)) = a ∙ sym b
      two_hands j k t u same_id (inl (a, x)) (inr (b, y)) =
          absurd (taken_clash t u x (chosen_free s inv now c chosen k u y) same_id)
      two_hands j k t u same_id (inr (a, x)) (inl (b, y)) =
          absurd (taken_clash u t y (chosen_free s inv now c chosen j t x) (sym same_id))
      two_hands j k t u same_id (inr (a, x)) (inr (b, y)) = inv.apart j k t u x y same_id
