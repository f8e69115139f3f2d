-- ===== src/Base/Lists.antt =====
-- Lists as tables: a row is found, changed or removed by a test, as a WHERE clause does.
use Prim.Native.Nat.{ℕ, zero, suc, ◌+◌, ◌≤◌}
use mathlib.Core.Path.{◌≡◌, refl, subst}
use mathlib.Core.Logic.{inl, inr}
use mathlib.Core.Bool.{Bool, true, false, not}
use mathlib.Core.List.{List, [], ◌∷◌, ◌++◌, map}
use mathlib.Core.Option.{Option, none, some}
use native.Mathlib.Omega.{arith}
use mini_databricks.Base.Tests.{if◌then◌else◌, Bool-cases}

module _ {ℓ} {A : Type ℓ} where
  abbrev pub length : List A → ℕ
  length [] = 0
  length (x ∷ xs) = suc (length xs)

  abbrev pub take : ℕ → List A → List A
  take zero xs = []
  take (suc n) [] = []
  take (suc n) (x ∷ xs) = x ∷ take n xs

  abbrev pub drop : ℕ → List A → List A
  drop zero xs = xs
  drop (suc n) [] = []
  drop (suc n) (x ∷ xs) = drop n xs

  pub length-append : (xs ys : List A) → length (xs ++ ys) ≡ length xs + length ys
  length-append [] ys = omega arith
  length-append (x ∷ xs) ys = omega (arith, length-append xs ys)

  pub length-take-le : (n : ℕ) (xs : List A) → length (take n xs) ≤ n
  length-take-le zero xs = omega arith
  length-take-le (suc n) [] = omega arith
  length-take-le (suc n) (x ∷ xs) = omega (arith, length-take-le n xs)

-- SELECT, UPDATE and DELETE with a WHERE clause.
module _ {ℓ} {A : Type ℓ} where
  abbrev pub first : (A → Bool) → List A → Option A
  first p [] = none
  first p (x ∷ xs) = if p x then some x else first p xs

  abbrev pub select : (A → Bool) → List A → List A
  select p [] = []
  select p (x ∷ xs) = let rest = select p xs in if p x then x ∷ rest else rest

  abbrev pub update : (A → Bool) → (A → A) → List A → List A
  update p f [] = []
  update p f (x ∷ xs) = (if p x then f x else x) ∷ update p f xs

  abbrev pub delete : (A → Bool) → List A → List A
  delete p xs = select (λ x. not (p x)) xs

  -- ORDER BY a column, for the rows that pass the test; rows with equal keys keep their order.
  abbrev pub insert_by : (A → A → Bool) → A → List A → List A
  insert_by before x [] = x ∷ []
  insert_by before x (y ∷ ys) =
      let rest = insert_by before x ys in if before y x then y ∷ rest else x ∷ y ∷ ys

  abbrev pub order_by : (A → A → Bool) → List A → List A
  order_by before [] = []
  order_by before (x ∷ xs) = insert_by (λ a b. before a b) x (order_by before xs)

-- A predicate on every row.
abbrev pub All {ℓ κ} : {A : Type ℓ} → (A → Type κ) → List A → Type κ
All P [] = Unit
All P (x ∷ xs) = P x × All P xs

pub All-append {ℓ κ} :
    {A : Type ℓ} (P : A → Type κ) (xs ys : List A) → All P xs → All P ys → All P (xs ++ ys)
All-append P [] ys hx hy = hy
All-append P (x ∷ xs) ys hx hy = (hx.0, All-append P xs ys hx.1 hy)

pub All-update {ℓ κ} :
    {A : Type ℓ} (P : A → Type κ) (p : A → Bool) (f : A → A)
    → ((x : A) → p x ≡ true → P x → P (f x))
    → (xs : List A) → All P xs
    → All P (update p f xs)
All-update P p f keep [] h = h
All-update P p f keep (x ∷ xs) h = elim (Bool-cases (p x)) [
  | inl hit ↦ rw hit (keep x hit h.0, All-update P p f keep xs h.1)
  | inr miss ↦ rw miss (h.0, All-update P p f keep xs h.1)
]

pub All-select {ℓ κ} :
    {A : Type ℓ} (P : A → Type κ) (p : A → Bool) (xs : List A) → All P xs → All P (select p xs)
All-select P p [] h = h
All-select P p (x ∷ xs) h = elim (Bool-cases (p x)) [
  | inl hit ↦ rw hit (h.0, All-select P p xs h.1)
  | inr miss ↦ rw miss (All-select P p xs h.1)
]

-- A row that is found passes the test, and has what every row has.
pub first_passes {ℓ} :
    {A : Type ℓ} (p : A → Bool) (xs : List A) {x : A} → first p xs ≡ some x → p x ≡ true
first_passes p [] h = cc
first_passes p (y ∷ xs) h = elim (Bool-cases (p y)) [
  | inl hit ↦ ground (arith, hit)
  | inr miss ↦ first_passes p xs (rw miss at h)
]

pub All-first {ℓ κ} :
    {A : Type ℓ} (P : A → Type κ) (p : A → Bool) (xs : List A) {x : A}
    → All P xs
    → first p xs ≡ some x
    → P x
All-first P p [] a h = cc
All-first P p (y ∷ xs) {x} a h = elim (Bool-cases (p y)) [
  | inl hit ↦ let e : y ≡ x = ground (arith, hit) in subst P e a.0
  | inr miss ↦ All-first P p xs a.1 (rw miss at h)
]

-- An update that leaves a column alone leaves the list of its values alone.
pub map-update {ℓ κ} :
    {A : Type ℓ} {B : Type κ} (g : A → B) (p : A → Bool) (f : A → A)
    → ((x : A) → p x ≡ true → g (f x) ≡ g x)
    → (xs : List A) → map g (update p f xs) ≡ map g xs
map-update g p f same [] = refl
map-update g p f same (x ∷ xs) = elim (Bool-cases (p x)) [
  | inl hit ↦ rw (hit, same x hit, map-update g p f same xs)
  | inr miss ↦ rw (miss, map-update g p f same xs)
]

-- What holds of the selected rows holds of every row that the test selects.
pub All-of_select {ℓ κ} :
    {A : Type ℓ} (P : A → Type κ) (p : A → Bool) (xs : List A)
    → All P (select p xs)
    → All (λ x. p x ≡ true → P x) xs
All-of_select P p [] h = tt
All-of_select P p (x ∷ xs) h = elim (Bool-cases (p x)) [
  | inl hit ↦
      let g : P x × All P (select p xs) = rw hit at h in (λ e. g.0, All-of_select P p xs g.1)
  | inr miss ↦ (λ e. absurd (ground arith), All-of_select P p xs (rw miss at h))
]

-- An update of other rows does not change what is selected.
pub select-update {ℓ} :
    {A : Type ℓ} (p q : A → Bool) (f : A → A)
    → ((x : A) → q x ≡ true → (p x ≡ false) × (p (f x) ≡ false))
    → (xs : List A) → select p (update q f xs) ≡ select p xs
select-update p q f apart [] = refl
select-update p q f apart (x ∷ xs) = elim (Bool-cases (q x)) [
  | inl hit ↦ rw (hit, (apart x hit).0, (apart x hit).1) (select-update p q f apart xs)
  | inr miss ↦ rw (miss, select-update p q f apart xs)
]

abbrev pub map_option {ℓ κ} : {A : Type ℓ} {B : Type κ} → (A → B) → Option A → Option B
map_option f none = none
map_option f (some a) = some (f a)

-- The first row that passes is still the first after an update that does not touch the test.
pub first-update {ℓ} :
    {A : Type ℓ} (p : A → Bool) (f : A → A)
    → ((x : A) → p (f x) ≡ p x)
    → (xs : List A) → first p (update p f xs) ≡ map_option f (first p xs)
first-update p f same [] = refl
first-update p f same (x ∷ xs) = elim (Bool-cases (p x)) [
  | inl hit ↦ rw (hit, same x, hit)
  | inr miss ↦ rw (miss, miss) (first-update p f same xs)
]

pub update-update {ℓ} :
    {A : Type ℓ} (p : A → Bool) (f g : A → A)
    → ((x : A) → p (f x) ≡ p x)
    → (xs : List A) → update p g (update p f xs) ≡ update p (λ x. g (f x)) xs
update-update p f g same [] = refl
update-update p f g same (x ∷ xs) = elim (Bool-cases (p x)) [
  | inl hit ↦ rw (hit, same x, hit, update-update p f g same xs) refl
  | inr miss ↦ rw (miss, miss, update-update p f g same xs) refl
]

pub select-append {ℓ} :
    {A : Type ℓ} (p : A → Bool) (xs ys : List A) → select p (xs ++ ys) ≡ select p xs ++ select p ys
select-append p [] ys = refl
select-append p (x ∷ xs) ys = elim (Bool-cases (p x)) [
  | inl hit ↦ rw (hit, select-append p xs ys)
  | inr miss ↦ rw (miss, select-append p xs ys)
]

pub update-append {ℓ} :
    {A : Type ℓ} (p : A → Bool) (f : A → A) (xs ys : List A)
    → update p f (xs ++ ys) ≡ update p f xs ++ update p f ys
update-append p f [] ys = refl
update-append p f (x ∷ xs) ys = rw (update-append p f xs ys)

pub update_none {ℓ} :
    {A : Type ℓ} (p : A → Bool) (f : A → A) (xs : List A)
    → All (λ x. p x ≡ false) xs
    → update p f xs ≡ xs
update_none p f [] h = refl
update_none p f (x ∷ xs) h = rw (h.0, update_none p f xs h.1)

pub first-append_none {ℓ} :
    {A : Type ℓ} (p : A → Bool) (xs ys : List A)
    → All (λ x. p x ≡ false) xs
    → first p (xs ++ ys) ≡ first p ys
first-append_none p [] ys h = refl
first-append_none p (x ∷ xs) ys h = rw h.0 (first-append_none p xs ys h.1)

-- Rows that a DELETE does not touch are selected as before.
pub select-delete {ℓ} :
    {A : Type ℓ} (p q : A → Bool)
    → ((x : A) → p x ≡ true → q x ≡ false)
    → (xs : List A) → select p (delete q xs) ≡ select p xs
select-delete p q apart [] = refl
select-delete p q apart (x ∷ xs) = elim (Bool-cases (p x)) [
  | inl kept ↦ rw (kept, apart x kept, kept, select-delete p q apart xs)
  | inr other ↦ elim (Bool-cases (q x)) [
    | inl gone ↦ rw (gone, other) (select-delete p q apart xs)
    | inr stays ↦ rw (stays, other) (select-delete p q apart xs)
  ]
]

pub All-weaken {ℓ κ μ} :
    {A : Type ℓ} (P : A → Type κ) (Q : A → Type μ)
    → ((x : A) → P x → Q x)
    → (xs : List A) → All P xs
    → All Q xs
All-weaken P Q f [] h = tt
All-weaken P Q f (x ∷ xs) h = (f x h.0, All-weaken P Q f xs h.1)
