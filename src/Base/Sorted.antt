-- ===== src/Base/Sorted.antt =====
-- What every row has stays with the rows in order, and with the first of them.
use Prim.Native.Nat.{ℕ, zero, suc}
use mathlib.Core.Logic.{inl, inr}
use mathlib.Core.Bool.{Bool}
use mathlib.Core.List.{List, [], ◌∷◌}
use mini_databricks.Base.Tests.{Bool-cases}
use mini_databricks.Base.Lists.{All, insert_by, order_by, take}

module _ {ℓ κ} {A : Type ℓ} (P : A → Type κ) where
  All-insert_by :
      (before : A → A → Bool) (x : A) (xs : List A) → P x → All P xs → All P (insert_by before x xs)
  All-insert_by before x [] px h = (px, tt)
  All-insert_by before x (y ∷ ys) px h = elim (Bool-cases (before y x)) [
    | inl later ↦ rw later (h.0, All-insert_by before x ys px h.1)
    | inr first ↦ rw first (px, (h.0, h.1))
  ]

  pub All-order_by : (before : A → A → Bool) (xs : List A) → All P xs → All P (order_by before xs)
  All-order_by before [] h = tt
  All-order_by before (x ∷ xs) h =
      All-insert_by (λ a b. before a b) x (order_by before xs) h.0 (All-order_by before xs h.1)

  pub All-take : (n : ℕ) (xs : List A) → All P xs → All P (take n xs)
  All-take zero xs h = tt
  All-take (suc n) [] h = tt
  All-take (suc n) (x ∷ xs) h = (h.0, All-take n xs h.1)
