-- ===== src/Kafka/Attempts.antt =====
-- How often the consumer runs its handler on a message, and what becomes of the message.
use mini_databricks.Base.{ℕ, zero, suc, ◌-◌, ◌≤◌, ◌<◌, ◌∙◌, ◌≡◌, refl, Bool, false, arith}
use mini_databricks.Base.Text.{Text}
use mini_databricks.Errors.{GoError, ok, err}
use mini_databricks.Db.{Json}
use mini_databricks.World.{World, Action, Done, Message, actions, publish, attempt}
use mini_databricks.World.Chains.{bind_ok, attempt_done}
use mini_databricks.Kafka.{
  handled, gave_up, dead_letter, after_attempt, attempts, give_up, consume, max_retries,
}

-- Run `n` times in a row from `w`, the handler fails each time, and the world is then `v`.
abbrev pub Fails : Action Done → ℕ → World → World → Type 0
Fails h zero w v = w ≡ v
Fails h (suc n) w v = (e : GoError) × (u : World) × (h w ≡ (err e, u)) × Fails h n u v

-- The context is never done.
abbrev pub never : ℕ → Bool
never k = false

module _ (h : Action Done) where
  one_fails :
      (left k : ℕ) (w u : World) (e : GoError)
      → h w ≡ (err e, u)
      → attempts never (suc left) k h w ≡ attempts never left (suc k) h u
  unfolding attempts
  one_fails left k w u e p =
      bind_ok (attempt h) (after_attempt never (suc left) k (attempts never left (suc k) h)) w
        (attempt_done h w p)

  one_succeeds :
      (left k : ℕ) (w v : World) → h w ≡ (ok tt, v) → attempts never left k h w ≡ (ok handled, v)
  unfolding attempts
  one_succeeds zero k w v p = bind_ok (attempt h) _ w (attempt_done h w p) ∙ unfold actions in refl
  one_succeeds (suc left) k w v p =
      bind_ok (attempt h) _ w (attempt_done h w p) ∙ unfold actions in refl

  last_fails :
      (k : ℕ) (w v : World) (e : GoError)
      → h w ≡ (err e, v)
      → attempts never zero k h w ≡ (ok (gave_up e), v)
  unfolding attempts
  last_fails k w v e p = bind_ok (attempt h) _ w (attempt_done h w p) ∙ unfold actions in refl

  attempts_succeed :
      (n left k : ℕ) (w u v : World)
      → n ≤ left
      → Fails h n w u
      → h u ≡ (ok tt, v)
      → attempts never left k h w ≡ (ok handled, v)
  attempts_succeed zero left k w u v le f p = one_succeeds left k w v (rw f p)
  attempts_succeed (suc n) zero k w u v le f p = absurd (omega arith)
  attempts_succeed (suc n) (suc left) k w u v le (e, x, q, f) p =
      one_fails left k w x e q ∙ attempts_succeed n left (suc k) x u v (omega arith) f p

  attempts_fail :
      (left k : ℕ) (w u v : World) (e : GoError)
      → Fails h left w u
      → h u ≡ (err e, v)
      → attempts never left k h w ≡ (ok (gave_up e), v)
  attempts_fail zero k w u v e f p = last_fails k w v e (rw f p)
  attempts_fail (suc left) k w u v e (x, y, q, f) p =
      one_fails left k w y x q ∙ attempts_fail left (suc k) y u v e f p

-- While the context is not done, a message whose handler succeeds after at most two failures is
-- consumed at that attempt, and nothing else is done.
pub consume_succeeds :
    (dlq : Text) (handler : Json → Action Done) (m : Message) (n : ℕ) (w u v : World)
    → n < max_retries
    → Fails (handler m.value) n w u
    → handler m.value u ≡ (ok tt, v)
    → consume never dlq handler m w ≡ (ok tt, v)
unfolding consume
consume_succeeds dlq handler m n w u v le f p =
    bind_ok (attempts never (max_retries - 1) 1 (handler m.value)) (give_up dlq m) w
      (attempts_succeed (handler m.value) n (max_retries - 1) 1 w u v (omega arith) f p)
    ∙ unfold actions in refl

-- While the context is not done, a message whose handler fails three times is not tried again, and
-- one attempt is made to publish it, with the third error, to the dead letters; the loop goes on
-- however that ends.
pub consume_gives_up :
    (dlq : Text) (handler : Json → Action Done) (m : Message) (e : GoError) (w u v : World)
    → Fails (handler m.value) 2 w u
    → handler m.value u ≡ (err e, v)
    → consume never dlq handler m w ≡ (ok tt, (publish (dead_letter dlq m e v) v).1)
unfolding consume
consume_gives_up dlq handler m e w u v f p =
    bind_ok (attempts never (max_retries - 1) 1 (handler m.value)) (give_up dlq m) w
      (attempts_fail (handler m.value) (max_retries - 1) 1 w u v e f p)
    ∙ unfold actions in refl
