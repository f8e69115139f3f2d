-- ===== src/World/Chains.antt =====
-- Running a chain of actions from the results of its parts.
use mini_databricks.Base.{◌≡◌}
use mini_databricks.Base.Text.{Text}
use mini_databricks.Errors.{GoError, Result, ok, err, wrapped}
use mini_databricks.World.{World, Action, ◌>>=◌, ◌>>◌, attempt, ignore, wrap}

module _ {A B : Type 0} (m : Action A) (f : A → Action B) (w : World) where
  pub bind_ok : {a : A} {v : World} → m w ≡ (ok a, v) → (m >>= f) w ≡ f a v
  unfolding ◌>>=◌
  bind_ok e = rw e

  pub bind_err : {e : GoError} {v : World} → m w ≡ (err e, v) → (m >>= f) w ≡ (err e, v)
  unfolding ◌>>=◌
  bind_err e = rw e

module _ {A B : Type 0} (m : Action A) (k : Action B) (w : World) where
  pub then_ok : {a : A} {v : World} → m w ≡ (ok a, v) → (m >> k) w ≡ k v
  unfolding ◌>>◌
  then_ok e = rw e

  pub then_err : {e : GoError} {v : World} → m w ≡ (err e, v) → (m >> k) w ≡ (err e, v)
  unfolding ◌>>◌
  then_err e = rw e

module _ {A : Type 0} (m : Action A) (w : World) where
  pub wrap_ok : (t : Text) {a : A} {v : World} → m w ≡ (ok a, v) → wrap t m w ≡ (ok a, v)
  unfolding wrap
  wrap_ok t e = rw e

  pub wrap_err :
      (t : Text) {e : GoError} {v : World} → m w ≡ (err e, v) → wrap t m w ≡ (err (wrapped t e), v)
  unfolding wrap
  wrap_err t e = rw e

  pub ignore_done : {r : Result A} {v : World} → m w ≡ (r, v) → ignore m w ≡ (ok tt, v)
  unfolding ignore
  ignore_done e = rw e

  pub attempt_done : {r : Result A} {v : World} → m w ≡ (r, v) → attempt m w ≡ (ok r, v)
  unfolding attempt
  attempt_done e = rw e
