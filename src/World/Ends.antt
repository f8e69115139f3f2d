-- ===== src/World/Ends.antt =====
-- What holds after an action, for its result and the world, however its calls end.
use mini_databricks.Base.Text.{Text}
use mini_databricks.Errors.{GoError, wrapped, Result, ok, err}
use mini_databricks.World.{
  World, Action, Outcome, answered, refused, lost, Query, wrap, attempt, ◌>>=◌, ◌>>◌, pure, tick,
  call, query, map_error, bind_result, on_db, settle,
}
use mini_databricks.World.Keeps.{Keeps, IsTimeless}

-- From a world with `P` the action ends in `Q`.
pub record Ends (P : World → Type 0) {A : Type 0} (m : Action A) (Q : Result A → World → Type 0)
    : Type 0 where
  pub run : (w : World) → P w → Q (m w).0 (m w).1

pub Ends-Keeps :
    {P : World → Type 0} {A : Type 0} {m : Action A} → Keeps P m → Ends P m (λ r v. P v)
Ends-Keeps k = record { run = k.run }

module _ {P : World → Type 0} where
  pub Ends-bind :
      {A B : Type 0} {m : Action A} {f : A → Action B} {R : Result A → World → Type 0}
      {Q : Result B → World → Type 0}
      → Ends P m R
      → ((a : A) → Ends (R (ok a)) (f a) Q)
      → ((e : GoError) (v : World) → R (err e) v → Q (err e) v)
      → Ends P (m >>= f) Q
  unfolding ◌>>=◌ bind_result
  Ends-bind {A} {m = m} {f} {R} {Q} km kf ke = record {
    run = λ w h. by_result (m w).0 (m w).1 (km.run w h);
  }
    where
      by_result : (r : Result A) (v : World) → R r v → Q (bind_result r f v).0 (bind_result r f v).1
      by_result (ok a) v h = (kf a).run v h
      by_result (err e) v h = ke e v h

  pub Ends-then :
      {A B : Type 0} {m : Action A} {k : Action B} {R : Result A → World → Type 0}
      {Q : Result B → World → Type 0}
      → Ends P m R
      → ((a : A) → Ends (R (ok a)) k Q)
      → ((e : GoError) (v : World) → R (err e) v → Q (err e) v)
      → Ends P (m >> k) Q
  unfolding ◌>>◌
  Ends-then km kk ke = Ends-bind km kk ke

  pub Ends-wrap :
      {A : Type 0} (t : Text) {m : Action A} {Q : Result A → World → Type 0}
      → Ends P m Q
      → ((e : GoError) (v : World) → Q (err e) v → Q (err (wrapped t e)) v)
      → Ends P (wrap t m) Q
  unfolding wrap
  Ends-wrap {A} t {m} {Q} km ke = record { run = λ w h. by_result (m w).0 (m w).1 (km.run w h) }
    where
      by_result : (r : Result A) (v : World) → Q r v → Q (map_error (λ x. wrapped t x) r) v
      by_result (ok a) v h = h
      by_result (err e) v h = ke e v h

  pub Ends-attempt :
      {A : Type 0} {m : Action A} {R : Result A → World → Type 0}
      {Q : Result (Result A) → World → Type 0}
      → Ends P m R
      → ((r : Result A) (v : World) → R r v → Q (ok r) v)
      → Ends P (attempt m) Q
  unfolding attempt
  Ends-attempt {m = m} km f = record { run = λ w h. f (m w).0 (m w).1 (km.run w h) }

  pub Ends-call :
      {A : Type 0} (m : Action A) {Q : Result A → World → Type 0}
      → IsTimeless P
      → ((w : World) → P w → Q (m w).0 (m w).1)
      → ((e : GoError) (w : World) → P w → Q (err e) w)
      → ((e : GoError) (w : World) → P w → Q (err e) (m w).1)
      → Ends P (call m) Q
  unfolding call
  Ends-call m {Q} timeless done not_done unknown = record {
    run = λ w h. by_outcome (w.env.outcome w.calls) (tick w) (timeless w h);
  }
    where
      by_outcome : (o : Outcome) (w : World) → P w → Q (settle o m w).0 (settle o m w).1
      by_outcome answered w h = done w h
      by_outcome (refused e) w h = not_done e w h
      by_outcome (lost e) w h = unknown e w h

  pub Ends-query :
      {A : Type 0} (q : Query A) {Q : Result A → World → Type 0}
      → IsTimeless P
      → ((w : World) → P w → Q (on_db q w).0 (on_db q w).1)
      → ((e : GoError) (w : World) → P w → Q (err e) w)
      → ((e : GoError) (w : World) → P w → Q (err e) (on_db q w).1)
      → Ends P (query q) Q
  unfolding query
  Ends-query q = Ends-call (on_db q)

  pub Ends-pure :
      {A : Type 0} (a : A) {Q : Result A → World → Type 0}
      → ((w : World) → P w → Q (ok a) w)
      → Ends P (pure a) Q
  unfolding pure
  Ends-pure a f = record { run = f }
