-- ===== src/World/Keeps.antt =====
-- What an action keeps of the world, however its calls end: a rule for each way to compose actions.
use mini_databricks.Base.{Bool, true, false, [], ◌∷◌, ◌++◌, if◌then◌else◌}
use mini_databricks.Base.Text.{Text}
use mini_databricks.Errors.{GoError, Result, ok, err}
use mini_databricks.World.{
  ClusterRequest, request, World, Action, Outcome, answered, refused, lost, Query, Message, pure,
  raise, attempt, wrap, ◌>>=◌, ◌>>◌, ignore, modify, gets, tick, call, query, publish, bind_result,
  on_db, settle,
}

-- The action keeps the property, whether it succeeds or fails.
pub record Keeps (P : World → Type 0) {A : Type 0} (m : Action A) : Type 0 where
  pub run : (w : World) → P w → P (m w).1

-- Neither the time nor the number of calls made matters to the property.
abbrev pub IsTimeless : (World → Type 0) → Type 0
IsTimeless P = (w : World) → P w → P (tick w)

module _ (P : World → Type 0) (timeless : IsTimeless P) where
  pub Keeps-pure : {A : Type 0} (a : A) → Keeps P (pure a)
  unfolding pure
  Keeps-pure a = record { run = λ w h. h }

  pub Keeps-raise : {A : Type 0} (e : GoError) → Keeps P {A = A} (raise e)
  unfolding raise
  Keeps-raise e = record { run = λ w h. h }

  pub Keeps-attempt : {A : Type 0} {m : Action A} → Keeps P m → Keeps P (attempt m)
  unfolding attempt
  Keeps-attempt k = record { run = k.run }

  pub Keeps-wrap : {A : Type 0} (t : Text) {m : Action A} → Keeps P m → Keeps P (wrap t m)
  unfolding wrap
  Keeps-wrap t k = record { run = k.run }

  pub Keeps-ignore : {A : Type 0} {m : Action A} → Keeps P m → Keeps P (ignore m)
  unfolding ignore
  Keeps-ignore k = record { run = k.run }

  pub Keeps-gets : {A : Type 0} (f : World → A) → Keeps P (gets f)
  unfolding gets
  Keeps-gets f = record { run = λ w h. h }

  pub Keeps-modify : (f : World → World) → ((w : World) → P w → P (f w)) → Keeps P (modify f)
  unfolding modify
  Keeps-modify f k = record { run = k }

  pub Keeps-if :
      {A : Type 0} (b : Bool) {m k : Action A}
      → Keeps P m
      → Keeps P k
      → Keeps P (if b then m else k)
  Keeps-if true km kk = km
  Keeps-if false km kk = kk

  keeps_settle :
      {A : Type 0} (o : Outcome) (m : Action A)
      → ((w : World) → P w → P (m w).1)
      → (w : World) → P w
      → P (settle o m w).1
  keeps_settle answered m k w h = k w h
  keeps_settle (refused e) m k w h = h
  keeps_settle (lost e) m k w h = k w h

  pub Keeps-call : {A : Type 0} (m : Action A) → ((w : World) → P w → P (m w).1) → Keeps P (call m)
  unfolding call
  Keeps-call m k = record {
    run = λ w h. keeps_settle (w.env.outcome w.calls) m k (tick w) (timeless w h);
  }

  pub Keeps-query :
      {A : Type 0} (q : Query A) → ((w : World) → P w → P (on_db q w).1) → Keeps P (query q)
  unfolding query
  Keeps-query q k = Keeps-call (on_db q) k

  pub Keeps-publish :
      (m : Message)
      → ((w : World) → P w → P (record w { topics = w.topics ++ m ∷ [] }))
      → Keeps P (publish m)
  unfolding publish
  Keeps-publish m k = Keeps-call (modify (λ w. record w { topics = w.topics ++ m ∷ [] })) k

  pub Keeps-request :
      (q : ClusterRequest)
      → ((w : World) → P w → P (record w { requests = w.requests ++ q ∷ [] }))
      → Keeps P (request q)
  unfolding request
  Keeps-request q k = record { run = λ w h. k (tick w) (timeless w h) }

  keeps_bind_result :
      {A B : Type 0} (r : Result A) (f : A → Action B)
      → ((a : A) → Keeps P (f a))
      → (w : World) → P w
      → P (bind_result r f w).1
  unfolding bind_result
  keeps_bind_result (ok a) f k w h = (k a).run w h
  keeps_bind_result (err e) f k w h = h

  pub Keeps-bind :
      {A B : Type 0} {m : Action A} {f : A → Action B}
      → Keeps P m
      → ((a : A) → Keeps P (f a))
      → Keeps P (m >>= f)
  unfolding ◌>>=◌
  Keeps-bind {m = m} {f = f} km kf = record {
    run = λ w h. keeps_bind_result (m w).0 f kf (m w).1 (km.run w h);
  }

  pub Keeps-then :
      {A B : Type 0} {m : Action A} {k : Action B} → Keeps P m → Keeps P k → Keeps P (m >> k)
  unfolding ◌>>◌
  Keeps-then km kk = Keeps-bind km (λ _. kk)
