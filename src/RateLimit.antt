-- ===== src/RateLimit.antt =====
-- internal/ratelimit/ratelimit.go: the counters of running jobs in Redis.
use mini_databricks.Base.{
  ℕ, ℤ, pos, ◌+ℤ◌, ◌-ℤ◌, leb_ℤ, Bool, true, false, Option, none, some, List, [], ◌∷◌, ◌++◌,
  if◌then◌else◌,
}
use mini_databricks.Base.Text.{Text, codes, same_text}
use mini_databricks.Errors.{Result, ok, err}
use mini_databricks.World.{World, Action, Done, pure, wrap, call, modify, gets, ◌>>=◌}
pub mod Counter

-- `RateLimiter`; its client is the world's counters.
pub record RateLimiter : Type 0 where
  pub max_running_jobs : ℤ

abbrev pub Counters : Type 0
Counters = List (Text × ℤ)

abbrev pub counter_key : Text → Text
counter_key workspace = codes "rate_limit:jobs:running:" ++ workspace

-- GET; `none` is `redis.Nil`.
unfoldable pub counter_at : Text → Counters → Option ℤ
counter_at key [] = none
counter_at key ((k, n) ∷ rest) =
    let other = counter_at key rest in if same_text k key then some n else other

abbrev pub or_zero : Option ℤ → ℤ
or_zero none = pos 0
or_zero (some n) = n

-- INCR and DECR: a key that is missing counts from 0.
unfoldable pub change_counter : (ℤ → ℤ) → Text → Counters → Counters
change_counter f key [] = (key, f (pos 0)) ∷ []
change_counter f key ((k, n) ∷ rest) =
    let others = change_counter f key rest in
    if same_text k key then (k, f n) ∷ rest else (k, n) ∷ others

abbrev pub add_to_counter : (ℤ → ℤ) → Text → World → World
add_to_counter f workspace w = record w {
  running_jobs = change_counter f (counter_key workspace) w.running_jobs;
}

unfoldable pub allow_job_submission : RateLimiter → Text → Action Bool
allow_job_submission limiter workspace = do
  count ←
      wrap (codes "failed to get rate limit counter")
        (call (gets (λ w. or_zero (counter_at (counter_key workspace) w.running_jobs))))
  pure (if leb_ℤ limiter.max_running_jobs count then false else true)

abbrev pub one_more : ℤ → ℤ
one_more n = n +ℤ pos 1

abbrev pub one_less : ℤ → ℤ
one_less n = n -ℤ pos 1

unfoldable pub increment_running_jobs : Text → Action Done
increment_running_jobs workspace = call (modify (add_to_counter one_more workspace))

unfoldable pub decrement_running_jobs : Text → Action Done
decrement_running_jobs workspace = call (modify (add_to_counter one_less workspace))
