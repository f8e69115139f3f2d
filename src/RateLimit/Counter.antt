-- ===== src/RateLimit/Counter.antt =====
-- What a counter holds after INCR and DECR, and what the limiter leaves alone.
use mini_databricks.Base.{
  ℤ, int_laws, ◌≡◌, ◌∙◌, ap, false, some, [], ◌∷◌, inl, inr, Bool-cases, if◌then◌else◌,
}
use mini_databricks.Base.Text.{Text, same_text, same_text_refl, same_text→eq}
use mini_databricks.World.{World, gets, modify}
use mini_databricks.World.Keeps.{Keeps, IsTimeless, Keeps-bind, Keeps-call, Keeps-wrap, Keeps-pure}
use mini_databricks.RateLimit.{
  RateLimiter, Counters, counter_key, counter_at, or_zero, change_counter, add_to_counter, one_more,
  one_less, allow_job_submission, increment_running_jobs,
}

pub counter_at-change :
    (f : ℤ → ℤ) (key : Text) (cs : Counters)
    → counter_at key (change_counter f key cs) ≡ some (f (or_zero (counter_at key cs)))
unfolding counter_at change_counter
counter_at-change f key [] = rw (same_text_refl key)
counter_at-change f key ((k, n) ∷ rest) = elim (Bool-cases (same_text k key)) [
  | inl same ↦ rw (same, same)
  | inr other ↦ rw (other, other) (counter_at-change f key rest)
]

-- Another key's counter stays.
pub counter_at-change_other :
    (f : ℤ → ℤ) (key other : Text) (cs : Counters)
    → same_text other key ≡ false
    → counter_at key (change_counter f other cs) ≡ counter_at key cs
unfolding counter_at change_counter
counter_at-change_other f key other [] h = rw h
counter_at-change_other f key other ((k, n) ∷ rest) h = elim (Bool-cases (same_text k other)) [
  | inl same ↦ rw (same, ap (λ t. same_text t key) (same_text→eq k other same) ∙ h)
  | inr differ ↦
      rw differ (
        ap (λ o. if same_text k key then some n else o)
          (counter_at-change_other f key other rest h))
]

pub one_less-one_more : (n : ℤ) → one_less (one_more n) ≡ n
one_less-one_more n = omega int_laws

module _ (P : World → Type 0) (timeless : IsTimeless P) where
  pub allow_job_submission-Keeps :
      (limiter : RateLimiter) (workspace : Text) → Keeps P (allow_job_submission limiter workspace)
  unfolding allow_job_submission gets
  allow_job_submission-Keeps limiter workspace =
      Keeps-bind P timeless
        (Keeps-wrap P timeless _ (
          Keeps-call P timeless
            (gets (λ w. or_zero (counter_at (counter_key workspace) w.running_jobs))) (λ w h. h)))
        λ n. Keeps-pure P timeless _

  pub increment_running_jobs-Keeps :
      (workspace : Text)
      → ((w : World) → P w → P (add_to_counter one_more workspace w))
      → Keeps P (increment_running_jobs workspace)
  unfolding increment_running_jobs modify
  increment_running_jobs-Keeps workspace kept =
      Keeps-call P timeless (modify (add_to_counter one_more workspace)) kept
