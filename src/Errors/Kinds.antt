-- ===== src/Errors/Kinds.antt =====
-- What `IsTransient` and `IsPermanent` decide about a chain of wrapped errors.
use mini_databricks.Base.{◌≡◌, refl, ◌↔◌, true, false, some, arith}
use mini_databricks.Base.Text.{Text}
use mini_databricks.Errors.{
  ErrorKind, transient, permanent, GoError, plain, wrapped, job_error, job_error_of, as_job_error,
  is_transient, is_permanent,
}

-- `FirstJob e k` holds when the first job error of the chain of `e` has kind `k`.
pub data FirstJob : GoError → ErrorKind → Type 0 where
  bare : (k : ErrorKind) (m : Text) → FirstJob (job_error k m) k
  caused : (k : ErrorKind) (m : Text) (e : GoError) → FirstJob (job_error_of k m e) k
  skip : (m : Text) {e : GoError} {k : ErrorKind} → FirstJob e k → FirstJob (wrapped m e) k

permanent_found : (e : GoError) → is_transient e ≡ false → FirstJob e permanent
unfolding is_transient
permanent_found (plain m) h = cc
permanent_found (wrapped m e) h = skip m (permanent_found e h)
permanent_found (job_error transient m) h = cc
permanent_found (job_error permanent m) h = bare permanent m
permanent_found (job_error_of transient m e) h = cc
permanent_found (job_error_of permanent m e) h = caused permanent m e

FirstJob-kind : {e : GoError} {k : ErrorKind} → FirstJob e k → as_job_error e ≡ some k
unfolding as_job_error
FirstJob-kind (bare k m) = refl
FirstJob-kind (caused k m e) = refl
FirstJob-kind (skip m f) = FirstJob-kind f

permanent_only : (e : GoError) → as_job_error e ≡ some permanent → is_permanent e ≡ true
unfolding is_permanent
permanent_only e h = ground arith

-- An error is permanent exactly when the first job error in its chain is a permanent one; an
-- error with no job error in its chain, and one whose first job error is transient, is not.
pub is_permanent_iff : (e : GoError) → (is_permanent e ≡ true) ↔ FirstJob e permanent
unfolding is_permanent
is_permanent_iff e =
    (λ h. permanent_found e (ground arith), λ f. permanent_only e (FirstJob-kind f))
