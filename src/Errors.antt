-- ===== src/Errors.antt =====
-- internal/errors/errors.go, with the errors of the standard library that the program makes.
use mini_databricks.Base.{
  ℕ, ◌≡◌, refl, Bool, true, false, not, Option, none, some, List, [], ◌∷◌, ◌++◌, arith, ◌⊎◌, inl,
  inr,
}
use mini_databricks.Base.Text.{Text, codes}
pub mod Kinds

-- `Transient` and `Permanent`
pub data ErrorKind : Type 0 where
  transient permanent : ErrorKind

-- A value of Go's `error` that is not nil. `plain` is `errors.New` or `fmt.Errorf` with no `%w`,
-- `wrapped` is `fmt.Errorf("…: %w", cause)`, and the last two are `*JobError` with no cause and
-- with one.
pub data GoError : Type 0 where
  plain : Text → GoError
  wrapped : Text → GoError → GoError
  job_error : ErrorKind → Text → GoError
  job_error_of : ErrorKind → Text → GoError → GoError

-- `Error()`
unfoldable pub error_text : GoError → Text
error_text (plain m) = m
error_text (wrapped m e) = m ++ codes ": " ++ error_text e
error_text (job_error k m) = m
error_text (job_error_of k m e) = m ++ codes ": " ++ error_text e

-- `errors.Unwrap`
unfoldable pub unwrap : GoError → Option GoError
unwrap (plain m) = none
unwrap (wrapped m e) = some e
unwrap (job_error k m) = none
unwrap (job_error_of k m e) = some e

unfoldable pub new_transient : Text → Option GoError → GoError
new_transient m none = job_error transient m
new_transient m (some e) = job_error_of transient m e

unfoldable pub new_permanent : Text → Option GoError → GoError
new_permanent m none = job_error permanent m
new_permanent m (some e) = job_error_of permanent m e

-- `errors.As(err, &jobErr)`, for the kind of the error that it finds: the first of the chain.
unfoldable pub as_job_error : GoError → Option ErrorKind
as_job_error (plain m) = none
as_job_error (wrapped m e) = as_job_error e
as_job_error (job_error k m) = some k
as_job_error (job_error_of k m e) = some k

abbrev pub kind_is_transient : ErrorKind → Bool
kind_is_transient transient = true
kind_is_transient permanent = false

unfoldable pub is_transient : GoError → Bool
unfolding as_job_error
is_transient e = elim (as_job_error e) [ some k ↦ kind_is_transient k | none ↦ true ]

unfoldable pub is_permanent : GoError → Bool
unfolding is_transient
is_permanent e = not (is_transient e)

-- What a Go function returns with its `error`: a value, or an error that is not nil.
pub data Result {ℓ} (A : Type ℓ) : Type ℓ where
  ok : A → Result A
  err : GoError → Result A

pub Result-cases {ℓ} :
    {A : Type ℓ} (r : Result A) → ((e : GoError) × (r ≡ err e)) ⊎ ((a : A) × (r ≡ ok a))
Result-cases (ok a) = inr (a, refl)
Result-cases (err e) = inl (e, refl)
