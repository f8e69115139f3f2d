-- ===== src/Gateway/Binding/Checked.antt =====
-- What the rules of a struct have established.
use mini_databricks.Base.{◌≡◌, inl, inr, List, Bool-cases}
use mini_databricks.Base.Text.{codes}
use mini_databricks.Errors.{Result, ok, err, Result-cases}
use mini_databricks.World.{Env}
use mini_databricks.Gateway.Http.{JsonField}
use mini_databricks.Gateway.Fields.{◌>>=◌, rule}
use mini_databricks.Gateway.Binding.{Credentials, credentials, new_credentials}

-- Who may register with a body may log in with it.
pub new_credentials-credentials :
    (env : Env) (fields : List JsonField) {c : Credentials}
    → new_credentials env fields ≡ ok c
    → credentials env fields ≡ ok c
unfolding new_credentials ◌>>=◌ rule
new_credentials-credentials env fields {c} h = elim (Result-cases (credentials env fields)) [
  | inl (e, bad) ↦ let failed : ◌≡◌ {A = Result Credentials} (err e) (ok c) = rw bad at h in cc
  | inr (c', good) ↦ elim (Bool-cases (env.satisfies (codes "min=8") c'.password)) [
    | inl long ↦
        let same : ◌≡◌ {A = Result Credentials} (ok c') (ok c) = rw (good, long) at h in
        rw (good, same)
    | inr short ↦
        let failed : ◌≡◌ {A = Result Credentials} (err _) (ok c) = rw (good, short) at h in cc
  ]
]
