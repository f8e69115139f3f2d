-- ===== src/Db/Keys.antt =====
-- Rows that are found by their key.
use mathlib.Core.Path.{subst}
use mini_databricks.Base.{◌≡◌, sym, first, first_passes, ==→eq, some, List}
use mini_databricks.Db.{Uuid, Job}
use mini_databricks.Db.Row.{job_has_id}

-- A job that is found by a key has that key.
pub job_found_again :
    (k : Uuid) (js : List Job) {j : Job}
    → first (job_has_id k) js ≡ some j
    → first (job_has_id j.id) js ≡ some j
job_found_again k js {j} e =
    subst (λ i. first (job_has_id i) js ≡ some j)
      (sym (==→eq j.id k (first_passes (job_has_id k) js e))) e
