-- ===== src/Queries/Rows.antt =====
-- How a generated function reads its rows.
use mini_databricks.Base.{suc, Bool, Option, none, some, List, first}
use mini_databricks.Base.Text.{codes}
use mini_databricks.Errors.{GoError, plain, Result, ok, err}
use mini_databricks.Db.{Db}

-- `pgx.ErrNoRows`
abbrev pub no_rows : GoError
no_rows = plain (codes "no rows in result set")

-- The answer to an INSERT or UPDATE of a text that is no value of the column's enumeration.
abbrev pub invalid_enum : GoError
invalid_enum = plain (codes "invalid input value for enum")

-- `:one`, by `QueryRow(…).Scan(…)`
abbrev pub one {ℓ} : {A : Type ℓ} → Option A → Result A
one none = err no_rows
one (some a) = ok a

abbrev pub map_row {ℓ κ} : {A : Type ℓ} {B : Type κ} → (A → B) → Option A → Result B
map_row f none = err no_rows
map_row f (some a) = ok (f a)

-- The row that `UPDATE … RETURNING *` gives: the first that passes, as it is after the update.
abbrev pub returning {ℓ} : {A : Type ℓ} → (A → Bool) → (A → A) → List A → Result A
returning p f rows = map_row f (first p rows)

abbrev pub take_id : Db → Db
take_id db = record db { next_id = suc db.next_id }
