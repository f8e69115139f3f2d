-- ===== src/Gateway/Auth.antt =====
-- internal/middleware/auth.go
use mini_databricks.Base.{ℕ, Option, none, some, [], ◌∷◌, ◌==◌, if◌then◌else◌}
use mini_databricks.Base.Text.{Text, codes, same_text}
use mini_databricks.Errors.{plain, Result, ok, err}
use mini_databricks.World.{World, Claims, Action, pure, gets, ◌>>=◌}
use mini_databricks.Gateway.Http.{Context, Response, failed}

abbrev pub before_split : ℕ → Option (Text × Text) → Option (Text × Text)
before_split c none = none
before_split c (some (a, b)) = some (c ∷ a, b)

-- `strings.SplitN(s, " ", 2)`, if it has two parts; a space is 32.
unfoldable pub split_space : Text → Option (Text × Text)
split_space [] = none
split_space (c ∷ s) =
    let later = before_split c (split_space s) in if c == 32 then some ([], s) else later

abbrev pub read_bearer : Text → Option (Text × Text) → World → Result Claims
read_bearer secret none w = err (plain (codes "invalid authorization header"))
read_bearer secret (some (scheme, token)) w =
    if same_text scheme (codes "Bearer")
    then elim (w.env.read_token secret w.now token) [
      | none ↦ err (plain (codes "invalid token"))
      | some c ↦ ok c
    ]
    else err (plain (codes "invalid authorization header"))

-- The claims of the request's token, or why there are none.
unfoldable pub bearer_claims : Text → Text → World → Result Claims
unfolding split_space
bearer_claims secret [] w = err (plain (codes "missing authorization header"))
bearer_claims secret (c ∷ header) w = read_bearer secret (split_space (c ∷ header)) w

-- `c.Set`, and `c.Next` or `c.Abort`
unfoldable pub continue_as : (Context → Action Response) → Context → Result Claims → Action Response
continue_as next ctx (err e) = pure (failed 401 e)
continue_as next ctx (ok c) = next (record ctx { user_id = c.user_id; role = c.role })

unfoldable pub auth_middleware :
    Text → Text → (Context → Action Response) → Context → Action Response
unfolding continue_as
auth_middleware secret header next ctx = do
  claims ← gets (bearer_claims secret header)
  continue_as next ctx claims
