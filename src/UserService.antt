-- ===== src/UserService.antt =====
-- internal/service/user_service.go
use mini_databricks.Base.{ℕ, ◌+◌, if◌then◌else◌}
use mini_databricks.Base.Text.{Text, codes}
use mini_databricks.Errors.{GoError, plain, Result, ok, err}
use mini_databricks.Db.{User, UserRole}
use mini_databricks.World.{World, Claims, Action, raise, wrap, attempt, gets, query, ◌>>=◌}
use mini_databricks.Queries.Accounts.{create_user, get_user_by_email}

-- `bcrypt.GenerateFromPassword`
unfoldable pub hash_password : Text → Action Text
hash_password password w = (w.env.hash_password w.calls password, w)

unfoldable pub register : Text → Text → Action User
unfolding hash_password
register email password = do
  hashed ← wrap (codes "failed to hash password") (hash_password password)
  wrap (codes "failed to create user") (
      query
        (create_user (record { email = email; password_hash = hashed; role = UserRole.viewer })))

abbrev pub role_text : UserRole → Text
role_text UserRole.admin = codes "admin"
role_text UserRole.editor = codes "editor"
role_text UserRole.viewer = codes "viewer"

abbrev pub day : ℕ
day = 86400

-- The claims of the token: it is valid for 24 hours.
abbrev pub claims_of : User → World → Claims
claims_of u w = record {
  user_id = w.env.format_uuid u.id;
  role = role_text u.role;
  exp = w.now + day;
}

abbrev pub invalid_credentials : GoError
invalid_credentials = plain (codes "invalid credentials")

unfoldable pub signed_string : Text → User → Action Text
signed_string secret u w = (w.env.sign_token secret (claims_of u w), w)

unfoldable pub issue_token : Text → User → Action Text
unfolding signed_string
issue_token secret u = wrap (codes "failed to sign token") (signed_string secret u)

-- What `Login` does with the user that it has looked up.
unfoldable pub check_password : Text → Text → Result User → Action Text
unfolding issue_token
check_password password secret (err e) = raise invalid_credentials
check_password password secret (ok u) = do
  matches ← gets (λ w. w.env.password_matches u.password_hash password)
  if matches then issue_token secret u else raise invalid_credentials

unfoldable pub login : Text → Text → Text → Action Text
unfolding check_password
login email password secret = do
  found ← attempt (query (get_user_by_email email))
  check_password password secret found
