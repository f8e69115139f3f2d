-- ===== src/Gateway/Session.antt =====
-- Registration, login and the use of a token (services/api-gateway with internal/service/user_service.go
-- and internal/middleware/auth.go).
use mathlib.Core.Path.{subst}
use mini_databricks.Base.{
  All, Bool-cases, first-append_none, inl, inr, arith, ℕ, ◌+◌, ◌<◌, ◌≡◌, refl, ap, ◌∙◌, true, false,
  Option, none, some, List, [], ◌∷◌, ◌++◌,
}
use mini_databricks.Base.Text.{Text, codes, same_text_refl}
use mini_databricks.Errors.{ok}
use mini_databricks.Db.{Uuid, User, UserRole}
use mini_databricks.World.{World, Claims, calm, tick, actions, call}
use mini_databricks.Queries.Accounts.{
  create_user, get_user_by_email, email_is_taken, user_has_email,
}
use mini_databricks.UserService.{
  register, hash_password, login, check_password, issue_token, signed_string, claims_of, day,
}
use mini_databricks.Queries.Rows.{take_id}
use mini_databricks.Gateway.Http.{
  bind_json, with_bound, answer, Method, JsonField, Request, respond, user_reply, token_reply,
  me_reply,
}
use mini_databricks.Gateway.Binding.{Credentials, credentials, new_credentials}
use mini_databricks.Gateway.Binding.Checked.{new_credentials-credentials}
use mini_databricks.Gateway.Tokens.{bearer, bearer_claims_accepts}
use mini_databricks.Gateway.Serve.{all_routes, Gateway, cors_answer, serve, run_route, handler_of}
use mini_databricks.Gateway.Router.{IsRouter}
use mini_databricks.Gateway.Routes.{Endpoint, Route, protected_group}
use mini_databricks.Gateway.Auth.{auth_middleware, continue_as}
use mini_databricks.Gateway.Users.{handle_register, handle_login, handle_me}

-- The CORS middleware lets the requests of an origin pass; those without one always pass.
abbrev pub PassesCors : Gateway → Option Text → Type 0
PassesCors g o = (m : Method) → cors_answer g o m ≡ none

-- A POST to `/api/v1/auth/…`, and a GET of `/api/v1/me`.
abbrev pub auth_request : Option Text → Text → List JsonField → Request
auth_request origin page fields = record {
  method = Method.post;
  path = codes "api" ∷ codes "v1" ∷ codes "auth" ∷ page ∷ [];
  query = [];
  authorization = [];
  origin = origin;
  body = ok fields;
  traceparent = [];
}

abbrev pub me_request : Option Text → Text → Request
me_request origin token = record {
  method = Method.get;
  path = codes "api" ∷ codes "v1" ∷ codes "me" ∷ [];
  query = [];
  authorization = bearer token;
  origin = origin;
  body = ok [];
  traceparent = [];
}

abbrev auth_route : Text → Endpoint → Route
auth_route page e = record {
  method = Method.post;
  pattern = codes "api" ∷ codes "v1" ∷ codes "auth" ∷ page ∷ [];
  protected = false;
  endpoint = e;
}

abbrev register_route : Route
register_route = auth_route (codes "register") Endpoint.register

abbrev login_route : Route
login_route = auth_route (codes "login") Endpoint.login

abbrev me_route : Route
me_route = record {
  method = Method.get;
  pattern = codes "api" ∷ codes "v1" ∷ codes "me" ∷ [];
  protected = true;
  endpoint = Endpoint.me;
}

not_taken :
    (email : Text) (users : List User)
    → email_is_taken email users ≡ false
    → All (λ u. user_has_email email u ≡ false) users
unfolding email_is_taken
not_taken email [] h = tt
not_taken email (u ∷ users) h = elim (Bool-cases (user_has_email email u)) [
  | inl hit ↦ ground (arith, hit)
  | inr miss ↦ (miss, not_taken email users (rw (email_is_taken, miss) at h))
]

-- A world in which a user registers and logs in.
module _ (w : World) (c : Credentials) (hash : Text) where
  abbrev joined : User
  joined = record {
    id = w.db.next_id;
    email = c.email;
    password_hash = hash;
    role = UserRole.viewer;
    created_at = w.now + w.env.elapsed w.calls;
  }

  abbrev registered_world : World
  registered_world = record (tick (calm w)) {
    db = record (take_id w.db) { users = w.db.users ++ joined ∷ [] };
  }

  register-calm :
      w.env.hash_password w.calls c.password ≡ ok hash
      → email_is_taken c.email w.db.users ≡ false
      → register c.email c.password (calm w) ≡ (ok joined, registered_world)
  unfolding register hash_password create_user actions call
  register-calm hashed fresh = rw (hashed, fresh) refl

  login_calm :
      (secret : Text) {token : Text}
      → email_is_taken c.email w.db.users ≡ false
      → w.env.password_matches hash c.password ≡ true
      → w.env.sign_token secret (claims_of joined (tick registered_world)) ≡ ok token
      → login c.email c.password secret registered_world ≡ (ok token, tick registered_world)
  unfolding login check_password issue_token get_user_by_email signed_string actions call
  login_calm secret fresh matches signed =
      rw
        (
          first-append_none (user_has_email c.email) w.db.users (joined ∷ [])
              (not_taken c.email w.db.users fresh),
          same_text_refl c.email,
          matches,
          signed,
        )
        refl

  register_served :
      (g : Gateway) (o : Option Text) (fields : List JsonField)
      → PassesCors g o
      → IsRouter g.router all_routes
      → new_credentials (calm w).env fields ≡ ok c
      → w.env.hash_password w.calls c.password ≡ ok hash
      → email_is_taken c.email w.db.users ≡ false
      → serve g (auth_request o (codes "register") fields) (calm w)
        ≡ (respond 201 (user_reply joined.id c.email UserRole.viewer), registered_world)
  unfolding serve protected_group run_route handler_of handle_register bind_json with_bound answer
      actions
  register_served g o fields passes router accepted hashed fresh =
      rw
        (
          router.exact register_route (inr (inr (inr (inr (inl refl)))))
              (refl, (refl, (refl, (refl, tt)))),
          passes Method.post,
          accepted,
          register-calm hashed fresh,
        )
        refl

  login_served :
      (g : Gateway) (o : Option Text) (fields : List JsonField) {token : Text}
      → PassesCors g o
      → IsRouter g.router all_routes
      → credentials (calm w).env fields ≡ ok c
      → email_is_taken c.email w.db.users ≡ false
      → w.env.password_matches hash c.password ≡ true
      → w.env.sign_token g.jwt_secret (claims_of joined (tick registered_world)) ≡ ok token
      → serve g (auth_request o (codes "login") fields) registered_world
        ≡ (respond 200 (token_reply token), tick registered_world)
  unfolding serve protected_group run_route handler_of handle_login bind_json with_bound answer
      actions
  login_served g o fields passes router accepted fresh matches signed =
      rw
        (
          router.exact login_route (inr (inr (inr (inr (inr (inl refl))))))
              (refl, (refl, (refl, (refl, tt)))),
          passes Method.post,
          accepted,
          login_calm g.jwt_secret fresh matches signed,
        )
        refl

me_served :
    (g : Gateway) (o : Option Text) (token : Text) (v : World) {k : Claims}
    → PassesCors g o
    → IsRouter g.router all_routes
    → v.env.read_token g.jwt_secret v.now token ≡ some k
    → serve g (me_request o token) v ≡ (respond 200 (me_reply k.user_id k.role), v)
unfolding serve protected_group run_route handler_of handle_me auth_middleware continue_as actions
me_served g o token v passes router h =
    rw
      (
        router.exact me_route (inr (inr (inr (inr (inr (inr (inl refl)))))))
            (refl, (refl, (refl, tt))),
        passes Method.get,
        bearer_claims_accepts g.jwt_secret token v h,
      )
      refl

module _ (g : Gateway) (o : Option Text) (fields : List JsonField) (w : World) where
  -- The worlds after the registration and after the login that follows it.
  abbrev pub after_register : World
  after_register = (serve g (auth_request o (codes "register") fields) (calm w)).1

  abbrev pub after_login : World
  after_login = (serve g (auth_request o (codes "login") fields) after_register).1

  pub record IsSession (email : Text) : Type 0 where
    pub id : Uuid
    pub token : Text
    pub registered :
        (serve g (auth_request o (codes "register") fields) (calm w)).0
        ≡ respond 201 (user_reply id email UserRole.viewer)
    pub logged_in :
        (serve g (auth_request o (codes "login") fields) after_register).0
        ≡ respond 200 (token_reply token)
    pub known :
        (v : World)
        → v.env ≡ (calm w).env
        → v.now < after_login.now + day
        → serve g (me_request o token) v
          ≡ (respond 200 (me_reply (w.env.format_uuid id) (codes "viewer")), v)

  -- On a calm network a client that registers with an unused address gets 201, a login with the same
  -- body gets 200 and a token, and for 24 hours, in whatever world follows, a request with that token
  -- is taken for that user as a viewer and changes nothing. The hypotheses: the CORS middleware lets
  -- the client's origin pass, the router
  -- chooses routes as gin documents, the body passes the rules
  -- of a registration, a password matches its own hash, and a token that is signed is read as its
  -- claims until it expires.
  pub serve-IsSession :
      {c : Credentials}
      → PassesCors g o
      → IsRouter g.router all_routes
      → new_credentials (calm w).env fields ≡ ok c
      → email_is_taken c.email w.db.users ≡ false
      → ((k : ℕ)
          → (h : Text) × (w.env.hash_password k c.password ≡ ok h)
            × (w.env.password_matches h c.password ≡ true))
      → ((k : Claims)
          → (t : Text) × (w.env.sign_token g.jwt_secret k ≡ ok t)
            × ((now : ℕ) → now < k.exp → w.env.read_token g.jwt_secret now t ≡ some k))
      → IsSession c.email
  serve-IsSession {c} passes router accepted fresh bcrypt jwt =
      let (hash, hashed, matches) = bcrypt w.calls in
      let (token, signed, reads) =
        jwt (claims_of (joined w c hash) (tick (registered_world w c hash))) in
      let first = register_served w c hash g o fields passes router accepted hashed fresh in
      let second =
        login_served w c hash g o fields passes router
          (new_credentials-credentials (calm w).env fields accepted) fresh matches signed in
      let logged =
        ap (λ v. serve g (auth_request o (codes "login") fields) v) (ap (λ x. x.1) first)
        ∙ second in
      record {
        id = w.db.next_id;
        token = token;
        registered = ap (λ x. x.0) first;
        logged_in = ap (λ x. x.0) logged;
        known = λ v same soon. me_served g o token v passes router (
            ap (λ e. e.read_token g.jwt_secret v.now token) same
            ∙ reads v.now (subst (λ x. v.now < x.now + day) (ap (λ x. x.1) logged) soon));
      }
