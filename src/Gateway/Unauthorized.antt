-- ===== src/Gateway/Unauthorized.antt =====
-- What a request without a valid token gets (internal/middleware/auth.go, routes/routes.go).
use mini_databricks.Base.{
  ◌∙◌, ◌≡◌, refl, ◌⊎◌, inl, inr, true, false, none, some, List, [], ◌∷◌, All, All-append,
  Option-cases,
}
use mini_databricks.Base.Text.{Text, codes}
use mini_databricks.Errors.{GoError, Result, ok, err, Result-cases}
use mini_databricks.World.{World, Action, pure, actions}
use mini_databricks.Gateway.Http.{Method, get, post, Request, Response, failed}
use mini_databricks.Gateway.Tokens.{bearer, bearer_claims_valid}
use mini_databricks.Gateway.Auth.{bearer_claims, continue_as, auth_middleware}
use mini_databricks.Gateway.Routes.{
  Endpoint, Route, main_routes, auth_routes, guarded_rows, protected_group, setup_routes,
}
use mini_databricks.Gateway.Router.{IsRouter, Fits, All-IsIn, literal-Fits}
use mini_databricks.Gateway.Serve.{
  Gateway, handler_of, enter, bare_context, cors_answer, after_cors, run_route, not_found,
  all_routes, serve, recovered,
}

-- The paths that need no token.
abbrev pub public_requests : List (Method × List Text)
public_requests =
    (get, codes "health" ∷ [])
    ∷ (get, codes "ready" ∷ [])
    ∷ (get, codes "metrics" ∷ [])
    ∷ (get, codes "admin" ∷ codes "stats" ∷ [])
    ∷ (post, codes "api" ∷ codes "v1" ∷ codes "auth" ∷ codes "register" ∷ [])
    ∷ (post, codes "api" ∷ codes "v1" ∷ codes "auth" ∷ codes "login" ∷ [])
    ∷ []

abbrev pub IsAmong : Request → List (Method × List Text) → Type 0
IsAmong req [] = (true ≡ false)
IsAmong req ((m, path) ∷ rest) = ((req.method ≡ m) × (req.path ≡ path)) ⊎ IsAmong req rest

-- A route of the group with the middleware, or one of those that need no token.
abbrev IsCovered : Request → Route → Type 0
IsCovered req r =
    (r.protected ≡ true)
    ⊎ (req.method ≡ r.method → Fits r.pattern req.path → IsAmong req public_requests)

open_routes-IsCovered :
    (req : Request) → All (IsCovered req) main_routes × All (IsCovered req) auth_routes
open_routes-IsCovered req = (
  (
    inr (λ m e. inl (m, literal-Fits _ req.path (refl, tt) e)),
    (
      inr (λ m e. inr (inl (m, literal-Fits _ req.path (refl, tt) e))),
      (
        inr (λ m e. inr (inr (inl (m, literal-Fits _ req.path (refl, tt) e)))),
        (inr (λ m e. inr (inr (inr (inl (m, literal-Fits _ req.path (refl, (refl, tt)) e))))), tt),
      ),
    ),
  ),
  (
    inr (λ m e.
        inr (
          inr (inr (inr (inl (m, literal-Fits _ req.path (refl, (refl, (refl, (refl, tt)))) e)))))),
    (
      inr (λ m e. inr (
          inr (
            inr (
              inr (inr (inl (m, literal-Fits _ req.path (refl, (refl, (refl, (refl, tt)))) e))))))),
      tt,
    ),
  ),
)

protected_group-IsCovered :
    (req : Request) (rows : List (Method × List Text × Endpoint))
    → All (IsCovered req) (protected_group rows)
unfolding protected_group
protected_group-IsCovered req [] = tt
protected_group-IsCovered req ((m, rest, e) ∷ rows) = (inl refl, protected_group-IsCovered req rows)

all_routes-IsCovered : (req : Request) → All (IsCovered req) all_routes
all_routes-IsCovered req =
    All-append (IsCovered req) main_routes setup_routes (open_routes-IsCovered req).0 (
      All-append (IsCovered req) auth_routes (protected_group guarded_rows)
        (open_routes-IsCovered req).1 (protected_group-IsCovered req guarded_rows))

abbrev answered_of : Result Response × World → Response × World
answered_of (r, v) = (recovered r, v)

module _ (g : Gateway) (req : Request) (w : World) where
  -- The answer to a request without a token, which leaves everything as it is.
  abbrev pub Refused : Type 0
  Refused = ((e : GoError) × (serve g req w ≡ (failed 401 e, w))) ⊎ (serve g req w ≡ (not_found, w))

  -- The router chooses no route and gin redirects, or the CORS middleware answers.
  abbrev IsAside : Response → Type 0
  IsAside r =
      ((g.router all_routes req.method req.path ≡ none) × (g.redirect req ≡ some r))
      ⊎ (cors_answer g req.origin req.method ≡ some r)

  -- The libraries answer before any handler runs, which leaves everything as it is.
  abbrev pub AnsweredAside : Type 0
  AnsweredAside = (r : Response) × IsAside r × (serve g req w ≡ (r, w))

  abbrev Rejected : Type 0
  Rejected = Refused ⊎ AnsweredAside

  -- What the middleware does with the answer of a run.
  abbrev Answers : Action Response → Type 0
  Answers m = (serve g req w ≡ answered_of (m w))

  after_cors-Rejected :
      (m : Action Response)
      → Answers (after_cors g req m)
      → ((m w ≡ (ok not_found, w)) ⊎ ((e : GoError) × (m w ≡ (ok (failed 401 e), w))))
      → Rejected
  unfolding pure
  after_cors-Rejected m run refusal = elim (Option-cases (cors_answer g req.origin req.method)) [
    | inr (r, answered) ↦ inr (r, inr answered, run ∙ rw answered refl)
    | inl passed ↦ elim refusal [
      | inl missing ↦ inl (inr (run ∙ rw (passed, missing) refl))
      | inr (e, unauthorized) ↦ inl (inl (e, run ∙ rw (passed, unauthorized) refl))
    ]
  ]

  guarded_route :
      (e : GoError) (r : Route) (ps : List (Text × Text))
      → r.protected ≡ true
      → bearer_claims g.jwt_secret req.authorization w ≡ err e
      → enter g r.protected (handler_of g r.endpoint) req (bare_context ps) w
        ≡ (ok (failed 401 e), w)
  unfolding actions auth_middleware continue_as
  guarded_route e r ps p h = rw (p, h) refl

  unclaimed :
      (e : GoError)
      → IsRouter g.router all_routes
      → bearer_claims g.jwt_secret req.authorization w ≡ err e
      → Refused ⊎ AnsweredAside ⊎ IsAmong req public_requests
  unfolding serve run_route pure
  unclaimed e router h = elim (Option-cases (g.router all_routes req.method req.path)) [
    | inl missed ↦ elim (Option-cases (g.redirect req)) [
      | inr (r, redirected) ↦ inr (inl (r, inl (missed, redirected), rw (missed, redirected) refl))
      | inl kept ↦
          settled (after_cors-Rejected (pure not_found) (rw (missed, kept) refl) (inl refl))
    ]
    | inr ((r, ps), found) ↦
        let (here, m, fits) = router.fits req.method req.path r ps found in
        by_route r ps found m fits
          (All-IsIn (IsCovered req) all_routes (all_routes-IsCovered req) here)
  ]
    where
      settled : Rejected → Refused ⊎ AnsweredAside ⊎ IsAmong req public_requests
      settled (inl refusal) = inl refusal
      settled (inr aside) = inr (inl aside)

      by_route :
          (r : Route) (ps : List (Text × Text))
          → g.router all_routes req.method req.path ≡ some (r, ps)
          → req.method ≡ r.method
          → Fits r.pattern req.path
          → IsCovered req r
          → Refused ⊎ AnsweredAside ⊎ IsAmong req public_requests
      by_route r ps found m fits (inl p) = settled (
          after_cors-Rejected (enter g r.protected (handler_of g r.endpoint) req (bare_context ps))
            (rw found refl) (inr (e, guarded_route e r ps p h)))
      by_route r ps found m fits (inr open_route) = inr (inr (open_route m fits))

  -- A request whose header is not `Bearer` and a token that is valid now changes nothing and is
  -- answered by 401 or 404, or by the libraries before any handler runs, a redirection of a path
  -- that has no route or an answer of the CORS middleware, unless it is one of the six requests that
  -- need no token: the health, readiness, metrics and statistics pages, registration and login. The
  -- router chooses routes as gin documents.
  pub serve_unauthorized :
      IsRouter g.router all_routes
      → ((token : Text)
          → req.authorization ≡ bearer token
          → w.env.read_token g.jwt_secret w.now token ≡ none)
      → Refused ⊎ AnsweredAside ⊎ IsAmong req public_requests
  serve_unauthorized router h =
      elim (Result-cases (bearer_claims g.jwt_secret req.authorization w)) [
        | inl (e, missing) ↦ unclaimed e router missing
        | inr (c, accepted) ↦
            let (token, is_bearer, valid) =
              bearer_claims_valid g.jwt_secret req.authorization w accepted in
            let none_valid : w.env.read_token g.jwt_secret w.now token ≡ none = h token is_bearer in
            cc
      ]
