-- ===== src/Gateway/Tokens.antt =====
-- Which `Authorization` headers internal/middleware/auth.go accepts.
use mini_databricks.Base.{
  ◌≡◌, refl, sym, ap, ◌∙◌, inl, inr, Option, none, some, [], ◌∷◌, ◌++◌, ◌==◌, ==→eq, Bool-cases,
  Option-cases,
}
use mini_databricks.Base.Text.{Text, codes, same_text, same_text→eq}
use mini_databricks.Errors.{Result, ok, err}
use mini_databricks.World.{World, Claims}
use mini_databricks.Gateway.Auth.{split_space, read_bearer, bearer_claims}

-- The text after the scheme `Bearer` and one space is the token.
abbrev pub bearer : Text → Text
bearer token = codes "Bearer " ++ token

split_space_lem : (s : Text) {a b : Text} → split_space s ≡ some (a, b) → s ≡ a ++ 32 ∷ b
unfolding split_space
split_space_lem [] h = cc
split_space_lem (c ∷ s) {a} {b} h = elim (Bool-cases (c == 32)) [
  | inl e ↦
      let found : ◌≡◌ {A = Option (Text × Text)} (some ([], s)) (some (a, b)) = rw e at h in
      let first : ◌≡◌ {A = Text} [] a = cc in
      let second : s ≡ b = cc in rw (sym first, sym second, ==→eq c 32 e)
  | inr e ↦ elim (Option-cases (split_space s)) [
    | inl missed ↦
        let found : ◌≡◌ {A = Option (Text × Text)} none (some (a, b)) = rw (e, missed) at h in cc
    | inr ((a', b'), later) ↦
        let found : ◌≡◌ {A = Option (Text × Text)} (some (c ∷ a', b')) (some (a, b)) =
          rw (e, later) at h in
        let first : c ∷ a' ≡ a = cc in
        let second : b' ≡ b = cc in
        rw (sym first, sym second) (ap (λ t. c ∷ t) (split_space_lem s later))
  ]
]

-- A token that is accepted is valid, and the header is `Bearer` and the token; a valid token is
-- accepted.
pub bearer_claims_valid :
    (secret header : Text) (w : World) {c : Claims}
    → bearer_claims secret header w ≡ ok c
    → (token : Text) × (header ≡ bearer token) × (w.env.read_token secret w.now token ≡ some c)
unfolding bearer_claims
bearer_claims_valid secret [] w h = cc
bearer_claims_valid secret (x ∷ header) w {c} h = elim (Option-cases (split_space (x ∷ header))) [
  | inl missed ↦ let found : ◌≡◌ {A = Result Claims} (err _) (ok c) = rw missed at h in cc
  | inr ((scheme, token), parts) ↦ by_scheme scheme token parts (rw parts at h)
]
  where
    by_scheme :
        (scheme token : Text)
        → split_space (x ∷ header) ≡ some (scheme, token)
        → read_bearer secret (some (scheme, token)) w ≡ ok c
        → (t : Text) × (x ∷ header ≡ bearer t) × (w.env.read_token secret w.now t ≡ some c)
    by_scheme scheme token parts h = elim (Bool-cases (same_text scheme (codes "Bearer"))) [
      | inr e ↦ let found : ◌≡◌ {A = Result Claims} (err _) (ok c) = rw e at h in cc
      | inl e ↦ elim (Option-cases (w.env.read_token secret w.now token)) [
        | inl missed ↦
            let found : ◌≡◌ {A = Result Claims} (err _) (ok c) = rw (e, missed) at h in cc
        | inr (c', valid) ↦
            let same : ◌≡◌ {A = Result Claims} (ok c') (ok c) = rw (e, valid) at h in
            let is_c : c' ≡ c = cc in
            (
              token,
              split_space_lem (x ∷ header) parts
                  ∙ ap (λ t. t ++ 32 ∷ token) (same_text→eq scheme (codes "Bearer") e),
              valid ∙ ap some is_c,
            )
      ]
    ]

pub bearer_claims_accepts :
    (secret token : Text) (w : World) {c : Claims}
    → w.env.read_token secret w.now token ≡ some c
    → bearer_claims secret (bearer token) w ≡ ok c
unfolding bearer_claims split_space
bearer_claims_accepts secret token w h = rw h refl
