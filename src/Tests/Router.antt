-- ===== src/Tests/Router.antt =====
-- A router that takes the first route that fits, and that it does what gin documents.
use mathlib.Core.Path.{subst}
use mini_databricks.Base.{
  ◌≡◌, refl, sym, ◌⊎◌, inl, inr, Bool, true, false, Option, none, some, List, [], ◌∷◌, All, ◌==◌,
  Bool-cases, Option-cases, if◌then◌else◌, arith,
}
use mini_databricks.Base.Text.{Text, same_text, same_text→eq}
use mini_databricks.Gateway.Http.{Method, get, post, patch, delete, other_method}
use mini_databricks.Gateway.Routes.{Route, protected_group}
use mini_databricks.Gateway.Router.{IsIn, Fits, is_literal, IsLiteral, IsRouter, All-IsIn}
use mini_databricks.Gateway.Serve.{all_routes}

abbrev pub same_method : Method → Method → Bool
same_method get get = true
same_method post post = true
same_method patch patch = true
same_method delete delete = true
same_method _ _ = false

abbrev pub with_param : Text → Text → Option (List (Text × Text)) → Option (List (Text × Text))
with_param name v none = none
with_param name v (some ps) = some ((name, v) ∷ ps)

-- A parameter takes any part of the path.
abbrev pub match_part : Text → Text → Option (List (Text × Text)) → Option (List (Text × Text))
match_part [] s rest = if same_text [] s then rest else none
match_part (c ∷ name) s rest =
    if c == 58 then with_param name s rest else if same_text (c ∷ name) s then rest else none

-- The parameters with which a path fits a pattern.
unfoldable pub match_path : List Text → List Text → Option (List (Text × Text))
match_path [] [] = some []
match_path (p ∷ ps) (s ∷ ss) = match_part p s (match_path ps ss)
match_path _ _ = none

abbrev pub or_next :
    Option (Route × List (Text × Text))
    → Route
    → Option (List (Text × Text))
    → Option (Route × List (Text × Text))
or_next later r none = later
or_next later r (some ps) = some (r, ps)

-- The first route that fits the request. No two routes of a method fit one path.
unfoldable pub find_route : List Route → Method → List Text → Option (Route × List (Text × Text))
unfolding match_path
find_route [] m path = none
find_route (r ∷ rs) m path =
    let later = find_route rs m path in
    if same_method r.method m then or_next later r (match_path r.pattern path) else later

same_method→eq : (m k : Method) → same_method m k ≡ true → m ≡ k
same_method→eq get get h = refl
same_method→eq post post h = refl
same_method→eq patch patch h = refl
same_method→eq delete delete h = refl
same_method→eq get post h = cc
same_method→eq get (other_method t) h = cc
same_method→eq post (other_method t) h = cc
same_method→eq patch (other_method t) h = cc
same_method→eq delete (other_method t) h = cc
same_method→eq (other_method t) get h = cc
same_method→eq (other_method t) post h = cc
same_method→eq (other_method t) patch h = cc
same_method→eq (other_method t) delete h = cc
same_method→eq (other_method s) (other_method t) h = cc
same_method→eq get patch h = cc
same_method→eq get delete h = cc
same_method→eq post get h = cc
same_method→eq post patch h = cc
same_method→eq post delete h = cc
same_method→eq patch get h = cc
same_method→eq patch post h = cc
same_method→eq patch delete h = cc
same_method→eq delete get h = cc
same_method→eq delete post h = cc
same_method→eq delete patch h = cc

match_part-Fits :
    (p s : Text) (rest : Option (List (Text × Text))) {ps : List (Text × Text)}
    → match_part p s rest ≡ some ps
    → ((is_literal p ≡ false) ⊎ (p ≡ s)) × ((qs : List (Text × Text)) × (rest ≡ some qs))
match_part-Fits [] s rest {ps} h = elim (Bool-cases (same_text [] s)) [
  | inl e ↦ (inr (same_text→eq [] s e), (ps, rw e at h))
  | inr e ↦ let found : ◌≡◌ {A = Option (List (Text × Text))} none (some ps) = rw e at h in cc
]
match_part-Fits (c ∷ p) s rest {ps} h = elim (Bool-cases (c == 58)) [
  | inl e ↦ (inl (rw e), with_rest rest (rw e at h))
  | inr e ↦ elim (Bool-cases (same_text (c ∷ p) s)) [
    | inl e' ↦ (inr (same_text→eq (c ∷ p) s e'), (ps, rw (e, e') at h))
    | inr e' ↦
        let found : ◌≡◌ {A = Option (List (Text × Text))} none (some ps) = rw (e, e') at h in cc
  ]
]
  where
    with_rest :
        (r : Option (List (Text × Text)))
        → with_param p s r ≡ some ps
        → (qs : List (Text × Text)) × (r ≡ some qs)
    with_rest none h = cc
    with_rest (some qs) h = (qs, refl)

match_path-Fits :
    (pattern path : List Text) {ps : List (Text × Text)}
    → match_path pattern path ≡ some ps
    → Fits pattern path
unfolding match_path
match_path-Fits [] [] h = tt
match_path-Fits [] (s ∷ path) h = cc
match_path-Fits (p ∷ pattern) [] h = cc
match_path-Fits (p ∷ pattern) (s ∷ path) h =
    let (here, (qs, rest)) = match_part-Fits p s (match_path pattern path) h in
    (here, match_path-Fits pattern path rest)

find_route_fits :
    (rs : List Route) (m : Method) (path : List Text) (r : Route) (ps : List (Text × Text))
    → find_route rs m path ≡ some (r, ps)
    → IsIn r rs × (m ≡ r.method) × Fits r.pattern path
unfolding find_route
find_route_fits [] m path r ps h = cc
find_route_fits (x ∷ rs) m path r ps h = elim (Bool-cases (same_method x.method m)) [
  | inr e ↦ let (i, m_eq, fits) = find_route_fits rs m path r ps (rw e at h) in (inr i, m_eq, fits)
  | inl e ↦ elim (Option-cases (match_path x.pattern path)) [
    | inl missed ↦
        let (i, m_eq, fits) = find_route_fits rs m path r ps (rw (e, missed) at h) in
        (inr i, m_eq, fits)
    | inr hit ↦
        let found : ◌≡◌ {A = Option (Route × List (Text × Text))} (some (x, hit.0)) (some (r, ps)) =
          rw (e, hit.1) at h in
        let same : x ≡ r = cc in
        (
          inl same,
          subst (λ (y : Route). m ≡ y.method) same (sym (same_method→eq x.method m e)),
          subst (λ (y : Route). Fits y.pattern path) same (match_path-Fits x.pattern path hit.1),
        )
  ]
]

-- The router finds a route of the program by its own pattern.
abbrev IsFound : Route → Type 0
IsFound r = IsLiteral r → find_route all_routes r.method r.pattern ≡ some (r, [])

all_routes-IsFound : All IsFound all_routes
unfolding find_route match_path protected_group
all_routes-IsFound = (
  (λ l. refl),
  (
    (λ l. refl),
    (
      (λ l. refl),
      (
        (λ l. refl),
        (
          (λ l. refl),
          (
            (λ l. refl),
            (
              (λ l. refl),
              (
                (λ l. refl),
                (
                  (λ l. refl),
                  (
                    (λ l. absurd (ground arith)),
                    (
                      (λ l. absurd (ground arith)),
                      (
                        (λ l. absurd (ground arith)),
                        (
                          (λ l. refl),
                          (
                            (λ l. absurd (ground arith)),
                            (
                              (λ l. absurd (ground arith)),
                              (
                                (λ l. refl),
                                (
                                  (λ l. absurd (ground arith)),
                                  (
                                    (λ l. refl),
                                    (
                                      (λ l. refl),
                                      (
                                        (λ l. absurd (ground arith)),
                                        (
                                          (λ l. absurd (ground arith)),
                                          (
                                            (λ l. absurd (ground arith)),
                                            (
                                              (λ l. absurd (ground arith)),
                                              ((λ l. absurd (ground arith)), tt),
                                            ),
                                          ),
                                        ),
                                      ),
                                    ),
                                  ),
                                ),
                              ),
                            ),
                          ),
                        ),
                      ),
                    ),
                  ),
                ),
              ),
            ),
          ),
        ),
      ),
    ),
  ),
)

pub find_route-IsRouter : IsRouter find_route all_routes
find_route-IsRouter = record {
  fits = find_route_fits all_routes;
  exact = λ r i l. All-IsIn IsFound all_routes all_routes-IsFound i l;
}
