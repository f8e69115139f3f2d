-- ===== src/Gateway/Router.antt =====
-- What gin documents of the route that it chooses for a request.
use mathlib.Core.Path.{subst}
use mini_databricks.Base.{
  sym, ◌∙◌, ◌≡◌, refl, ap, ◌⊎◌, inl, inr, Bool, true, false, some, List, [], ◌∷◌, All, ◌==◌,
  if◌then◌else◌, arith,
}
use mini_databricks.Base.Text.{Text}
use mini_databricks.Gateway.Http.{Method}
use mini_databricks.Gateway.Routes.{Route, Router}

abbrev pub IsIn : Route → List Route → Type 0
IsIn r [] = (true ≡ false)
IsIn r (x ∷ xs) = (x ≡ r) ⊎ IsIn r xs

-- A part of a pattern that is no parameter; a colon is 58.
abbrev pub is_literal : Text → Bool
is_literal [] = true
is_literal (c ∷ t) = if c == 58 then false else true

-- A path fits a pattern part by part; a parameter takes any part.
abbrev pub Fits : List Text → List Text → Type 0
Fits [] [] = Unit
Fits (p ∷ ps) (s ∷ ss) = ((is_literal p ≡ false) ⊎ (p ≡ s)) × Fits ps ss
Fits _ _ = (true ≡ false)

abbrev pub IsLiteral : Route → Type 0
IsLiteral r = All (λ p. is_literal p ≡ true) r.pattern

-- A chosen route is one of the routes and fits the request; a path that is a route's own pattern,
-- with no parameter in it, gets that route.
pub record IsRouter (find : Router) (routes : List Route) : Type 0 where
  pub fits :
      (m : Method) (path : List Text) (r : Route) (ps : List (Text × Text))
      → find routes m path ≡ some (r, ps)
      → IsIn r routes × (m ≡ r.method) × Fits r.pattern path
  pub exact :
      (r : Route) → IsIn r routes → IsLiteral r → find routes r.method r.pattern ≡ some (r, [])

pub All-IsIn : (P : Route → Type 0) (rs : List Route) {r : Route} → All P rs → IsIn r rs → P r
All-IsIn P [] a i = absurd (ground arith)
All-IsIn P (x ∷ rs) a (inl e) = subst P e a.0
All-IsIn P (x ∷ rs) a (inr i) = All-IsIn P rs a.1 i

-- A pattern without parameters fits itself alone.
pub literal-Fits :
    (ps path : List Text) → All (λ p. is_literal p ≡ true) ps → Fits ps path → path ≡ ps
literal-Fits [] [] l h = refl
literal-Fits [] (s ∷ path) l h = absurd (ground arith)
literal-Fits (p ∷ ps) [] l h = absurd (ground arith)
literal-Fits (p ∷ ps) (s ∷ path) l (inl e, h) = absurd (ground (arith, l.0))
literal-Fits (p ∷ ps) (s ∷ path) l (inr e, h) =
    ap (λ x. x ∷ path) (sym e) ∙ ap (λ x. p ∷ x) (literal-Fits ps path l.1 h)
