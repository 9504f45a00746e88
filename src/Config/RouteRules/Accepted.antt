-- ===== src/Config/RouteRules/Accepted.antt =====
-- config.go: what an accepted list of routes is.
use nats_web_gateway.Base.{
  >>-eq-ok, All, List, [], arith, false, map, ok, reject_if, reject_if-eq-ok, wrap, wrap-eq-ok, ℕ,
  ◌&&◌, ◌++◌, ◌+◌, ◌∷◌, ◌≡◌, ◌≢◌,
}
use nats_web_gateway.Base.Text.{contains, is_empty, text_ne}
use nats_web_gateway.Config.RouteRules.Overlap.{methods_overlap, paths_overlap}
use nats_web_gateway.Config.RouteRules.{
  Checks, in_route, no_routes, reject_overlap, validate_from, validate_route, validate_routes,
}
use nats_web_gateway.Config.{Route, elements}

-- The earlier route and the later one have different names, and no method and path in common.
abbrev pub Apart : Route → Route → Type 0
Apart earlier later =
    (earlier.name ≢ later.name)
    × ((methods_overlap (elements later.methods) (elements earlier.methods)
          && paths_overlap later.path earlier.path)
        ≡ false)

abbrev pub Pairwise : List Route → Type 0
Pairwise [] = Unit {0}
Pairwise (route ∷ routes) = All (Apart route) routes × Pairwise routes

All-split :
    {A : Type 0} (P : A → Type 0) (xs : List A) (y : A) → All P (xs ++ y ∷ []) → All P xs × P y
All-split P [] y (p, h) = (tt, p)
All-split P (x ∷ xs) y (p, h) = let (q, r) = All-split P xs y h in ((p, q), r)

All-cons :
    (route : Route) (routes passed : List Route)
    → All (λ p. Apart p route) passed
    → All (λ p. All (Apart p) routes) passed
    → All (λ p. All (Apart p) (route ∷ routes)) passed
All-cons route routes [] h k = tt
All-cons route routes (p ∷ passed) (a, h) (b, k) = ((a, b), All-cons route routes passed h k)

module _ (checks : Checks) where
  Apart-of_passed :
      (route : Route) (passed : List Route)
      → contains (map (λ r. r.name) passed) route.name ≡ false
      → reject_overlap checks route passed ≡ ok tt
      → All (λ p. Apart p route) passed
  unfolding reject_overlap contains
  Apart-of_passed route [] h e = tt
  Apart-of_passed route (p ∷ passed) h e =
      let (free, e') = >>-eq-ok (reject_if _ _) _ e in
      (
        (text_ne p.name route.name (ground arith), reject_if-eq-ok _ _ free),
        Apart-of_passed route passed (ground arith) e',
      )

  validate_from-Pairwise :
      (i : ℕ) (passed routes : List Route)
      → validate_from checks i passed routes ≡ ok tt
      → All (λ r. validate_route checks r ≡ ok tt) routes
        × All (λ p. All (Apart p) routes) passed
        × Pairwise routes
  unfolding validate_from
  validate_from-Pairwise i passed [] e = (tt, all_empty passed, tt)
    where
      all_empty : (ps : List Route) → All (λ p. All (Apart p) []) ps
      all_empty [] = tt
      all_empty (p ∷ ps) = (tt, all_empty ps)
  validate_from-Pairwise i passed (route ∷ routes) e =
      let (valid, e') = >>-eq-ok (wrap (in_route i) (validate_route checks route)) _ e in
      let (new, e'') =
        >>-eq-ok (reject_if (contains (map (λ r. r.name) passed) route.name) _) _ e' in
      let (free, e''') = >>-eq-ok (reject_overlap checks route passed) _ e'' in
      let (later, apart, pairs) =
        validate_from-Pairwise (i + 1) (passed ++ route ∷ []) routes e''' in
      let (before, own) = All-split (λ p. All (Apart p) routes) passed route apart in
      (
        (wrap-eq-ok (in_route i) _ valid, later),
        All-cons route routes passed (Apart-of_passed route passed (reject_if-eq-ok _ _ new) free)
            before,
        (own, pairs),
      )

  -- An accepted list has a route at least, each of its routes is accepted by itself, and of any two
  -- the names differ, and the methods or the paths do not overlap.
  pub validate_routes-Pairwise :
      (routes : List Route)
      → validate_routes checks routes ≡ ok tt
      → (routes ≢ []) × All (λ r. validate_route checks r ≡ ok tt) routes × Pairwise routes
  unfolding validate_routes
  validate_routes-Pairwise routes e =
      let (some', e') = >>-eq-ok (reject_if (is_empty routes) no_routes) _ e in
      let (valid, _, pairs) = validate_from-Pairwise 0 [] routes e' in
      ((λ q. ground arith), valid, pairs)
