-- ===== src/Profiles/Identity.antt =====
-- profiles.go: what resolution does to a route's name, path and methods.
use nats_web_gateway.Base.{
  >>-eq-ok, >>=-eq-ok, All, Bool, Bool-cases, List, Option, Option-cases, Result, [], ap, arith,
  false, inl, inr, none, not, ok, refl, reject_if, some, true, wrap, wrap-eq-ok, ℕ, ◌∙◌, ◌∷◌, ◌≡◌,
}
use nats_web_gateway.Base.Map.{Map, lookup}
use nats_web_gateway.Base.Text.{Text, contains, is_empty, text_eq}
use nats_web_gateway.Profiles.Clear.{
  zero_route, clearers, clear_route_field, shareable_route_fields,
}
use nats_web_gateway.Profiles.{
  ProfileError, resolve_name, RouteProfile, in_route, index_profiles, resolve_all, resolve_each,
  resolve_route, resolved_routes,
}
use nats_web_gateway.Profiles.Merge.{
  merge_fields, merge_route, over_option, over_text, clear_all, duplicate_parameter,
  duplicate_status, extend_map, extend_route,
}
use nats_web_gateway.Config.{Route, RouteExtensions}

-- The second route has the identity of the first one, and no directive of a declaration.
pub record IsResolved (declared r : Route) : Type 0 where
  pub same_name : r.name ≡ declared.name
  pub same_path : r.path ≡ declared.path
  pub same_methods : r.methods ≡ declared.methods
  pub no_profile : r.profile ≡ []
  pub no_clear : r.clear ≡ []
  pub no_extend : r.extend ≡ none

abbrev pub AllResolved : List Route → List Route → Type 0
AllResolved [] [] = Unit {0}
AllResolved (declared ∷ routes) (r ∷ rs) = IsResolved declared r × AllResolved routes rs
AllResolved _ _ = ⊥

-- The three fields that no profile may have.
abbrev identity : Route → Text × Text × Option (List Text)
identity r = (r.name, r.path, r.methods)

abbrev Keeps : Text × (Route → Route) → Type 0
Keeps (field, clearer) = (r : Route) → identity (clearer r) ≡ identity r

lookup-All :
    (m : Map (Route → Route)) (key : Text) (f : Route → Route)
    → All Keeps m
    → lookup key m ≡ some f
    → (r : Route) → identity (f r) ≡ identity r
unfolding lookup
lookup-All [] key f h e = absurd (ground arith)
lookup-All ((k, g) ∷ m) key f (p, h) e = elim (Bool-cases (text_eq k key)) [
  | inl same ↦
      λ r. ap identity (ap (λ (x : Route → Route). x r) (let q : f ≡ g = ground arith in q)) ∙ p r
  | inr other' ↦ lookup-All m key f h (ground arith)
]

unchanged : (r : Route) → identity r ≡ identity r
unchanged r = refl

clearers-Keeps : All Keeps clearers
clearers-Keeps = search unchanged

identity-clear_route_field :
    (field : Text) (r : Route) → identity (clear_route_field field r) ≡ identity r
unfolding clear_route_field
identity-clear_route_field field r = elim (Option-cases (lookup field clearers)) [
  | inl none' ↦ rw (none', clear_route_field) refl
  | inr (f, found) ↦
      rw (found, clear_route_field) (lookup-All clearers field f clearers-Keeps found r)
]

identity-clear_all :
    (cleared fields : List Text) (r r' : Route)
    → clear_all cleared fields r ≡ ok r'
    → identity r' ≡ identity r
unfolding clear_all
identity-clear_all cleared [] r r' e = ground arith
identity-clear_all cleared (field ∷ fields) r r' e =
    let (_, e') = >>-eq-ok (reject_if (not (contains shareable_route_fields field)) _) _ e in
    let (_, e'') = >>-eq-ok (reject_if (contains cleared field) _) _ e' in
    identity-clear_all (field ∷ cleared) fields (clear_route_field field r) r' e''
    ∙ identity-clear_route_field field r

identity-extend_route :
    (r r' : Route) (ext : RouteExtensions) → extend_route r ext ≡ ok r' → identity r' ≡ identity r
unfolding extend_route
identity-extend_route r r' ext e =
    let (parameters, _, e') = >>=-eq-ok (extend_map duplicate_parameter _ _) _ e in
    let (statuses, _, e'') = >>=-eq-ok (extend_map duplicate_status _ _) _ e' in ground arith

merge_fields-own :
    (base route : Route)
    → base.name ≡ route.name
    → base.path ≡ route.path
    → base.methods ≡ route.methods
    → identity (merge_fields base route) ≡ identity route
unfolding merge_fields
merge_fields-own base route p q r =
    rw (
      p,
      q,
      r,
      over_text_same route.name,
      over_text_same route.path,
      over_option_same route.methods,
    )
  where
    over_text_same : (t : Text) → over_text t t ≡ t
    over_text_same [] = refl
    over_text_same (c ∷ t) = refl

    over_option_same : (o : Option (List Text)) → over_option o o ≡ o
    over_option_same none = refl
    over_option_same (some x) = refl

identity-merge_route :
    (base route r : Route)
    → identity base ≡ identity route
    → merge_route base route ≡ ok r
    → identity r ≡ identity route
unfolding merge_route
identity-merge_route base route r same e =
    let (cleared, made, e') = >>=-eq-ok (clear_all [] route.clear base) _ e in
    let kept : identity cleared ≡ identity route =
      identity-clear_all [] route.clear base cleared made ∙ same in
    let own : identity (merge_fields cleared route) ≡ identity route =
      merge_fields-own cleared route (ap (λ (x : Text × Text × Option (List Text)). x.0) kept)
        (ap (λ (x : Text × Text × Option (List Text)). x.1) kept)
        (ap (λ (x : Text × Text × Option (List Text)). x.2) kept) in
    elim (Option-cases route.extend) [
      | inl none' ↦ ap identity (let q : r ≡ merge_fields cleared route = ground arith in q) ∙ own
      | inr (ext, some') ↦
          identity-extend_route (merge_fields cleared route) r ext (ground arith) ∙ own
    ]

resolve_route-IsResolved :
    (profiles : Map RouteProfile) (cache cache' : Map Route) (route r : Route)
    → resolve_route profiles cache route ≡ ok (cache', r)
    → IsResolved route r
unfolding resolve_route
resolve_route-IsResolved profiles cache cache' route r e =
    let ((_, base), _, e') =
      >>=-eq-ok
        (let r : Result ProfileError (Map Route × Route) = elim (is_empty route.profile) [
          | true ↦ ok (cache, zero_route)
          | false ↦ resolve_name profiles cache route.profile
        ] in
          r)
        _ e in
    let (merged, made, e'') = >>=-eq-ok (wrap (in_route route.name) _) _ e' in
    let own : identity merged ≡ identity route =
      identity-merge_route
        (record base { name = route.name; path = route.path; methods = route.methods }) route merged
        refl (wrap-eq-ok (in_route route.name) _ made) in
    let one : record merged { profile = []; clear = []; extend = none } ≡ r = ground arith in
    rw (← one) (record {
      same_name = ap (λ (x : Text × Text × Option (List Text)). x.0) own;
      same_path = ap (λ (x : Text × Text × Option (List Text)). x.1) own;
      same_methods = ap (λ (x : Text × Text × Option (List Text)). x.2) own;
      no_profile = refl;
      no_clear = refl;
      no_extend = refl;
    })

resolve_each-AllResolved :
    (profiles : Map RouteProfile) (cache : Map Route) (routes rs : List Route)
    → resolve_each profiles cache routes ≡ ok rs
    → AllResolved routes rs
unfolding resolve_each
resolve_each-AllResolved profiles cache [] rs e = rw (← (let q : [] ≡ rs = ground arith in q)) tt
resolve_each-AllResolved profiles cache (route ∷ routes) rs e =
    let ((cache', r), made, e') = >>=-eq-ok (resolve_route profiles cache route) _ e in
    let (rest, made', e'') = >>=-eq-ok (resolve_each profiles cache' routes) _ e' in
    rw (← (let q : r ∷ rest ≡ rs = ground arith in q)) (
      resolve_route-IsResolved profiles cache cache' route r made,
      resolve_each-AllResolved profiles cache' routes rest made',
    )

-- The routes that resolution gives are as many as those declared, in their order, and each one has
-- the name, the path and the methods that it was declared with, whatever profiles it inherits from
-- and whatever it clears or extends. No directive of a declaration is left in it.
pub resolved_routes-AllResolved :
    (is_letter is_digit : ℕ → Bool) (declared : List RouteProfile) (routes rs : List Route)
    → resolved_routes is_letter is_digit declared routes ≡ ok rs
    → AllResolved routes rs
unfolding resolved_routes
resolved_routes-AllResolved is_letter is_digit declared routes rs e =
    let (profiles, _, e') = >>=-eq-ok (index_profiles is_letter is_digit 0 [] declared) _ e in
    let (cache, _, e'') = >>=-eq-ok (resolve_all profiles [] profiles) _ e' in
    resolve_each-AllResolved profiles cache routes rs e''
