-- ===== src/Profiles/Resolution.antt =====
-- profiles.go: the depth of inheritance, measured by the profiles that are not being resolved.
use nats_web_gateway.Base.{
  Bool, Bool-cases, List, Option-cases, Result, [], ap, arith, err, false, if◌then◌else◌, inl, inr,
  length, ok, some, suc, true, wrap, zero, ℕ, ◌+◌, ◌<◌, ◌>>=◌, ◌∷◌, ◌≡◌, ◌≢◌, ◌≤◌,
}
use nats_web_gateway.Base.Map.{Map, insert, lookup}
use nats_web_gateway.Base.Text.{
  Text, contains, is_empty, text_eq, text_eq-sym, text_eq_iff, text_eq_refl,
}
use nats_web_gateway.Profiles.Merge.{merge_route, MergeError}
use nats_web_gateway.Profiles.Clear.{zero_route}
use nats_web_gateway.Profiles.{
  ProfileError, index_profiles, resolve_all, resolve_each, resolve_name, resolve_route,
  resolved_routes, RouteProfile, in_profile, in_route, out_of_fuel, resolve_profile,
}
use nats_web_gateway.Config.{Route}

-- How many profiles are not being resolved.
unfoldable remaining : Map RouteProfile → List Text → ℕ
remaining [] visiting = 0
remaining ((name, profile) ∷ profiles) visiting =
    if contains visiting name
    then remaining profiles visiting
    else suc (remaining profiles visiting)

remaining-le-length :
    (profiles : Map RouteProfile) (visiting : List Text)
    → remaining profiles visiting ≤ length profiles
unfolding remaining
remaining-le-length [] visiting = omega arith
remaining-le-length ((name, p) ∷ profiles) visiting =
    ground (arith, remaining-le-length profiles visiting)

remaining-le-cons :
    (profiles : Map RouteProfile) (visiting : List Text) (name : Text)
    → remaining profiles (name ∷ visiting) ≤ remaining profiles visiting
unfolding remaining contains
remaining-le-cons [] visiting name = omega arith
remaining-le-cons ((n, p) ∷ profiles) visiting name =
    ground (arith, remaining-le-cons profiles visiting name)

remaining-lt-cons :
    (profiles : Map RouteProfile) (visiting : List Text) (name : Text) (profile : RouteProfile)
    → lookup name profiles ≡ some profile
    → contains visiting name ≡ false
    → remaining profiles (name ∷ visiting) < remaining profiles visiting
unfolding remaining contains lookup
remaining-lt-cons [] visiting name profile found new = absurd (ground arith)
remaining-lt-cons ((n, p) ∷ profiles) visiting name profile found new =
    elim (Bool-cases (text_eq n name)) [
      | inl same ↦
          let e : n ≡ name = (text_eq_iff n name).0 same in
          ground (
            arith,
            e,
            text_eq_refl n,
            ap (contains visiting) e,
            text_eq-sym n name,
            remaining-le-cons profiles visiting name,
          )
      | inr other' ↦ ground (
        arith,
        text_eq-sym n name,
        remaining-lt-cons profiles visiting name profile (ground arith) new,
      )
    ]

>>=-ne-err {ℓ κ μ} :
    {E : Type ℓ} {A : Type κ} {B : Type μ} (e : E) (r : Result E A) (next : A → Result E B)
    → r ≢ err e
    → ((a : A) → next a ≢ err e)
    → (r >>= next) ≢ err e
>>=-ne-err e (ok a) next h k = k a
>>=-ne-err e (err x) next h k = λ same. h (ground arith)

ok-ne-err {ℓ κ} : {E : Type ℓ} {A : Type κ} (a : A) {e : E} → ok a ≢ err e
ok-ne-err a h = cc

merged-ne-out_of_fuel :
    (name : Text) (r : Result MergeError Route) → wrap (in_profile name) r ≢ err out_of_fuel
merged-ne-out_of_fuel name (ok x) e = cc
merged-ne-out_of_fuel name (err x) e = cc

routed-ne-out_of_fuel :
    (name : Text) (r : Result MergeError Route) → wrap (in_route name) r ≢ err out_of_fuel
routed-ne-out_of_fuel name (ok x) e = cc
routed-ne-out_of_fuel name (err x) e = cc

resolve_profile-ne-out_of_fuel :
    (profiles : Map RouteProfile) (fuel : ℕ) (cache : Map Route) (visiting : List Text)
    (name : Text)
    → remaining profiles visiting < fuel
    → resolve_profile profiles fuel cache visiting name ≢ err out_of_fuel
unfolding resolve_profile
resolve_profile-ne-out_of_fuel profiles zero cache visiting name h = absurd (omega arith)
resolve_profile-ne-out_of_fuel profiles (suc fuel) cache visiting name h =
    elim (Option-cases (lookup name cache)) [
      | inr (result, cached) ↦ λ e. ground arith
      | inl missing ↦ elim (Option-cases (lookup name profiles)) [
        | inl unknown ↦ λ e. ground arith
        | inr (profile, found) ↦ elim (Bool-cases (contains visiting name)) [
          | inl cycle ↦ λ e. ground arith
          | inr new ↦
              rw (resolve_profile, missing, found, new)
                (>>=-ne-err out_of_fuel _ _
                  (inherited profile.extends (
                    resolve_profile-ne-out_of_fuel profiles fuel cache (name ∷ visiting)
                      profile.extends
                      (omega (arith, remaining-lt-cons profiles visiting name profile found new))))
                  (λ x.
                    >>=-ne-err out_of_fuel _ _
                      (merged-ne-out_of_fuel name (merge_route x.1 profile.route))
                      (λ r. ok-ne-err _)))
        ]
      ]
    ]
  where
    inherited :
        (base : Text) {r : Result ProfileError (Map Route × Route)}
        → r ≢ err out_of_fuel
        → (elim (is_empty base) [ true ↦ ok (cache, zero_route) | false ↦ r ]) ≢ err out_of_fuel
    inherited [] k e = cc
    inherited (c ∷ s) k e = k e

resolve_name-ne-out_of_fuel :
    (profiles : Map RouteProfile) (cache : Map Route) (name : Text)
    → resolve_name profiles cache name ≢ err out_of_fuel
resolve_name-ne-out_of_fuel profiles cache name =
    resolve_profile-ne-out_of_fuel profiles (suc (length profiles)) cache [] name
      (omega (arith, remaining-le-length profiles []))

resolve_all-ne-out_of_fuel :
    (profiles : Map RouteProfile) (cache : Map Route) (rest : Map RouteProfile)
    → resolve_all profiles cache rest ≢ err out_of_fuel
unfolding resolve_all
resolve_all-ne-out_of_fuel profiles cache [] = λ e. cc
resolve_all-ne-out_of_fuel profiles cache ((name, profile) ∷ rest) =
    >>=-ne-err out_of_fuel _ _ (resolve_name-ne-out_of_fuel profiles cache name)
      (λ x. resolve_all-ne-out_of_fuel profiles x.0 rest)

resolve_route-ne-out_of_fuel :
    (profiles : Map RouteProfile) (cache : Map Route) (route : Route)
    → resolve_route profiles cache route ≢ err out_of_fuel
unfolding resolve_route
resolve_route-ne-out_of_fuel profiles cache route =
    >>=-ne-err out_of_fuel _ _ (named route.profile)
      (λ x. >>=-ne-err out_of_fuel _ _ (routed-ne-out_of_fuel route.name _) (λ r. ok-ne-err _))
  where
    named :
        (profile : Text)
        → (elim (is_empty profile) [
          | true ↦ ok (cache, zero_route)
          | false ↦ resolve_name profiles cache profile
        ])
          ≢ err out_of_fuel
    named [] e = cc
    named (c ∷ s) e = resolve_name-ne-out_of_fuel profiles cache (c ∷ s) e

resolve_each-ne-out_of_fuel :
    (profiles : Map RouteProfile) (cache : Map Route) (routes : List Route)
    → resolve_each profiles cache routes ≢ err out_of_fuel
unfolding resolve_each
resolve_each-ne-out_of_fuel profiles cache [] = λ e. cc
resolve_each-ne-out_of_fuel profiles cache (route ∷ routes) =
    >>=-ne-err out_of_fuel _ _ (resolve_route-ne-out_of_fuel profiles cache route) (λ x.
      >>=-ne-err out_of_fuel _ _ (resolve_each-ne-out_of_fuel profiles x.0 routes)
        (λ r. ok-ne-err _))

index_profiles-ne-out_of_fuel :
    (is_letter is_digit : ℕ → Bool) (i : ℕ) (profiles : Map RouteProfile)
    (declared : List RouteProfile)
    → index_profiles is_letter is_digit i profiles declared ≢ err out_of_fuel
unfolding index_profiles
index_profiles-ne-out_of_fuel is_letter is_digit i profiles [] e = cc
index_profiles-ne-out_of_fuel is_letter is_digit i profiles (profile ∷ rest) e = ground (
  arith,
  index_profiles-ne-out_of_fuel is_letter is_digit (i + 1) (insert profile.name profile profiles)
      rest,
)

-- The resolution of routes always ends: with any profiles and any routes, also with profiles that
-- inherit from each other in a cycle, a depth of one more than the profiles is enough.
pub resolved_routes-ne-out_of_fuel :
    (is_letter is_digit : ℕ → Bool) (declared : List RouteProfile) (routes : List Route)
    → resolved_routes is_letter is_digit declared routes ≢ err out_of_fuel
unfolding resolved_routes
resolved_routes-ne-out_of_fuel is_letter is_digit declared routes =
    >>=-ne-err out_of_fuel _ _ (index_profiles-ne-out_of_fuel is_letter is_digit 0 [] declared)
      (λ profiles.
        >>=-ne-err out_of_fuel _ _ (resolve_all-ne-out_of_fuel profiles [] profiles)
          (λ cache. resolve_each-ne-out_of_fuel profiles cache routes))
