-- ===== src/Profiles.antt =====
-- profiles.go: the resolution of route profiles.
pub mod Precedence
pub mod Again
pub mod Clear
pub mod Merge
pub mod Resolution
pub mod Identity
pub mod Overlay
mod Tests
use nats_web_gateway.Base.{
  Bool, List, Result, [], err, false, length, none, not, ok, reject_if, some, suc, true, wrap, zero,
  ℕ, ◌+◌, ◌>>=◌, ◌>>◌, ◌||◌, ◌∷◌,
}
use nats_web_gateway.Base.Map.{Map, has_key, insert, lookup}
use nats_web_gateway.Base.Text.{Text, contains, is_empty}
use nats_web_gateway.Profiles.Merge.{MergeError, merge_route}
use nats_web_gateway.Profiles.Clear.{zero_route}
use nats_web_gateway.Config.Names.{valid_name}
use nats_web_gateway.Config.{Route, elements}

pub record RouteProfile : Type 0 where
  pub name : Text
  pub extends : Text
  pub route : Route

pub data ProfileError : Type 0 where
  invalid_name duplicate_name route_specific : ℕ → ProfileError
  unknown_profile inheritance_cycle : Text → ProfileError
  in_profile in_route : Text → MergeError → ProfileError
  out_of_fuel : ProfileError

-- The first loop, with the profiles passed.
module _ (is_letter is_digit : ℕ → Bool) where
  unfoldable pub index_profiles :
      ℕ → Map RouteProfile → List RouteProfile → Result ProfileError (Map RouteProfile)
  index_profiles i profiles [] = ok profiles
  index_profiles i profiles (profile ∷ rest) = do
    reject_if (not (valid_name is_letter is_digit profile.name)) (invalid_name i)
    reject_if (has_key profile.name profiles) (duplicate_name i)
    reject_if
        (not (is_empty profile.route.name)
          || not (is_empty profile.route.path)
          || not (is_empty (elements profile.route.methods))
          || not (is_empty profile.route.profile))
        (route_specific i)
    index_profiles (i + 1) (insert profile.name profile profiles) rest

module _ (profiles : Map RouteProfile) where
  -- `resolveProfile`, with the cache, which the result carries on, and the profiles that are being
  -- resolved. The fuel bounds the depth of inheritance.
  unfoldable pub resolve_profile :
      ℕ → Map Route → List Text → Text → Result ProfileError (Map Route × Route)
  resolve_profile zero cache visiting name = err out_of_fuel
  resolve_profile (suc fuel) cache visiting name = elim (lookup name cache) [
    | some result ↦ ok (cache, result)
    | none ↦ elim (lookup name profiles) [
      | none ↦ err (unknown_profile name)
      | some profile ↦ elim (contains visiting name) [
        | true ↦ err (inheritance_cycle name)
        | false ↦ do
          (cache', base) ← elim (is_empty profile.extends) [
            | true ↦ ok (cache, zero_route)
            | false ↦ resolve_profile fuel cache (name ∷ visiting) profile.extends
          ]
          result ← wrap (in_profile name) (merge_route base profile.route)
          ok (insert name result cache', result)
      ]
    ]
  ]

  -- One more than the profiles is enough.
  abbrev pub resolve_name : Map Route → Text → Result ProfileError (Map Route × Route)
  resolve_name cache name = resolve_profile (suc (length profiles)) cache [] name

  -- The loop over the profiles.
  unfoldable pub resolve_all : Map Route → Map RouteProfile → Result ProfileError (Map Route)
  resolve_all cache [] = ok cache
  resolve_all cache ((name, profile) ∷ rest) = do
    (cache', _) ← resolve_name cache name
    resolve_all cache' rest

  -- One round of the last loop.
  unfoldable pub resolve_route : Map Route → Route → Result ProfileError (Map Route × Route)
  resolve_route cache route = do
    (cache', base) ← elim (is_empty route.profile) [
      | true ↦ ok (cache, zero_route)
      | false ↦ resolve_name cache route.profile
    ]
    merged ← wrap (in_route route.name) (
        merge_route (record base { name = route.name; path = route.path; methods = route.methods })
          route)
    ok (cache', record merged { profile = []; clear = []; extend = none })

  unfoldable pub resolve_each : Map Route → List Route → Result ProfileError (List Route)
  resolve_each cache [] = ok []
  resolve_each cache (route ∷ routes) = do
    (cache', resolved) ← resolve_route cache route
    rest ← resolve_each cache' routes
    ok (resolved ∷ rest)

-- `resolvedRoutes`
unfoldable pub resolved_routes :
    (ℕ → Bool) → (ℕ → Bool) → List RouteProfile → List Route → Result ProfileError (List Route)
resolved_routes is_letter is_digit declared routes = do
  profiles ← index_profiles is_letter is_digit 0 [] declared
  cache ← resolve_all profiles [] profiles
  resolve_each profiles cache routes
