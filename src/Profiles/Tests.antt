-- ===== src/Profiles/Tests.antt =====
-- profiles.go: the theorems on a small configuration.
use nats_web_gateway.Base.{
  Bool, List, [], all, err, leb, ok, refl, some, true, ℕ, ◌&&◌, ◌>>=◌, ◌∷◌, ◌≡◌, ◌≢◌,
}
use nats_web_gateway.Base.Int.{pos}
use nats_web_gateway.Base.Map.{has_key, insert, lookup}
use nats_web_gateway.Base.Text.{bytes, contains, text_eq}
use nats_web_gateway.Base.Utf8.{runes}
use nats_web_gateway.Profiles.Resolution.{resolved_routes-ne-out_of_fuel}
use nats_web_gateway.Profiles.Overlay.{merge_route_assoc}
use nats_web_gateway.Profiles.Merge.{
  clear_all, extend_map, extend_route, merge_core_sse, merge_fields, merge_identity, merge_response,
  merge_route, merge_security_context,
}
use nats_web_gateway.Profiles.Identity.{AllResolved, resolved_routes-AllResolved}
use nats_web_gateway.Profiles.Clear.{
  clear_route_field, clearers, shareable_route_fields, zero_core_sse, zero_route,
}
use nats_web_gateway.Profiles.{
  RouteProfile, index_profiles, inheritance_cycle, out_of_fuel, resolve_all, resolve_each,
  resolve_profile, resolve_route, resolved_routes,
}
use nats_web_gateway.Config.Names.{valid_name}
use nats_web_gateway.Config.{Route}

computing : Unit {0}
unfolding index_profiles resolve_profile resolve_all resolve_route resolve_each resolved_routes
    merge_route merge_fields merge_response merge_core_sse merge_identity merge_security_context
    clear_all clear_route_field extend_route extend_map lookup insert contains text_eq bytes
    valid_name runes
computing = tt

abbrev letter : ℕ → Bool
letter c = leb 97 c && leb c 122

abbrev base_profile : RouteProfile
base_profile = record {
  name = 97 ∷ [];
  extends = [];
  route = record zero_route { timeout = pos 5; subject = 115 ∷ [] };
}

abbrev derived : RouteProfile
derived = record {
  name = 98 ∷ [];
  extends = 97 ∷ [];
  route = record zero_route { max_reply_bytes = pos 9; core_sse = some zero_core_sse };
}

abbrev declared : Route
declared = record zero_route {
  name = 114 ∷ [];
  path = 47 ∷ [];
  methods = some ((71 ∷ []) ∷ []);
  profile = 98 ∷ [];
  clear = bytes "subject" ∷ [];
}

abbrev resolved : Route
resolved = record zero_route {
  name = 114 ∷ [];
  path = 47 ∷ [];
  methods = some ((71 ∷ []) ∷ []);
  timeout = pos 5;
  max_reply_bytes = pos 9;
  core_sse = some zero_core_sse;
}

resolved_routes-declared :
    resolved_routes letter letter (derived ∷ base_profile ∷ []) (declared ∷ []) ≡ ok (resolved ∷ [])
unfolding computing
resolved_routes-declared = refl

-- Each of two profiles extends the other.
abbrev cyclic : List RouteProfile
cyclic = derived ∷ record base_profile { extends = 98 ∷ [] } ∷ []

resolved_routes-cyclic :
    resolved_routes letter letter cyclic (declared ∷ []) ≡ err (inheritance_cycle (98 ∷ []))
unfolding computing
resolved_routes-cyclic = refl

-- Every field that may be cleared has a case.
clearers_complete : all (λ field. has_key field clearers) shareable_route_fields ≡ true
unfolding computing
clearers_complete = refl

resolved_routes-AllResolved_example : AllResolved (declared ∷ []) (resolved ∷ [])
resolved_routes-AllResolved_example =
    resolved_routes-AllResolved letter letter (derived ∷ base_profile ∷ []) (declared ∷ [])
      (resolved ∷ []) resolved_routes-declared

resolved_routes-ne-out_of_fuel_example :
    resolved_routes letter letter cyclic (declared ∷ []) ≢ err out_of_fuel
resolved_routes-ne-out_of_fuel_example =
    resolved_routes-ne-out_of_fuel letter letter cyclic (declared ∷ [])

merge_route-twice :
    (merge_route resolved base_profile.route >>= λ r. merge_route r derived.route)
    ≡ merge_route resolved (merge_fields base_profile.route derived.route)
merge_route-twice = merge_route_assoc resolved base_profile.route derived.route refl refl refl refl

-- A deadline that replaces the base's, a field that is cleared, and one that the base alone has.
abbrev replacing : Route
replacing = record zero_route { timeout = pos 7; clear = bytes "subject" ∷ [] }

abbrev replaced : Route
replaced = record zero_route { timeout = pos 7; max_reply_bytes = pos 9 }

abbrev kept : Route
kept = record base_profile.route { max_reply_bytes = pos 9 }
