-- ===== src/Profiles/Again.antt =====
-- profiles.go: the resolution of routes that are resolved.
use nats_web_gateway.Base.{
  Bool, List, Option, [], false, if◌then◌else◌, none, ok, refl, some, true, ℕ, ◌∷◌, ◌≡◌,
}
use nats_web_gateway.Base.Map.{Map}
use nats_web_gateway.Base.Text.{Text}
use nats_web_gateway.Profiles.{
  RouteProfile, index_profiles, resolve_all, resolve_each, resolve_route, resolved_routes,
}
use nats_web_gateway.Profiles.Clear.{zero_route, zero_response, zero_core_sse, zero_security}
use nats_web_gateway.Profiles.Merge.{
  clear_all, merge_core_sse, merge_fields, merge_response, merge_route, merge_security_context,
  over_option, over_text,
}
use nats_web_gateway.Profiles.Overlay.{
  merge_core_sse-zero, merge_security_context-zero, over_int-zero, over_pointer-zero,
  over_text-zero,
}
use nats_web_gateway.Profiles.Identity.{AllResolved, IsResolved, resolved_routes-AllResolved}
use nats_web_gateway.Config.{Response, Route}

over_text_self : (t : Text) → over_text t t ≡ t
over_text_self [] = refl
over_text_self (b ∷ t) = refl

over_option_self {ℓ} : {A : Type ℓ} → (o : Option A) → over_option o o ≡ o
over_option_self none = refl
over_option_self (some a) = refl

over_option-none {ℓ} : {A : Type ℓ} → (o : Option A) → over_option none o ≡ o
over_option-none none = refl
over_option-none (some a) = refl

if_self : (b : Bool) → (if b then true else false) ≡ b
if_self true = refl
if_self false = refl

merge_response-zero : (c : Response) → merge_response zero_response c ≡ c
unfolding merge_response
merge_response-zero c = rw (
  over_text-zero c.mode,
  over_option-none c.headers,
  over_text-zero c.content_type,
  over_option-none c.representations,
  if_self c.negotiate_accept,
  over_option-none c.service_error_statuses,
)

merge_fields-again :
    (r : Route)
    → merge_fields (record zero_route { name = r.name; path = r.path; methods = r.methods }) r
      ≡ record r { profile = []; clear = []; extend = none }
unfolding merge_fields
merge_fields-again r = rw (
  over_text_self r.name,
  over_text_self r.path,
  over_option_self r.methods,
  over_text-zero r.subject,
  over_option-none r.parameters,
  over_option-none r.request_headers,
  over_int-zero r.timeout,
  over_int-zero r.max_request_body_bytes,
  over_int-zero r.max_reply_bytes,
  merge_response-zero r.response,
  over_text-zero r.stream_mode,
  over_pointer-zero zero_core_sse merge_core_sse merge_core_sse-zero r.core_sse,
  over_pointer-zero zero_security merge_security_context merge_security_context-zero
      r.security_context,
)

resolve_route-again :
    (cache : Map Route) (declared r : Route)
    → IsResolved declared r
    → resolve_route [] cache r ≡ ok (cache, r)
unfolding resolve_route merge_route clear_all
resolve_route-again cache declared r d =
    rw (d.no_profile, d.no_clear, d.no_extend, merge_fields-again r) refl

resolve_each-again :
    (cache : Map Route) (routes rs : List Route)
    → AllResolved routes rs
    → resolve_each [] cache rs ≡ ok rs
unfolding resolve_each
resolve_each-again cache [] [] same = refl
resolve_each-again cache [] (r ∷ rs) same = absurd same
resolve_each-again cache (route ∷ routes) [] same = absurd same
resolve_each-again cache (route ∷ routes) (r ∷ rs) (d, same) =
    rw (resolve_route-again cache route r d, resolve_each-again cache routes rs same) refl

-- Routes that resolution gave are resolved, without any profile, to themselves: what an adapted
-- Caddyfile holds is what the handler serves.
pub resolved_routes-again :
    (is_letter is_digit : ℕ → Bool) (declared : List RouteProfile) (routes rs : List Route)
    → resolved_routes is_letter is_digit declared routes ≡ ok rs
    → resolved_routes is_letter is_digit [] rs ≡ ok rs
unfolding resolved_routes index_profiles resolve_all
resolved_routes-again is_letter is_digit declared routes rs e =
    resolve_each-again [] routes rs
      (resolved_routes-AllResolved is_letter is_digit declared routes rs e)
