-- ===== src/Caddyfile/Adapted.antt =====
-- config.go: what an adapted Caddyfile holds.
use nats_web_gateway.Base.{
  >>-eq-ok, >>=-eq-ok, List, [], ap, arith, not, ok, refl, reject_if, wrap, wrap-eq-ok, ◌≡◌,
}
use nats_web_gateway.Base.Text.{Text, is_empty}
use nats_web_gateway.Profiles.Again.{resolved_routes-again}
use nats_web_gateway.Gateway.Provision.{Handler, Surroundings, bad_profiles, resolve, validate}
use nats_web_gateway.Caddyfile.Options.{Parsers, arguments}
use nats_web_gateway.Caddyfile.File.{Line, in_block, read_file, refused, unmarshal_caddyfile}

-- Routes that resolve to themselves are as valid as those they came from.
validate-again :
    (env : Surroundings) (before after : Handler)
    → after.nats ≡ before.nats
    → resolve env before ≡ ok after.routes
    → resolve env after ≡ ok after.routes
    → validate env before ≡ ok tt
    → validate env after ≡ ok tt
unfolding validate
validate-again env before after nats first again valid = rw (nats, again) (rw first at valid)

-- An adapted handler has no profile. Its routes are those that the blocks read resolve to; they
-- resolve to themselves, and the handler is valid: what it says of its routes is what it serves.
pub unmarshal_caddyfile-adapted :
    (env : Surroundings) (p : Parsers) (args : List Text) (lines : List Line) (h h' : Handler)
    → unmarshal_caddyfile env p args lines h ≡ ok h'
    → (h'.route_profiles ≡ [])
      × ((before : Handler) × (read_file p [] lines h ≡ ok before)
          × (resolve env before ≡ ok h'.routes))
      × (resolve env h' ≡ ok h'.routes)
      × (validate env h' ≡ ok tt)
unfolding unmarshal_caddyfile
unmarshal_caddyfile-adapted env p args lines h h' e =
    let (_, e1) = >>-eq-ok (wrap in_block (reject_if (not (is_empty args)) arguments)) _ e in
    let (before, read, e2) = >>=-eq-ok (wrap in_block (read_file p [] lines h)) _ e1 in
    let (valid, e3) = >>-eq-ok (wrap refused (validate env before)) _ e2 in
    let (routes', resolved, e4) = >>=-eq-ok (wrap refused (resolve env before)) _ e3 in
    let first : resolve env before ≡ ok routes' = wrap-eq-ok refused _ resolved in
    let same : record before { routes = routes'; route_profiles = [] } ≡ h' = ground arith in
    let again : resolve env (record before { routes = routes'; route_profiles = [] }) ≡ ok routes' =
      ap (wrap bad_profiles) (
        resolved_routes-again env.checks.is_letter env.checks.is_digit before.route_profiles
          before.routes routes' (wrap-eq-ok bad_profiles _ first)) in
    rw (← same) (
      refl,
      (before, wrap-eq-ok in_block _ read, first),
      again,
      validate-again env before (record before { routes = routes'; route_profiles = [] }) refl first
          again (wrap-eq-ok refused _ valid),
    )
