-- ===== src/Gateway/Routing/Compiled.antt =====
-- gateway.go: what provisioning has checked of each compiled route.
use nats_web_gateway.Base.{
  >>-eq-ok, >>=-eq-ok, All, List, Option, Option-cases, [], arith, inl, inr, map, ok, refl, some,
  wrap, wrap-eq-ok, ◌∷◌, ◌≡◌,
}
use nats_web_gateway.Base.Text.{Text}
use nats_web_gateway.Routes.{Pattern, compile}
use nats_web_gateway.Config.RouteRules.{validate_routes}
use nats_web_gateway.Config.Limits.{validate_nats_connection}
use nats_web_gateway.Config.{Route, elements}
use nats_web_gateway.Gateway.Provision.{
  CompiledRoute, Handler, Provisioned, Surroundings, Tables, bad_nats, bad_routes, compile_route,
  compile_routes, connect_operator, no_tables, provision, resolve, validate,
}

-- A compiled route is that of its configuration.
abbrev pub IsCompiled : (Text → Option Pattern) → CompiledRoute → Type 0
IsCompiled compile_pattern c =
    compile compile_pattern c.config.path c.config.subject (elements c.config.methods)
      (elements c.config.parameters)
    ≡ some c.route

pub compile_fields :
    (compile_pattern : Text → Option Pattern) (c : CompiledRoute)
    → IsCompiled compile_pattern c
    → (c.route.path ≡ c.config.path) × (c.route.methods ≡ elements c.config.methods)
unfolding compile
compile_fields compile_pattern c e = ground arith

module _ (env : Surroundings) where
  compile_route-IsCompiled :
      (tables tables' : Tables) (configured : Route) (candidate : CompiledRoute)
      → compile_route env tables configured ≡ ok (tables', candidate)
      → (candidate.config ≡ configured) × IsCompiled env.compile_pattern candidate
  unfolding compile_route
  compile_route-IsCompiled tables tables' configured candidate e =
      elim (Option-cases (
        compile env.compile_pattern configured.path configured.subject (elements configured.methods)
          (elements configured.parameters))) [
            | inl none' ↦ absurd (ground arith)
            | inr (route, made) ↦
                let same : candidate.config ≡ configured = ground arith in
                let same' : candidate.route ≡ route = ground arith in (same, rw (same, same') made)
          ]

  pub compile_routes-IsCompiled :
      (tables tables' : Tables) (routes : List Route) (compiled : List CompiledRoute)
      → compile_routes env tables routes ≡ ok (tables', compiled)
      → (map (λ c. c.config) compiled ≡ routes) × All (IsCompiled env.compile_pattern) compiled
  unfolding compile_routes
  compile_routes-IsCompiled tables tables' [] compiled e =
      let same : compiled ≡ [] = ground arith in rw same (refl, tt)
  compile_routes-IsCompiled tables tables' (configured ∷ routes) compiled e =
      let ((tables1, candidate), made, e') = >>=-eq-ok (compile_route env tables configured) _ e in
      let ((tables2, candidates), others, e2) =
        >>=-eq-ok (compile_routes env tables1 routes) _ e' in
      let same : compiled ≡ candidate ∷ candidates = ground arith in
      let (config, good) = compile_route-IsCompiled tables tables1 configured candidate made in
      let (configs, goods) = compile_routes-IsCompiled tables1 tables2 routes candidates others in
      rw same (rw (config, configs) refl, (good, goods))

  pub connect_operator-compiled :
      (h : Handler) (tables : Tables) (compiled : List CompiledRoute) (p : Provisioned)
      → connect_operator env h tables compiled ≡ ok p
      → (p.compiled ≡ compiled) × (p.tables ≡ tables)
  unfolding connect_operator
  connect_operator-compiled h tables compiled p e = ground arith

  -- What a successful `provision` has passed.
  pub provision-passed :
      (h : Handler) (p : Provisioned)
      → provision env h ≡ ok p
      → (routes : List Route) × (tables : Tables) × (compiled : List CompiledRoute) × (resolve env h
          ≡ ok routes)
        × (validate_routes env.checks routes ≡ ok tt)
        × (compile_routes env no_tables routes ≡ ok (tables, compiled))
        × (connect_operator env h tables compiled ≡ ok p)
  unfolding provision validate
  provision-passed h p e =
      let (valid, e') = >>-eq-ok (validate env h) _ e in
      let (routes, resolved, e2) = >>=-eq-ok (resolve env h) _ e' in
      let ((tables, compiled), made, e3) = >>=-eq-ok (compile_routes env no_tables routes) _ e2 in
      let (_, valid') =
        >>-eq-ok (wrap bad_nats (validate_nats_connection env.parse_url h.nats)) _ valid in
      let (routes', resolved', accepted) = >>=-eq-ok (resolve env h) _ valid' in
      let one : routes' ≡ routes = ground arith in
      (routes, tables, compiled, resolved, wrap-eq-ok bad_routes _ (rw one at accepted), made, e3)
