-- ===== src/Gateway/Routing.antt =====
-- gateway.go: the routes of a provisioned handler and one request.
pub mod Compiled
use nats_web_gateway.Base.{
  >>-eq-ok, >>=-eq-ok, All, Any, Bool-cases, List, Option, [], arith, inl, inr, length, map, ok,
  refl, reject_if, wrap, wrap-eq-ok, ◌∙◌, ◌∷◌, ◌≡◌, ◌≤◌, ◌⊎◌,
}
use nats_web_gateway.Base.Map.{Map}
use nats_web_gateway.Base.Text.{Text, bytes, text_eq}
use nats_web_gateway.Gateway.Routing.Compiled.{
  IsCompiled, compile_fields, compile_routes-IsCompiled, connect_operator-compiled,
  provision-passed,
}
use nats_web_gateway.Gateway.Dispatch.{bad_parameters, chosen, dispatch_panics, dispatch}
use nats_web_gateway.Routes.{
  Outcome, invalid_parameter, match_panics, unmatched, Pattern, match, segments, subject_of,
}
use nats_web_gateway.Config.RouteRules.{bad_name, template, Checks, validate_route}
use nats_web_gateway.Config.{Route}
use nats_web_gateway.Config.Template.{validate_path}
use nats_web_gateway.Config.Template.Parts.{IsPart}
use nats_web_gateway.Config.RouteRules.Accepted.{Apart, Pairwise, validate_routes-Pairwise}
use nats_web_gateway.Config.RouteRules.Exclusive.{match_apart, validate_path-IsPart}
use nats_web_gateway.Gateway.Provision.{
  CompiledRoute, Handler, Provisioned, Surroundings, no_tables, provision,
}

-- The routes that a request makes a subject of, in the handler's order.
unfoldable pub takers : List CompiledRoute → Text → Text → Map (List Text) → List CompiledRoute
takers [] method path query = []
takers (candidate ∷ candidates) method path query = elim (match candidate.route method path query) [
  | subject_of subject ↦ candidate ∷ takers candidates method path query
  | _ ↦ takers candidates method path query
]

-- Two compiled routes whose configurations are apart do not both take a request.
takers-Apart :
    (compile_pattern : Text → Option Pattern) (c c' : CompiledRoute) (method path : Text)
    (query : Map (List Text)) (s s' : Text)
    → Apart c.config c'.config
    → IsCompiled compile_pattern c
    → IsCompiled compile_pattern c'
    → All IsPart (segments c.config.path)
    → All IsPart (segments c'.config.path)
    → match c.route method path query ≡ subject_of s
    → match c'.route method path query ≡ subject_of s'
    → ⊥
takers-Apart compile_pattern c c' method path query s s' (_, free) made made' parts parts' m m' =
    let (paths, methods) = compile_fields compile_pattern c made in
    let (paths', methods') = compile_fields compile_pattern c' made' in
    match_apart c.route c'.route method path query s s' (rw (paths, methods, paths', methods') free)
      (rw paths parts) (rw paths' parts') m m'

-- A route of the list takes the request, or the others decide.
takers-cons :
    (c : CompiledRoute) (cs : List CompiledRoute) (method path : Text) (query : Map (List Text))
    → ((s : Text) × (match c.route method path query ≡ subject_of s)
        × (takers (c ∷ cs) method path query ≡ c ∷ takers cs method path query))
      ⊎ (takers (c ∷ cs) method path query ≡ takers cs method path query)
unfolding takers
takers-cons c cs method path query = split_on (match c.route method path query) refl
  where
    split_on :
        (o : Outcome)
        → match c.route method path query ≡ o
        → ((s : Text) × (match c.route method path query ≡ subject_of s)
            × (takers (c ∷ cs) method path query ≡ c ∷ takers cs method path query))
          ⊎ (takers (c ∷ cs) method path query ≡ takers cs method path query)
    split_on unmatched e = inr (rw (e, takers) refl)
    split_on match_panics e = inr (rw (e, takers) refl)
    split_on invalid_parameter e = inr (rw (e, takers) refl)
    split_on (subject_of s) e = inl (s, e, rw (e, takers) refl)

module _ (compile_pattern : Text → Option Pattern) (method path : Text)
    (query : Map (List Text)) where
  -- What the lemmas need of a compiled route.
  abbrev Sound : CompiledRoute → Type 0
  Sound c = IsCompiled compile_pattern c × All IsPart (segments c.config.path)

  takers_behind :
      (c : CompiledRoute) (s : Text) (cs : List CompiledRoute)
      → match c.route method path query ≡ subject_of s
      → Sound c
      → All (Apart c.config) (map (λ c'. c'.config) cs)
      → All Sound cs
      → takers cs method path query ≡ []
  unfolding takers
  takers_behind c s [] m sound apart sounds = refl
  takers_behind c s (c' ∷ cs) m sound (free, apart) (sound', sounds) =
      elim (takers-cons c' cs method path query) [
        | inr others ↦ others ∙ takers_behind c s cs m sound apart sounds
        | inl (s', m', _) ↦ absurd (
            takers-Apart compile_pattern c c' method path query s s' free sound.0 sound'.0 sound.1
              sound'.1 m m')
      ]

  takers_few :
      (cs : List CompiledRoute)
      → Pairwise (map (λ c. c.config) cs)
      → All Sound cs
      → length (takers cs method path query) ≤ 1
  unfolding takers
  takers_few [] pairs sounds = omega arith
  takers_few (c ∷ cs) (apart, pairs) (sound, sounds) = elim (takers-cons c cs method path query) [
    | inr others ↦ rw others (takers_few cs pairs sounds)
    | inl (s, m, e) ↦ rw (e, takers_behind c s cs m sound apart sounds) (omega arith)
  ]

-- An accepted route has an accepted path.
validate_route-IsPart :
    (checks : Checks) (route : Route)
    → validate_route checks route ≡ ok tt
    → All IsPart (segments route.path)
unfolding validate_route
validate_route-IsPart checks route e =
    let (_, e') = >>-eq-ok (reject_if _ bad_name) _ e in
    let (params, accepted, _) = >>=-eq-ok (wrap template (validate_path route.path)) _ e' in
    validate_path-IsPart route.path params (wrap-eq-ok template _ accepted)

Sound-of_parts :
    (checks : Checks) (compile_pattern : Text → Option Pattern) (method path : Text)
    (query : Map (List Text)) (cs : List CompiledRoute)
    → All (IsCompiled compile_pattern) cs
    → All (λ r. validate_route checks r ≡ ok tt) (map (λ c. c.config) cs)
    → All (Sound compile_pattern method path query) cs
Sound-of_parts checks compile_pattern method path query [] made valid = tt
Sound-of_parts checks compile_pattern method path query (c ∷ cs) (made, mades) (valid, valids) = (
  (made, validate_route-IsPart checks c.config valid),
  Sound-of_parts checks compile_pattern method path query cs mades valids,
)

provision-takers :
    (env : Surroundings) (h : Handler) (p : Provisioned) (method path : Text)
    (query : Map (List Text))
    → provision env h ≡ ok p
    → length (takers p.compiled method path query) ≤ 1
provision-takers env h p method path query e =
    let (routes, tables, compiled, _, accepted, made, connected) = provision-passed env h p e in
    let (same, _) = connect_operator-compiled env h tables compiled p connected in
    let (configs, mades) = compile_routes-IsCompiled env no_tables tables routes compiled made in
    let (_, valid, pairs) = validate_routes-Pairwise env.checks routes accepted in
    rw same (
      takers_few env.compile_pattern method path query compiled (rw configs pairs) (
        Sound-of_parts env.checks env.compile_pattern method path query compiled mades
          (rw configs valid)))

takers_behind_one :
    (c' : CompiledRoute) (cs : List CompiledRoute) (c : CompiledRoute) (method path : Text)
    (query : Map (List Text))
    → Any (λ d. d ≡ c) (takers cs method path query)
    → Any (λ d. d ≡ c) (takers (c' ∷ cs) method path query)
takers_behind_one c' cs c method path query found = elim (takers-cons c' cs method path query) [
  | inr others ↦ rw others found
  | inl (_, _, more) ↦ rw more (inr found)
]

chosen_takes :
    (cs : List CompiledRoute) (c : CompiledRoute) (method path : Text) (query : Map (List Text))
    (s : Text)
    → dispatch cs method path query ≡ chosen c s
    → (match c.route method path query ≡ subject_of s)
      × Any (λ d. d ≡ c) (takers cs method path query)
unfolding dispatch takers
chosen_takes [] c method path query s e = absurd (ground arith)
chosen_takes (c' ∷ cs) c method path query s e =
    elim (Bool-cases (text_eq c'.config.stream_mode (bytes "jetstream_sse"))) [
      | inl skipped ↦
          let (taken, found) =
            chosen_takes cs c method path query s (rw (skipped, dispatch) at e) in
          (taken, takers_behind_one c' cs c method path query found)
      | inr asked ↦
          split_on (match c'.route method path query) refl (rw (asked, dispatch) at e) (λ e'.
            let (taken, found) = chosen_takes cs c method path query s e' in
            (taken, takers_behind_one c' cs c method path query found))
    ]
  where
    split_on :
        (o : Outcome)
        → match c'.route method path query ≡ o
        → elim o [
          | unmatched ↦ dispatch cs method path query
          | match_panics ↦ dispatch_panics
          | invalid_parameter ↦ bad_parameters
          | subject_of subject ↦ chosen c' subject
        ]
          ≡ chosen c s
        → (dispatch cs method path query ≡ chosen c s
            → (match c.route method path query ≡ subject_of s)
              × Any (λ d. d ≡ c) (takers (c' ∷ cs) method path query))
        → (match c.route method path query ≡ subject_of s)
          × Any (λ d. d ≡ c) (takers (c' ∷ cs) method path query)
    split_on unmatched m e' behind = behind e'
    split_on match_panics m e' behind = absurd (ground arith)
    split_on invalid_parameter m e' behind = absurd (ground arith)
    split_on (subject_of subject) m e' behind =
        let same : c' ≡ c = ground arith in
        let same' : subject ≡ s = ground arith in
        (rw (← same, ← same') m, rw (m, takers) (inl same))

one_of_few :
    (cs : List CompiledRoute) (c : CompiledRoute)
    → length cs ≤ 1
    → Any (λ d. d ≡ c) cs
    → cs ≡ c ∷ []
one_of_few [] c few found = absurd found
one_of_few (d ∷ []) c few (inl same) = rw same refl
one_of_few (d ∷ []) c few (inr other) = absurd other
one_of_few (d ∷ d' ∷ cs) c few found = absurd (omega arith)

-- The route that a provisioned handler chooses for a request is the only one of its routes that makes
-- a subject of it, and the subject is the one which that route makes.
pub provision-dispatch :
    (env : Surroundings) (h : Handler) (p : Provisioned) (method path : Text)
    (query : Map (List Text)) (c : CompiledRoute) (s : Text)
    → provision env h ≡ ok p
    → dispatch p.compiled method path query ≡ chosen c s
    → (takers p.compiled method path query ≡ c ∷ [])
      × (match c.route method path query ≡ subject_of s)
provision-dispatch env h p method path query c s e d =
    let (taken, found) = chosen_takes p.compiled c method path query s d in
    (
      one_of_few (takers p.compiled method path query) c
          (provision-takers env h p method path query e) found,
      taken,
    )
