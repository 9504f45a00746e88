-- ===== src/Gateway/Serve/Forwarding.antt =====
-- gateway.go: the identity header of a message that is sent.
use nats_web_gateway.Base.{
  All, All-append, Any, Bool-cases, List, Result-cases, [], ap, arith, false, inl, inr, ok, refl,
  some, subst, sym, true, ℕ, ◌++◌, ◌↔◌, ◌∙◌, ◌∷◌, ◌≡◌,
}
use nats_web_gateway.Base.Text.{Text, equal_fold, text_eq_iff, to_lower}
use nats_web_gateway.Gateway.Serve.{
  header_values, Forwarded, Upstream, identify, requester, with_identity,
}
use nats_web_gateway.Config.{DownstreamIdentity, Route, SecurityContext}
use nats_web_gateway.Translation.{Message, Request, copy_headers, execute, header_entries}
use nats_web_gateway.Translation
use nats_web_gateway.Translation.Bounds.{execute-message}
use nats_web_gateway.Identity.{resolve_downstream_identity, query_failed, unavailable, invalid}
use nats_web_gateway.Identity.Bounds.{IsPassable, resolve_downstream_identity_iff}
use nats_web_gateway.Reply.{set_header, without_header}

equal_fold_iff : (s t : Text) → (equal_fold s t ≡ true) ↔ (to_lower s ≡ to_lower t)
unfolding equal_fold
equal_fold_iff s t = text_eq_iff (to_lower s) (to_lower t)

-- No value is left of a header that is deleted.
header_values-without :
    (h name : Text) (entries : List (Text × Text))
    → equal_fold name h ≡ true
    → header_values (without_header h entries) name ≡ []
unfolding header_values
header_values-without h name [] same = refl
header_values-without h name ((key, value) ∷ entries) same = ground (
  arith,
  header_values-without h name entries same,
  equal_fold_iff key h,
  equal_fold_iff key name,
  equal_fold_iff name h,
)

header_values-append :
    (xs ys : List (Text × Text)) (name : Text)
    → header_values (xs ++ ys) name ≡ header_values xs name ++ header_values ys name
unfolding header_values
header_values-append [] ys name = refl
header_values-append ((key, value) ∷ xs) ys name = ground (arith, header_values-append xs ys name)

header_values-set_header :
    (h name value : Text) (entries : List (Text × Text))
    → equal_fold name h ≡ true
    → header_values (set_header h value entries) name ≡ value ∷ []
unfolding set_header header_values
header_values-set_header h name value entries same =
    let turned : equal_fold h name ≡ true =
      (equal_fold_iff h name).1 (sym ((equal_fold_iff name h).0 same)) in
    header_values-append (without_header h entries) ((h, value) ∷ []) name
    ∙ (rw (header_values-without h name entries same, turned) refl)

-- An entry is not one of the header, or it has the value.
abbrev pub Carries : Text → Text → Text × Text → Type 0
Carries h identity (name, value) = equal_fold name h ≡ true → value ≡ identity

All-copy_headers :
    (P : Text × Text → Type 0) (values : Text → List Text) (names : List Text)
    → ((name : Text) → All P (header_entries name (values name)))
    → All P (copy_headers values names)
unfolding copy_headers
All-copy_headers P values [] h = tt
All-copy_headers P values (name ∷ names) h =
    All-append P (header_entries name (values name)) (copy_headers values names) (h name)
      (All-copy_headers P values names h)

Carries-other :
    (h identity name : Text) (values : List Text)
    → equal_fold name h ≡ false
    → All (Carries h identity) (header_entries name values)
Carries-other h identity name [] other = tt
Carries-other h identity name (value ∷ values) other =
    ((λ same. absurd (ground arith)), Carries-other h identity name values other)

Carries-entries :
    (h identity name : Text) (values : List Text)
    → (equal_fold name h ≡ true → values ≡ identity ∷ [])
    → All (Carries h identity) (header_entries name values)
Carries-entries h identity name values e = elim (Bool-cases (equal_fold name h)) [
  | inl same ↦ rw (e same) ((λ _. refl), tt)
  | inr other ↦ Carries-other h identity name values other
]

Any-append : (P : Text × Text → Type 0) (xs ys : List (Text × Text)) → Any P ys → Any P (xs ++ ys)
Any-append P [] ys h = h
Any-append P (x ∷ xs) ys h = inr (Any-append P xs ys h)

copy_headers-last :
    (values : Text → List Text) (names : List Text) (h value : Text)
    → values h ≡ value ∷ []
    → Any (λ entry. entry ≡ (h, value)) (copy_headers values (names ++ h ∷ []))
unfolding copy_headers
copy_headers-last values [] h value e = rw e (inl refl)
copy_headers-last values (name ∷ names) h value e =
    Any-append (λ entry. entry ≡ (h, value)) (header_entries name (values name))
      (copy_headers values (names ++ h ∷ [])) (copy_headers-last values names h value e)

identify-with :
    (env : Upstream) (config : Route) (header : List (Text × Text)) (connection : ℕ)
    (f f' : Forwarded) (security : SecurityContext) (d : DownstreamIdentity)
    → config.security_context ≡ some security
    → security.downstream_identity ≡ some d
    → identify env config header connection f ≡ ok f'
    → (identity : Text) × (resolve_downstream_identity env.unmarshal (requester env connection) d
        ≡ ok identity)
      × (f' ≡ with_identity d identity f)
unfolding identify
identify-with env config header connection f f' security d given wanted e =
    elim (Result-cases (resolve_downstream_identity env.unmarshal (requester env connection) d)) [
      | inl (identity, known) ↦ (identity, known, ground arith)
      | inr (query_failed, failed) ↦ absurd (ground arith)
      | inr (unavailable, failed) ↦ absurd (ground arith)
      | inr (invalid, failed) ↦ absurd (ground arith)
    ]

-- On a route with a downstream identity, a message that is sent carries under the identity's header
-- no value but the identity which the connection's own user information gives, in whatever case the
-- name is written and whatever the client has sent under it; the header is among those forwarded.
pub identify-Carries :
    (env : Upstream) (config : Route) (header : List (Text × Text)) (connection : ℕ)
    (f f' : Forwarded) (security : SecurityContext) (d : DownstreamIdentity)
    (request : Translation.Request) (max_request max_reply : ℕ) (message : Message)
    → config.security_context ≡ some security
    → security.downstream_identity ≡ some d
    → identify env config header connection f ≡ ok f'
    → request.header_values ≡ header_values f'.header
    → (execute env.context (requester env connection) request f'.names max_request max_reply).0
      ≡ some message
    → (identity : Text) × (resolve_downstream_identity env.unmarshal (requester env connection) d
        ≡ ok identity)
      × IsPassable identity d.max_value_bytes
      × All (Carries d.header identity) message.header
      × Any (λ entry. entry ≡ (d.header, identity)) message.header
unfolding with_identity
identify-Carries env config header connection f f' security d request max_request max_reply message
      given wanted known values sent =
    let (identity, resolved, same) =
      identify-with env config header connection f f' security d given wanted known in
    let (passable, _) =
      (resolve_downstream_identity_iff env.unmarshal (requester env connection) d identity).0
        resolved in
    let (body, built) =
      execute-message env.context (requester env connection) request f'.names max_request max_reply
        message sent in
    let own : Text → List Text = header_values (set_header d.header identity f.header) in
    let whole : message.header ≡ copy_headers own (f.names ++ d.header ∷ []) =
      ap (λ (m : Message). m.header) built
      ∙ (rw values (ap (λ (g : Forwarded). copy_headers (header_values g.header) g.names) same)) in
    (
      identity,
      resolved,
      passable,
      subst (All (Carries d.header identity)) (sym whole) (
          All-copy_headers (Carries d.header identity) own (f.names ++ d.header ∷ []) (λ name.
            Carries-entries d.header identity name (own name)
              (header_values-set_header d.header name identity f.header))),
      subst (Any (λ entry. entry ≡ (d.header, identity))) (sym whole) (
          copy_headers-last own f.names d.header identity (
            header_values-set_header d.header d.header identity f.header
              ((equal_fold_iff d.header d.header).1 refl))),
    )
