-- ===== src/Profiles/Overlay.antt =====
-- profiles.go: laying routes over each other, in two steps or in one.
use nats_web_gateway.Base.{
  Bool, Option, [], ap, false, if◌then◌else◌, none, ok, refl, some, suc, sym, true, zero, ◌>>=◌,
  ◌∙◌, ◌∷◌, ◌≡◌,
}
use nats_web_gateway.Base.Int.{negsuc, pos, ℤ}
use nats_web_gateway.Base.Text.{Text}
use nats_web_gateway.Profiles.Merge.{
  clear_all, merge_core_sse, merge_fields, merge_identity, merge_response, merge_route,
  merge_security_context, over_int, over_mechanism, over_option, over_pointer, over_text,
}
use nats_web_gateway.Profiles.Clear.{or_zero, zero_core_sse, zero_identity, zero_security}
use nats_web_gateway.Credentials.Rotation.{
  Mechanism, bearer_token, nkey, nkey_jwt, other, tls, user_password,
}
use nats_web_gateway.Config.{CoreSse, DownstreamIdentity, Response, Route, SecurityContext}

over_text_assoc : (a b c : Text) → over_text (over_text a b) c ≡ over_text a (over_text b c)
over_text_assoc a b [] = refl
over_text_assoc a b (x ∷ c) = refl

over_int_assoc : (a b c : ℤ) → over_int (over_int a b) c ≡ over_int a (over_int b c)
over_int_assoc a b (pos zero) = refl
over_int_assoc a b (pos (suc n)) = refl
over_int_assoc a b (negsuc n) = refl

over_option_assoc {ℓ} :
    {A : Type ℓ} (a b c : Option A)
    → over_option (over_option a b) c ≡ over_option a (over_option b c)
over_option_assoc a b none = refl
over_option_assoc a b (some x) = refl

over_mechanism_assoc :
    (a b c : Mechanism)
    → over_mechanism (over_mechanism a b) c ≡ over_mechanism a (over_mechanism b c)
over_mechanism_assoc a b (other []) = refl
over_mechanism_assoc a b (other (x ∷ t)) = refl
over_mechanism_assoc a b bearer_token = refl
over_mechanism_assoc a b user_password = refl
over_mechanism_assoc a b nkey = refl
over_mechanism_assoc a b nkey_jwt = refl
over_mechanism_assoc a b tls = refl

pub over_text-zero : (c : Text) → over_text [] c ≡ c
over_text-zero [] = refl
over_text-zero (x ∷ c) = refl

pub over_int-zero : (c : ℤ) → over_int (pos 0) c ≡ c
over_int-zero (pos zero) = refl
over_int-zero (pos (suc n)) = refl
over_int-zero (negsuc n) = refl

over_mechanism-zero : (c : Mechanism) → over_mechanism (other []) c ≡ c
over_mechanism-zero (other []) = refl
over_mechanism-zero (other (x ∷ t)) = refl
over_mechanism-zero bearer_token = refl
over_mechanism-zero user_password = refl
over_mechanism-zero nkey = refl
over_mechanism-zero nkey_jwt = refl
over_mechanism-zero tls = refl

module _ {ℓ} {A : Type ℓ} (zero' : A) (merge : A → A → A) where
  over_pointer_assoc :
      ((a b c : A) → merge (merge a b) c ≡ merge a (merge b c))
      → ((c : A) → merge zero' c ≡ c)
      → (a b c : Option A)
      → over_pointer zero' merge (over_pointer zero' merge a b) c
        ≡ over_pointer zero' merge a (over_pointer zero' merge b c)
  over_pointer_assoc h k a b none = refl
  over_pointer_assoc h k a none (some c) = ap (λ x. some (merge (or_zero zero' a) x)) (sym (k c))
  over_pointer_assoc h k a (some b) (some c) = ap some (h (or_zero zero' a) b c)

  pub over_pointer-zero :
      ((c : A) → merge zero' c ≡ c) → (c : Option A) → over_pointer zero' merge none c ≡ c
  over_pointer-zero k none = refl
  over_pointer-zero k (some c) = ap some (k c)

merge_core_sse_assoc :
    (a b c : CoreSse)
    → merge_core_sse (merge_core_sse a b) c ≡ merge_core_sse a (merge_core_sse b c)
unfolding merge_core_sse
merge_core_sse_assoc a b c = rw (
  over_int_assoc a.buffer_messages b.buffer_messages c.buffer_messages,
  over_int_assoc a.buffer_bytes b.buffer_bytes c.buffer_bytes,
  over_int_assoc a.heartbeat_interval b.heartbeat_interval c.heartbeat_interval,
  over_int_assoc a.max_duration b.max_duration c.max_duration,
  over_int_assoc a.max_connections b.max_connections c.max_connections,
)

pub merge_core_sse-zero : (c : CoreSse) → merge_core_sse zero_core_sse c ≡ c
unfolding merge_core_sse
merge_core_sse-zero c = rw (
  over_int-zero c.buffer_messages,
  over_int-zero c.buffer_bytes,
  over_int-zero c.heartbeat_interval,
  over_int-zero c.max_duration,
  over_int-zero c.max_connections,
)

merge_identity_assoc :
    (a b c : DownstreamIdentity)
    → merge_identity (merge_identity a b) c ≡ merge_identity a (merge_identity b c)
unfolding merge_identity
merge_identity_assoc a b c = rw (
  over_text_assoc a.source b.source c.source,
  over_text_assoc a.header b.header c.header,
  over_int_assoc a.max_value_bytes b.max_value_bytes c.max_value_bytes,
)

merge_identity-zero : (c : DownstreamIdentity) → merge_identity zero_identity c ≡ c
unfolding merge_identity
merge_identity-zero c =
    rw (over_text-zero c.source, over_text-zero c.header, over_int-zero c.max_value_bytes)

merge_security_context_assoc :
    (a b c : SecurityContext)
    → merge_security_context (merge_security_context a b) c
      ≡ merge_security_context a (merge_security_context b c)
unfolding merge_security_context
merge_security_context_assoc a b c = rw (
  over_mechanism_assoc a.mechanism b.mechanism c.mechanism,
  over_int_assoc a.max_credential_bytes b.max_credential_bytes c.max_credential_bytes,
  over_int_assoc a.max_connections b.max_connections c.max_connections,
  over_int_assoc a.idle_timeout b.idle_timeout c.idle_timeout,
  over_int_assoc a.max_lifetime b.max_lifetime c.max_lifetime,
  over_pointer_assoc zero_identity merge_identity merge_identity_assoc merge_identity-zero
      a.downstream_identity b.downstream_identity c.downstream_identity,
)

pub merge_security_context-zero : (c : SecurityContext) → merge_security_context zero_security c ≡ c
unfolding merge_security_context
merge_security_context-zero c = rw (
  over_mechanism-zero c.mechanism,
  over_int-zero c.max_credential_bytes,
  over_int-zero c.max_connections,
  over_int-zero c.idle_timeout,
  over_int-zero c.max_lifetime,
  over_pointer-zero zero_identity merge_identity merge_identity-zero c.downstream_identity,
)

negotiate_assoc :
    (a b c : Bool)
    → (if c then true else if b then true else a) ≡ (if (if c then true else b) then true else a)
negotiate_assoc a b true = refl
negotiate_assoc a b false = refl

merge_response_assoc :
    (a b c : Response)
    → merge_response (merge_response a b) c ≡ merge_response a (merge_response b c)
unfolding merge_response
merge_response_assoc a b c = rw (
  over_text_assoc a.mode b.mode c.mode,
  over_option_assoc a.headers b.headers c.headers,
  over_text_assoc a.content_type b.content_type c.content_type,
  over_option_assoc a.representations b.representations c.representations,
  negotiate_assoc a.negotiate_accept b.negotiate_accept c.negotiate_accept,
  over_option_assoc a.service_error_statuses b.service_error_statuses c.service_error_statuses,
)

merge_fields_assoc :
    (a b c : Route) → merge_fields (merge_fields a b) c ≡ merge_fields a (merge_fields b c)
unfolding merge_fields
merge_fields_assoc a b c = rw (
  over_text_assoc a.name b.name c.name,
  over_text_assoc a.path b.path c.path,
  over_option_assoc a.methods b.methods c.methods,
  over_text_assoc a.subject b.subject c.subject,
  over_option_assoc a.parameters b.parameters c.parameters,
  over_option_assoc a.request_headers b.request_headers c.request_headers,
  over_int_assoc a.timeout b.timeout c.timeout,
  over_int_assoc a.max_request_body_bytes b.max_request_body_bytes c.max_request_body_bytes,
  over_int_assoc a.max_reply_bytes b.max_reply_bytes c.max_reply_bytes,
  merge_response_assoc a.response b.response c.response,
  over_text_assoc a.stream_mode b.stream_mode c.stream_mode,
  over_pointer_assoc zero_core_sse merge_core_sse merge_core_sse_assoc merge_core_sse-zero
      a.core_sse b.core_sse c.core_sse,
  over_pointer_assoc zero_security merge_security_context merge_security_context_assoc
      merge_security_context-zero a.security_context b.security_context c.security_context,
)

merge_route_plain :
    (base override : Route)
    → override.clear ≡ []
    → override.extend ≡ none
    → merge_route base override ≡ ok (merge_fields base override)
unfolding merge_route clear_all merge_fields
merge_route_plain base override p q = rw (p, q)

merge_fields-clear : (a b : Route) → (merge_fields a b).clear ≡ a.clear
unfolding merge_fields
merge_fields-clear a b = refl

merge_fields-extend : (a b : Route) → (merge_fields a b).extend ≡ a.extend
unfolding merge_fields
merge_fields-extend a b = refl

-- Overrides that clear and extend nothing may be joined before they are laid over the base: a chain
-- of profiles gives what its overlay gives, also where a pointer is allocated on the way.
pub merge_route_assoc :
    (base a b : Route)
    → a.clear ≡ []
    → a.extend ≡ none
    → b.clear ≡ []
    → b.extend ≡ none
    → (merge_route base a >>= λ r. merge_route r b) ≡ merge_route base (merge_fields a b)
merge_route_assoc base a b p q r s =
    ap (λ x. x >>= λ r. merge_route r b) (merge_route_plain base a p q)
    ∙ merge_route_plain (merge_fields base a) b r s
    ∙ ap ok (merge_fields_assoc base a b)
    ∙ sym (
        merge_route_plain base (merge_fields a b) (merge_fields-clear a b ∙ p)
          (merge_fields-extend a b ∙ q))
