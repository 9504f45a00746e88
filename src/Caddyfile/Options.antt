-- ===== src/Caddyfile/Options.antt =====
-- config.go: the options of a route block.
use nats_web_gateway.Base.{
  Bool, List, Option, Result, [], err, if◌then◌else◌, none, ok, some, ◌>>=◌, ◌∷◌,
}
use nats_web_gateway.Base.Int.{ℤ}
use nats_web_gateway.Base.Map.{Map, has_key, insert}
use nats_web_gateway.Base.Text.{Text, bytes, text_eq}
use nats_web_gateway.Credentials.Rotation.{
  Mechanism, mechanism_text, bearer_token, user_password, nkey, nkey_jwt, tls, other,
}
use nats_web_gateway.Routes.{Parameter}
use nats_web_gateway.Config.{Duration, Route, RouteExtensions, elements}
use nats_web_gateway.Profiles.Clear.{
  or_zero, set_core_sse, set_identity, set_response, set_security,
}

pub data BlockError : Type 0 where
  arguments : BlockError
  option_repeated option_unknown entry_repeated bad_value : Text → BlockError

-- `caddy.ParseDuration`, and of package strconv `Atoi`, `ParseInt` of 64 bits and `ParseBool`.
pub record Parsers : Type 0 where
  pub duration : Text → Option Duration
  pub int : Text → Option ℤ
  pub int64 : Text → Option ℤ
  pub bool : Text → Option Bool

-- The case of an option: it reads the arguments, and changes the route.
abbrev pub Setter : Type 0 → Type 0
Setter R = List Text → R → Result BlockError R

-- `AllArgs` with one, two and four places.
abbrev one_argument : List Text → Result BlockError Text
one_argument (value ∷ []) = ok value
one_argument _ = err arguments

abbrev two_arguments : List Text → Result BlockError (Text × Text)
two_arguments (first ∷ second ∷ []) = ok (first, second)
two_arguments _ = err arguments

abbrev parameter_arguments : List Text → Result BlockError (Text × Parameter)
parameter_arguments (key ∷ origin ∷ origin_name ∷ expression ∷ []) =
    ok (key, record { source = origin; name = origin_name; pattern = expression })
parameter_arguments _ = err arguments

-- `RemainingArgs`, which is nil if there are none.
abbrev remaining : List Text → Option (List Text)
remaining [] = none
remaining (value ∷ values) = some (value ∷ values)

abbrev parsed {ℓ} : {A : Type ℓ} → (Text → Option A) → Text → Result BlockError A
parsed parse value = elim (parse value) [ none ↦ err (bad_value value) | some a ↦ ok a ]

abbrev pub text_option : {R : Type 0} → (Text → R → R) → Setter R
text_option set args r = one_argument args >>= (λ value. ok (set value r))

-- `parseDuration`, `parsePositiveInt`, `parsePositiveInt64` and the case of `negotiate_accept`
abbrev pub value_option {ℓ} : {A : Type ℓ} {R : Type 0} → (Text → Option A) → (A → R → R) → Setter R
value_option parse set args r =
    one_argument args >>= (λ value. parsed parse value >>= (λ a. ok (set a r)))

abbrev list_option : (Option (List Text) → Route → Route) → Setter Route
list_option set args r = ok (set (remaining args) r)

abbrev pub some_option : {R : Type 0} → (List Text → R → R) → Setter R
some_option set [] r = err arguments
some_option set (value ∷ values) r = ok (set (value ∷ values) r)

-- An entry of a map, which is allocated if it is nil and may not hold the key.
abbrev add_entry {ℓ} : {V : Type ℓ} → Text → V → Option (Map V) → Result BlockError (Map V)
add_entry key value old =
    if has_key key (elements old)
    then err (entry_repeated key)
    else ok (insert key value (elements old))

abbrev parameter_option :
    (Route → Option (Map Parameter)) → (Map Parameter → Route → Route) → Setter Route
parameter_option old set args r =
    parameter_arguments args
    >>= (λ entry. add_entry entry.0 entry.1 (old r) >>= (λ m. ok (set m r)))

abbrev status_option :
    (Text → Option ℤ) → (Route → Option (Map ℤ)) → (Map ℤ → Route → Route) → Setter Route
status_option parse old set args r = two_arguments args >>= (λ entry.
    parsed parse entry.1 >>= (λ status. add_entry entry.0 status (old r) >>= (λ m. ok (set m r))))

abbrev no_extensions : RouteExtensions
no_extensions = record {
  parameters = none;
  request_headers = none;
  response_headers = none;
  representations = none;
  service_error_statuses = none;
}

-- `ensureRouteExtensions`
abbrev extensions_of : Route → RouteExtensions
extensions_of r = or_zero no_extensions r.extend

abbrev set_extensions : (RouteExtensions → RouteExtensions) → Route → Route
set_extensions f r = record r { extend = some (f (extensions_of r)) }

-- A text as a `credentials.Mechanism`.
abbrev mechanism_named : Text → Mechanism
mechanism_named t =
    if text_eq t (mechanism_text bearer_token)
    then bearer_token
    else if text_eq t (mechanism_text user_password)
    then user_password
    else if text_eq t (mechanism_text nkey)
    then nkey
    else if text_eq t (mechanism_text nkey_jwt)
    then nkey_jwt
    else if text_eq t (mechanism_text tls)
    then tls
    else other t

-- The switch of `unmarshalRoute`.
unfoldable pub options : Parsers → Map (Setter Route)
options p =
    (bytes "use", text_option (λ t r. record r { profile = t }))
    ∷ (bytes "extends", text_option (λ t r. record r { profile = t }))
    ∷ (bytes "clear", some_option (λ ts r. record r { clear = ts }))
    ∷ (
      bytes "extend_request_headers",
      list_option (λ ts. set_extensions (λ x. record x { request_headers = ts })),
    )
    ∷ (
      bytes "extend_response_headers",
      list_option (λ ts. set_extensions (λ x. record x { response_headers = ts })),
    )
    ∷ (
      bytes "extend_response_representations",
      list_option (λ ts. set_extensions (λ x. record x { representations = ts })),
    )
    ∷ (
      bytes "extend_parameter",
      parameter_option (λ r. (extensions_of r).parameters)
          (λ m. set_extensions (λ x. record x { parameters = some m })),
    )
    ∷ (
      bytes "extend_service_error_status",
      status_option p.int (λ r. (extensions_of r).service_error_statuses)
          (λ m. set_extensions (λ x. record x { service_error_statuses = some m })),
    )
    ∷ (bytes "path", text_option (λ t r. record r { path = t }))
    ∷ (bytes "methods", some_option (λ ts r. record r { methods = some ts }))
    ∷ (bytes "subject", text_option (λ t r. record r { subject = t }))
    ∷ (
      bytes "parameter",
      parameter_option (λ r. r.parameters) (λ m r. record r { parameters = some m }),
    )
    ∷ (bytes "request_headers", list_option (λ ts r. record r { request_headers = ts }))
    ∷ (bytes "timeout", value_option p.duration (λ v r. record r { timeout = v }))
    ∷ (
      bytes "max_request_body_bytes",
      value_option p.int64 (λ v r. record r { max_request_body_bytes = v }),
    )
    ∷ (bytes "max_reply_bytes", value_option p.int64 (λ v r. record r { max_reply_bytes = v }))
    ∷ (bytes "stream_mode", text_option (λ t r. record r { stream_mode = t }))
    ∷ (
      bytes "core_sse_buffer_messages",
      value_option p.int (λ v. set_core_sse (λ x. record x { buffer_messages = v })),
    )
    ∷ (
      bytes "core_sse_buffer_bytes",
      value_option p.int64 (λ v. set_core_sse (λ x. record x { buffer_bytes = v })),
    )
    ∷ (
      bytes "core_sse_heartbeat_interval",
      value_option p.duration (λ v. set_core_sse (λ x. record x { heartbeat_interval = v })),
    )
    ∷ (
      bytes "core_sse_max_duration",
      value_option p.duration (λ v. set_core_sse (λ x. record x { max_duration = v })),
    )
    ∷ (
      bytes "core_sse_max_connections",
      value_option p.int (λ v. set_core_sse (λ x. record x { max_connections = v })),
    )
    ∷ (
      bytes "credential_mechanism",
      text_option (λ t. set_security (λ x. record x { mechanism = mechanism_named t })),
    )
    ∷ (
      bytes "max_credential_bytes",
      value_option p.int (λ v. set_security (λ x. record x { max_credential_bytes = v })),
    )
    ∷ (
      bytes "max_security_context_connections",
      value_option p.int (λ v. set_security (λ x. record x { max_connections = v })),
    )
    ∷ (
      bytes "security_context_idle_timeout",
      value_option p.duration (λ v. set_security (λ x. record x { idle_timeout = v })),
    )
    ∷ (
      bytes "security_context_max_lifetime",
      value_option p.duration (λ v. set_security (λ x. record x { max_lifetime = v })),
    )
    ∷ (
      bytes "downstream_identity_source",
      text_option (λ t. set_identity (λ x. record x { source = t })),
    )
    ∷ (
      bytes "downstream_identity_header",
      text_option (λ t. set_identity (λ x. record x { header = t })),
    )
    ∷ (
      bytes "max_downstream_identity_bytes",
      value_option p.int (λ v. set_identity (λ x. record x { max_value_bytes = v })),
    )
    ∷ (bytes "response_mode", text_option (λ t. set_response (λ x. record x { mode = t })))
    ∷ (bytes "response_headers", list_option (λ ts. set_response (λ x. record x { headers = ts })))
    ∷ (
      bytes "response_content_type",
      text_option (λ t. set_response (λ x. record x { content_type = t })),
    )
    ∷ (
      bytes "response_representations",
      some_option (λ ts. set_response (λ x. record x { representations = some ts })),
    )
    ∷ (
      bytes "negotiate_accept",
      value_option p.bool (λ v. set_response (λ x. record x { negotiate_accept = v })),
    )
    ∷ (
      bytes "service_error_status",
      status_option p.int (λ r. r.response.service_error_statuses)
          (λ m. set_response (λ x. record x { service_error_statuses = some m })),
    )
    ∷ []
