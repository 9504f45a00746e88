-- ===== src/Profiles/Clear.antt =====
-- profiles.go: the fields of a route that a descendant may clear.
use nats_web_gateway.Base.{List, Option, [], false, none, some, ◌∷◌}
use nats_web_gateway.Base.Int.{pos}
use nats_web_gateway.Base.Map.{Map, lookup}
use nats_web_gateway.Base.Text.{Text, bytes}
use nats_web_gateway.Credentials.Rotation.{other}
use nats_web_gateway.Config.{CoreSse, DownstreamIdentity, Response, Route, SecurityContext}

-- `shareableRouteFields`
abbrev pub shareable_route_fields : List Text
shareable_route_fields =
    bytes "subject"
    ∷ bytes "parameters"
    ∷ bytes "request_headers"
    ∷ bytes "timeout"
    ∷ bytes "max_request_body_bytes"
    ∷ bytes "max_reply_bytes"
    ∷ bytes "response"
    ∷ bytes "stream_mode"
    ∷ bytes "core_sse"
    ∷ bytes "security_context"
    ∷ bytes "response.mode"
    ∷ bytes "response.headers"
    ∷ bytes "response.content_type"
    ∷ bytes "response.representations"
    ∷ bytes "response.negotiate_accept"
    ∷ bytes "response.service_error_statuses"
    ∷ bytes "core_sse.buffer_messages"
    ∷ bytes "core_sse.buffer_bytes"
    ∷ bytes "core_sse.heartbeat_interval"
    ∷ bytes "core_sse.max_duration"
    ∷ bytes "core_sse.max_connections"
    ∷ bytes "security_context.mechanism"
    ∷ bytes "security_context.max_credential_bytes"
    ∷ bytes "security_context.max_connections"
    ∷ bytes "security_context.idle_timeout"
    ∷ bytes "security_context.max_lifetime"
    ∷ bytes "security_context.downstream_identity"
    ∷ bytes "security_context.downstream_identity.source"
    ∷ bytes "security_context.downstream_identity.header"
    ∷ bytes "security_context.downstream_identity.max_value_bytes"
    ∷ []

-- Go's zero values.
abbrev pub zero_core_sse : CoreSse
zero_core_sse = record {
  buffer_messages = pos 0;
  buffer_bytes = pos 0;
  heartbeat_interval = pos 0;
  max_duration = pos 0;
  max_connections = pos 0;
}

abbrev pub zero_identity : DownstreamIdentity
zero_identity = record { source = []; header = []; max_value_bytes = pos 0 }

abbrev pub zero_security : SecurityContext
zero_security = record {
  mechanism = other [];
  max_credential_bytes = pos 0;
  max_connections = pos 0;
  idle_timeout = pos 0;
  max_lifetime = pos 0;
  downstream_identity = none;
}

abbrev pub zero_response : Response
zero_response = record {
  mode = [];
  headers = none;
  content_type = [];
  representations = none;
  negotiate_accept = false;
  service_error_statuses = none;
}

abbrev pub zero_route : Route
zero_route = record {
  name = [];
  path = [];
  methods = none;
  profile = [];
  clear = [];
  extend = none;
  subject = [];
  parameters = none;
  request_headers = none;
  timeout = pos 0;
  max_request_body_bytes = pos 0;
  max_reply_bytes = pos 0;
  response = zero_response;
  stream_mode = [];
  core_sse = none;
  security_context = none;
}

-- The value behind a pointer, or the zero value that `ensureCoreSSE` and its like allocate.
abbrev pub or_zero {ℓ} : {A : Type ℓ} → A → Option A → A
or_zero zero' none = zero'
or_zero zero' (some a) = a

abbrev pub set_response : (Response → Response) → Route → Route
set_response f r = record r { response = f r.response }

abbrev pub set_core_sse : (CoreSse → CoreSse) → Route → Route
set_core_sse f r = record r { core_sse = some (f (or_zero zero_core_sse r.core_sse)) }

abbrev pub set_security : (SecurityContext → SecurityContext) → Route → Route
set_security f r = record r {
  security_context = some (f (or_zero zero_security r.security_context));
}

abbrev pub set_identity : (DownstreamIdentity → DownstreamIdentity) → Route → Route
set_identity f =
    set_security (λ s. record s {
      downstream_identity = some (f (or_zero zero_identity s.downstream_identity));
    })

-- The cases of the switch of `clearRouteField`.
abbrev pub clearers : Map (Route → Route)
clearers =
    (bytes "subject", λ r. record r { subject = [] })
    ∷ (bytes "parameters", λ r. record r { parameters = none })
    ∷ (bytes "request_headers", λ r. record r { request_headers = some [] })
    ∷ (bytes "timeout", λ r. record r { timeout = pos 0 })
    ∷ (bytes "max_request_body_bytes", λ r. record r { max_request_body_bytes = pos 0 })
    ∷ (bytes "max_reply_bytes", λ r. record r { max_reply_bytes = pos 0 })
    ∷ (bytes "response", λ r. record r { response = zero_response })
    ∷ (bytes "stream_mode", λ r. record r { stream_mode = [] })
    ∷ (bytes "core_sse", λ r. record r { core_sse = none })
    ∷ (bytes "security_context", λ r. record r { security_context = none })
    ∷ (bytes "response.mode", set_response (λ s. record s { mode = [] }))
    ∷ (bytes "response.headers", set_response (λ s. record s { headers = some [] }))
    ∷ (bytes "response.content_type", set_response (λ s. record s { content_type = [] }))
    ∷ (bytes "response.representations", set_response (λ s. record s { representations = some [] }))
    ∷ (bytes "response.negotiate_accept", set_response (λ s. record s { negotiate_accept = false }))
    ∷ (
      bytes "response.service_error_statuses",
      set_response (λ s. record s { service_error_statuses = some [] }),
    )
    ∷ (bytes "core_sse.buffer_messages", set_core_sse (λ s. record s { buffer_messages = pos 0 }))
    ∷ (bytes "core_sse.buffer_bytes", set_core_sse (λ s. record s { buffer_bytes = pos 0 }))
    ∷ (
      bytes "core_sse.heartbeat_interval",
      set_core_sse (λ s. record s { heartbeat_interval = pos 0 }),
    )
    ∷ (bytes "core_sse.max_duration", set_core_sse (λ s. record s { max_duration = pos 0 }))
    ∷ (bytes "core_sse.max_connections", set_core_sse (λ s. record s { max_connections = pos 0 }))
    ∷ (bytes "security_context.mechanism", set_security (λ s. record s { mechanism = other [] }))
    ∷ (
      bytes "security_context.max_credential_bytes",
      set_security (λ s. record s { max_credential_bytes = pos 0 }),
    )
    ∷ (
      bytes "security_context.max_connections",
      set_security (λ s. record s { max_connections = pos 0 }),
    )
    ∷ (bytes "security_context.idle_timeout", set_security (λ s. record s { idle_timeout = pos 0 }))
    ∷ (bytes "security_context.max_lifetime", set_security (λ s. record s { max_lifetime = pos 0 }))
    ∷ (
      bytes "security_context.downstream_identity",
      set_security (λ s. record s { downstream_identity = none }),
    )
    ∷ (
      bytes "security_context.downstream_identity.source",
      set_identity (λ s. record s { source = [] }),
    )
    ∷ (
      bytes "security_context.downstream_identity.header",
      set_identity (λ s. record s { header = [] }),
    )
    ∷ (
      bytes "security_context.downstream_identity.max_value_bytes",
      set_identity (λ s. record s { max_value_bytes = pos 0 }),
    )
    ∷ []

-- `clearRouteField`; another field changes nothing.
unfoldable pub clear_route_field : Text → Route → Route
clear_route_field field route = elim (lookup field clearers) [
  | none ↦ route
  | some clearer ↦ clearer route
]
