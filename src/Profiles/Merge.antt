-- ===== src/Profiles/Merge.antt =====
-- profiles.go: a route or profile laid over its base. A clone of a value is the value: nothing is
-- shared in the model.
use nats_web_gateway.Base.{
  List, Option, Result, [], err, if◌then◌else◌, none, not, ok, reject_if, some, true, ◌++◌, ◌>>=◌,
  ◌>>◌, ◌∷◌,
}
use nats_web_gateway.Base.Int.{is_zero, ℤ}
use nats_web_gateway.Base.Map.{Map, insert, lookup}
use nats_web_gateway.Base.Text.{Text, contains, is_empty}
use nats_web_gateway.Profiles.Clear.{
  clear_route_field, or_zero, shareable_route_fields, zero_core_sse, zero_identity, zero_security,
}
use nats_web_gateway.Credentials.Rotation.{Mechanism, other}
use nats_web_gateway.Config.{
  CoreSse, DownstreamIdentity, Response, Route, RouteExtensions, SecurityContext, elements,
}

pub data MergeError : Type 0 where
  unknown_field duplicate_clear : Text → MergeError
  duplicate_parameter duplicate_status : Text → MergeError

-- A zero value of the override leaves the base.
abbrev pub over_text : Text → Text → Text
over_text base override = if is_empty override then base else override

abbrev pub over_int : ℤ → ℤ → ℤ
over_int base override = if is_zero override then base else override

abbrev pub over_option {ℓ} : {A : Type ℓ} → Option A → Option A → Option A
over_option base none = base
over_option base (some a) = some a

abbrev pub over_mechanism : Mechanism → Mechanism → Mechanism
over_mechanism base (other []) = base
over_mechanism base m = m

-- `mergeResponse`
unfoldable pub merge_response : Response → Response → Response
merge_response base override = record {
  mode = over_text base.mode override.mode;
  headers = over_option base.headers override.headers;
  content_type = over_text base.content_type override.content_type;
  representations = over_option base.representations override.representations;
  negotiate_accept = if override.negotiate_accept then true else base.negotiate_accept;
  service_error_statuses = over_option base.service_error_statuses override.service_error_statuses;
}

-- `mergeCoreSSE`
unfoldable pub merge_core_sse : CoreSse → CoreSse → CoreSse
merge_core_sse base override = record {
  buffer_messages = over_int base.buffer_messages override.buffer_messages;
  buffer_bytes = over_int base.buffer_bytes override.buffer_bytes;
  heartbeat_interval = over_int base.heartbeat_interval override.heartbeat_interval;
  max_duration = over_int base.max_duration override.max_duration;
  max_connections = over_int base.max_connections override.max_connections;
}

unfoldable pub merge_identity : DownstreamIdentity → DownstreamIdentity → DownstreamIdentity
merge_identity base override = record {
  source = over_text base.source override.source;
  header = over_text base.header override.header;
  max_value_bytes = over_int base.max_value_bytes override.max_value_bytes;
}

-- What a pointer's value becomes: a nil override leaves the base, and a nil base is allocated.
abbrev pub over_pointer {ℓ} : {A : Type ℓ} → A → (A → A → A) → Option A → Option A → Option A
over_pointer zero' merge base none = base
over_pointer zero' merge base (some override) = some (merge (or_zero zero' base) override)

-- `mergeSecurityContext`
unfoldable pub merge_security_context : SecurityContext → SecurityContext → SecurityContext
merge_security_context base override = record {
  mechanism = over_mechanism base.mechanism override.mechanism;
  max_credential_bytes = over_int base.max_credential_bytes override.max_credential_bytes;
  max_connections = over_int base.max_connections override.max_connections;
  idle_timeout = over_int base.idle_timeout override.idle_timeout;
  max_lifetime = over_int base.max_lifetime override.max_lifetime;
  downstream_identity =
      over_pointer zero_identity merge_identity base.downstream_identity
        override.downstream_identity;
}

-- The assignments of `mergeRoute` between the clearing and the extension.
unfoldable pub merge_fields : Route → Route → Route
merge_fields base override = record {
  name = over_text base.name override.name;
  path = over_text base.path override.path;
  methods = over_option base.methods override.methods;
  profile = base.profile;
  clear = base.clear;
  extend = base.extend;
  subject = over_text base.subject override.subject;
  parameters = over_option base.parameters override.parameters;
  request_headers = over_option base.request_headers override.request_headers;
  timeout = over_int base.timeout override.timeout;
  max_request_body_bytes = over_int base.max_request_body_bytes override.max_request_body_bytes;
  max_reply_bytes = over_int base.max_reply_bytes override.max_reply_bytes;
  response = merge_response base.response override.response;
  stream_mode = over_text base.stream_mode override.stream_mode;
  core_sse = over_pointer zero_core_sse merge_core_sse base.core_sse override.core_sse;
  security_context =
      over_pointer zero_security merge_security_context base.security_context
        override.security_context;
}

-- The loop over `override.Clear`, with the fields cleared so far.
unfoldable pub clear_all : List Text → List Text → Route → Result MergeError Route
clear_all cleared [] route = ok route
clear_all cleared (field ∷ fields) route = do
  reject_if (not (contains shareable_route_fields field)) (unknown_field field)
  reject_if (contains cleared field) (duplicate_clear field)
  clear_all (field ∷ cleared) fields (clear_route_field field route)

-- The loops of `extendRoute` over a map.
unfoldable pub extend_map {ℓ} :
    {V : Type ℓ} → (Text → MergeError) → Map V → Map V → Result MergeError (Map V)
extend_map duplicate base [] = ok base
extend_map duplicate base ((key, value) ∷ ext) = elim (lookup key base) [
  | some _ ↦ err (duplicate key)
  | none ↦ extend_map duplicate (insert key value base) ext
]

-- `append` to a slice that may be nil.
abbrev pub append_slice : Option (List Text) → Option (List Text) → Option (List Text)
append_slice base none = base
append_slice base (some []) = base
append_slice none (some (x ∷ xs)) = some (x ∷ xs)
append_slice (some ys) (some (x ∷ xs)) = some (ys ++ x ∷ xs)

-- `extendRoute`
unfoldable pub extend_route : Route → RouteExtensions → Result MergeError Route
extend_route route ext = do
  parameters ← extend_map duplicate_parameter (elements route.parameters) (elements ext.parameters)
  statuses ←
      extend_map duplicate_status (elements route.response.service_error_statuses)
        (elements ext.service_error_statuses)
  ok (record route {
    parameters = some parameters;
    request_headers = append_slice route.request_headers ext.request_headers;
    response = record route.response {
      headers = append_slice route.response.headers ext.response_headers;
      representations = append_slice route.response.representations ext.representations;
      service_error_statuses = some statuses;
    };
  })

-- `mergeRoute`
unfoldable pub merge_route : Route → Route → Result MergeError Route
merge_route base override = do
  cleared ← clear_all [] override.clear base
  elim override.extend [
    | none ↦ ok (merge_fields cleared override)
    | some ext ↦ extend_route (merge_fields cleared override) ext
  ]
