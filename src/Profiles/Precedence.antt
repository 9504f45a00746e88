-- ===== src/Profiles/Precedence.antt =====
-- profiles.go: what an override does to each field of a route.
use nats_web_gateway.Base.{Option, [], false, none, ok, some, ◌≡◌, ◌≢◌, ◌⊎◌}
use nats_web_gateway.Base.Int.{pos}
use nats_web_gateway.Base.Text.{Text}
use nats_web_gateway.Credentials.Rotation.{other}
use nats_web_gateway.Profiles.Clear.{or_zero, zero_core_sse, zero_identity, zero_security}
use nats_web_gateway.Profiles.Merge.{extend_route}
use nats_web_gateway.Config.{
  CoreSse, DownstreamIdentity, Response, Route, RouteExtensions, SecurityContext,
}

-- A field that the override sets has its value; one that it leaves zero has the base's.
abbrev pub Wins {ℓ} : {A : Type ℓ} → A → A → A → A → Type ℓ
Wins zero' base override result =
    ((override ≡ zero') × (result ≡ base)) ⊎ ((override ≢ zero') × (result ≡ override))

-- A section that the override has is laid over the base's, or over an empty one.
abbrev pub Overlays :
    {A : Type 0} → A → (A → A → A → Type 0) → Option A → Option A → Option A → Type 0
Overlays {A} zero' Over base override result =
    ((override ≡ none) × (result ≡ base))
    ⊎ ((set : A) × (made : A) × (override ≡ some set)
        × (result ≡ some made)
        × Over (or_zero zero' base) set made)

pub record IsResponseOver (base override result : Response) : Type 0 where
  pub mode : Wins [] base.mode override.mode result.mode
  pub headers : Wins none base.headers override.headers result.headers
  pub content_type : Wins [] base.content_type override.content_type result.content_type
  pub representations :
      Wins none base.representations override.representations result.representations
  pub negotiate_accept :
      Wins false base.negotiate_accept override.negotiate_accept result.negotiate_accept
  pub service_error_statuses :
      Wins none base.service_error_statuses override.service_error_statuses
        result.service_error_statuses

pub record IsCoreSseOver (base override result : CoreSse) : Type 0 where
  pub buffer_messages :
      Wins (pos 0) base.buffer_messages override.buffer_messages result.buffer_messages
  pub buffer_bytes : Wins (pos 0) base.buffer_bytes override.buffer_bytes result.buffer_bytes
  pub heartbeat_interval :
      Wins (pos 0) base.heartbeat_interval override.heartbeat_interval result.heartbeat_interval
  pub max_duration : Wins (pos 0) base.max_duration override.max_duration result.max_duration
  pub max_connections :
      Wins (pos 0) base.max_connections override.max_connections result.max_connections

pub record IsIdentityOver (base override result : DownstreamIdentity) : Type 0 where
  pub source : Wins [] base.source override.source result.source
  pub header : Wins [] base.header override.header result.header
  pub max_value_bytes :
      Wins (pos 0) base.max_value_bytes override.max_value_bytes result.max_value_bytes

pub record IsSecurityOver (base override result : SecurityContext) : Type 0 where
  pub mechanism : Wins (other []) base.mechanism override.mechanism result.mechanism
  pub max_credential_bytes :
      Wins
        (pos 0)
        base.max_credential_bytes
        override.max_credential_bytes
        result.max_credential_bytes
  pub max_connections :
      Wins (pos 0) base.max_connections override.max_connections result.max_connections
  pub idle_timeout : Wins (pos 0) base.idle_timeout override.idle_timeout result.idle_timeout
  pub max_lifetime : Wins (pos 0) base.max_lifetime override.max_lifetime result.max_lifetime
  pub downstream_identity :
      Overlays zero_identity IsIdentityOver base.downstream_identity override.downstream_identity
        result.downstream_identity

pub record IsRouteOver (base override result : Route) : Type 0 where
  pub name : Wins [] base.name override.name result.name
  pub path : Wins [] base.path override.path result.path
  pub methods : Wins none base.methods override.methods result.methods
  pub subject : Wins [] base.subject override.subject result.subject
  pub parameters : Wins none base.parameters override.parameters result.parameters
  pub request_headers :
      Wins none base.request_headers override.request_headers result.request_headers
  pub timeout : Wins (pos 0) base.timeout override.timeout result.timeout
  pub max_request_body_bytes :
      Wins
        (pos 0)
        base.max_request_body_bytes
        override.max_request_body_bytes
        result.max_request_body_bytes
  pub max_reply_bytes :
      Wins (pos 0) base.max_reply_bytes override.max_reply_bytes result.max_reply_bytes
  pub response : IsResponseOver base.response override.response result.response
  pub stream_mode : Wins [] base.stream_mode override.stream_mode result.stream_mode
  pub core_sse :
      Overlays zero_core_sse IsCoreSseOver base.core_sse override.core_sse result.core_sse
  pub security_context :
      Overlays zero_security IsSecurityOver base.security_context override.security_context
        result.security_context

-- What the extension of the override, if it has one, makes of the merged route.
abbrev pub Extended : Option RouteExtensions → Route → Route → Type 0
Extended none merged result = result ≡ merged
Extended (some ext) merged result = extend_route merged ext ≡ ok result
