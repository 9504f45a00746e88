-- ===== src/Config.antt =====
-- config.go: the declared configuration. The children hold its validation.
pub mod SafePattern
pub mod Template
pub mod Names
pub mod Limits
pub mod RouteRules
mod Tests
use nats_web_gateway.Base.{Bool, List, Option, [], none, some}
use nats_web_gateway.Base.Int.{ℤ}
use nats_web_gateway.Base.Map.{Map}
use nats_web_gateway.Base.Text.{Text}
use nats_web_gateway.Credentials.Rotation.{Mechanism}
use nats_web_gateway.Routes.{Parameter}

-- `caddy.Duration`, in nanoseconds.
abbrev pub Duration : Type 0
Duration = ℤ

-- A nil slice or map is `none` where the program tells it from an empty one.
pub record CoreSse : Type 0 where
  pub buffer_messages : ℤ
  pub buffer_bytes : ℤ
  pub heartbeat_interval : Duration
  pub max_duration : Duration
  pub max_connections : ℤ

pub record DownstreamIdentity : Type 0 where
  pub source : Text
  pub header : Text
  pub max_value_bytes : ℤ

pub record SecurityContext : Type 0 where
  pub mechanism : Mechanism
  pub max_credential_bytes : ℤ
  pub max_connections : ℤ
  pub idle_timeout : Duration
  pub max_lifetime : Duration
  pub downstream_identity : Option DownstreamIdentity

pub record NatsConnection : Type 0 where
  pub urls : List Text
  pub username : Text
  pub password : Text
  pub connect_timeout : Duration
  pub reconnect_wait : Duration
  pub max_reconnects : ℤ
  pub drain_timeout : Duration

pub record Response : Type 0 where
  pub mode : Text
  pub headers : Option (List Text)
  pub content_type : Text
  pub representations : Option (List Text)
  pub negotiate_accept : Bool
  pub service_error_statuses : Option (Map ℤ)

pub record RouteExtensions : Type 0 where
  pub parameters : Option (Map Parameter)
  pub request_headers : Option (List Text)
  pub response_headers : Option (List Text)
  pub representations : Option (List Text)
  pub service_error_statuses : Option (Map ℤ)

pub record Route : Type 0 where
  pub name : Text
  pub path : Text
  pub methods : Option (List Text)
  pub profile : Text
  pub clear : List Text
  pub extend : Option RouteExtensions
  pub subject : Text
  pub parameters : Option (Map Parameter)
  pub request_headers : Option (List Text)
  pub timeout : Duration
  pub max_request_body_bytes : ℤ
  pub max_reply_bytes : ℤ
  pub response : Response
  pub stream_mode : Text
  pub core_sse : Option CoreSse
  pub security_context : Option SecurityContext

-- The elements of a slice or a map that may be nil.
abbrev pub elements {ℓ} : {A : Type ℓ} → Option (List A) → List A
elements none = []
elements (some xs) = xs
