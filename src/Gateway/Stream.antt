-- ===== src/Gateway/Stream.antt =====
-- core_sse.go: `serveCoreSSE`, from the quota of streams to the response.
mod Tests
pub mod Started
use nats_web_gateway.Base.{
  Bool, List, Option, Result, [], err, if◌then◌else◌, ltb, none, not, ok, some, true, ℕ, ◌∷◌,
}
use nats_web_gateway.Base.Int.{pos, to_nat}
use nats_web_gateway.Base.Text.{Text, bytes}
use nats_web_gateway.Config.{CoreSse}
use nats_web_gateway.Credentials.{adapt}
use nats_web_gateway.CoreSse.Loop.{StreamEvent, stream_body}
use nats_web_gateway.Reply.{Answer}
use nats_web_gateway.Gateway.Provision.{CompiledRoute}
use nats_web_gateway.Gateway.Lifecycle.{Lifecycle}
use nats_web_gateway.Gateway.Failures.{
  Failure, Served, cancelled, deadline_exceeded, timed_out, unauthorized, forbidden, bad_credential,
  credential_failure, gateway_error, panicked, service_unavailable, silent,
}
use nats_web_gateway.Gateway.Serve.{HttpRequest, Upstream, is_available}

-- What a stream finds around it: how many of its quota are in use, whether its deadline has passed
-- when it has its connection, whether the connection can subscribe and the writer can be flushed and
-- take a deadline, the errors of `Subscribe` and `FlushWithContext`, and the cause of the end of the
-- setup's context when it is looked at, which one run does once.
pub record StreamSetup : Type 0 where
  pub used : ℕ
  pub deadline_passed : Bool
  pub subscribes : Bool
  pub takes_deadline : Bool
  pub flushes : Bool
  pub subscribe : Text → Option Failure
  pub flush : Option Failure
  pub cause : Option Failure
  -- What the rounds of the loop take.
  pub events : List StreamEvent

-- The end of `serveCoreSSE`: nothing was started, or a stream was.
pub data Streamed : Type 0 where
  refused : Served → Streamed
  streamed : Answer → Streamed

-- `writeStreamSetupError`
unfoldable pub setup_answer : Failure → Served
setup_answer cancelled = silent
setup_answer deadline_exceeded = gateway_error [] 504 "stream setup timed out"
setup_answer timed_out = gateway_error [] 504 "stream setup timed out"
setup_answer unauthorized = gateway_error [] 401 "unauthorized"
setup_answer (bad_credential e) =
    if credential_failure e then gateway_error [] 401 "unauthorized" else service_unavailable []
setup_answer forbidden = gateway_error [] 403 "forbidden"
setup_answer f = service_unavailable []

-- `streamSetupCause`
unfoldable pub setup_cause : Option Failure → Failure → Failure
setup_cause none f = f
setup_cause (some cause) f = cause

-- The place in the quota, which is given back at the end.
unfoldable pub has_place : CoreSse → ℕ → Bool
has_place sse used = ltb used (to_nat sse.max_connections)

-- The connection of a stream, which is nil without an operator connection.
unfoldable pub stream_connection :
    Upstream → CompiledRoute → Lifecycle → HttpRequest → Result Served (Option ℕ)
stream_connection env candidate l r = elim candidate.pool [
  | none ↦ ok l.connection
  | some n ↦ elim candidate.config.security_context [
    | none ↦ err panicked
    | some security ↦
        elim (adapt env.sha256
          (record {
            mechanism = security.mechanism;
            max_credential_bytes = security.max_credential_bytes;
          })
          (some r.credentials) true env.now) [
            | err e ↦ err (gateway_error [] 401 "unauthorized")
            | ok adapted ↦ elim (env.acquire n adapted) [
              | err f ↦ err (setup_answer f)
              | ok connection ↦ ok (some connection)
            ]
          ]
  ]
]

-- From the subscription to the loop.
unfoldable pub subscribed : StreamSetup → ℕ → Text → Streamed
subscribed setup max_reply subject = elim (setup.subscribe subject) [
  | some f ↦ refused (setup_answer f)
  | none ↦ elim setup.flush [
    | some f ↦ refused (setup_answer (setup_cause setup.cause f))
    | none ↦ elim setup.cause [
      | some f ↦ refused (setup_answer f)
      | none ↦
          if not setup.flushes
          then refused (gateway_error [] 500 "streaming unsupported")
          else streamed (record {
            status = pos 200;
            header =
                (bytes "Content-Type", bytes "text/event-stream")
                ∷ (bytes "Cache-Control", bytes "no-cache")
                ∷ (bytes "X-Content-Type-Options", bytes "nosniff")
                ∷ [];
            body = stream_body max_reply setup.events;
          })
    ]
  ]
]

-- The checks between the connection and the subscription.
unfoldable pub with_connection : StreamSetup → Option ℕ → ℕ → Text → Streamed
with_connection setup connection max_reply subject =
    if setup.deadline_passed then refused (service_unavailable []) else elim connection [
      | none ↦ refused (service_unavailable [])
      | some c ↦
          if not setup.subscribes
          then refused (service_unavailable [])
          else if not setup.takes_deadline
          then refused (gateway_error [] 500 "streaming unsupported")
          else subscribed setup max_reply subject
    ]

-- `serveCoreSSE` behind the quota.
unfoldable pub serve_stream :
    Upstream → StreamSetup → CompiledRoute → Lifecycle → HttpRequest → Text → Streamed
serve_stream env setup candidate l r subject =
    if not (is_available candidate l)
    then refused (service_unavailable [])
    else elim (stream_connection env candidate l r) [
      | err served ↦ refused served
      | ok connection ↦
          with_connection setup connection (to_nat candidate.config.max_reply_bytes) subject
    ]

-- `serveCoreSSE`, which panics on a nil `CoreSSE` before it does anything else.
unfoldable pub serve_core_sse :
    Upstream → StreamSetup → CompiledRoute → Lifecycle → HttpRequest → Text → Streamed
serve_core_sse env setup candidate l r subject = elim candidate.config.core_sse [
  | none ↦ refused panicked
  | some sse ↦
      if not (has_place sse setup.used)
      then refused (gateway_error [] 429 "stream connection quota exceeded")
      else serve_stream env setup candidate l r subject
]
