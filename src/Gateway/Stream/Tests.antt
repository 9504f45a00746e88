-- ===== src/Gateway/Stream/Tests.antt =====
-- core_sse.go: a stream that starts, and refusals.
use nats_web_gateway.Base.{[], err, false, none, refl, some, true, ◌∷◌, ◌≡◌}
use nats_web_gateway.Base.Int.{pos}
use nats_web_gateway.Base.Text.{bytes}
use nats_web_gateway.Config.{CoreSse}
use nats_web_gateway.CoreSse.Loop.{arrives, too_long, stream_body}
use nats_web_gateway.Reply.{Answer, write_gateway_error}
use nats_web_gateway.Gateway.Provision.{CompiledRoute}
use nats_web_gateway.Gateway.Failures.{
  answered, forbidden, other_failure, silent, cancelled, panicked,
}
use nats_web_gateway.Gateway.Serve.{is_available}
use nats_web_gateway.Gateway.Serve.Tests.{candidate, config, env, lifecycle, request}
use nats_web_gateway.Gateway.Stream.{
  StreamSetup, has_place, refused, serve_core_sse, serve_stream, setup_answer, setup_cause,
  stream_connection, streamed, subscribed, with_connection,
}

computing : Unit {0}
unfolding serve_core_sse serve_stream has_place is_available stream_connection with_connection
    subscribed setup_answer setup_cause write_gateway_error
computing = tt

abbrev quota : CoreSse
quota = record {
  buffer_messages = pos 1;
  buffer_bytes = pos 1;
  heartbeat_interval = pos 1;
  max_duration = pos 1;
  max_connections = pos 1;
}

abbrev streaming : CompiledRoute
streaming = record candidate {
  config = record config { stream_mode = bytes "core_sse"; core_sse = some quota };
}

abbrev setup : StreamSetup
setup = record {
  used = 0;
  deadline_passed = false;
  subscribes = true;
  takes_deadline = true;
  flushes = true;
  subscribe = λ subject. none;
  flush = none;
  cause = none;
  events = arrives (bytes "x") ∷ too_long ∷ [];
}

abbrev started : Answer
started = record {
  status = pos 200;
  header =
      (bytes "Content-Type", bytes "text/event-stream")
      ∷ (bytes "Cache-Control", bytes "no-cache")
      ∷ (bytes "X-Content-Type-Options", bytes "nosniff")
      ∷ [];
  body = stream_body 9 setup.events;
}

serve_core_sse-streams :
    serve_core_sse env setup streaming lifecycle request (bytes "s") ≡ streamed started
unfolding computing
serve_core_sse-streams = refl

-- No place; a violation of the permissions during the flush; a client that has gone.
refusals :
    (serve_core_sse env (record setup { used = 1 }) streaming lifecycle request (bytes "s")
      ≡ refused
          (answered (write_gateway_error [] (pos 429) (bytes "stream connection quota exceeded"))))
    × (serve_core_sse env
          (record setup { flush = some other_failure; cause = some forbidden })
          streaming
          lifecycle
          request
          (bytes "s")
        ≡ refused (answered (write_gateway_error [] (pos 403) (bytes "forbidden"))))
    × (serve_core_sse env
          (record setup { cause = some cancelled })
          streaming
          lifecycle
          request
          (bytes "s")
        ≡ refused silent)
unfolding computing
refusals = (refl, refl, refl)

-- A route without the section of its stream, and one with a pool and no security context.
panics :
    (serve_core_sse env setup candidate lifecycle request (bytes "s") ≡ refused panicked)
    × (stream_connection env (record streaming { pool = some 0 }) lifecycle request ≡ err panicked)
unfolding computing
panics = (refl, refl)
