-- ===== src/Gateway/Dispatch.antt =====
-- gateway.go: the loop of `ServeHTTP` that finds the route of a request.
use nats_web_gateway.Base.{List, [], if◌then◌else◌, ◌∷◌}
use nats_web_gateway.Base.Map.{Map}
use nats_web_gateway.Base.Text.{Text, bytes, text_eq}
use nats_web_gateway.Routes.{invalid_parameter, match, match_panics, subject_of, unmatched}
use nats_web_gateway.Gateway.Provision.{CompiledRoute}

pub data Dispatch : Type 0 where
  next_handler : Dispatch
  bad_parameters : Dispatch
  dispatch_panics : Dispatch
  chosen : CompiledRoute → Text → Dispatch

-- The first route that matches, which the loop does not look behind; the routes of the JetStream
-- mode are passed over.
unfoldable pub dispatch : List CompiledRoute → Text → Text → Map (List Text) → Dispatch
dispatch [] method path query = next_handler
dispatch (candidate ∷ candidates) method path query =
    let rest = dispatch candidates method path query in
    if text_eq candidate.config.stream_mode (bytes "jetstream_sse")
    then rest
    else elim (match candidate.route method path query) [
      | unmatched ↦ rest
      | match_panics ↦ dispatch_panics
      | invalid_parameter ↦ bad_parameters
      | subject_of subject ↦ chosen candidate subject
    ]
