-- ===== src/Gateway/Serve/Tests.antt =====
-- gateway.go: one request that is served, and the errors.
use nats_web_gateway.Base.{All, Any, [], err, false, none, ok, refl, some, true, ◌∷◌, ◌≡◌, ◌⊎◌}
use nats_web_gateway.Base.Int.{pos}
use nats_web_gateway.Base.Map.{lookup}
use nats_web_gateway.Base.Text.{Text, bytes, contains, equal_fold, text_eq}
use nats_web_gateway.Base.TextLaws.{join}
use nats_web_gateway.Base.Utf8.{runes}
use nats_web_gateway.Gateway.Failures.{
  cancelled, answered, deadline_exceeded, other_failure, request_answer, silent,
}
use nats_web_gateway.Config.{DownstreamIdentity, Route, SecurityContext, elements}
use nats_web_gateway.Config.RouteRules.{validate_statuses}
use nats_web_gateway.Credentials.Rotation.{bearer_token}
use nats_web_gateway.Translation
use nats_web_gateway.Translation.{
  Message, check_reply, copy_headers, execute, read_bounded, take_bytes,
}
use nats_web_gateway.Negotiation.Header.{is_blank}
use nats_web_gateway.Negotiation.Selection.{select_representation}
use nats_web_gateway.Identity.{check_value, resolve_downstream_identity}
use nats_web_gateway.Identity.Bounds.{IsPassable}
use nats_web_gateway.Reply.{
  Answer, check_content_type, safe_response_headers, service_error_code, service_status, set_header,
  validate_reply, values_of, write_gateway_error,
}
use nats_web_gateway.Gateway.Provision.{CompiledRoute}
use nats_web_gateway.Gateway.Lifecycle.{Lifecycle, new_lifecycle}
use nats_web_gateway.Gateway.Serve.{
  Forwarded, HttpRequest, Upstream, answer_reply, connection_of, forward, header_values, identify,
  is_available, requester, serve_as, serve_route, with_accept, with_identity,
}
use nats_web_gateway.Gateway.Serve.Proper.{vary, IsError, IsReply}
use nats_web_gateway.Gateway.Serve.Outcomes.{IsSelected, serve_route-IsProper}
use nats_web_gateway.Gateway.Serve.Forwarding.{Carries, identify-Carries}

computing : Unit {0}
unfolding serve_route serve_as forward identify connection_of answer_reply is_available with_accept
    with_identity header_values select_representation is_blank resolve_downstream_identity
    check_value execute read_bounded take_bytes copy_headers check_reply validate_reply values_of
    service_error_code service_status check_content_type safe_response_headers set_header
    write_gateway_error request_answer bytes text_eq equal_fold join runes contains lookup
    validate_statuses
computing = tt

abbrev pub config : Route
config = record {
  name = bytes "a";
  path = bytes "/a";
  methods = some (bytes "GET" ∷ []);
  profile = [];
  clear = [];
  extend = none;
  subject = bytes "s";
  parameters = none;
  request_headers = some (bytes "X-R" ∷ []);
  timeout = pos 1;
  max_request_body_bytes = pos 9;
  max_reply_bytes = pos 9;
  response = record {
    mode = bytes "json";
    headers = some (bytes "X-A" ∷ []);
    content_type = bytes "a/json";
    representations = none;
    negotiate_accept = false;
    service_error_statuses = none;
  };
  stream_mode = bytes "request_reply";
  core_sse = none;
  security_context = none;
}

abbrev pub candidate : CompiledRoute
candidate = record {
  config = config;
  route = record {
    path = bytes "/a";
    subject = bytes "s";
    methods = bytes "GET" ∷ [];
    parameters = [];
    patterns = [];
  };
  pool = none;
  streams = none;
}

abbrev pub lifecycle : Lifecycle
lifecycle = record new_lifecycle { connection = some 9; ready = true }

abbrev reply : Message
reply = record {
  subject = [];
  header = (bytes "X-A", bytes "1") ∷ (bytes "X-B", bytes "2") ∷ [];
  payload = bytes "{}";
}

-- Each request is answered with the reply.
abbrev pub env : Upstream
env = record {
  sha256 = λ s. s;
  now = 0;
  acquire = λ n context. ok 7;
  request = λ connection message. ok (some reply);
  unmarshal = λ s. some (record { user = some (bytes "u"); error = [] });
  context = record { done = false; stopped = true };
  context_failure = other_failure;
  body_failure = other_failure;
  media = record {
    parse_media_type = λ s. record { media_type = s; parameters = []; failed = false };
    valid_header_field_name = λ s. true;
  };
  reply = record {
    valid_header_field_value = λ s. true;
    json_valid = λ s. true;
    parse_media_type = λ s. record { media_type = s; parameters = []; failed = false };
  };
}

abbrev pub request : HttpRequest
request = record {
  method = bytes "GET";
  escaped_path = bytes "/a";
  query = [];
  header = (bytes "X-R", bytes "r") ∷ (bytes "x-user", bytes "forged") ∷ [];
  credentials = record {
    authorization = [];
    nkey_proof = none;
    nkey_jwt_proof = none;
    tls_certificate = none;
  };
  body = none;
}

abbrev answer : Answer
answer = record {
  status = pos 200;
  header =
      (bytes "X-A", bytes "1")
      ∷ (bytes "Content-Type", bytes "a/json")
      ∷ (bytes "X-Content-Type-Options", bytes "nosniff")
      ∷ [];
  body = bytes "{}";
}

served : serve_route env candidate lifecycle request (bytes "s") ≡ answered answer
unfolding computing
served = refl

-- Not ready; too late; no responders.
other_answers :
    (serve_route env candidate new_lifecycle request (bytes "s")
      ≡ answered (write_gateway_error [] (pos 503) (bytes "service unavailable")))
    × (serve_route
          (record env { request = λ c m. err deadline_exceeded })
          candidate
          lifecycle
          request
          (bytes "s")
        ≡ answered (write_gateway_error [] (pos 504) (bytes "upstream request timed out")))
    × (serve_route
          (record env { request = λ c m. err cancelled })
          candidate
          lifecycle
          request
          (bytes "s")
        ≡ silent)
unfolding computing
other_answers = (refl, refl, refl)

statuses_accepted : validate_statuses (elements config.response.service_error_statuses) ≡ ok tt
unfolding computing
statuses_accepted = refl

serve_route-IsProper_example :
    IsError (vary config) answer
    ⊎ IsReply env config (bytes "s") (vary config) (IsSelected env request config) answer
serve_route-IsProper_example =
    serve_route-IsProper env candidate lifecycle request (bytes "s") answer statuses_accepted served

abbrev identity_config : DownstreamIdentity
identity_config = record {
  source = bytes "nats_user_id";
  header = bytes "X-User";
  max_value_bytes = pos 9;
}

abbrev security : SecurityContext
security = record {
  mechanism = bearer_token;
  max_credential_bytes = pos 0;
  max_connections = pos 1;
  idle_timeout = pos 1;
  max_lifetime = pos 1;
  downstream_identity = some identity_config;
}

abbrev secured : Route
secured = record config { security_context = some security }

-- What the client has sent, and the same with the identity.
abbrev asked : Forwarded
asked = record { header = request.header; names = bytes "X-R" ∷ bytes "x-user" ∷ [] }

abbrev identified : Forwarded
identified = record {
  header = (bytes "X-R", bytes "r") ∷ (bytes "X-User", bytes "u") ∷ [];
  names = bytes "X-R" ∷ bytes "x-user" ∷ bytes "X-User" ∷ [];
}

identify-asked : identify env secured [] 7 asked ≡ ok identified
unfolding computing
identify-asked = refl

abbrev forwarded : Translation.Request
forwarded = record {
  subject = bytes "s";
  header_values = header_values identified.header;
  body = none;
}

abbrev message : Message
message = record {
  subject = bytes "s";
  header =
      (bytes "X-R", bytes "r") ∷ (bytes "x-user", bytes "u") ∷ (bytes "X-User", bytes "u") ∷ [];
  payload = [];
}

execute-sent :
    (execute env.context (requester env 7) forwarded identified.names 9 9).0 ≡ some message
unfolding computing
execute-sent = refl

identify-Carries_example :
    (identity : Text) × (resolve_downstream_identity env.unmarshal (requester env 7) identity_config
      ≡ ok identity)
    × IsPassable identity (pos 9)
    × All (Carries (bytes "X-User") identity) message.header
    × Any (λ entry. entry ≡ (bytes "X-User", identity)) message.header
identify-Carries_example =
    identify-Carries env secured [] 7 asked identified security identity_config forwarded 9 9
      message refl refl identify-asked refl execute-sent
