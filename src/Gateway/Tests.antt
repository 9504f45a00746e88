-- ===== src/Gateway/Tests.antt =====
-- gateway.go: a provisioned handler with two routes, and a run of the table of waiters.
use nats_web_gateway.Base.{
  All, Bool, List, [], false, if◌then◌else◌, leb, length, none, ok, refl, some, true, ℕ, ◌&&◌, ◌↔◌,
  ◌∷◌, ◌≡◌,
}
use nats_web_gateway.Base.Int.{pos}
use nats_web_gateway.Base.Map.{delete, insert, lookup}
use nats_web_gateway.Base.Text.{
  Text, bytes, contains, contains_any, contains_text, cut, has_prefix, has_suffix, split, text_eq,
}
use nats_web_gateway.Base.TextLaws.{join}
use nats_web_gateway.Base.Utf8.{runes}
use nats_web_gateway.Routes.{
  Pattern, compile, fill, match, match_query, match_segments, matches_entire_value,
  placeholder_name, segments, subject_of,
}
use nats_web_gateway.Pool.{new_pool}
use nats_web_gateway.Gateway.Permissions.Waiting.{
  Event, Occupied, handle-waits, is_member, registers, run, run-Occupied, unregisters, waits,
}
use nats_web_gateway.Gateway.Permissions.{
  handle, register, unregister, violated_subject, waiters_of, without_waiter,
}
use nats_web_gateway.Gateway.Lifecycle.{
  Running, begin_stopping, cleanup, drain_connection, drain_timed_out, here, new_lifecycle, next,
  reconnects, set_ready, settle_drain, starts,
}
use nats_web_gateway.Gateway.Dispatch.{bad_parameters, dispatch, chosen, next_handler}
use nats_web_gateway.Gateway.Cleanup.Down.{IsDown}
use nats_web_gateway.Gateway.Cleanup.{ConnectionClosed, DrainsWell, cleanup-closes, cleanup_final}
use nats_web_gateway.Config.{Route, NatsConnection}
use nats_web_gateway.Config.RouteRules.{
  reject_overlap, validate_from, validate_parameter, validate_parameters, validate_representations,
  validate_response, validate_response_media_type, validate_route, validate_route_security,
  validate_routes, validate_statuses, validate_stream,
}
use nats_web_gateway.Config.Limits.{is_secret_placeholder, validate_nats_connection}
use nats_web_gateway.Config.Template.{
  collect_names, has_placeholder, placeholder_at, scan_from, validate_path, validate_subject,
  validate_template,
}
use nats_web_gateway.Config.Names.{distinct_headers, distinct_methods, valid_name, validate_methods}
use nats_web_gateway.Config.RouteRules.Overlap.{methods_overlap, paths_overlap, segments_overlap}
use nats_web_gateway.Profiles.Merge.{
  clear_all, extend_map, extend_route, merge_core_sse, merge_fields, merge_identity, merge_response,
  merge_route, merge_security_context,
}
use nats_web_gateway.Profiles.Clear.{clear_route_field}
use nats_web_gateway.Profiles.{
  index_profiles, resolve_all, resolve_each, resolve_profile, resolve_route, resolved_routes,
}
use nats_web_gateway.Routes.Replace.{replace_all}
use nats_web_gateway.Routes.Unescape.{path_unescape}
use nats_web_gateway.Gateway.Provision.{
  CompiledRoute, Handler, Provisioned, Surroundings, share_streams, share_pool, compile_route,
  compile_routes, validate, connect_operator, provision, operator_options, share, no_tables,
}
use nats_web_gateway.Gateway.Routing.{takers, provision-dispatch}

unfoldable pub computing : Unit {0}
unfolding share share_streams share_pool compile_route compile_routes validate connect_operator
    provision dispatch takers validate_nats_connection is_secret_placeholder validate_routes
    validate_from reject_overlap validate_route validate_response validate_route_security
    validate_stream validate_statuses validate_representations validate_response_media_type
    validate_parameters validate_parameter valid_name validate_methods validate_path
    validate_subject validate_template methods_overlap paths_overlap segments_overlap split bytes
    text_eq contains runes contains_any has_suffix contains_text scan_from placeholder_at
    collect_names distinct_methods distinct_headers cut has_placeholder index_profiles
    resolve_profile resolve_all resolve_route resolve_each resolved_routes merge_route merge_fields
    merge_response merge_core_sse merge_identity merge_security_context clear_all clear_route_field
    extend_route extend_map lookup insert compile match match_segments match_query
    matches_entire_value segments placeholder_name fill replace_all path_unescape has_prefix join
computing = tt

abbrev pub letter : ℕ → Bool
letter c = leb 97 c && leb c 122

abbrev pub env : Surroundings
env = record {
  checks = record {
    is_letter = letter;
    is_digit = λ c. false;
    valid_header_field_name = λ s. true;
    parse = λ s. none;
  };
  parse_url = λ s. some (record { scheme = bytes "nats"; host = s; has_user = false });
  compile_pattern = λ s. none;
  marshal_core_sse = λ s. [];
  marshal_security = λ s. [];
  replace = λ s. some s;
  connect = λ url options. some 9;
  connected = λ c. true;
}

abbrev pub plain : Text → Text → Route
plain name path = record {
  name = name;
  path = path;
  methods = some (bytes "GET" ∷ []);
  profile = [];
  clear = [];
  extend = none;
  subject = bytes "s";
  parameters = none;
  request_headers = none;
  timeout = pos 1;
  max_request_body_bytes = pos 1;
  max_reply_bytes = pos 1;
  response = record {
    mode = bytes "json";
    headers = none;
    content_type = bytes "application/json";
    representations = none;
    negotiate_accept = false;
    service_error_statuses = none;
  };
  stream_mode = bytes "request_reply";
  core_sse = none;
  security_context = none;
}

abbrev pub nats : NatsConnection
nats = record {
  urls = bytes "u" ∷ [];
  username = [];
  password = [];
  connect_timeout = pos 1;
  reconnect_wait = pos 1;
  max_reconnects = pos 0;
  drain_timeout = pos 1;
}

abbrev handler : Handler
handler = record {
  nats = nats;
  route_profiles = [];
  routes = plain (bytes "a") (bytes "/a") ∷ plain (bytes "b") (bytes "/b") ∷ [];
}

abbrev compiled_plain : Text → Text → CompiledRoute
compiled_plain name path = record {
  config = plain name path;
  route = record {
    path = path;
    subject = bytes "s";
    methods = bytes "GET" ∷ [];
    parameters = [];
    patterns = [];
  };
  pool = none;
  streams = none;
}

abbrev provisioned : Provisioned
provisioned = record {
  compiled = compiled_plain (bytes "a") (bytes "/a") ∷ compiled_plain (bytes "b") (bytes "/b") ∷ [];
  tables = record no_tables { has_operator_route = true };
  connection = some 9;
  options = operator_options nats;
  ready = true;
}

provision-handler : provision env handler ≡ ok provisioned
unfolding computing
provision-handler = refl

dispatch-second :
    dispatch provisioned.compiled (bytes "GET") (bytes "/b") []
    ≡ chosen (compiled_plain (bytes "b") (bytes "/b")) (bytes "s")
unfolding computing
dispatch-second = refl

dispatch-none : dispatch provisioned.compiled (bytes "GET") (bytes "/c") [] ≡ next_handler
unfolding computing
dispatch-none = refl

provision-dispatch_example :
    (takers provisioned.compiled (bytes "GET") (bytes "/b") []
      ≡ compiled_plain (bytes "b") (bytes "/b") ∷ [])
    × (match (compiled_plain (bytes "b") (bytes "/b")).route (bytes "GET") (bytes "/b") []
        ≡ subject_of (bytes "s"))
provision-dispatch_example =
    provision-dispatch env handler provisioned (bytes "GET") (bytes "/b") []
      (compiled_plain (bytes "b") (bytes "/b")) (bytes "s") provision-handler dispatch-second

-- A pattern of the digit 1, and a route of one parameter and a literal segment.
abbrev digit_one : Pattern
digit_one value = if text_eq value (bytes "1") then some (0, 1) else none

abbrev parametric : Text → Text → Pattern → CompiledRoute
parametric name path pattern = record (compiled_plain name path) {
  route = record {
    path = path;
    subject = bytes "s";
    methods = bytes "GET" ∷ [];
    parameters = [];
    patterns = (bytes "x", pattern) ∷ [];
  };
}

-- The first route refuses a value of its parameter before it compares the literal segment, and so
-- a request that only the second route can serve; the two do not overlap.
refused_by_other :
    (paths_overlap (bytes "/{x}/a") (bytes "/{x}/b") ≡ false)
    × (match
          (parametric [] (bytes "/{x}/b") (λ s. some (0, length s))).route
          (bytes "GET")
          (bytes "/2/b")
          []
        ≡ subject_of (bytes "s"))
    × (dispatch
          (parametric [] (bytes "/{x}/a") digit_one
            ∷ parametric [] (bytes "/{x}/b") (λ s. some (0, length s))
            ∷ [])
          (bytes "GET")
          (bytes "/2/b")
          []
        ≡ bad_parameters)
unfolding computing
refused_by_other = (refl, refl, refl)

abbrev events : List Event
events =
    unregisters (bytes "s") 1
    ∷ registers (bytes "t") 3
    ∷ registers (bytes "s") 2
    ∷ registers (bytes "s") 1
    ∷ []

abbrev violation : Text
violation = bytes "nats: Permissions Violation for Publish to \"s\""

violated : violated_subject violation ≡ some (bytes "s")
unfolding violated_subject bytes
violated = refl

handled : handle true violation (run events) ≡ 2 ∷ []
unfolding handle run register unregister waiters_of without_waiter violated_subject bytes lookup
    insert delete text_eq
handled = refl

handle-waits_example :
    (is_member 2 (handle true violation (run events)) ≡ waits events (bytes "s") 2)
    × (handle false violation (run events) ≡ [])
handle-waits_example = handle-waits events violation (bytes "s") 2 violated

run_events-Occupied : All Occupied (run events)
run_events-Occupied = run-Occupied events

-- A handler with a connection and the pool 0, which a lost connection and a drain without an end
-- meet.
abbrev running : Running
running = record {
  lifecycle = record new_lifecycle { connection = some 9; ready = true };
  pools = λ n. new_pool (record { max_connections = 1; idle_timeout = 1; max_lifetime = 1 });
}

abbrev pooled : List CompiledRoute
pooled = record (compiled_plain (bytes "a") (bytes "/a")) { pool = some 0 } ∷ []

abbrev cleaned : Running
cleaned = (cleanup pooled starts false running).0

cleanup_final_example :
    IsDown pooled (record cleaned { lifecycle = set_ready true cleaned.lifecycle })
cleanup_final_example =
    cleanup_final pooled starts false running
      (record cleaned { lifecycle = set_ready true cleaned.lifecycle }) refl
      (next here (reconnects cleaned))

cleanup-closes_example :
    ConnectionClosed starts 9 cleaned.lifecycle
    × (((cleanup pooled starts false running).1 ≡ none) ↔ DrainsWell starts false)
cleanup-closes_example = cleanup-closes pooled starts false running 9 refl refl refl

cleanup-late : (cleanup pooled starts false running).1 ≡ some drain_timed_out
unfolding cleanup begin_stopping drain_connection settle_drain
cleanup-late = refl
