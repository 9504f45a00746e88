-- ===== src/Config/RouteRules/Tests.antt =====
-- config.go: the rules on two small routes.
use nats_web_gateway.Base.{
  All, Bool, [], err, false, leb, none, ok, refl, some, true, ℕ, ◌&&◌, ◌∷◌, ◌≡◌, ◌≢◌,
}
use nats_web_gateway.Base.Int.{pos}
use nats_web_gateway.Base.Text.{
  Text, bytes, contains, contains_any, contains_text, cut, has_suffix, split, text_eq,
}
use nats_web_gateway.Base.Utf8.{runes}
use nats_web_gateway.Config.Template.{
  collect_names, has_placeholder, placeholder_at, scan_from, validate_path, validate_subject,
  validate_template,
}
use nats_web_gateway.Config.Names.{distinct_headers, distinct_methods, valid_name, validate_methods}
use nats_web_gateway.Routes.{segments}
use nats_web_gateway.Config.RouteRules.Overlap.{methods_overlap, paths_overlap, segments_overlap}
use nats_web_gateway.Config.RouteRules.Accepted.{Pairwise, validate_routes-Pairwise}
use nats_web_gateway.Config.RouteRules.{
  Checks, duplicate_name, overlapping, reject_overlap, validate_from, validate_parameter,
  validate_parameters, validate_representations, validate_response, validate_response_media_type,
  validate_route, validate_route_security, validate_routes, validate_statuses, validate_stream,
}
use nats_web_gateway.Config.{Route}

computing : Unit {0}
unfolding validate_routes validate_from reject_overlap validate_route validate_response
    validate_route_security validate_stream validate_statuses validate_representations
    validate_response_media_type validate_parameters validate_parameter valid_name validate_methods
    validate_path validate_subject validate_template methods_overlap paths_overlap segments_overlap
    segments split bytes text_eq contains runes contains_any has_suffix contains_text scan_from
    placeholder_at collect_names distinct_methods distinct_headers cut has_placeholder
computing = tt

abbrev letter : ℕ → Bool
letter c = leb 97 c && leb c 122

abbrev checks : Checks
checks = record {
  is_letter = letter;
  is_digit = λ c. false;
  valid_header_field_name = λ s. true;
  parse = λ s. none;
}

abbrev plain : Text → Text → Route
plain name path = record {
  name = name;
  path = path;
  methods = some (bytes "GET" ∷ []);
  profile = [];
  clear = [];
  extend = none;
  subject = bytes "s";
  parameters = none;
  request_headers = none;
  timeout = pos 1;
  max_request_body_bytes = pos 1;
  max_reply_bytes = pos 1;
  response = record {
    mode = bytes "json";
    headers = none;
    content_type = bytes "application/json";
    representations = none;
    negotiate_accept = false;
    service_error_statuses = none;
  };
  stream_mode = bytes "request_reply";
  core_sse = none;
  security_context = none;
}

abbrev first : Route
first = plain (bytes "a") (bytes "/a")

abbrev second : Route
second = plain (bytes "b") (bytes "/b")

validate_two : validate_routes checks (first ∷ second ∷ []) ≡ ok tt
unfolding computing
validate_two = refl

-- One name twice, and one path twice.
rejected_pairs :
    (validate_routes checks (first ∷ plain (bytes "a") (bytes "/c") ∷ []) ≡ err (duplicate_name 1))
    × (validate_routes checks (first ∷ plain (bytes "c") (bytes "/a") ∷ [])
        ≡ err (overlapping (bytes "a") (bytes "c")))
unfolding computing
rejected_pairs = (refl, refl)

validate_routes-Pairwise_example :
    (first ∷ second ∷ [] ≢ [])
    × All (λ r. validate_route checks r ≡ ok tt) (first ∷ second ∷ [])
    × Pairwise (first ∷ second ∷ [])
validate_routes-Pairwise_example =
    validate_routes-Pairwise checks (first ∷ second ∷ []) validate_two
