-- ===== src/Config/RouteRules.antt =====
-- config.go: the rules for one route, and for the list of them.
pub mod Overlap
pub mod Accepted
pub mod Exclusive
mod Tests
use nats_web_gateway.Base.{
  Bool, List, Option, Result, [], all, err, false, if◌then◌else◌, ltb, map, none, not, ok,
  reject_if, some, wrap, ℕ, ◌&&◌, ◌++◌, ◌+◌, ◌==◌, ◌>>=◌, ◌>>◌, ◌^◌, ◌||◌, ◌∷◌,
}
use nats_web_gateway.Base.Int.{ltb_ℤ, not_positive, pos, ℤ}
use nats_web_gateway.Base.Map.{Map, lookup}
use nats_web_gateway.Base.Text.{
  Text, bytes, contains, contains_any, contains_byte, cut, has_prefix, has_suffix, is_empty,
  text_eq, to_lower,
}
use nats_web_gateway.Config.{Route, Response, SecurityContext, CoreSse, elements}
use nats_web_gateway.Routes.{Parameter}
use nats_web_gateway.Config.Limits.{LimitError, validate_core_sse, validate_security_context}
use nats_web_gateway.Config.Names.{
  NameError, valid_name, validate_methods, validate_header_list, valid_service_error_code,
}
use nats_web_gateway.Config.SafePattern.{PatternError, Regexp, validate_safe_parameter_pattern}
use nats_web_gateway.Config.Template.{
  TemplateError, validate_path, validate_subject, ascii_letter, name_char,
}
use Overlap.{methods_overlap, paths_overlap}

pub data RouteError : Type 0 where
  bad_name timeout_not_positive request_bytes_not_positive reply_bytes_not_positive : RouteError
  bad_stream_mode core_sse_missing core_sse_unexpected jetstream_not_implemented : RouteError
  identity_needs_request_reply identity_header_forwarded bad_response_mode : RouteError
  no_content_type bad_media_type not_json representations_missing : RouteError
  representations_unexpected duplicate_media_type bad_service_code bad_service_status : RouteError
  template : TemplateError → RouteError
  names : NameError → RouteError
  limits : LimitError → RouteError
  pattern : Text → PatternError → RouteError
  undeclared bad_source no_source_name bad_query_name bad_path_source query_for_path :
      Text → RouteError
  unanchored unused_parameter : Text → RouteError
  no_routes : RouteError
  in_route : ℕ → RouteError → RouteError
  duplicate_name : ℕ → RouteError
  overlapping : Text → Text → RouteError

-- `queryNamePattern.MatchString`
abbrev query_char : ℕ → Bool
query_char c = name_char c || c == b'.' || c == b'-'

unfoldable pub is_query_name : Text → Bool
is_query_name [] = false
is_query_name (c ∷ s) = ascii_letter c && all query_char s

-- `regexp/syntax.Parse` is the argument.
module _ (parse : Text → Option Regexp) where
  -- One round of the first loop of `validateParameters`.
  unfoldable pub validate_parameter : List Text → Text → Parameter → Result RouteError (Unit {0})
  validate_parameter path_params name parameter =
      let is_path = text_eq parameter.source (bytes "path") in
      let is_query = text_eq parameter.source (bytes "query") in
      do
        reject_if (not is_path && not is_query) (bad_source name)
        reject_if (is_empty parameter.name) (no_source_name name)
        reject_if (is_query && not (is_query_name parameter.name)) (bad_query_name name)
        reject_if
            (is_path && (not (contains path_params name) || not (text_eq parameter.name name)))
            (bad_path_source name)
        reject_if (is_query && contains path_params name) (query_for_path name)
        reject_if
            (is_empty parameter.pattern
              || not (has_prefix parameter.pattern (bytes "^"))
              || not (has_suffix parameter.pattern (bytes "$")))
            (unanchored name)
        wrap (pattern name) (validate_safe_parameter_pattern parse parameter.pattern)

  validate_used : Map Parameter → List Text → List Text → Result RouteError (Unit {0})
  validate_used parameters path_params [] = ok tt
  validate_used parameters path_params (name ∷ used) = elim (lookup name parameters) [
    | none ↦ err (undeclared name)
    | some parameter ↦ do
      validate_parameter path_params name parameter
      validate_used parameters path_params used
  ]

  reject_unused : List Text → Map Parameter → Result RouteError (Unit {0})
  reject_unused used [] = ok tt
  reject_unused used ((name, parameter) ∷ parameters) = do
    reject_if (not (contains used name)) (unused_parameter name)
    reject_unused used parameters

  unfoldable pub validate_parameters :
      Map Parameter → List Text → List Text → Result RouteError (Unit {0})
  unfolding validate_used reject_unused
  validate_parameters parameters path_params used = do
    validate_used parameters path_params used
    reject_unused used parameters

-- A token of package mime.
abbrev mime_token_char : ℕ → Bool
mime_token_char c = ltb 0x20 c && ltb c 0x7f && not (contains_byte c (bytes "()<>@,;:\\\"/[]?="))

-- A token, or two with a slash between them.
abbrev is_media_type : Text → Bool
is_media_type s = elim (cut s b'/') [
  | none ↦ not (is_empty s) && all mime_token_char s
  | some (major, minor) ↦
      not (is_empty major)
      && not (is_empty minor)
      && all mime_token_char major
      && all mime_token_char minor
]

-- `validateResponseMediaType`: `mime.ParseMediaType` gives back the whole value and no parameters
-- exactly if the value is in lower case and is a media type, without white space or semicolon.
unfoldable pub validate_response_media_type : Text → Result RouteError Text
unfolding contains_byte bytes
validate_response_media_type value = do
  reject_if (contains_any value (13 ∷ 10 ∷ [])) bad_media_type
  reject_if (not (text_eq (to_lower value) value) || not (is_media_type value)) bad_media_type
  ok value

abbrev is_json_type : Text → Bool
is_json_type t = text_eq t (bytes "application/json") || has_suffix t (bytes "+json")

-- The loop over the representations, with the media types seen.
unfoldable pub validate_representations :
    Bool → List Text → List Text → Result RouteError (Unit {0})
validate_representations json seen [] = ok tt
validate_representations json seen (representation ∷ rest) = do
  media_type ← validate_response_media_type representation
  reject_if (json && not (is_json_type media_type)) not_json
  reject_if (contains seen media_type) duplicate_media_type
  validate_representations json (media_type ∷ seen) rest

unfoldable pub validate_statuses : Map ℤ → Result RouteError (Unit {0})
validate_statuses [] = ok tt
validate_statuses ((code, status) ∷ statuses) = do
  reject_if (not (valid_service_error_code code)) bad_service_code
  reject_if (ltb_ℤ status (pos 400) || ltb_ℤ (pos 599) status) bad_service_status
  validate_statuses statuses

module _ (valid_header_field_name : Text → Bool) where
  -- The part of `Route.validate` on the response.
  unfoldable pub validate_response : Response → Result RouteError (Unit {0})
  validate_response response =
      let json = text_eq response.mode (bytes "json") in
      do
        reject_if (not json && not (text_eq response.mode (bytes "binary"))) bad_response_mode
        wrap names (validate_header_list valid_header_field_name (elements response.headers))
        reject_if (is_empty response.content_type) no_content_type
        content_type ← validate_response_media_type response.content_type
        reject_if (json && not (is_json_type content_type)) not_json
        reject_if (response.negotiate_accept && is_empty (elements response.representations))
            representations_missing
        reject_if
            (not response.negotiate_accept && not (is_empty (elements response.representations)))
            representations_unexpected
        validate_representations json (content_type ∷ []) (elements response.representations)
        validate_statuses (elements response.service_error_statuses)

  -- The part of `Route.validate` on the security context.
  unfoldable pub validate_route_security :
      Text → List Text → SecurityContext → Result RouteError (Unit {0})
  validate_route_security stream_mode request_headers security = do
    wrap limits (validate_security_context valid_header_field_name security)
    elim security.downstream_identity [
      | none ↦ ok tt
      | some identity ↦ do
        reject_if (not (text_eq stream_mode (bytes "request_reply"))) identity_needs_request_reply
        reject_if (contains request_headers identity.header) identity_header_forwarded
    ]

-- The part of `Route.validate` on the stream mode.
unfoldable pub validate_stream : Text → Option CoreSse → Result RouteError (Unit {0})
validate_stream stream_mode core_sse =
    let is_core = text_eq stream_mode (bytes "core_sse") in
    let is_jetstream = text_eq stream_mode (bytes "jetstream_sse") in
    do
      reject_if
          (not (text_eq stream_mode (bytes "request_reply")) && not is_core && not is_jetstream)
          bad_stream_mode
      elim core_sse [
        | none ↦ reject_if is_core core_sse_missing
        | some stream ↦
            if is_core then wrap limits (validate_core_sse stream) else err core_sse_unexpected
      ]
      reject_if is_jetstream jetstream_not_implemented

-- The third-party and library functions that a route's validation calls.
pub record Checks : Type 0 where
  pub is_letter : ℕ → Bool
  pub is_digit : ℕ → Bool
  pub valid_header_field_name : Text → Bool
  pub parse : Text → Option Regexp

module _ (checks : Checks) where
  -- `Route.validate`
  unfoldable pub validate_route : Route → Result RouteError (Unit {0})
  validate_route route = do
    reject_if (not (valid_name checks.is_letter checks.is_digit route.name)) bad_name
    path_params ← wrap template (validate_path route.path)
    wrap names (validate_methods checks.valid_header_field_name (elements route.methods))
    subject_params ← wrap template (validate_subject route.subject)
    validate_parameters checks.parse (elements route.parameters) path_params
        (path_params ++ subject_params)
    wrap names
        (validate_header_list checks.valid_header_field_name (elements route.request_headers))
    reject_if (not_positive route.timeout) timeout_not_positive
    reject_if (not_positive route.max_request_body_bytes) request_bytes_not_positive
    reject_if (not_positive route.max_reply_bytes) reply_bytes_not_positive
    validate_stream route.stream_mode route.core_sse
    elim route.security_context [
      | none ↦ ok tt
      | some security ↦
          validate_route_security checks.valid_header_field_name route.stream_mode
            (elements route.request_headers) security
    ]
    validate_response checks.valid_header_field_name route.response

  -- The inner loop of `validateRoutes`, over the routes before this one.
  unfoldable pub reject_overlap : Route → List Route → Result RouteError (Unit {0})
  reject_overlap route [] = ok tt
  reject_overlap route (earlier ∷ routes) = do
    reject_if
        (methods_overlap (elements route.methods) (elements earlier.methods)
          && paths_overlap route.path earlier.path)
        (overlapping earlier.name route.name)
    reject_overlap route routes

  -- The outer loop, with the routes that it has passed, in their order.
  unfoldable pub validate_from : ℕ → List Route → List Route → Result RouteError (Unit {0})
  validate_from i passed [] = ok tt
  validate_from i passed (route ∷ routes) = do
    wrap (in_route i) (validate_route route)
    reject_if (contains (map (λ r. r.name) passed) route.name) (duplicate_name i)
    reject_overlap route passed
    validate_from (i + 1) (passed ++ route ∷ []) routes

  unfoldable pub validate_routes : List Route → Result RouteError (Unit {0})
  validate_routes routes = do reject_if (is_empty routes) no_routes; validate_from 0 [] routes
