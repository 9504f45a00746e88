-- ===== src/Reply.antt =====
-- response.go and gateway.go: the check of a reply, the headers that are taken from it, and the
-- errors that the gateway answers.
pub mod Checked
mod Tests
use nats_web_gateway.Base.{
  Bool, List, Option, Result, [], err, if◌then◌else◌, length, ltb, none, not, ok, reject_if, some,
  ◌&&◌, ◌++◌, ◌>>=◌, ◌>>◌, ◌||◌, ◌∷◌,
}
use nats_web_gateway.Base.Int.{pos, ℤ}
use nats_web_gateway.Base.Map.{lookup}
use nats_web_gateway.Base.Text.{Text, bytes, equal_fold, is_empty, text_eq}
use nats_web_gateway.Config.{Response, elements}
use nats_web_gateway.Config.Names.{valid_service_error_code}
use nats_web_gateway.Translation.{Message}
use nats_web_gateway.Negotiation.Accept.{Media}

pub data ReplyError : Type 0 where
  malformed_service_error malformed_json many_content_types other_content_type : ReplyError
  invalid_header : Text → ReplyError

-- What the checks ask of the libraries: `httpguts.ValidHeaderFieldValue`, `json.Valid` and
-- `mime.ParseMediaType`.
pub record ReplyFunctions : Type 0 where
  pub valid_header_field_value : Text → Bool
  pub json_valid : Text → Bool
  pub parse_media_type : Text → Media

-- `Header.Values` of a reply's header.
unfoldable pub values_of : Text → List (Text × Text) → List Text
values_of name [] = []
values_of name ((key, value) ∷ entries) =
    let rest = values_of name entries in if text_eq key name then value ∷ rest else rest

abbrev pub error_header : Text
error_header = bytes "Nats-Service-Error"

abbrev pub code_header : Text
code_header = bytes "Nats-Service-Error-Code"

-- The status and the message for a service error's code.
unfoldable pub service_status : Response → Text → ℤ × Text
service_status response code = elim (lookup code (elements response.service_error_statuses)) [
  | none ↦ (pos 502, bytes "upstream service error")
  | some status ↦ (status, bytes "service request failed")
]

module _ (functions : ReplyFunctions) where
  -- One error text and one code, both well formed; the code is the result.
  unfoldable pub service_error_code : List Text → List Text → Option Text
  service_error_code (text ∷ []) (code ∷ []) =
      if is_empty text
        || ltb 1024 (length text)
        || not (functions.valid_header_field_value text)
        || not (valid_service_error_code code)
      then none
      else some code
  service_error_code texts codes = none

  unfoldable pub check_content_type : List Text → Text → Result ReplyError (Unit {0})
  check_content_type [] representation = ok tt
  check_content_type (value ∷ []) representation =
      let media = functions.parse_media_type value in
      reject_if
        (media.failed
          || not (is_empty media.parameters)
          || not (text_eq media.media_type representation))
        other_content_type
  check_content_type (value ∷ other ∷ values) representation = err many_content_types

  -- `validateReply`: the status, and the message of a service error.
  unfoldable pub validate_reply : Message → Response → Text → Result ReplyError (ℤ × Text)
  validate_reply reply response representation =
      let texts = values_of error_header reply.header in
      let codes = values_of code_header reply.header in
      if not (is_empty texts) || not (is_empty codes)
      then elim (service_error_code texts codes) [
        | none ↦ err malformed_service_error
        | some code ↦ ok (service_status response code)
      ]
      else do
        reject_if (text_eq response.mode (bytes "json") && not (functions.json_valid reply.payload))
            malformed_json
        check_content_type (values_of (bytes "Content-Type") reply.header) representation
        ok (pos 200, [])

  abbrev pub checked_values : Text → List Text → Result ReplyError (List (Text × Text))
  checked_values name [] = ok []
  checked_values name (value ∷ values) = do
    reject_if (not (functions.valid_header_field_value value)) (invalid_header name)
    entries ← checked_values name values
    ok ((name, value) ∷ entries)

  -- `safeResponseHeaders`
  unfoldable pub safe_response_headers :
      List (Text × Text) → List Text → Result ReplyError (List (Text × Text))
  safe_response_headers source [] = ok []
  safe_response_headers source (name ∷ allowlist) = do
    entries ← checked_values name (values_of name source)
    others ← safe_response_headers source allowlist
    ok (entries ++ others)

-- What is written to the client: the status, the headers in the order in which they are set, and
-- the body.
pub record Answer : Type 0 where
  pub status : ℤ
  pub header : List (Text × Text)
  pub body : Text

-- `Header.Set`: the names of a header are told apart without regard to case.
abbrev pub without_header : Text → List (Text × Text) → List (Text × Text)
without_header name [] = []
without_header name ((key, value) ∷ entries) =
    let rest = without_header name entries in
    if equal_fold key name then rest else (key, value) ∷ rest

unfoldable pub set_header : Text → Text → List (Text × Text) → List (Text × Text)
set_header name value entries = without_header name entries ++ (name, value) ∷ []

-- `writeGatewayError` over the headers that are set already, for a message without characters that
-- JSON escapes.
unfoldable pub write_gateway_error : List (Text × Text) → ℤ → Text → Answer
write_gateway_error header status message = record {
  status = status;
  header =
      set_header (bytes "Cache-Control") (bytes "no-store")
        (set_header (bytes "Content-Type") (bytes "application/json") header);
  body = bytes "{\"error\":\"" ++ message ++ bytes "\"}\n";
}
