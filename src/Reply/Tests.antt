-- ===== src/Reply/Tests.antt =====
-- response.go and gateway.go: the check of small replies.
use nats_web_gateway.Base.{
  All, [], err, false, length, none, not, ok, refl, some, true, ◌==◌, ◌∷◌, ◌≡◌, ◌≢◌, ◌≤◌, ◌⊎◌,
}
use nats_web_gateway.Base.Int.{pos, to_nat, ℤ}
use nats_web_gateway.Base.Map.{lookup}
use nats_web_gateway.Base.Text.{Text, bytes, contains, equal_fold, is_empty, text_eq}
use nats_web_gateway.Reply.Checked.{
  Allowed, TypeAgrees, safe_response_headers-ok, validate_reply-ok,
}
use nats_web_gateway.Reply.{
  ReplyFunctions, check_content_type, code_header, error_header, malformed_json,
  malformed_service_error, other_content_type, safe_response_headers, service_error_code,
  service_status, set_header, validate_reply, values_of, write_gateway_error,
}
use nats_web_gateway.Config.{Response, elements}
use nats_web_gateway.Config.Names.{valid_service_error_code}
use nats_web_gateway.Config.RouteRules.{validate_statuses}
use nats_web_gateway.Translation.{Message, copy_headers}

computing : Unit {0}
unfolding values_of service_error_code service_status check_content_type validate_reply
    safe_response_headers set_header write_gateway_error bytes text_eq lookup equal_fold contains
    valid_service_error_code validate_statuses copy_headers
computing = tt

-- Header values are valid if they are not empty, JSON starts with a brace, and a content type has
-- no parameters.
abbrev functions : ReplyFunctions
functions = record {
  valid_header_field_value = λ s. not (is_empty s);
  json_valid = λ s. elim s [ [] ↦ false | c ∷ _ ↦ c == b'{' ];
  parse_media_type = λ s. record { media_type = s; parameters = []; failed = false };
}

abbrev response : Response
response = record {
  mode = bytes "json";
  headers = some (bytes "X-A" ∷ []);
  content_type = bytes "application/json";
  representations = none;
  negotiate_accept = false;
  service_error_statuses = some ((bytes "404", pos 404) ∷ []);
}

abbrev reply : Message
reply = record {
  subject = [];
  header = (bytes "X-A", bytes "1") ∷ (bytes "X-B", bytes "2") ∷ (bytes "X-A", bytes "3") ∷ [];
  payload = bytes "{}";
}

abbrev service_reply : Text → Message
service_reply code = record reply {
  header = (bytes "Nats-Service-Error", bytes "no") ∷ (bytes "Nats-Service-Error-Code", code) ∷ [];
}

abbrev representation : Text
representation = bytes "application/json"

plain_reply : validate_reply functions reply response representation ≡ ok (pos 200, [])
unfolding computing
plain_reply = refl

known_error :
    validate_reply functions (service_reply (bytes "404")) response representation
    ≡ ok (pos 404, bytes "service request failed")
unfolding computing
known_error = refl

other_replies :
    (validate_reply functions (service_reply (bytes "500")) response representation
      ≡ ok (pos 502, bytes "upstream service error"))
    × (validate_reply functions (service_reply (bytes "x")) response representation
        ≡ err malformed_service_error)
    × (validate_reply functions (record reply { payload = bytes "x" }) response representation
        ≡ err malformed_json)
    × (validate_reply functions
          (record reply { header = (bytes "Content-Type", bytes "text/plain") ∷ [] })
          response
          representation
        ≡ err other_content_type)
unfolding computing
other_replies = (refl, refl, refl, refl)

taken_headers :
    safe_response_headers functions reply.header (bytes "X-A" ∷ [])
    ≡ ok ((bytes "X-A", bytes "1") ∷ (bytes "X-A", bytes "3") ∷ [])
unfolding computing
taken_headers = refl

-- An error over a header that is set already.
error_answer :
    write_gateway_error
      ((bytes "Vary", bytes "Accept") ∷ (bytes "content-type", []) ∷ [])
      (pos 406)
      (bytes "no")
    ≡ record {
      status = pos 406;
      header =
          (bytes "Vary", bytes "Accept")
          ∷ (bytes "Content-Type", bytes "application/json")
          ∷ (bytes "Cache-Control", bytes "no-store")
          ∷ [];
      body = bytes "{\"error\":\"no\"}\n";
    }
unfolding computing
error_answer = refl

statuses_accepted : validate_statuses (elements response.service_error_statuses) ≡ ok tt
unfolding computing
statuses_accepted = refl

abbrev Answered : Message → ℤ → Text → Type 0
Answered answered status message =
    ((values_of error_header answered.header ≡ [])
      × (values_of code_header answered.header ≡ [])
      × (status ≡ pos 200)
      × (message ≡ [])
      × (response.mode ≡ bytes "json" → functions.json_valid answered.payload ≡ true)
      × TypeAgrees functions (values_of (bytes "Content-Type") answered.header) representation)
    ⊎ ((text : Text) × (code : Text) × (values_of error_header answered.header ≡ text ∷ [])
        × (values_of code_header answered.header ≡ code ∷ [])
        × (text ≢ [])
        × (length text ≤ 1024)
        × (functions.valid_header_field_value text ≡ true)
        × (valid_service_error_code code ≡ true)
        × ((status, message) ≡ service_status response code)
        × (400 ≤ to_nat status)
        × (to_nat status ≤ 599)
        × (message ≢ []))

validate_reply-ok_example :
    Answered reply (pos 200) []
    × Answered (service_reply (bytes "404")) (pos 404) (bytes "service request failed")
validate_reply-ok_example = (
  validate_reply-ok functions reply response representation (pos 200) [] statuses_accepted
      plain_reply,
  validate_reply-ok functions (service_reply (bytes "404")) response representation (pos 404)
      (bytes "service request failed") statuses_accepted known_error,
)

safe_response_headers-ok_example :
    ((bytes "X-A", bytes "1") ∷ (bytes "X-A", bytes "3") ∷ []
      ≡ copy_headers (λ name. values_of name reply.header) (bytes "X-A" ∷ []))
    × All
        (Allowed functions (bytes "X-A" ∷ []))
        ((bytes "X-A", bytes "1") ∷ (bytes "X-A", bytes "3") ∷ [])
safe_response_headers-ok_example =
    safe_response_headers-ok functions reply.header (bytes "X-A" ∷ [])
      ((bytes "X-A", bytes "1") ∷ (bytes "X-A", bytes "3") ∷ []) taken_headers
