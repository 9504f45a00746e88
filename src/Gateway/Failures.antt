-- ===== src/Gateway/Failures.antt =====
-- gateway.go: the errors that `ServeHTTP` meets, and its answers to them.
use nats_web_gateway.Base.{Bool, List, Result, err, false, if◌then◌else◌, ok, true, ℕ}
use nats_web_gateway.Base.Int.{pos}
use nats_web_gateway.Base.Text.{Text, bytes}
use Prim.Native.String.{String}
use nats_web_gateway.Credentials.Validity.{
  CredentialError, missing, malformed, ambiguous, proof_unavailable,
}
use nats_web_gateway.Translation.{
  TranslationError, body_broken, body_cancelled, malformed_reply, reply_too_large, request_failed,
  request_too_large,
}
use nats_web_gateway.Reply.{Answer, write_gateway_error}

-- What `errors.Is` tells of an error; one error is of one kind here.
pub data Failure : Type 0 where
  cancelled deadline_exceeded timed_out no_responders forbidden unauthorized : Failure
  connection_closed disconnected reconnecting : Failure
  bad_credential : CredentialError → Failure
  other_failure : Failure

-- `ServeHTTP` writes nothing when the client has gone. It panics on a nil connection, or where
-- `selectRepresentation` does.
pub data Served : Type 0 where
  answered : Answer → Served
  silent : Served
  panicked : Served

abbrev pub gateway_error : List (Text × Text) → ℕ → String → Served
gateway_error header status message =
    answered (write_gateway_error header (pos status) (bytes message))

abbrev pub service_unavailable : List (Text × Text) → Served
service_unavailable header = gateway_error header 503 "service unavailable"

-- `credentialFailure`
unfoldable pub credential_failure : CredentialError → Bool
credential_failure missing = true
credential_failure malformed = true
credential_failure ambiguous = true
credential_failure proof_unavailable = true
credential_failure e = false

-- The answers to an error of `acquire`, of the identity and of the request.
unfoldable pub acquire_answer : List (Text × Text) → Failure → Served
acquire_answer header cancelled = silent
acquire_answer header deadline_exceeded = gateway_error header 504 "upstream request timed out"
acquire_answer header unauthorized = gateway_error header 401 "unauthorized"
acquire_answer header (bad_credential e) =
    if credential_failure e
    then gateway_error header 401 "unauthorized"
    else service_unavailable header
acquire_answer header f = service_unavailable header

unfoldable pub query_answer : List (Text × Text) → Failure → Served
query_answer header cancelled = silent
query_answer header deadline_exceeded = gateway_error header 504 "upstream request timed out"
query_answer header timed_out = gateway_error header 504 "upstream request timed out"
query_answer header f = service_unavailable header

unfoldable pub request_answer : List (Text × Text) → Failure → Served
request_answer header cancelled = silent
request_answer header deadline_exceeded = gateway_error header 504 "upstream request timed out"
request_answer header timed_out = gateway_error header 504 "upstream request timed out"
request_answer header no_responders = service_unavailable header
request_answer header forbidden = gateway_error header 403 "forbidden"
request_answer header unauthorized = gateway_error header 401 "unauthorized"
request_answer header connection_closed = service_unavailable header
request_answer header disconnected = service_unavailable header
request_answer header reconnecting = service_unavailable header
request_answer header (bad_credential e) = gateway_error header 500 "internal gateway error"
request_answer header other_failure = gateway_error header 500 "internal gateway error"

-- The failure of an error of `Execute` that is not its own.
abbrev pub execute_answer :
    List (Text × Text) → TranslationError → Failure → Failure → Failure → Served
execute_answer header request_too_large context body request =
    gateway_error header 413 "request body too large"
execute_answer header reply_too_large context body request =
    gateway_error header 502 "upstream reply too large"
execute_answer header malformed_reply context body request =
    gateway_error header 502 "malformed upstream reply"
execute_answer header body_cancelled context body request = request_answer header context
execute_answer header body_broken context body request = request_answer header body
execute_answer header request_failed context body request = request_answer header request

-- A failure stands for a call that has no failure.
abbrev pub failure_of {ℓ} : {A : Type ℓ} → Result Failure A → Failure
failure_of (ok a) = other_failure
failure_of (err f) = f
