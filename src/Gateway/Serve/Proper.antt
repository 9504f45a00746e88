-- ===== src/Gateway/Serve/Proper.antt =====
-- gateway.go: the answers to errors, and what a proper answer is.
use nats_web_gateway.Base.{
  List, [], arith, if_intro, if◌then◌else◌, inl, inr, length, ok, refl, some, subst, true, ℕ, ◌++◌,
  ◌∷◌, ◌≡◌, ◌≤◌, ◌⊎◌,
}
use nats_web_gateway.Base.Int.{pos, to_nat, ℤ}
use nats_web_gateway.Base.Text.{Text, bytes, contains, text_eq}
use Prim.Native.String.{String}
use nats_web_gateway.Translation.{
  body_broken, body_cancelled, malformed_reply, reply_too_large, request_failed, request_too_large,
  Message, TranslationError,
}
use nats_web_gateway.Gateway.Failures.{
  bad_credential, cancelled, connection_closed, credential_failure, deadline_exceeded, disconnected,
  execute_answer, no_responders, other_failure, query_answer, reconnecting, request_answer,
  timed_out, Failure, Served, acquire_answer, answered, forbidden, gateway_error, panicked,
  service_unavailable, silent, unauthorized,
}
use nats_web_gateway.Gateway.Serve.{Upstream}
use nats_web_gateway.Reply.{
  Answer, safe_response_headers, set_header, validate_reply, write_gateway_error,
}
use nats_web_gateway.Config.{Route, elements}

-- The texts of the gateway's errors.
unfoldable pub error_texts : List Text
error_texts =
    bytes "invalid request parameters"
    ∷ bytes "service unavailable"
    ∷ bytes "no acceptable representation"
    ∷ bytes "unauthorized"
    ∷ bytes "forbidden"
    ∷ bytes "upstream request timed out"
    ∷ bytes "request body too large"
    ∷ bytes "upstream reply too large"
    ∷ bytes "malformed upstream reply"
    ∷ bytes "internal gateway error"
    ∷ bytes "upstream service error"
    ∷ bytes "service request failed"
    ∷ bytes "stream connection quota exceeded"
    ∷ bytes "stream setup timed out"
    ∷ bytes "streaming unsupported"
    ∷ []

-- An error of the gateway: one of its texts, with a status of an error, and no header but those of the
-- base, if any, and of `writeGatewayError`.
abbrev pub IsError : List (Text × Text) → Answer → Type 0
IsError base a =
    (header : List (Text × Text)) × (status : ℤ) × (message : Text) × (a
      ≡ write_gateway_error header status message)
    × ((header ≡ []) ⊎ (header ≡ base))
    × (contains error_texts message ≡ true)
    × (400 ≤ to_nat status)
    × (to_nat status ≤ 599)

-- The header that a negotiating route sets first.
abbrev pub vary : Route → List (Text × Text)
vary config = if config.response.negotiate_accept then (bytes "Vary", bytes "Accept") ∷ [] else []

module _ (env : Upstream) (config : Route) (subject : Text) (base : List (Text × Text))
    (Chosen : Text → Type 0) where
  -- A reply that a service gave to a message on the subject, within the bound, which the checks let
  -- through. The headers are those of the base, those taken from the reply by the allowlist, and the
  -- two that the gateway sets; the body is the payload.
  abbrev pub IsReply : Answer → Type 0
  IsReply a =
      (reply : Message) × (connection : ℕ) × (message : Message) × (representation : Text)
      × (entries : List (Text × Text)) × Chosen representation
      × (env.request connection message ≡ ok (some reply))
      × (message.subject ≡ subject)
      × (length reply.payload ≤ to_nat config.max_reply_bytes)
      × (validate_reply env.reply reply config.response representation ≡ ok (pos 200, []))
      × (safe_response_headers env.reply reply.header (elements config.response.headers)
          ≡ ok entries)
      × (a ≡ record {
        status = pos 200;
        header =
            set_header (bytes "X-Content-Type-Options") (bytes "nosniff")
              (set_header (bytes "Content-Type") representation (base ++ entries));
        body = reply.payload;
      })

  abbrev pub IsProper : Served → Type 0
  IsProper (answered a) = IsError base a ⊎ IsReply a
  IsProper silent = Unit {0}
  IsProper panicked = Unit {0}

  pub IsProper-subst :
      (served' : Served) {served : Served} → served' ≡ served → IsProper served' → IsProper served
  IsProper-subst served' same proper = subst IsProper same proper

  pub gateway_error-IsProper :
      (status : ℕ) (message : String)
      → contains error_texts (bytes message) ≡ true
      → 400 ≤ status
      → status ≤ 599
      → IsProper (gateway_error base status message)
  gateway_error-IsProper status message listed low high =
      inl (base, pos status, bytes message, refl, inr refl, listed, low, high)

  pub service_unavailable-IsProper : IsProper (service_unavailable base)
  unfolding error_texts contains text_eq bytes
  service_unavailable-IsProper =
      gateway_error-IsProper 503 "service unavailable" refl (omega arith) (omega arith)

  pub timeout-IsProper : IsProper (gateway_error base 504 "upstream request timed out")
  unfolding error_texts contains text_eq bytes
  timeout-IsProper =
      gateway_error-IsProper 504 "upstream request timed out" refl (omega arith) (omega arith)

  pub unauthorized-IsProper : IsProper (gateway_error base 401 "unauthorized")
  unfolding error_texts contains text_eq bytes
  unauthorized-IsProper = gateway_error-IsProper 401 "unauthorized" refl (omega arith) (omega arith)

  pub malformed-IsProper : IsProper (gateway_error base 502 "malformed upstream reply")
  unfolding error_texts contains text_eq bytes
  malformed-IsProper =
      gateway_error-IsProper 502 "malformed upstream reply" refl (omega arith) (omega arith)

  pub internal-IsProper : IsProper (gateway_error base 500 "internal gateway error")
  unfolding error_texts contains text_eq bytes
  internal-IsProper =
      gateway_error-IsProper 500 "internal gateway error" refl (omega arith) (omega arith)

  pub acquire_answer-IsProper : (f : Failure) → IsProper (acquire_answer base f)
  unfolding acquire_answer
  acquire_answer-IsProper cancelled = tt
  acquire_answer-IsProper deadline_exceeded = timeout-IsProper
  acquire_answer-IsProper timed_out = service_unavailable-IsProper
  acquire_answer-IsProper no_responders = service_unavailable-IsProper
  acquire_answer-IsProper forbidden = service_unavailable-IsProper
  acquire_answer-IsProper unauthorized = unauthorized-IsProper
  acquire_answer-IsProper connection_closed = service_unavailable-IsProper
  acquire_answer-IsProper disconnected = service_unavailable-IsProper
  acquire_answer-IsProper reconnecting = service_unavailable-IsProper
  acquire_answer-IsProper (bad_credential e) =
      if_intro IsProper (credential_failure e) _ _ (λ _. unauthorized-IsProper)
        (λ _. service_unavailable-IsProper)
  acquire_answer-IsProper other_failure = service_unavailable-IsProper

  pub query_answer-IsProper : (f : Failure) → IsProper (query_answer base f)
  unfolding query_answer
  query_answer-IsProper cancelled = tt
  query_answer-IsProper deadline_exceeded = timeout-IsProper
  query_answer-IsProper timed_out = timeout-IsProper
  query_answer-IsProper no_responders = service_unavailable-IsProper
  query_answer-IsProper forbidden = service_unavailable-IsProper
  query_answer-IsProper unauthorized = service_unavailable-IsProper
  query_answer-IsProper connection_closed = service_unavailable-IsProper
  query_answer-IsProper disconnected = service_unavailable-IsProper
  query_answer-IsProper reconnecting = service_unavailable-IsProper
  query_answer-IsProper (bad_credential e) = service_unavailable-IsProper
  query_answer-IsProper other_failure = service_unavailable-IsProper

  pub request_answer-IsProper : (f : Failure) → IsProper (request_answer base f)
  unfolding request_answer error_texts contains text_eq bytes
  request_answer-IsProper cancelled = tt
  request_answer-IsProper deadline_exceeded = timeout-IsProper
  request_answer-IsProper timed_out = timeout-IsProper
  request_answer-IsProper no_responders = service_unavailable-IsProper
  request_answer-IsProper forbidden =
      gateway_error-IsProper 403 "forbidden" refl (omega arith) (omega arith)
  request_answer-IsProper unauthorized = unauthorized-IsProper
  request_answer-IsProper connection_closed = service_unavailable-IsProper
  request_answer-IsProper disconnected = service_unavailable-IsProper
  request_answer-IsProper reconnecting = service_unavailable-IsProper
  request_answer-IsProper (bad_credential e) = internal-IsProper
  request_answer-IsProper other_failure = internal-IsProper

  pub execute_answer-IsProper :
      (e : TranslationError) (context body request : Failure)
      → IsProper (execute_answer base e context body request)
  unfolding error_texts contains text_eq bytes
  execute_answer-IsProper request_too_large context body request =
      gateway_error-IsProper 413 "request body too large" refl (omega arith) (omega arith)
  execute_answer-IsProper reply_too_large context body request =
      gateway_error-IsProper 502 "upstream reply too large" refl (omega arith) (omega arith)
  execute_answer-IsProper malformed_reply context body request = malformed-IsProper
  execute_answer-IsProper body_cancelled context body request = request_answer-IsProper context
  execute_answer-IsProper body_broken context body request = request_answer-IsProper body
  execute_answer-IsProper request_failed context body request = request_answer-IsProper request
