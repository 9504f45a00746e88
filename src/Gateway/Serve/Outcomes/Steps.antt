-- ===== src/Gateway/Serve/Outcomes/Steps.antt =====
-- gateway.go: what each step of serving a request can answer.
use nats_web_gateway.Base.{
  List, Option, Option-cases, Result-cases, [], ap, arith, err, inl, inr, length, none, ok, refl,
  some, true, ℕ, ◌++◌, ◌≡◌, ◌≢◌, ◌≤◌,
}
use nats_web_gateway.Base.Int.{pos, to_nat, ℤ}
use nats_web_gateway.Base.Text.{Text, bytes, contains, text_eq}
use nats_web_gateway.Gateway.Serve.Proper.{
  IsProper, error_texts, IsProper-subst, service_unavailable-IsProper, unauthorized-IsProper,
  malformed-IsProper, acquire_answer-IsProper, query_answer-IsProper, execute_answer-IsProper,
}
use nats_web_gateway.Gateway.Serve.{
  execute, header_values, Reader, forward, answer_reply, requester, Forwarded, HttpRequest,
  connection_of, identify, Upstream,
}
use nats_web_gateway.Gateway.Failures.{
  failure_of, execute_answer, other_failure, query_answer, Failure, Served, acquire_answer,
  answered, gateway_error, panicked, service_unavailable,
}
use nats_web_gateway.Translation.{Message}
use nats_web_gateway.Gateway.Provision.{CompiledRoute}
use nats_web_gateway.Gateway.Lifecycle.{Lifecycle}
use nats_web_gateway.Reply.{
  Answer, safe_response_headers, set_header, validate_reply, write_gateway_error,
}
use nats_web_gateway.Config.{Route, elements}
use nats_web_gateway.Reply.Checked.{validate_reply-ok, validate_reply-message}
use nats_web_gateway.Translation.Bounds.{execute_reply, execute-message}
use nats_web_gateway.Translation
use nats_web_gateway.Config.RouteRules.{validate_statuses}
use nats_web_gateway.Credentials.{adapt}
use nats_web_gateway.Identity.{
  invalid, query_failed, resolve_downstream_identity, unavailable, user_info_request,
}

module _ (env : Upstream) (config : Route) (subject : Text) (base : List (Text × Text))
    (Chosen : Text → Type 0) where
  pub connection_of-IsProper :
      (candidate : CompiledRoute) (l : Lifecycle) (r : HttpRequest) (served : Served)
      → connection_of env candidate l r base ≡ err served
      → IsProper env config subject base Chosen served
  unfolding connection_of
  connection_of-IsProper candidate l r served e = elim (Option-cases candidate.pool) [
    | inl operator ↦ elim (Option-cases l.connection) [
      | inl absent ↦ IsProper-subst env config subject base Chosen panicked (ground arith) tt
      | inr (connection, present) ↦ absurd (ground arith)
    ]
    | inr (n, own) ↦ elim (Option-cases candidate.config.security_context) [
      | inl absent ↦ IsProper-subst env config subject base Chosen panicked (ground arith) tt
      | inr (security, given) ↦
          elim (Result-cases (
            adapt env.sha256
              (record {
                mechanism = security.mechanism;
                max_credential_bytes = security.max_credential_bytes;
              })
              (some r.credentials) true env.now)) [
                | inr (bad, refused) ↦
                    IsProper-subst env config subject base Chosen
                      (gateway_error base 401 "unauthorized") (ground arith)
                      (unauthorized-IsProper env config subject base Chosen)
                | inl (adapted, accepted) ↦ elim (Result-cases (env.acquire n adapted)) [
                  | inl (connection, leased) ↦ absurd (ground arith)
                  | inr (f, failed) ↦
                      IsProper-subst env config subject base Chosen (acquire_answer base f)
                        (ground arith) (acquire_answer-IsProper env config subject base Chosen f)
                ]
              ]
    ]
  ]

  pub identify-IsProper :
      (connection : ℕ) (f : Forwarded) (served : Served)
      → identify env config base connection f ≡ err served
      → IsProper env config subject base Chosen served
  unfolding identify
  identify-IsProper connection f served e = elim (Option-cases config.security_context) [
    | inl absent ↦ absurd (ground arith)
    | inr (security, given) ↦ elim (Option-cases security.downstream_identity) [
      | inl absent ↦ absurd (ground arith)
      | inr (identity, wanted) ↦
          elim (Result-cases
            (resolve_downstream_identity env.unmarshal (requester env connection) identity)) [
              | inl (value, known) ↦ absurd (ground arith)
              | inr (query_failed, failed) ↦
                  let failure = failure_of (env.request connection user_info_request) in
                  IsProper-subst env config subject base Chosen (query_answer base failure)
                    (ground arith) (query_answer-IsProper env config subject base Chosen failure)
              | inr (unavailable, failed) ↦
                  IsProper-subst env config subject base Chosen (service_unavailable base)
                    (ground arith) (service_unavailable-IsProper env config subject base Chosen)
              | inr (invalid, failed) ↦
                  IsProper-subst env config subject base Chosen (service_unavailable base)
                    (ground arith) (service_unavailable-IsProper env config subject base Chosen)
            ]
    ]
  ]

  answer_reply-IsProper :
      (representation : Text) (reply : Message) (connection : ℕ) (message : Message)
      → validate_statuses (elements config.response.service_error_statuses) ≡ ok tt
      → Chosen representation
      → env.request connection message ≡ ok (some reply)
      → message.subject ≡ subject
      → length reply.payload ≤ to_nat config.max_reply_bytes
      → IsProper env config subject base Chosen (answer_reply env config base representation reply)
  unfolding answer_reply error_texts contains text_eq bytes
  answer_reply-IsProper representation reply connection message accepted picked sent on within =
      elim (Result-cases (validate_reply env.reply reply config.response representation)) [
        | inr (bad, refused) ↦
            IsProper-subst env config subject base Chosen
              (gateway_error base 502 "malformed upstream reply") (ground arith)
              (malformed-IsProper env config subject base Chosen)
        | inl ((status, text), checked) ↦
            elim (validate_reply-ok env.reply reply config.response representation status text
              accepted checked) [
                | inr (_, _, _, _, _, _, _, _, _, low, high, some') ↦
                    IsProper-subst env config subject base Chosen
                      (answered (write_gateway_error base status text)) (ground arith)
                      (inl (
                        base,
                        status,
                        text,
                        refl,
                        inr refl,
                        listed status text checked some',
                        low,
                        high,
                      ))
                | inl (_, _, good, empty, _, _) ↦
                    elim (Result-cases (
                      safe_response_headers env.reply reply.header
                        (elements config.response.headers))) [
                          | inr (bad, refused) ↦
                              IsProper-subst env config subject base Chosen
                                (gateway_error base 502 "malformed upstream reply") (ground arith)
                                (malformed-IsProper env config subject base Chosen)
                          | inl (entries, taken) ↦
                              IsProper-subst env config subject base Chosen
                                (answered (success entries)) (ground arith)
                                (inr (
                                  reply,
                                  connection,
                                  message,
                                  representation,
                                  entries,
                                  picked,
                                  sent,
                                  on,
                                  within,
                                  rw (good, empty) at checked,
                                  taken,
                                  refl,
                                ))
                        ]
              ]
      ]
    where
      success : List (Text × Text) → Answer
      success entries = record {
        status = pos 200;
        header =
            set_header (bytes "X-Content-Type-Options") (bytes "nosniff")
              (set_header (bytes "Content-Type") representation (base ++ entries));
        body = reply.payload;
      }

      listed :
          (status : ℤ) (text : Text)
          → validate_reply env.reply reply config.response representation ≡ ok (status, text)
          → text ≢ []
          → contains error_texts text ≡ true
      listed status text checked visible =
          elim (validate_reply-message env.reply reply config.response representation status text
            checked) [
              | inl empty ↦ absurd (visible empty)
              | inr (inl one) ↦ rw one refl
              | inr (inr other) ↦ rw other refl
            ]

  requested :
      (connection : ℕ) (message reply : Message)
      → requester env connection message ≡ some (some reply)
      → env.request connection message ≡ ok (some reply)
  requested connection message reply e = elim (Result-cases (env.request connection message)) [
    | inr (f, failed) ↦ absurd (ground arith)
    | inl (answer, given) ↦ ground arith
  ]

  pub forward-IsProper :
      (representation : Text) (body : Option Reader) (connection : ℕ) (f : Forwarded)
      → validate_statuses (elements config.response.service_error_statuses) ≡ ok tt
      → Chosen representation
      → IsProper env config subject base Chosen
          (forward env config base representation subject body connection f)
  unfolding forward
  forward-IsProper representation body connection f accepted picked =
      let request : Translation.Request = record {
        subject = subject;
        header_values = header_values f.header;
        body = body;
      } in
      let result =
        execute env.context (requester env connection) request f.names
          (to_nat config.max_request_body_bytes) (to_nat config.max_reply_bytes) in
      elim (Result-cases result.1) [
        | inr (bad, failed) ↦
            let failure : Failure = (elim result.0 [
              | none ↦ other_failure
              | some m ↦ failure_of (env.request connection m)
            ]) in
            IsProper-subst env config subject base Chosen
              (execute_answer base bad env.context_failure env.body_failure failure) (ground arith)
              (execute_answer-IsProper env config subject base Chosen bad env.context_failure
                env.body_failure failure)
        | inl (reply, replied) ↦
            let (message, sent, answered', within) =
              execute_reply env.context (requester env connection) request f.names
                (to_nat config.max_request_body_bytes) (to_nat config.max_reply_bytes) reply
                replied in
            let (payload, same) =
              execute-message env.context (requester env connection) request f.names
                (to_nat config.max_request_body_bytes) (to_nat config.max_reply_bytes) message
                sent in
            IsProper-subst env config subject base Chosen
              (answer_reply env config base representation reply) (ground arith)
              (answer_reply-IsProper representation reply connection message accepted picked
                (requested connection message reply answered')
                (ap (λ (m : Message). m.subject) same) within)
      ]
