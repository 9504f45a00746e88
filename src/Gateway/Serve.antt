-- ===== src/Gateway/Serve.antt =====
-- gateway.go: `ServeHTTP` for a request/reply route.
pub mod Proper
pub mod Outcomes
pub mod Forwarding
pub mod Tests
use nats_web_gateway.Base.{
  Bool, List, Option, Result, [], err, if◌then◌else◌, none, not, ok, some, true, ℕ, ◌++◌, ◌∷◌,
}
use nats_web_gateway.Base.Int.{pos, to_nat}
use nats_web_gateway.Base.Map.{Map}
use nats_web_gateway.Base.Text.{Text, bytes, contains, equal_fold, is_empty}
use nats_web_gateway.Base.TextLaws.{join}
use nats_web_gateway.Gateway.Failures.{
  Failure, Served, acquire_answer, answered, execute_answer, failure_of, gateway_error,
  other_failure, panicked, query_answer, service_unavailable, unauthorized,
}
use nats_web_gateway.Config.{DownstreamIdentity, Route, SecurityContext, elements}
use nats_web_gateway.Credentials
use nats_web_gateway.Credentials.{adapt}
use nats_web_gateway.Credentials.Validity.{malformed}
use nats_web_gateway.Translation.{Message, Reader, execute}
use nats_web_gateway.Translation
use nats_web_gateway.Negotiation.Accept.{MediaFunctions}
use nats_web_gateway.Negotiation.Selection.{not_acceptable, panics, select_representation, selected}
use nats_web_gateway.Identity.{
  UserInfo, invalid, query_failed, resolve_downstream_identity, unavailable, user_info_request,
}
use nats_web_gateway.Reply.{
  ReplyFunctions, safe_response_headers, set_header, validate_reply, write_gateway_error,
}
use nats_web_gateway.Gateway.Provision.{CompiledRoute}
use nats_web_gateway.Gateway.Lifecycle.{Lifecycle, is_ready, is_serving}

-- The names of the header are told apart without regard to case.
pub record HttpRequest : Type 0 where
  pub method : Text
  pub escaped_path : Text
  pub query : Map (List Text)
  pub header : List (Text × Text)
  pub credentials : Credentials.Request
  pub body : Option Reader

-- What a request finds around it: the hash of the credentials, the loop of `acquire` on a pool, the
-- requests on a connection, the decoder of the user's information, the state of its context when
-- the body has been read, with its error and the body's own, and the functions on header values.
pub record Upstream : Type 0 where
  pub sha256 : Text → Text
  pub now : ℕ
  pub acquire : ℕ → Credentials.SecurityContext → Result Failure ℕ
  pub request : ℕ → Message → Result Failure (Option Message)
  pub unmarshal : Text → Option UserInfo
  pub context : Translation.Context
  pub context_failure : Failure
  pub body_failure : Failure
  pub media : MediaFunctions
  pub reply : ReplyFunctions

-- `Header.Values` of a request
unfoldable pub header_values : List (Text × Text) → Text → List Text
header_values [] name = []
header_values ((key, value) ∷ entries) name =
    let rest = header_values entries name in if equal_fold key name then value ∷ rest else rest

-- `strings.Join(values, ",")`
abbrev pub accept_of : HttpRequest → Text
accept_of r = join b',' (header_values r.header (bytes "Accept"))

-- Whether the route can be served now.
unfoldable pub is_available : CompiledRoute → Lifecycle → Bool
is_available candidate l = elim candidate.pool [ none ↦ is_ready l | some n ↦ is_serving l ]

-- The header that is forwarded, and the names that are.
pub record Forwarded : Type 0 where
  pub header : List (Text × Text)
  pub names : List Text

-- The header of the request, with the representation if the route negotiates.
unfoldable pub with_accept : Route → Text → HttpRequest → Forwarded
with_accept config representation r =
    let names = elements config.request_headers in
    if config.response.negotiate_accept
    then record {
      header = set_header (bytes "Accept") representation r.header;
      names = if contains names (bytes "Accept") then names else names ++ bytes "Accept" ∷ [];
    }
    else record { header = r.header; names = names }

-- `Del` and `Set` of the identity, whatever the client has sent under its name.
unfoldable pub with_identity : DownstreamIdentity → Text → Forwarded → Forwarded
with_identity config identity f = record {
  header = set_header config.header identity f.header;
  names = f.names ++ config.header ∷ [];
}

module _ (env : Upstream) where
  abbrev pub requester : ℕ → Translation.Requester
  requester connection message = elim (env.request connection message) [
    | err f ↦ none
    | ok reply ↦ some reply
  ]

  -- The answer to a reply.
  unfoldable pub answer_reply : Route → List (Text × Text) → Text → Message → Served
  answer_reply config header representation reply =
      elim (validate_reply env.reply reply config.response representation) [
        | err e ↦ gateway_error header 502 "malformed upstream reply"
        | ok (status, message) ↦
            if not (is_empty message)
            then answered (write_gateway_error header status message)
            else elim (safe_response_headers env.reply reply.header
                (elements config.response.headers)) [
                  | err e ↦ gateway_error header 502 "malformed upstream reply"
                  | ok entries ↦ answered (record {
                    status = pos 200;
                    header =
                        set_header (bytes "X-Content-Type-Options") (bytes "nosniff")
                          (set_header (bytes "Content-Type") representation (header ++ entries));
                    body = reply.payload;
                  })
                ]
      ]

  -- The request itself, on a connection.
  unfoldable pub forward :
      Route → List (Text × Text) → Text → Text → Option Reader → ℕ → Forwarded → Served
  forward config header representation subject body connection f =
      let (message, result) =
        execute env.context (requester connection)
          (record { subject = subject; header_values = header_values f.header; body = body })
          f.names (to_nat config.max_request_body_bytes) (to_nat config.max_reply_bytes) in
      elim result [
        | ok reply ↦ answer_reply config header representation reply
        | err e ↦
            execute_answer header e env.context_failure env.body_failure (elim message [
              | none ↦ other_failure
              | some m ↦ failure_of (env.request connection m)
            ])
      ]

  -- The identity, if the route has one.
  unfoldable pub identify : Route → List (Text × Text) → ℕ → Forwarded → Result Served Forwarded
  identify config header connection f = elim config.security_context [
    | none ↦ ok f
    | some security ↦ elim security.downstream_identity [
      | none ↦ ok f
      | some identity_config ↦
          elim (resolve_downstream_identity env.unmarshal (requester connection) identity_config) [
            | ok identity ↦ ok (with_identity identity_config identity f)
            | err query_failed ↦
                err (query_answer header (failure_of (env.request connection user_info_request)))
            | err unavailable ↦ err (service_unavailable header)
            | err invalid ↦ err (service_unavailable header)
          ]
    ]
  ]

  -- The connection of the route: the operator's, or one of the route's pool.
  unfoldable pub connection_of :
      CompiledRoute → Lifecycle → HttpRequest → List (Text × Text) → Result Served ℕ
  connection_of candidate l r header = elim candidate.pool [
    | none ↦ elim l.connection [ none ↦ err panicked | some connection ↦ ok connection ]
    | some n ↦ elim candidate.config.security_context [
      | none ↦ err panicked
      | some security ↦
          elim (adapt env.sha256
            (record {
              mechanism = security.mechanism;
              max_credential_bytes = security.max_credential_bytes;
            })
            (some r.credentials) true env.now) [
              | err e ↦ err (gateway_error header 401 "unauthorized")
              | ok adapted ↦ elim (env.acquire n adapted) [
                | err f ↦ err (acquire_answer header f)
                | ok connection ↦ ok connection
              ]
            ]
    ]
  ]

  -- The rest of `ServeHTTP`, for the representation that is chosen.
  unfoldable pub serve_as :
      CompiledRoute → Lifecycle → HttpRequest → List (Text × Text) → Text → Text → Served
  serve_as candidate l r header subject representation = elim (connection_of candidate l r header) [
    | err served ↦ served
    | ok connection ↦
        elim (identify candidate.config header connection
          (with_accept candidate.config representation r)) [
            | err served ↦ served
            | ok f ↦ forward candidate.config header representation subject r.body connection f
          ]
  ]

  -- `ServeHTTP` for a route that is not a stream.
  unfoldable pub serve_route : CompiledRoute → Lifecycle → HttpRequest → Text → Served
  serve_route candidate l r subject =
      if not (is_available candidate l)
      then service_unavailable []
      else let header =
          if candidate.config.response.negotiate_accept
          then (bytes "Vary", bytes "Accept") ∷ []
          else [] in
        elim (select_representation env.media (accept_of r) candidate.config.response) [
          | panics ↦ panicked
          | not_acceptable ↦ gateway_error header 406 "no acceptable representation"
          | selected representation ↦ serve_as candidate l r header subject representation
        ]
