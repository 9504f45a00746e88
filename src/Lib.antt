-- ===== src/Lib.antt =====
-- The NATS web gateway: an HTTP handler (a Caddy module) that turns requests into NATS requests or
-- subscriptions by declared routes.
--
-- Parts, and the files that model them (paths from the repository's root):
--   internal/credentials/credentials.go  Credentials: `Adapter.adapt` with its five mechanisms, the
--     checks of textual and Basic credentials (Validity, Basic), and the identity of a credential
--     with its rotation tracker (Rotation). A Go error is a constructor of `CredentialError`; the
--     panic of the switch is one more, `no_adapter`. `Options` and `Adapt` are `adapt` with the
--     flag false and true.
--   internal/routes/routes.go  Routes: `Compile` and `Match`; `strings.ReplaceAll` is Replace,
--     `url.PathUnescape` is Unescape.
--   config.go  Config: the configuration's types, and its validation: templates (Template), names
--     and headers (Names), limits and URLs (Limits), patterns (SafePattern), routes and their
--     overlap (RouteRules). Caddyfile: `unmarshalRoute`, whose switch is a table of its cases
--     (Options), and `UnmarshalCaddyfile` (File), over the words that the dispenser gives.
--   security_context.go  Pool: the pool of connections. Each hold of the pool's mutex is one
--     function from pool to pool; Pool/Bound has the step relation of all of them.
--   core_sse.go  CoreSse: the events that `writeSSEData` and `writeSSEControl` write; Buffer is the
--     bounded buffer with its steps; Client is the standard's reading of an event stream; Loop is
--     the loop of `serveCoreSSE`, whose setup is Gateway/Stream.
--   profiles.go  Profiles: the resolution of route profiles; Clear is `clearRouteField`, Merge is
--     `mergeRoute` and `extendRoute`. The depth of inheritance is bounded by fuel, one more than the
--     profiles: a profile that is being resolved is not resolved again.
--   internal/translation/translation.go  Translation: `Execute` and `readBounded`. The message that
--     is sent is part of the result.
--
--   response.go  Negotiation: the choice of a representation (Header splits header values, Accept
--     parses the ranges, Selection chooses); Reply: `validateReply`, `safeResponseHeaders` of
--     gateway.go and `writeGatewayError`.
--   identity.go  Identity: `resolveDownstreamIdentity`.
--   gateway.go  Gateway: Provision is `Validate` and `Provision`; Lifecycle is the connection's
--     lifecycle, its events and `Cleanup`; Permissions is the permission tracker; Dispatch is the
--     loop of `ServeHTTP` that finds the route; Failures and Serve are the rest of `ServeHTTP` for a
--     request/reply route. An error of an upstream call is the kind that `errors.Is` tells.
--
-- Provision compiles the routes of a validated configuration and gives each its pool. A request is
-- matched against them, a representation is chosen, the adapter reads its credential, and the key of
-- the adapted context selects an entry of the pool; Translation sends the message on that
-- connection, and Reply checks the answer.
--
-- Texts are lists of bytes (Base/Text) and runes are numbers (Base/Utf8). A Go map is an
-- association list, whose order is the order in which a loop goes through it; a nil map or slice
-- is an option where the code tells it from an empty one. Limits and durations that the
-- configuration may set to any int are integers (Base/Int); counts are natural numbers, and the
-- generation of a rotation tracker wraps at 2 ^ 64. A clone of a value is the value, since the
-- model shares nothing. Loops are structural recursion, but for the inheritance of profiles.
-- A panic of the code's own, such as that on a nil pointer or pattern, is a value of the result: a
-- constructor, or the `none` of `matches_entire_value`.
--
-- Parameters of the model: SHA-256, a compiled regular expression (its `FindStringIndex`) and
-- `regexp.Compile`, `regexp/syntax.Parse`, `unicode.IsLetter` and `IsDigit`, `mime.ParseMediaType`,
-- `json.Valid`, `json.Marshal` and `json.Unmarshal`, the functions of `httpguts`, `url.Parse`, Caddy's
-- replacer, a JWT callback, the NATS connector and requester with their errors, and what the pool
-- asks of its surroundings (the time, the state of a connection, the observed identity).
--
-- Not modelled: the dispenser that splits a Caddyfile into words and blocks, which is third-party
-- code; the waiting of `acquire`; writes that fail; the commands, the examples and the build file.
pub mod Caddyfile
pub mod Base
pub mod Credentials
pub mod Routes
pub mod Translation
pub mod Config
pub mod Gateway
pub mod Negotiation
pub mod Reply
pub mod Identity
pub mod Pool
pub mod CoreSse
pub mod Profiles
