-- ===== src/Gateway/Provision.antt =====
-- gateway.go: `Validate` and `Provision`, which make the compiled routes and the operator connection
-- of a configuration.
use nats_web_gateway.Base.{
  Bool, List, Option, Result, [], err, false, if◌then◌else◌, length, none, ok, some, true, wrap, ℕ,
  ◌++◌, ◌>>=◌, ◌>>◌, ◌∷◌,
}
use nats_web_gateway.Base.Int.{ℤ}
use nats_web_gateway.Base.Map.{Map, insert, lookup}
use nats_web_gateway.Base.Text.{Text, bytes, is_empty}
use nats_web_gateway.Base.TextLaws.{join}
use nats_web_gateway.Routes.{Pattern, compile}
use nats_web_gateway.Profiles.{ProfileError, RouteProfile, resolved_routes}
use nats_web_gateway.Config.RouteRules.{Checks, RouteError, validate_routes}
use nats_web_gateway.Config.Limits.{LimitError, Url, validate_nats_connection}
use nats_web_gateway.Config.{CoreSse, Duration, NatsConnection, Route, SecurityContext, elements}
use nats_web_gateway.Routes

pub record Handler : Type 0 where
  pub nats : NatsConnection
  pub route_profiles : List RouteProfile
  pub routes : List Route

-- The options of the operator connection, and those of the pools' connections; the handlers of
-- connection events are in Gateway/Lifecycle.
pub data ConnectOption : Type 0 where
  client_name : Text → ConnectOption
  connect_timeout reconnect_wait drain_timeout : Duration → ConnectOption
  max_reconnects : ℤ → ConnectOption
  event_handlers : ConnectOption
  user_info : Text → Text → ConnectOption

-- What the handler asks of the libraries and of its environment: the checks of a configuration,
-- `url.Parse`, `regexp.Compile`, `json.Marshal` of the two parts that key what routes share,
-- `ReplaceOrErr` of a placeholder, and the NATS connector with the state of its connection.
pub record Surroundings : Type 0 where
  pub checks : Checks
  pub parse_url : Text → Option Url
  pub compile_pattern : Text → Option Pattern
  pub marshal_core_sse : CoreSse → Text
  pub marshal_security : SecurityContext → Text
  pub replace : Text → Option Text
  pub connect : Text → List ConnectOption → Option ℕ
  pub connected : ℕ → Bool

-- A pool and a quota of streams are numbers: their places in the order in which they were made.
pub record CompiledRoute : Type 0 where
  pub config : Route
  pub route : Routes.Route
  pub pool : Option ℕ
  pub streams : Option ℕ

-- The tables that the loop over the routes fills: by key, and what was made.
pub record Tables : Type 0 where
  pub security_pools : Map ℕ
  pub pools : List SecurityContext
  pub stream_quotas : Map ℕ
  pub quotas : List ℤ
  pub has_operator_route : Bool

pub data ProvisionError : Type 0 where
  bad_nats : LimitError → ProvisionError
  bad_profiles : ProfileError → ProvisionError
  bad_routes : RouteError → ProvisionError
  uncompiled : Text → ProvisionError
  unresolved_username unresolved_password connect_failed : ProvisionError

pub record Provisioned : Type 0 where
  pub compiled : List CompiledRoute
  pub tables : Tables
  pub connection : Option ℕ
  pub options : List ConnectOption
  pub ready : Bool

-- The number of a key, and whether it is new.
unfoldable pub share : Text → Map ℕ → (ℕ × Map ℕ) × Bool
share key table = elim (lookup key table) [
  | some n ↦ ((n, table), false)
  | none ↦ ((length table, insert key (length table) table), true)
]

abbrev pub no_tables : Tables
no_tables = record {
  security_pools = [];
  pools = [];
  stream_quotas = [];
  quotas = [];
  has_operator_route = false;
}

-- `strings.Join(urls, ",")`
abbrev pub joined_urls : NatsConnection → Text
joined_urls nats = join b',' nats.urls

abbrev pub operator_options : NatsConnection → List ConnectOption
operator_options nats =
    client_name (bytes "nats-web-gateway")
    ∷ connect_timeout nats.connect_timeout
    ∷ reconnect_wait nats.reconnect_wait
    ∷ max_reconnects nats.max_reconnects
    ∷ drain_timeout nats.drain_timeout
    ∷ event_handlers
    ∷ []

-- The base of the options of a pool.
abbrev pub pool_options : NatsConnection → List ConnectOption
pool_options nats =
    client_name (bytes "nats-web-gateway-protected")
    ∷ connect_timeout nats.connect_timeout
    ∷ reconnect_wait nats.reconnect_wait
    ∷ max_reconnects nats.max_reconnects
    ∷ drain_timeout nats.drain_timeout
    ∷ []

-- The user name and the password, empty without a user name.
abbrev pub resolve_user :
    (Text → Option Text) → NatsConnection → Result ProvisionError (Text × Text)
resolve_user replace nats = elim (is_empty nats.username) [
  | true ↦ ok ([], [])
  | false ↦ elim (replace nats.username) [
    | none ↦ err unresolved_username
    | some username ↦ elim (replace nats.password) [
      | none ↦ err unresolved_password
      | some password ↦ ok (username, password)
    ]
  ]
]

module _ (env : Surroundings) where
  -- The quota of a route's streams.
  unfoldable pub share_streams : Route → Tables → Tables × Option ℕ
  share_streams configured tables = elim configured.core_sse [
    | none ↦ (tables, none)
    | some sse ↦
        let ((n, quotas), new) = share (env.marshal_core_sse sse) tables.stream_quotas in
        (
          record tables {
            stream_quotas = quotas;
            quotas = if new then tables.quotas ++ sse.max_connections ∷ [] else tables.quotas;
          },
          some n,
        )
  ]

  -- The pool of a protected route; a route without one uses the operator connection.
  unfoldable pub share_pool : Route → Tables → Tables × Option ℕ
  share_pool configured tables = elim configured.security_context [
    | none ↦ (record tables { has_operator_route = true }, none)
    | some security ↦
        let ((n, pools), new) = share (env.marshal_security security) tables.security_pools in
        (
          record tables {
            security_pools = pools;
            pools = if new then tables.pools ++ security ∷ [] else tables.pools;
          },
          some n,
        )
  ]

  -- One round of the loop over the resolved routes.
  unfoldable pub compile_route : Tables → Route → Result ProvisionError (Tables × CompiledRoute)
  compile_route tables configured =
      elim (Routes.compile env.compile_pattern configured.path configured.subject
        (elements configured.methods) (elements configured.parameters)) [
          | none ↦ err (uncompiled configured.name)
          | some route ↦
              let (tables', streams) = share_streams configured tables in
              let (tables'', pool) = share_pool configured tables' in
              ok (
                tables'',
                record { config = configured; route = route; pool = pool; streams = streams },
              )
        ]

  unfoldable pub compile_routes :
      Tables → List Route → Result ProvisionError (Tables × List CompiledRoute)
  compile_routes tables [] = ok (tables, [])
  compile_routes tables (configured ∷ rest) = do
    (tables', candidate) ← compile_route tables configured
    (tables'', candidates) ← compile_routes tables' rest
    ok (tables'', candidate ∷ candidates)

  abbrev pub resolve : Handler → Result ProvisionError (List Route)
  resolve h =
      wrap bad_profiles
        (resolved_routes env.checks.is_letter env.checks.is_digit h.route_profiles h.routes)

  -- `Validate`
  unfoldable pub validate : Handler → Result ProvisionError (Unit {0})
  validate h = do
    wrap bad_nats (validate_nats_connection env.parse_url h.nats)
    routes ← resolve h
    wrap bad_routes (validate_routes env.checks routes)

  -- The end of `Provision`, which connects only if a route uses the operator connection.
  unfoldable pub connect_operator :
      Handler → Tables → List CompiledRoute → Result ProvisionError Provisioned
  connect_operator h tables compiled = elim tables.has_operator_route [
    | false ↦ ok (record {
      compiled = compiled;
      tables = tables;
      connection = none;
      options = [];
      ready = true;
    })
    | true ↦ do
      (username, password) ← resolve_user env.replace h.nats
      let options =
          operator_options h.nats
          ++ (if is_empty username then [] else user_info username password ∷ [])
      elim (env.connect (joined_urls h.nats) options) [
        | none ↦ err connect_failed
        | some connection ↦ ok (record {
          compiled = compiled;
          tables = tables;
          connection = some connection;
          options = options;
          ready = env.connected connection;
        })
      ]
  ]

  -- `Provision`
  unfoldable pub provision : Handler → Result ProvisionError Provisioned
  provision h = do
    validate h
    routes ← resolve h
    (tables, compiled) ← compile_routes no_tables routes
    connect_operator h tables compiled
