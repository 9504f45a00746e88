-- ===== src/Config/Limits.antt =====
-- config.go: the limits of streams, security contexts and the operator connection.
use nats_web_gateway.Base.{
  Bool, List, Option, Result, [], err, false, if◌then◌else◌, none, not, ok, refl, reject_if, some,
  true, wrap, ℕ, ◌&&◌, ◌+◌, ◌==◌, ◌>>◌, ◌||◌, ◌∷◌, ◌≡◌,
}
use nats_web_gateway.Base.Int.{ltb_ℤ, negsuc, not_positive}
use nats_web_gateway.Base.Text.{Text, bytes, has_prefix, is_empty, text_eq}
use nats_web_gateway.Credentials.{validate}
use nats_web_gateway.Credentials.Validity.{CredentialError}
use nats_web_gateway.Config.{CoreSse, DownstreamIdentity, SecurityContext, NatsConnection}
use nats_web_gateway.Config.Names.{canonical_header_key, forbidden_generated_identity_header}
use nats_web_gateway.Config.Template.{ascii_letter, name_char}

pub data LimitError : Type 0 where
  buffer_messages_not_positive buffer_bytes_not_positive heartbeat_not_positive : LimitError
  duration_not_positive heartbeat_not_below_duration connections_not_positive : LimitError
  idle_timeout_not_positive lifetime_not_positive value_bytes_not_positive : LimitError
  unsupported_source header_not_canonical header_reserved : LimitError
  no_urls credentials_apart password_not_placeholder connect_timeout_not_positive : LimitError
  reconnect_wait_not_positive reconnects_below_minus_one drain_timeout_not_positive : LimitError
  bad_url url_credentials : ℕ → LimitError
  credential : CredentialError → LimitError

-- `CoreSSE.validate`
unfoldable pub validate_core_sse : CoreSse → Result LimitError (Unit {0})
validate_core_sse stream = do
  reject_if (not_positive stream.buffer_messages) buffer_messages_not_positive
  reject_if (not_positive stream.buffer_bytes) buffer_bytes_not_positive
  reject_if (not_positive stream.heartbeat_interval) heartbeat_not_positive
  reject_if (not_positive stream.max_duration) duration_not_positive
  reject_if (not (ltb_ℤ stream.heartbeat_interval stream.max_duration)) heartbeat_not_below_duration
  reject_if (not_positive stream.max_connections) connections_not_positive

-- `httpguts.ValidHeaderFieldName` is the argument.
module _ (valid_header_field_name : Text → Bool) where
  -- `DownstreamIdentity.validate`
  unfoldable pub validate_downstream_identity : DownstreamIdentity → Result LimitError (Unit {0})
  validate_downstream_identity identity = do
    reject_if (not (text_eq identity.source (bytes "nats_user_id"))) unsupported_source
    reject_if
        (not (valid_header_field_name identity.header)
          || not (text_eq (canonical_header_key identity.header) identity.header))
        header_not_canonical
    reject_if (forbidden_generated_identity_header identity.header) header_reserved
    reject_if (not_positive identity.max_value_bytes) value_bytes_not_positive

  -- `SecurityContext.validate`
  unfoldable pub validate_security_context : SecurityContext → Result LimitError (Unit {0})
  validate_security_context security = do
    wrap credential (
        validate (record {
          mechanism = security.mechanism;
          max_credential_bytes = security.max_credential_bytes;
        }))
    reject_if (not_positive security.max_connections) connections_not_positive
    reject_if (not_positive security.idle_timeout) idle_timeout_not_positive
    reject_if (not_positive security.max_lifetime) lifetime_not_positive
    elim security.downstream_identity [
      | none ↦ ok tt
      | some identity ↦ validate_downstream_identity identity
    ]

-- What the program reads of a parsed URL.
pub record Url : Type 0 where
  pub scheme : Text
  pub host : Text
  pub has_user : Bool

abbrev known_scheme : Text → Bool
known_scheme s =
    text_eq s (bytes "nats")
    || text_eq s (bytes "tls")
    || text_eq s (bytes "ws")
    || text_eq s (bytes "wss")

env_name_rest : Text → Bool
env_name_rest [] = false
env_name_rest (c ∷ []) = c == b'}'
env_name_rest (c ∷ d ∷ s) = name_char c && env_name_rest (d ∷ s)

-- `secretPlaceholderPattern.MatchString`
unfoldable pub is_secret_placeholder : Text → Bool
unfolding env_name_rest has_prefix
is_secret_placeholder (a ∷ b ∷ c ∷ d ∷ e ∷ f ∷ s) =
    text_eq (a ∷ b ∷ c ∷ d ∷ e ∷ []) (bytes "{env.")
    && (ascii_letter f || f == b'_')
    && env_name_rest s
is_secret_placeholder _ = false

-- `url.Parse` is the argument, with `none` for its error.
module _ (parse_url : Text → Option Url) where
  -- The loop over the URLs, from the index of the first.
  validate_urls : ℕ → List Text → Result LimitError (Unit {0})
  validate_urls i [] = ok tt
  validate_urls i (raw ∷ urls) = elim (parse_url raw) [
    | none ↦ err (bad_url i)
    | some parsed ↦ do
      reject_if (is_empty parsed.host || not (known_scheme parsed.scheme)) (bad_url i)
      reject_if parsed.has_user (url_credentials i)
      validate_urls (i + 1) urls
  ]

  -- `NATSConnection.validate`
  unfoldable pub validate_nats_connection : NatsConnection → Result LimitError (Unit {0})
  unfolding validate_urls
  validate_nats_connection connection = do
    reject_if (is_empty connection.urls) no_urls
    validate_urls 0 connection.urls
    reject_if
        (if is_empty connection.username
          then not (is_empty connection.password)
          else is_empty connection.password)
        credentials_apart
    reject_if
        (not (is_empty connection.password) && not (is_secret_placeholder connection.password))
        password_not_placeholder
    reject_if (not_positive connection.connect_timeout) connect_timeout_not_positive
    reject_if (not_positive connection.reconnect_wait) reconnect_wait_not_positive
    reject_if (ltb_ℤ connection.max_reconnects (negsuc 0)) reconnects_below_minus_one
    reject_if (not_positive connection.drain_timeout) drain_timeout_not_positive

secret_tests :
    (is_secret_placeholder (bytes "{env.NATS_PASSWORD}") ≡ true)
    × (is_secret_placeholder (bytes "{env.}") ≡ false)
    × (is_secret_placeholder (bytes "secret") ≡ false)
unfolding is_secret_placeholder bytes text_eq
secret_tests = (refl, refl, refl)
