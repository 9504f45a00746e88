-- ===== src/Credentials.antt =====
-- internal/credentials/credentials.go: the adaptation of one HTTP credential presentation to NATS
-- client options, and the identity under which connections are shared.
pub mod Validity
pub mod Basic
pub mod Rotation
pub mod Exclusive
pub mod Isolation
pub mod RoundTrip
mod Tests
use nats_web_gateway.Base.{
  Bool, List, Option, Result, [], err, false, if◌then◌else◌, none, not, ok, reject_if, some, true,
  ℕ, ◌&&◌, ◌*◌, ◌++◌, ◌>>=◌, ◌>>◌, ◌||◌, ◌∷◌,
}
use nats_web_gateway.Base.Int.{is_negative, is_zero, to_nat, ℤ}
use nats_web_gateway.Base.Text.{Text, bytes, contains_byte, cut, equal_fold, is_empty}
use Validity.{
  CredentialError, missing, malformed, ambiguous, proof_unavailable, unsupported_mechanism,
  negative_limit, no_adapter, valid_text_credential, valid_basic_credential,
}
use Basic.{basic_auth}
use Rotation.{
  Mechanism, bearer_token, user_password, nkey, nkey_jwt, tls, other, Tracker, credential_key,
  observe,
}

-- A function value that the gateway only passes on is a number that names it.
abbrev pub Signer : Type 0
Signer = ℕ

-- What the JWT callback returns at its n-th call, `none` for an error.
abbrev pub JwtCallback : Type 0
JwtCallback = ℕ → Option Text

pub record NkeyProof : Type 0 where
  pub public_key : Text
  pub sign : Option Signer

pub record NkeyJwtProof : Type 0 where
  pub jwt : Option JwtCallback
  pub sign : Option Signer

-- `tls.Certificate`: the DER chain and the private key's handle.
pub record Certificate : Type 0 where
  pub chain : List Text
  pub private_key : Option ℕ

-- What the adapter reads of an `*http.Request`: the values of the Authorization header and the
-- proofs that a trusted transport attached to its context.
pub record Request : Type 0 where
  pub authorization : List Text
  pub nkey_proof : Option NkeyProof
  pub nkey_jwt_proof : Option NkeyJwtProof
  pub tls_certificate : Option Certificate

pub data NatsOption : Type 0 where
  token : Text → NatsOption
  user_info : Text → Text → NatsOption
  nkey_option : Text → Signer → NatsOption
  user_jwt : JwtCallback → Signer → NatsOption
  -- The same with `refreshingJWT`, whose results the tracker of the context observes.
  refreshing_jwt : JwtCallback → Signer → NatsOption
  secure : Certificate → NatsOption

pub record SecurityContext : Type 0 where
  pub key : Text
  pub options : List NatsOption
  pub identity : Option Tracker

pub record Adapter : Type 0 where
  pub mechanism : Mechanism
  pub max_credential_bytes : ℤ

abbrev pub default_max_credential_bytes : ℕ
default_max_credential_bytes = 8 * 1024

abbrev pub supported : Mechanism → Bool
supported (other t) = false
supported _ = true

-- The limit in force: zero selects the default.
abbrev pub limit_of : Adapter → ℕ
limit_of adapter =
    if is_zero adapter.max_credential_bytes
    then default_max_credential_bytes
    else to_nat adapter.max_credential_bytes

unfoldable pub validate : Adapter → Result CredentialError (Unit {0})
validate adapter = do
  reject_if (not (supported adapter.mechanism)) unsupported_mechanism
  reject_if (is_negative adapter.max_credential_bytes) negative_limit

abbrev pub is_some {ℓ} : {A : Type ℓ} → Option A → Bool
is_some none = false
is_some (some a) = true

-- `hasNKeyProof`, `hasNKeyJWTProof`, `hasTLSProof` and `hasTrustedProof`
abbrev pub has_nkey_proof : Request → Bool
has_nkey_proof r = is_some r.nkey_proof

abbrev pub has_nkey_jwt_proof : Request → Bool
has_nkey_jwt_proof r = is_some r.nkey_jwt_proof

abbrev pub has_tls_proof : Request → Bool
has_tls_proof r = is_some r.tls_certificate

abbrev pub has_trusted_proof : Request → Bool
has_trusted_proof r = has_nkey_proof r || has_nkey_jwt_proof r || has_tls_proof r

-- The checks that `bearerToken` and `basicCredentials` begin with.
abbrev pub single_authorization : List Text → Result CredentialError Text
single_authorization [] = err missing
single_authorization (v ∷ []) = if contains_byte b',' v then err ambiguous else ok v
single_authorization (v ∷ w ∷ vs) = err ambiguous

unfoldable pub bearer : Request → ℕ → Result CredentialError Text
bearer request limit = do
  value ← single_authorization request.authorization
  elim (cut value b' ') [
    | none ↦ err malformed
    | some (scheme, credential) ↦
        if equal_fold scheme (bytes "Bearer") && valid_text_credential credential limit
        then ok credential
        else err malformed
  ]

unfoldable pub basic_credentials : Request → ℕ → Result CredentialError (Text × Text)
basic_credentials request limit = do
  value ← single_authorization request.authorization
  elim (basic_auth value) [
    | none ↦ err malformed
    | some (username, password) ↦
        if valid_basic_credential username limit && valid_basic_credential password limit
        then ok (username, password)
        else err malformed
  ]

-- The closure `boundedJWT`, at one call of the callback.
unfoldable pub bounded_jwt : JwtCallback → ℕ → ℕ → Result CredentialError Text
bounded_jwt jwt limit now = elim (jwt now) [
  | none ↦ err proof_unavailable
  | some t ↦ if valid_text_credential t limit then ok t else err malformed
]

-- `boundedJWT` as the callback that a NATS option gets.
abbrev pub bounded_callback : JwtCallback → ℕ → JwtCallback
bounded_callback jwt limit now = elim (bounded_jwt jwt limit now) [ ok t ↦ some t | err e ↦ none ]

module _ (sha256 : Text → Text) where
  abbrev adapted_context : Mechanism → Text → NatsOption → SecurityContext
  adapted_context m credential option = record {
    key = credential_key sha256 m credential;
    options = option ∷ [];
    identity = none;
  }

  adapt_bearer : Request → ℕ → Result CredentialError SecurityContext
  adapt_bearer request limit = do
    reject_if (has_trusted_proof request) ambiguous
    t ← bearer request limit
    ok (adapted_context bearer_token t (token t))

  adapt_basic : Request → ℕ → Result CredentialError SecurityContext
  adapt_basic request limit = do
    reject_if (has_trusted_proof request) ambiguous
    (username, password) ← basic_credentials request limit
    ok (adapted_context user_password (username ++ 0 ∷ password) (user_info username password))

  adapt_nkey : Request → ℕ → Result CredentialError SecurityContext
  adapt_nkey request limit = do
    reject_if
        (not (is_empty request.authorization)
          || has_nkey_jwt_proof request
          || has_tls_proof request)
        ambiguous
    elim request.nkey_proof [
      | none ↦ err proof_unavailable
      | some proof ↦ elim proof.sign [
        | none ↦ err proof_unavailable
        | some sign ↦
            if valid_text_credential proof.public_key limit
            then ok (adapted_context nkey proof.public_key (nkey_option proof.public_key sign))
            else err proof_unavailable
      ]
    ]

  -- The adapted context of a JWT: without an identity for `Options`, with a tracker for `Adapt`.
  identify_jwt : JwtCallback → Signer → ℕ → Bool → ℕ → Result CredentialError SecurityContext
  identify_jwt jwt sign limit false now = ok (record {
    key = [];
    options = user_jwt (bounded_callback jwt limit) sign ∷ [];
    identity = none;
  })
  identify_jwt jwt sign limit true now = do
    t ← bounded_jwt jwt limit now
    let key = credential_key sha256 nkey_jwt t
    ok (record {
      key = key;
      options = refreshing_jwt (bounded_callback jwt limit) sign ∷ [];
      identity = some (record {
        key = key;
        generation = 0;
        refresh = some (bounded_callback jwt limit);
        mechanism = nkey_jwt;
      });
    })

  -- A call of `refreshingJWT`: the tracker afterwards, and the JWT or the error.
  unfoldable pub call_refreshing :
      JwtCallback → ℕ → Tracker → ℕ → Tracker × Result CredentialError Text
  call_refreshing jwt limit tracker now = elim (bounded_jwt jwt limit now) [
    | err e ↦ (tracker, err e)
    | ok refreshed ↦ (observe sha256 tracker refreshed, ok refreshed)
  ]

  adapt_nkey_jwt : Request → ℕ → Bool → ℕ → Result CredentialError SecurityContext
  adapt_nkey_jwt request limit identify now = do
    reject_if
        (not (is_empty request.authorization) || has_nkey_proof request || has_tls_proof request)
        ambiguous
    elim request.nkey_jwt_proof [
      | none ↦ err proof_unavailable
      | some proof ↦ elim proof.jwt [
        | none ↦ err proof_unavailable
        | some jwt ↦ elim proof.sign [
          | none ↦ err proof_unavailable
          | some sign ↦ identify_jwt jwt sign limit identify now
        ]
      ]
    ]

  adapt_tls : Request → Result CredentialError SecurityContext
  adapt_tls request = do
    reject_if
        (not (is_empty request.authorization)
          || has_nkey_proof request
          || has_nkey_jwt_proof request)
        ambiguous
    elim request.tls_certificate [
      | none ↦ err proof_unavailable
      | some certificate ↦ elim certificate.chain [
        | [] ↦ err proof_unavailable
        | leaf ∷ _ ↦ elim certificate.private_key [
          | none ↦ err proof_unavailable
          | some _ ↦ ok (adapted_context tls (sha256 leaf) (secure certificate))
        ]
      ]
    ]

  -- The switch of `adapt`; its default panics.
  pub adapt_as : Mechanism → Request → ℕ → Bool → ℕ → Result CredentialError SecurityContext
  adapt_as bearer_token request limit identify now = adapt_bearer request limit
  adapt_as user_password request limit identify now = adapt_basic request limit
  adapt_as nkey request limit identify now = adapt_nkey request limit
  adapt_as nkey_jwt request limit identify now = adapt_nkey_jwt request limit identify now
  adapt_as tls request limit identify now = adapt_tls request
  adapt_as (other t) request limit identify now = err no_adapter

  unfoldable pub adapt :
      Adapter → Option Request → Bool → ℕ → Result CredentialError SecurityContext
  unfolding adapt_as adapt_bearer adapt_basic adapt_nkey adapt_nkey_jwt adapt_tls identify_jwt
  adapt adapter request identify now = do
    validate adapter
    elim request [
      | none ↦ err missing
      | some r ↦ adapt_as adapter.mechanism r (limit_of adapter) identify now
    ]
