-- ===== src/Credentials/RoundTrip.antt =====
-- internal/credentials/credentials.go: a bearer token from the header to the NATS option.
use nats_web_gateway.Base.{Bool, [], arith, false, none, ok, some, true, ℕ, ◌++◌, ◌∷◌, ◌≡◌}
use nats_web_gateway.Base.Int.{is_negative}
use nats_web_gateway.Base.Text.{Text, bytes, contains_byte, equal_fold}
use nats_web_gateway.Base.TextLaws.{Without, contains_byte-append, contains_byte_iff, cut-append}
use nats_web_gateway.Credentials.{
  credential_key, bearer_token, adapt_bearer, valid_text_credential, adapt_as, validate, bearer,
  Adapter, Request, adapt, limit_of, token,
}

-- A request with one Authorization value and no transport proof.
abbrev pub authorized : Text → Request
authorized value = record {
  authorization = value ∷ [];
  nkey_proof = none;
  nkey_jwt_proof = none;
  tls_certificate = none;
}

bearer-authorized :
    (scheme t : Text) (limit : ℕ)
    → Without b' ' scheme
    → Without b',' scheme
    → Without b',' t
    → equal_fold scheme (bytes "Bearer") ≡ true
    → valid_text_credential t limit ≡ true
    → bearer (authorized (scheme ++ b' ' ∷ t)) limit ≡ ok t
unfolding bearer
bearer-authorized scheme t limit spaceless h h' fold valid = ground (
  arith,
  contains_byte-append b',' scheme (b' ' ∷ t),
  (contains_byte_iff b',' scheme).1 h,
  no_comma,
  cut-append b' ' scheme t spaceless,
)
  where
    no_comma : contains_byte b',' (b' ' ∷ t) ≡ false
    no_comma = (contains_byte_iff b',' (b' ' ∷ t)).1 (omega arith, h')

module _ (sha256 : Text → Text) where
  -- A scheme that reads `Bearer` in any case, a space and a token without a comma that passes the
  -- test of credentials are adapted to the one option that presents this token, under the key of
  -- the mechanism and the token, at every limit that the token fits.
  pub adapt-bearer_round_trip :
      (a : Adapter) (scheme t : Text) (identify : Bool) (now : ℕ)
      → a.mechanism ≡ bearer_token
      → is_negative a.max_credential_bytes ≡ false
      → Without b' ' scheme
      → Without b',' scheme
      → Without b',' t
      → equal_fold scheme (bytes "Bearer") ≡ true
      → valid_text_credential t (limit_of a) ≡ true
      → adapt sha256 a (some (authorized (scheme ++ b' ' ∷ t))) identify now
        ≡ ok (record {
          key = credential_key sha256 bearer_token t;
          options = token t ∷ [];
          identity = none;
        })
  unfolding adapt validate adapt_as adapt_bearer
  adapt-bearer_round_trip a scheme t identify now m positive spaceless h h' fold valid =
      rw (m, positive) (rw (bearer-authorized scheme t (limit_of a) spaceless h h' fold valid))
