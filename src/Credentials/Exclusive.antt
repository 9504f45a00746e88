-- ===== src/Credentials/Exclusive.antt =====
-- internal/credentials/credentials.go: what an adapted request presents.
use nats_web_gateway.Credentials.{
  supported, bounded_jwt, no_adapter, identify_jwt, has_trusted_proof, Adapter, Request, NkeyProof,
  NkeyJwtProof, Certificate, SecurityContext, adapt, adapt_as, adapt_bearer, adapt_basic,
  adapt_nkey, adapt_nkey_jwt, adapt_tls, bearer, basic_credentials, validate, limit_of,
  single_authorization,
}
use nats_web_gateway.Base.{
  >>-eq-ok, >>=-eq-ok, Bool, List, Option, Option-cases, [], arith, err, inl, inr, none, ok,
  reject_if, some, true, ℕ, ◌∷◌, ◌≡◌, ◌≢◌,
}
use nats_web_gateway.Base.Text.{Text}
use nats_web_gateway.Credentials.Rotation.{
  Mechanism, bearer_token, user_password, nkey, nkey_jwt, tls, other,
}
use nats_web_gateway.Credentials.Validity.{ambiguous}

-- One Authorization value and no proof from the transport.
abbrev AuthorizationOnly : Request → Type 0
AuthorizationOnly r =
    (v : Text) × (r.authorization ≡ v ∷ [])
    × (r.nkey_proof ≡ none)
    × (r.nkey_jwt_proof ≡ none)
    × (r.tls_certificate ≡ none)

-- The request carries what the mechanism reads, and nothing that another mechanism reads.
abbrev pub OnlyPresents : Mechanism → Request → Type 0
OnlyPresents bearer_token r = AuthorizationOnly r
OnlyPresents user_password r = AuthorizationOnly r
OnlyPresents nkey r =
    (p : NkeyProof) × (r.nkey_proof ≡ some p)
    × (r.authorization ≡ [])
    × (r.nkey_jwt_proof ≡ none)
    × (r.tls_certificate ≡ none)
OnlyPresents nkey_jwt r =
    (p : NkeyJwtProof) × (r.nkey_jwt_proof ≡ some p)
    × (r.authorization ≡ [])
    × (r.nkey_proof ≡ none)
    × (r.tls_certificate ≡ none)
OnlyPresents tls r =
    (p : Certificate) × (r.tls_certificate ≡ some p)
    × (r.authorization ≡ [])
    × (r.nkey_proof ≡ none)
    × (r.nkey_jwt_proof ≡ none)
OnlyPresents (other t) r = ⊥

single_authorization-eq-ok :
    (vs : List Text) (v : Text) → single_authorization vs ≡ ok v → vs ≡ v ∷ []
single_authorization-eq-ok [] v e = cc
single_authorization-eq-ok (w ∷ []) v e = ground arith
single_authorization-eq-ok (w ∷ x ∷ vs) v e = cc

bearer-one :
    (r : Request) (limit : ℕ) (t : Text)
    → bearer r limit ≡ ok t
    → (v : Text) × (r.authorization ≡ v ∷ [])
unfolding bearer
bearer-one r limit t e =
    let (v, one, _) = >>=-eq-ok (single_authorization r.authorization) _ e in
    (v, single_authorization-eq-ok r.authorization v one)

basic_credentials-one :
    (r : Request) (limit : ℕ) (p : Text × Text)
    → basic_credentials r limit ≡ ok p
    → (v : Text) × (r.authorization ≡ v ∷ [])
unfolding basic_credentials
basic_credentials-one r limit p e =
    let (v, one, _) = >>=-eq-ok (single_authorization r.authorization) _ e in
    (v, single_authorization-eq-ok r.authorization v one)

no_trusted_proof :
    (r : Request) {E : Type 0} (f : E)
    → reject_if (has_trusted_proof r) f ≡ ok tt
    → (r.nkey_proof ≡ none) × (r.nkey_jwt_proof ≡ none) × (r.tls_certificate ≡ none)
no_trusted_proof r f e = ground arith

module _ (sha256 : Text → Text) where
  adapt_nkey-OnlyPresents :
      (r : Request) (limit : ℕ) (c : SecurityContext)
      → adapt_nkey sha256 r limit ≡ ok c
      → OnlyPresents nkey r
  unfolding adapt_nkey
  adapt_nkey-OnlyPresents r limit c e = elim (Option-cases r.nkey_proof) [
    | inl none' ↦ absurd (ground arith)
    | inr (p, found) ↦ (p, found, ground arith, ground arith, ground arith)
  ]

  adapt_nkey_jwt-OnlyPresents :
      (r : Request) (limit : ℕ) (identify : Bool) (now : ℕ) (c : SecurityContext)
      → adapt_nkey_jwt sha256 r limit identify now ≡ ok c
      → OnlyPresents nkey_jwt r
  unfolding adapt_nkey_jwt
  adapt_nkey_jwt-OnlyPresents r limit identify now c e = elim (Option-cases r.nkey_jwt_proof) [
    | inl none' ↦ absurd (ground arith)
    | inr (p, found) ↦ (p, found, ground arith, ground arith, ground arith)
  ]

  adapt_tls-OnlyPresents :
      (r : Request) (c : SecurityContext) → adapt_tls sha256 r ≡ ok c → OnlyPresents tls r
  unfolding adapt_tls
  adapt_tls-OnlyPresents r c e = elim (Option-cases r.tls_certificate) [
    | inl none' ↦ absurd (ground arith)
    | inr (p, found) ↦ (p, found, ground arith, ground arith, ground arith)
  ]

  adapt_as-OnlyPresents :
      (m : Mechanism) (r : Request) (limit : ℕ) (identify : Bool) (now : ℕ) (c : SecurityContext)
      → adapt_as sha256 m r limit identify now ≡ ok c
      → OnlyPresents m r
  unfolding adapt_as adapt_bearer adapt_basic
  adapt_as-OnlyPresents bearer_token r limit identify now c e =
      let (quiet, e') = >>-eq-ok (reject_if (has_trusted_proof r) ambiguous) _ e in
      let (t, found, _) = >>=-eq-ok (bearer r limit) _ e' in
      let (v, one) = bearer-one r limit t found in
      let (a, b, d) = no_trusted_proof r ambiguous quiet in (v, one, a, b, d)
  adapt_as-OnlyPresents user_password r limit identify now c e =
      let (quiet, e') = >>-eq-ok (reject_if (has_trusted_proof r) ambiguous) _ e in
      let (t, found, _) = >>=-eq-ok (basic_credentials r limit) _ e' in
      let (v, one) = basic_credentials-one r limit t found in
      let (a, b, d) = no_trusted_proof r ambiguous quiet in (v, one, a, b, d)
  adapt_as-OnlyPresents nkey r limit identify now c e = adapt_nkey-OnlyPresents r limit c e
  adapt_as-OnlyPresents nkey_jwt r limit identify now c e =
      adapt_nkey_jwt-OnlyPresents r limit identify now c e
  adapt_as-OnlyPresents tls r limit identify now c e = adapt_tls-OnlyPresents r c e
  adapt_as-OnlyPresents (other t) r limit identify now c e = cc

  -- A request that is adapted presents the configured mechanism and no other: one Authorization
  -- value and no transport proof, or the mechanism's own proof, no Authorization value and none of
  -- the other two proofs.
  pub adapt-OnlyPresents :
      (a : Adapter) (r : Request) (identify : Bool) (now : ℕ) (c : SecurityContext)
      → adapt sha256 a (some r) identify now ≡ ok c
      → OnlyPresents a.mechanism r
  unfolding adapt
  adapt-OnlyPresents a r identify now c e =
      adapt_as-OnlyPresents a.mechanism r (limit_of a) identify now c (>>-eq-ok (validate a) _ e).1

  adapt_as-ne-no_adapter :
      (m : Mechanism) (r : Request) (limit : ℕ) (identify : Bool) (now : ℕ)
      → supported m ≡ true
      → adapt_as sha256 m r limit identify now ≢ err no_adapter
  unfolding adapt_as adapt_bearer adapt_basic adapt_nkey adapt_nkey_jwt adapt_tls identify_jwt
      bearer basic_credentials bounded_jwt
  adapt_as-ne-no_adapter bearer_token r limit identify now h e = ground arith
  adapt_as-ne-no_adapter user_password r limit identify now h e = ground arith
  adapt_as-ne-no_adapter nkey r limit identify now h e = ground arith
  adapt_as-ne-no_adapter nkey_jwt r limit identify now h e = ground arith
  adapt_as-ne-no_adapter tls r limit identify now h e = ground arith
  adapt_as-ne-no_adapter (other t) r limit identify now h e = cc

  -- The panic in the default case of the switch is never reached, whatever the configuration and
  -- the request.
  pub adapt-ne-no_adapter :
      (a : Adapter) (r : Option Request) (identify : Bool) (now : ℕ)
      → adapt sha256 a r identify now ≢ err no_adapter
  unfolding adapt validate
  adapt-ne-no_adapter a none identify now e = ground arith
  adapt-ne-no_adapter a (some r) identify now e =
      ground (arith, adapt_as-ne-no_adapter a.mechanism r (limit_of a) identify now)
