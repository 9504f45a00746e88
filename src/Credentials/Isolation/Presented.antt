-- ===== src/Credentials/Isolation/Presented.antt =====
-- internal/credentials/credentials.go: what a request presents, and its pool key.
use nats_web_gateway.Base.{
  >>-eq-ok, >>=-eq-ok, List, List-cases, Option-cases, arith, inl, inr, ok, refl, reject_if, some,
  true, ℕ, ◌++◌, ◌∷◌, ◌≡◌, ◌≢◌, ◌⊎◌,
}
use nats_web_gateway.Base.Text.{Text}
use nats_web_gateway.Credentials.{
  Request, NkeyProof, NkeyJwtProof, JwtCallback, Certificate, SecurityContext, adapt_as,
  adapt_bearer, adapt_basic, adapt_nkey, adapt_nkey_jwt, adapt_tls, identify_jwt, bearer,
  basic_credentials, bounded_jwt, has_trusted_proof,
}
use nats_web_gateway.Credentials.Rotation.{
  Mechanism, bearer_token, user_password, nkey, nkey_jwt, tls, other, key_preimage, credential_key,
}
use nats_web_gateway.Credentials.Validity.{ambiguous}

-- What a request presents.
pub data Credential : Type 0 where
  bearer_of : Text → Credential
  basic_of : Text → Text → Credential
  public_key_of : Text → Credential
  jwt_of : Text → Credential
  leaf_of : Text → Credential

abbrev pub mechanism_of : Credential → Mechanism
mechanism_of (bearer_of t) = bearer_token
mechanism_of (basic_of u p) = user_password
mechanism_of (public_key_of k) = nkey
mechanism_of (jwt_of t) = nkey_jwt
mechanism_of (leaf_of der) = tls

-- The credential is in the request, as its mechanism reads it; `limit` bounds its bytes.
abbrev pub Presents : Request → ℕ → ℕ → Credential → Type 0
Presents r limit now (bearer_of t) = bearer r limit ≡ ok t
Presents r limit now (basic_of u p) = basic_credentials r limit ≡ ok (u, p)
Presents r limit now (public_key_of k) =
    (p : NkeyProof) × (r.nkey_proof ≡ some p) × (p.public_key ≡ k)
Presents r limit now (jwt_of t) =
    (p : NkeyJwtProof) × (jwt : JwtCallback) × (r.nkey_jwt_proof ≡ some p)
    × (p.jwt ≡ some jwt)
    × (bounded_jwt jwt limit now ≡ ok t)
Presents r limit now (leaf_of der) =
    (p : Certificate) × (rest : List Text) × (r.tls_certificate ≡ some p) × (p.chain ≡ der ∷ rest)

module _ (sha256 : Text → Text) where
  abbrev pub secret_of : Credential → Text
  secret_of (bearer_of t) = t
  secret_of (basic_of u p) = u ++ 0 ∷ p
  secret_of (public_key_of k) = k
  secret_of (jwt_of t) = t
  secret_of (leaf_of der) = sha256 der

  -- Two texts that differ and have one hash.
  abbrev pub Clash : Text → Text → Type 0
  Clash x y = (x ≢ y) × (sha256 x ≡ sha256 y)

  abbrev pub LeafClash : Credential → Credential → Type 0
  LeafClash (leaf_of x) (leaf_of y) = Clash x y
  LeafClash _ _ = ⊥

  -- The texts hashed for two credentials collide: those of the keys, or the two certificates.
  abbrev pub Collision : Credential → Credential → Type 0
  Collision d d' =
      Clash (key_preimage (mechanism_of d) (secret_of d))
        (key_preimage (mechanism_of d') (secret_of d'))
      ⊎ LeafClash d d'

  abbrev Keyed : Request → ℕ → ℕ → Mechanism → SecurityContext → Type 0
  Keyed r limit now m c =
      (d : Credential) × Presents r limit now d
      × (m ≡ mechanism_of d)
      × (c.key ≡ credential_key sha256 m (secret_of d))

  adapt_bearer-key :
      (r : Request) (limit now : ℕ) (c : SecurityContext)
      → adapt_bearer sha256 r limit ≡ ok c
      → Keyed r limit now bearer_token c
  unfolding adapt_bearer
  adapt_bearer-key r limit now c e =
      let (_, e') = >>-eq-ok (reject_if (has_trusted_proof r) ambiguous) _ e in
      let (t, found, e'') = >>=-eq-ok (bearer r limit) _ e' in
      (bearer_of t, found, refl, ground arith)

  adapt_basic-key :
      (r : Request) (limit now : ℕ) (c : SecurityContext)
      → adapt_basic sha256 r limit ≡ ok c
      → Keyed r limit now user_password c
  unfolding adapt_basic
  adapt_basic-key r limit now c e =
      let (_, e') = >>-eq-ok (reject_if (has_trusted_proof r) ambiguous) _ e in
      let ((u, p), found, e'') = >>=-eq-ok (basic_credentials r limit) _ e' in
      (basic_of u p, found, refl, ground arith)

  adapt_nkey-key :
      (r : Request) (limit now : ℕ) (c : SecurityContext)
      → adapt_nkey sha256 r limit ≡ ok c
      → Keyed r limit now nkey c
  unfolding adapt_nkey
  adapt_nkey-key r limit now c e = elim (Option-cases r.nkey_proof) [
    | inl none' ↦ absurd (ground arith)
    | inr (p, found) ↦ (public_key_of p.public_key, (p, found, refl), refl, ground arith)
  ]

  adapt_nkey_jwt-key :
      (r : Request) (limit now : ℕ) (c : SecurityContext)
      → adapt_nkey_jwt sha256 r limit true now ≡ ok c
      → Keyed r limit now nkey_jwt c
  unfolding adapt_nkey_jwt identify_jwt
  adapt_nkey_jwt-key r limit now c e = elim (Option-cases r.nkey_jwt_proof) [
    | inl none' ↦ absurd (ground arith)
    | inr (p, found) ↦ elim (Option-cases p.jwt) [
      | inl none' ↦ absurd (ground arith)
      | inr (jwt, callback) ↦ elim (Option-cases p.sign) [
        | inl none' ↦ absurd (ground arith)
        | inr (sign, signed) ↦
            let (t, bounded, made) =
              >>=-eq-ok (bounded_jwt jwt limit now) _
                (let h : identify_jwt sha256 jwt sign limit true now ≡ ok c = ground arith in h) in
            (jwt_of t, (p, jwt, found, callback, bounded), refl, ground arith)
      ]
    ]
  ]

  adapt_tls-key :
      (r : Request) (limit now : ℕ) (c : SecurityContext)
      → adapt_tls sha256 r ≡ ok c
      → Keyed r limit now tls c
  unfolding adapt_tls
  adapt_tls-key r limit now c e = elim (Option-cases r.tls_certificate) [
    | inl none' ↦ absurd (ground arith)
    | inr (p, found) ↦ elim (List-cases p.chain) [
      | inl empty ↦ absurd (ground arith)
      | inr (der, rest, chain) ↦ (leaf_of der, (p, rest, found, chain), refl, ground arith)
    ]
  ]

  pub adapt_as-key :
      (m : Mechanism) (r : Request) (limit now : ℕ) (c : SecurityContext)
      → adapt_as sha256 m r limit true now ≡ ok c
      → Keyed r limit now m c
  unfolding adapt_as
  adapt_as-key bearer_token r limit now c e = adapt_bearer-key r limit now c e
  adapt_as-key user_password r limit now c e = adapt_basic-key r limit now c e
  adapt_as-key nkey r limit now c e = adapt_nkey-key r limit now c e
  adapt_as-key nkey_jwt r limit now c e = adapt_nkey_jwt-key r limit now c e
  adapt_as-key tls r limit now c e = adapt_tls-key r limit now c e
  adapt_as-key (other t) r limit now c e = cc
