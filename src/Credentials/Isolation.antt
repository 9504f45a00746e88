-- ===== src/Credentials/Isolation.antt =====
-- internal/credentials/credentials.go: the identity under which connections are pooled, and the
-- credentials of two requests that have one.
pub mod Presented
use nats_web_gateway.Base.{
  >>-eq-ok, >>=-eq-ok, Bool-cases, Option-cases, ap, arith, if◌then◌else◌, inl, inr, ok, refl, some,
  sym, true, ℕ, ◌∙◌, ◌≡◌, ◌⊎◌,
}
use nats_web_gateway.Base.Text.{Text, text_eq, text_eq_iff, text_ne}
use nats_web_gateway.Base.TextLaws.{Without, separator_injective}
use nats_web_gateway.Base.Utf8.{runes, runes-Without}
use nats_web_gateway.Credentials.Isolation.Presented.{
  Clash, Collision, Credential, LeafClash, Presents, adapt_as-key, basic_of, bearer_of, jwt_of,
  leaf_of, mechanism_of, public_key_of, secret_of,
}
use nats_web_gateway.Credentials.{
  basic_auth, Adapter, Request, SecurityContext, adapt, basic_credentials, validate, limit_of,
  single_authorization,
}
use nats_web_gateway.Credentials.Rotation.{
  Mechanism, bearer_token, user_password, nkey, nkey_jwt, tls, other, mechanism_text,
  credential_key,
}
use nats_web_gateway.Credentials.Validity.{valid_basic_credential}

no_zero_of_basic : (u : Text) (limit : ℕ) → valid_basic_credential u limit ≡ true → Without 0 u
unfolding valid_basic_credential
no_zero_of_basic u limit h = elim (Option-cases (runes u)) [
  | inl none' ↦ absurd (ground arith)
  | inr (rs, e) ↦ runes-Without u rs e (ground arith)
]

basic_of-Without :
    (r : Request) (limit : ℕ) (u p : Text) → basic_credentials r limit ≡ ok (u, p) → Without 0 u
unfolding basic_credentials
basic_of-Without r limit u p e =
    let (v, one, e') = >>=-eq-ok (single_authorization r.authorization) _ e in
    elim (Option-cases (basic_auth v)) [
      | inl none' ↦ absurd (ground arith)
      | inr ((u', p'), parsed) ↦ no_zero_of_basic u limit (ground arith)
    ]

mechanism_text-Without : (d : Credential) → Without 0 (mechanism_text (mechanism_of d))
unfolding mechanism_text
mechanism_text-Without (bearer_of t) = omega arith
mechanism_text-Without (basic_of u p) = omega arith
mechanism_text-Without (public_key_of k) = omega arith
mechanism_text-Without (jwt_of t) = omega arith
mechanism_text-Without (leaf_of der) = omega arith

-- The reading of a mechanism's name, which shows that the five names differ.
read_mechanism : Text → Mechanism
read_mechanism t =
    if text_eq t (mechanism_text bearer_token)
    then bearer_token
    else if text_eq t (mechanism_text user_password)
    then user_password
    else if text_eq t (mechanism_text nkey)
    then nkey
    else if text_eq t (mechanism_text nkey_jwt)
    then nkey_jwt
    else if text_eq t (mechanism_text tls)
    then tls
    else other t

read_mechanism_lem :
    (d : Credential) → read_mechanism (mechanism_text (mechanism_of d)) ≡ mechanism_of d
unfolding read_mechanism mechanism_text text_eq
read_mechanism_lem (bearer_of t) = refl
read_mechanism_lem (basic_of u p) = refl
read_mechanism_lem (public_key_of k) = refl
read_mechanism_lem (jwt_of t) = refl
read_mechanism_lem (leaf_of der) = refl

mechanism_text-injective :
    (d d' : Credential)
    → mechanism_text (mechanism_of d) ≡ mechanism_text (mechanism_of d')
    → mechanism_of d ≡ mechanism_of d'
mechanism_text-injective d d' e =
    sym (read_mechanism_lem d) ∙ ap read_mechanism e ∙ read_mechanism_lem d'

-- What a presented credential's text cannot hold.
abbrev WellFormed : Credential → Type 0
WellFormed (basic_of u p) = Without 0 u
WellFormed _ = Unit {0}

Presents-WellFormed :
    (r : Request) (limit now : ℕ) (d : Credential) → Presents r limit now d → WellFormed d
Presents-WellFormed r limit now (basic_of u p) h = basic_of-Without r limit u p h
Presents-WellFormed r limit now (bearer_of t) h = tt
Presents-WellFormed r limit now _ h = tt

module _ (sha256 : Text → Text) where
  equal_or_Clash : (x y : Text) → sha256 x ≡ sha256 y → (x ≡ y) ⊎ Clash sha256 x y
  equal_or_Clash x y e = elim (Bool-cases (text_eq x y)) [
    | inl same ↦ inl ((text_eq_iff x y).0 same)
    | inr differ ↦ inr (text_ne x y differ, e)
  ]

  secret_of-injective :
      (d d' : Credential)
      → mechanism_of d ≡ mechanism_of d'
      → WellFormed d
      → WellFormed d'
      → secret_of sha256 d ≡ secret_of sha256 d'
      → (d ≡ d') ⊎ LeafClash sha256 d d'
  secret_of-injective (bearer_of t) (bearer_of t') m h h' e = inl (ap bearer_of e)
  secret_of-injective (basic_of u p) (basic_of u' p') m h h' e =
      let (same_u, same_p) = separator_injective 0 u u' p p' h h' e in inl (ground arith)
  secret_of-injective (public_key_of t) (public_key_of t') m h h' e = inl (ap public_key_of e)
  secret_of-injective (jwt_of t) (jwt_of t') m h h' e = inl (ap jwt_of e)
  secret_of-injective (leaf_of t) (leaf_of t') m h h' e = elim (equal_or_Clash t t' e) [
    | inl same ↦ inl (ap leaf_of same)
    | inr c ↦ inr c
  ]
  secret_of-injective _ _ m h h' e = cc

  keys_separate :
      (d d' : Credential)
      → WellFormed d
      → WellFormed d'
      → credential_key sha256 (mechanism_of d) (secret_of sha256 d)
        ≡ credential_key sha256 (mechanism_of d') (secret_of sha256 d')
      → (d ≡ d') ⊎ Collision sha256 d d'
  unfolding credential_key
  keys_separate d d' h h' e = elim (equal_or_Clash _ _ e) [
    | inr c ↦ inr (inl c)
    | inl same ↦
        let (names, secrets) =
          separator_injective 0 _ _ _ _ (mechanism_text-Without d) (mechanism_text-Without d')
            same in
        elim (secret_of-injective d d' (mechanism_text-injective d d' names) h h' secrets) [
          | inl one ↦ inl one
          | inr c ↦ inr (inr c)
        ]
  ]

  abbrev pub ShownBy : Adapter → Request → ℕ → Credential → Type 0
  ShownBy a r now d = Presents r (limit_of a) now d × (a.mechanism ≡ mechanism_of d)

  -- The credentials that two adapted requests present: if the pool keys are equal, they are one
  -- credential of one mechanism, or the texts hashed for these two are a collision of the hash. This
  -- holds for any adapters, limits and moments, and for every function in the place of SHA-256.
  pub adapt-key_separates :
      (a a' : Adapter) (r r' : Request) (now now' : ℕ) (c c' : SecurityContext)
      → adapt sha256 a (some r) true now ≡ ok c
      → adapt sha256 a' (some r') true now' ≡ ok c'
      → c.key ≡ c'.key
      → (d : Credential) × (d' : Credential) × ShownBy a r now d
        × ShownBy a' r' now' d'
        × ((d ≡ d') ⊎ Collision sha256 d d')
  unfolding adapt
  adapt-key_separates a a' r r' now now' c c' e e' same =
      let (d, shown, m, key) =
        adapt_as-key sha256 a.mechanism r (limit_of a) now c (>>-eq-ok (validate a) _ e).1 in
      let (d', shown', m', key') =
        adapt_as-key sha256 a'.mechanism r' (limit_of a') now' c' (>>-eq-ok (validate a') _ e').1 in
      let one : c.key ≡ credential_key sha256 (mechanism_of d) (secret_of sha256 d) =
        key ∙ ap (λ m. credential_key sha256 m (secret_of sha256 d)) m in
      let two : c'.key ≡ credential_key sha256 (mechanism_of d') (secret_of sha256 d') =
        key' ∙ ap (λ m. credential_key sha256 m (secret_of sha256 d')) m' in
      (
        d,
        d',
        (shown, m),
        (shown', m'),
        keys_separate d d' (Presents-WellFormed r _ now d shown)
            (Presents-WellFormed r' _ now' d' shown') (sym one ∙ same ∙ two),
      )
