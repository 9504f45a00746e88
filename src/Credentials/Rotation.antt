-- ===== src/Credentials/Rotation.antt =====
-- internal/credentials/credentials.go: mechanisms, the one-way identity of a credential, and the
-- tracker of a callback-backed credential that may rotate.
pub mod Laws
use nats_web_gateway.Base.{
  Bool, List, Option, [], if◌then◌else◌, none, not, some, ℕ, ◌%◌, ◌++◌, ◌+◌, ◌==◌, ◌^◌, ◌∷◌,
}
use nats_web_gateway.Base.Text.{Text, bytes, text_eq}

-- A mechanism is a string in the source: the five that it names, or another one.
pub data Mechanism : Type 0 where
  bearer_token user_password nkey nkey_jwt tls : Mechanism
  other : Text → Mechanism

unfoldable pub mechanism_text : Mechanism → Text
unfolding bytes
mechanism_text bearer_token = bytes "bearer_token"
mechanism_text user_password = bytes "user_password"
mechanism_text nkey = bytes "nkey"
mechanism_text nkey_jwt = bytes "nkey_jwt"
mechanism_text tls = bytes "tls"
mechanism_text (other t) = t

-- What is hashed: the mechanism, a zero byte, the credential.
abbrev pub key_preimage : Mechanism → Text → Text
key_preimage m credential = mechanism_text m ++ 0 ∷ credential

pub record Tracker : Type 0 where
  pub key : Text
  pub generation : ℕ
  pub refresh : Option (ℕ → Option Text)
  pub mechanism : Mechanism

abbrev pub u64_mod : ℕ
u64_mod = 2 ^ 64

module _ (sha256 : Text → Text) where
  unfoldable pub credential_key : Mechanism → Text → Text
  credential_key m credential = sha256 (key_preimage m credential)

  -- `observe`, under the tracker's lock.
  unfoldable pub observe : Tracker → Text → Tracker
  observe t credential =
      let key = credential_key t.mechanism credential in
      if text_eq t.key key
      then t
      else record t { key = key; generation = (t.generation + 1) % u64_mod }

  -- A run of observations, the oldest first.
  unfoldable pub observe_all : Tracker → List Text → Tracker
  observe_all t [] = t
  observe_all t (credential ∷ later) = observe_all (observe t credential) later

-- `snapshot` and `ObservedIdentity` of a context whose key at adaptation is the first argument.
abbrev pub observed_identity : Text → Option Tracker → Text × ℕ
observed_identity key none = (key, 0)
observed_identity key (some t) = (t.key, t.generation)

-- `IdentityChanged`
unfoldable pub identity_changed : Text → Option Tracker → ℕ → Bool
identity_changed key identity generation = not ((observed_identity key identity).1 == generation)

module _ (sha256 : Text → Text) where
  -- `RefreshIdentity`: the tracker afterwards, and the identity or the callback's error.
  unfoldable pub refresh_identity : Text → Option Tracker → ℕ → Option Tracker × Option (Text × ℕ)
  refresh_identity key none now = (none, some (key, 0))
  refresh_identity key (some t) now = elim t.refresh [
    | none ↦ (some t, some (t.key, t.generation))
    | some refresh ↦ elim (refresh now) [
      | none ↦ (some t, none)
      | some credential ↦
          let t' = observe sha256 t credential in (some t', some (t'.key, t'.generation))
    ]
  ]
