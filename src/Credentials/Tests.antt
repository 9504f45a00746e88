-- ===== src/Credentials/Tests.antt =====
-- internal/credentials/credentials.go: the theorems on concrete requests, under the identity in the
-- place of the hash.
use nats_web_gateway.Base.{
  All, List, [], arith, err, false, length, none, ok, refl, some, true, ◌↔◌, ◌∷◌, ◌≡◌, ◌≢◌, ◌≤◌,
  ◌⊎◌,
}
use nats_web_gateway.Base.Int.{pos}
use nats_web_gateway.Base.Text.{Text, bytes, contains_byte, cut, equal_fold, text_eq}
use nats_web_gateway.Base.Utf8.{is_control, is_space, runes}
use nats_web_gateway.Credentials.Validity.Laws.{valid_text_credential_iff}
use nats_web_gateway.Credentials.Validity.{
  ambiguous, no_adapter, valid_basic_credential, valid_text_credential,
}
use nats_web_gateway.Credentials.RoundTrip.{adapt-bearer_round_trip, authorized}
use nats_web_gateway.Credentials.Rotation.Laws.{identity_changed-observe_all, last_key, rotations}
use nats_web_gateway.Credentials.Rotation.{
  Tracker, bearer_token, credential_key, identity_changed, mechanism_text, nkey, nkey_jwt, observe,
  observe_all, observed_identity,
}
use nats_web_gateway.Credentials.Isolation.{ShownBy, adapt-key_separates}
use nats_web_gateway.Credentials.Isolation.Presented.{Collision, Credential}
use nats_web_gateway.Credentials.Exclusive.{OnlyPresents, adapt-OnlyPresents, adapt-ne-no_adapter}
use nats_web_gateway.Credentials.Basic.{basic_auth}
use nats_web_gateway.Credentials.{
  Adapter, Request, SecurityContext, adapt, basic_credentials, bearer, bounded_jwt, token, validate,
}

abbrev hash : Text → Text
hash s = s

-- A directive that names the functions to compute.
computing : Unit {0}
unfolding adapt validate bearer basic_credentials bounded_jwt valid_text_credential
    valid_basic_credential credential_key mechanism_text bytes cut runes text_eq basic_auth
    equal_fold observe observe_all identity_changed rotations contains_byte is_space is_control
computing = tt

abbrev bearer_adapter : Adapter
bearer_adapter = record { mechanism = bearer_token; max_credential_bytes = pos 0 }

abbrev nkey_adapter : Adapter
nkey_adapter = record { mechanism = nkey; max_credential_bytes = pos 64 }

abbrev shouted : Request
shouted = authorized (66 ∷ 69 ∷ 65 ∷ 82 ∷ 69 ∷ 82 ∷ 32 ∷ 97 ∷ 98 ∷ [])

abbrev plain : Request
plain = authorized (98 ∷ 101 ∷ 97 ∷ 114 ∷ 101 ∷ 114 ∷ 32 ∷ 97 ∷ 98 ∷ [])

abbrev context : SecurityContext
context = record {
  key = credential_key hash bearer_token (97 ∷ 98 ∷ []);
  options = token (97 ∷ 98 ∷ []) ∷ [];
  identity = none;
}

adapt-shouted : adapt hash bearer_adapter (some shouted) true 3 ≡ ok context
unfolding computing
adapt-shouted = refl

adapt-plain : adapt hash bearer_adapter (some plain) true 4 ≡ ok context
unfolding computing
adapt-plain = refl

-- What two requests present to the adapter of bearer tokens, if these are one credential or a clash.
abbrev Separated : Request → Request → Type 0
Separated r r' =
    (d : Credential) × (d' : Credential) × ShownBy hash bearer_adapter r 3 d
    × ShownBy hash bearer_adapter r' 4 d'
    × ((d ≡ d') ⊎ Collision hash d d')

adapt-key_separates_example : Separated shouted plain
adapt-key_separates_example =
    adapt-key_separates hash bearer_adapter bearer_adapter shouted plain 3 4 context context
      adapt-shouted adapt-plain refl

adapt-OnlyPresents_example : OnlyPresents bearer_token shouted
adapt-OnlyPresents_example =
    adapt-OnlyPresents hash bearer_adapter shouted true 3 context adapt-shouted

-- A request with a second presentation is rejected.
abbrev crowded : Request
crowded = record shouted { nkey_proof = some (record { public_key = 85 ∷ []; sign = some 1 }) }

adapt-crowded :
    (adapt hash bearer_adapter (some crowded) true 3 ≡ err ambiguous)
    × (adapt hash nkey_adapter (some crowded) true 3 ≡ err ambiguous)
unfolding computing
adapt-crowded = (refl, refl)

adapt-ne-no_adapter_example : adapt hash nkey_adapter (some crowded) true 3 ≢ err no_adapter
adapt-ne-no_adapter_example = adapt-ne-no_adapter hash nkey_adapter (some crowded) true 3

adapt-bearer_round_trip_example : adapt hash bearer_adapter (some shouted) true 3 ≡ ok context
unfolding computing
adapt-bearer_round_trip_example =
    adapt-bearer_round_trip hash bearer_adapter (66 ∷ 69 ∷ 65 ∷ 82 ∷ 69 ∷ 82 ∷ []) (97 ∷ 98 ∷ [])
      true 3 refl refl (omega arith) (omega arith) (omega arith) refl refl

abbrev spaceless : Text
spaceless = 97 ∷ 98 ∷ []

valid_text_credential_iff_example : (valid_text_credential spaceless 8 ≡ true) ↔ (
    (spaceless ≢ [])
    × (length spaceless ≤ 8)
    × ((rs : Text) × (runes spaceless ≡ some rs)
        × All (λ r. (is_control r ≡ false) × (is_space r ≡ false)) rs))
valid_text_credential_iff_example = valid_text_credential_iff spaceless 8

abbrev tracker : Tracker
tracker = record {
  key = credential_key hash nkey_jwt (97 ∷ []);
  generation = 5;
  refresh = none;
  mechanism = nkey_jwt;
}

-- The credential changes, and then changes back.
abbrev refreshed : List Text
refreshed = (97 ∷ []) ∷ (98 ∷ []) ∷ (97 ∷ []) ∷ []

rotations-refreshed : rotations hash nkey_jwt tracker.key refreshed ≡ 2
unfolding computing
rotations-refreshed = refl

identity_changed-observe_all_example :
    ((observed_identity [] (some (observe_all hash tracker refreshed))).0
      ≡ last_key hash nkey_jwt tracker.key refreshed)
    × ((identity_changed [] (some (observe_all hash tracker refreshed)) 5 ≡ false)
        ↔ (rotations hash nkey_jwt tracker.key refreshed ≡ 0))
identity_changed-observe_all_example =
    identity_changed-observe_all hash tracker refreshed [] (omega arith)
      (omega (arith, rotations-refreshed))
