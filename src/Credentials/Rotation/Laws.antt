-- ===== src/Credentials/Rotation/Laws.antt =====
-- internal/credentials/credentials.go: the tracker over a run of refreshed credentials.
use nats_web_gateway.Base.{
  Bool-cases, List, [], ap, arith, false, if◌then◌else◌, inl, inr, refl, some, suc, true, ℕ, ◌%◌,
  ◌+◌, ◌<◌, ◌↔◌, ◌∙◌, ◌∷◌, ◌≡◌,
}
use nats_web_gateway.Base.Text.{Text, text_eq, text_eq_iff}
use nats_web_gateway.Credentials.Rotation.{
  observed_identity, Tracker, Mechanism, credential_key, observe, observe_all, identity_changed,
  u64_mod,
}

module _ (sha256 : Text → Text) where
  -- How often the key of the observed credential differs from the one before it.
  unfoldable pub rotations : Mechanism → Text → List Text → ℕ
  rotations m key [] = 0
  rotations m key (credential ∷ later) =
      let next = credential_key sha256 m credential in
      if text_eq key next then rotations m key later else suc (rotations m next later)

  -- The key of the credential observed last.
  abbrev pub last_key : Mechanism → Text → List Text → Text
  last_key m key [] = key
  last_key m key (credential ∷ later) = last_key m (credential_key sha256 m credential) later

  abbrev observed : Tracker → Text → Tracker
  observed t c = record t {
    key = credential_key sha256 t.mechanism c;
    generation = (t.generation + 1) % u64_mod;
  }

  observe_same :
      (t : Tracker) (c : Text)
      → text_eq t.key (credential_key sha256 t.mechanism c) ≡ true
      → observe sha256 t c ≡ t
  unfolding observe
  observe_same t c same = rw same

  observe_new :
      (t : Tracker) (c : Text)
      → text_eq t.key (credential_key sha256 t.mechanism c) ≡ false
      → observe sha256 t c ≡ record t {
        key = credential_key sha256 t.mechanism c;
        generation = (t.generation + 1) % u64_mod;
      }
  unfolding observe
  observe_new t c new = rw new

  observe_all-generation :
      (t : Tracker) (cs : List Text)
      → t.generation < u64_mod
      → (observe_all sha256 t cs).generation
        ≡ (t.generation + rotations t.mechanism t.key cs) % u64_mod
  unfolding observe_all rotations
  observe_all-generation t [] h = omega arith
  observe_all-generation t (c ∷ cs) h =
      elim (Bool-cases (text_eq t.key (credential_key sha256 t.mechanism c))) [
        | inl same ↦
            rw (observe_same t c same, same, observe_all, rotations) (observe_all-generation t cs h)
        | inr new ↦
            rw (observe_new t c new, new, observe_all, rotations)
              (omega (
                arith,
                observe_all-generation
                    (record t {
                      key = credential_key sha256 t.mechanism c;
                      generation = (t.generation + 1) % u64_mod;
                    })
                    cs (omega arith),
              ))
      ]

  observe_all-key :
      (t : Tracker) (cs : List Text)
      → ((observe_all sha256 t cs).key ≡ last_key t.mechanism t.key cs)
  unfolding observe_all
  observe_all-key t [] = refl
  observe_all-key t (c ∷ cs) =
      elim (Bool-cases (text_eq t.key (credential_key sha256 t.mechanism c))) [
        | inl same ↦
            rw (observe_same t c same, observe_all)
              (observe_all-key t cs
                ∙ ap (λ k. last_key t.mechanism k cs) ((text_eq_iff _ _).0 same))
        | inr new ↦ rw (observe_new t c new, observe_all) (observe_all-key (observed t c) cs)
      ]

  -- After any run of refreshed credentials, the identity is that of the last one, and the connection
  -- of the generation before the run counts as changed exactly if some credential of the run differs
  -- in its key from the one before it, as long as fewer than 2 ^ 64 do.
  pub identity_changed-observe_all :
      (t : Tracker) (cs : List Text) (key : Text)
      → t.generation < u64_mod
      → rotations t.mechanism t.key cs < u64_mod
      → ((observed_identity key (some (observe_all sha256 t cs))).0 ≡ last_key t.mechanism t.key cs)
        × ((identity_changed key (some (observe_all sha256 t cs)) t.generation ≡ false)
            ↔ (rotations t.mechanism t.key cs ≡ 0))
  unfolding identity_changed
  identity_changed-observe_all t cs key h few =
      (observe_all-key t cs, ground (arith, observe_all-generation t cs h))
