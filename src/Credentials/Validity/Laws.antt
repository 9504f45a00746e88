-- ===== src/Credentials/Validity/Laws.antt =====
-- internal/credentials/credentials.go: what `validTextCredential` accepts.
use nats_web_gateway.Base.{
  All, All-of_all, Option-cases, [], all, arith, false, inl, inr, length, not, refl, some, true, ℕ,
  ◌||◌, ◌↔◌, ◌∷◌, ◌≡◌, ◌≢◌, ◌≤◌,
}
use nats_web_gateway.Base.Text.{Text, text_eq_iff}
use nats_web_gateway.Base.Utf8.{is_control, is_space, runes}
use mathlib.Core.List.{reverse, reverse-reverse, reverse_aux}
use nats_web_gateway.Credentials.Validity.{valid_text_credential, trim_space, drop_spaces}

abbrev IsVisible : ℕ → Type 0
IsVisible r = (is_control r ≡ false) × (is_space r ≡ false)

drop_spaces_of_visible : (rs : Text) → All (λ r. is_space r ≡ false) rs → drop_spaces rs ≡ rs
drop_spaces_of_visible [] h = refl
drop_spaces_of_visible (r ∷ rs) (p, h) = rw p

All-reverse_aux :
    (rs ss : Text)
    → All (λ r. is_space r ≡ false) rs
    → All (λ r. is_space r ≡ false) ss
    → All (λ r. is_space r ≡ false) (reverse_aux rs ss)
All-reverse_aux [] ss h k = k
All-reverse_aux (r ∷ rs) ss (p, h) k = All-reverse_aux rs (r ∷ ss) h (p, k)

trim_space_of_visible : (rs : Text) → All (λ r. is_space r ≡ false) rs → trim_space rs ≡ rs
trim_space_of_visible rs h =
    rw (drop_spaces_of_visible rs h)
      (rw (drop_spaces_of_visible (reverse rs) (All-reverse_aux rs [] h tt)) (reverse-reverse rs))

IsVisible-of_all :
    (rs : Text) → all (λ r. not (is_control r || is_space r)) rs ≡ true → All IsVisible rs
IsVisible-of_all =
    All-of_all (λ r. not (is_control r || is_space r)) IsVisible (λ r h. ground arith)

all_of_visible :
    (rs : Text)
    → All IsVisible rs
    → (all (λ r. not (is_control r || is_space r)) rs ≡ true) × All (λ r. is_space r ≡ false) rs
all_of_visible [] h = (refl, tt)
all_of_visible (r ∷ rs) ((p, q), h) = let (a, b) = all_of_visible rs h in (rw (p, q) a, (q, b))

-- A textual credential is accepted exactly if it is not empty, has at most `limit` bytes, is valid
-- UTF-8 and has no control character and no white space anywhere. The source's test of the trimmed
-- text adds nothing.
pub valid_text_credential_iff :
    (value : Text) (limit : ℕ)
    → (valid_text_credential value limit ≡ true) ↔ (
        (value ≢ [])
        × (length value ≤ limit)
        × ((rs : Text) × (runes value ≡ some rs) × All IsVisible rs))
unfolding valid_text_credential
valid_text_credential_iff value limit = (to, from)
  where
    to :
        valid_text_credential value limit ≡ true
        → (value ≢ [])
          × (length value ≤ limit)
          × ((rs : Text) × (runes value ≡ some rs) × All IsVisible rs)
    to h = elim (Option-cases (runes value)) [
      | inl none' ↦ absurd (ground arith)
      | inr (rs, e) ↦ (ground arith, ground arith, (rs, e, IsVisible-of_all rs (ground arith)))
    ]

    from :
        (value ≢ [])
          × (length value ≤ limit)
          × ((rs : Text) × (runes value ≡ some rs) × All IsVisible rs)
        → valid_text_credential value limit ≡ true
    from (p, q, (rs, e, v)) =
        let (a, b) = all_of_visible rs v in
        ground (arith, text_eq_iff (trim_space rs) rs, trim_space_of_visible rs b, a)
