-- ===== src/Credentials/Validity.antt =====
-- internal/credentials/credentials.go: the errors, and the tests that a textual credential passes.
pub mod Laws
use nats_web_gateway.Base.{
  Bool, [], all, false, if◌then◌else◌, length, ltb, none, not, some, ℕ, ◌&&◌, ◌||◌, ◌∷◌,
}
use nats_web_gateway.Base.Text.{Text, is_empty, text_eq}
use nats_web_gateway.Base.Utf8.{is_control, is_space, runes}
use mathlib.Core.List.{reverse}

pub data CredentialError : Type 0 where
  unsupported_mechanism negative_limit missing malformed ambiguous proof_unavailable :
      CredentialError
  -- The panic of a validated mechanism without an adapter.
  no_adapter : CredentialError

abbrev drop_spaces : Text → Text
drop_spaces [] = []
drop_spaces (r ∷ rs) = if is_space r then drop_spaces rs else r ∷ rs

-- `strings.TrimSpace`, over runes.
abbrev pub trim_space : Text → Text
trim_space rs = reverse (drop_spaces (reverse (drop_spaces rs)))

unfoldable pub valid_basic_credential : Text → ℕ → Bool
valid_basic_credential value limit =
    if is_empty value || ltb limit (length value)
    then false
    else elim (runes value) [ none ↦ false | some rs ↦ all (λ r. not (is_control r)) rs ]

unfoldable pub valid_text_credential : Text → ℕ → Bool
valid_text_credential value limit =
    if is_empty value || ltb limit (length value) then false else elim (runes value) [
      | none ↦ false
      | some rs ↦ text_eq (trim_space rs) rs && all (λ r. not (is_control r || is_space r)) rs
    ]
