-- ===== src/Routes/Unescape.antt =====
-- `url.PathUnescape`, which internal/routes/routes.go reads a request's segments with: a percent
-- sign and two hexadecimal digits stand for a byte.
use nats_web_gateway.Base.{
  Option, [], false, if◌then◌else◌, leb, none, refl, some, true, ℕ, ◌&&◌, ◌*◌, ◌+◌, ◌-◌, ◌==◌, ◌∷◌,
  ◌≡◌,
}
use nats_web_gateway.Base.Text.{Text, bytes}

abbrev hex_digit : ℕ → Option ℕ
hex_digit c =
    if leb b'0' c && leb c b'9'
    then some (c - b'0')
    else if leb b'a' c && leb c b'f'
    then some (c - b'a' + 10)
    else if leb b'A' c && leb c b'F'
    then some (c - b'A' + 10)
    else none

abbrev cons? : ℕ → Option Text → Option Text
cons? c none = none
cons? c (some s) = some (c ∷ s)

-- What is read so far of an escape: nothing, the percent sign, or the first digit's value too.
pub data Escape : Type 0 where
  outside : Escape
  percent : Escape
  half : ℕ → Escape

unescape_from : Escape → Text → Option Text
unescape_from outside [] = some []
unescape_from percent [] = none
unescape_from (half h) [] = none
unescape_from outside (c ∷ s) = elim (c == b'%') [
  | true ↦ unescape_from percent s
  | false ↦ cons? c (unescape_from outside s)
]
unescape_from percent (c ∷ s) = elim (hex_digit c) [
  | none ↦ none
  | some h ↦ unescape_from (half h) s
]
unescape_from (half h) (c ∷ s) = elim (hex_digit c) [
  | none ↦ none
  | some l ↦ cons? (h * 16 + l) (unescape_from outside s)
]

unfoldable pub path_unescape : Text → Option Text
unfolding unescape_from
path_unescape s = unescape_from outside s

path_unescape_tests :
    (path_unescape (bytes "a%2Fb") ≡ some (bytes "a/b"))
    × (path_unescape (bytes "a%2") ≡ none)
    × (path_unescape (bytes "a+%zz") ≡ none)
unfolding path_unescape bytes
path_unescape_tests = (refl, refl, refl)
