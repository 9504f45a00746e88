-- ===== src/Credentials/Basic.antt =====
-- `(*http.Request).BasicAuth`, which internal/credentials/credentials.go calls: the scheme, the
-- standard base64 alphabet with padding, and the split at the first colon.
use nats_web_gateway.Base.{
  Option, [], false, if◌then◌else◌, leb, none, refl, some, true, ℕ, ◌%◌, ◌&&◌, ◌*◌, ◌++◌, ◌+◌, ◌-◌,
  ◌/◌, ◌==◌, ◌||◌, ◌∷◌, ◌≡◌,
}
use nats_web_gateway.Base.Text.{Text, bytes, cut, lower}

-- The six bits of a letter of the alphabet.
abbrev sextet : ℕ → Option ℕ
sextet c =
    if leb b'A' c && leb c b'Z'
    then some (c - b'A')
    else if leb b'a' c && leb c b'z'
    then some (c - b'a' + 26)
    else if leb b'0' c && leb c b'9'
    then some (c - b'0' + 52)
    else if c == b'+'
    then some 62
    else if c == b'/'
    then some 63
    else none

-- The decoder skips line breaks.
abbrev skip_breaks : Text → Text
skip_breaks [] = []
skip_breaks (c ∷ s) = if c == 10 || c == 13 then skip_breaks s else c ∷ skip_breaks s

-- The last quantum, which may be padded: one byte, two bytes or three.
abbrev last_quantum : ℕ → ℕ → ℕ → ℕ → Option Text
last_quantum a b c d = elim (sextet a) [
  | none ↦ none
  | some w ↦ elim (sextet b) [
    | none ↦ none
    | some x ↦ elim (sextet c) [
      | none ↦ if c == b'=' && d == b'=' then some ((w * 4 + x / 16) ∷ []) else none
      | some y ↦ elim (sextet d) [
        | none ↦ if d == b'=' then some ((w * 4 + x / 16) ∷ ((x % 16) * 16 + y / 4) ∷ []) else none
        | some z ↦ some ((w * 4 + x / 16) ∷ ((x % 16) * 16 + y / 4) ∷ ((y % 4) * 64 + z) ∷ [])
      ]
    ]
  ]
]

-- A quantum before others has no padding.
abbrev full_quantum : ℕ → ℕ → ℕ → ℕ → Option Text
full_quantum a b c d =
    if a == b'=' || b == b'=' || c == b'=' || d == b'=' then none else last_quantum a b c d

abbrev append? : Option Text → Option Text → Option Text
append? none t = none
append? (some s) none = none
append? (some s) (some t) = some (s ++ t)

decode_quanta : Text → Option Text
decode_quanta [] = some []
decode_quanta (a ∷ b ∷ c ∷ d ∷ []) = last_quantum a b c d
decode_quanta (a ∷ b ∷ c ∷ d ∷ e ∷ s) = append? (full_quantum a b c d) (decode_quanta (e ∷ s))
decode_quanta _ = none

-- `base64.StdEncoding.DecodeString`
unfoldable pub base64_decode : Text → Option Text
unfolding decode_quanta
base64_decode s = decode_quanta (skip_breaks s)

-- The text after a prefix, compared without case.
after_fold : Text → Text → Option Text
after_fold s [] = some s
after_fold [] (p ∷ ps) = none
after_fold (c ∷ s) (p ∷ ps) = elim (lower c == lower p) [ true ↦ after_fold s ps | false ↦ none ]

-- `BasicAuth` of a request whose first Authorization value is the argument.
unfoldable pub basic_auth : Text → Option (Text × Text)
unfolding after_fold
basic_auth value = elim (after_fold value (bytes "Basic ")) [
  | none ↦ none
  | some encoded ↦ elim (base64_decode encoded) [ none ↦ none | some plain ↦ cut plain b':' ]
]

basic_auth_test :
    basic_auth (bytes "basic QWxhZGRpbjpvcGVuIHNlc2FtZQ==")
    ≡ some (bytes "Aladdin", bytes "open sesame")
unfolding basic_auth base64_decode cut bytes
basic_auth_test = refl
