-- ===== src/Base/Utf8.antt =====
-- UTF-8 as package `unicode/utf8` reads it, and the classes of package `unicode` that the program
-- asks for.
use nats_web_gateway.Base.{
  Bool, Bool-cases, Option, Option-cases, [], all, arith, false, if◌then◌else◌, inl, inr, leb, ltb,
  none, not, refl, some, suc, true, zero, ℕ, ◌&&◌, ◌*◌, ◌+◌, ◌-◌, ◌==◌, ◌||◌, ◌∷◌, ◌≡◌, ◌≤◌, ◌⊎◌,
}
use nats_web_gateway.Base.Text.{Text}
use nats_web_gateway.Base.TextLaws.{Without}

-- A continuation byte.
abbrev is_tail : ℕ → Bool
is_tail b = leb 0x80 b && leb b 0xbf

abbrev in_range : ℕ → ℕ → ℕ → Bool
in_range lo hi b = leb lo b && leb b hi

-- The lead byte's class: how many bytes follow it and the range of the first of them; `none` for
-- a byte that starts no rune (the table `first` of unicode/utf8).
abbrev lead : ℕ → Option (ℕ × (ℕ × ℕ))
lead b =
    if in_range 0xc2 0xdf b
    then some (1, (0x80, 0xbf))
    else if b == 0xe0
    then some (2, (0xa0, 0xbf))
    else if b == 0xed
    then some (2, (0x80, 0x9f))
    else if in_range 0xe1 0xef b
    then some (2, (0x80, 0xbf))
    else if b == 0xf0
    then some (3, (0x90, 0xbf))
    else if in_range 0xf1 0xf3 b
    then some (3, (0x80, 0xbf))
    else if b == 0xf4
    then some (3, (0x80, 0x8f))
    else none

abbrev cons? : ℕ → Option Text → Option Text
cons? r none = none
cons? r (some rs) = some (r ∷ rs)

-- The runes of a valid text, `none` for an invalid one. The first two arguments are the bytes that
-- the current rune still wants and what has been read of it.
runes_from : ℕ → ℕ → ℕ → ℕ → Text → Option Text
runes_from zero lo hi acc [] = some []
runes_from (suc n) lo hi acc [] = none
runes_from zero lo hi acc (b ∷ s) = elim (ltb b 0x80) [
  | true ↦ cons? b (runes_from 0 0 0 0 s)
  | false ↦ elim (lead b) [
    | none ↦ none
    | some (n, (lo', hi')) ↦
        runes_from n lo' hi' (if n == 1 then b - 0xc0 else if n == 2 then b - 0xe0 else b - 0xf0) s
  ]
]
runes_from (suc zero) lo hi acc (b ∷ s) = elim (in_range lo hi b) [
  | true ↦ cons? (acc * 64 + (b - 0x80)) (runes_from 0 0 0 0 s)
  | false ↦ none
]
runes_from (suc (suc n)) lo hi acc (b ∷ s) = elim (in_range lo hi b) [
  | true ↦ runes_from (suc n) 0x80 0xbf (acc * 64 + (b - 0x80)) s
  | false ↦ none
]

-- What `for _, r := range s` yields on a text that `utf8.ValidString` accepts.
unfoldable pub runes : Text → Option Text
unfolding runes_from
runes s = runes_from 0 0 0 0 s

-- `utf8.ValidString`
abbrev pub valid_string : Text → Bool
valid_string s = elim (runes s) [ none ↦ false | some _ ↦ true ]

-- `unicode.IsControl`
unfoldable pub is_control : ℕ → Bool
is_control r = ltb r 0x20 || in_range 0x7f 0x9f r

-- `unicode.IsSpace`
unfoldable pub is_space : ℕ → Bool
is_space r =
    in_range 9 13 r
    || r == 0x20
    || r == 0x85
    || r == 0xa0
    || r == 0x1680
    || in_range 0x2000 0x200a r
    || r == 0x2028
    || r == 0x2029
    || r == 0x202f
    || r == 0x205f
    || r == 0x3000

lead-low : (b n lo hi : ℕ) → lead b ≡ some (n, (lo, hi)) → 1 ≤ lo
lead-low b n lo hi e = ground arith

-- A byte 0 is a rune 0, which is a control character.
runes_from-Without :
    (n lo hi acc : ℕ) (s rs : Text)
    → (n ≡ 0) ⊎ (1 ≤ lo)
    → runes_from n lo hi acc s ≡ some rs
    → all (λ r. not (is_control r)) rs ≡ true
    → Without 0 s
unfolding runes_from is_control
runes_from-Without n lo hi acc [] rs p e h = tt
runes_from-Without zero lo hi acc (b ∷ s) rs p e h = elim (Bool-cases (ltb b 0x80)) [
  | inl ascii ↦ elim (Option-cases (runes_from 0 0 0 0 s)) [
    | inl none' ↦ absurd (ground arith)
    | inr (rest, e') ↦
        (ground arith, runes_from-Without 0 0 0 0 s rest (inl refl) e' (ground arith))
  ]
  | inr wide ↦ elim (Option-cases (lead b)) [
    | inl none' ↦ absurd (ground arith)
    | inr ((n, (lo', hi')), leads) ↦ (
      ground arith,
      runes_from-Without n lo' hi'
          (if n == 1 then b - 0xc0 else if n == 2 then b - 0xe0 else b - 0xf0) s rs
          (inr (lead-low b n lo' hi' leads)) (rw (wide, leads, runes_from) at e) h,
    )
  ]
]
runes_from-Without (suc zero) lo hi acc (b ∷ s) rs p e h =
    elim (Option-cases (runes_from 0 0 0 0 s)) [
      | inl none' ↦ absurd (ground arith)
      | inr (rest, e') ↦
          (ground arith, runes_from-Without 0 0 0 0 s rest (inl refl) e' (ground arith))
    ]
runes_from-Without (suc (suc n)) lo hi acc (b ∷ s) rs p e h = (
  ground arith,
  runes_from-Without (suc n) 0x80 0xbf (acc * 64 + (b - 0x80)) s rs (inr (omega arith))
      (ground arith) h,
)

pub runes-Without :
    (s rs : Text) → runes s ≡ some rs → all (λ r. not (is_control r)) rs ≡ true → Without 0 s
unfolding runes
runes-Without s rs e h = runes_from-Without 0 0 0 0 s rs (inl refl) e h

runes_tests :
    (runes (0x41 ∷ 0xc3 ∷ 0xa9 ∷ 0xe2 ∷ 0x82 ∷ 0xac ∷ []) ≡ some (0x41 ∷ 0xe9 ∷ 0x20ac ∷ []))
    × (runes (0xed ∷ 0xa0 ∷ 0x80 ∷ []) ≡ none)
    × (runes (0xf0 ∷ 0x9f ∷ 0x98 ∷ 0x80 ∷ []) ≡ some (0x1f600 ∷ []))
    × (runes (0xc3 ∷ []) ≡ none)
unfolding runes
runes_tests = (refl, refl, refl, refl)
