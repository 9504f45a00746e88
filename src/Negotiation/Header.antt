-- ===== src/Negotiation/Header.antt =====
-- response.go: `splitHeaderValue`, and the white space that `strings.TrimSpace` takes off.
use nats_web_gateway.Base.{
  All, Bool, Bool-cases, List, Option, Option-cases, [], any, ap, append-nil, append_assoc, arith,
  false, if◌then◌else◌, inl, inr, length, none, not, refl, some, suc, sym, true, zero, ℕ, ◌&&◌,
  ◌++◌, ◌==◌, ◌||◌, ◌∙◌, ◌∷◌, ◌≡◌, ◌≢◌,
}
use nats_web_gateway.Base.Text.{Text, has_prefix, is_empty, split}
use nats_web_gateway.Base.TextLaws.{Without, join, split-cons}

-- The characters of `unicode.IsSpace`, in UTF-8.
abbrev white_spaces : List Text
white_spaces =
    (9 ∷ [])
    ∷ (10 ∷ [])
    ∷ (11 ∷ [])
    ∷ (12 ∷ [])
    ∷ (13 ∷ [])
    ∷ (0x20 ∷ [])
    ∷ (0xc2 ∷ 0x85 ∷ [])
    ∷ (0xc2 ∷ 0xa0 ∷ [])
    ∷ (0xe1 ∷ 0x9a ∷ 0x80 ∷ [])
    ∷ (0xe2 ∷ 0x80 ∷ 0x80 ∷ [])
    ∷ (0xe2 ∷ 0x80 ∷ 0x81 ∷ [])
    ∷ (0xe2 ∷ 0x80 ∷ 0x82 ∷ [])
    ∷ (0xe2 ∷ 0x80 ∷ 0x83 ∷ [])
    ∷ (0xe2 ∷ 0x80 ∷ 0x84 ∷ [])
    ∷ (0xe2 ∷ 0x80 ∷ 0x85 ∷ [])
    ∷ (0xe2 ∷ 0x80 ∷ 0x86 ∷ [])
    ∷ (0xe2 ∷ 0x80 ∷ 0x87 ∷ [])
    ∷ (0xe2 ∷ 0x80 ∷ 0x88 ∷ [])
    ∷ (0xe2 ∷ 0x80 ∷ 0x89 ∷ [])
    ∷ (0xe2 ∷ 0x80 ∷ 0x8a ∷ [])
    ∷ (0xe2 ∷ 0x80 ∷ 0xa8 ∷ [])
    ∷ (0xe2 ∷ 0x80 ∷ 0xa9 ∷ [])
    ∷ (0xe2 ∷ 0x80 ∷ 0xaf ∷ [])
    ∷ (0xe2 ∷ 0x81 ∷ 0x9f ∷ [])
    ∷ (0xe3 ∷ 0x80 ∷ 0x80 ∷ [])
    ∷ []

-- The bytes of the white space that a text starts with.
abbrev space_width : List Text → Text → ℕ
space_width [] s = 0
space_width (space ∷ spaces) s = if has_prefix s space then length space else space_width spaces s

-- The first argument counts the bytes left of the white space that is being passed over.
unfoldable trim_left : ℕ → Text → Text
unfolding has_prefix
trim_left n [] = []
trim_left (suc n) (c ∷ s) = trim_left n s
trim_left zero (c ∷ s) = elim (space_width white_spaces (c ∷ s)) [
  | zero ↦ c ∷ s
  | suc n ↦ trim_left n s
]

-- `strings.TrimSpace(s) == ""`
unfoldable pub is_blank : Text → Bool
unfolding trim_left
is_blank s = is_empty (trim_left 0 s)

unfoldable trim_right : Text → Text
trim_right [] = []
trim_right (c ∷ s) = if is_blank (c ∷ s) then [] else c ∷ trim_right s

-- `strings.TrimSpace`
unfoldable pub trim_space : Text → Text
unfolding trim_left trim_right
trim_space s = trim_right (trim_left 0 s)

-- What a character does to the state of the loop: quoted, and escaped. The special characters are
-- ASCII, so that the bytes of another character leave the state as the character does.
pub data Scan : Type 0 where
  goes_on : Bool → Bool → Scan
  part_ends : Scan

unfoldable pub scan : ℕ → Bool → Bool → ℕ → Scan
scan delimiter quoted escaped c =
    if escaped
    then goes_on quoted false
    else if quoted && c == b'\\'
    then goes_on quoted true
    else if c == b'"'
    then goes_on (not quoted) false
    else if c == delimiter && not quoted
    then part_ends
    else goes_on quoted false

-- The loop of `splitHeaderValue`, with `value[start:index]`; `none` is an error.
unfoldable pub split_scanned : ℕ → Bool → Bool → Text → Text → Option (List Text)
split_scanned delimiter quoted escaped part [] =
    if quoted || escaped || is_blank part then none else some (part ∷ [])
split_scanned delimiter quoted escaped part (c ∷ s) = elim (scan delimiter quoted escaped c) [
  | goes_on quoted' escaped' ↦ split_scanned delimiter quoted' escaped' (part ++ c ∷ []) s
  | part_ends ↦ elim (is_blank part) [
    | true ↦ none
    | false ↦ elim (split_scanned delimiter false false [] s) [
      | none ↦ none
      | some parts ↦ some (part ∷ parts)
    ]
  ]
]

-- `splitHeaderValue`
unfoldable pub split_header_value : Text → ℕ → Option (List Text)
split_header_value value delimiter = split_scanned delimiter false false [] value

scan-plain :
    (delimiter c : ℕ)
    → c ≢ b'"'
    → scan delimiter false false c ≡ (if c == delimiter then part_ends else goes_on false false)
unfolding scan
scan-plain delimiter c h = ground arith

scan-part_ends :
    (delimiter : ℕ) (quoted escaped : Bool) (c : ℕ)
    → scan delimiter quoted escaped c ≡ part_ends
    → c ≡ delimiter
unfolding scan
scan-part_ends delimiter quoted escaped c e = ground arith

join-cons :
    (sep : ℕ) (part : Text) (parts : List Text)
    → parts ≢ []
    → join sep (part ∷ parts) ≡ part ++ sep ∷ join sep parts
unfolding join
join-cons sep part [] any = absurd (any refl)
join-cons sep part (next ∷ parts) any = refl

none_ne_some {ℓ} : {A : Type ℓ} {a : A} → none ≡ some a → ⊥
none_ne_some e = ground arith

-- The parts of a text that has been split, joined by the delimiter again, are the text.
split_scanned-join :
    (delimiter : ℕ) (quoted escaped : Bool) (part s : Text) (parts : List Text)
    → split_scanned delimiter quoted escaped part s ≡ some parts
    → (join delimiter parts ≡ part ++ s) × All (λ p. is_blank p ≡ false) parts × (parts ≢ [])
unfolding split_scanned join
split_scanned-join delimiter quoted escaped part [] parts e =
    let same : parts ≡ part ∷ [] = ground arith in
    rw (same, join) (sym (append-nil part), (ground arith, tt), λ q. ground arith)
split_scanned-join delimiter quoted escaped part (c ∷ s) parts e =
    split_on (scan delimiter quoted escaped c) refl (λ q x y. split_scanned-join delimiter q x y s)
  where
    split_on :
        (o : Scan)
        → scan delimiter quoted escaped c ≡ o
        → ((q x : Bool) (y : Text) (ps : List Text)
            → split_scanned delimiter q x y s ≡ some ps
            → (join delimiter ps ≡ y ++ s) × All (λ p. is_blank p ≡ false) ps × (ps ≢ []))
        → (join delimiter parts ≡ part ++ c ∷ s)
          × All (λ p. is_blank p ≡ false) parts
          × (parts ≢ [])
    split_on (goes_on q x) o behind =
        let (joined, visible, any) =
          behind q x (part ++ c ∷ []) parts (rw (o, split_scanned) at e) in
        (joined ∙ append_assoc part (c ∷ []) s, visible, any)
    split_on part_ends o behind = elim (Bool-cases (is_blank part)) [
      | inl blank ↦ absurd (none_ne_some (rw (o, blank, split_scanned) at e))
      | inr visible ↦ elim (Option-cases (split_scanned delimiter false false [] s)) [
        | inl refused ↦ absurd (none_ne_some (rw (o, visible, refused, split_scanned) at e))
        | inr (ps, taken) ↦
            let same : parts ≡ part ∷ ps =
              ground (arith, rw (o, visible, taken, split_scanned) at e) in
            let (joined, visibles, any) = behind false false [] ps taken in
            rw same (
              join-cons delimiter part ps any
                  ∙ ap (λ u. part ++ u)
                      (rw (scan-part_ends delimiter quoted escaped c o)
                        (ap (◌∷◌ delimiter) joined)),
              (visible, visibles),
              λ q. ground arith,
            )
      ]
    ]

-- A header value that is split is the join of its parts by the delimiter, and each part has a
-- character that is not white space; there is a part at least.
pub split_header_value-join :
    (value : Text) (delimiter : ℕ) (parts : List Text)
    → split_header_value value delimiter ≡ some parts
    → (join delimiter parts ≡ value) × All (λ p. is_blank p ≡ false) parts × (parts ≢ [])
unfolding split_header_value
split_header_value-join value delimiter parts e =
    split_scanned-join delimiter false false [] value parts e

-- The parts of a plain split, the first one behind a text.
abbrev behind_text : Text → List Text → List Text
behind_text part [] = part ∷ []
behind_text part (x ∷ xs) = (part ++ x) ∷ xs

abbrev checked : List Text → Option (List Text)
checked parts = if any is_blank parts then none else some parts

checked-cons :
    (part : Text) (parts : List Text)
    → is_blank part ≡ false
    → checked (part ∷ parts) ≡ elim (checked parts) [ none ↦ none | some ps ↦ some (part ∷ ps) ]
checked-cons part parts visible = ground arith

behind_text-split :
    (s : Text) (delimiter : ℕ) → behind_text [] (split s delimiter) ≡ split s delimiter
behind_text-split s delimiter = let (x, xs, e) = split-cons delimiter s in rw e refl

split_scanned-split :
    (delimiter : ℕ) (part s : Text)
    → Without b'"' s
    → split_scanned delimiter false false part s ≡ checked (behind_text part (split s delimiter))
unfolding split_scanned split
split_scanned-split delimiter part [] h = rw (append-nil part) (ground arith)
split_scanned-split delimiter part (c ∷ s) (p, h) =
    let (x, xs, e) = split-cons delimiter s in
    elim (Bool-cases (c == delimiter)) [
      | inr other ↦
          rw (split_scanned, scan-plain delimiter c p, other, e)
            (rw (e, append_assoc part (c ∷ []) x) at
              (split_scanned-split delimiter (part ++ c ∷ []) s h))
      | inl same ↦
          rw (split_scanned, scan-plain delimiter c p, same, append-nil part)
            (blank_or_not
              (rw (behind_text-split s delimiter) at (split_scanned-split delimiter [] s h)))
    ]
  where
    blank_or_not :
        split_scanned delimiter false false [] s ≡ checked (split s delimiter)
        → elim (is_blank part) [
          | true ↦ none
          | false ↦ elim (split_scanned delimiter false false [] s) [
            | none ↦ none
            | some parts ↦ some (part ∷ parts)
          ]
        ]
          ≡ checked (part ∷ split s delimiter)
    blank_or_not behind = ground arith

-- A header value without a quotation mark is split at each delimiter, and refused if a part of it
-- is blank.
pub split_header_value-split :
    (value : Text) (delimiter : ℕ)
    → Without b'"' value
    → split_header_value value delimiter
      ≡ (if any is_blank (split value delimiter) then none else some (split value delimiter))
unfolding split_header_value
split_header_value-split value delimiter h =
    rw (behind_text-split value delimiter) at (split_scanned-split delimiter [] value h)
