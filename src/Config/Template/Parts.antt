-- ===== src/Config/Template/Parts.antt =====
-- config.go: the parts of an accepted template, between its separators.
use nats_web_gateway.Config.Template.{
  has_placeholder, malformed_placeholder, scan, validate_template, at_boundary, collect_names,
  first_byte, stray_brace, name, Mark, ascii_letter, char, name_char, name_rest, placeholder_at,
  scan_from,
}
use nats_web_gateway.Base.{
  >>-eq-ok, All, All-append, Bool-cases, List, Option, Option-cases, [], ap, append-nil,
  append_assoc, arith, false, inl, inr, length, none, ok, refl, reject_if, reject_if-eq-ok, some,
  subst, suc, sym, true, zero, ℕ, ◌&&◌, ◌++◌, ◌+◌, ◌==◌, ◌∙◌, ◌∷◌, ◌≡◌, ◌≢◌, ◌⊎◌,
}
use nats_web_gateway.Base.Text.{Text, contains, split}
use nats_web_gateway.Base.TextLaws.{Without, split-append, split_of_Without}
use nats_web_gateway.Routes.{placeholder}

-- What the pattern takes for a name: a letter, and letters, digits and underscores.
abbrev pub IsName : Text → Type 0
IsName [] = ⊥
IsName (c ∷ n) = (ascii_letter c ≡ true) × All (λ d. name_char d ≡ true) n

abbrev pub IsPlainPart : Text → Type 0
IsPlainPart s = Without b'{' s × Without b'}' s

-- A part is one whole placeholder, or has no brace.
abbrev pub IsPart : Text → Type 0
IsPart s = IsPlainPart s ⊎ ((n : Text) × (s ≡ placeholder n) × IsName n)

abbrev drop : ℕ → Text → Text
drop zero s = s
drop (suc n) [] = []
drop (suc n) (c ∷ s) = drop n s

drop-past : (n rest : Text) (c : ℕ) → drop (suc (length n)) (n ++ c ∷ rest) ≡ rest
drop-past [] rest c = refl
drop-past (d ∷ n) rest c = drop-past n rest c

abbrev mark_text : Mark → Text
mark_text (char c) = c ∷ []
mark_text (name n) = placeholder n

abbrev flatten : List Mark → Text
flatten [] = []
flatten (m ∷ ms) = mark_text m ++ flatten ms

abbrev IsMark : Mark → Type 0
IsMark (char c) = Unit {0}
IsMark (name n) = IsName n

name_rest-some :
    (s n : Text)
    → name_rest s ≡ some n
    → All (λ c. name_char c ≡ true) n × ((rest : Text) × (s ≡ n ++ b'}' ∷ rest))
unfolding name_rest
name_rest-some [] n e = cc
name_rest-some (c ∷ s) n e = elim (Bool-cases (c == b'}')) [
  | inl closing ↦ let same : [] ≡ n = ground arith in rw (← same) (tt, (s, ground arith))
  | inr other ↦ elim (Bool-cases (name_char c)) [
    | inr bad ↦ absurd (ground arith)
    | inl good ↦ elim (Option-cases (name_rest s)) [
      | inl none' ↦ absurd (ground arith)
      | inr (m, found) ↦
          let (chars, (rest, split')) = name_rest-some s m found in
          let same : c ∷ m ≡ n = ground arith in
          rw (← same) ((good, chars), (rest, ap (◌∷◌ c) split'))
    ]
  ]
]

placeholder_at-some :
    (c : ℕ) (s n : Text)
    → placeholder_at (c ∷ s) ≡ some n
    → IsName n × (c ≡ b'{') × ((rest : Text) × (s ≡ n ++ b'}' ∷ rest))
unfolding placeholder_at
placeholder_at-some c [] n e = cc
placeholder_at-some c (d ∷ s) n e = elim (Bool-cases (c == b'{' && ascii_letter d)) [
  | inr bad ↦ absurd (ground arith)
  | inl good ↦ elim (Option-cases (name_rest s)) [
    | inl none' ↦ absurd (ground arith)
    | inr (m, found) ↦
        let (chars, (rest, split')) = name_rest-some s m found in
        let same : d ∷ m ≡ n = ground arith in
        rw (← same) ((ground arith, chars), ground arith, (rest, ap (◌∷◌ d) split'))
  ]
]

flatten-scan_from : (skip : ℕ) (s : Text) → flatten (scan_from skip s) ≡ drop skip s
unfolding scan_from
flatten-scan_from zero [] = refl
flatten-scan_from (suc skip) [] = refl
flatten-scan_from (suc skip) (c ∷ s) = flatten-scan_from skip s
flatten-scan_from zero (c ∷ s) = elim (Option-cases (placeholder_at (c ∷ s))) [
  | inl none' ↦ rw (none', scan_from) (ap (◌∷◌ c) (flatten-scan_from 0 s))
  | inr (n, found) ↦
      let (good, opening, (rest, split')) = placeholder_at-some c s n found in
      rw (found, scan_from)
        (ap (λ u. placeholder n ++ u)
            (flatten-scan_from (length n + 1) s
              ∙ ap (drop (length n + 1)) split'
              ∙ ap (λ k. drop k (n ++ b'}' ∷ rest))
                  (let q : length n + 1 ≡ suc (length n) = omega arith in q)
              ∙ drop-past n rest b'}')
          ∙ rw (opening, split') (ap (◌∷◌ b'{') (append_assoc n (b'}' ∷ []) rest)))
]

scan_from-IsMark : (skip : ℕ) (s : Text) → All IsMark (scan_from skip s)
unfolding scan_from
scan_from-IsMark zero [] = tt
scan_from-IsMark (suc skip) [] = tt
scan_from-IsMark (suc skip) (c ∷ s) = scan_from-IsMark skip s
scan_from-IsMark zero (c ∷ s) = elim (Option-cases (placeholder_at (c ∷ s))) [
  | inl none' ↦ rw (none', scan_from) (tt, scan_from-IsMark 0 s)
  | inr (n, found) ↦
      rw (found, scan_from) ((placeholder_at-some c s n found).0, scan_from-IsMark (length n + 1) s)
]

module _ (sep : ℕ) (fits : (sep ≢ b'{') × (sep ≢ b'}') × (name_char sep ≡ false)) where
  name_chars-Without : (n : Text) → All (λ c. name_char c ≡ true) n → Without sep n
  name_chars-Without [] h = tt
  name_chars-Without (c ∷ n) (p, h) = ((λ e. cc (ap name_char e)), name_chars-Without n h)

  placeholder-Without : (n : Text) → IsName n → Without sep (placeholder n)
  placeholder-Without [] h = absurd h
  placeholder-Without (c ∷ n) (p, h) = (
    ground arith,
    All-append _ (c ∷ n) (b'}' ∷ []) (name_chars-Without (c ∷ n) (ground arith, h))
        (ground arith, tt),
  )

  -- Where a part begins, all that follow are parts; inside a part, the first has no brace.
  abbrev Fresh : List Mark → Type 0
  Fresh ms = All IsPart (split (flatten ms) sep)

  abbrev Inside : List Mark → Type 0
  Inside ms =
      (h : Text) × (t : List Text) × (split (flatten ms) sep ≡ h ∷ t) × IsPlainPart h × All IsPart t

  named :
      (n : Text) (ms : List Mark)
      → IsName n
      → at_boundary sep (first_byte ms) ≡ true
      → Inside ms
      → Fresh (name n ∷ ms)
  unfolding split
  named n [] good b inside =
      let alone : split (placeholder n ++ []) sep ≡ placeholder n ∷ [] =
        ap (λ s. split s sep) (append-nil (placeholder n))
        ∙ split_of_Without sep (placeholder n) (placeholder-Without n good) in
      subst (All IsPart) (sym alone) (inr (n, refl, good), tt)
  named n (name m ∷ ms) good b inside = absurd (ground arith)
  named n (char c ∷ ms) good b (h, t, parts, _, rest) =
      let same : c ≡ sep = ground arith in
      let tail' : t ≡ split (flatten ms) sep = ground arith in
      let joined : split (placeholder n ++ c ∷ flatten ms) sep ≡ placeholder n ∷ t = rw same (
        split-append sep (placeholder n) (flatten ms) (placeholder-Without n good)
        ∙ ap (◌∷◌ (placeholder n)) (sym tail')) in
      rw joined (inr (n, refl, good), rest)

  parts_from :
      (ms : List Mark) (before : Option ℕ) (params names : List Text)
      → All IsMark ms
      → stray_brace ms ≡ false
      → collect_names sep before params ms ≡ ok names
      → (at_boundary sep before ≡ true → Fresh ms) × (at_boundary sep before ≡ false → Inside ms)
  unfolding collect_names split
  parts_from [] before params names m s e =
      ((λ b. (inl (tt, tt), tt)), (λ b. ([], [], refl, (tt, tt), tt)))
  parts_from (char c ∷ ms) before params names (_, m) s e =
      let (fresh, inside) = parts_from ms (some c) params names m (ground arith) e in
      elim (Bool-cases (c == sep)) [
        | inl same ↦
            let rest = fresh same in
            (
              (λ b. rw same (inl (tt, tt), rest)),
              (λ b. ([], split (flatten ms) sep, rw same refl, (tt, tt), rest)),
            )
        | inr other ↦
            let (h, t, parts, (p, q), rest) = inside other in
            let plain : IsPlainPart (c ∷ h) = ((ground arith, p), (ground arith, q)) in
            (
              (λ b. rw (other, parts) (inl plain, rest)),
              (λ b. (c ∷ h, t, rw (other, parts) refl, plain, rest)),
            )
      ]
  parts_from (name n ∷ ms) before params names (good, m) s e =
      elim (Bool-cases (contains params n)) [
        | inl repeated ↦ absurd (ground arith)
        | inr new ↦ elim (Bool-cases (at_boundary sep before && at_boundary sep (first_byte ms))) [
          | inr partial ↦ absurd (ground arith)
          | inl whole ↦ (
            (λ b. named n ms good (ground arith) (
                (parts_from ms (some b'}') (params ++ n ∷ []) names m s (ground arith)).1
                  (ground arith))),
            (λ b. absurd (ground arith)),
          )
        ]
      ]

  -- The parts of an accepted template.
  pub validate_template-IsPart :
      (value : Text) (names : List Text)
      → validate_template sep value ≡ ok names
      → All IsPart (split value sep)
  unfolding validate_template
  validate_template-IsPart value names e =
      let (plain, e') = >>-eq-ok (reject_if (stray_brace (scan value)) malformed_placeholder) _ e in
      subst (λ v. All IsPart (split v sep)) (flatten-scan_from 0 value)
        ((parts_from (scan value) none [] names (scan_from-IsMark 0 value)
            (reject_if-eq-ok _ _ plain) e').0
          refl)

name_rest-append :
    (n : Text) → All (λ c. name_char c ≡ true) n → name_rest (n ++ b'}' ∷ []) ≡ some n
unfolding name_rest
name_rest-append [] h = refl
name_rest-append (c ∷ n) (p, h) = ground (arith, name_rest-append n h)

placeholder_at-placeholder : (n : Text) → IsName n → placeholder_at (placeholder n) ≡ some n
unfolding placeholder_at
placeholder_at-placeholder [] h = absurd h
placeholder_at-placeholder (c ∷ n) (p, h) = ground (arith, name_rest-append n h)

-- The pattern is found in a placeholder.
pub has_placeholder-placeholder : (n : Text) → IsName n → has_placeholder (placeholder n) ≡ true
unfolding has_placeholder
has_placeholder-placeholder n h = rw (placeholder_at-placeholder n h, scan_from) refl
