-- ===== src/Config/SafePattern/Language.antt =====
-- config.go: the texts that an accepted pattern matches.
use nats_web_gateway.Base.{
  ==_iff, >>=-eq-ok, All, All-append, All-of_all, Any, Bool, Bool-cases, List, Option, [], arith,
  false, if◌then◌else◌, inl, inr, length, length-append, ltb, ok, reject_if, some, subst, suc, true,
  zero, ℕ, ◌*◌, ◌++◌, ◌+◌, ◌-◌, ◌<◌, ◌==◌, ◌>>=◌, ◌∷◌, ◌≡◌, ◌≤◌, ◌⊎◌,
}
use nats_web_gateway.Base.Text.{Text}
use nats_web_gateway.Base.TextLaws.{Without}
use nats_web_gateway.Base.Utf8.{runes}
use nats_web_gateway.Config.SafePattern.{
  Regexp, Regexps, no_match, empty_match, begin_line, end_line, begin_text, end_text, word_boundary,
  no_word_boundary, literal, char_class, capture, concat, alternate, quest, star, plus, repeat,
  other_op, nil, cons, safe_parameter_rune, safe_range, safe_ranges, safe_literal,
  safe_pattern_minimum_length, sum_minimum, least_minimum, validate_safe_parameter_pattern,
  PatternError,
}

-- The text is n parts, each with the property, one behind the other.
abbrev Iterated : (Text → Type 0) → ℕ → Text → Type 0
Iterated P zero s = s ≡ []
Iterated P (suc n) s = (t : Text) × (u : Text) × (s ≡ t ++ u) × P t × Iterated P n u

abbrev InRanges : ℕ → List (ℕ × ℕ) → Type 0
InRanges c ranges = Any (λ r. (r.0 ≤ c) × (c ≤ r.1)) ranges

-- The runes that a tree matches, by the meaning of the operations. An assertion is read as the
-- empty text wherever it stands, which only adds texts; so does the reading of a literal without
-- case as any text of its length, and of `other_op` as any text.
unfoldable mutual
  pub Matches : Regexp → Text → Type 0
  Matches no_match s = ⊥
  Matches empty_match s = s ≡ []
  Matches begin_line s = s ≡ []
  Matches end_line s = s ≡ []
  Matches begin_text s = s ≡ []
  Matches end_text s = s ≡ []
  Matches word_boundary s = s ≡ []
  Matches no_word_boundary s = s ≡ []
  Matches (literal true runes) s = length s ≡ length runes
  Matches (literal false runes) s = s ≡ runes
  Matches (char_class ranges) s = (c : ℕ) × (s ≡ c ∷ []) × InRanges c ranges
  Matches (capture r) s = Matches r s
  Matches (concat rs) s = MatchesAll rs s
  Matches (alternate r rs) s = Matches r s ⊎ MatchesAny rs s
  Matches (quest r) s = (s ≡ []) ⊎ Matches r s
  Matches (star r) s = (n : ℕ) × Iterated (Matches r) n s
  Matches (plus r) s = (n : ℕ) × Iterated (Matches r) (suc n) s
  Matches (repeat least r) s = (n : ℕ) × (least ≤ n) × Iterated (Matches r) n s
  Matches other_op s = Unit

  pub MatchesAll : Regexps → Text → Type 0
  MatchesAll nil s = s ≡ []
  MatchesAll (cons r rs) s = (t : Text) × (u : Text) × (s ≡ t ++ u) × Matches r t × MatchesAll rs u

  pub MatchesAny : Regexps → Text → Type 0
  MatchesAny nil s = ⊥
  MatchesAny (cons r rs) s = Matches r s ⊎ MatchesAny rs s

abbrev pub IsSafe : Text → Type 0
IsSafe s = All (λ c. safe_parameter_rune c ≡ true) s

-- Safe, and no shorter than the number.
abbrev SafeFrom : ℕ → Text → Type 0
SafeFrom n s = IsSafe s × (n ≤ length s)

safe_range-rune :
    (rounds lo c : ℕ)
    → safe_range rounds lo ≡ true
    → lo ≤ c
    → c < lo + rounds
    → safe_parameter_rune c ≡ true
unfolding safe_range
safe_range-rune zero lo c e h k = absurd (omega arith)
safe_range-rune (suc rounds) lo c e h k = elim (Bool-cases (lo == c)) [
  | inl same ↦ subst (λ x. safe_parameter_rune x ≡ true) ((==_iff lo c).0 same) (ground arith)
  | inr differ ↦ safe_range-rune rounds (lo + 1) c (ground arith) (ground arith) (omega arith)
]

safe_ranges-rune :
    (ranges : List (ℕ × ℕ)) (c : ℕ)
    → safe_ranges ranges ≡ true
    → InRanges c ranges
    → safe_parameter_rune c ≡ true
unfolding safe_ranges
safe_ranges-rune [] c e h = absurd h
safe_ranges-rune ((lo, hi) ∷ ranges) c e (inl (p, q)) =
    safe_range-rune (hi + 1 - lo) lo c (ground arith) p (omega arith)
safe_ranges-rune ((lo, hi) ∷ ranges) c e (inr h) = safe_ranges-rune ranges c (ground arith) h

SafeFrom-append :
    (m n : ℕ) (t u s : Text) → s ≡ t ++ u → SafeFrom m t → SafeFrom n u → SafeFrom (m + n) s
SafeFrom-append m n t u s e (p, h) (q, k) =
    rw e (All-append _ t u p q, omega (arith, length-append t u))

SafeFrom-Iterated :
    (P : Text → Type 0) (m : ℕ)
    → ((s : Text) → P s → SafeFrom m s)
    → (n : ℕ) (s : Text) → Iterated P n s
    → SafeFrom (n * m) s
SafeFrom-Iterated P m f zero s h = rw h (tt, omega arith)
SafeFrom-Iterated P m f (suc n) s (t, u, e, p, h) =
    let (safe, long) = SafeFrom-append m (n * m) t u s e (f t p) (SafeFrom-Iterated P m f n u h) in
    (safe, omega arith)

SafeFrom-le : (m n : ℕ) (s : Text) → m ≤ n → SafeFrom n s → SafeFrom m s
SafeFrom-le m n s h (p, q) = (p, omega arith)

Iterated-weaken :
    (P : Text → Type 0) (m least n : ℕ) (s : Text)
    → ((s : Text) → P s → SafeFrom m s)
    → least ≤ n
    → Iterated P n s
    → SafeFrom (least * m) s
Iterated-weaken P m least n s f h i =
    SafeFrom-le (least * m) (n * m) s (grind arith) (SafeFrom-Iterated P m f n s i)

safe_literal-SafeFrom :
    (fold : Bool) (runes s : Text) (n : ℕ)
    → safe_literal fold runes ≡ ok n
    → Matches (literal fold runes) s
    → SafeFrom n s
unfolding safe_literal Matches
safe_literal-SafeFrom true runes s n e h = cc
safe_literal-SafeFrom false runes s n e h =
    rw h (All-of_all safe_parameter_rune _ (λ c q. q) runes (ground arith), ground arith)

char_class-SafeFrom :
    (ranges : List (ℕ × ℕ)) (s : Text) (n : ℕ)
    → safe_pattern_minimum_length (char_class ranges) ≡ ok n
    → Matches (char_class ranges) s
    → SafeFrom n s
unfolding safe_pattern_minimum_length Matches
char_class-SafeFrom ranges s n e (c, one, h) =
    rw one ((safe_ranges-rune ranges c (ground arith) h, tt), ground arith)

least_minimum-le : (rs : Regexps) (m n : ℕ) → least_minimum rs m ≡ ok n → n ≤ m
unfolding least_minimum
least_minimum-le nil m n e = ground arith
least_minimum-le (cons r rs) m n e =
    let (child, _, e') = >>=-eq-ok (safe_pattern_minimum_length r) _ e in
    let h = least_minimum-le rs (if ltb child m then child else m) n e' in ground arith

mutual
  unfolding safe_pattern_minimum_length Matches

  minimum-SafeFrom :
      (r : Regexp) (s : Text) (n : ℕ)
      → safe_pattern_minimum_length r ≡ ok n
      → Matches r s
      → SafeFrom n s
  minimum-SafeFrom no_match s n e h = cc
  minimum-SafeFrom empty_match s n e h = rw h (tt, ground arith)
  minimum-SafeFrom begin_line s n e h = rw h (tt, ground arith)
  minimum-SafeFrom end_line s n e h = rw h (tt, ground arith)
  minimum-SafeFrom begin_text s n e h = rw h (tt, ground arith)
  minimum-SafeFrom end_text s n e h = rw h (tt, ground arith)
  minimum-SafeFrom word_boundary s n e h = rw h (tt, ground arith)
  minimum-SafeFrom no_word_boundary s n e h = rw h (tt, ground arith)
  minimum-SafeFrom (literal fold runes) s n e h = safe_literal-SafeFrom fold runes s n e h
  minimum-SafeFrom (char_class ranges) s n e h = char_class-SafeFrom ranges s n e h
  minimum-SafeFrom (capture r) s n e h = minimum-SafeFrom r s n e h
  minimum-SafeFrom (concat rs) s n e h = sum-SafeFrom rs s n e h
  minimum-SafeFrom (alternate r rs) s n e h =
      let (first, found, e') = >>=-eq-ok (safe_pattern_minimum_length r) _ e in
      elim h [
        | inl here ↦
            SafeFrom-le n first s (least_minimum-le rs first n e')
              (minimum-SafeFrom r s first found here)
        | inr there ↦ least-SafeFrom rs s first n e' there
      ]
  minimum-SafeFrom (quest r) s n e h =
      let (m, found, e') = >>=-eq-ok (safe_pattern_minimum_length r) _ e in
      elim h [
        | inl empty ↦ rw empty (tt, ground arith)
        | inr once ↦ SafeFrom-le n m s (ground arith) (minimum-SafeFrom r s m found once)
      ]
  minimum-SafeFrom (star r) s n e (k, h) =
      let (m, found, e') = >>=-eq-ok (safe_pattern_minimum_length r) _ e in
      SafeFrom-le n (k * m) s (ground arith)
        (SafeFrom-Iterated (Matches r) m (λ t p. minimum-SafeFrom r t m found p) k s h)
  minimum-SafeFrom (plus r) s n e (k, h) = SafeFrom-le n (1 * n) s (omega arith) (
      Iterated-weaken (Matches r) n 1 (suc k) s (λ t p. minimum-SafeFrom r t n e p) (omega arith) h)
  minimum-SafeFrom (repeat least r) s n e (k, enough, h) =
      let (m, found, e') = >>=-eq-ok (safe_pattern_minimum_length r) _ e in
      SafeFrom-le n (least * m) s (ground arith)
        (Iterated-weaken (Matches r) m least k s (λ t p. minimum-SafeFrom r t m found p) enough h)
  minimum-SafeFrom other_op s n e h = cc

  sum-SafeFrom :
      (rs : Regexps) (s : Text) (n : ℕ) → sum_minimum rs ≡ ok n → MatchesAll rs s → SafeFrom n s
  sum-SafeFrom nil s n e h = rw h (tt, ground arith)
  sum-SafeFrom (cons r rs) s n e (t, u, split', p, q) =
      let (first, found, e') = >>=-eq-ok (safe_pattern_minimum_length r) _ e in
      let (rest, found', e'') = >>=-eq-ok (sum_minimum rs) _ e' in
      SafeFrom-le n (first + rest) s (ground arith) (
        SafeFrom-append first rest t u s split' (minimum-SafeFrom r t first found p)
          (sum-SafeFrom rs u rest found' q))

  least-SafeFrom :
      (rs : Regexps) (s : Text) (m n : ℕ)
      → least_minimum rs m ≡ ok n
      → MatchesAny rs s
      → SafeFrom n s
  least-SafeFrom nil s m n e h = absurd h
  least-SafeFrom (cons r rs) s m n e h =
      let (child, found, e') = >>=-eq-ok (safe_pattern_minimum_length r) _ e in
      elim h [
        | inl here ↦
            SafeFrom-le n child s
              (let k = least_minimum-le rs (if ltb child m then child else m) n e' in ground arith)
              (minimum-SafeFrom r s child found here)
        | inr there ↦ least-SafeFrom rs s (if ltb child m then child else m) n e' there
      ]

-- An ASCII letter, a digit, `_` or `-`.
abbrev pub IsPlainRune : ℕ → Type 0
IsPlainRune c =
    ((b'A' ≤ c) × (c ≤ b'Z'))
    ⊎ ((b'a' ≤ c) × (c ≤ b'z'))
    ⊎ ((b'0' ≤ c) × (c ≤ b'9'))
    ⊎ (c ≡ b'_')
    ⊎ (c ≡ b'-')

abbrev pub IsPlain : Text → Type 0
IsPlain s = All IsPlainRune s

safe_rune-IsPlainRune : (c : ℕ) → safe_parameter_rune c ≡ true → IsPlainRune c
unfolding safe_parameter_rune
safe_rune-IsPlainRune c h = ground arith

IsSafe-IsPlain : (s : Text) → IsSafe s → IsPlain s
IsSafe-IsPlain [] h = tt
IsSafe-IsPlain (c ∷ s) (p, h) = (safe_rune-IsPlainRune c p, IsSafe-IsPlain s h)

-- What plain text cannot hold.
pub IsPlain-Without :
    (s : Text) → IsPlain s → Without b'.' s × Without b'{' s × All (λ c. c < 128) s
IsPlain-Without [] h = (tt, tt, tt)
IsPlain-Without (c ∷ s) (p, h) =
    let (a, b, d) = IsPlain-Without s h in ((ground arith, a), (ground arith, b), (ground arith, d))

-- Every text that an accepted pattern matches, as a whole or in part, is not empty and consists of
-- ASCII letters, digits, `_` and `-`: so it holds no subject separator, no wildcard, no brace and no
-- white space. The parser is any function.
pub validate_safe_parameter_pattern-IsPlain :
    (parse : Text → Option Regexp) (expression : Text) (r : Regexp) (s : Text)
    → validate_safe_parameter_pattern parse expression ≡ ok tt
    → parse expression ≡ some r
    → Matches r s
    → IsPlain s × (0 < length s)
unfolding validate_safe_parameter_pattern
validate_safe_parameter_pattern-IsPlain parse expression r s e parsed h =
    let e' : (safe_pattern_minimum_length r >>= λ minimum.
    reject_if (minimum == 0) PatternError.matches_empty)
        ≡ ok tt =
      ground arith in
    let (n, found, positive) = >>=-eq-ok (safe_pattern_minimum_length r) _ e' in
    let (safe, long) = minimum-SafeFrom r s n found h in (IsSafe-IsPlain s safe, ground arith)
