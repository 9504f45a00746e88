-- ===== src/Config/SafePattern.antt =====
-- config.go: the syntax of a parameter's pattern and the test that it admits safe values only.
pub mod Language
use nats_web_gateway.Base.{
  Bool, List, Option, Result, [], all, err, false, if◌then◌else◌, leb, length, ltb, none, ok,
  reject_if, some, suc, true, zero, ℕ, ◌&&◌, ◌*◌, ◌+◌, ◌-◌, ◌==◌, ◌>>=◌, ◌>>◌, ◌||◌, ◌∷◌,
}
use nats_web_gateway.Base.Text.{Text}
use nats_web_gateway.Base.Utf8.{runes}

-- The tree that `regexp/syntax.Parse` makes. An alternation has a first branch; `other_op` stands
-- for the operations that the test refuses (any character).
mutual
  pub data Regexp : Type 0 where
    no_match empty_match begin_line end_line begin_text end_text word_boundary no_word_boundary :
        Regexp
    literal : Bool → Text → Regexp
    char_class : List (ℕ × ℕ) → Regexp
    capture : Regexp → Regexp
    concat : Regexps → Regexp
    alternate : Regexp → Regexps → Regexp
    quest star plus : Regexp → Regexp
    repeat : ℕ → Regexp → Regexp
    other_op : Regexp

  pub data Regexps : Type 0 where
    nil : Regexps
    cons : Regexp → Regexps → Regexps

pub data PatternError : Type 0 where
  matches_nothing folded_literal unsafe_character unsupported_operation matches_empty syntax_error :
      PatternError

unfoldable pub safe_parameter_rune : ℕ → Bool
safe_parameter_rune value =
    leb b'A' value && leb value b'Z'
    || leb b'a' value && leb value b'z'
    || leb b'0' value && leb value b'9'
    || value == b'_'
    || value == b'-'

-- The loop over the runes of one range, from `lo`, with the rounds that are left.
unfoldable pub safe_range : ℕ → ℕ → Bool
safe_range zero lo = true
safe_range (suc rounds) lo = elim (safe_parameter_rune lo) [
  | true ↦ safe_range rounds (lo + 1)
  | false ↦ false
]

unfoldable pub safe_ranges : List (ℕ × ℕ) → Bool
safe_ranges [] = true
safe_ranges ((lo, hi) ∷ ranges) = safe_range (hi + 1 - lo) lo && safe_ranges ranges

unfoldable pub safe_literal : Bool → Text → Result PatternError ℕ
safe_literal true runes = err folded_literal
safe_literal false runes =
    if all safe_parameter_rune runes then ok (length runes) else err unsafe_character

unfoldable mutual
  pub safe_pattern_minimum_length : Regexp → Result PatternError ℕ
  safe_pattern_minimum_length no_match = err matches_nothing
  safe_pattern_minimum_length empty_match = ok 0
  safe_pattern_minimum_length begin_line = ok 0
  safe_pattern_minimum_length end_line = ok 0
  safe_pattern_minimum_length begin_text = ok 0
  safe_pattern_minimum_length end_text = ok 0
  safe_pattern_minimum_length word_boundary = ok 0
  safe_pattern_minimum_length no_word_boundary = ok 0
  safe_pattern_minimum_length (literal fold runes) = safe_literal fold runes
  safe_pattern_minimum_length (char_class ranges) =
      if safe_ranges ranges then ok 1 else err unsafe_character
  safe_pattern_minimum_length (capture r) = safe_pattern_minimum_length r
  safe_pattern_minimum_length (concat rs) = sum_minimum rs
  safe_pattern_minimum_length (alternate r rs) = do
    first ← safe_pattern_minimum_length r
    least_minimum rs first
  safe_pattern_minimum_length (quest r) = (safe_pattern_minimum_length r >>= λ _. ok 0)
  safe_pattern_minimum_length (star r) = (safe_pattern_minimum_length r >>= λ _. ok 0)
  safe_pattern_minimum_length (plus r) = safe_pattern_minimum_length r
  safe_pattern_minimum_length (repeat least r) = do
    minimum ← safe_pattern_minimum_length r
    ok (least * minimum)
  safe_pattern_minimum_length other_op = err unsupported_operation

  -- The loop of a concatenation.
  pub sum_minimum : Regexps → Result PatternError ℕ
  sum_minimum nil = ok 0
  sum_minimum (cons r rs) = do
    first ← safe_pattern_minimum_length r
    rest ← sum_minimum rs
    ok (first + rest)

  -- The loop of an alternation, after its first branch.
  pub least_minimum : Regexps → ℕ → Result PatternError ℕ
  least_minimum nil minimum = ok minimum
  least_minimum (cons r rs) minimum = do
    child ← safe_pattern_minimum_length r
    least_minimum rs (if ltb child minimum then child else minimum)

-- `validateSafeParameterPattern`; the parser is the argument, with `none` for its error.
unfoldable pub validate_safe_parameter_pattern :
    (Text → Option Regexp) → Text → Result PatternError (Unit {0})
validate_safe_parameter_pattern parse expression = elim (parse expression) [
  | none ↦ err syntax_error
  | some r ↦ do minimum ← safe_pattern_minimum_length r; reject_if (minimum == 0) matches_empty
]
