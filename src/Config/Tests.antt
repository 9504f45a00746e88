-- ===== src/Config/Tests.antt =====
-- config.go: the theorems on a concrete pattern.
use nats_web_gateway.Base.{Option, [], arith, err, inl, length, ok, refl, some, ◌<◌, ◌∷◌, ◌≡◌}
use nats_web_gateway.Base.Text.{Text}
use nats_web_gateway.Config.SafePattern.Language.{
  IsPlain, Matches, validate_safe_parameter_pattern-IsPlain,
}
use nats_web_gateway.Config.SafePattern.{
  PatternError, Regexp, begin_text, char_class, concat, cons, end_text, nil, plus, safe_literal,
  safe_parameter_rune, safe_pattern_minimum_length, safe_range, safe_ranges, star, unsafe_character,
  validate_safe_parameter_pattern,
}

computing : Unit {0}
unfolding safe_parameter_rune safe_range safe_ranges safe_literal safe_pattern_minimum_length
    validate_safe_parameter_pattern Matches
computing = tt

-- `^[a-c]+$`
abbrev letters : Regexp
letters = concat (cons begin_text (cons (plus (char_class ((97, 99) ∷ []))) (cons end_text nil)))

abbrev parse : Text → Option Regexp
parse expression = some letters

validate_letters : validate_safe_parameter_pattern parse [] ≡ ok tt
unfolding computing
validate_letters = refl

-- A pattern that may match nothing, and one with the separator in its range.
rejected :
    (validate_safe_parameter_pattern (λ s. some (star letters)) [] ≡ err PatternError.matches_empty)
    × (validate_safe_parameter_pattern (λ s. some (char_class ((45, 48) ∷ []))) []
        ≡ err unsafe_character)
unfolding computing
rejected = (refl, refl)

Matches-letters : Matches letters (97 ∷ [])
unfolding computing
Matches-letters = (
  [],
  97 ∷ [],
  refl,
  refl,
  (
    97 ∷ [],
    [],
    refl,
    (0, (97 ∷ [], [], refl, (97, refl, inl (omega arith)), refl)),
    ([], [], refl, refl, refl),
  ),
)

abbrev one_letter : Text
one_letter = 97 ∷ []

validate_safe_parameter_pattern-IsPlain_example : IsPlain one_letter × (0 < length one_letter)
validate_safe_parameter_pattern-IsPlain_example =
    validate_safe_parameter_pattern-IsPlain parse [] letters one_letter validate_letters refl
      Matches-letters
