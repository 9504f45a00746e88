-- ===== src/Routes.antt =====
-- internal/routes/routes.go: matching a request against a declared route, and the construction of
-- the NATS subject from the validated values.
pub mod Replace
pub mod Unescape
pub mod Subject
pub mod Matching
mod Tests
use nats_web_gateway.Base.{
  Bool, List, Option, [], false, if◌then◌else◌, length, ltb, none, not, some, suc, true, ℕ, ◌&&◌,
  ◌++◌, ◌==◌, ◌∷◌,
}
use nats_web_gateway.Base.Map.{Map, insert, lookup}
use nats_web_gateway.Base.Text.{Text, bytes, contains, split, text_eq}
use Replace.{replace_all}
use Unescape.{path_unescape}

pub record Parameter : Type 0 where
  pub source : Text
  pub name : Text
  pub pattern : Text

-- A compiled pattern is its `FindStringIndex`.
abbrev pub Pattern : Type 0
Pattern = Text → Option (ℕ × ℕ)

pub record Route : Type 0 where
  pub path : Text
  pub subject : Text
  pub methods : List Text
  pub parameters : Map Parameter
  pub patterns : Map Pattern

-- `ErrInvalidParameter` is the one error of `Match`; with a subject it has matched without an error.
-- It panics on a name without a pattern.
pub data Outcome : Type 0 where
  match_panics : Outcome
  unmatched : Outcome
  invalid_parameter : Outcome
  subject_of : Text → Outcome

-- `regexp.Compile` is the argument; `none` is its error.
module _ (compile_pattern : Text → Option Pattern) where
  compile_patterns : Map Parameter → Option (Map Pattern)
  compile_patterns [] = some []
  compile_patterns ((name, parameter) ∷ rest) = elim (compile_pattern parameter.pattern) [
    | none ↦ none
    | some pattern ↦ elim (compile_patterns rest) [
      | none ↦ none
      | some patterns ↦ some ((name, pattern) ∷ patterns)
    ]
  ]

  unfoldable pub compile : Text → Text → List Text → Map Parameter → Option Route
  unfolding compile_patterns
  compile path subject methods parameters = elim (compile_patterns parameters) [
    | none ↦ none
    | some patterns ↦ some (record {
      path = path;
      subject = subject;
      methods = methods;
      parameters = parameters;
      patterns = patterns;
    })
  ]

-- `matchesEntireValue` of `r.patterns[name]`. A missing entry is Go's nil pattern, on which the
-- call panics: `none`.
unfoldable pub matches_entire_value : Option Pattern → Text → Option Bool
matches_entire_value none value = none
matches_entire_value (some pattern) value = elim (pattern value) [
  | none ↦ some false
  | some (start, end) ↦ some (start == 0 && end == length value)
]

-- `strings.TrimPrefix(path, "/")`
abbrev trim_slash : Text → Text
trim_slash [] = []
trim_slash (c ∷ s) = if c == b'/' then s else c ∷ s

unfoldable pub segments : Text → List Text
segments path = if text_eq path (b'/' ∷ []) then [] else split (trim_slash path) b'/'

abbrev last_is : ℕ → Text → Bool
last_is b [] = false
last_is b (c ∷ []) = c == b
last_is b (c ∷ d ∷ s) = last_is b (d ∷ s)

abbrev drop_last : Text → Text
drop_last [] = []
drop_last (c ∷ []) = []
drop_last (c ∷ d ∷ s) = c ∷ drop_last (d ∷ s)

-- The name between the braces of a segment of more than two bytes, `none` for a literal segment.
unfoldable pub placeholder_name : Text → Option Text
placeholder_name [] = none
placeholder_name (c ∷ s) =
    if ltb 2 (suc (length s)) && c == b'{' && last_is b'}' s then some (drop_last s) else none

pub data Captured : Type 0 where
  literal_differs : Captured
  bad_value : Captured
  capture_panics : Captured
  captured : Map Text → Captured

-- The loop over the segments, which stand in pairs: the lengths agree.
unfoldable pub match_segments : Map Pattern → List Text → List Text → Map Text → Captured
match_segments patterns [] got values = captured values
match_segments patterns (want ∷ wants) [] values = captured values
match_segments patterns (want ∷ wants) (got ∷ gots) values = elim (path_unescape got) [
  | none ↦ bad_value
  | some value ↦ elim (placeholder_name want) [
    | none ↦ elim (text_eq want value) [
      | true ↦ match_segments patterns wants gots values
      | false ↦ literal_differs
    ]
    | some name ↦ elim (matches_entire_value (lookup name patterns) value) [
      | none ↦ capture_panics
      | some true ↦ match_segments patterns wants gots (insert name value values)
      | some false ↦ bad_value
    ]
  ]
]

-- The value of a query parameter that is there once.
abbrev pub single : Option (List Text) → Option Text
single none = none
single (some []) = none
single (some (item ∷ [])) = some item
single (some (item ∷ other ∷ items)) = none

-- The loop over the declared parameters, which passes over those of the path.
unfoldable pub match_query : Map (List Text) → Map Pattern → Map Parameter → Map Text → Captured
match_query query patterns [] values = captured values
match_query query patterns ((name, parameter) ∷ rest) values =
    elim (text_eq parameter.source (bytes "query")) [
      | false ↦ match_query query patterns rest values
      | true ↦ elim (single (lookup parameter.name query)) [
        | none ↦ bad_value
        | some item ↦ elim (matches_entire_value (lookup name patterns) item) [
          | none ↦ capture_panics
          | some true ↦ match_query query patterns rest (insert name item values)
          | some false ↦ bad_value
        ]
      ]
    ]

abbrev pub placeholder : Text → Text
placeholder name = b'{' ∷ name ++ b'}' ∷ []

-- The loop that fills the template, in the order of the map.
unfoldable pub fill : Map Text → Text → Text
fill [] subject = subject
fill ((name, value) ∷ values) subject = fill values (replace_all (placeholder name) value subject)

unfoldable pub match : Route → Text → Text → Map (List Text) → Outcome
match r method escaped_path query =
    if not (contains r.methods method)
    then unmatched
    else if not (length (segments r.path) == length (segments escaped_path))
    then unmatched
    else elim (match_segments r.patterns (segments r.path) (segments escaped_path) []) [
      | literal_differs ↦ unmatched
      | bad_value ↦ invalid_parameter
      | capture_panics ↦ match_panics
      | captured values ↦ elim (match_query query r.patterns r.parameters values) [
        | literal_differs ↦ unmatched
        | bad_value ↦ invalid_parameter
        | capture_panics ↦ match_panics
        | captured values' ↦ subject_of (fill values' r.subject)
      ]
    ]
