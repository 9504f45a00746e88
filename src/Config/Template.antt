-- ===== src/Config/Template.antt =====
-- config.go: names, paths, subjects and the placeholders in them.
pub mod Parts
use nats_web_gateway.Base.{
  Bool, List, Option, Result, [], any, err, false, if◌then◌else◌, leb, length, none, not, ok, refl,
  reject_if, some, suc, true, zero, ℕ, ◌&&◌, ◌++◌, ◌+◌, ◌==◌, ◌>>◌, ◌||◌, ◌∷◌, ◌≡◌,
}
use nats_web_gateway.Base.Text.{
  Text, bytes, contains, contains_any, contains_text, has_prefix, has_suffix, is_empty, text_eq,
}

pub data TemplateError : Type 0 where
  not_absolute trailing_slash bad_path empty_token wildcard malformed_placeholder : TemplateError
  repeated_parameter partial_segment : Text → TemplateError

abbrev pub ascii_letter : ℕ → Bool
ascii_letter c = leb b'A' c && leb c b'Z' || leb b'a' c && leb c b'z'

abbrev pub name_char : ℕ → Bool
name_char c = ascii_letter c || leb b'0' c && leb c b'9' || c == b'_'

abbrev pub cons? : ℕ → Option Text → Option Text
cons? c none = none
cons? c (some s) = some (c ∷ s)

pub name_rest : Text → Option Text
name_rest [] = none
name_rest (c ∷ s) = elim (c == b'}') [
  | true ↦ some []
  | false ↦ elim (name_char c) [ true ↦ cons? c (name_rest s) | false ↦ none ]
]

-- The name of a match of `placeholderPattern` that begins here.
unfoldable pub placeholder_at : Text → Option Text
unfolding name_rest
placeholder_at [] = none
placeholder_at (c ∷ []) = none
placeholder_at (c ∷ d ∷ s) = if c == b'{' && ascii_letter d then cons? d (name_rest s) else none

-- A text as the leftmost matches of `placeholderPattern` and the bytes between them.
pub data Mark : Type 0 where
  char : ℕ → Mark
  name : Text → Mark

-- The number counts the bytes of a match that are still to be passed over.
unfoldable pub scan_from : ℕ → Text → List Mark
scan_from skip [] = []
scan_from (suc skip) (c ∷ s) = scan_from skip s
scan_from zero (c ∷ s) = elim (placeholder_at (c ∷ s)) [
  | none ↦ char c ∷ scan_from 0 s
  | some n ↦ name n ∷ scan_from (length n + 1) s
]

abbrev pub scan : Text → List Mark
scan s = scan_from 0 s

-- `placeholderPattern.MatchString`
unfoldable pub has_placeholder : Text → Bool
unfolding scan_from
has_placeholder s = any (λ m. elim m [ char c ↦ false | name n ↦ true ]) (scan s)

-- `strings.ContainsAny(without, "{}")` of what is left without the matches.
abbrev pub stray_brace : List Mark → Bool
stray_brace [] = false
stray_brace (char c ∷ ms) = c == b'{' || c == b'}' || stray_brace ms
stray_brace (name n ∷ ms) = stray_brace ms

-- The byte before is not there, or is the separator; and the byte behind.
abbrev pub at_boundary : ℕ → Option ℕ → Bool
at_boundary sep none = true
at_boundary sep (some c) = c == sep

abbrev pub first_byte : List Mark → Option ℕ
first_byte [] = none
first_byte (char c ∷ ms) = some c
first_byte (name n ∷ ms) = some b'{'

-- The loop over the matches, with the byte before and the names so far.
unfoldable pub collect_names :
    ℕ → Option ℕ → List Text → List Mark → Result TemplateError (List Text)
collect_names sep before params [] = ok params
collect_names sep before params (char c ∷ ms) = collect_names sep (some c) params ms
collect_names sep before params (name n ∷ ms) = elim (contains params n) [
  | true ↦ err (repeated_parameter n)
  | false ↦ elim (at_boundary sep before && at_boundary sep (first_byte ms)) [
    | true ↦ collect_names sep (some b'}') (params ++ n ∷ []) ms
    | false ↦ err (partial_segment n)
  ]
]

-- `validateTemplate`; the separator is a slash for a path and a dot for a subject.
unfoldable pub validate_template : ℕ → Text → Result TemplateError (List Text)
validate_template sep value = do
  reject_if (stray_brace (scan value)) malformed_placeholder
  collect_names sep none [] (scan value)

abbrev pub starts_with : ℕ → Text → Bool
starts_with b [] = false
starts_with b (c ∷ s) = c == b

unfoldable pub validate_path : Text → Result TemplateError (List Text)
validate_path path = do
  reject_if (not (starts_with b'/' path) || contains_any path (bytes "?#")) not_absolute
  reject_if (not (text_eq path (bytes "/")) && has_suffix path (bytes "/")) trailing_slash
  reject_if
      (contains_text path (bytes "//")
        || contains_any path (b'*' ∷ b'\\' ∷ b' ' ∷ 9 ∷ 13 ∷ 10 ∷ []))
      bad_path
  validate_template b'/' path

unfoldable pub validate_subject : Text → Result TemplateError (List Text)
validate_subject subject = do
  reject_if
      (is_empty subject
        || has_prefix subject (bytes ".")
        || has_suffix subject (bytes ".")
        || contains_text subject (bytes ".."))
      empty_token
  reject_if (contains_any subject (b'*' ∷ b'>' ∷ b' ' ∷ 9 ∷ 13 ∷ 10 ∷ [])) wildcard
  validate_template b'.' subject

template_tests :
    (validate_subject (bytes "orders.{id}.get") ≡ ok (bytes "id" ∷ []))
    × (validate_subject (bytes "orders.x{id}") ≡ err (partial_segment (bytes "id")))
    × (validate_path (bytes "/a/{x}/{x}") ≡ err (repeated_parameter (bytes "x")))
    × (validate_path (bytes "/a/{1}") ≡ err malformed_placeholder)
    × (validate_path (bytes "/a/{x}") ≡ ok (bytes "x" ∷ []))
unfolding validate_subject validate_path validate_template collect_names scan_from placeholder_at
    has_prefix has_suffix contains_text contains_any text_eq bytes contains
template_tests = (refl, refl, refl, refl, refl)
