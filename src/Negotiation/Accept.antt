-- ===== src/Negotiation/Accept.antt =====
-- response.go: `parseAccept`, the ranges of an `Accept` header.
use nats_web_gateway.Base.{
  Bool, List, Option, [], all, false, if◌then◌else◌, leb, length, ltb, none, not, some, suc, true,
  zero, ℕ, ◌&&◌, ◌*◌, ◌++◌, ◌+◌, ◌-◌, ◌/◌, ◌==◌, ◌||◌, ◌∷◌,
}
use nats_web_gateway.Base.Map.{Map}
use nats_web_gateway.Base.Text.{Text, bytes, cut, equal_fold, is_empty, text_eq, to_lower}
use nats_web_gateway.Base.TextLaws.{join}
use nats_web_gateway.Negotiation.Header.{split_header_value, trim_space}

-- `mime.ParseMediaType`: the media type, its parameters, and whether there is an error.
pub record Media : Type 0 where
  pub media_type : Text
  pub parameters : Map Text
  pub failed : Bool

pub record MediaFunctions : Type 0 where
  pub parse_media_type : Text → Media
  -- `httpguts.ValidHeaderFieldName`
  pub valid_header_field_name : Text → Bool

-- The quality counts thousandths: the pattern lets three digits through, on which the comparisons
-- of the parsed numbers are those of the decimals.
pub record AcceptRange : Type 0 where
  pub type_name : Text
  pub subtype : Text
  pub parameters : Map Text
  pub quality : ℕ
  pub specificity : ℕ
  pub parameter_count : ℕ
  pub order : ℕ

-- Up to `places` digits with a highest one, the first worth ten times `weight`.
abbrev fraction : ℕ → ℕ → ℕ → Text → Option ℕ
fraction highest places weight [] = some 0
fraction highest zero weight (c ∷ s) = none
fraction highest (suc places) weight (c ∷ s) =
    if leb b'0' c && leb c highest
    then elim (fraction highest places (weight / 10) s) [
      | none ↦ none
      | some rest ↦ some ((c - b'0') * weight + rest)
    ]
    else none

abbrev fraction_behind : ℕ → ℕ → Text → Option ℕ
fraction_behind highest whole [] = some whole
fraction_behind highest whole (c ∷ s) =
    if c == b'.'
    then elim (fraction highest 3 100 s) [ none ↦ none | some part ↦ some (whole + part) ]
    else none

-- `qualityPattern` and `strconv.ParseFloat`
unfoldable pub parse_quality : Text → Option ℕ
parse_quality [] = none
parse_quality (c ∷ s) =
    if c == b'0'
    then fraction_behind b'9' 0 s
    else if c == b'1'
    then fraction_behind b'0' 1000 s
    else none

-- The name of a parameter, and its value if it has an equals sign.
abbrev pub cut_parameter : Text → Text × Option Text
cut_parameter segment = elim (cut segment b'=') [
  | none ↦ (segment, none)
  | some (name, value) ↦ (name, some value)
]

module _ (functions : MediaFunctions) where
  -- `validateAcceptExtension`
  unfoldable pub validate_accept_extension : Text → Bool
  validate_accept_extension extension =
      let (raw_name, value) = cut_parameter extension in
      let name = trim_space raw_name in
      if not (functions.valid_header_field_name name) || equal_fold name (bytes "q")
      then false
      else elim value [
        | none ↦ true
        | some raw_value ↦
            if is_empty (trim_space raw_value)
            then false
            else not
                (functions.parse_media_type (bytes "application/octet-stream;" ++ extension)).failed
      ]

  -- The loop over the parameters: the quality, and the segments before it.
  unfoldable pub find_quality : List Text → Option (ℕ × List Text)
  find_quality [] = some (1000, [])
  find_quality (segment ∷ rest) =
      let (name, value) = cut_parameter segment in
      elim (text_eq (to_lower (trim_space name)) (bytes "q")) [
        | false ↦ elim (find_quality rest) [
          | none ↦ none
          | some (quality, before) ↦ some (quality, segment ∷ before)
        ]
        | true ↦ elim value [
          | none ↦ none
          | some raw_value ↦ elim (parse_quality (trim_space raw_value)) [
            | none ↦ none
            | some quality ↦ if all validate_accept_extension rest then some (quality, []) else none
          ]
        ]
      ]

  abbrev pub specificity_of : Text → Text → ℕ
  specificity_of type_name subtype =
      if text_eq type_name (b'*' ∷ []) then 0 else if text_eq subtype (b'*' ∷ []) then 1 else 2

  -- A media range with its quality.
  abbrev pub range_of : ℕ → ℕ → Media → Option AcceptRange
  range_of order quality media = elim (cut media.media_type b'/') [
    | none ↦ none
    | some (type_name, subtype) ↦
        if media.failed
          || is_empty type_name
          || is_empty subtype
          || (text_eq type_name (b'*' ∷ []) && not (text_eq subtype (b'*' ∷ [])))
        then none
        else some (record {
          type_name = type_name;
          subtype = subtype;
          parameters = media.parameters;
          quality = quality;
          specificity = specificity_of type_name subtype;
          parameter_count = length media.parameters;
          order = order;
        })
  ]

  -- One round of the loop over the items.
  unfoldable pub parse_range : ℕ → Text → Option AcceptRange
  parse_range order item = elim (split_header_value (trim_space item) b';') [
    | none ↦ none
    | some [] ↦ none
    | some (media ∷ parameters) ↦ elim (find_quality parameters) [
      | none ↦ none
      | some (quality, before) ↦
          range_of order quality (functions.parse_media_type (join b';' (media ∷ before)))
    ]
  ]

  unfoldable pub parse_ranges : ℕ → List Text → Option (List AcceptRange)
  parse_ranges order [] = some []
  parse_ranges order (item ∷ items) = elim (parse_range order item) [
    | none ↦ none
    | some range ↦ elim (parse_ranges (order + 1) items) [
      | none ↦ none
      | some ranges ↦ some (range ∷ ranges)
    ]
  ]

  -- `parseAccept`
  unfoldable pub parse_accept : Text → Option (List AcceptRange)
  parse_accept value = elim (split_header_value value b',') [
    | none ↦ none
    | some items ↦ if is_empty items || ltb 64 (length items) then none else parse_ranges 0 items
  ]
