-- ===== src/Negotiation/Selection.antt =====
-- response.go: `matches` and `selectRepresentation`.
use nats_web_gateway.Base.{
  Bool, List, Option, [], false, if◌then◌else◌, length, ltb, none, not, some, true, ℕ, ◌&&◌, ◌==◌,
  ◌||◌, ◌∷◌,
}
use nats_web_gateway.Base.Map.{Map, lookup}
use nats_web_gateway.Base.Text.{Text, cut, is_empty, text_eq}
use nats_web_gateway.Config.{Response, elements}
use nats_web_gateway.Negotiation.Header.{is_blank}
use nats_web_gateway.Negotiation.Accept.{AcceptRange, MediaFunctions, parse_accept}

-- A map gives the empty text for a missing key.
abbrev pub text_at : Text → Map Text → Text
text_at name m = elim (lookup name m) [ none ↦ [] | some value ↦ value ]

abbrev pub parameters_match : Map Text → Map Text → Bool
parameters_match [] parameters = true
parameters_match ((name, value) ∷ wanted) parameters =
    text_eq (text_at name parameters) value && parameters_match wanted parameters

-- `acceptRange.matches`
unfoldable pub matches : AcceptRange → Text → Text → Map Text → Bool
matches range type_name subtype parameters =
    if (not (text_eq range.type_name (b'*' ∷ [])) && not (text_eq range.type_name type_name))
      || (not (text_eq range.subtype (b'*' ∷ [])) && not (text_eq range.subtype subtype))
    then false
    else parameters_match range.parameters parameters

-- What makes a range come before the one that was best so far.
unfoldable pub is_better : AcceptRange → AcceptRange → Bool
is_better candidate best =
    ltb best.specificity candidate.specificity
    || (candidate.specificity == best.specificity
        && ltb best.parameter_count candidate.parameter_count)
    || (candidate.specificity == best.specificity
        && candidate.parameter_count == best.parameter_count
        && ltb candidate.order best.order)

-- One round of the loop over the ranges, whose best one so far starts as none: its specificity of
-- -1 is below that of each range.
unfoldable pub next_best : Bool → AcceptRange → Option AcceptRange → Option AcceptRange
next_best false candidate best = best
next_best true candidate none = some candidate
next_best true candidate (some best) = some (if is_better candidate best then candidate else best)

unfoldable pub best_range :
    List AcceptRange → Text → Text → Map Text → Option AcceptRange → Option AcceptRange
best_range [] type_name subtype parameters best = best
best_range (candidate ∷ ranges) type_name subtype parameters best =
    best_range ranges type_name subtype parameters
      (next_best (matches candidate type_name subtype parameters) candidate best)

-- The quality of the best range, 0 without one, where the program has -1: neither is chosen.
abbrev pub quality_of : Option AcceptRange → ℕ
quality_of none = 0
quality_of (some range) = range.quality

-- `panics` is the index behind the end of the parts of a media type without a slash.
pub data Selected : Type 0 where
  selected : Text → Selected
  not_acceptable : Selected
  panics : Selected

-- The comparison at the end of each round: the best quality so far starts below 0.
unfoldable pub keep_best : Text → ℕ → Option (Text × ℕ) → Option (Text × ℕ)
keep_best representation quality none =
    if ltb 0 quality then some (representation, quality) else none
keep_best representation quality (some (best, best_quality)) =
    if ltb 0 quality && ltb best_quality quality
    then some (representation, quality)
    else some (best, best_quality)

module _ (functions : MediaFunctions) where
  -- The quality that the ranges give a representation; `none` is the panic.
  unfoldable pub representation_quality : List AcceptRange → Text → Option ℕ
  representation_quality ranges representation =
      let media = functions.parse_media_type representation in
      elim (cut media.media_type b'/') [
        | none ↦ if is_empty ranges then some 0 else none
        | some (type_name, subtype) ↦
            some (quality_of (best_range ranges type_name subtype media.parameters none))
      ]

  -- The loop over the declared representations, with the best one so far and its quality.
  unfoldable pub choose :
      List AcceptRange → List Text → Option (Text × ℕ) → Option (Option (Text × ℕ))
  choose ranges [] best = some best
  choose ranges (representation ∷ declared) best =
      elim (representation_quality ranges representation) [
        | none ↦ none
        | some quality ↦ choose ranges declared (keep_best representation quality best)
      ]

  -- `selectRepresentation`
  unfoldable pub select_representation : Text → Response → Selected
  select_representation header response =
      let declared = response.content_type ∷ elements response.representations in
      if not response.negotiate_accept || is_blank header
      then selected response.content_type
      else if ltb 8192 (length header)
      then not_acceptable
      else elim (parse_accept functions header) [
        | none ↦ not_acceptable
        | some ranges ↦ elim (choose ranges declared none) [
          | none ↦ panics
          | some none ↦ not_acceptable
          | some (some (representation, _)) ↦ selected representation
        ]
      ]
