-- ===== src/Negotiation/Tests.antt =====
-- response.go: the choice on small headers.
use nats_web_gateway.Base.{
  All, List, [], any, arith, false, if◌then◌else◌, length, none, ok, refl, some, true, ℕ, ◌<◌, ◌∷◌,
  ◌≡◌, ◌≢◌, ◌⊎◌,
}
use nats_web_gateway.Base.Map.{lookup}
use nats_web_gateway.Base.Text.{
  Text, bytes, contains_any, cut, equal_fold, has_prefix, split, text_eq,
}
use nats_web_gateway.Base.TextLaws.{Without, join}
use nats_web_gateway.Negotiation.Header.{
  split_header_value-join, split_header_value-split, is_blank, scan, split_header_value,
  split_scanned, trim_space,
}
use nats_web_gateway.Negotiation.Chosen.{
  IsFirstBest, Unasked, declared, select_representation-not_acceptable,
  select_representation-selected,
}
use nats_web_gateway.Negotiation.Best.{IsBest, best_range-IsBest}
use nats_web_gateway.Negotiation.Accept.{
  AcceptRange, MediaFunctions, find_quality, parse_accept, parse_quality, parse_range, parse_ranges,
  validate_accept_extension,
}
use nats_web_gateway.Negotiation.Selection.{
  best_range, choose, is_better, keep_best, matches, next_best, not_acceptable, panics,
  representation_quality, select_representation, selected,
}
use nats_web_gateway.Config.RouteRules.{validate_response_media_type}
use nats_web_gateway.Config.{Response}

computing : Unit {0}
unfolding bytes has_prefix text_eq cut equal_fold join is_blank trim_space scan split_scanned
    split_header_value parse_quality validate_accept_extension find_quality parse_range parse_ranges
    parse_accept matches is_better next_best best_range keep_best representation_quality choose
    select_representation split lookup
computing = tt

-- A media type without parameters.
abbrev functions : MediaFunctions
functions = record {
  parse_media_type = λ s. record { media_type = s; parameters = []; failed = false };
  valid_header_field_name = λ s. true;
}

abbrev response : Response
response = record {
  mode = bytes "json";
  headers = none;
  content_type = bytes "a/json";
  representations = some (bytes "b/json" ∷ bytes "c/json" ∷ []);
  negotiate_accept = true;
  service_error_statuses = none;
}

abbrev header : Text
header = bytes "*/*;q=0.5, b/json, c/*;q=1.000"

choose_b : select_representation functions header response ≡ selected (bytes "b/json")
unfolding computing
choose_b = refl

-- The default of a blank header, the first of two equal ones, a range of quality 0, and a header
-- that does not parse.
other_choices :
    (select_representation functions (bytes " ") response ≡ selected (bytes "a/json"))
    × (select_representation functions (bytes "*/*") response ≡ selected (bytes "a/json"))
    × (select_representation functions (bytes "*/*;q=0") response ≡ not_acceptable)
    × (select_representation functions (bytes "a/json;q=2") response ≡ not_acceptable)
    × (select_representation functions (bytes "a/json,,b/json") response ≡ not_acceptable)
unfolding computing
other_choices = (refl, refl, refl, refl, refl)

-- A representation without a slash, which the validation of a route accepts, and any header that
-- parses.
panic_without_slash :
    (validate_response_media_type (bytes "a") ≡ ok (bytes "a"))
    × (select_representation functions (bytes "*/*") (record response { content_type = bytes "a" })
        ≡ panics)
unfolding computing validate_response_media_type contains_any
panic_without_slash = (refl, refl)

quoted_split :
    split_header_value (bytes "a;b=\"x,\\\"y\",c") b','
    ≡ some (bytes "a;b=\"x,\\\"y\"" ∷ bytes "c" ∷ [])
unfolding computing
quoted_split = refl

join-quoted_split :
    (join b',' (bytes "a;b=\"x,\\\"y\"" ∷ bytes "c" ∷ []) ≡ bytes "a;b=\"x,\\\"y\",c")
    × All (λ p. is_blank p ≡ false) (bytes "a;b=\"x,\\\"y\"" ∷ bytes "c" ∷ [])
    × (bytes "a;b=\"x,\\\"y\"" ∷ bytes "c" ∷ [] ≢ [])
join-quoted_split =
    split_header_value-join (bytes "a;b=\"x,\\\"y\",c") b','
      (bytes "a;b=\"x,\\\"y\"" ∷ bytes "c" ∷ []) quoted_split

abbrev plain : Text
plain = b'a' ∷ b',' ∷ b'b' ∷ []

plain-Without : Without b'"' plain
plain-Without = (omega arith, (omega arith, (omega arith, tt)))

split_header_value-split_example :
    split_header_value plain b','
    ≡ (if any is_blank (split plain b',') then none else some (split plain b','))
split_header_value-split_example = split_header_value-split plain b',' plain-Without

abbrev range : Text → Text → ℕ → ℕ → AcceptRange
range type_name subtype specificity order = record {
  type_name = type_name;
  subtype = subtype;
  parameters = [];
  quality = 1000;
  specificity = specificity;
  parameter_count = 0;
  order = order;
}

abbrev any_range : AcceptRange
any_range = range (b'*' ∷ []) (b'*' ∷ []) 0 0

abbrev exact_range : AcceptRange
exact_range = range (b'a' ∷ []) (b'b' ∷ []) 2 1

best_exact :
    best_range (any_range ∷ exact_range ∷ []) (b'a' ∷ []) (b'b' ∷ []) [] none ≡ some exact_range
unfolding computing
best_exact = refl

best_range-IsBest_example :
    IsBest (any_range ∷ exact_range ∷ []) (b'a' ∷ []) (b'b' ∷ []) [] exact_range
best_range-IsBest_example =
    best_range-IsBest (any_range ∷ exact_range ∷ []) (b'a' ∷ []) (b'b' ∷ []) [] exact_range
      best_exact

select_representation-selected_example :
    (Unasked functions header response × (bytes "b/json" ≡ response.content_type))
    ⊎ ((ranges : List AcceptRange) × (q : ℕ) × (parse_accept functions header ≡ some ranges)
        × IsFirstBest functions ranges (declared functions header response) (bytes "b/json") q)
select_representation-selected_example =
    select_representation-selected functions header response (bytes "b/json") choose_b

select_representation-not_acceptable_example :
    (8192 < length (bytes "*/*;q=0"))
    ⊎ (parse_accept functions (bytes "*/*;q=0") ≡ none)
    ⊎ ((ranges : List AcceptRange) × (parse_accept functions (bytes "*/*;q=0") ≡ some ranges)
        × All
            (λ d. representation_quality functions ranges d ≡ some 0)
            (declared functions (bytes "*/*;q=0") response))
select_representation-not_acceptable_example =
    select_representation-not_acceptable functions (bytes "*/*;q=0") response other_choices.2
