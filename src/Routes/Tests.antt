-- ===== src/Routes/Tests.antt =====
-- internal/routes/routes.go: the theorems on one declared route.
use nats_web_gateway.Base.{
  All, List, [], arith, if◌then◌else◌, leb, length, map, none, refl, some, true, ◌∷◌, ◌≡◌,
}
use nats_web_gateway.Base.Map.{Map, insert, lookup}
use nats_web_gateway.Base.Text.{Text, bytes, contains, has_prefix, split, text_eq}
use nats_web_gateway.Base.TextLaws.{join}
use nats_web_gateway.Routes.Unescape.{path_unescape}
use nats_web_gateway.Routes.Subject.{fill-render, fill_tokens, resolve}
use nats_web_gateway.Routes.Replace.Laws.{Piece, hole, literal, piece_text, render}
use nats_web_gateway.Routes.Replace.{replace_all}
use nats_web_gateway.Routes.Matching.{
  Accepted, Fits, QueryFits, insert_all, match-Fits, path_values, query_values,
}
use nats_web_gateway.Routes.{
  Pattern, Route, compile, fill, invalid_parameter, match, match_query, match_segments,
  matches_entire_value, placeholder_name, segments, subject_of, unmatched, match_panics,
}

computing : Unit {0}
unfolding compile match match_segments match_query matches_entire_value segments placeholder_name
    fill replace_all path_unescape bytes split text_eq contains lookup insert join has_prefix
computing = tt

-- A pattern that is its whole text: any value of at most four bytes.
abbrev short : Pattern
short value = if leb (length value) 4 then some (0, length value) else none

abbrev order : Route
order = record {
  path = b'/' ∷ b'o' ∷ b'/' ∷ b'{' ∷ b'i' ∷ b'd' ∷ b'}' ∷ [];
  subject = b'o' ∷ b'.' ∷ b'{' ∷ b'i' ∷ b'd' ∷ b'}' ∷ b'.' ∷ b'{' ∷ b'q' ∷ b'}' ∷ [];
  methods = (b'G' ∷ []) ∷ [];
  parameters =
      (b'q' ∷ [], record { source = bytes "query"; name = b'p' ∷ []; pattern = [] })
      ∷ (b'i' ∷ b'd' ∷ [], record { source = bytes "path"; name = []; pattern = [] })
      ∷ [];
  patterns = (b'q' ∷ [], short) ∷ (b'i' ∷ b'd' ∷ [], short) ∷ [];
}

abbrev request_path : Text
request_path = b'/' ∷ b'o' ∷ b'/' ∷ b'%' ∷ b'3' ∷ b'7' ∷ b'x' ∷ []

abbrev query : Map (List Text)
query = (b'p' ∷ [], (b'z' ∷ []) ∷ []) ∷ []

abbrev filled : Text
filled = b'o' ∷ b'.' ∷ b'7' ∷ b'x' ∷ b'.' ∷ b'z' ∷ []

match-order : match order (b'G' ∷ []) request_path query ≡ subject_of filled
unfolding computing
match-order = refl

other_branches :
    (match order (b'P' ∷ []) request_path query ≡ unmatched)
    × (match order (b'G' ∷ []) (b'/' ∷ b'o' ∷ []) query ≡ unmatched)
    × (match order (b'G' ∷ []) (b'/' ∷ b'p' ∷ b'/' ∷ b'7' ∷ []) query ≡ unmatched)
    × (match order (b'G' ∷ []) (b'/' ∷ b'o' ∷ b'/' ∷ b'%' ∷ b'7' ∷ []) query ≡ invalid_parameter)
    × (match order (b'G' ∷ []) request_path [] ≡ invalid_parameter)
unfolding computing
other_branches = (refl, refl, refl, refl, refl)

-- A placeholder without a compiled pattern, and the values of a request.
other_runs :
    (match (record order { patterns = [] }) (b'G' ∷ []) request_path query ≡ match_panics)
    × (path_values (segments order.path) (segments request_path)
        ≡ (b'i' ∷ b'd' ∷ [], b'7' ∷ b'x' ∷ []) ∷ [])
    × (query_values query order.parameters ≡ (b'q' ∷ [], b'z' ∷ []) ∷ [])
unfolding computing path_values query_values
other_runs = (refl, refl, refl)

match-Fits_example :
    (contains order.methods (b'G' ∷ []) ≡ true)
    × (length (segments order.path) ≡ length (segments request_path))
    × Fits order.patterns (segments order.path) (segments request_path)
    × QueryFits query order.patterns order.parameters
    × All (Accepted order.patterns) (path_values (segments order.path) (segments request_path))
    × All (Accepted order.patterns) (query_values query order.parameters)
    × (filled
        ≡ fill
            (insert_all
              (query_values query order.parameters)
              (insert_all (path_values (segments order.path) (segments request_path)) []))
            order.subject)
match-Fits_example = match-Fits order (b'G' ∷ []) request_path query filled match-order

abbrev values : Map Text
values = (b'q' ∷ [], b'z' ∷ []) ∷ (b'i' ∷ b'd' ∷ [], b'7' ∷ b'}' ∷ []) ∷ []

abbrev pieces : List Piece
pieces = literal (b'o' ∷ []) ∷ hole (b'i' ∷ b'd' ∷ []) ∷ hole (b'q' ∷ []) ∷ hole (b'u' ∷ []) ∷ []

fill_tokens_example :
    split (fill values (join b'.' (map piece_text pieces))) b'.'
    ≡ map (λ q. piece_text (resolve values q)) pieces
fill_tokens_example =
    fill_tokens values (literal (b'o' ∷ []))
      (hole (b'i' ∷ b'd' ∷ []) ∷ hole (b'q' ∷ []) ∷ hole (b'u' ∷ []) ∷ []) (omega arith)
      (omega arith)

fill-render_example : fill values (render pieces) ≡ render (map (resolve values) pieces)
fill-render_example = fill-render values pieces (omega arith) (omega arith)
