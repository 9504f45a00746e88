-- ===== src/Caddyfile.antt =====
-- config.go: the route blocks of a Caddyfile.
pub mod Adapted
pub mod File
pub mod Once
pub mod Options
mod Tests
use nats_web_gateway.Base.{List, Result, [], err, if◌then◌else◌, none, ok, some, ◌>>=◌, ◌∷◌}
use nats_web_gateway.Base.Map.{lookup}
use nats_web_gateway.Base.Text.{Text, bytes, contains}
use nats_web_gateway.Caddyfile.Options.{
  BlockError, Parsers, arguments, option_repeated, option_unknown, options,
}
use nats_web_gateway.Config.{Route}
use nats_web_gateway.Profiles.Clear.{zero_route}

-- What the dispenser gives of a segment: the arguments of its first line, and the name and the
-- arguments of each option of its block.
pub record Segment : Type 0 where
  pub first : List Text
  pub lines : List (Text × List Text)

-- The options that may stand in a block more than once.
abbrev pub repeatable : List Text
repeatable =
    bytes "parameter"
    ∷ bytes "service_error_status"
    ∷ bytes "extend_parameter"
    ∷ bytes "extend_service_error_status"
    ∷ []

unfoldable pub apply_option : Parsers → Text → List Text → Route → Result BlockError Route
apply_option p option args r = elim (lookup option (options p)) [
  | none ↦ err (option_unknown option)
  | some setter ↦ setter args r
]

-- The options seen, with this one.
unfoldable pub see : List Text → Text → Result BlockError (List Text)
see seen option =
    if contains repeatable option
    then ok seen
    else if contains seen option
    then err (option_repeated option)
    else ok (option ∷ seen)

-- The loop over the block.
unfoldable pub read_lines :
    Parsers → List Text → List (Text × List Text) → Route → Result BlockError Route
read_lines p seen [] r = ok r
read_lines p seen ((option, args) ∷ lines) r =
    see seen option
    >>= (λ seen'. apply_option p option args r >>= (λ r'. read_lines p seen' lines r'))

-- `unmarshalRoute`
unfoldable pub unmarshal_route : Parsers → Segment → Result BlockError Route
unmarshal_route p segment = elim segment.first [
  | [] ↦ err arguments
  | label ∷ _ ↦ read_lines p [] segment.lines (record zero_route { name = label })
]
