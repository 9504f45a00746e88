-- ===== src/Caddyfile/Tests.antt =====
-- config.go: a Caddyfile with a profile and a route that uses it.
use nats_web_gateway.Base.{List, Option, [], err, none, ok, refl, some, true, ◌-◌, ◌↔◌, ◌∷◌, ◌≡◌}
use nats_web_gateway.Base.Int.{pos, ℤ}
use nats_web_gateway.Base.Text.{Text, bytes}
use nats_web_gateway.Config.{Route}
use nats_web_gateway.Profiles.Clear.{zero_route}
use nats_web_gateway.Gateway.Provision.{Handler, resolve, validate}
use nats_web_gateway.Gateway.Tests.{computing, env, nats, plain}
use nats_web_gateway.Caddyfile.Options.{Parsers, option_repeated, options}
use nats_web_gateway.Caddyfile.{Segment, apply_option, read_lines, see, unmarshal_route}
use nats_web_gateway.Caddyfile.File.{
  Line, nats_options, read_file, read_line, set_nats, unmarshal_caddyfile,
}
use nats_web_gateway.Caddyfile.Once.{IsOnce, applied, unmarshal_route_iff}
use nats_web_gateway.Caddyfile.Adapted.{unmarshal_caddyfile-adapted}

-- The number of a digit.
abbrev digit : Text → Option ℤ
digit [] = none
digit (b ∷ _) = some (pos (b - 48))

abbrev parsers : Parsers
parsers = record { duration = digit; int = digit; int64 = digit; bool = λ s. some true }

abbrev option : Text → Text → Text × List Text
option key value = (key, value ∷ [])

abbrev route_lines : List (Text × List Text)
route_lines =
    option (bytes "use") (bytes "p")
    ∷ option (bytes "path") (bytes "/a")
    ∷ option (bytes "methods") (bytes "GET")
    ∷ option (bytes "subject") (bytes "s")
    ∷ []

abbrev profile_lines : List (Text × List Text)
profile_lines =
    option (bytes "timeout") (bytes "1")
    ∷ option (bytes "max_request_body_bytes") (bytes "1")
    ∷ option (bytes "max_reply_bytes") (bytes "1")
    ∷ option (bytes "response_mode") (bytes "json")
    ∷ option (bytes "response_content_type") (bytes "application/json")
    ∷ option (bytes "stream_mode") (bytes "request_reply")
    ∷ []

abbrev declared : Route
declared = record zero_route {
  name = bytes "a";
  profile = bytes "p";
  path = bytes "/a";
  methods = some (bytes "GET" ∷ []);
  subject = bytes "s";
}

unmarshal-declared :
    unmarshal_route parsers (record { first = bytes "a" ∷ []; lines = route_lines }) ≡ ok declared
unfolding computing unmarshal_route read_lines see apply_option options
unmarshal-declared = refl

-- The second `path` is refused.
unmarshal-repeated :
    unmarshal_route parsers (record {
      first = bytes "a" ∷ [];
      lines = option (bytes "path") (bytes "/a") ∷ option (bytes "path") (bytes "/b") ∷ [];
    })
    ≡ err (option_repeated (bytes "path"))
unfolding computing unmarshal_route read_lines see apply_option options
unmarshal-repeated = refl

unmarshal_route_iff_example :
    (unmarshal_route parsers (record { first = bytes "a" ∷ []; lines = route_lines }) ≡ ok declared)
    ↔ ((label : Text) × (more : List Text) × (bytes "a" ∷ [] ≡ label ∷ more)
        × IsOnce route_lines
        × (applied parsers route_lines (record zero_route { name = label }) ≡ ok declared))
unmarshal_route_iff_example =
    unmarshal_route_iff parsers (record { first = bytes "a" ∷ []; lines = route_lines }) declared

abbrev no_segment : Segment
no_segment = record { first = []; lines = [] }

abbrev setting : Text → Text → Line
setting key value = record { word = key; rest = value ∷ []; segment = no_segment }

abbrev block : Text → Text → List (Text × List Text) → Line
block key label lines = record {
  word = key;
  rest = label ∷ [];
  segment = record { first = label ∷ []; lines = lines };
}

abbrev file : List Line
file =
    setting (bytes "nats_urls") (bytes "u")
    ∷ setting (bytes "connect_timeout") (bytes "1")
    ∷ block (bytes "route") (bytes "a") route_lines
    ∷ setting (bytes "reconnect_wait") (bytes "1")
    ∷ setting (bytes "max_reconnects") (bytes "0")
    ∷ setting (bytes "drain_timeout") (bytes "1")
    ∷ block (bytes "route_profile") (bytes "p") profile_lines
    ∷ []

abbrev empty : Handler
empty = record {
  nats = record {
    urls = [];
    username = [];
    password = [];
    connect_timeout = pos 0;
    reconnect_wait = pos 0;
    max_reconnects = pos 0;
    drain_timeout = pos 0;
  };
  route_profiles = [];
  routes = [];
}

abbrev adapted : Handler
adapted = record { nats = nats; route_profiles = []; routes = plain (bytes "a") (bytes "/a") ∷ [] }

unmarshal-file : unmarshal_caddyfile env parsers [] file empty ≡ ok adapted
unfolding computing unmarshal_route read_lines see apply_option options unmarshal_caddyfile
    read_file read_line set_nats nats_options
unmarshal-file = refl

unmarshal_caddyfile-adapted_example :
    (adapted.route_profiles ≡ [])
    × ((before : Handler) × (read_file parsers [] file empty ≡ ok before)
        × (resolve env before ≡ ok adapted.routes))
    × (resolve env adapted ≡ ok adapted.routes)
    × (validate env adapted ≡ ok tt)
unmarshal_caddyfile-adapted_example =
    unmarshal_caddyfile-adapted env parsers [] file empty adapted unmarshal-file
