-- ===== src/Caddyfile/File.antt =====
-- config.go: `UnmarshalCaddyfile`.
use nats_web_gateway.Base.{
  List, Result, [], err, if◌then◌else◌, none, not, ok, reject_if, some, wrap, ◌++◌, ◌>>=◌, ◌>>◌,
  ◌∷◌,
}
use nats_web_gateway.Base.Map.{Map, lookup}
use nats_web_gateway.Base.Text.{Text, bytes, contains, is_empty, text_eq}
use nats_web_gateway.Config.{NatsConnection, Route}
use nats_web_gateway.Profiles.{RouteProfile}
use nats_web_gateway.Gateway.Provision.{Handler, ProvisionError, Surroundings, resolve, validate}
use nats_web_gateway.Caddyfile.Options.{
  BlockError, Parsers, Setter, arguments, option_repeated, option_unknown, some_option, text_option,
  value_option,
}
use nats_web_gateway.Caddyfile.{Segment, unmarshal_route}

pub data FileError : Type 0 where
  in_block : BlockError → FileError
  refused : ProvisionError → FileError

-- What the dispenser gives of a line of the handler's block: its first word, the arguments behind
-- it, and the segment that the line starts.
pub record Line : Type 0 where
  pub word : Text
  pub rest : List Text
  pub segment : Segment

-- The switch over the NATS options.
unfoldable pub nats_options : Parsers → Map (Setter NatsConnection)
nats_options p =
    (bytes "nats_urls", some_option (λ ts n. record n { urls = ts }))
    ∷ (bytes "nats_user", text_option (λ t n. record n { username = t }))
    ∷ (bytes "nats_password", text_option (λ t n. record n { password = t }))
    ∷ (bytes "connect_timeout", value_option p.duration (λ v n. record n { connect_timeout = v }))
    ∷ (bytes "reconnect_wait", value_option p.duration (λ v n. record n { reconnect_wait = v }))
    ∷ (bytes "max_reconnects", value_option p.int (λ v n. record n { max_reconnects = v }))
    ∷ (bytes "drain_timeout", value_option p.duration (λ v n. record n { drain_timeout = v }))
    ∷ []

unfoldable pub set_nats : Parsers → Line → NatsConnection → Result BlockError NatsConnection
set_nats p line n = elim (lookup line.word (nats_options p)) [
  | none ↦ err (option_unknown line.word)
  | some setter ↦ setter line.rest n
]

-- A block `route_profile` names its profile as a route, and says with `use` or `extends` what it
-- extends.
abbrev pub profile_of : Route → RouteProfile
profile_of r = record {
  name = r.name;
  extends = r.profile;
  route = record r { name = []; profile = [] };
}

-- One round of the loop, with the options seen.
unfoldable pub read_line :
    Parsers → List Text → Line → Handler → Result BlockError (List Text × Handler)
read_line p seen line h =
    if text_eq line.word (bytes "route")
    then unmarshal_route p line.segment
      >>= (λ r. ok (seen, record h { routes = h.routes ++ r ∷ [] }))
    else if text_eq line.word (bytes "route_profile")
    then unmarshal_route p line.segment
      >>= (λ r. ok (seen, record h { route_profiles = h.route_profiles ++ profile_of r ∷ [] }))
    else if contains seen line.word
    then err (option_repeated line.word)
    else set_nats p line h.nats >>= (λ n. ok (line.word ∷ seen, record h { nats = n }))

unfoldable pub read_file : Parsers → List Text → List Line → Handler → Result BlockError Handler
read_file p seen [] h = ok h
read_file p seen (line ∷ lines) h =
    read_line p seen line h >>= (λ (seen', h'). read_file p seen' lines h')

-- `UnmarshalCaddyfile`, with the arguments of the handler's directive.
unfoldable pub unmarshal_caddyfile :
    Surroundings → Parsers → List Text → List Line → Handler → Result FileError Handler
unmarshal_caddyfile env p args lines h =
    wrap in_block (reject_if (not (is_empty args)) arguments)
    >> (wrap in_block (read_file p [] lines h) >>= (λ h'.
        wrap refused (validate env h')
        >> (wrap refused (resolve env h')
            >>= (λ routes'. ok (record h' { routes = routes'; route_profiles = [] })))))
