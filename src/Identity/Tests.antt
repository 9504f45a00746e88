-- ===== src/Identity/Tests.antt =====
-- identity.go: one reply.
use nats_web_gateway.Base.{Option, [], err, length, none, ok, refl, some, ◌↔◌, ◌∷◌, ◌≡◌, ◌≢◌, ◌≤◌}
use nats_web_gateway.Base.Int.{pos}
use nats_web_gateway.Base.Text.{Text, bytes}
use nats_web_gateway.Base.Utf8.{runes}
use nats_web_gateway.Identity.Bounds.{IsPassable, resolve_downstream_identity_iff}
use nats_web_gateway.Identity.{
  UserInfo, check_value, invalid, max_reply_bytes, resolve_downstream_identity, unavailable,
  user_info_request,
}
use nats_web_gateway.Config.{DownstreamIdentity}
use nats_web_gateway.Translation.{Message, Requester}

computing : Unit {0}
unfolding check_value resolve_downstream_identity bytes runes
computing = tt

-- The payload is the user.
abbrev unmarshal : Text → Option UserInfo
unmarshal s = some (record { user = some s; error = [] })

abbrev reply : Message
reply = record { subject = []; header = []; payload = bytes "U1" }

abbrev requester : Requester
requester message = some (some reply)

abbrev config : DownstreamIdentity
config = record { source = []; header = bytes "X-User"; max_value_bytes = pos 2 }

resolved : resolve_downstream_identity unmarshal requester config ≡ ok (bytes "U1")
unfolding computing
resolved = refl

-- One byte too long, a line end, a broken text, no reply.
refused :
    (resolve_downstream_identity unmarshal requester (record config { max_value_bytes = pos 1 })
      ≡ err invalid)
    × (check_value (b'a' ∷ 10 ∷ []) (pos 9) ≡ err invalid)
    × (check_value (0xff ∷ []) (pos 9) ≡ err invalid)
    × (resolve_downstream_identity unmarshal (λ m. some none) config ≡ err unavailable)
unfolding computing
refused = (refl, refl, refl, refl)

-- U+0085, a control character that is not one of ASCII, passes.
next_line_passes : check_value (0xc2 ∷ 0x85 ∷ []) (pos 9) ≡ ok (0xc2 ∷ 0x85 ∷ [])
unfolding computing
next_line_passes = refl

resolve_downstream_identity_iff_example :
    (resolve_downstream_identity unmarshal requester config ≡ ok (bytes "U1")) ↔ (
      IsPassable (bytes "U1") (pos 2)
      × ((answer : Message) × (requester user_info_request ≡ some (some answer))
          × (answer.payload ≢ [])
          × (length answer.payload ≤ max_reply_bytes)
          × (unmarshal answer.payload ≡ some (record { user = some (bytes "U1"); error = [] }))))
resolve_downstream_identity_iff_example =
    resolve_downstream_identity_iff unmarshal requester config (bytes "U1")
