-- ===== src/Identity.antt =====
-- identity.go: the identity that is taken from the user information of a NATS connection.
pub mod Bounds
mod Tests
use nats_web_gateway.Base.{
  Bool, Option, Result, [], any, err, if◌then◌else◌, length, ltb, none, not, ok, some, ℕ, ◌*◌, ◌==◌,
  ◌||◌,
}
use nats_web_gateway.Base.Int.{ltb_ℤ, pos, ℤ}
use nats_web_gateway.Base.Text.{Text, bytes, is_empty}
use nats_web_gateway.Base.Utf8.{runes}
use nats_web_gateway.Config.{DownstreamIdentity}
use nats_web_gateway.Translation.{Message, Requester}

-- `natsUserInfoResponse`: the user of the data, if there are data, and the raw error.
pub record UserInfo : Type 0 where
  pub user : Option Text
  pub error : Text

pub data IdentityError : Type 0 where
  query_failed unavailable invalid : IdentityError

abbrev pub user_info_subject : Text
user_info_subject = bytes "$SYS.REQ.USER.INFO"

abbrev pub max_reply_bytes : ℕ
max_reply_bytes = 64 * 1024

abbrev pub user_info_request : Message
user_info_request = record { subject = user_info_subject; header = []; payload = [] }

-- What the loop over the characters refuses.
abbrev pub is_refused : ℕ → Bool
is_refused c = c == 13 || c == 10 || c == 0 || ltb c 0x20 || c == 0x7f

-- The tests on the value. A negative bound is smaller than each length.
unfoldable pub check_value : Text → ℤ → Result IdentityError Text
check_value value max_value_bytes =
    if is_empty value
    then err unavailable
    else if ltb_ℤ max_value_bytes (pos (length value))
    then err invalid
    else elim (runes value) [
      | none ↦ err invalid
      | some characters ↦ if any is_refused characters then err invalid else ok value
    ]

-- `resolveDownstreamIdentity`, with `json.Unmarshal` and the request as arguments.
unfoldable pub resolve_downstream_identity :
    (Text → Option UserInfo) → Requester → DownstreamIdentity → Result IdentityError Text
resolve_downstream_identity unmarshal requester config = elim (requester user_info_request) [
  | none ↦ err query_failed
  | some none ↦ err unavailable
  | some (some reply) ↦
      if is_empty reply.payload || ltb max_reply_bytes (length reply.payload)
      then err unavailable
      else elim (unmarshal reply.payload) [
        | none ↦ err unavailable
        | some response ↦ elim response.user [
          | none ↦ err unavailable
          | some value ↦
              if not (is_empty response.error)
              then err unavailable
              else check_value value config.max_value_bytes
        ]
      ]
]
