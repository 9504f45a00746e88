-- ===== src/Translation.antt =====
-- internal/translation/translation.go: one HTTP request as one NATS request with its reply, within
-- bounds on both.
pub mod Bounds
mod Tests
use nats_web_gateway.Base.{
  Bool, List, Option, Result, [], err, if◌then◌else◌, length, ltb, map, none, not, ok, some, suc,
  zero, ℕ, ◌&&◌, ◌++◌, ◌+◌, ◌-◌, ◌^◌, ◌||◌, ◌∷◌,
}
use nats_web_gateway.Base.Text.{Text}

-- A body that gives its bytes and then its end, or an error if `broken`; the error comes by a call
-- of its own, after the bytes.
pub record Reader : Type 0 where
  pub content : Text
  pub broken : Bool

-- What the context says when the body has been read: whether it is done, and whether the function
-- that closes the reader was stopped before it ran.
pub record Context : Type 0 where
  pub done : Bool
  pub stopped : Bool

pub record Request : Type 0 where
  pub subject : Text
  -- `Header.Values`
  pub header_values : Text → List Text
  pub body : Option Reader

-- The headers stand in the order in which they were added.
pub record Message : Type 0 where
  pub subject : Text
  pub header : List (Text × Text)
  pub payload : Text

pub data TranslationError : Type 0 where
  request_too_large reply_too_large malformed_reply body_cancelled body_broken : TranslationError
  request_failed : TranslationError

abbrev pub max_int64 : ℕ
max_int64 = 2 ^ 63 - 1

-- The bytes that `io.LimitReader(reader, limit+1)` lets through: the sum wraps to a negative number
-- at the largest limit, and then it lets none through.
abbrev pub readable : ℕ → ℕ
readable limit = if ltb limit max_int64 then limit + 1 else 0

unfoldable pub take_bytes : ℕ → Text → Text
take_bytes zero s = []
take_bytes (suc n) [] = []
take_bytes (suc n) (c ∷ s) = c ∷ take_bytes n s

-- `io.ReadAll` of the limited reader: the bytes, and whether it met the reader's error.
abbrev pub read_all : ℕ → Reader → Text × Bool
read_all n r = (take_bytes n r.content, r.broken && ltb (length r.content) n)

-- `readBounded`, for a limit that is not negative.
unfoldable pub read_bounded : Context → Option Reader → ℕ → Result TranslationError Text
read_bounded context none limit = ok []
read_bounded context (some reader) limit =
    let (payload, failed) = read_all (readable limit) reader in
    if context.done && (not context.stopped || failed)
    then err body_cancelled
    else if failed
    then err body_broken
    else if ltb limit (length payload)
    then err request_too_large
    else ok payload

-- The values of one allowed header.
abbrev pub header_entries : Text → List Text → List (Text × Text)
header_entries name values = map (λ value. (name, value)) values

-- The loops that copy the allowed headers.
unfoldable pub copy_headers : (Text → List Text) → List Text → List (Text × Text)
copy_headers values [] = []
copy_headers values (name ∷ names) = header_entries name (values name) ++ copy_headers values names

-- The reply of `RequestMsgWithContext`: `none` for its error, `some none` for a nil message.
abbrev pub Requester : Type 0
Requester = Message → Option (Option Message)

unfoldable pub check_reply : Option (Option Message) → ℕ → Result TranslationError Message
check_reply none max_reply = err request_failed
check_reply (some none) max_reply = err malformed_reply
check_reply (some (some reply)) max_reply =
    if ltb max_reply (length reply.payload) then err reply_too_large else ok reply

abbrev pub message_of : Request → List Text → Text → Message
message_of request names body = record {
  subject = request.subject;
  header = copy_headers request.header_values names;
  payload = body;
}

-- `Execute`: the message that was sent, if one was, and the result.
unfoldable pub execute :
    Context
    → Requester
    → Request
    → List Text
    → ℕ
    → ℕ
    → Option Message × Result TranslationError Message
execute context requester request names max_request max_reply =
    elim (read_bounded context request.body max_request) [
      | err e ↦ (none, err e)
      | ok body ↦
          let message = message_of request names body in
          (some message, check_reply (requester message) max_reply)
    ]
