-- ===== src/Translation/Bounds.antt =====
-- internal/translation/translation.go: what is sent and what is accepted.
use nats_web_gateway.Base.{
  List, Option, Result, Result-cases, [], ap, arith, err, false, inl, inr, length, none, ok, refl,
  some, suc, sym, true, zero, ℕ, ◌+◌, ◌<◌, ◌∙◌, ◌∷◌, ◌≡◌, ◌≤◌,
}
use nats_web_gateway.Base.Text.{Text}
use nats_web_gateway.Translation.{
  Context, Message, Reader, Request, Requester, TranslationError, check_reply, copy_headers,
  execute, max_int64, message_of, read_bounded, take_bytes,
}

-- The bytes of a body; a request may have none.
abbrev pub content_of : Option Reader → Text
content_of none = []
content_of (some reader) = reader.content

take_bytes-all : (n : ℕ) (s : Text) → length (take_bytes n s) < n → take_bytes n s ≡ s
unfolding take_bytes
take_bytes-all zero s h = absurd (omega arith)
take_bytes-all (suc n) [] h = refl
take_bytes-all (suc n) (c ∷ s) h = ap (◌∷◌ c) (take_bytes-all n s (omega arith))

read_bounded-whole :
    (context : Context) (body : Option Reader) (limit : ℕ) (payload : Text)
    → limit < max_int64
    → read_bounded context body limit ≡ ok payload
    → (payload ≡ content_of body) × (length payload ≤ limit)
unfolding read_bounded
read_bounded-whole context none limit payload h e = (ground arith, ground arith)
read_bounded-whole context (some reader) limit payload h e =
    let small : length (take_bytes (limit + 1) reader.content) ≤ limit = ground arith in
    let same : take_bytes (limit + 1) reader.content ≡ payload = ground arith in
    let whole : take_bytes (limit + 1) reader.content ≡ reader.content =
      take_bytes-all (limit + 1) reader.content (omega arith) in
    (sym same ∙ whole, ground arith)

sent :
    (context : Context) (requester : Requester) (request : Request) (names : List Text)
    (max_request max_reply : ℕ) (message : Message)
    → (execute context requester request names max_request max_reply).0 ≡ some message
    → (body : Text) × (read_bounded context request.body max_request ≡ ok body)
      × (message_of request names body ≡ message)
      × ((execute context requester request names max_request max_reply).1
          ≡ check_reply (requester message) max_reply)
unfolding execute
sent context requester request names max_request max_reply message e =
    split_on (read_bounded context request.body max_request) refl
  where
    split_on :
        (r : Result TranslationError Text)
        → read_bounded context request.body max_request ≡ r
        → (body : Text) × (read_bounded context request.body max_request ≡ ok body)
          × (message_of request names body ≡ message)
          × ((execute context requester request names max_request max_reply).1
              ≡ check_reply (requester message) max_reply)
    split_on (err x) q = absurd (ground arith)
    split_on (ok body) q =
        let same : message_of request names body ≡ message = ground arith in
        (body, q, same, rw (q, execute) (rw same refl))

-- If a message is sent, it carries the request's whole body, never a part of it, and no more than
-- `max_request` bytes; its subject is the request's, its headers are the copied ones, and the result
-- is what the check makes of the requester's answer to it. The limit on the request is below the
-- largest int64.
pub execute_bounds :
    (context : Context) (requester : Requester) (request : Request) (names : List Text)
    (max_request max_reply : ℕ) (message : Message)
    → max_request < max_int64
    → (execute context requester request names max_request max_reply).0 ≡ some message
    → (message.payload ≡ content_of request.body)
      × (length message.payload ≤ max_request)
      × (message.subject ≡ request.subject)
      × (message.header ≡ copy_headers request.header_values names)
      × ((execute context requester request names max_request max_reply).1
          ≡ check_reply (requester message) max_reply)
unfolding execute
execute_bounds context requester request names max_request max_reply message h e =
    let (body, taken, same, checked) =
      sent context requester request names max_request max_reply message e in
    let (whole, small) = read_bounded-whole context request.body max_request body h taken in
    (
      ap (λ (m : Message). m.payload) (sym same) ∙ whole,
      rw (← same) small,
      ap (λ (m : Message). m.subject) (sym same),
      ap (λ (m : Message). m.header) (sym same),
      checked,
    )

check_reply-eq-ok :
    (answer : Option (Option Message)) (max_reply : ℕ) (reply : Message)
    → check_reply answer max_reply ≡ ok reply
    → (answer ≡ some (some reply)) × (length reply.payload ≤ max_reply)
unfolding check_reply
check_reply-eq-ok none max_reply reply e = cc
check_reply-eq-ok (some none) max_reply reply e = cc
check_reply-eq-ok (some (some r)) max_reply reply e =
    let small : length r.payload ≤ max_reply = ground arith in
    let same : r ≡ reply = ground arith in (ap (λ x. some (some x)) same, rw (← same) small)

-- A reply that is accepted is the requester's answer to a message that was sent, and has at most
-- `max_reply` bytes.
pub execute_reply :
    (context : Context) (requester : Requester) (request : Request) (names : List Text)
    (max_request max_reply : ℕ) (reply : Message)
    → (execute context requester request names max_request max_reply).1 ≡ ok reply
    → (message : Message) × ((execute context requester request names max_request max_reply).0
        ≡ some message)
      × (requester message ≡ some (some reply))
      × (length reply.payload ≤ max_reply)
unfolding execute
execute_reply context requester request names max_request max_reply reply e =
    split_on (read_bounded context request.body max_request) refl
  where
    split_on :
        (r : Result TranslationError Text)
        → read_bounded context request.body max_request ≡ r
        → (message : Message) × ((execute context requester request names max_request max_reply).0
            ≡ some message)
          × (requester message ≡ some (some reply))
          × (length reply.payload ≤ max_reply)
    split_on (err x) q = absurd (ground arith)
    split_on (ok body) q =
        let checked : check_reply (requester (message_of request names body)) max_reply ≡ ok reply =
          ground arith in
        let (answered, small) =
          check_reply-eq-ok (requester (message_of request names body)) max_reply reply checked in
        (message_of request names body, rw (q, execute) refl, answered, small)

read_bounded-overflow :
    (body : Option Reader) (reader : Reader)
    → body ≡ some reader
    → read_bounded (record { done = false; stopped = true }) body max_int64 ≡ ok []
unfolding read_bounded take_bytes
read_bounded-overflow body reader e = rw e (ground arith)

-- At the largest limit, a request with any body at all, also with one that fails, is sent with an
-- empty body.
pub execute_overflow :
    (requester : Requester) (request : Request) (names : List Text) (max_reply : ℕ)
    (reader : Reader)
    → request.body ≡ some reader
    → (execute
        (record { done = false; stopped = true })
        requester
        request
        names
        max_int64
        max_reply).0
      ≡ some (message_of request names [])
unfolding execute
execute_overflow requester request names max_reply reader e =
    rw (read_bounded-overflow request.body reader e, execute) refl

pub execute-message :
    (context : Context) (requester : Requester) (request : Request) (names : List Text)
    (max_request max_reply : ℕ) (message : Message)
    → (execute context requester request names max_request max_reply).0 ≡ some message
    → (body : Text) × (message ≡ message_of request names body)
unfolding execute
execute-message context requester request names max_request max_reply message e =
    elim (Result-cases (read_bounded context request.body max_request)) [
      | inl (body, taken) ↦ (body, ground arith)
      | inr (bad, refused) ↦ absurd (ground arith)
    ]
