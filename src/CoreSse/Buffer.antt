-- ===== src/CoreSse/Buffer.antt =====
-- core_sse.go: `coreSSEBuffer`.
use nats_web_gateway.Base.Text.{bytes, Text}
use nats_web_gateway.Base.{
  All, All-append, List, Option, Option-cases, [], arith, if_intro, if◌then◌else◌, inl, inr, length,
  length-append, ltb, none, refl, some, subst, ℕ, ◌++◌, ◌+◌, ◌-◌, ◌==◌, ◌||◌, ◌∷◌, ◌≡◌, ◌≢◌, ◌≤◌,
}

-- A message is its payload; its size is the payload's length.
pub record Buffer : Type 0 where
  -- The channel of messages, the oldest first, and its capacity.
  pub messages : List Text
  pub message_limit : ℕ
  -- The channel of the terminal reason, which holds one.
  pub terminal : Option Text
  pub bytes : ℕ
  pub max_bytes : ℕ
  pub max_event_bytes : ℕ

-- `newCoreSSEBuffer`
unfoldable pub new_buffer : ℕ → ℕ → ℕ → Buffer
new_buffer message_limit byte_limit event_limit = record {
  messages = [];
  message_limit = message_limit;
  terminal = none;
  bytes = 0;
  max_bytes = byte_limit;
  max_event_bytes = event_limit;
}

abbrev pub slow_consumer : Text
slow_consumer = bytes "slow consumer"

abbrev pub invalid_event : Text
invalid_event = bytes "invalid event payload"

-- `fail`: the first reason stays.
unfoldable pub fail : Text → Buffer → Buffer
fail reason b = elim b.terminal [ none ↦ record b { terminal = some reason } | some first ↦ b ]

-- `enqueue`, the callback of the subscription, under the lock.
unfoldable pub enqueue : Text → Buffer → Buffer
unfolding fail
enqueue payload b =
    let size = length payload in
    if ltb b.max_event_bytes size
    then fail invalid_event b
    else if ltb b.max_bytes size
        || ltb (b.max_bytes - size) b.bytes
        || length b.messages == b.message_limit
    then fail slow_consumer b
    else record b { messages = b.messages ++ payload ∷ []; bytes = b.bytes + size }

-- The stream takes a message from the channel, and then gives its bytes back by `release`; the
-- subscription may call `enqueue` between the two.
pub record Stream : Type 0 where
  pub buffer : Buffer
  pub taken : Option Text

pub data Step : Stream → Stream → Type 0 where
  enqueues : (s : Stream) (payload : Text) → Step s (record s { buffer = enqueue payload s.buffer })
  takes :
      (s : Stream) (payload : Text) (rest : List Text)
      → s.taken ≡ none
      → s.buffer.messages ≡ payload ∷ rest
      → Step s (record { buffer = record s.buffer { messages = rest }; taken = some payload })
  releases :
      (s : Stream) (payload : Text)
      → s.taken ≡ some payload
      → Step s (record {
        buffer = record s.buffer { bytes = s.buffer.bytes - length payload };
        taken = none;
      })

pub data Reach (start : Stream) : Stream → Type 0 where
  here : Reach start start
  next : {s t : Stream} → Reach start s → Step s t → Reach start t

abbrev pub total : List Text → ℕ
total [] = 0
total (payload ∷ payloads) = length payload + total payloads

abbrev pub taken_size : Option Text → ℕ
taken_size none = 0
taken_size (some payload) = length payload

-- The count of bytes is exact, and both bounds hold; the limits are the given ones.
pub record IsWithin (message_limit byte_limit event_limit : ℕ) (s : Stream) : Type 0 where
  pub same_messages : s.buffer.message_limit ≡ message_limit
  pub same_bytes : s.buffer.max_bytes ≡ byte_limit
  pub same_event : s.buffer.max_event_bytes ≡ event_limit
  pub exact : s.buffer.bytes ≡ total s.buffer.messages + taken_size s.taken
  pub few : length s.buffer.messages ≤ message_limit
  pub small : s.buffer.bytes ≤ byte_limit
  pub events : All (λ payload. length payload ≤ event_limit) s.buffer.messages

total-append : (xs ys : List Text) → total (xs ++ ys) ≡ total xs + total ys
total-append [] ys = omega arith
total-append (x ∷ xs) ys = omega (arith, total-append xs ys)

module _ {message_limit byte_limit event_limit : ℕ} where
  fail-IsWithin :
      (reason : Text) {s : Stream}
      → IsWithin message_limit byte_limit event_limit s
      → IsWithin message_limit byte_limit event_limit (record s { buffer = fail reason s.buffer })
  unfolding fail
  fail-IsWithin reason {s} v = elim (Option-cases s.buffer.terminal) [
    | inl open' ↦
        rw (open', fail)
          (record {
            same_messages = v.same_messages;
            same_bytes = v.same_bytes;
            same_event = v.same_event;
            exact = v.exact;
            few = v.few;
            small = v.small;
            events = v.events;
          })
    | inr (first, kept) ↦ rw (kept, fail) v
  ]

  push-IsWithin :
      (payload : Text) {s : Stream}
      → IsWithin message_limit byte_limit event_limit s
      → length payload ≤ event_limit
      → length payload + s.buffer.bytes ≤ byte_limit
      → length s.buffer.messages ≢ message_limit
      → IsWithin message_limit byte_limit event_limit (record s {
        buffer = record s.buffer {
          messages = s.buffer.messages ++ payload ∷ [];
          bytes = s.buffer.bytes + length payload;
        };
      })
  push-IsWithin payload {s} v fits room free = record {
    same_messages = v.same_messages;
    same_bytes = v.same_bytes;
    same_event = v.same_event;
    exact = omega (arith, v.exact, total-append s.buffer.messages (payload ∷ []));
    few = omega (arith, v.few, length-append s.buffer.messages (payload ∷ []));
    small = omega arith;
    events = All-append _ s.buffer.messages (payload ∷ []) v.events (fits, tt);
  }

  enqueue-IsWithin :
      (payload : Text) {s : Stream}
      → IsWithin message_limit byte_limit event_limit s
      → IsWithin message_limit byte_limit event_limit
          (record s { buffer = enqueue payload s.buffer })
  unfolding enqueue
  enqueue-IsWithin payload {s} v =
      if_intro After (ltb s.buffer.max_event_bytes (length payload)) _ _
        (λ _. fail-IsWithin invalid_event v)
        (λ fits.
          if_intro After
            (ltb s.buffer.max_bytes (length payload)
              || ltb (s.buffer.max_bytes - length payload) s.buffer.bytes
              || length s.buffer.messages == s.buffer.message_limit)
            _ _ (λ _. fail-IsWithin slow_consumer v)
            (λ room.
              push-IsWithin payload v (ground (arith, v.same_event)) (ground (arith, v.same_bytes))
                (ground (arith, v.same_messages))))
    where
      After : Buffer → Type 0
      After b = IsWithin message_limit byte_limit event_limit (record s { buffer = b })

  Step-IsWithin :
      {s t : Stream}
      → Step s t
      → IsWithin message_limit byte_limit event_limit s
      → IsWithin message_limit byte_limit event_limit t
  Step-IsWithin (enqueues s payload) v = enqueue-IsWithin payload v
  Step-IsWithin (takes s payload rest free first) v = record {
    same_messages = v.same_messages;
    same_bytes = v.same_bytes;
    same_event = v.same_event;
    exact = ground (arith, v.exact);
    few = ground (arith, v.few);
    small = v.small;
    events =
        (let e : All (λ payload. length payload ≤ event_limit) (payload ∷ rest) =
            subst (All (λ payload. length payload ≤ event_limit)) first v.events in
          e).1;
  }
  Step-IsWithin (releases s payload held) v = record {
    same_messages = v.same_messages;
    same_bytes = v.same_bytes;
    same_event = v.same_event;
    exact = ground arith;
    few = v.few;
    small = omega arith;
    events = v.events;
  }

-- In every state of a stream that a new buffer leads to, by any interleaving of the subscription's
-- messages with the stream's own steps, the byte count is that of the messages queued and of the one
-- taken and not given back, it is at most the byte limit, at most `message_limit` messages are
-- queued, and none of them is larger than an event may be.
pub Reach-IsWithin :
    (message_limit byte_limit event_limit : ℕ) (s : Stream)
    → Reach (record { buffer = new_buffer message_limit byte_limit event_limit; taken = none }) s
    → IsWithin message_limit byte_limit event_limit s
unfolding new_buffer
Reach-IsWithin message_limit byte_limit event_limit s here = record {
  same_messages = refl;
  same_bytes = refl;
  same_event = refl;
  exact = omega arith;
  few = omega arith;
  small = omega arith;
  events = tt;
}
Reach-IsWithin message_limit byte_limit event_limit s (next r st) =
    Step-IsWithin st (Reach-IsWithin message_limit byte_limit event_limit _ r)
