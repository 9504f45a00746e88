-- ===== src/CoreSse/Loop.antt =====
-- core_sse.go: the loop of `serveCoreSSE`, and what its client reads.
use nats_web_gateway.Base.{
  All, Bool, Bool-cases, List, [], ap, arith, false, inl, inr, length, ltb, not, refl, sym, true, ℕ,
  ◌++◌, ◌||◌, ◌∙◌, ◌∷◌, ◌≡◌, ◌⊎◌,
}
use nats_web_gateway.Base.Text.{Text, bytes, cut, split, text_eq}
use nats_web_gateway.Base.TextLaws.{Without, split-Without}
use nats_web_gateway.Base.Utf8.{valid_string}
use Prim.Native.String.{String}
use nats_web_gateway.CoreSse.{payload_lines, write_sse_control, write_sse_data}
use nats_web_gateway.CoreSse.Buffer.{invalid_event, slow_consumer}
use nats_web_gateway.CoreSse.Client.{Event, client_events, client_lines, read_field, read_lines}
use nats_web_gateway.CoreSse.Framing.{OneLine-of_lines, client_events-write}
use nats_web_gateway.CoreSse.Framing.Lines.{client_lines-cons}

-- What one `select` of the loop takes, in the order of the rounds.
pub data StreamEvent : Type 0 where
  client_gone gateway_stops too_long beats : StreamEvent
  terminates arrives : Text → StreamEvent

abbrev pub connected_text : Text
connected_text = bytes ": connected\n\n"

abbrev pub heartbeat_text : Text
heartbeat_text = bytes ": heartbeat\n\n"

-- A message that is too large or no UTF-8, which ends the stream.
unfoldable pub is_invalid : ℕ → Text → Bool
is_invalid max_reply payload = ltb max_reply (length payload) || not (valid_string payload)

-- What the loop writes, if no write fails; a write that fails ends the stream.
unfoldable pub stream_text : ℕ → List StreamEvent → Text
stream_text max_reply [] = []
stream_text max_reply (client_gone ∷ events) = []
stream_text max_reply (gateway_stops ∷ events) = []
stream_text max_reply (terminates reason ∷ events) = write_sse_control (bytes "error") reason
stream_text max_reply (too_long ∷ events) =
    write_sse_control (bytes "close") (bytes "maximum duration reached")
stream_text max_reply (beats ∷ events) = heartbeat_text ++ stream_text max_reply events
stream_text max_reply (arrives payload ∷ events) = elim (is_invalid max_reply payload) [
  | true ↦ write_sse_control (bytes "error") (bytes "invalid event payload")
  | false ↦ write_sse_data payload ++ stream_text max_reply events
]

-- The body of the response.
unfoldable pub stream_body : ℕ → List StreamEvent → Text
stream_body max_reply events = connected_text ++ stream_text max_reply events

abbrev pub control : String → Text → Event
control type reason = record { type = bytes type; lines = reason ∷ [] }

-- What the client is to be shown: the messages that arrive before the end of the stream, and its
-- reason, if the gateway ends it.
unfoldable pub shown : ℕ → List StreamEvent → List Event
shown max_reply [] = []
shown max_reply (client_gone ∷ events) = []
shown max_reply (gateway_stops ∷ events) = []
shown max_reply (terminates reason ∷ events) = control "error" reason ∷ []
shown max_reply (too_long ∷ events) = control "close" (bytes "maximum duration reached") ∷ []
shown max_reply (beats ∷ events) = shown max_reply events
shown max_reply (arrives payload ∷ events) = elim (is_invalid max_reply payload) [
  | true ↦ control "error" (bytes "invalid event payload") ∷ []
  | false ↦ record { type = []; lines = payload_lines payload } ∷ shown max_reply events
]

-- The reasons are those of the buffer, and no payload has a CR but at the end of a line.
abbrev pub IsPlainEvent : StreamEvent → Type 0
IsPlainEvent (terminates reason) = (reason ≡ slow_consumer) ⊎ (reason ≡ invalid_event)
IsPlainEvent (arrives payload) = All (Without 13) (payload_lines payload)
IsPlainEvent e = Unit {0}

-- A comment shows nothing.
client_events-comment :
    (rest : Text)
    → (client_events (heartbeat_text ++ rest) ≡ client_events rest)
      × (client_events (connected_text ++ rest) ≡ client_events rest)
unfolding client_events client_lines read_lines read_field cut text_eq bytes
client_events-comment rest = let (x, xs, e) = client_lines-cons false rest in (rw e refl, rw e refl)

client_events-controls :
    (client_events (write_sse_control (bytes "error") slow_consumer)
      ≡ control "error" slow_consumer ∷ [])
    × (client_events (write_sse_control (bytes "error") invalid_event)
        ≡ control "error" invalid_event ∷ [])
    × (client_events (write_sse_control (bytes "close") (bytes "maximum duration reached"))
        ≡ control "close" (bytes "maximum duration reached") ∷ [])
unfolding client_events client_lines read_lines read_field cut text_eq bytes write_sse_control
client_events-controls = (refl, refl, refl)

client_events-nothing : client_events [] ≡ []
unfolding client_events client_lines read_lines
client_events-nothing = refl

arrives-invalid :
    (max_reply : ℕ) (payload : Text) (events : List StreamEvent)
    → is_invalid max_reply payload ≡ true
    → (stream_text max_reply (arrives payload ∷ events)
        ≡ write_sse_control (bytes "error") invalid_event)
      × (shown max_reply (arrives payload ∷ events) ≡ control "error" invalid_event ∷ [])
unfolding stream_text shown
arrives-invalid max_reply payload events e = ground arith

arrives-valid :
    (max_reply : ℕ) (payload : Text) (events : List StreamEvent)
    → is_invalid max_reply payload ≡ false
    → (stream_text max_reply (arrives payload ∷ events)
        ≡ write_sse_data payload ++ stream_text max_reply events)
      × (shown max_reply (arrives payload ∷ events)
          ≡ record { type = []; lines = payload_lines payload } ∷ shown max_reply events)
unfolding stream_text shown
arrives-valid max_reply payload events e = ground arith

client_events-stream_text :
    (max_reply : ℕ) (events : List StreamEvent)
    → All IsPlainEvent events
    → client_events (stream_text max_reply events) ≡ shown max_reply events
unfolding stream_text shown payload_lines
client_events-stream_text max_reply [] h = client_events-nothing
client_events-stream_text max_reply (client_gone ∷ events) (p, h) = client_events-nothing
client_events-stream_text max_reply (gateway_stops ∷ events) (p, h) = client_events-nothing
client_events-stream_text max_reply (terminates reason ∷ events) (inl slow, h) =
    rw slow client_events-controls.0
client_events-stream_text max_reply (terminates reason ∷ events) (inr invalid, h) =
    rw invalid client_events-controls.1
client_events-stream_text max_reply (too_long ∷ events) (p, h) = client_events-controls.2
client_events-stream_text max_reply (beats ∷ events) (p, h) =
    (client_events-comment (stream_text max_reply events)).0
    ∙ client_events-stream_text max_reply events h
client_events-stream_text max_reply (arrives payload ∷ events) (p, h) =
    elim (Bool-cases (is_invalid max_reply payload)) [
      | inl wrong ↦
          let (text, events') = arrives-invalid max_reply payload events wrong in
          ap client_events text ∙ client_events-controls.1 ∙ sym events'
      | inr fine ↦
          let (text, events') = arrives-valid max_reply payload events fine in
          ap client_events text
          ∙ client_events-write payload (stream_text max_reply events)
              (OneLine-of_lines (split payload 10) (split-Without 10 payload) p)
          ∙ ap (◌∷◌ (record { type = []; lines = payload_lines payload }))
              (client_events-stream_text max_reply events h)
          ∙ sym events'
    ]

-- The client of a stream whose messages have no CR but at the end of a line reads one event for each
-- message that arrives before the end, in their order and with its lines, and behind them, if the
-- gateway ends the stream by a reason of the buffer, the duration or an invalid message, one control
-- event that says so; the greeting and the heartbeats show nothing.
pub client_events-stream_body :
    (max_reply : ℕ) (events : List StreamEvent)
    → All IsPlainEvent events
    → client_events (stream_body max_reply events) ≡ shown max_reply events
unfolding stream_body
client_events-stream_body max_reply events h =
    (client_events-comment (stream_text max_reply events)).1
    ∙ client_events-stream_text max_reply events h
