-- ===== src/CoreSse/Tests.antt =====
-- core_sse.go: the theorems on concrete payloads and one run of the buffer.
use nats_web_gateway.Base.{List, [], arith, map, none, refl, some, ◌∷◌, ◌≡◌}
use nats_web_gateway.Base.Text.{Text, bytes, cut, split, text_eq}
use nats_web_gateway.Base.Utf8.{runes}
use nats_web_gateway.CoreSse.Loop.{
  StreamEvent, arrives, beats, client_events-stream_body, control, is_invalid, shown, stream_body,
  too_long,
}
use nats_web_gateway.CoreSse.Buffer.{
  slow_consumer, IsWithin, Reach-IsWithin, Stream, enqueue, enqueues, fail, here, new_buffer, next,
  takes,
}
use nats_web_gateway.CoreSse.Framing.{
  client_events-forged, client_events-write_all, forged, write_all,
}
use nats_web_gateway.CoreSse.Client.{client_events, client_lines, read_field, read_lines}
use nats_web_gateway.CoreSse.{
  payload_lines, trim_return, write_lines, write_sse_control, write_sse_data,
}

computing : Unit {0}
unfolding payload_lines write_lines write_sse_data write_sse_control trim_return split bytes
    client_lines read_field read_lines client_events cut text_eq enqueue new_buffer fail
computing = tt

-- Two lines, the first one with CR LF, and a payload without a byte.
abbrev payloads : List Text
payloads = (97 ∷ 13 ∷ 10 ∷ 98 ∷ []) ∷ [] ∷ []

client_events-write_all_example :
    client_events (write_all payloads)
    ≡ map (λ payload. record { type = []; lines = payload_lines payload }) payloads
unfolding computing
client_events-write_all_example = client_events-write_all payloads (omega arith)

client_events-forged_example :
    client_events (write_sse_data (forged (97 ∷ []) (98 ∷ [])))
    ≡ record { type = 98 ∷ []; lines = (97 ∷ []) ∷ [] } ∷ []
client_events-forged_example = client_events-forged (97 ∷ []) (98 ∷ []) (omega arith) (omega arith)

-- A control event is one event of its type.
client_events-control :
    client_events (write_sse_control (101 ∷ []) (114 ∷ []))
    ≡ record { type = 101 ∷ []; lines = (114 ∷ []) ∷ [] } ∷ []
unfolding computing
client_events-control = refl

abbrev start : Stream
start = record { buffer = new_buffer 2 4 3; taken = none }

abbrev filled : Stream
filled = record start { buffer = enqueue (1 ∷ 2 ∷ []) start.buffer }

abbrev taken : Stream
taken = record { buffer = record filled.buffer { messages = [] }; taken = some (1 ∷ 2 ∷ []) }

-- Its bytes still count, so the next message of three bytes ends the stream.
enqueue-slow : (enqueue (3 ∷ 4 ∷ 5 ∷ []) taken.buffer).terminal ≡ some slow_consumer
unfolding computing
enqueue-slow = refl

filled-messages : filled.buffer.messages ≡ (1 ∷ 2 ∷ []) ∷ []
unfolding computing
filled-messages = refl

Reach-IsWithin_example : IsWithin 2 4 3 taken
Reach-IsWithin_example = Reach-IsWithin 2 4 3 taken (
    next (next here (enqueues start (1 ∷ 2 ∷ [])))
      (takes filled (1 ∷ 2 ∷ []) [] refl filled-messages))

-- Two messages with a heartbeat between, and the end of the duration, behind which nothing counts.
abbrev rounds : List StreamEvent
rounds = arrives (97 ∷ []) ∷ beats ∷ arrives (98 ∷ []) ∷ too_long ∷ beats ∷ []

shown-rounds :
    shown 9 rounds
    ≡ record { type = []; lines = (97 ∷ []) ∷ [] }
      ∷ record { type = []; lines = (98 ∷ []) ∷ [] }
      ∷ control "close" (bytes "maximum duration reached")
      ∷ []
unfolding computing shown is_invalid runes
shown-rounds = refl

client_events-stream_body_example : client_events (stream_body 9 rounds) ≡ shown 9 rounds
unfolding computing
client_events-stream_body_example = client_events-stream_body 9 rounds (omega arith)
