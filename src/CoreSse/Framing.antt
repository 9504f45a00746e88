-- ===== src/CoreSse/Framing.antt =====
-- core_sse.go: what a client reads of a payload that the gateway writes.
pub mod Lines
use nats_web_gateway.Base.{
  All, All-append, List, [], ap, append-nil, append_assoc, arith, false, map, refl, true, ℕ, ◌++◌,
  ◌∙◌, ◌∷◌, ◌≡◌,
}
use nats_web_gateway.Base.Text.{Text, bytes, cut, split, text_eq}
use nats_web_gateway.Base.TextLaws.{Without, split-Without, split_of_Without}
use nats_web_gateway.CoreSse.Framing.Lines.{
  OneLine, client_lines-OneLine, client_lines-write_sse_data, drop_last-written, message,
  payload_lines-cons, read_lines-message, written,
}
use nats_web_gateway.CoreSse.{trim_return, payload_lines, write_lines, write_sse_data}
use nats_web_gateway.CoreSse.Client.{
  client_lines, read_field, no_event, read_lines, client_events, drop_last,
}

pub client_events-write :
    (payload rest : Text)
    → All OneLine (payload_lines payload)
    → client_events (write_sse_data payload ++ rest)
      ≡ message (payload_lines payload) ∷ client_events rest
unfolding client_events
client_events-write payload rest h =
    let (x, xs, e) = payload_lines-cons payload in
    ap (λ ls. read_lines no_event (drop_last ls)) (client_lines-write_sse_data payload rest h)
    ∙ ap (read_lines no_event) (drop_last-written (payload_lines payload) rest)
    ∙ rw e (read_lines-message x xs (drop_last (client_lines false rest)))

-- Several payloads, written one behind the other.
abbrev pub write_all : List Text → Text
write_all [] = []
write_all (payload ∷ payloads) = write_sse_data payload ++ write_all payloads

Without-trim : (b : ℕ) (s : Text) → Without b s → Without b (trim_return s)
unfolding trim_return
Without-trim b [] h = tt
Without-trim b (c ∷ []) h = ground arith
Without-trim b (c ∷ d ∷ s) (p, h) = (p, Without-trim b (d ∷ s) h)

pub OneLine-of_lines :
    (parts : List Text)
    → All (Without 10) parts
    → All (Without 13) (map trim_return parts)
    → All OneLine (map trim_return parts)
OneLine-of_lines [] h k = tt
OneLine-of_lines (part ∷ parts) (h, hs) (k, ks) =
    ((Without-trim 10 part h, k), OneLine-of_lines parts hs ks)

-- If no payload holds a CR other than one right before a line feed or at its end, a client reads
-- exactly one event of the default type for each payload, in their order, and its data is the
-- payload's lines.
pub client_events-write_all :
    (payloads : List Text)
    → All (λ payload. All (Without 13) (payload_lines payload)) payloads
    → client_events (write_all payloads)
      ≡ map (λ payload. record { type = []; lines = payload_lines payload }) payloads
unfolding client_events payload_lines client_lines read_lines
client_events-write_all [] h = refl
client_events-write_all (payload ∷ payloads) (h, hs) =
    client_events-write payload (write_all payloads)
      (OneLine-of_lines (split payload 10) (split-Without 10 payload) h)
    ∙ ap (◌∷◌ (message (payload_lines payload))) (client_events-write_all payloads hs)

client_lines-return :
    (s rest : Text) → OneLine s → client_lines false (s ++ 13 ∷ rest) ≡ s ∷ client_lines true rest
unfolding client_lines
client_lines-return [] rest h = refl
client_lines-return (c ∷ s) rest ((p, h), (q, k)) =
    ground (arith, client_lines-return s rest (h, k))

trim_return-append :
    (s : Text) (c : ℕ) (t : Text) → trim_return (s ++ c ∷ t) ≡ s ++ trim_return (c ∷ t)
unfolding trim_return
trim_return-append [] c t = refl
trim_return-append (a ∷ []) c t = refl
trim_return-append (a ∷ b ∷ s) c t = ap (◌∷◌ a) (trim_return-append (b ∷ s) c t)

trim_return_of_Without : (s : Text) → Without 13 s → trim_return s ≡ s
unfolding trim_return
trim_return_of_Without [] h = refl
trim_return_of_Without (c ∷ []) (p, h) = ground arith
trim_return_of_Without (c ∷ d ∷ s) (p, h) = ap (◌∷◌ c) (trim_return_of_Without (d ∷ s) h)

abbrev field : Text → Text
field type = bytes "event: " ++ type

-- A payload of one line with a CR inside, behind which stands a field of the stream's own format.
abbrev pub forged : Text → Text → Text
forged shown type = shown ++ 13 ∷ field type

field-OneLine : (type : Text) → OneLine type → OneLine (field type)
unfolding bytes
field-OneLine type (h, k) = (
  All-append _ (bytes "event: ") type (omega arith) h,
  All-append _ (bytes "event: ") type (omega arith) k,
)

trim_return-forged :
    (shown type : Text) → OneLine type → trim_return (forged shown type) ≡ forged shown type
unfolding trim_return bytes
trim_return-forged shown type k =
    trim_return-append shown 13 (field type)
    ∙ ap (λ t. shown ++ 13 ∷ t) (trim_return_of_Without (field type) (field-OneLine type k).1)

payload_lines-forged :
    (shown type : Text)
    → OneLine shown
    → OneLine type
    → payload_lines (forged shown type) ≡ forged shown type ∷ []
unfolding payload_lines
payload_lines-forged shown type h k =
    ap (map trim_return) (
      split_of_Without 10 (forged shown type)
        (All-append _ shown (13 ∷ field type) h.0 ((omega arith, (field-OneLine type k).0))))
    ∙ ap (λ line. line ∷ []) (trim_return-forged shown type k)

client_lines-after_return :
    (type rest : Text)
    → client_lines true (field type ++ rest) ≡ client_lines false (field type ++ rest)
unfolding client_lines bytes
client_lines-after_return type rest = refl

client_lines-field :
    (type : Text)
    → OneLine type
    → client_lines false (field type ++ 10 ∷ 10 ∷ []) ≡ field type ∷ [] ∷ [] ∷ []
unfolding client_lines
client_lines-field type k = client_lines-OneLine (field type) (10 ∷ []) (field-OneLine type k)

forged_text :
    (shown type : Text)
    → write_lines (forged shown type ∷ []) ++ 10 ∷ []
      ≡ written shown ++ 13 ∷ (field type ++ 10 ∷ 10 ∷ [])
unfolding write_lines
forged_text shown type = simp (append_assoc, append-nil)

client_lines-forged :
    (shown type : Text)
    → OneLine shown
    → OneLine type
    → client_lines false (write_lines (forged shown type ∷ []) ++ 10 ∷ [])
      ≡ written shown ∷ field type ∷ [] ∷ [] ∷ []
unfolding bytes
client_lines-forged shown type (h, g) k =
    ap (client_lines false) (forged_text shown type)
    ∙ client_lines-return (written shown) (field type ++ 10 ∷ 10 ∷ []) (
      All-append _ (bytes "data: ") shown (omega arith) h,
      All-append _ (bytes "data: ") shown (omega arith) g,
    )
    ∙ ap (◌∷◌ (written shown))
        (client_lines-after_return type (10 ∷ 10 ∷ []) ∙ client_lines-field type k)

read_lines-forged :
    (shown type : Text)
    → read_lines no_event (written shown ∷ field type ∷ [] ∷ [])
      ≡ record { type = type; lines = shown ∷ [] } ∷ []
unfolding read_lines read_field bytes cut text_eq
read_lines-forged shown type = refl

-- A payload of one UTF-8 line that holds a CR and then a field of the stream's format is not read as
-- one event with that line as its data: the client ends the line at the CR, takes the field for one
-- of the gateway's, and dispatches an event of the type that the payload names.
pub client_events-forged :
    (shown type : Text)
    → OneLine shown
    → OneLine type
    → client_events (write_sse_data (forged shown type))
      ≡ record { type = type; lines = shown ∷ [] } ∷ []
unfolding client_events write_sse_data write_lines
client_events-forged shown type h k =
    ap (λ ls. client_events (write_lines ls ++ 10 ∷ [])) (payload_lines-forged shown type h k)
    ∙ ap (λ ls. read_lines no_event (drop_last ls)) (client_lines-forged shown type h k)
    ∙ read_lines-forged shown type
