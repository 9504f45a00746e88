-- ===== src/CoreSse/Framing/Lines.antt =====
-- core_sse.go: the lines that a client reads of one written payload.
use nats_web_gateway.Base.{
  All, All-append, Bool, List, List-cases, [], ap, append-nil, append_assoc, arith, false, inl, inr,
  map, refl, ◌++◌, ◌∙◌, ◌∷◌, ◌≡◌, ◌≢◌,
}
use nats_web_gateway.Base.Text.{Text, bytes, cut, text_eq}
use nats_web_gateway.Base.TextLaws.{Without, split-cons}
use nats_web_gateway.CoreSse.{trim_return, payload_lines, data_line, write_lines, write_sse_data}
use nats_web_gateway.CoreSse.Client.{
  client_lines, Event, read_field, no_event, read_lines, drop_last,
}

-- The line holds no end of line.
abbrev pub OneLine : Text → Type 0
OneLine s = Without 10 s × Without 13 s

pub client_lines-OneLine :
    (s rest : Text) → OneLine s → client_lines false (s ++ 10 ∷ rest) ≡ s ∷ client_lines false rest
unfolding client_lines
client_lines-OneLine [] rest h = ground arith
client_lines-OneLine (c ∷ s) rest ((p, h), (q, k)) =
    ground (arith, client_lines-OneLine s rest (h, k))

abbrev pub written : Text → Text
written line = bytes "data: " ++ line

client_lines-data_line :
    (line rest : Text)
    → OneLine line
    → client_lines false (data_line line ++ rest) ≡ written line ∷ client_lines false rest
unfolding bytes
client_lines-data_line line rest (h, k) =
    ap (λ s. client_lines false (bytes "data: " ++ s)) (append_assoc line (10 ∷ []) rest)
    ∙ client_lines-OneLine (written line) rest (
      All-append _ (bytes "data: ") line (omega arith) h,
      All-append _ (bytes "data: ") line (omega arith) k,
    )

client_lines-write_lines :
    (lines : List Text) (rest : Text)
    → All OneLine lines
    → client_lines false (write_lines lines ++ rest) ≡ map written lines ++ client_lines false rest
unfolding write_lines
client_lines-write_lines [] rest h = refl
client_lines-write_lines (line ∷ lines) rest (h, hs) =
    ap (client_lines false) (append_assoc (data_line line) (write_lines lines) rest)
    ∙ client_lines-data_line line (write_lines lines ++ rest) h
    ∙ ap (◌∷◌ (written line)) (client_lines-write_lines lines rest hs)

pub client_lines-write_sse_data :
    (payload rest : Text)
    → All OneLine (payload_lines payload)
    → client_lines false (write_sse_data payload ++ rest)
      ≡ map written (payload_lines payload) ++ [] ∷ client_lines false rest
unfolding write_sse_data client_lines
client_lines-write_sse_data payload rest h =
    ap (client_lines false) (append_assoc (write_lines (payload_lines payload)) (10 ∷ []) rest)
    ∙ client_lines-write_lines (payload_lines payload) (10 ∷ rest) h

-- A data line adds itself to the event.
read_field-written :
    (line : Text) (e : Event)
    → read_field (written line) e ≡ record e { lines = e.lines ++ line ∷ [] }
unfolding read_field bytes cut text_eq
read_field-written line e = refl

read_lines-written :
    (lines : List Text) (e : Event) (rest : List Text)
    → read_lines e (map written lines ++ rest)
      ≡ read_lines (record e { lines = e.lines ++ lines }) rest
unfolding read_lines bytes
read_lines-written [] e rest = rw (append-nil e.lines)
read_lines-written (line ∷ lines) e rest =
    ap (λ e'. read_lines e' (map written lines ++ rest)) (read_field-written line e)
    ∙ read_lines-written lines (record e { lines = e.lines ++ line ∷ [] }) rest
    ∙ ap (λ ls. read_lines (record e { lines = ls }) rest) (append_assoc e.lines (line ∷ []) lines)

drop_last-append :
    (xs : List Text) (y : Text) (ys : List Text)
    → drop_last (xs ++ y ∷ ys) ≡ xs ++ drop_last (y ∷ ys)
drop_last-append [] y ys = refl
drop_last-append (x ∷ []) y ys = refl
drop_last-append (x ∷ z ∷ xs) y ys = ap (◌∷◌ x) (drop_last-append (z ∷ xs) y ys)

client_lines-ne-nil : (b : Bool) (s : Text) → client_lines b s ≢ []
unfolding client_lines
client_lines-ne-nil b [] e = cc
client_lines-ne-nil b (c ∷ s) e = ground (arith, client_lines-ne-nil false s)

pub client_lines-cons :
    (b : Bool) (s : Text) → (x : Text) × (xs : List Text) × (client_lines b s ≡ x ∷ xs)
client_lines-cons b s = elim (List-cases (client_lines b s)) [
  | inl empty ↦ absurd (client_lines-ne-nil b s empty)
  | inr some' ↦ some'
]

pub drop_last-written :
    (lines : List Text) (rest : Text)
    → drop_last (map written lines ++ [] ∷ client_lines false rest)
      ≡ map written lines ++ [] ∷ drop_last (client_lines false rest)
drop_last-written lines rest =
    let (x, xs, e) = client_lines-cons false rest in
    drop_last-append (map written lines) [] (client_lines false rest)
    ∙ ap (λ ys. map written lines ++ ys) (rw e)

abbrev pub message : List Text → Event
message lines = record { type = []; lines = lines }

pub read_lines-message :
    (line : Text) (lines rest : List Text)
    → read_lines no_event (map written (line ∷ lines) ++ [] ∷ rest)
      ≡ message (line ∷ lines) ∷ read_lines no_event rest
unfolding read_lines
read_lines-message line lines rest = read_lines-written (line ∷ lines) no_event ([] ∷ rest)

pub payload_lines-cons :
    (payload : Text) → (x : Text) × (xs : List Text) × (payload_lines payload ≡ x ∷ xs)
unfolding payload_lines
payload_lines-cons payload =
    let (x, xs, e) = split-cons 10 payload in
    (trim_return x, map trim_return xs, ap (map trim_return) e)
