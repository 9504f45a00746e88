-- ===== src/CoreSse/Client.antt =====
-- The client of core_sse.go: the reading of a `text/event-stream` by the HTML standard, stated
-- independently of the gateway. A line ends at CR LF, LF or CR.
use nats_web_gateway.Base.{
  Bool, List, [], false, if◌then◌else◌, none, some, true, ℕ, ◌++◌, ◌==◌, ◌∷◌,
}
use nats_web_gateway.Base.Text.{Text, bytes, cut, text_eq}

abbrev pub cons_head : ℕ → List Text → List Text
cons_head c [] = (c ∷ []) ∷ []
cons_head c (line ∷ lines) = (c ∷ line) ∷ lines

-- The lines, and as the last element the text behind the last end of line. The flag says that the
-- byte before was a CR, whose LF is no line of its own.
unfoldable pub client_lines : Bool → Text → List Text
client_lines after_return [] = [] ∷ []
client_lines after_return (c ∷ s) = elim (c == 13) [
  | true ↦ [] ∷ client_lines true s
  | false ↦ elim (c == 10) [
    | true ↦ elim after_return [ true ↦ client_lines false s | false ↦ [] ∷ client_lines false s ]
    | false ↦ cons_head c (client_lines false s)
  ]
]

pub record Event : Type 0 where
  pub type : Text
  pub lines : List Text

abbrev pub strip_space : Text → Text
strip_space [] = []
strip_space (c ∷ s) = if c == b' ' then s else c ∷ s

-- What a line does to the event that is being read: fields other than `event` and `data`, and
-- comments, change nothing here.
unfoldable pub read_field : Text → Event → Event
read_field line e = elim (cut line b':') [
  | none ↦ e
  | some (field, value) ↦
      if text_eq field (bytes "data")
      then record e { lines = e.lines ++ strip_space value ∷ [] }
      else if text_eq field (bytes "event")
      then record e { type = strip_space value }
      else e
]

abbrev pub no_event : Event
no_event = record { type = []; lines = [] }

-- The events that the lines dispatch; an empty line dispatches what has data.
unfoldable pub read_lines : Event → List Text → List Event
read_lines e [] = []
read_lines e ([] ∷ lines) = elim e.lines [
  | [] ↦ read_lines no_event lines
  | _ ∷ _ ↦ e ∷ read_lines no_event lines
]
read_lines e ((c ∷ line) ∷ lines) = read_lines (read_field (c ∷ line) e) lines

abbrev pub drop_last : List Text → List Text
drop_last [] = []
drop_last (line ∷ []) = []
drop_last (line ∷ next ∷ lines) = line ∷ drop_last (next ∷ lines)

unfoldable pub client_events : Text → List Event
client_events s = read_lines no_event (drop_last (client_lines false s))
