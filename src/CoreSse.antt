-- ===== src/CoreSse.antt =====
-- core_sse.go: the bounded buffer between a NATS subscription and a live stream, and the text of
-- the stream's events.
pub mod Buffer
pub mod Client
pub mod Framing
pub mod Loop
mod Tests
use nats_web_gateway.Base.{List, [], if◌then◌else◌, map, ◌++◌, ◌==◌, ◌∷◌}
use nats_web_gateway.Base.Text.{Text, bytes, split}

-- `strings.TrimSuffix(line, "\r")`
unfoldable pub trim_return : Text → Text
trim_return [] = []
trim_return (c ∷ []) = if c == 13 then [] else c ∷ []
trim_return (c ∷ d ∷ s) = c ∷ trim_return (d ∷ s)

-- The lines of a payload as `writeSSEData` writes them.
unfoldable pub payload_lines : Text → List Text
payload_lines payload = map trim_return (split payload 10)

abbrev pub data_line : Text → Text
data_line line = bytes "data: " ++ line ++ 10 ∷ []

unfoldable pub write_lines : List Text → Text
write_lines [] = []
write_lines (line ∷ lines) = data_line line ++ write_lines lines

-- `writeSSEData`: what it writes if no write fails.
unfoldable pub write_sse_data : Text → Text
write_sse_data payload = write_lines (payload_lines payload) ++ 10 ∷ []

-- `writeSSEControl`
unfoldable pub write_sse_control : Text → Text → Text
write_sse_control event reason =
    bytes "event: " ++ event ++ 10 ∷ bytes "data: " ++ reason ++ 10 ∷ 10 ∷ []
