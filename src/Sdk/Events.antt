-- ===== src/Sdk/Events.antt =====
-- sdk/sandbox.go, `Stream`: the events of a run, read from the frames that the agent writes.
pub mod RoundTrip
use lean_sandbox.Common.{
  ℕ, Bool, true, false, Option, none, some, List, [], ◌∷◌, ◌++◌, length, ◌==◌, leb, if◌then◌else◌,
}
use lean_sandbox.Common.Int.{negsuc}
use lean_sandbox.Common.Text.{Bytes, text, cut_prefix}
use lean_sandbox.Common.Paths.{push_byte}
use lean_sandbox.Api.{StreamEvent, EventType}
use lean_sandbox.Http.{Coder}

-- The lines of a text without their newlines; behind the last newline a line stands only if it is
-- not empty.
unfoldable pub raw_lines : Bytes → List Bytes
raw_lines [] = []
raw_lines (c ∷ s) = let rest = raw_lines s in if c == b'\n' then [] ∷ rest else push_byte c rest

-- the carriage return that `bufio.ScanLines` drops
unfoldable pub drop_cr : Bytes → Bytes
drop_cr [] = []
drop_cr (c ∷ []) = if c == 13 then [] else c ∷ []
drop_cr (c ∷ d ∷ s) = c ∷ drop_cr (d ∷ s)

-- `16*1024*1024`, the size of the scanner's buffer, which has to hold a line
abbrev pub max_line : ℕ
max_line = 16777216

-- `api.StreamEvent{Type: "done", ExitCode: -1, Error: err.Error()}`
abbrev pub failed_event : Bytes → StreamEvent
failed_event e = record { type = EventType.done; chunk = []; exit_code = negsuc 0; error = e }

-- the event of a frame, unless it is no JSON
abbrev pub event_of : StreamEvent × Option Bytes → List StreamEvent
event_of (e, none) = e ∷ []
event_of (e, some t) = []

-- one round of the loop, for a line that the scanner returns
unfoldable pub read_line : Coder StreamEvent → Bytes → List StreamEvent
read_line c line = elim (cut_prefix (text "data: ") line) [
  | none ↦ []
  | some rest ↦ event_of (c.unmarshal rest)
]

-- what is sent behind the loop, where the body has ended with an error
abbrev pub end_events : Option Bytes → List StreamEvent
end_events none = []
end_events (some e) = failed_event e ∷ []

-- The events that are sent, while the caller's context is open.
unfoldable pub read_events : Coder StreamEvent → Option Bytes → List Bytes → List StreamEvent
unfolding drop_cr read_line
read_events c end [] = end_events end
read_events c end (line ∷ lines) =
    let rest = read_line c (drop_cr line) ++ read_events c end lines in
    if leb max_line (length line)
    then failed_event (text "bufio.Scanner: token too long") ∷ []
    else rest
