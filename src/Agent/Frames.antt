-- ===== src/Agent/Frames.antt =====
-- internal/agent/server.go, the loop of `handleRunStream`: the frames of a run's events. What the
-- `select` of each round finds is a `Tick`; the loop ends where the channel of events is closed.
use lean_sandbox.Common.{Option, none, some, List, [], ◌∷◌, ◌++◌}
use lean_sandbox.Common.Text.{Bytes, text}
use lean_sandbox.Api.{StreamEvent, EventType}
use lean_sandbox.Http.{Coder}

pub data Tick : Type 0 where
  -- `<-ctx.Done()`
  gone : Tick
  -- `<-ping.C`
  ping : Tick
  -- `<-events`
  event : StreamEvent → Tick

abbrev pub ping_frame : Bytes
ping_frame = text ": ping\n\n"

abbrev pub frame : Bytes → Bytes
frame b = text "data: " ++ (b ++ text "\n\n")

-- what follows the event, unless it is the last one
abbrev pub unless_done : EventType → Bytes → Bytes
unless_done EventType.done rest = []
unless_done EventType.stdout rest = rest
unless_done EventType.stderr rest = rest

-- One event and the rest of the loop. An event that cannot be marshalled ends it.
abbrev pub event_frame : Option Bytes → EventType → Bytes → Bytes
event_frame none type rest = text "data: "
event_frame (some b) type rest = frame b ++ unless_done type rest

-- What the loop writes.
unfoldable pub frames : Coder StreamEvent → List Tick → Bytes
frames c [] = []
frames c (gone ∷ ticks) = []
frames c (ping ∷ ticks) = ping_frame ++ frames c ticks
frames c (event e ∷ ticks) = event_frame (c.marshal e) e.type (frames c ticks)
