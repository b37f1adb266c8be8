-- ===== src/Agent/Relay.antt =====
-- internal/agent/session.go, `pump`, `runGroup` and the channel of events as goroutines that take
-- turns: the two readers, the wait for the process group, the end of `pump`, and whoever receives
-- from the channel. What is written to a stream is the list of its lines, each ended by a line break
-- alone; the command ends by itself only when what the scanners have not taken fits into the pipes.
pub mod Feeding
pub mod Reading
pub mod Shuffle
pub mod Flow
pub mod Ends
pub mod Sequential
pub mod Idle
pub mod Settled
pub mod Samples
pub mod Plain
pub mod Blocked
pub mod LongLine
use lean_sandbox.Common.{
  ℕ, ◌+◌, ◌-◌, ◌≤◌, ◌<◌, ◌≡◌, Bool, true, false, Option, none, some, List, [], ◌∷◌, ◌++◌, length,
  inl, inr, ◌⊎◌, if◌then◌else◌,
}
use lean_sandbox.Common.Text.{Bytes}
use lean_sandbox.Api.{StreamEvent, EventType}
use lean_sandbox.Agent.Output.{Disk}
use lean_sandbox.Agent.Pump.{Arrival, Sink, Scan, start_sink, start_scan, scan_line, forward}
use lean_sandbox.Agent.Session.{Session, Wait, conclude}

-- `make(chan api.StreamEvent, 64)`
abbrev pub capacity : ℕ
capacity = 64

-- the scanner's buffer, which has to hold a line
abbrev pub scan_limit : ℕ
scan_limit = 16777216

-- A line that was written, with what the file system answers while it is captured.
abbrev pub Line : Type 0
Line = Bytes × Disk

abbrev pub arrival : Line → Bool → Arrival
arrival (line, disk) delivered = record { line = line; disk = disk; delivered = delivered }

-- One of the two reading goroutines: what it has made of the lines, the lines that the scanner has
-- not returned, of which it may have begun one or more in its buffer, and whether the goroutine has
-- not returned yet.
pub record Reader (R : Type 0) : Type 0 where
  pub at : R
  pub rest : List Line
  pub going : Bool

-- `sc.Scan()` returns false: the stream has ended, or the next line is too long, of which the
-- scanner has then taken as much as its buffer holds.
abbrev pub AtEnd : List Line → Type 0
AtEnd [] = Unit {0}
AtEnd (x ∷ rest) = scan_limit ≤ length x.0

-- A turn of a reader, with what it sends, where `room` is left in the channel.
pub data Turn {R : Type 0} (feed : R → Arrival → R) (sink : R → Sink) (room : ℕ) (cancelled : Bool)
    : Reader R → List StreamEvent → Reader R → Type 0 where
  -- a line is read, and its event, if it has one, is sent
  reads :
      (r : Reader R) (x : Line) (rest : List Line) (sent : List StreamEvent)
      → r.going ≡ true
      → r.rest ≡ x ∷ rest
      → length x.0 < scan_limit
      → (sink (feed r.at (arrival x true))).events ≡ (sink r.at).events ++ sent
      → length sent ≤ room
      → Turn feed sink room cancelled r sent
          (record { at = feed r.at (arrival x true); rest = rest; going = true })
  -- `case <-ctx.Done(): return`
  gives_up :
      (r : Reader R) (x : Line) (rest : List Line)
      → r.going ≡ true
      → r.rest ≡ x ∷ rest
      → length x.0 < scan_limit
      → cancelled ≡ true
      → (sink (feed r.at (arrival x false))).cancelled ≡ true
      → Turn feed sink room cancelled r []
          (record { at = feed r.at (arrival x false); rest = rest; going = false })
  stops :
      (r : Reader R)
      → r.going ≡ true
      → AtEnd r.rest
      → Turn feed sink room cancelled r [] (record r { going = false })

-- the loop over stderr, for one line
abbrev pub feed_stderr : Sink → Arrival → Sink
feed_stderr s a = forward EventType.stderr a a.line s

abbrev pub scan_sink : Scan → Sink
scan_sink scan = scan.sink

abbrev pub same_sink : Sink → Sink
same_sink s = s

pub record Relay : Type 0 where
  -- whether `ctx.Done()` is closed
  pub cancelled : Bool
  pub stdout : Reader Scan
  pub stderr : Reader Sink
  -- what `runGroup` has returned
  pub wait : Option Wait
  -- the event that `pump` ends with, once it is known, and whether it is sent
  pub last : Option StreamEvent
  pub ended : Bool
  pub channel : List StreamEvent
  pub received : List StreamEvent
  -- whether the receiver still receives
  pub listening : Bool
  pub session : Session

-- the bytes of the lines with their newlines
abbrev pub size_of : List Line → ℕ
size_of [] = 0
size_of (x ∷ rest) = length x.0 + 1 + size_of rest

-- The bytes that are in the pipe at the least: of the lines that the scanner has not returned, it
-- may have taken as much as its buffer holds.
abbrev pub in_pipe : List Line → ℕ
in_pipe rest = size_of rest - scan_limit

-- What the command has still in the pipes fits into them, or it has been killed.
abbrev pub CanExit : ℕ → Relay → Type 0
CanExit pipe s =
    (s.cancelled ≡ true) ⊎ ((in_pipe s.stdout.rest ≤ pipe) × (in_pipe s.stderr.rest ≤ pipe))

-- `ctx.Err()`
abbrev pub context_error : Bytes → Bool → Option Bytes
context_error e cancelled = if cancelled then some e else none

-- A turn of one of the goroutines; `e` is the text of `ctx.Err()`, and `pipe` the size of a pipe.
pub data Step (e : Bytes) (pipe : ℕ) : Relay → Relay → Type 0 where
  stdout_turns :
      (s : Relay) (room : ℕ) (sent : List StreamEvent) (r : Reader Scan)
      → length s.channel + room ≡ capacity
      → Turn scan_line scan_sink room s.cancelled s.stdout sent r
      → Step e pipe s (record s { stdout = r; channel = s.channel ++ sent })
  stderr_turns :
      (s : Relay) (room : ℕ) (sent : List StreamEvent) (r : Reader Sink)
      → length s.channel + room ≡ capacity
      → Turn feed_stderr same_sink room s.cancelled s.stderr sent r
      → Step e pipe s (record s { stderr = r; channel = s.channel ++ sent })
  cancels : (s : Relay) → s.cancelled ≡ false → Step e pipe s (record s { cancelled = true })
  -- `runGroup` returns
  exits :
      (s : Relay) (w : Wait)
      → s.wait ≡ none
      → CanExit pipe s
      → Step e pipe s (record s { wait = some w })
  -- the end of `pump`, up to the sending of its event
  concludes :
      (s : Relay) (w : Wait)
      → s.wait ≡ some w
      → s.stdout.going ≡ false
      → s.stderr.going ≡ false
      → s.last ≡ none
      → Step e pipe s (
          let end = conclude s.session s.stdout.at (context_error e s.cancelled) w in
          record s { session = end.0; last = some end.1 })
  -- the event is sent, and the channel is closed
  ends :
      (s : Relay) (v : StreamEvent)
      → s.last ≡ some v
      → s.ended ≡ false
      → length s.channel < capacity
      → Step e pipe s (record s { channel = s.channel ++ v ∷ []; ended = true })
  receives :
      (s : Relay) (v : StreamEvent) (rest : List StreamEvent)
      → s.listening ≡ true
      → s.channel ≡ v ∷ rest
      → Step e pipe s (record s { channel = rest; received = s.received ++ v ∷ [] })
  -- the receiver returns
  leaves : (s : Relay) → s.listening ≡ true → Step e pipe s (record s { listening = false })

-- What `stream` starts, for these caps and these lines.
abbrev pub begin : Session → ℕ → ℕ → List Line → List Line → Relay
begin session max_stdout max_stderr out err = record {
  cancelled = false;
  stdout = record { at = start_scan max_stdout; rest = out; going = true };
  stderr = record { at = start_sink max_stderr; rest = err; going = true };
  wait = none;
  last = none;
  ended = false;
  channel = [];
  received = [];
  listening = true;
  session = session;
}

-- Turns one behind the other, with their number.
pub data Run (e : Bytes) (pipe : ℕ) (s : Relay) : Relay → ℕ → Type 0 where
  here : Run e pipe s s 0
  next : {t u : Relay} {n : ℕ} → Run e pipe s t n → Step e pipe t u → Run e pipe s u (n + 1)
