-- ===== src/Agent/Pump.antt =====
-- internal/agent/session.go, `pump`: the goroutines that read the two streams of a command.
-- A stream is the list of lines that `bufio.Scanner` returns. With each line comes what the file
-- system answers while it is captured, and whether the `select` that sends its event sends it
-- (the other branch is `<-ctx.Done()`).
pub mod Protocol
use lean_sandbox.Common.{
  ℕ, Bool, true, false, Option, none, some, List, [], ◌∷◌, ◌++◌, if◌then◌else◌,
}
use lean_sandbox.Common.Int.{pos}
use lean_sandbox.Common.Text.{Bytes, text, str_eq, is_empty, cut_prefix, cut_suffix, has_prefix}
use lean_sandbox.Api.{EventType, StreamEvent}
use lean_sandbox.Agent.Output.{Output, Disk, fresh, add}
use lean_sandbox.Agent.Script.{
  Env, marker_env_start, marker_env_end, marker_pwd_prefix, marker_exit_pref,
}
use lean_sandbox.Agent.Export.{parse_export_line, insert}

pub record Arrival : Type 0 where
  pub line : Bytes
  pub disk : Disk
  pub delivered : Bool

-- One stream's capture, the events sent, and whether the reader has returned on cancellation.
pub record Sink : Type 0 where
  pub out : Output
  pub events : List StreamEvent
  pub cancelled : Bool

-- The end of both loops: capture the line, and send its event unless the stream has spilled.
unfoldable pub forward : EventType → Arrival → Bytes → Sink → Sink
forward type a line s =
    let out = add a.disk s.out line in
    let event : StreamEvent = record {
      type = type;
      chunk = line ++ b'\n' ∷ [];
      exit_code = pos 0;
      error = [];
    } in
    if out.spilled
    then record s { out = out }
    else if a.delivered
    then record s { out = out; events = s.events ++ event ∷ [] }
    else record s { out = out; cancelled = true }

pub record Scan : Type 0 where
  pub in_env : Bool
  pub env_out : Env
  pub pwd_out : Bytes
  pub sink : Sink

abbrev pub start_sink : ℕ → Sink
start_sink max = record { out = fresh max; events = []; cancelled = false }

abbrev pub start_scan : ℕ → Scan
start_scan max = record { in_env = false; env_out = []; pwd_out = []; sink = start_sink max }

abbrev pub export_into : Env → Bytes → Env
export_into m line = elim (parse_export_line line) [ none ↦ m | some (k, v) ↦ insert k v m ]

-- One round of the loop over stdout.
unfoldable pub scan_line : Scan → Arrival → Scan
scan_line s a = elim (cut_suffix marker_env_start a.line) [
  | some prefix ↦
      if is_empty prefix
      then record s { in_env = true }
      else record s { in_env = true; sink = forward EventType.stdout a prefix s.sink }
  | none ↦
      if str_eq a.line marker_env_end
      then record s { in_env = false }
      else if s.in_env
      then record s { env_out = export_into s.env_out a.line }
      else elim (cut_prefix marker_pwd_prefix a.line) [
        | some after ↦ record s { pwd_out = after }
        | none ↦
            if has_prefix marker_exit_pref a.line
            then s
            else record s { sink = forward EventType.stdout a a.line s.sink }
      ]
]

-- The loop over stdout.
unfoldable pub scan_stdout : Scan → List Arrival → Scan
unfolding scan_line forward
scan_stdout s [] = s
scan_stdout s (a ∷ rest) =
    let more = scan_stdout (scan_line s a) rest in if s.sink.cancelled then s else more

-- The loop over stderr.
unfoldable pub scan_stderr : Sink → List Arrival → Sink
unfolding forward
scan_stderr s [] = s
scan_stderr s (a ∷ rest) =
    let more = scan_stderr (forward EventType.stderr a a.line s) rest in
    if s.cancelled then s else more
