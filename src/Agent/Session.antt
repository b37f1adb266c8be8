-- ===== src/Agent/Session.antt =====
-- internal/agent/session.go, `Session`: the runs of a command, with what one run leaves for the next.
-- The operating system answers through `Os`: whether the command can be started, and what the
-- process that runs a script does.
pub mod Runs
use lean_sandbox.Common.{
  ℕ, Bool, true, false, Option, none, some, List, [], ◌∷◌, ◌++◌, if◌then◌else◌,
}
use lean_sandbox.Common.Int.{ℤ, pos, negsuc, pos_part}
use lean_sandbox.Common.Text.{Bytes, text, is_empty, trim_space}
use lean_sandbox.Api.{RunRequest, StreamEvent, EventType}
use lean_sandbox.Agent.Output.{Output, response}
use lean_sandbox.Agent.Script.{Env, build_script}
use lean_sandbox.Agent.Export.{snapshot_env}
use lean_sandbox.Agent.Pump.{Arrival, Sink, Scan, start_sink, start_scan, scan_stdout, scan_stderr}

pub record Session : Type 0 where
  pub env : Env
  pub cwd : Bytes

-- `func NewSession() *Session`
unfoldable pub new_session : List Bytes → Session
new_session environ = record { env = snapshot_env environ; cwd = [] }

-- What `cmd.Wait` returns: nil, an `*exec.ExitError` with its code, or another error.
pub data Wait : Type 0 where
  success : Wait
  exit_error : ℤ → Wait
  failure : Bytes → Wait

pub record Process : Type 0 where
  pub stdout : List Arrival
  pub stderr : List Arrival
  -- `ctx.Err()` after both streams are read, if it is not nil
  pub context_error : Option Bytes
  pub wait : Wait

-- The first error of `os.CreateTemp`, `WriteString`, `os.Pipe` and `cmd.Start`, or the process.
pub data Launch : Type 0 where
  failed : Bytes → Launch
  started : Process → Launch

abbrev pub Os : Type 0
Os = Bytes → Launch

-- The event that ends a run.
abbrev pub done_event : ℤ → Bytes → StreamEvent
done_event code error = record {
  type = EventType.done;
  chunk = [];
  exit_code = code;
  error = error;
}

-- `s.env = envOut`, `s.cwd = pwdOut`, where they are not empty
unfoldable pub persist : Session → Scan → Session
persist s scan = record {
  env = elim scan.env_out [ [] ↦ s.env | b ∷ bs ↦ b ∷ bs ];
  cwd = if is_empty scan.pwd_out then s.cwd else scan.pwd_out;
}

-- The end of `pump`, behind the two readers.
unfoldable pub conclude : Session → Scan → Option Bytes → Wait → Session × StreamEvent
unfolding persist
conclude s scan (some e) w = (s, done_event (negsuc 0) e)
conclude s scan none success = (persist s scan, done_event (pos 0) [])
conclude s scan none (exit_error code) = (persist s scan, done_event code [])
conclude s scan none (failure e) = (s, done_event (negsuc 0) e)

-- `Result`
pub record RunResult : Type 0 where
  pub stdout : Bytes
  pub stderr : Bytes
  pub exit_code : ℤ
  pub stdout_path : Bytes
  pub stderr_path : Bytes

-- What `RunRequest` returns: an error alone, or a result with the error of an abnormal end.
pub data Outcome : Type 0 where
  refused : Bytes → Outcome
  ran : RunResult → Option Bytes → Outcome

-- `if maxStdOut < 0 { maxStdOut = 0 }`
abbrev pub clamp : ℤ → ℕ
clamp = pos_part

-- What a run makes of a started process.
unfoldable pub run_process : Session → RunRequest → Process → Session × Outcome
unfolding conclude response
run_process s req p =
    let scan = scan_stdout (start_scan (clamp req.max_stdout)) p.stdout in
    let errors = scan_stderr (start_sink (clamp req.max_stderr)) p.stderr in
    let (after, last) = conclude s scan p.context_error p.wait in
    let out = response scan.sink.out in
    let err = response errors.out in
    (
      after,
      ran
          (record {
            stdout = out.0;
            stderr = err.0;
            exit_code = last.exit_code;
            stdout_path = out.1;
            stderr_path = err.1;
          })
          (if is_empty last.error then none else some last.error),
    )

abbrev launched : Session → RunRequest → Launch → Session × Outcome
launched s req (failed e) = (s, refused e)
launched s req (started p) = run_process s req p

-- `func (s *Session) RunRequest(ctx, req)`, with `stream` and `pump`
unfoldable pub run_request : Session → RunRequest → Os → Session × Outcome
unfolding run_process
run_request s req os =
    if is_empty (trim_space req.command)
    then (s, refused (text "empty command"))
    else launched s req (os (build_script req.command s.env s.cwd))

-- `func (s *Session) Run(ctx, command)`
abbrev pub run : Session → Bytes → Os → Session × Outcome
run s command = run_request s (record { command = command; max_stdout = pos 0; max_stderr = pos 0 })

-- `func (s *Session) Stream(ctx, command)`: the events of a run, those of stdout first.
unfoldable pub stream_events : Session → Process → List StreamEvent
unfolding conclude
stream_events s p =
    let scan = scan_stdout (start_scan 0) p.stdout in
    let errors = scan_stderr (start_sink 0) p.stderr in
    scan.sink.events ++ (errors.events ++ (conclude s scan p.context_error p.wait).1 ∷ [])
