-- ===== src/Agent/Handler.antt =====
-- internal/agent/server.go: `Handler` with its routes and `authMiddleware`, and `handleRunStream`.
pub mod Guarded
pub mod Toy
mod Samples
use lean_sandbox.Common.{
  ℕ, Bool, true, false, ◌&&◌, Option, none, some, List, [], ◌∷◌, ◌++◌, if◌then◌else◌,
}
use lean_sandbox.Common.Int.{ℤ, pos}
use lean_sandbox.Common.Text.{Bytes, text, str_eq, is_empty, trim_space}
use lean_sandbox.Common.Paths.{split_slash}
use lean_sandbox.Api.{SandboxId, RunRequest, RunResponse, StreamEvent}
use lean_sandbox.Http.{
  Request, Response, Coder, limited, or_empty, header_value, query_value, access_token_header,
  is_get, is_post, is_put, is_delete,
}
use lean_sandbox.Jwt.{Crypto, Refusal, verify}
use lean_sandbox.Files.{Source, FileSystem}
use lean_sandbox.Tarx.{Next}
use lean_sandbox.Agent.Script.{build_script}
use lean_sandbox.Agent.Pump.{start_scan, scan_stdout}
use lean_sandbox.Agent.Session.{
  Session, Os, Process, Launch, failed, started, conclude, stream_events,
}
use lean_sandbox.Agent.Server.{
  Answer, wrote_error, wrote_response, wrote_status, wrote_content, wrote_tar, wrote_frames,
  Decoded, get_or_create, refuse, answer_decoding, handle_run, handle_delete_session,
}
use lean_sandbox.Agent.Transfer.{
  Texts, handle_read_file, handle_write_file, handle_write_files, handle_read_files,
}
use lean_sandbox.Agent.Frames.{Tick, frames}

-- What the agent has besides its session and its files: the id of its sandbox as a text, the public
-- key if it has one, and what it calls of Go's libraries and of the operating system.
pub record Machine : Type 1 where
  pub fs : FileSystem
  pub c : Crypto
  pub id : Bytes
  pub pub_key : Option c.PublicKey
  pub now : fs.World → ℤ
  -- `os.Environ()`
  pub environ : List Bytes
  -- what starting a script gives, and the world that it leaves
  pub os : fs.World → Os
  pub after : Bytes → fs.World → fs.World
  -- `ctx.Err() != nil` behind a run
  pub cancelled : Request → Bool
  -- what each round of the loop over the events of a run finds
  pub ticks : Request → List StreamEvent → List Tick
  -- a body that is copied, and a body that is read as a tar stream
  pub source : Bytes → Source
  pub untar : Bytes → List Next
  pub tar : List Next → Bool → Bytes
  pub texts : Texts
  pub no_route : Request → Response
  pub run_coder : Coder RunRequest
  pub response_coder : Coder RunResponse
  pub event_coder : Coder StreamEvent
  pub error_coder : Coder Bytes

-- the session, if there is one, and the files
abbrev pub State : Machine → Type 0
State m = Option Session × m.fs.World

-- What a request is answered, and the state behind it; an answer of no handler is none.
pub record Served (m : Machine) : Type 0 where
  pub answers : List Answer
  pub state : State m

-- The body of a run, as `json.UnmarshalRead` decodes it.
abbrev pub decoded : Machine → Request → Decoded
decoded m r =
    let d = m.run_coder.unmarshal (limited r.body) in record { request = d.0; error = d.1 }

-- the world behind a run of the command, if the session starts it
abbrev pub world_after : (m : Machine) → Session → Bytes → m.fs.World → m.fs.World
world_after m s command w =
    if is_empty (trim_space command) then w else m.after (build_script command s.env s.cwd) w

unfoldable pub serve_run : (m : Machine) → Request → State m → Served m
serve_run m r (session, w) =
    let d = decoded m r in
    let ran = handle_run m.environ (m.cancelled r) (m.os w) d session in
    record {
      answers = ran.0;
      state = (ran.1, world_after m (get_or_create m.environ session) d.request.command w);
    }

-- `Session.Stream` behind the start of the script
abbrev pub stream_launched : (m : Machine) → Request → Session → Launch → Answer × Session
stream_launched m r s (failed e) = (refuse (m.cancelled r) e, s)
stream_launched m r s (started p) = (
  wrote_frames (frames m.event_coder (m.ticks r (stream_events s p))),
  (conclude s (scan_stdout (start_scan 0) p.stdout) p.context_error p.wait).0,
)

-- `handleRunStream` in a session, for a writer that is an `http.Flusher`
unfoldable pub stream_in : (m : Machine) → Request → Session → Bytes → m.fs.World → Answer × Session
stream_in m r s command w =
    if is_empty (trim_space command)
    then (refuse (m.cancelled r) (text "empty command"), s)
    else stream_launched m r s (m.os w (build_script command s.env s.cwd))

-- `handleRunStream`; a decoding error is answered, and the handler goes on
unfoldable pub serve_run_stream : (m : Machine) → Request → State m → Served m
unfolding stream_in
serve_run_stream m r (session, w) =
    let d = decoded m r in
    let s = get_or_create m.environ session in
    let out = stream_in m r s d.request.command w in
    record {
      answers = answer_decoding d.error ++ out.0 ∷ [];
      state = (some out.1, world_after m s d.request.command w);
    }

-- the patterns of `Handler`
pub data Route : Type 0 where
  healthz run run_stream delete_session read_file write_file read_files write_files nothing : Route

abbrev pub by_method : Bool → Route → Route
by_method b r = if b then r else nothing

-- the second part of a path below `/v1`
unfoldable pub v1_route : Bytes → Bytes → Route
unfolding str_eq
v1_route m name =
    if str_eq name (text "run")
    then by_method (is_post m) run
    else if str_eq name (text "run-stream")
    then by_method (is_post m) run_stream
    else if str_eq name (text "session")
    then by_method (is_delete m) delete_session
    else if str_eq name (text "file")
    then (if is_get m then read_file else by_method (is_put m) write_file)
    else if str_eq name (text "files")
    then (if is_get m then read_files else by_method (is_put m) write_files)
    else nothing

unfoldable pub route : Bytes → List Bytes → Route
unfolding v1_route
route m ([] ∷ v ∷ name ∷ []) = if str_eq v (text "v1") then v1_route m name else nothing
route m _ = nothing

abbrev pub answered : (m : Machine) → Option Session → Answer × m.fs.World → Served m
answered m session (a, w) = record { answers = a ∷ []; state = (session, w) }

unfoldable pub serve : (m : Machine) → Route → Request → State m → Served m
unfolding serve_run serve_run_stream
serve m healthz r s = record { answers = wrote_content (text "ok") ∷ []; state = s }
serve m run r s = serve_run m r s
serve m run_stream r s = serve_run_stream m r s
serve m delete_session r (session, w) =
    let gone = handle_delete_session session in record { answers = gone.0; state = (gone.1, w) }
serve m read_file r (session, w) =
    answered m session (handle_read_file m.fs (query_value (text "path") r) w, w)
serve m write_file r (session, w) =
    answered m session (handle_write_file m.fs (query_value (text "path") r) (m.source r.body) w)
serve m read_files r (session, w) =
    answered m session (handle_read_files m.fs (query_value (text "root") r) w, w)
serve m write_files r (session, w) =
    answered m session
      (handle_write_files m.fs m.texts (query_value (text "root") r) (m.untar r.body) w)
serve m nothing r s = record { answers = []; state = s }

-- `authMiddleware`: no key, or the answer of `jwt.Verify` to the token of the request
unfoldable pub check_token : (m : Machine) → Request → m.fs.World → Option Refusal
check_token m r w = elim m.pub_key [
  | none ↦ none
  | some key ↦ verify m.c (header_value access_token_header r) key m.id (m.now w)
]

-- the mux behind `authMiddleware`
abbrev pub authed : (m : Machine) → Option Refusal → Request → State m → Served m
authed m none r s = serve m (route r.method (split_slash r.path)) r s
authed m (some e) r s = record { answers = wrote_error 401 (text "unauthorized") ∷ []; state = s }

-- `func (s *Server) Handler() http.Handler`
unfoldable pub handle : (m : Machine) → Request → State m → Served m
unfolding route serve check_token
handle m r s =
    if str_eq r.path (text "/healthz") && is_get r.method
    then serve m healthz r s
    else authed m (check_token m r s.1) r s

abbrev pub status_of : Answer → ℕ
status_of (wrote_error code e) = code
status_of (wrote_response code v) = code
status_of (wrote_status code) = code
status_of (wrote_content b) = 200
status_of (wrote_tar s closed) = 200
status_of (wrote_frames b) = 200

abbrev pub body_of : Machine → Answer → Bytes
body_of m (wrote_error code e) = or_empty (m.error_coder.marshal e)
body_of m (wrote_response code v) = or_empty (m.response_coder.marshal v)
body_of m (wrote_status code) = []
body_of m (wrote_content b) = b
body_of m (wrote_tar s closed) = m.tar s closed
body_of m (wrote_frames b) = b

abbrev pub bodies : Machine → List Answer → Bytes
bodies m [] = []
bodies m (a ∷ rest) = body_of m a ++ bodies m rest

-- What is sent for the answers: the status of the first, for which alone `WriteHeader` counts, and
-- the bodies in their order.
unfoldable pub render : Machine → Request → List Answer → Response
render m r [] = m.no_route r
render m r (a ∷ rest) = record { status = status_of a; body = bodies m (a ∷ rest) }
