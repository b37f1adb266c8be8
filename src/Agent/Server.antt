-- ===== src/Agent/Server.antt =====
-- internal/agent/server.go: the pod's single session, and the handlers that run a command in it and
-- that drop it. What `json.UnmarshalRead` leaves in the request, and its error, are an argument.
pub mod Answers
use lean_sandbox.Common.{ℕ, Bool, Option, none, some, List, [], ◌∷◌, ◌++◌, if◌then◌else◌}
use lean_sandbox.Common.Text.{Bytes, text}
use lean_sandbox.Api.{RunRequest, RunResponse}
use lean_sandbox.Tarx.{Next}
use lean_sandbox.Agent.Session.{
  Session, new_session, Os, RunResult, Outcome, refused, ran, run_request,
}

-- What a handler writes: `writeErr`, a status with a JSON body, a status alone, or the status 200 with
-- the content of a file, a tar stream (and whether it was closed) or the frames of a run.
pub data Answer : Type 0 where
  wrote_error : ℕ → Bytes → Answer
  wrote_response : ℕ → RunResponse → Answer
  wrote_status : ℕ → Answer
  wrote_content : Bytes → Answer
  wrote_tar : List Next → Bool → Answer
  wrote_frames : Bytes → Answer

pub record Decoded : Type 0 where
  pub request : RunRequest
  pub error : Option Bytes

-- `func (s *Server) getOrCreate() *Session`
unfoldable pub get_or_create : List Bytes → Option Session → Session
get_or_create environ none = new_session environ
get_or_create environ (some s) = s

abbrev pub response_of : RunResult → RunResponse
response_of r = record {
  stdout = r.stdout;
  stderr = r.stderr;
  exit_code = r.exit_code;
  stdout_path = r.stdout_path;
  stderr_path = r.stderr_path;
}

-- the answer to an error of `RunRequest`; `cancelled` is `ctx.Err() != nil`
abbrev pub refuse : Bool → Bytes → Answer
refuse cancelled e =
    if cancelled then wrote_error 408 (text "request canceled") else wrote_error 400 e

abbrev pub answer_run : Bool → Outcome → Answer
answer_run cancelled (refused e) = refuse cancelled e
answer_run cancelled (ran r (some e)) = refuse cancelled e
answer_run cancelled (ran r none) = wrote_response 200 (response_of r)

-- the answer to an error of the decoder, behind which the handler goes on
abbrev pub answer_decoding : Option Bytes → List Answer
answer_decoding none = []
answer_decoding (some e) = wrote_error 400 (text "invalid json: " ++ e) ∷ []

-- `func (s *Server) handleRun(w, r)`: the answers in order, and the session
unfoldable pub handle_run :
    List Bytes → Bool → Os → Decoded → Option Session → List Answer × Option Session
unfolding get_or_create
handle_run environ cancelled os d session =
    let done = run_request (get_or_create environ session) d.request os in
    (answer_decoding d.error ++ answer_run cancelled done.1 ∷ [], some done.0)

-- `func (s *Server) handleDeleteSession(w, r)`
abbrev pub handle_delete_session : Option Session → List Answer × Option Session
handle_delete_session session = (wrote_status 204 ∷ [], none)
