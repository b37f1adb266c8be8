-- ===== src/Agent/Session/Runs.antt =====
-- What a run returns, and what it leaves in the session.
use lean_sandbox.Common.{
  ℕ, ◌≡◌, refl, ap, ◌∙◌, ◌≢◌, ◌≤◌, true, false, Option, none, some, [], ◌∷◌, arith, ◌⊎◌, inl, inr,
  Bool-cases, length, All,
}
use lean_sandbox.Common.Int.{ℤ, pos, negsuc}
use lean_sandbox.Common.Text.{Bytes, is_empty, trim_space}
use lean_sandbox.Api.{RunRequest}
use lean_sandbox.Agent.Output.{response}
use lean_sandbox.Agent.Output.Spill.{Writes, stream_of, response_in_full}
use lean_sandbox.Agent.Script.{Env, build_script}
use lean_sandbox.Agent.Pump.{Scan, start_scan, scan_stdout, scan_stderr, start_sink}
use lean_sandbox.Agent.Pump.Protocol.{
  Transcript, IsTranscript, lines, own_lines, read_env, scan_stdout-lines,
}
use lean_sandbox.Agent.Session.{
  Session, Wait, success, exit_error, failure, Process, Launch, failed, started, Os, persist,
  conclude, done_event, RunResult, ran, clamp, run_process, run_request, launched,
}

-- A run that ends by itself, with an exit code.
abbrev pub exit_status : Wait → Option ℤ
exit_status success = some (pos 0)
exit_status (exit_error code) = some code
exit_status (failure e) = none

-- The environment that a session holds after a run that read `env`.
abbrev pub kept_env : Env → Env → Env
kept_env old [] = old
kept_env old (b ∷ bs) = b ∷ bs

run_request-launched :
    (s : Session) (req : RunRequest) (os : Os)
    → is_empty (trim_space req.command) ≡ false
    → run_request s req os ≡ launched s req (os (build_script req.command s.env s.cwd))
unfolding run_request
run_request-launched s req os c = rw c

run_request_blank :
    (s : Session) (req : RunRequest) (os : Os)
    → is_empty (trim_space req.command) ≡ true
    → (run_request s req os).0 ≡ s
unfolding run_request
run_request_blank s req os c = rw c

run_request-started :
    (s : Session) (req : RunRequest) (os : Os) (p : Process)
    → is_empty (trim_space req.command) ≡ false
    → os (build_script req.command s.env s.cwd) ≡ started p
    → run_request s req os ≡ run_process s req p
run_request-started s req os p c l = run_request-launched s req os c ∙ rw l

conclude-persist :
    (s : Session) (scan : Scan) (ctx : Option Bytes) (w : Wait) (status : ℤ)
    → ctx ≡ none
    → exit_status w ≡ some status
    → conclude s scan ctx w ≡ (persist s scan, done_event status [])
unfolding conclude
conclude-persist s scan (some e) w status h k = absurd (cc)
conclude-persist s scan none success status h k = ground arith
conclude-persist s scan none (exit_error code) status h k = ground arith
conclude-persist s scan none (failure e) status h k = absurd (cc)

-- The part of a result that comes from stderr.
abbrev stderr_response : RunRequest → Process → Bytes × Bytes
stderr_response req p = response (scan_stderr (start_sink (clamp req.max_stderr)) p.stderr).out

run_process-persist :
    (s : Session) (req : RunRequest) (p : Process) (status : ℤ) (scan : Scan) (stdout path : Bytes)
    → scan_stdout (start_scan (clamp req.max_stdout)) p.stdout ≡ scan
    → p.context_error ≡ none
    → exit_status p.wait ≡ some status
    → response scan.sink.out ≡ (stdout, path)
    → run_process s req p ≡ (
      persist s scan,
      ran
          (record {
            stdout = stdout;
            stderr = (stderr_response req p).0;
            exit_code = status;
            stdout_path = path;
            stderr_path = (stderr_response req p).1;
          })
          none,
    )
unfolding run_process
run_process-persist s req p status scan stdout path e ctx w r =
    rw (e, conclude-persist s scan p.context_error p.wait status ctx w, r)

persist-At :
    (s : Session) (scan : Scan) (env : Env) (dir : Bytes)
    → scan.env_out ≡ env
    → scan.pwd_out ≡ dir
    → dir ≢ []
    → persist s scan ≡ record { env = kept_env s.env env; cwd = dir }
unfolding persist
persist-At s scan env dir e d n = ground arith

-- A command that prints a transcript and exits leaves the session with the environment that was
-- read, unless none was, and the directory that was printed; the result holds the exit code and no
-- error; and stdout is the command's own output in full, if that is within the cap or the cap is 0
-- or below.
pub run_request-lines :
    (s : Session) (req : RunRequest) (os : Os) (p : Process) (t : Transcript)
    → (dir code : Bytes) (status : ℤ) → is_empty (trim_space req.command) ≡ false
    → os (build_script req.command s.env s.cwd) ≡ started p
    → p.stdout ≡ lines t
    → IsTranscript t dir code
    → dir ≢ []
    → p.context_error ≡ none
    → exit_status p.wait ≡ some status
    → All Writes (own_lines t)
    → (clamp req.max_stdout ≡ 0) ⊎ (length (stream_of (own_lines t)) ≤ clamp req.max_stdout)
    → (r : RunResult) × (run_request s req os
        ≡ (record { env = kept_env s.env (read_env [] t.exported); cwd = dir }, ran r none))
      × (r.stdout ≡ stream_of (own_lines t))
      × (r.stdout_path ≡ [])
      × (r.exit_code ≡ status)
run_request-lines s req os p t dir code status c l out h d ctx w ws cap =
    let max = clamp req.max_stdout in
    let at = scan_stdout-lines max t dir code h in
    let scan = scan_stdout (start_scan max) (lines t) in
    let full : response scan.sink.out ≡ (stream_of (own_lines t), []) =
      rw at.has_out (response_in_full max (own_lines t) ws cap).0 in
    (
      record {
        stdout = stream_of (own_lines t);
        stderr = (stderr_response req p).0;
        exit_code = status;
        stdout_path = [];
        stderr_path = (stderr_response req p).1;
      },
      run_request-started s req os p c l
          ∙ run_process-persist s req p status scan (stream_of (own_lines t)) []
              (ap (scan_stdout (start_scan max)) out) ctx w full
          ∙ rw (persist-At s scan (read_env [] t.exported) dir at.has_env at.has_pwd d),
      refl,
      refl,
      refl,
    )

-- The process that a run starts, and its exit code, where it ends by itself before its context does.
abbrev pub Exits : Session → RunRequest → Os → Type 0
Exits s req os =
    (p : Process) × (status : ℤ) × (is_empty (trim_space req.command) ≡ false)
    × (os (build_script req.command s.env s.cwd) ≡ started p)
    × (p.context_error ≡ none)
    × (exit_status p.wait ≡ some status)

conclude_unchanged :
    (s : Session) (scan : Scan) (ctx : Option Bytes) (w : Wait)
    → ((conclude s scan ctx w).0 ≡ s)
      ⊎ ((status : ℤ) × (ctx ≡ none) × (exit_status w ≡ some status))
unfolding conclude
conclude_unchanged s scan (some e) w = inl refl
conclude_unchanged s scan none success = inr (pos 0, refl, refl)
conclude_unchanged s scan none (exit_error code) = inr (code, refl, refl)
conclude_unchanged s scan none (failure e) = inl refl

launched_unchanged :
    (s : Session) (req : RunRequest) (os : Os) (l : Launch)
    → is_empty (trim_space req.command) ≡ false
    → os (build_script req.command s.env s.cwd) ≡ l
    → ((launched s req l).0 ≡ s) ⊎ Exits s req os
launched_unchanged s req os (failed e) c h = inl refl
launched_unchanged s req os (started p) c h =
    unfold run_process in
    elim (conclude_unchanged s (scan_stdout (start_scan (clamp req.max_stdout)) p.stdout)
      p.context_error p.wait) [ inl e ↦ inl e | inr (status, n, w) ↦ inr (p, status, c, h, n, w) ]

-- A run changes the session only where the command is not blank, is started, and ends by itself
-- with an exit code before its context ends: a refused, cancelled or failed run leaves the
-- environment and the directory as they were.
pub run_request_unchanged :
    (s : Session) (req : RunRequest) (os : Os) → ((run_request s req os).0 ≡ s) ⊎ Exits s req os
run_request_unchanged s req os = elim (Bool-cases (is_empty (trim_space req.command))) [
  | inl blank ↦ inl (run_request_blank s req os blank)
  | inr c ↦
      rw (run_request-launched s req os c)
        (launched_unchanged s req os (os (build_script req.command s.env s.cwd)) c refl)
]

-- A run whose context ends first reports the exit code -1 with the context's error.
run_request_cancelled :
    (s : Session) (req : RunRequest) (os : Os) (p : Process) (c : ℕ) (e : Bytes)
    → is_empty (trim_space req.command) ≡ false
    → os (build_script req.command s.env s.cwd) ≡ started p
    → p.context_error ≡ some (c ∷ e)
    → (r : RunResult) × (run_request s req os ≡ (s, ran r (some (c ∷ e))))
      × (r.exit_code ≡ negsuc 0)
run_request_cancelled s req os p c e cmd l ctx =
    let out = (scan_stdout (start_scan (clamp req.max_stdout)) p.stdout).sink.out in
    (
      record {
        stdout = (response out).0;
        stderr = (stderr_response req p).0;
        exit_code = negsuc 0;
        stdout_path = (response out).1;
        stderr_path = (stderr_response req p).1;
      },
      run_request-started s req os p cmd l ∙ unfold run_process conclude in rw (ctx, conclude),
      refl,
    )
