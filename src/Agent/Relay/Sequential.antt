-- ===== src/Agent/Relay/Sequential.antt =====
-- What a run of the goroutines of `pump` comes to: what the two loops and the end of `pump` make of
-- the lines one behind the other.
use lean_sandbox.Common.{
  ℕ, ◌≡◌, refl, sym, ap, ◌∙◌, Bool, true, false, none, some, List, ◌++◌, inl, inr, ◌⊎◌,
  if◌then◌else◌,
}
use lean_sandbox.Common.Text.{Bytes, is_empty}
use lean_sandbox.Api.{StreamEvent, RunRequest}
use lean_sandbox.Agent.Output.{response}
use lean_sandbox.Agent.Pump.{Sink, Scan, start_sink, start_scan, scan_stdout, scan_stderr}
use lean_sandbox.Agent.Session.{
  Session, Process, conclude, RunResult, ran, clamp, run_process, Outcome,
}
use lean_sandbox.Agent.Relay.{Line, Relay, context_error, begin, Run}
use lean_sandbox.Agent.Relay.Reading.{taken, scan_stdout-feed_all, scan_stderr-feed_all}
use lean_sandbox.Agent.Relay.Flow.Steps.{Run-Flow}

-- A process, whose lines are those that the readers took, of which `RunRequest` makes what the
-- goroutines made.
pub record Sequential (e : Bytes) (session : Session) (req : RunRequest) (out err : List Line)
    (t : Relay) (v : StreamEvent) : Type 0 where
  pub process : Process
  pub its_stdout : out ≡ taken process.stdout ++ t.stdout.rest
  pub its_stderr : err ≡ taken process.stderr ++ t.stderr.rest
  pub its_wait : t.wait ≡ some process.wait
  pub its_context :
      (process.context_error ≡ none) ⊎ ((process.context_error ≡ some e) × (t.cancelled ≡ true))
  pub same : run_process session req process ≡ (
    t.session,
    ran
        (record {
          stdout = (response t.stdout.at.sink.out).0;
          stderr = (response t.stderr.at.out).0;
          exit_code = v.exit_code;
          stdout_path = (response t.stdout.at.sink.out).1;
          stderr_path = (response t.stderr.at.out).1;
        })
        (if is_empty v.error then none else some v.error),
  )

module _ (e : Bytes) (pipe : ℕ) (session : Session) (req : RunRequest) (out err : List Line) where
  abbrev started : Relay
  started = begin session (clamp req.max_stdout) (clamp req.max_stderr) out err

  abbrev result : Scan → Sink → StreamEvent → RunResult
  result scan errors v = record {
    stdout = (response scan.sink.out).0;
    stderr = (response errors.out).0;
    exit_code = v.exit_code;
    stdout_path = (response scan.sink.out).1;
    stderr_path = (response errors.out).1;
  }

  abbrev outcome : Scan → Sink → Session × StreamEvent → Session × Outcome
  outcome scan errors (after, v) =
      (after, ran (result scan errors v) (if is_empty v.error then none else some v.error))

  run_process-outcome :
      (p : Process) (scan : Scan) (errors : Sink) (end : Session × StreamEvent)
      → scan ≡ scan_stdout (start_scan (clamp req.max_stdout)) p.stdout
      → errors ≡ scan_stderr (start_sink (clamp req.max_stderr)) p.stderr
      → conclude session scan p.context_error p.wait ≡ end
      → run_process session req p ≡ outcome scan errors end
  unfolding run_process
  run_process-outcome p scan errors end a b c =
      ap
        (λ x.
          outcome x (scan_stderr (start_sink (clamp req.max_stderr)) p.stderr)
            (conclude session x p.context_error p.wait))
        (sym a)
      ∙ ap (λ y. outcome scan y (conclude session scan p.context_error p.wait)) (sym b)
      ∙ ap (outcome scan errors) c

  context_cases :
      (b c : Bool)
      → (b ≡ true → c ≡ true)
      → (context_error e b ≡ none) ⊎ ((context_error e b ≡ some e) × (c ≡ true))
  context_cases true c h = inr (refl, h refl)
  context_cases false c h = inl refl

  -- However the goroutines took turns, and whether or not the context ended, what `pump` has come to
  -- is what the loops make of the lines one behind the other, for a process whose lines are those
  -- that were read.
  pub Run-Sequential :
      (t : Relay) (n : ℕ) (v : StreamEvent)
      → Run e pipe started t n
      → t.last ≡ some v
      → Sequential e session req out err t v
  unfolding run_process
  Run-Sequential t n v r l =
      let f = Run-Flow e pipe session (clamp req.max_stdout) (clamp req.max_stderr) out err r in
      let c = f.over v l in
      let p : Process = record {
        stdout = f.out_read.past;
        stderr = f.err_read.past;
        context_error = context_error e c.at_cancel;
        wait = c.waited;
      } in
      let scan : t.stdout.at ≡ scan_stdout (start_scan (clamp req.max_stdout)) p.stdout =
        f.out_read.fed ∙ scan_stdout-feed_all _ p.stdout in
      let errors : t.stderr.at ≡ scan_stderr (start_sink (clamp req.max_stderr)) p.stderr =
        f.err_read.fed ∙ scan_stderr-feed_all _ p.stderr in
      record {
        process = p;
        its_stdout = f.out_read.split;
        its_stderr = f.err_read.split;
        its_wait = c.has_waited;
        its_context = context_cases c.at_cancel t.cancelled c.was_cancelled;
        same = run_process-outcome p t.stdout.at t.stderr.at (t.session, v) scan errors c.end;
      }
