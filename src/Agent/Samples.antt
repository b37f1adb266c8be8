-- ===== src/Agent/Samples.antt =====
-- Runs of the agent's functions on small inputs, and its theorems at inputs that meet their
-- hypotheses.
use lean_sandbox.Common.{
  ◌≡◌, ◌≤◌, refl, true, false, ◌⊎◌, inl, inr, none, some, List, [], ◌∷◌, ◌++◌, arith, length,
}
use lean_sandbox.Common.Int.{pos, negsuc}
use lean_sandbox.Common.Text.{Bytes, text, str_eq, cut_prefix, cut_suffix, trim_left, trim_right}
use lean_sandbox.Common.Decimal.{decimal}
use lean_sandbox.Api.{RunRequest}
use lean_sandbox.Agent.Output.{Disk, fresh, add_all, content, response, notice}
use lean_sandbox.Agent.Output.Spill.{
  Captured, add_all-Captured, response_spilled, response_unavailable,
}
use lean_sandbox.Agent.Output.Bounds.{length-content_le}
use lean_sandbox.Agent.Script.{Env, build_script, command_lines, marker_env_end}
use lean_sandbox.Agent.Script.Quoting.{read_lines, restores, read_lines-build_script}
use lean_sandbox.Agent.Export.{parse_export_line, insert}
use lean_sandbox.Agent.Pump.{Arrival, start_scan, scan_stdout}
use lean_sandbox.Agent.Pump.Protocol.{
  Transcript, IsTranscript, lines, own_lines, read_env, At, scan_stdout-lines,
}
use lean_sandbox.Agent.Server.{Decoded, wrote_error, wrote_response, handle_run}
use lean_sandbox.Agent.Server.Answers.{handle_run_invalid}
use lean_sandbox.Agent.Session.{
  Session, Process, exit_error, started, failed, Os, RunResult, ran, run_request,
}
use lean_sandbox.Agent.Session.Runs.{run_request-lines, run_request_unchanged, Exits, kept_env}

abbrev working : Disk
working = record { mkdir_all = true; create_temp = some (text "/tmp/o.log"); write_error = none }

abbrev full_disk : Disk
full_disk = record { mkdir_all = true; create_temp = none; write_error = none }

abbrev two_lines : Disk → List (Disk × Bytes)
two_lines d = (d, text "ab") ∷ (d, text "c") ∷ []

notice-text :
    notice (add_all (fresh 3) (two_lines working))
    ≡ text "Output size (5) exceeds max size (3); output is written to: /tmp/o.log"
unfolding notice add_all decimal
notice-text = refl

add_all-Captured_example : Captured 3 (text "ab\nc\n") (add_all (fresh 3) (two_lines working))
add_all-Captured_example = add_all-Captured 3 (two_lines working) (refl, (refl, tt))

response_spilled_example :
    ((add_all (fresh 3) (two_lines working)).file ≡ some (text "ab\nc\n"))
    × (response (add_all (fresh 3) (two_lines working))
        ≡ (notice (add_all (fresh 3) (two_lines working)), text "/tmp/o.log"))
response_spilled_example =
    response_spilled 3 (text "/tmp/o.log") (two_lines working) (refl, (refl, tt))
      ((refl, refl), ((refl, refl), tt)) (omega arith) (omega arith)

response_unavailable_example :
    (content (add_all (fresh 3) (two_lines full_disk)) ≡ text "ab\nc\n")
    × (response (add_all (fresh 3) (two_lines full_disk))
        ≡ (notice (add_all (fresh 3) (two_lines full_disk)), []))
response_unavailable_example =
    response_unavailable 3 (two_lines full_disk) (refl, (refl, tt)) (inr refl, (inr refl, tt))
      (omega arith) (omega arith)

length-content_le_example : length (content (add_all (fresh 3) (two_lines working))) ≤ 3
length-content_le_example =
    length-content_le 3 (text "/tmp/o.log") (two_lines working) (omega arith)
      ((refl, refl), ((refl, refl), tt))

abbrev home : Env
home = (text "HOME", text "it's") ∷ (text "PS1", text "$ ") ∷ []

script_text :
    build_script (text "ls") ((text "A", text "b'c") ∷ []) []
    ≡ text "#!/bin/bash\nexport 'A'='b'\\''c'\n" ++ command_lines (text "ls")
unfolding build_script
script_text = refl

read_lines-build_script_example :
    (body : Bytes) × (build_script (text "ls") home (text "/a b") ≡ text "#!/bin/bash\n" ++ body)
    × (read_lines (length (restores home (text "/a b"))) body
        ≡ (restores home (text "/a b"), command_lines (text "ls")))
read_lines-build_script_example = read_lines-build_script (text "ls") home (text "/a b")

abbrev arrives : Bytes → Arrival
arrives line = record { line = line; disk = working; delivered = true }

-- `echo hi; export A=b; cd /w; printf x`
abbrev transcript : Transcript
transcript = record {
  output = arrives (text "hi") ∷ [];
  last_line = text "x";
  starts = arrives (text "x__LEAN_ENV_START__");
  exported = arrives (text "declare -x A=\"b\"") ∷ [];
  ends = arrives marker_env_end;
  directory = arrives (text "__LEAN_PWD__:/w");
  exit = arrives (text "__LEAN_EXIT__:0");
}

IsTranscript-transcript : IsTranscript transcript (text "/w") (text "0")
unfolding cut_suffix cut_prefix str_eq
IsTranscript-transcript = record {
  output_plain = ((refl, refl, refl, refl, refl), tt);
  starts_line = refl;
  starts_sent = refl;
  exported_plain = ((refl, refl), tt);
  ends_line = refl;
  directory_line = refl;
  directory_plain = refl;
  exit_line = refl;
  exit_plain = refl;
}

scan_stdout-lines_example :
    At
      (scan_stdout (start_scan 0) (lines transcript))
      false
      (read_env [] transcript.exported)
      (text "/w")
      (add_all (fresh 0) (own_lines transcript))
scan_stdout-lines_example =
    scan_stdout-lines 0 transcript (text "/w") (text "0") IsTranscript-transcript

read_env-transcript : read_env [] transcript.exported ≡ (text "A", text "b") ∷ []
unfolding parse_export_line insert cut_prefix
read_env-transcript = refl

abbrev session : Session
session = record { env = home; cwd = [] }

abbrev request : RunRequest
request = record { command = text "echo"; max_stdout = pos 100; max_stderr = negsuc 0 }

abbrev process : Process
process = record {
  stdout = lines transcript;
  stderr = [];
  context_error = none;
  wait = exit_error (pos 3);
}

abbrev runs_process : Os
runs_process script = started process

run_request-lines_example :
    (r : RunResult) × (run_request session request runs_process ≡ (
      record { env = kept_env home (read_env [] transcript.exported); cwd = text "/w" },
      ran r none,
    ))
    × (r.stdout ≡ text "hi\nx\n")
    × (r.stdout_path ≡ [])
    × (r.exit_code ≡ pos 3)
unfolding trim_left trim_right
run_request-lines_example =
    run_request-lines session request runs_process process transcript (text "/w") (text "0") (pos 3)
      refl refl refl IsTranscript-transcript (λ e. cc) refl refl (refl, (refl, tt))
      (inr (omega arith))

run_request_unchanged_example :
    ((run_request session request (λ _. failed (text "start"))).0 ≡ session)
    ⊎ Exits session request (λ _. failed (text "start"))
run_request_unchanged_example = run_request_unchanged session request (λ _. failed (text "start"))

-- a body that breaks off behind the command
abbrev truncated : Decoded
truncated = record { request = request; error = some (text "unexpected EOF") }

-- what `transcript` says of the run
echoed :
    (r : RunResult) × (run_request session request runs_process ≡ (
      record { env = kept_env home (read_env [] transcript.exported); cwd = text "/w" },
      ran r none,
    ))
unfolding trim_left trim_right
echoed =
    let (r, same, out, path, code) =
      run_request-lines session request runs_process process transcript (text "/w") (text "0")
        (pos 3) refl refl refl IsTranscript-transcript (λ e. cc) refl refl (refl, (refl, tt))
        (inr (omega arith)) in
    (r, same)

handle_run_invalid_example : handle_run [] false runs_process truncated (some session) ≡ (
  wrote_error 400 (text "invalid json: unexpected EOF")
      ∷ wrote_response 200 (record {
        stdout = echoed.0.stdout;
        stderr = echoed.0.stderr;
        exit_code = echoed.0.exit_code;
        stdout_path = echoed.0.stdout_path;
        stderr_path = echoed.0.stderr_path;
      })
      ∷ [],
  some (record { env = kept_env home (read_env [] transcript.exported); cwd = text "/w" }),
)
handle_run_invalid_example =
    handle_run_invalid [] false runs_process truncated (some session) session _
      (text "unexpected EOF") echoed.0 refl (inl refl) echoed.1
