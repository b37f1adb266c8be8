-- ===== src/Agent/Handler/Toy.antt =====
-- A small agent: a file system that keeps what is written, simple keys and coding, and no bash.
use lean_sandbox.Common.{false, none, some, [], map}
use lean_sandbox.Common.Int.{pos}
use lean_sandbox.Common.Text.{text}
use lean_sandbox.Http.Toy.{events, errors}
use lean_sandbox.Jwt.Toy.{toy}
use lean_sandbox.Files.Toy.{drawer}
use lean_sandbox.Agent.Session.{failed}
use lean_sandbox.Agent.Frames.{event}
use lean_sandbox.Agent.Handler.{Machine}
use lean_sandbox.Sdk.Toy.{tar, untar}

abbrev pub agent : Machine
agent = record {
  fs = drawer;
  c = toy;
  id = text "7";
  pub_key = none;
  now = λ w. pos 999000000000;
  environ = [];
  os = λ w script. failed (text "no bash");
  after = λ script w. w;
  cancelled = λ r. false;
  ticks = λ r es. map event es;
  source = λ b. record { bytes = b; read_error = none };
  untar = untar;
  tar = tar;
  texts = record { dest = λ root rel. root; quote = λ t. t; quote_flag = λ f. [] };
  no_route = λ r. record { status = 404; body = [] };
  run_coder = record {
    marshal = λ r. some r.command;
    unmarshal = λ b. (record { command = b; max_stdout = pos 0; max_stderr = pos 0 }, none);
  };
  response_coder = record {
    marshal = λ r. some r.stdout;
    unmarshal = λ b. (
      record { stdout = b; stderr = []; exit_code = pos 0; stdout_path = []; stderr_path = [] },
      none,
    );
  };
  event_coder = events;
  error_coder = errors;
}
