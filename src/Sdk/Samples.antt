-- ===== src/Sdk/Samples.antt =====
-- The client against a small control plane and a small agent.
use lean_sandbox.Common.{
  ◌≡◌, refl, ap, if◌then◌else◌, Option, none, some, [], ◌∷◌, ◌++◌, List, All, arith, length, ◌+◌,
  ◌<◌,
}
use mathlib.Core.Path.{subst}
use lean_sandbox.Http.{or_empty}
use lean_sandbox.Common.Int.{pos}
use lean_sandbox.Common.Text.{Bytes, text, str_eq}
use lean_sandbox.Common.Decimal.{decimal}
use lean_sandbox.Api.{StreamEvent, EventType}
use lean_sandbox.Files.{found_dir, found_file, Found, file}
use lean_sandbox.Files.Toy.{drawer, latest}
use lean_sandbox.Http.Toy.{
  events, events-IsLawful, views-IsLawful, errors-IsLawful, events-InLine, read_parts,
}
use lean_sandbox.Tarx.Copy.{IsFine}
use lean_sandbox.Agent.Frames.{Tick, ping, event, frames}
use lean_sandbox.Agent.Handler.{Machine, check_token, handle, route, v1_route, serve, render}
use lean_sandbox.Agent.Transfer.{handle_write_file}
use lean_sandbox.Common.Paths.{split_slash}
use lean_sandbox.Common.Dict.{get, bytes_eq}
use lean_sandbox.Common.Text.Laws.{str_eq_refl}
use lean_sandbox.Agent.Handler.Toy.{agent}
use lean_sandbox.ControlPlane.{get_sandbox}
use lean_sandbox.ControlPlane.Server.Toy.{office, open_day}
use lean_sandbox.Sdk.Events.{max_line, raw_lines, read_events}
use lean_sandbox.Sdk.Events.RoundTrip.{OneLine, Fits, read_events-frames}
use lean_sandbox.Sdk.Toy.{codes, untar-tar}
use lean_sandbox.Sdk.Boxes.{unpacked, download_dir, raw_request, raw_response}
use lean_sandbox.Sdk.{returned}
use lean_sandbox.Sdk.Contents.{Stores, wrote, read_file-write_file}
use lean_sandbox.Sdk.Boxes
use lean_sandbox.Sdk.Planes
use lean_sandbox.Sdk.Wired.{Coded, Addresses, wire, codes_of, looked_up, get_sandbox-wire}
use lean_sandbox.Sdk.Transfers

abbrev hello : StreamEvent
hello = record { type = EventType.stdout; chunk = text "hi\n"; exit_code = pos 0; error = [] }

abbrev ended : StreamEvent
ended = record { type = EventType.done; chunk = []; exit_code = pos 3; error = [] }

abbrev ticks : List Tick
ticks = event hello ∷ ping ∷ event ended ∷ []

events-OneLine : OneLine events
unfolding read_parts
events-OneLine = record {
  lawful = events-IsLawful;
  in_line = events-InLine;
  empty_fails = (text "EOF", refl);
}

ticks-Fits : All (Fits events) ticks
ticks-Fits = (
  (λ b e. subst (λ o. 6 + length (or_empty o) < max_line) e (omega arith)),
  (tt, ((λ b e. subst (λ o. 6 + length (or_empty o) < max_line) e (omega arith)), tt)),
)

read_events-frames_example :
    read_events events none (raw_lines (frames events ticks)) ≡ hello ∷ ended ∷ []
read_events-frames_example = read_events-frames events ticks events-OneLine ticks-Fits

office-Coded : Coded office
office-Coded = record {
  views = λ v. (_, refl);
  views_back = views-IsLawful;
  errors = λ e. (e, refl);
  errors_back = errors-IsLawful;
}

seven-Addresses : Addresses office 7
unfolding decimal str_eq
seven-Addresses = record {
  not_empty = λ e. cc e;
  no_slash = ((λ e. absurd (omega arith)), tt);
  parsed = refl;
}

abbrev plane : Planes.ControlPlane
plane = record { base_url = text "http://plane"; api_key = text "s3cret" }

get_sandbox-wire_example :
    Planes.get_sandbox (wire office plane.api_key) (codes_of office codes) plane 7 open_day
    ≡ looked_up office plane 7 (get_sandbox open_day.0 7) open_day
get_sandbox-wire_example =
    get_sandbox-wire office codes plane 7 open_day office-Coded seven-Addresses

-- an agent whose files are a directory with a file, behind which the walk fails
abbrev visits : List (List Bytes × Found)
visits =
    ([], found_dir 493)
    ∷ (text "abc" ∷ [], found_file 420 (record { bytes = text "x"; read_error = none }))
    ∷ []

abbrev lost : Option (List Bytes × Bytes)
lost = some (text "b" ∷ [], text "permission denied")

abbrev worn : Machine
worn = record agent { fs = record drawer { walk = λ path w. visits ++ Transfers.tail lost [] } }

visits-IsFine : All (IsFine []) visits
visits-IsFine = (
  record { plain = tt; no_error = refl },
  (
    record {
      plain = (
        record {
          not_empty = λ e. cc e;
          not_dot = λ e. cc e;
          not_dots = λ e. cc e;
          no_slash = omega arith;
        },
        tt,
      );
      no_error = refl;
    },
    tt,
  ),
)

abbrev box : Planes.Sandbox
box = record {
  view = record { id = 7; image = []; status = []; endpoint = []; access_token = [] };
  control_plane = plane;
}

download_dir-copied_example :
    download_dir
      (Transfers.wire worn)
      (Transfers.codes_of worn codes)
      drawer
      box
      (text "/d")
      (text "/t")
      []
      (none, [])
    ≡ (let o = Transfers.copied drawer (text "/t") visits [] in ((unpacked o.0, o.1), (none, [])))
unfolding check_token
download_dir-copied_example =
    Transfers.download_dir-copied worn codes drawer box (text "/d") (text "/t") [] (none, []) visits
      lost [] untar-tar (λ e. cc e) refl refl refl visits-IsFine

agent-Stores : Stores agent
agent-Stores = record {
  arrives = λ b. refl;
  stored =
      λ path content w _ _. ap (λ t. if t then file content else latest path w) (str_eq_refl path);
}

wrote_note : (wrote agent codes box (text "/a") (text "note") (none, [])).0 ≡ returned tt
unfolding Boxes.write_file raw_response raw_request handle check_token route v1_route serve
    handle_write_file split_slash str_eq get render
wrote_note = refl

read_file-write_file_example :
    (Boxes.read_file
      (Transfers.wire agent)
      (Transfers.codes_of agent codes)
      box
      (text "/a")
      (wrote agent codes box (text "/a") (text "note") (none, [])).1).0
    ≡ returned (text "note")
unfolding check_token
read_file-write_file_example =
    read_file-write_file agent codes box (text "/a") (text "note") (none, []) agent-Stores refl refl
      wrote_note
