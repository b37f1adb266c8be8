-- ===== src/ControlPlane/Server/Toy.antt =====
-- A small control plane with its API: the cluster `town`, and simple keys and coding.
use lean_sandbox.Common.{none, some, [], if◌then◌else◌}
use lean_sandbox.Common.Int.{pos}
use lean_sandbox.Common.Text.{text, str_eq}
use lean_sandbox.Http.Toy.{views, errors}
use lean_sandbox.Jwt.Toy.{toy}
use lean_sandbox.ControlPlane.{register}
use lean_sandbox.ControlPlane.Pods.{State}
use lean_sandbox.ControlPlane.Town.{town, quiet, noon, served}
use lean_sandbox.ControlPlane.Server.{Backend}

abbrev pub office : Backend
office = record {
  k = town;
  c = toy;
  key = 5;
  parse_id = λ t. if str_eq t (text "7") then some 7 else none;
  quote = λ t. t;
  no_route = λ r. record { status = 404; body = [] };
  request_coder = record {
    marshal = λ _. none;
    unmarshal = λ b. (record { image = b; timeout_seconds = pos 0 }, none);
  };
  view_coder = views;
  list_coder = record { marshal = λ _. none; unmarshal = λ b. ([], none) };
  error_coder = errors;
}

-- The sandbox 7 is tracked, and its pod runs.
abbrev pub open_day : State town
open_day = (register quiet.cp served, noon)
