-- ===== src/Sdk/Planes.antt =====
-- sdk/controlplane.go: the client of the control plane.
use lean_sandbox.Common.{none, List, [], ◌∷◌, ◌++◌}
use lean_sandbox.Common.Text.{Bytes, text}
use lean_sandbox.Api.{SandboxId, SandboxRequest, SandboxView}
use lean_sandbox.Http.{Request, Response, api_key_header}
use lean_sandbox.Sdk.{
  Codes, Transport, Reply, accepted, read_json, ignore, map_reply, json_type, unless_empty,
  with_body,
}

pub record ControlPlane : Type 0 where
  pub base_url : Bytes
  pub api_key : Bytes

-- `sdk.Sandbox`
pub record Sandbox : Type 0 where
  pub view : SandboxView
  pub control_plane : ControlPlane

-- the request of `doJSON`
unfoldable pub json_request : ControlPlane → Bytes → Bytes → Bytes → Request
json_request s method path body = record {
  method = method;
  path = path;
  query = [];
  header = json_type ∷ unless_empty api_key_header s.api_key;
  body = body;
}

-- `doJSON` up to the check of the status
unfoldable pub do_json :
    (t : Transport)
    → Codes
    → ControlPlane
    → Bytes
    → Bytes
    → Bytes
    → t.World
    → Reply Response × t.World
unfolding json_request
do_json t c s method path body w =
    let sent = t.send s.base_url (json_request s method path body) none w in
    (accepted c sent.0, sent.1)

abbrev pub sandbox_path : Codes → SandboxId → Bytes
sandbox_path c id = text "/v1/sandboxes/" ++ c.id_string id

abbrev pub handle_of : ControlPlane → SandboxView → Sandbox
handle_of s v = record { view = v; control_plane = s }

-- `func (s *ControlPlane) NewSandbox(ctx, req)`
unfoldable pub new_sandbox :
    (t : Transport) → Codes → ControlPlane → SandboxRequest → t.World → Reply Sandbox × t.World
unfolding do_json
new_sandbox t c s req w =
    let done =
      with_body t (c.sandbox_request.marshal req)
        (λ b v. do_json t c s (text "POST") (text "/v1/sandboxes") b v) w in
    (map_reply (handle_of s) (read_json c.view done.0), done.1)

-- `func (s *ControlPlane) GetSandbox(ctx, id)`
unfoldable pub get_sandbox :
    (t : Transport) → Codes → ControlPlane → SandboxId → t.World → Reply Sandbox × t.World
unfolding do_json
get_sandbox t c s id w =
    let done = do_json t c s (text "GET") (sandbox_path c id) [] w in
    (map_reply (handle_of s) (read_json c.view done.0), done.1)

-- `func (s *ControlPlane) KeepAlive(ctx, id)`
unfoldable pub keep_alive :
    (t : Transport) → Codes → ControlPlane → SandboxId → t.World → Reply (Unit {0}) × t.World
unfolding do_json
keep_alive t c s id w =
    let done = do_json t c s (text "POST") (sandbox_path c id ++ text "/keepalive") [] w in
    (ignore done.0, done.1)

-- `func (s *ControlPlane) Delete(ctx, id)`
unfoldable pub delete :
    (t : Transport) → Codes → ControlPlane → SandboxId → t.World → Reply (Unit {0}) × t.World
unfolding do_json
delete t c s id w =
    let done = do_json t c s (text "DELETE") (sandbox_path c id) [] w in (ignore done.0, done.1)

-- `func (s *ControlPlane) ListSandboxes(ctx)`
unfoldable pub list_sandboxes :
    (t : Transport) → Codes → ControlPlane → t.World → Reply (List SandboxView) × t.World
unfolding do_json
list_sandboxes t c s w =
    let done = do_json t c s (text "GET") (text "/v1/sandboxes") [] w in
    (read_json c.list done.0, done.1)
