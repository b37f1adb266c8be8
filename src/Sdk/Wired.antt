-- ===== src/Sdk/Wired.antt =====
-- The client of the control plane, at the API of a control plane.
use lean_sandbox.Common.{
  ◌≡◌, ◌≢◌, refl, ap, ◌∙◌, true, Option, none, some, [], ◌∷◌, ◌++◌, arith, if◌then◌else◌,
}
use lean_sandbox.Common.Text.{Bytes, text, str_eq, is_empty}
use lean_sandbox.Common.Text.Laws.{str_eq_refl}
use lean_sandbox.Common.Paths.{split_slash}
use lean_sandbox.Common.Paths.Laws.{NoSlash, split_slash_plain}
use lean_sandbox.Common.Dict.{get, bytes_eq}
use lean_sandbox.Api.{SandboxId, SandboxView}
use lean_sandbox.Http.{Request, IsLawful, or_empty}
use lean_sandbox.ControlPlane.{Sandbox, get_sandbox}
use lean_sandbox.ControlPlane.Pods.{State, unknown}
use lean_sandbox.ControlPlane.Server.{
  Backend, Served, served, refused, shown, view, mint, message, one, route, serve, mux, admits,
  handle, render, Answer, handle_get, get_found, show,
}
use lean_sandbox.ControlPlane.Server.Guarded.{handle-admits}
use lean_sandbox.Sdk.{
  Codes, Transport, answered, http_failed, unmarshal_failed, Reply, returned, failed, accepted,
  http_error, map_reply, read_json,
}
use lean_sandbox.Sdk.Planes
use lean_sandbox.Sdk.Planes.{json_request, do_json, sandbox_path, handle_of}

-- The API of a control plane with this key, as what answers a client.
abbrev pub wire : Backend → Bytes → Transport
wire b key = record {
  World = State b.k;
  send = λ base r body_error s.
      (answered (render b r (handle b key r s).answer), (handle b key r s).state);
}

-- Both sides code alike.
abbrev pub codes_of : Backend → Codes → Codes
codes_of b c = record c {
  sandbox_request = b.request_coder;
  view = b.view_coder;
  list = b.list_coder;
  error = b.error_coder;
  id_string = b.k.id_string;
}

-- The text of the id is one part of a path, and is read as the id.
pub record Addresses (b : Backend) (id : SandboxId) : Type 0 where
  pub not_empty : b.k.id_string id ≢ []
  pub no_slash : NoSlash (b.k.id_string id)
  pub parsed : b.parse_id (b.k.id_string id) ≡ some id

admits-json_request :
    (s : Planes.ControlPlane) (m p body : Bytes) → admits s.api_key (json_request s m p body) ≡ true
unfolding admits json_request get str_eq
admits-json_request s m p body = go s.api_key
  where
    go : (key : Bytes) → admits key (json_request (record s { api_key = key }) m p body) ≡ true
    go [] = refl
    go (c ∷ key) = ground (arith, str_eq_refl (c ∷ key))

module _ (b : Backend) (c : Codes) (s : Planes.ControlPlane) where
  do_json-mux :
      (m p body : Bytes) (w : State b.k)
      → do_json (wire b s.api_key) (codes_of b c) s m p body w ≡ (
          let r = json_request s m p body in
          let sv = mux b r w in
          (accepted (codes_of b c) (answered (render b r sv.answer)), sv.state))
  unfolding do_json
  do_json-mux m p body w =
      let r = json_request s m p body in
      ap
        (λ (sv : Served b.k). (accepted (codes_of b c) (answered (render b r sv.answer)), sv.state))
        (handle-admits b s.api_key r w true (admits-json_request s m p body))

route_get :
    (i : Bytes)
    → i ≢ []
    → NoSlash i
    → route (text "GET") (split_slash (text "/v1/sandboxes/" ++ i)) ≡ one i
unfolding route split_slash str_eq
route_get [] n h = absurd (n refl)
route_get (ch ∷ i) n h =
    ap (λ t. route (text "GET") ([] ∷ text "v1" ∷ text "sandboxes" ∷ t))
      (split_slash_plain (ch ∷ i) h)

-- What JSON is relied on for: it writes every view and every error, and reads them back.
pub record Coded (b : Backend) : Type 0 where
  pub views : (v : SandboxView) → (t : Bytes) × (b.view_coder.marshal v ≡ some t)
  pub views_back : IsLawful b.view_coder
  pub errors : (e : Bytes) → (t : Bytes) × (b.error_coder.marshal e ≡ some t)
  pub errors_back : IsLawful b.error_coder

-- What the client is told of a look-up: the view of the sandbox with a fresh token, or the error
-- of an unknown sandbox.
abbrev pub looked_up :
    (b : Backend)
    → Planes.ControlPlane
    → SandboxId
    → Option Sandbox
    → State b.k
    → Reply Planes.Sandbox × State b.k
looked_up b s id none w =
    (failed (http_failed (record { status = 404; body = message b (unknown id) })), w)
looked_up b s id (some sb) (cp, w) =
    let t = mint b cp sb.id w in (returned (handle_of s (view sb t.0)), (cp, t.1))

module _ (b : Backend) (c : Codes) (s : Planes.ControlPlane) (law : Coded b) where
  -- what the client makes of an answer
  abbrev heard : Request → Answer → Reply Planes.Sandbox
  heard r a =
      map_reply (handle_of s)
        (read_json b.view_coder (accepted (codes_of b c) (answered (render b r a))))

  heard_shown : (r : Request) (v : SandboxView) → heard r (shown v) ≡ returned (handle_of s v)
  unfolding render
  heard_shown r v =
      let (t, e) = law.views v in
      ap
        (λ o.
          map_reply (handle_of s)
            (read_json b.view_coder (returned (record { status = 200; body = or_empty o }))))
        e
      ∙ ap (λ d. map_reply (handle_of s) (decode_reply d)) (law.views_back.unmarshal_marshal v t e)
    where
      decode_reply : SandboxView × Option Bytes → Reply SandboxView
      decode_reply d = elim d.1 [ some e ↦ failed (unmarshal_failed e) | none ↦ returned d.0 ]

  heard_unknown :
      (r : Request) (id : SandboxId)
      → heard r (refused 404 (message b (unknown id)))
        ≡ failed (http_failed (record { status = 404; body = message b (unknown id) }))
  unfolding render http_error
  heard_unknown r id =
      let e = message b (unknown id) in
      let (t, m) = law.errors e in
      ap (λ o. told (b.error_coder.unmarshal (or_empty o)).0) m
      ∙ ap (λ d. told d.0) (law.errors_back.unmarshal_marshal e t m)
    where
      told : Bytes → Reply Planes.Sandbox
      told t = failed (
          http_failed (record { status = 404; body = if is_empty t then c.status_line 404 else t }))

  heard_get :
      (r : Request) (id : SandboxId) (o : Option Sandbox) (w : State b.k)
      → (heard r (get_found b id o w).answer, (get_found b id o w).state) ≡ looked_up b s id o w
  unfolding get_found show
  heard_get r id none w = ap (λ x. (x, w)) (heard_unknown r id)
  heard_get r id (some sb) (cp, w) =
      let t = mint b cp sb.id w in ap (λ x. (x, (cp, t.1))) (heard_shown r (view sb t.0))

mux_get :
    (b : Backend) (s : Planes.ControlPlane) (id : SandboxId) (w : State b.k)
    → Addresses b id
    → mux b (json_request s (text "GET") (text "/v1/sandboxes/" ++ b.k.id_string id) []) w
      ≡ get_found b id (get_sandbox w.0 id) w
unfolding json_request serve handle_get
mux_get b s id (cp, w) at =
    let r = json_request s (text "GET") (text "/v1/sandboxes/" ++ b.k.id_string id) [] in
    ap (λ t. serve b t r (cp, w)) (route_get (b.k.id_string id) at.not_empty at.no_slash)
    ∙ ap
        (λ o. elim o as (λ _. Served b.k) [
          | none ↦ served b.k (refused 400 (text "invalid sandbox id")) (cp, w)
          | some i ↦ handle_get b i (cp, w)
        ])
        at.parsed

-- Where JSON writes the views and the errors and reads them back, and the text of the identifier is
-- one part of a path that is parsed as the identifier, `GetSandbox` of the client, at the API of a
-- control plane with the client's key, returns the sandbox that the control plane finds, with a
-- fresh token, or fails with the status 404 and the control plane's own error where it finds none;
-- the control plane is as before, but for the time and the signing.
pub get_sandbox-wire :
    (b : Backend) (c : Codes) (s : Planes.ControlPlane) (id : SandboxId) (w : State b.k)
    → Coded b
    → Addresses b id
    → Planes.get_sandbox (wire b s.api_key) (codes_of b c) s id w
      ≡ looked_up b s id (get_sandbox w.0 id) w
unfolding Planes.get_sandbox
get_sandbox-wire b c s id (cp, w) law at =
    let r = json_request s (text "GET") (sandbox_path (codes_of b c) id) [] in
    ap (λ d. (map_reply (handle_of s) (read_json b.view_coder d.0), d.1))
      (do_json-mux b c s (text "GET") (sandbox_path (codes_of b c) id) [] (cp, w))
    ∙ ap (λ (sv : Served b.k). (heard b c s law r sv.answer, sv.state)) (mux_get b s id (cp, w) at)
    ∙ heard_get b c s law r id (get_sandbox cp id) (cp, w)
