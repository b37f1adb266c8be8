-- ===== src/ControlPlane/Server.antt =====
-- internal/controlplane/server.go, with `mintJWT` of jwt.go: the HTTP API of the control plane.
pub mod Guarded
pub mod Tokens
pub mod Steps
pub mod Toy
mod Samples
use lean_sandbox.Common.{
  ℕ, Bool, true, false, not, ◌&&◌, ◌||◌, Option, none, some, List, [], ◌∷◌, ◌++◌, map, get_elem?,
  if◌then◌else◌,
}
use lean_sandbox.Common.Int.{ℤ}
use lean_sandbox.Common.Text.{Bytes, text, str_eq, is_empty}
use lean_sandbox.Common.Paths.{split_slash}
use lean_sandbox.Api.{SandboxId, SandboxRequest, SandboxView}
use lean_sandbox.Config.{SandboxSpec}
use lean_sandbox.Http.{
  Request, Response, Coder, limited, or_empty, header_value, api_key_header, is_get, is_post,
  is_delete,
}
use lean_sandbox.Jwt.{Crypto, sign}
use lean_sandbox.Kube.{Cluster}
use lean_sandbox.ControlPlane.{Sandbox, ControlPlane, get_sandbox, keep_alive, list_sandboxes}
use lean_sandbox.ControlPlane.Pods.{
  Error, not_configured, create_failed, get_failed, delete_failed, context_error, not_ready,
  unknown, Result, ok, error, State, new_sandbox,
}
use lean_sandbox.ControlPlane.Upkeep.{delete_sandbox, spawn}

-- What the server has besides the state of the control plane: the cluster, the signing key, and
-- what it calls of Go's libraries.
pub record Backend : Type 1 where
  pub k : Cluster
  pub c : Crypto
  pub key : c.PrivateKey
  -- `uuid.Parse`
  pub parse_id : Bytes → Option SandboxId
  -- the verb `%q` of `fmt`
  pub quote : Bytes → Bytes
  -- what `ServeMux` answers where no pattern matches
  pub no_route : Request → Response
  pub request_coder : Coder SandboxRequest
  pub view_coder : Coder SandboxView
  pub list_coder : Coder (List SandboxView)
  pub error_coder : Coder Bytes

-- `err.Error()`
abbrev pub message : Backend → Error → Bytes
message b (not_configured image) = text "image " ++ (b.quote image ++ text " is not configured")
message b (create_failed e) = text "create pod: " ++ e
message b (get_failed e) = text "get pod: " ++ e
message b (delete_failed name e) = text "delete pod " ++ (name ++ (text ": " ++ e))
message b (context_error e) = e
message b (not_ready id) = text "sandbox " ++ (b.k.id_string id ++ text " not ready in time")
message b (unknown id) = text "sandbox " ++ (b.k.id_string id ++ text " not found")

-- What a handler writes. `panicked` is a nil pointer in the place of a sandbox.
pub data Answer : Type 0 where
  refused : ℕ → Bytes → Answer
  shown : SandboxView → Answer
  listed : List SandboxView → Answer
  emptied healthy panicked : Answer
  unrouted : Answer

-- The answer, the refills that are started in the background, and the state behind it.
pub record Served (k : Cluster) : Type 0 where
  pub answer : Answer
  pub spawned : List SandboxSpec
  pub state : State k

abbrev pub served : (k : Cluster) → Answer → State k → Served k
served k a s = record { answer = a; spawned = []; state = s }

-- `func (cp *ControlPlane) mintJWT(id) string`
unfoldable pub mint : (b : Backend) → ControlPlane → SandboxId → b.k.World → Bytes × b.k.World
mint b cp id w =
    let t = b.k.now w in (or_empty (sign b.c b.key (b.k.id_string id) cp.config.token_ttl t.0), t.1)

-- the `api.Sandbox` of a sandbox with a token
abbrev pub view : Sandbox → Bytes → SandboxView
view sb token = record {
  id = sb.id;
  image = sb.image;
  status = text "Running";
  endpoint = sb.endpoint;
  access_token = token;
}

-- the end of `handleCreate`, `handleGet` and `handleKeepAlive`
unfoldable pub show : (b : Backend) → Option Sandbox → State b.k → Served b.k
unfolding mint
show b none s = served b.k panicked s
show b (some sb) (cp, w) = let t = mint b cp sb.id w in served b.k (shown (view sb t.0)) (cp, t.1)

-- `handleCreate` behind `NewSandbox`
unfoldable pub answer_create : (b : Backend) → Result ℕ → State b.k → Served b.k
unfolding show
answer_create b (error e) s = served b.k (refused 502 (message b e)) s
answer_create b (ok a) s = show b (get_elem? s.0.heap a) s

abbrev pub create_decoded : (b : Backend) → SandboxRequest × Option Bytes → State b.k → Served b.k
create_decoded b (req, some e) s = served b.k (refused 400 (text "invalid json: " ++ e)) s
create_decoded b (req, none) (cp, w) =
    let made = new_sandbox b.k cp req.image w in answer_create b made.0 made.1

-- `handleCreate`
unfoldable pub handle_create : (b : Backend) → Request → State b.k → Served b.k
unfolding answer_create
handle_create b r s = create_decoded b (b.request_coder.unmarshal (limited r.body)) s

-- A handler of the path's id, which answers 400 to a text that is none.
abbrev pub with_id :
    (b : Backend) → (SandboxId → State b.k → Served b.k) → Bytes → State b.k → Served b.k
with_id b f id s = elim (b.parse_id id) [
  | none ↦ served b.k (refused 400 (text "invalid sandbox id")) s
  | some i ↦ f i s
]

-- `handleGet` behind the parsing of the id
unfoldable pub get_found : (b : Backend) → SandboxId → Option Sandbox → State b.k → Served b.k
unfolding show
get_found b id none s = served b.k (refused 404 (message b (unknown id))) s
get_found b id (some sb) s = show b (some sb) s

-- `handleGet`
unfoldable pub handle_get : (b : Backend) → SandboxId → State b.k → Served b.k
unfolding get_found
handle_get b id (cp, w) = get_found b id (get_sandbox cp id) (cp, w)

-- `handleKeepAlive` behind `KeepAlive`; the clock is read where the sandbox is found
unfoldable pub kept_alive :
    (b : Backend) → Option ℕ × ControlPlane → b.k.World → b.k.World → Served b.k
unfolding show
kept_alive b (none, cp) w later = served b.k (refused 410 (text "sandbox lease expired")) (cp, w)
kept_alive b (some a, cp) w later = show b (get_elem? cp.heap a) (cp, later)

-- `handleKeepAlive`
unfoldable pub handle_keep_alive : (b : Backend) → SandboxId → State b.k → Served b.k
unfolding kept_alive
handle_keep_alive b id (cp, w) = let t = b.k.now w in kept_alive b (keep_alive cp id t.0) w t.1

-- `handleDelete`
abbrev pub deletion : Backend → Result (Option SandboxSpec) → Answer
deletion b (ok spec) = emptied
deletion b (error e) = refused 404 (message b e)

unfoldable pub handle_delete : (b : Backend) → SandboxId → State b.k → Served b.k
handle_delete b id s =
    let gone = delete_sandbox b.k id s in
    record { answer = deletion b gone.0; spawned = spawn gone.0 []; state = gone.1 }

-- `handleList`
unfoldable pub handle_list : (b : Backend) → State b.k → Served b.k
handle_list b (cp, w) = served b.k (listed (map (λ sb. view sb []) (list_sandboxes cp))) (cp, w)

-- the patterns of `Handler`
pub data Route : Type 0 where
  healthz create list nothing : Route
  one keepalive remove : Bytes → Route

abbrev pub api_route : Bool → Route → Route
api_route b r = if b then r else nothing

abbrev pub one_route : Bytes → Bytes → Route
one_route m id =
    if is_empty id
    then nothing
    else if is_get m
    then one id
    else if is_delete m
    then remove id
    else nothing

-- The route of a method and the parts of a path.
unfoldable pub route : Bytes → List Bytes → Route
unfolding str_eq
route m ([] ∷ p ∷ []) = api_route (is_get m && str_eq p (text "healthz")) healthz
route m ([] ∷ v ∷ s ∷ []) =
    api_route (str_eq v (text "v1") && str_eq s (text "sandboxes"))
      (if is_post m then create else if is_get m then list else nothing)
route m ([] ∷ v ∷ s ∷ id ∷ []) =
    api_route (str_eq v (text "v1") && str_eq s (text "sandboxes")) (one_route m id)
route m ([] ∷ v ∷ s ∷ id ∷ a ∷ []) =
    api_route
      (str_eq v (text "v1")
        && str_eq s (text "sandboxes")
        && not (is_empty id)
        && str_eq a (text "keepalive")
        && is_post m)
      (keepalive id)
route m _ = nothing

unfoldable pub serve : (b : Backend) → Route → Request → State b.k → Served b.k
unfolding handle_create handle_get handle_keep_alive handle_delete handle_list
serve b healthz r s = served b.k healthy s
serve b create r s = handle_create b r s
serve b list r s = handle_list b s
serve b (one id) r s = with_id b (handle_get b) id s
serve b (keepalive id) r s = with_id b (handle_keep_alive b) id s
serve b (remove id) r s = with_id b (handle_delete b) id s
serve b nothing r s = served b.k unrouted s

-- the mux of `Handler`
abbrev pub mux : (b : Backend) → Request → State b.k → Served b.k
mux b r s = serve b (route r.method (split_slash r.path)) r s

-- whether `apiKeyMiddleware` passes a request on
unfoldable pub admits : Bytes → Request → Bool
admits key r =
    is_empty key || str_eq r.path (text "/healthz") || str_eq (header_value api_key_header r) key

-- `Handler`, with `apiKeyMiddleware`
unfoldable pub handle : (b : Backend) → Bytes → Request → State b.k → Served b.k
unfolding route serve admits
handle b key r s =
    if admits key r then mux b r s else served b.k (refused 401 (text "unauthorized")) s

-- What is sent for an answer. A value that cannot be marshalled leaves the body empty.
unfoldable pub render : Backend → Request → Answer → Response
render b r (refused code e) = record { status = code; body = or_empty (b.error_coder.marshal e) }
render b r (shown v) = record { status = 200; body = or_empty (b.view_coder.marshal v) }
render b r (listed vs) = record { status = 200; body = or_empty (b.list_coder.marshal vs) }
render b r emptied = record { status = 204; body = [] }
render b r healthy = record { status = 200; body = text "ok" }
render b r panicked = record { status = 0; body = [] }
render b r unrouted = b.no_route r
