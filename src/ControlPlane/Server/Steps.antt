-- ===== src/ControlPlane/Server/Steps.antt =====
-- The requests of the control plane's API as critical sections.
use lean_sandbox.Common.{
  ℕ, ◌≡◌, refl, sym, Bool, true, false, Option, none, some, get_elem?, if◌then◌else◌,
}
use mathlib.Core.Path.{subst}
use lean_sandbox.Common.Text.{Bytes, text}
use lean_sandbox.Common.Paths.{split_slash}
use lean_sandbox.Api.{SandboxId, SandboxRequest}
use lean_sandbox.Http.{Request, limited}
use lean_sandbox.ControlPlane.{Sandbox, ControlPlane, get_sandbox, keep_alive, drop_tracked}
use lean_sandbox.ControlPlane.Invariant.{System, Inv}
use lean_sandbox.ControlPlane.Invariant.Sections.{IsFresh}
use lean_sandbox.ControlPlane.Interleaving.{Step, drops, renews}
use lean_sandbox.ControlPlane.Pods.{Result, ok, error, State, new_sandbox}
use lean_sandbox.ControlPlane.Pods.Refine.{Effect, hands, refuses, new_sandbox-Effect}
use lean_sandbox.ControlPlane.Upkeep.{delete_sandbox, delete_taken}
use lean_sandbox.ControlPlane.Server.{
  Backend, refused, Served, served, show, answer_create, create_decoded, get_found, handle_get,
  kept_alive, handle_keep_alive, handle_delete, handle_create, handle_list, Route, healthz, create,
  list, nothing, one, keepalive, remove, route, serve, mux, admits, handle,
}
use lean_sandbox.ControlPlane.Server.Guarded.{handle-admits}

-- The control plane has taken one step, or none.
pub data AtMostOne (s : System) : ControlPlane → Type 0 where
  stays : AtMostOne s s.cp
  moves :
      (label : Option ℕ) (cp : ControlPlane) → Step s (record s { cp = cp }) label → AtMostOne s cp

module _ (b : Backend) (s : System) (w : b.k.World) where
  abbrev Stepped : Served b.k → Type 0
  Stepped sv = AtMostOne s sv.state.0

  show-state : (o : Option Sandbox) (t : State b.k) → (show b o t).state.0 ≡ t.0
  unfolding show
  show-state none t = refl
  show-state (some sb) (cp, v) = refl

  answer_create-state : (r : Result ℕ) (t : State b.k) → (answer_create b r t).state.0 ≡ t.0
  unfolding answer_create
  answer_create-state (error e) t = refl
  answer_create-state (ok a) t = show-state (get_elem? t.0.heap a) t

  Effect-AtMostOne :
      (image : Bytes) (r : Result ℕ) (cp : ControlPlane) → Effect s image r cp → AtMostOne s cp
  Effect-AtMostOne image r cp (hands a cp2 sb step e c i) = moves (some a) cp2 step
  Effect-AtMostOne image r cp (refuses e) = stays

  create_decoded-Stepped :
      (d : SandboxRequest × Option Bytes)
      → Inv s
      → IsFresh s.heap (b.k.new_id w).0
      → Stepped (create_decoded b d (s.cp, w))
  create_decoded-Stepped (req, some e) v f = stays
  create_decoded-Stepped (req, none) v f =
      let made = new_sandbox b.k s.cp req.image w in
      subst (AtMostOne s) (sym (answer_create-state made.0 made.1))
        (Effect-AtMostOne req.image made.0 made.1.0 (new_sandbox-Effect b.k s req.image w v f))

  with_id-Stepped :
      (f : SandboxId → State b.k → Served b.k) (o : Option SandboxId)
      → ((i : SandboxId) → Stepped (f i (s.cp, w)))
      → Stepped (elim o [
        | none ↦ served b.k (refused 400 (text "invalid sandbox id")) (s.cp, w)
        | some i ↦ f i (s.cp, w)
      ])
  with_id-Stepped f none h = stays
  with_id-Stepped f (some i) h = h i

  get_found-Stepped : (id : SandboxId) (o : Option Sandbox) → Stepped (get_found b id o (s.cp, w))
  unfolding get_found
  get_found-Stepped id none = stays
  get_found-Stepped id (some sb) = subst (AtMostOne s) (sym (show-state (some sb) (s.cp, w))) stays

  kept_alive-state :
      (r : Option ℕ × ControlPlane) (v later : b.k.World) → (kept_alive b r v later).state.0 ≡ r.1
  unfolding kept_alive
  kept_alive-state (none, cp) v later = refl
  kept_alive-state (some a, cp) v later = show-state (get_elem? cp.heap a) (cp, later)

  handle_keep_alive-Stepped : (id : SandboxId) → Stepped (handle_keep_alive b id (s.cp, w))
  unfolding handle_keep_alive
  handle_keep_alive-Stepped id =
      let now = b.k.now w in
      subst (AtMostOne s) (sym (kept_alive-state (keep_alive s.cp id now.0) w now.1))
        (moves none _ (renews s id now.0))

  delete_taken-state :
      (id : SandboxId) (o : Option Sandbox) (t : State b.k) → (delete_taken b.k id o t).1.0 ≡ t.0
  unfolding delete_taken
  delete_taken-state id none t = refl
  delete_taken-state id (some sb) (cp, v) = refl

  handle_delete-Stepped : (id : SandboxId) → Stepped (handle_delete b id (s.cp, w))
  unfolding handle_delete delete_sandbox
  handle_delete-Stepped id =
      let taken = drop_tracked s.cp id in
      subst (AtMostOne s) (sym (delete_taken-state id taken.0 (taken.1, w)))
        (moves none taken.1 (drops s id))

  pub serve-Stepped :
      (t : Route) (r : Request)
      → Inv s
      → IsFresh s.heap (b.k.new_id w).0
      → Stepped (serve b t r (s.cp, w))
  unfolding serve handle_create handle_get handle_list
  serve-Stepped healthz r v f = stays
  serve-Stepped create r v f =
      create_decoded-Stepped (b.request_coder.unmarshal (limited r.body)) v f
  serve-Stepped list r v f = stays
  serve-Stepped (one id) r v f =
      with_id-Stepped (handle_get b) (b.parse_id id) (λ i. get_found-Stepped i (get_sandbox s.cp i))
  serve-Stepped (keepalive id) r v f =
      with_id-Stepped (handle_keep_alive b) (b.parse_id id) handle_keep_alive-Stepped
  serve-Stepped (remove id) r v f =
      with_id-Stepped (handle_delete b) (b.parse_id id) handle_delete-Stepped
  serve-Stepped nothing r v f = stays

-- Where the maps and the heap agree, and the next identifier is of no sandbox yet, a request to the
-- API of the control plane, whatever it asks for and whatever the cluster answers, is one of the
-- critical sections, or leaves the control plane as it was.
pub handle-AtMostOne :
    (b : Backend) (key : Bytes) (r : Request) (s : System) (w : b.k.World)
    → Inv s
    → IsFresh s.heap (b.k.new_id w).0
    → AtMostOne s (handle b key r (s.cp, w)).state.0
handle-AtMostOne b key r s w v f =
    subst (λ (sv : Served b.k). AtMostOne s sv.state.0)
      (sym (handle-admits b key r (s.cp, w) (admits key r) refl)) (go (admits key r))
  where
    go :
        (c : Bool)
        → AtMostOne s (
            let sv : Served b.k =
              if c
              then mux b r (s.cp, w)
              else served b.k (refused 401 (text "unauthorized")) (s.cp, w) in
            sv.state.0)
    go true = serve-Stepped b s w (route r.method (split_slash r.path)) r v f
    go false = stays
