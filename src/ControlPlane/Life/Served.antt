-- ===== src/ControlPlane/Life/Served.antt =====
-- A request to the API, whatever it is, keeps it so that the cluster gave out the identifier of every
-- sandbox.
use lean_sandbox.Common.{
  ℕ, refl, sym, Bool, true, false, Option, none, some, get_elem?, if◌then◌else◌,
}
use mathlib.Core.Path.{subst}
use lean_sandbox.Common.Text.{Bytes, text}
use lean_sandbox.Common.Paths.{split_slash}
use lean_sandbox.Api.{SandboxId, SandboxRequest}
use lean_sandbox.Http.{Request, limited}
use lean_sandbox.ControlPlane.{Sandbox, ControlPlane, keep_alive, get_sandbox}
use lean_sandbox.ControlPlane.Pods.{Result, ok, error, State, new_sandbox}
use lean_sandbox.ControlPlane.Upkeep.Refine.{Ids}
use lean_sandbox.ControlPlane.Server.{
  Backend, refused, Served, served, mint, show, answer_create, create_decoded, get_found,
  handle_get, kept_alive, handle_keep_alive, handle_delete, handle_create, handle_list, Route,
  healthz, create, list, nothing, one, keepalive, remove, route, serve, mux, admits, handle,
}
use lean_sandbox.ControlPlane.Server.Guarded.{handle-admits}
use lean_sandbox.ControlPlane.Life.Given.{
  Gives, Gives-later, new_sandbox-Gives, keep_alive-Gives, delete_sandbox-Gives,
}

module _ (b : Backend) (d : Ids b.k) where
  abbrev Holds : State b.k → Type 0
  Holds = Gives b.k d

  show-Holds : (o : Option Sandbox) (t : State b.k) → Holds t → Holds (show b o t).state
  unfolding show mint
  show-Holds none t g = g
  show-Holds (some sb) (cp, w) g = Gives-later b.k d cp w _ (λ i h. d.by_now i w h) g

  answer_create-Holds : (r : Result ℕ) (t : State b.k) → Holds t → Holds (answer_create b r t).state
  unfolding answer_create
  answer_create-Holds (error e) t g = g
  answer_create-Holds (ok a) t g = show-Holds (get_elem? t.0.heap a) t g

  create_decoded-Holds :
      (r : SandboxRequest × Option Bytes) (t : State b.k)
      → Holds t
      → Holds (create_decoded b r t).state
  create_decoded-Holds (req, some e) t g = g
  create_decoded-Holds (req, none) (cp, w) g =
      let made = new_sandbox b.k cp req.image w in
      answer_create-Holds made.0 made.1 (new_sandbox-Gives b.k d cp req.image w g)

  identified-Holds :
      (f : SandboxId → State b.k → Served b.k) (o : Option SandboxId) (t : State b.k)
      → Holds t
      → ((i : SandboxId) → Holds (f i t).state)
      → (let sv : Served b.k = elim o [
        | none ↦ served b.k (refused 400 (text "invalid sandbox id")) t
        | some i ↦ f i t
      ] in
          Holds sv.state)
  identified-Holds f none t g h = g
  identified-Holds f (some i) t g h = h i

  get_found-Holds :
      (id : SandboxId) (o : Option Sandbox) (t : State b.k)
      → Holds t
      → Holds (get_found b id o t).state
  unfolding get_found
  get_found-Holds id none t g = g
  get_found-Holds id (some sb) t g = show-Holds (some sb) t g

  kept_alive-Holds :
      (r : Option ℕ × ControlPlane) (w later : b.k.World)
      → Holds (r.1, w)
      → Holds (r.1, later)
      → Holds (kept_alive b r w later).state
  unfolding kept_alive
  kept_alive-Holds (none, cp) w later g h = g
  kept_alive-Holds (some a, cp) w later g h = show-Holds (get_elem? cp.heap a) (cp, later) h

  handle_keep_alive-Holds :
      (id : SandboxId) (t : State b.k) → Holds t → Holds (handle_keep_alive b id t).state
  unfolding handle_keep_alive
  handle_keep_alive-Holds id (cp, w) g =
      let now = b.k.now w in
      let kept = keep_alive-Gives b.k d cp id now.0 w g in
      kept_alive-Holds (keep_alive cp id now.0) w now.1 kept
        (Gives-later b.k d (keep_alive cp id now.0).1 w _ (λ i h. d.by_now i w h) kept)

  handle_delete-Holds :
      (id : SandboxId) (t : State b.k) → Holds t → Holds (handle_delete b id t).state
  unfolding handle_delete
  handle_delete-Holds id t g = delete_sandbox-Gives b.k d id t g

  serve-Holds : (t : Route) (r : Request) (s : State b.k) → Holds s → Holds (serve b t r s).state
  unfolding serve handle_create handle_get handle_list
  serve-Holds healthz r s g = g
  serve-Holds create r s g = create_decoded-Holds (b.request_coder.unmarshal (limited r.body)) s g
  serve-Holds list r s g = g
  serve-Holds (one id) r (cp, w) g =
      identified-Holds (handle_get b) (b.parse_id id) (cp, w) g
        (λ i. get_found-Holds i (get_sandbox cp i) (cp, w) g)
  serve-Holds (keepalive id) r s g =
      identified-Holds (handle_keep_alive b) (b.parse_id id) s g
        (λ i. handle_keep_alive-Holds i s g)
  serve-Holds (remove id) r s g =
      identified-Holds (handle_delete b) (b.parse_id id) s g (λ i. handle_delete-Holds i s g)
  serve-Holds nothing r s g = g

  pub handle-Gives :
      (key : Bytes) (r : Request) (s : State b.k)
      → Gives b.k d s
      → Gives b.k d (handle b key r s).state
  handle-Gives key r s g =
      subst (λ (sv : Served b.k). Holds sv.state)
        (sym (handle-admits b key r s (admits key r) refl)) (go (admits key r))
    where
      go :
          (c : Bool)
          → (let sv : Served b.k =
                if c then mux b r s else served b.k (refused 401 (text "unauthorized")) s in
              Holds sv.state)
      go true = serve-Holds (route r.method (split_slash r.path)) r s g
      go false = g
