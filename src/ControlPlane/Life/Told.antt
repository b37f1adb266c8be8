-- ===== src/ControlPlane/Life/Told.antt =====
-- What a request to the API tells a client who asked for a new sandbox.
use lean_sandbox.Common.{
  ℕ, ◌≡◌, refl, sym, Bool, true, false, Option, none, some, List, [], ◌∷◌, get_elem?, if◌then◌else◌,
}
use mathlib.Core.Path.{subst}
use lean_sandbox.Common.Text.{Bytes, text}
use lean_sandbox.Common.Paths.{split_slash}
use lean_sandbox.Api.{SandboxId, SandboxRequest}
use lean_sandbox.Http.{Request, limited}
use lean_sandbox.ControlPlane.{Sandbox, ControlPlane}
use lean_sandbox.ControlPlane.Invariant.{System, Inv}
use lean_sandbox.ControlPlane.Invariant.Sections.{IsFresh}
use lean_sandbox.ControlPlane.Interleaving.{Step}
use lean_sandbox.ControlPlane.Pods.{Result, new_sandbox}
use lean_sandbox.ControlPlane.Pods.Refine.{Effect, hands, refuses, new_sandbox-Effect}
use lean_sandbox.ControlPlane.Server.{
  refused, Backend, Served, served, show, answer_create, create_decoded, handle_create, Route,
  healthz, create, list, nothing, one, keepalive, remove, route, serve, mux, admits, handle,
}
use lean_sandbox.ControlPlane.Server.Guarded.{handle-admits}
use lean_sandbox.ControlPlane.Server.Steps.{AtMostOne, stays, serve-Stepped}
use lean_sandbox.ControlPlane.Life.{shown_ids, new_ids, told_ids}

-- Nothing was told, or it was the identifier of the sandbox that one step handed out.
pub data Tells (s : System) : List SandboxId → ControlPlane → Type 0 where
  tells_nothing : (cp : ControlPlane) → AtMostOne s cp → Tells s [] cp
  tells :
      (a : ℕ) (cp : ControlPlane) (sb : Sandbox)
      → Step s (record s { cp = cp }) (some a)
      → get_elem? cp.heap a ≡ some sb
      → Tells s (sb.id ∷ []) cp

new_ids-refused : (t : Route) (code : ℕ) (e : Bytes) → new_ids t (refused code e) ≡ []
new_ids-refused healthz code e = refl
new_ids-refused create code e = refl
new_ids-refused list code e = refl
new_ids-refused nothing code e = refl
new_ids-refused (one id) code e = refl
new_ids-refused (keepalive id) code e = refl
new_ids-refused (remove id) code e = refl

module _ (b : Backend) (s : System) (w : b.k.World) where
  answer_create-Tells :
      (image : Bytes) (r : Result ℕ) (cp : ControlPlane) (v : b.k.World)
      → Effect s image r cp
      → (let sv = answer_create b r (cp, v) in Tells s (shown_ids sv.answer) sv.state.0)
  unfolding answer_create show
  answer_create-Tells image r cp v (hands a cp2 sb step e c i) = rw e (tells a cp2 sb step e)
  answer_create-Tells image r cp v (refuses e) = tells_nothing s.cp stays

  create_decoded-Tells :
      (d : SandboxRequest × Option Bytes)
      → Inv s
      → IsFresh s.heap (b.k.new_id w).0
      → (let sv = create_decoded b d (s.cp, w) in Tells s (shown_ids sv.answer) sv.state.0)
  create_decoded-Tells (req, some e) v f = tells_nothing s.cp stays
  create_decoded-Tells (req, none) v f =
      let made = new_sandbox b.k s.cp req.image w in
      answer_create-Tells req.image made.0 made.1.0 made.1.1
        (new_sandbox-Effect b.k s req.image w v f)

  serve-Tells :
      (t : Route) (r : Request)
      → Inv s
      → IsFresh s.heap (b.k.new_id w).0
      → (let sv = serve b t r (s.cp, w) in Tells s (new_ids t sv.answer) sv.state.0)
  unfolding serve handle_create
  serve-Tells create r v f = create_decoded-Tells (b.request_coder.unmarshal (limited r.body)) v f
  serve-Tells healthz r v f = tells_nothing _ (serve-Stepped b s w healthz r v f)
  serve-Tells list r v f = tells_nothing _ (serve-Stepped b s w list r v f)
  serve-Tells nothing r v f = tells_nothing _ (serve-Stepped b s w nothing r v f)
  serve-Tells (one id) r v f = tells_nothing _ (serve-Stepped b s w (one id) r v f)
  serve-Tells (keepalive id) r v f = tells_nothing _ (serve-Stepped b s w (keepalive id) r v f)
  serve-Tells (remove id) r v f = tells_nothing _ (serve-Stepped b s w (remove id) r v f)

pub handle-Tells :
    (b : Backend) (key : Bytes) (r : Request) (s : System) (w : b.k.World)
    → Inv s
    → IsFresh s.heap (b.k.new_id w).0
    → (let sv = handle b key r (s.cp, w) in Tells s (told_ids r sv.answer) sv.state.0)
handle-Tells b key r s w v f =
    subst (λ (sv : Served b.k). Tells s (told_ids r sv.answer) sv.state.0)
      (sym (handle-admits b key r (s.cp, w) (admits key r) refl)) (go (admits key r))
  where
    go :
        (c : Bool)
        → (let sv : Served b.k =
              if c
              then mux b r (s.cp, w)
              else served b.k (refused 401 (text "unauthorized")) (s.cp, w) in
            Tells s (told_ids r sv.answer) sv.state.0)
    go true = serve-Tells b s w (route r.method (split_slash r.path)) r v f
    go false =
        subst (λ ids. Tells s ids s.cp)
          (sym (new_ids-refused (route r.method (split_slash r.path)) 401 (text "unauthorized")))
          (tells_nothing s.cp stays)
