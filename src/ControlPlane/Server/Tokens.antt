-- ===== src/ControlPlane/Server/Tokens.antt =====
-- The tokens that the control plane hands out with a sandbox, and the agents that accept them.
use lean_sandbox.Common.{
  ℕ, ◌≡◌, refl, sym, ap, ◌∙◌, Bool, true, false, ◌⊎◌, inl, inr, Option, none, some, [],
  if◌then◌else◌, Option-cases, get_elem?,
}
use mathlib.Core.Path.{subst}
use lean_sandbox.Common.Int.{ℤ}
use lean_sandbox.Common.Text.{Bytes, text}
use lean_sandbox.Common.Paths.{split_slash}
use lean_sandbox.Api.{SandboxId, SandboxRequest, SandboxView}
use lean_sandbox.Http.{Request, limited, or_empty}
use lean_sandbox.Jwt.{sign}
use lean_sandbox.ControlPlane.{Sandbox, ControlPlane, get_sandbox, keep_alive}
use lean_sandbox.ControlPlane.Pods.{Result, ok, error, State, new_sandbox}
use lean_sandbox.ControlPlane.Upkeep.{delete_sandbox}
use lean_sandbox.ControlPlane.Server.{
  Backend, Answer, refused, shown, Served, served, mint, show, answer_create, create_decoded,
  handle_create, with_id, get_found, handle_get, kept_alive, handle_keep_alive, deletion,
  handle_delete, handle_list, Route, healthz, create, list, nothing, one, keepalive, remove, route,
  serve, mux, admits, handle,
}
use lean_sandbox.ControlPlane.Server.Guarded.{handle-admits}

-- The token was signed for a sandbox, at the time `signed_at`, for the time to live `ttl`.
pub record SignedFor (b : Backend) (ttl : ℤ) (id token : Bytes) : Type 0 where
  pub signed_at : ℤ
  pub signed : sign b.c b.key id ttl signed_at ≡ some token

-- There is no token, and at some time none could be signed; or the token was signed.
abbrev pub TokenFor : Backend → ℤ → Bytes → Bytes → Type 0
TokenFor b ttl id token =
    ((token ≡ []) × ((now : ℤ) × (sign b.c b.key id ttl now ≡ none))) ⊎ SignedFor b ttl id token

-- the token of the view
abbrev pub TokenOf : (b : Backend) → State b.k → SandboxView → Type 0
TokenOf b s v = TokenFor b s.0.config.token_ttl (b.k.id_string v.id) v.access_token

-- A sandbox that an answer shows has a token for its agent, or none where none could be signed.
abbrev Grants : (b : Backend) → Served b.k → Type 0
Grants b sv = (v : SandboxView) → sv.answer ≡ shown v → TokenOf b sv.state v

module _ (b : Backend) where
  mint-TokenFor :
      (cp : ControlPlane) (id : SandboxId) (w : b.k.World)
      → TokenFor b cp.config.token_ttl (b.k.id_string id) (mint b cp id w).0
  unfolding mint
  mint-TokenFor cp id w =
      let now = (b.k.now w).0 in
      elim (Option-cases (sign b.c b.key (b.k.id_string id) cp.config.token_ttl now)) [
        | inl n ↦ inl (ap or_empty n, (now, n))
        | inr (token, e) ↦
            inr (record { signed_at = now; signed = e ∙ ap (λ t. some (or_empty t)) (sym e) })
      ]

  show-Grants : (o : Option Sandbox) (s : State b.k) → Grants b (show b o s)
  unfolding show
  show-Grants none s v e = absurd (cc e)
  show-Grants (some sb) (cp, w) v e =
      let token = (mint b cp sb.id w).0 in
      let same : lean_sandbox.ControlPlane.Server.view sb token ≡ v = cc e in
      subst
        (λ (x : SandboxView). TokenFor b cp.config.token_ttl (b.k.id_string x.id) x.access_token)
        same (mint-TokenFor cp sb.id w)

  answer_create-Grants : (r : Result ℕ) (s : State b.k) → Grants b (answer_create b r s)
  unfolding answer_create
  answer_create-Grants (error e) s v p = absurd (cc p)
  answer_create-Grants (ok a) s v p = show-Grants (get_elem? s.0.heap a) s v p

  create_decoded-Grants :
      (d : SandboxRequest × Option Bytes) (s : State b.k) → Grants b (create_decoded b d s)
  create_decoded-Grants (req, some e) s v p = absurd (cc p)
  create_decoded-Grants (req, none) (cp, w) v p =
      answer_create-Grants (new_sandbox b.k cp req.image w).0 (new_sandbox b.k cp req.image w).1 v p

  with_id-Grants :
      (f : SandboxId → State b.k → Served b.k) (o : Option SandboxId) (s : State b.k)
      → ((i : SandboxId) → Grants b (f i s))
      → Grants b (elim o [
        | none ↦ served b.k (refused 400 (text "invalid sandbox id")) s
        | some i ↦ f i s
      ])
  with_id-Grants f none s h v p = absurd (cc p)
  with_id-Grants f (some i) s h v p = h i v p

  get_found-Grants :
      (id : SandboxId) (o : Option Sandbox) (s : State b.k) → Grants b (get_found b id o s)
  unfolding get_found
  get_found-Grants id none s v p = absurd (cc p)
  get_found-Grants id (some sb) s v p = show-Grants (some sb) s v p

  handle_get-Grants : (id : SandboxId) (s : State b.k) → Grants b (handle_get b id s)
  unfolding handle_get
  handle_get-Grants id (cp, w) v p = get_found-Grants id (get_sandbox cp id) (cp, w) v p

  kept_alive-Grants :
      (r : Option ℕ × ControlPlane) (w later : b.k.World) → Grants b (kept_alive b r w later)
  unfolding kept_alive
  kept_alive-Grants (none, cp) w later v p = absurd (cc p)
  kept_alive-Grants (some a, cp) w later v p = show-Grants (get_elem? cp.heap a) (cp, later) v p

  handle_keep_alive-Grants : (id : SandboxId) (s : State b.k) → Grants b (handle_keep_alive b id s)
  unfolding handle_keep_alive
  handle_keep_alive-Grants id (cp, w) v p =
      kept_alive-Grants (keep_alive cp id (b.k.now w).0) w (b.k.now w).1 v p

  handle_delete-Grants : (id : SandboxId) (s : State b.k) → Grants b (handle_delete b id s)
  unfolding handle_delete
  handle_delete-Grants id s v p = go (delete_sandbox b.k id s).0 p
    where
      go :
          (r : Result (Option lean_sandbox.Config.SandboxSpec))
          → deletion b r ≡ shown v
          → TokenOf b (delete_sandbox b.k id s).1 v
      go (ok o) q = absurd (cc q)
      go (error e) q = absurd (cc q)

  serve-Grants : (t : Route) (r : Request) (s : State b.k) → Grants b (serve b t r s)
  unfolding serve handle_create handle_list
  serve-Grants healthz r s v p = absurd (cc p)
  serve-Grants create r s v p =
      create_decoded-Grants (b.request_coder.unmarshal (limited r.body)) s v p
  serve-Grants list r (cp, w) v p = absurd (cc p)
  serve-Grants (one id) r s v p =
      with_id-Grants (handle_get b) (b.parse_id id) s (λ i. handle_get-Grants i s) v p
  serve-Grants (keepalive id) r s v p =
      with_id-Grants (handle_keep_alive b) (b.parse_id id) s (λ i. handle_keep_alive-Grants i s) v p
  serve-Grants (remove id) r s v p =
      with_id-Grants (handle_delete b) (b.parse_id id) s (λ i. handle_delete-Grants i s) v p
  serve-Grants nothing r s v p = absurd (cc p)

-- Every sandbox that the control plane's API shows, on creation, on a look-up or on a renewal, has a
-- token that was signed for that sandbox, for the time to live of the configuration, or none where
-- none could be signed.
pub handle-TokenOf :
    (b : Backend) (key : Bytes) (r : Request) (s : State b.k) (v : SandboxView)
    → (handle b key r s).answer ≡ shown v
    → TokenOf b (handle b key r s).state v
handle-TokenOf b key r s v =
    subst (Grants b) (sym (handle-admits b key r s (admits key r) refl)) (go (admits key r)) v
  where
    go :
        (c : Bool)
        → Grants b (if c then mux b r s else served b.k (refused 401 (text "unauthorized")) s)
    go true v p = serve-Grants b (route r.method (split_slash r.path)) r s v p
    go false v p = absurd (cc p)
