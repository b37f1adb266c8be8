-- ===== src/ControlPlane/Server/Guarded.antt =====
-- What a request that does not carry the API key can do.
use lean_sandbox.Common.{
  ◌≡◌, refl, sym, ap, ◌≢◌, Bool, true, false, ◌⊎◌, inl, inr, [], ◌∷◌, arith, if◌then◌else◌,
  Bool-cases,
}
use mathlib.Core.Path.{subst}
use lean_sandbox.Common.Text.{Bytes, text, str_eq}
use lean_sandbox.Common.Text.Laws.{str_eq_iff}
use lean_sandbox.Common.Paths.{split_slash}
use lean_sandbox.Http.{Request, header_value, api_key_header, is_get}
use lean_sandbox.ControlPlane.Pods.{State}
use lean_sandbox.ControlPlane.Server.{
  Backend, Answer, refused, healthy, unrouted, Served, served, healthz, nothing, route, serve, mux,
  admits, handle,
}

-- An answer that says nothing of the sandboxes.
pub data IsBlank : Answer → Type 0 where
  says_healthy : IsBlank healthy
  says_unrouted : IsBlank unrouted
  says_unauthorized : IsBlank (refused 401 (text "unauthorized"))

-- The request has changed nothing, has started nothing, and has learned nothing.
pub record Ignored (b : Backend) (s : State b.k) (sv : Served b.k) : Type 0 where
  pub answer_IsBlank : IsBlank sv.answer
  pub spawns_nothing : sv.spawned ≡ []
  pub keeps_state : sv.state ≡ s

route_healthz :
    (m : Bytes)
    → (route m (split_slash (text "/healthz")) ≡ healthz)
      ⊎ (route m (split_slash (text "/healthz")) ≡ nothing)
unfolding route split_slash str_eq
route_healthz m = elim (Bool-cases (is_get m)) [
  | inl h ↦ inl (ground arith)
  | inr h ↦ inr (ground arith)
]

healthz_Ignored :
    (b : Backend) (r : Request) (s : State b.k) → r.path ≡ text "/healthz" → Ignored b s (mux b r s)
healthz_Ignored b r s p =
    subst (λ path. Ignored b s (serve b (route r.method (split_slash path)) r s)) (sym p)
      (elim (route_healthz r.method) [
        | inl e ↦
            subst (λ t. Ignored b s (serve b t r s)) (sym e)
              (unfold serve in
                record { answer_IsBlank = says_healthy; spawns_nothing = refl; keeps_state = refl })
        | inr e ↦
            subst (λ t. Ignored b s (serve b t r s)) (sym e)
              (unfold serve in
                record {
                  answer_IsBlank = says_unrouted;
                  spawns_nothing = refl;
                  keeps_state = refl;
                })
      ])

admits_lem :
    (key : Bytes) (r : Request)
    → key ≢ []
    → header_value api_key_header r ≢ key
    → admits key r ≡ str_eq r.path (text "/healthz")
unfolding admits
admits_lem [] r n h = absurd (n refl)
admits_lem (c ∷ key) r n h = ground (arith, str_eq_iff (header_value api_key_header r) (c ∷ key))

pub handle-admits :
    (b : Backend) (key : Bytes) (r : Request) (s : State b.k) (c : Bool)
    → admits key r ≡ c
    → handle b key r s ≡ (if c then mux b r s else served b.k (refused 401 (text "unauthorized")) s)
unfolding handle
handle-admits b key r s c e =
    ap (λ t. if t then mux b r s else served b.k (refused 401 (text "unauthorized")) s) e

-- Where the control plane has an API key, a request that does not carry it changes nothing, starts
-- nothing, and is told nothing of the sandboxes, whatever its method, path and body.
pub handle_without_key :
    (b : Backend) (key : Bytes) (r : Request) (s : State b.k)
    → key ≢ []
    → header_value api_key_header r ≢ key
    → Ignored b s (handle b key r s)
handle_without_key b key r s n h =
    let test = str_eq r.path (text "/healthz") in
    subst (Ignored b s) (sym (handle-admits b key r s test (admits_lem key r n h)))
      (go (Bool-cases test))
  where
    go :
        ((str_eq r.path (text "/healthz") ≡ true) ⊎ (str_eq r.path (text "/healthz") ≡ false))
        → Ignored b s (
            if str_eq r.path (text "/healthz")
            then mux b r s
            else served b.k (refused 401 (text "unauthorized")) s)
    go (inl e) =
        subst
          (λ t.
            Ignored b s (if t then mux b r s else served b.k (refused 401 (text "unauthorized")) s))
          (sym e) (healthz_Ignored b r s ((str_eq_iff r.path (text "/healthz")).0 e))
    go (inr e) =
        subst
          (λ t.
            Ignored b s (if t then mux b r s else served b.k (refused 401 (text "unauthorized")) s))
          (sym e)
          (record { answer_IsBlank = says_unauthorized; spawns_nothing = refl; keeps_state = refl })
