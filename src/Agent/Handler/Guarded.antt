-- ===== src/Agent/Handler/Guarded.antt =====
-- Which requests the agent serves: those with a token of its own sandbox.
use lean_sandbox.Common.{
  ◌≡◌, ◌≢◌, refl, ap, Bool, true, false, ◌&&◌, ◌⊎◌, inl, inr, Option, none, some, [], ◌∷◌,
  if◌then◌else◌,
}
use lean_sandbox.Common.Int.{ℤ, ◌+ℤ◌, ◌≤ℤ◌, ◌<ℤ◌}
use lean_sandbox.Common.Text.{Bytes, text, str_eq}
use lean_sandbox.Common.Paths.{split_slash}
use lean_sandbox.Http.{Request, header_value, access_token_header, is_get}
use lean_sandbox.Jwt.{Refusal, unix, five_minutes}
use lean_sandbox.Jwt.RoundTrip.{Lawful, verify-sign, verify-sign_sub}
use lean_sandbox.ControlPlane.Server.{Backend}
use lean_sandbox.ControlPlane.Server.Tokens.{SignedFor}
use lean_sandbox.Agent.Server.{wrote_error, wrote_content}
use lean_sandbox.Agent.Handler.{
  Machine, State, Served, healthz, route, serve, check_token, authed, handle,
}

-- The request has changed nothing and has run nothing: it was a probe of the agent's health, or it
-- was refused.
pub record Denied (m : Machine) (s : State m) (sv : Served m) : Type 0 where
  pub keeps_state : sv.state ≡ s
  pub answers :
      (sv.answers ≡ wrote_content (text "ok") ∷ [])
      ⊎ (sv.answers ≡ wrote_error 401 (text "unauthorized") ∷ [])

module _ (m : Machine) (r : Request) (s : State m) where
  authed-Denied : (o : Option Refusal) → o ≢ none → Denied m s (authed m o r s)
  authed-Denied none n = absurd (n refl)
  authed-Denied (some e) n = record { keeps_state = refl; answers = inr refl }

  choose-Denied :
      (b : Bool) (sv : Served m)
      → Denied m s sv
      → Denied m s (if b then serve m healthz r s else sv)
  unfolding serve
  choose-Denied true sv d = record { keeps_state = refl; answers = inl refl }
  choose-Denied false sv d = d

  -- An agent with a key refuses a request whose token `Verify` does not accept, whatever it asks
  -- for: it runs nothing, and its session and its files stay as they are.
  pub handle-Denied : check_token m r s.1 ≢ none → Denied m s (handle m r s)
  unfolding handle
  handle-Denied n =
      choose-Denied (str_eq r.path (text "/healthz") && is_get r.method) _
        (authed-Denied (check_token m r s.1) n)

-- The agent in the pod of a sandbox: it has the id of the sandbox and the control plane's key.
abbrev pub agent_of : Backend → Bytes → Machine → Machine
agent_of b id m = record m { c = b.c; id = id; pub_key = some (b.c.public_key b.key) }

-- Where the packages keep their promises, the agent of a sandbox serves a request with a token that
-- the control plane's key has signed for that sandbox, while the token lives, by a clock that is at
-- most five minutes behind the signer's.
pub handle_own_token :
    (b : Backend) (m : Machine) (ttl : ℤ) (id : Bytes) (r : Request) (s : State (agent_of b id m))
    (o : SignedFor b ttl id (header_value access_token_header r))
    → Lawful b.c
    → unix (m.now s.1) <ℤ unix (o.signed_at +ℤ ttl)
    → unix o.signed_at ≤ℤ unix (m.now s.1 +ℤ five_minutes)
    → (let a = agent_of b id m in
        handle a r s ≡ (
          if str_eq r.path (text "/healthz") && is_get r.method
          then serve a healthz r s
          else serve a (route r.method (split_slash r.path)) r s))
unfolding handle check_token
handle_own_token b m ttl id r s o law live behind =
    let a = agent_of b id m in
    ap
      (λ t.
        if str_eq r.path (text "/healthz") && is_get r.method
        then serve a healthz r s
        else authed a t r s)
      (verify-sign b.c b.key id (header_value access_token_header r) ttl o.signed_at (m.now s.1) law
        o.signed live behind)

-- Where the packages keep their promises, the agent of another sandbox than the one that a token is
-- signed for refuses a request with the token, or answers a probe of its health; it runs nothing,
-- and its session and its files stay as they are.
pub handle_other_token :
    (b : Backend) (m : Machine) (ttl : ℤ) (own id : Bytes) (r : Request)
    (s : State (agent_of b own m))
    → SignedFor b ttl id (header_value access_token_header r)
    → Lawful b.c
    → own ≢ id
    → Denied (agent_of b own m) s (handle (agent_of b own m) r s)
unfolding check_token
handle_other_token b m ttl own id r s o law n = handle-Denied (agent_of b own m) r s (λ e.
    n
      (verify-sign_sub b.c b.key (b.c.public_key b.key) id (header_value access_token_header r) own
        ttl o.signed_at (m.now s.1) law o.signed e).0)
