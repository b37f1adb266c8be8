-- ===== src/ControlPlane/Samples.antt =====
-- Runs of the critical sections, and the theorems about them at concrete systems.
use lean_sandbox.Common.{◌≡◌, refl, inl, true, false, none, some, [], ◌∷◌, get_elem?}
use lean_sandbox.Common.Int.{pos}
use lean_sandbox.Common.Text.{text, str_eq}
use lean_sandbox.Common.Dict.{nat_eq, get, put}
use lean_sandbox.Config.{Config}
use lean_sandbox.ControlPlane.{
  Sandbox, ControlPlane, claim_warm, register, append_warm, drop_tracked, keep_alive,
}
use lean_sandbox.ControlPlane.Heap.{Distinct}
use lean_sandbox.ControlPlane.Invariant.{System, Inv}
use lean_sandbox.ControlPlane.Interleaving.{
  Run, here, next, warms, appends, claims, start, without, Run-exclusive, Step,
}
use lean_sandbox.ControlPlane.Interleaving.Race.{
  after_register, after_drop, after_append, refill_race,
}

abbrev config : Config
config = record {
  sandboxes = [];
  namespace = text "sandbox";
  agent_port = pos 9090;
  agent_image = text "agent";
  lease_ttl = pos 900;
  reconcile_every = pos 30;
  token_ttl = pos 900;
  wait_pod_ready_timeout = pos 180;
  wait_pod_ready_poll_interval = pos 2;
  pod_provision_grace = pos 300;
  host_aliases = [];
}

abbrev warm_sandbox : Sandbox
warm_sandbox = record {
  id = 7;
  image = text "ubuntu";
  pod_name = text "lean-sbx-7";
  namespace = text "sandbox";
  endpoint = text "http://10.0.0.1:9090";
  created_at = pos 10;
  last_seen = pos 10;
  claimed = false;
}

abbrev empty_system : System
empty_system = start config []

abbrev registered : System
registered = record { cp = register empty_system.cp warm_sandbox; pending = 0 ∷ [] }

abbrev pooled : System
pooled = record { cp = append_warm registered.cp (text "ubuntu") 0; pending = [] }

abbrev handed : ControlPlane
handed = record pooled.cp {
  by_image = (text "ubuntu", []) ∷ [];
  heap = record warm_sandbox { claimed = true; last_seen = pos 20 } ∷ [];
}

claim_pooled : claim_warm pooled.cp (text "ubuntu") (pos 20) ≡ some (0, handed)
unfolding claim_warm append_warm register get put str_eq
claim_pooled = refl

history : Run empty_system (record pooled { cp = handed }) (0 ∷ [])
unfolding register without
history =
    next
      (next (next here (warms empty_system warm_sandbox (λ a x e p. cc e) refl))
        (appends registered 0 warm_sandbox (inl refl) refl))
      (claims pooled (text "ubuntu") (pos 20) 0 handed claim_pooled)

Run-exclusive_example : Inv (record pooled { cp = handed }) × Distinct (0 ∷ [])
Run-exclusive_example = Run-exclusive config [] (record pooled { cp = handed }) (0 ∷ []) history

refill_race_example :
    (let t = after_append empty_system warm_sandbox in
      Step empty_system (after_register empty_system warm_sandbox) none
      × Step (after_register empty_system warm_sandbox) (after_drop empty_system warm_sandbox) none
      × Step (after_drop empty_system warm_sandbox) t none
      × ((drop_tracked (after_register empty_system warm_sandbox).cp 7).0 ≡ some warm_sandbox)
      × (get 7 t.cp.by_id ≡ none)
      × ((cp : ControlPlane) × (claim_warm t.cp (text "ubuntu") (pos 20) ≡ some (0, cp))
          × (get_elem? cp.heap 0
              ≡ some (record warm_sandbox { claimed = true; last_seen = pos 20 }))
          × ((keep_alive cp 7 (pos 21)).0 ≡ none)))
refill_race_example = refill_race empty_system warm_sandbox (pos 20) (pos 21) (λ a x e p. cc e) refl
