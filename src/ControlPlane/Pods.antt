-- ===== src/ControlPlane/Pods.antt =====
-- internal/controlplane/controlplane.go: the operations that call the cluster. Each takes the state
-- of the control plane and the world, and returns both as it leaves them. What other goroutines do
-- between two critical sections is the subject of `Interleaving`.
pub mod Readiness
pub mod Refine
mod Samples
use lean_sandbox.Common.{
  ℕ, zero, suc, ◌-◌, Bool, true, false, ◌&&◌, Option, none, some, List, [], ◌∷◌, ◌++◌, map, length,
  if◌then◌else◌,
}
use lean_sandbox.Common.Int.{ℤ, pos, leb_ℤ, ltb_ℤ, ◌-ℤ◌, pos_part}
use lean_sandbox.Common.Text.{Bytes, text, str_eq, is_empty}
use lean_sandbox.Api.{SandboxId}
use lean_sandbox.Config.{Config, SandboxSpec, sandbox_spec}
use lean_sandbox.Kube.{
  Pod, pod_ready, pod_spec, itoa, Reply, answer, not_found, failure, Ending, context_done,
  timed_out, Cluster,
}
use lean_sandbox.ControlPlane.{
  Sandbox, ControlPlane, warm_refs, claim_warm, register, append_warm, drop_tracked, tracked,
}

-- the errors of the operations, each with what its message is made of
pub data Error : Type 0 where
  not_configured : Bytes → Error
  create_failed : Bytes → Error
  get_failed : Bytes → Error
  delete_failed : Bytes → Bytes → Error
  context_error : Bytes → Error
  not_ready : SandboxId → Error
  unknown : SandboxId → Error

pub data Result (A : Type 0) : Type 0 where
  ok : A → Result A
  error : Error → Result A

-- the end of `createPod`
abbrev pub created :
    (k : Cluster) → SandboxSpec → SandboxId → Reply Pod → k.World → Result Sandbox × k.World
created k spec id (not_found e) w = (error (create_failed e), w)
created k spec id (failure e) w = (error (create_failed e), w)
created k spec id (answer pod) w =
    let t = k.now w in
    let u = k.now t.1 in
    (
      ok (record {
        id = id;
        image = spec.image;
        pod_name = pod.name;
        namespace = pod.namespace;
        endpoint = [];
        created_at = t.0;
        last_seen = u.0;
        claimed = false;
      }),
      u.1,
    )

-- `createPod`
unfoldable pub create_pod :
    (k : Cluster) → ControlPlane → SandboxSpec → k.World → Result Sandbox × k.World
create_pod k cp spec w =
    let id = k.new_id w in
    let reply = k.create (pod_spec cp.config spec (k.id_string id.0) cp.pub_key_b64) id.1 in
    created k spec id.0 reply.0 reply.1

abbrev pub ending_error : Sandbox → Ending → Error
ending_error sb (context_done e) = context_error e
ending_error sb timed_out = not_ready sb.id

abbrev pub endpoint_of : ControlPlane → Pod → Bytes
endpoint_of cp pod = text "http://" ++ (pod.pod_ip ++ (b':' ∷ itoa cp.config.agent_port))

-- One tick of `waitPodReady`: an error, the sandbox with its endpoint, or nothing yet.
unfoldable pub tick : ControlPlane → Sandbox → Reply Pod → Option (Result Sandbox)
tick cp sb (not_found e) = some (error (get_failed e))
tick cp sb (failure e) = some (error (get_failed e))
tick cp sb (answer pod) =
    if pod_ready pod
    then (if is_empty pod.pod_ip
        then none
        else some (ok (record sb { endpoint = endpoint_of cp pod })))
    else none

-- A tick returns, or `continue` leads to the rest.
abbrev pub settle :
    (k : Cluster)
    → Option (Result Sandbox)
    → k.World
    → Result Sandbox × k.World
    → Result Sandbox × k.World
settle k none w rest = rest
settle k (some r) w rest = (r, w)

-- The loop of `waitPodReady`, for as many ticks as come before the wait ends.
unfoldable pub wait_ticks :
    (k : Cluster) → ControlPlane → Sandbox → ℕ → Ending → k.World → Result Sandbox × k.World
unfolding tick
wait_ticks k cp sb zero ending w = (error (ending_error sb ending), w)
wait_ticks k cp sb (suc n) ending w =
    let reply = k.get_pod sb.namespace sb.pod_name w in
    settle k (tick cp sb reply.0) reply.1 (wait_ticks k cp sb n ending reply.1)

-- `waitPodReady`
unfoldable pub wait_pod_ready :
    (k : Cluster) → ControlPlane → Sandbox → k.World → Result Sandbox × k.World
unfolding wait_ticks
wait_pod_ready k cp sb w = let ticks = k.wait w in wait_ticks k cp sb ticks.0.0 ticks.0.1 ticks.1

abbrev pub deleted : Bytes → Reply (Unit {0}) → Result (Unit {0})
deleted name (answer u) = ok tt
deleted name (not_found e) = ok tt
deleted name (failure e) = error (delete_failed name e)

-- `deleteSandbox`
unfoldable pub delete_pod_of : (k : Cluster) → Sandbox → k.World → Result (Unit {0}) × k.World
delete_pod_of k sb w =
    let reply = k.delete_pod sb.namespace sb.pod_name w in (deleted sb.pod_name reply.0, reply.1)

-- A control plane and a world.
abbrev pub State : Cluster → Type 0
State k = ControlPlane × k.World

-- `NewSandbox` behind `waitPodReady`
unfoldable pub claim_cold :
    (k : Cluster) → ControlPlane → Sandbox → Result Sandbox → k.World → Result ℕ × State k
unfolding delete_pod_of
claim_cold k cp sb (error e) w = (error e, (cp, (delete_pod_of k sb w).1))
claim_cold k cp sb (ok ready) w =
    let t = k.now w in
    (ok (length cp.heap), (register cp (record ready { claimed = true; last_seen = t.0 }), t.1))

-- `NewSandbox` behind `createPod`
unfoldable pub await_cold :
    (k : Cluster) → ControlPlane → Result Sandbox → k.World → Result ℕ × State k
unfolding wait_pod_ready claim_cold
await_cold k cp (error e) w = (error e, (cp, w))
await_cold k cp (ok sb) w =
    let ready = wait_pod_ready k cp sb w in claim_cold k cp sb ready.0 ready.1

abbrev pub cold_start : (k : Cluster) → ControlPlane → SandboxSpec → k.World → Result ℕ × State k
cold_start k cp spec w = let made = create_pod k cp spec w in await_cold k cp made.0 made.1

-- The warm sandbox that was claimed, or else a cold start.
abbrev pub warm_or :
    (k : Cluster) → Option (ℕ × ControlPlane) → k.World → Result ℕ × State k → Result ℕ × State k
warm_or k (some (a, after)) w cold = (ok a, (after, w))
warm_or k none w cold = cold

-- `NewSandbox` for a specification
unfoldable pub new_for : (k : Cluster) → ControlPlane → SandboxSpec → k.World → Result ℕ × State k
unfolding create_pod await_cold
new_for k cp spec w =
    let t = k.now w in warm_or k (claim_warm cp spec.image t.0) t.1 (cold_start k cp spec w)

-- `NewSandbox` behind the look-up of the specification
unfoldable pub new_with :
    (k : Cluster) → ControlPlane → Bytes → Option SandboxSpec → k.World → Result ℕ × State k
unfolding new_for
new_with k cp image none w = (error (not_configured image), (cp, w))
new_with k cp image (some spec) w = new_for k cp spec w

-- `NewSandbox`: the address of the sandbox
unfoldable pub new_sandbox : (k : Cluster) → ControlPlane → Bytes → k.World → Result ℕ × State k
unfolding new_with
new_sandbox k cp image w = new_with k cp image (sandbox_spec cp.config image) w
