-- ===== src/ControlPlane/Upkeep.antt =====
-- internal/controlplane/controlplane.go and watch.go: deletion, the warm pool, the janitor loops of
-- `reconcile`, and the handlers of pod events.
pub mod Reaping
pub mod Refine
pub mod Reconcile
pub mod Filling
pub mod Watching
mod Samples
use lean_sandbox.Common.{
  ℕ, zero, suc, ◌-◌, Bool, true, false, not, ◌&&◌, ◌||◌, Option, none, some, List, [], ◌∷◌, ◌++◌,
  length, get_elem?, if◌then◌else◌,
}
use lean_sandbox.Common.Int.{ℤ, pos, leb_ℤ, ltb_ℤ, ◌-ℤ◌, pos_part}
use lean_sandbox.Common.Text.{Bytes, text, str_eq}
use lean_sandbox.Common.Dict.{Dict}
use lean_sandbox.Api.{SandboxId}
use lean_sandbox.Config.{Config, SandboxSpec, sandbox_spec}
use lean_sandbox.Kube.{Pod, pod_ready, Reply, answer, not_found, failure, Cluster}
use lean_sandbox.ControlPlane.{
  Sandbox, ControlPlane, warm_refs, register, append_warm, drop_tracked, tracked,
}
use lean_sandbox.ControlPlane.Pods.{
  Error, Result, ok, error, unknown, State, create_pod, wait_pod_ready, delete_pod_of,
}

-- the end of a round of `refillWarmPool`: `register`, and the append to the list of the image
abbrev pub stock : ControlPlane → SandboxSpec → Sandbox → ControlPlane
stock cp spec ready =
    append_warm (register cp (record ready { claimed = false })) spec.image (length cp.heap)

-- a round of `refillWarmPool` behind `waitPodReady`
unfoldable pub warm_ready :
    (k : Cluster)
    → ControlPlane
    → SandboxSpec
    → Sandbox
    → Result Sandbox
    → k.World
    → Result (Unit {0}) × State k
warm_ready k cp spec sb (error e) w = (error e, (cp, (delete_pod_of k sb w).1))
warm_ready k cp spec sb (ok ready) w = (ok tt, (stock cp spec ready, w))

-- a round of `refillWarmPool` behind `createPod`
unfoldable pub warm_made :
    (k : Cluster)
    → ControlPlane
    → SandboxSpec
    → Result Sandbox
    → k.World
    → Result (Unit {0}) × State k
unfolding warm_ready
warm_made k cp spec (error e) w = (error e, (cp, w))
warm_made k cp spec (ok sb) w =
    let ready = wait_pod_ready k cp sb w in warm_ready k cp spec sb ready.0 ready.1

unfoldable pub warm_one : (k : Cluster) → SandboxSpec → State k → Result (Unit {0}) × State k
unfolding warm_made
warm_one k spec (cp, w) = let made = create_pod k cp spec w in warm_made k cp spec made.0 made.1

-- A round returns its error, or the rest follows.
abbrev pub go_on :
    (k : Cluster)
    → Result (Unit {0}) × State k
    → Result (Unit {0}) × State k
    → Result (Unit {0}) × State k
go_on k (error e, s) rest = (error e, s)
go_on k (ok u, s) rest = rest

-- The loop of `refillWarmPool`, for the rounds that are left.
unfoldable pub refill_loop : (k : Cluster) → SandboxSpec → ℕ → State k → Result (Unit {0}) × State k
unfolding warm_one
refill_loop k spec zero s = (ok tt, s)
refill_loop k spec (suc n) s =
    let round = warm_one k spec s in go_on k round (refill_loop k spec n round.1)

-- `refillWarmPool`
unfoldable pub refill_warm_pool :
    (k : Cluster) → SandboxSpec → ℤ → State k → Result (Unit {0}) × State k
unfolding refill_loop
refill_warm_pool k spec min s =
    let have = length (warm_refs s.0 spec.image) in
    if leb_ℤ min (pos have) then (ok tt, s) else refill_loop k spec (pos_part min - have) s

-- The specification that `DeleteSandbox` refills in the background, if it does.
unfoldable pub refill_after : ControlPlane → Sandbox → Option SandboxSpec
refill_after cp sb = elim (sandbox_spec cp.config sb.image) [
  | none ↦ none
  | some spec ↦ if ltb_ℤ (pos 0) spec.pool_size_warm then some spec else none
]

-- `DeleteSandbox` behind its critical section
unfoldable pub delete_taken :
    (k : Cluster) → SandboxId → Option Sandbox → State k → Result (Option SandboxSpec) × State k
unfolding refill_after
delete_taken k id none s = (error (unknown id), s)
delete_taken k id (some sb) (cp, w) =
    let gone = delete_pod_of k sb w in
    (elim gone.0 [ error e ↦ error e | ok u ↦ ok (refill_after cp sb) ], (cp, gone.1))

-- `DeleteSandbox`, with the refill that it starts in the background
unfoldable pub delete_sandbox :
    (k : Cluster) → SandboxId → State k → Result (Option SandboxSpec) × State k
unfolding delete_taken
delete_sandbox k id (cp, w) =
    let taken = drop_tracked cp id in delete_taken k id taken.0 (taken.1, w)

-- `sb.Claimed && now.Sub(sb.LastSeen) > cp.config.LeaseTTL`
unfoldable pub is_expired : Config → ℤ → Sandbox → Bool
is_expired config now sb = sb.claimed && ltb_ℤ config.lease_ttl (now -ℤ sb.last_seen)

-- the ids of `expired`
unfoldable pub expired_ids : Config → ℤ → List Sandbox → List SandboxId
unfolding is_expired
expired_ids config now [] = []
expired_ids config now (sb ∷ rest) =
    let others = expired_ids config now rest in
    if is_expired config now sb then sb.id ∷ others else others

abbrev pub spawn : Result (Option SandboxSpec) → List SandboxSpec → List SandboxSpec
spawn (ok (some spec)) specs = spec ∷ specs
spawn (ok none) specs = specs
spawn (error e) specs = specs

-- The second loop of `deleteExpired`: the refills that the deletions start.
unfoldable pub delete_each : (k : Cluster) → List SandboxId → State k → List SandboxSpec × State k
unfolding delete_sandbox
delete_each k [] s = ([], s)
delete_each k (id ∷ ids) s =
    let gone = delete_sandbox k id s in
    let rest = delete_each k ids gone.1 in (spawn gone.0 rest.0, rest.1)

-- `deleteExpired`
unfoldable pub delete_expired : (k : Cluster) → State k → List SandboxSpec × State k
unfolding delete_each expired_ids
delete_expired k (cp, w) =
    let t = k.now w in
    delete_each k (expired_ids cp.config t.0 (tracked cp.heap cp.by_id)) (cp, t.1)

-- `tracked[name]` of `reapOrphans`
unfoldable pub is_tracked : Bytes → List Sandbox → Bool
unfolding str_eq
is_tracked name [] = false
is_tracked name (sb ∷ rest) = str_eq sb.pod_name name || is_tracked name rest

-- the rest of a round of `reapOrphans`, for a pod that is or is not tracked, and is or is not young
abbrev pub reap_pod : (k : Cluster) → Config → Pod → Bool → Bool → k.World → k.World
reap_pod k config pod true young w = w
reap_pod k config pod false true w = (k.now w).1
reap_pod k config pod false false w = (k.delete_pod config.namespace pod.name (k.now w).1).1

-- `time.Since(pod.CreationTimestamp.Time) < cp.config.PodProvisionGrace`
abbrev pub is_young : (k : Cluster) → Config → Pod → k.World → Bool
is_young k config pod w = ltb_ℤ ((k.now w).0 -ℤ pod.created_at) config.pod_provision_grace

-- The loop of `reapOrphans`.
unfoldable pub reap_pods : (k : Cluster) → Config → List Sandbox → List Pod → k.World → k.World
unfolding is_tracked
reap_pods k config known [] w = w
reap_pods k config known (pod ∷ pods) w =
    reap_pods k config known pods
      (reap_pod k config pod (is_tracked pod.name known) (is_young k config pod w) w)

-- `reapOrphans` behind the listing of the pods
abbrev pub reap_listed :
    (k : Cluster) → Config → List Sandbox → Reply (List Pod) → k.World → k.World
reap_listed k config known (not_found e) w = w
reap_listed k config known (failure e) w = w
reap_listed k config known (answer pods) w = reap_pods k config known pods w

-- `reapOrphans`
unfoldable pub reap_orphans : (k : Cluster) → ControlPlane → k.World → k.World
unfolding reap_pods
reap_orphans k cp w =
    let reply = k.list_pods cp.config.namespace (text "app=lean-sandbox") w in
    reap_listed k cp.config (tracked cp.heap cp.by_id) reply.0 reply.1

-- the loop of `reconcile`
unfoldable pub refill_all : (k : Cluster) → List SandboxSpec → State k → State k
unfolding refill_warm_pool
refill_all k [] s = s
refill_all k (spec ∷ specs) s = refill_all k specs (refill_warm_pool k spec spec.pool_size_warm s).1

-- `reconcile`
unfoldable pub reconcile : (k : Cluster) → State k → List SandboxSpec × State k
unfolding delete_expired reap_orphans refill_all
reconcile k s =
    let expired = delete_expired k s in
    let reaped = reap_orphans k expired.1.0 expired.1.1 in
    (expired.0, refill_all k s.0.config.sandboxes (expired.1.0, reaped))

-- `sandboxIDByPodName`, where `range` visits the map in the order of its list
unfoldable pub sandbox_id_by_pod_name : List Sandbox → Dict SandboxId ℕ → Bytes → Option SandboxId
unfolding str_eq
sandbox_id_by_pod_name heap [] name = none
sandbox_id_by_pod_name heap ((id, a) ∷ rest) name =
    let later = sandbox_id_by_pod_name heap rest name in
    elim (get_elem? heap a) [
      | none ↦ later
      | some sb ↦ if str_eq sb.pod_name name then some id else later
    ]

-- the end of `onPodEvent`, for the sandbox of the pod, if there is one
abbrev pub drop_unready : (k : Cluster) → Pod → Option SandboxId → State k → State k
drop_unready k pod none s = s
drop_unready k pod (some id) (cp, w) =
    ((drop_tracked cp id).1, (k.delete_pod pod.namespace pod.name w).1)

-- `onPodEvent`
unfoldable pub on_pod_event : (k : Cluster) → Pod → State k → State k
unfolding sandbox_id_by_pod_name
on_pod_event k pod s =
    if pod_ready pod
    then s
    else drop_unready k pod (sandbox_id_by_pod_name s.0.heap s.0.by_id pod.name) s

-- what an informer hands to `onPodDelete`
pub data Deleted : Type 0 where
  pod : Pod → Deleted
  tombstone : Option Pod → Deleted
  other : Deleted

abbrev pub deleted_pod : Deleted → Option Pod
deleted_pod (pod p) = some p
deleted_pod (tombstone p) = p
deleted_pod other = none

-- the end of `onPodDelete`
abbrev pub drop_deleted : Option SandboxId → ControlPlane → ControlPlane
drop_deleted none cp = cp
drop_deleted (some id) cp = (drop_tracked cp id).1

abbrev pub drop_pod : Option Pod → ControlPlane → ControlPlane
drop_pod none cp = cp
drop_pod (some p) cp = drop_deleted (sandbox_id_by_pod_name cp.heap cp.by_id p.name) cp

-- `onPodDelete`
unfoldable pub on_pod_delete : Deleted → ControlPlane → ControlPlane
unfolding sandbox_id_by_pod_name
on_pod_delete obj cp = drop_pod (deleted_pod obj) cp
