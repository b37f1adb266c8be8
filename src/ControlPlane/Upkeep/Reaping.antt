-- ===== src/ControlPlane/Upkeep/Reaping.antt =====
-- Which pods `reapOrphans` deletes.
use lean_sandbox.Common.{All, arith, ◌≢◌, ◌≡◌, refl, Bool, true, false, List, [], ◌∷◌}
use lean_sandbox.Common.Text.{Bytes, text}
use lean_sandbox.Common.Int.{ℤ, ◌≤ℤ◌, ◌-ℤ◌, ltb_ℤ}
use lean_sandbox.Common.Text.Laws.{str_eq_iff}
use lean_sandbox.Config.{Config}
use lean_sandbox.Kube.{Pod, Reply, answer, not_found, failure, Cluster}
use lean_sandbox.ControlPlane.{Sandbox, ControlPlane, tracked}
use lean_sandbox.ControlPlane.Upkeep.{
  is_tracked, is_young, reap_pod, reap_pods, reap_listed, reap_orphans,
}

-- The pod has the name of no sandbox in the map, and by the clock, as it is read in this world, it is
-- at least as old as the grace.
pub record Orphan (k : Cluster) (config : Config) (known : List Sandbox) (pod : Pod) (w : k.World)
    : Type 0 where
  pub untracked : All (λ (sb : Sandbox). sb.pod_name ≢ pod.name) known
  pub old : config.pod_provision_grace ≤ℤ ((k.now w).0 -ℤ pod.created_at)

-- What the deletion of an orphan, right behind the reading of the clock, keeps, and the reading of
-- the clock, and a listing.
pub record Keeps (k : Cluster) (config : Config) (known : List Sandbox) (P : k.World → Type 0)
    : Type 0 where
  pub keeps_now : (w : k.World) → P w → P (k.now w).1
  pub keeps_list :
      (selector : Bytes) (w : k.World) → P w → P (k.list_pods config.namespace selector w).1
  pub keeps_delete :
      (pod : Pod) (w : k.World)
      → Orphan k config known pod w
      → P (k.now w).1
      → P (k.delete_pod config.namespace pod.name (k.now w).1).1

is_tracked-All :
    (name : Bytes) (known : List Sandbox)
    → is_tracked name known ≡ false
    → All (λ (sb : Sandbox). sb.pod_name ≢ name) known
unfolding is_tracked
is_tracked-All name [] e = tt
is_tracked-All name (sb ∷ known) e = (
  (λ p. absurd (ground (arith, str_eq_iff sb.pod_name name))),
  is_tracked-All name known (ground arith),
)

ltb_ℤ→≤ℤ : (a b : ℤ) → ltb_ℤ a b ≡ false → b ≤ℤ a
ltb_ℤ→≤ℤ a b h = ground arith

module _ (k : Cluster) (config : Config) (known : List Sandbox) (P : k.World → Type 0)
    (keeps : Keeps k config known P) where
  reap_pod_keeps :
      (pod : Pod) (tracked young : Bool) (w : k.World)
      → is_tracked pod.name known ≡ tracked
      → is_young k config pod w ≡ young
      → P w
      → P (reap_pod k config pod tracked young w)
  reap_pod_keeps pod true young w t y p = p
  reap_pod_keeps pod false true w t y p = keeps.keeps_now w p
  reap_pod_keeps pod false false w t y p =
      keeps.keeps_delete pod w
        (record {
          untracked = is_tracked-All pod.name known t;
          old = ltb_ℤ→≤ℤ ((k.now w).0 -ℤ pod.created_at) config.pod_provision_grace y;
        })
        (keeps.keeps_now w p)

  reap_pods_keeps : (pods : List Pod) (w : k.World) → P w → P (reap_pods k config known pods w)
  unfolding reap_pods
  reap_pods_keeps [] w p = p
  reap_pods_keeps (pod ∷ pods) w p = reap_pods_keeps pods _ (reap_pod_keeps pod _ _ w refl refl p)

  reap_listed_keeps :
      (reply : Reply (List Pod)) (w : k.World) → P w → P (reap_listed k config known reply w)
  reap_listed_keeps (not_found e) w p = p
  reap_listed_keeps (failure e) w p = p
  reap_listed_keeps (answer pods) w p = reap_pods_keeps pods w p

-- `reapOrphans` deletes no pod but those that have the name of no sandbox in the map and are, by the
-- clock right before the deletion, at least as old as the grace: what holds of the world before it,
-- and is kept by the deletion of such a pod, by the clock and by a listing, holds after it.
pub reap_orphans_keeps :
    (k : Cluster) (cp : ControlPlane) (w : k.World) (P : k.World → Type 0)
    → Keeps k cp.config (tracked cp.heap cp.by_id) P
    → P w
    → P (reap_orphans k cp w)
unfolding reap_orphans
reap_orphans_keeps k cp w P keeps p =
    let reply = k.list_pods cp.config.namespace (text "app=lean-sandbox") w in
    reap_listed_keeps k cp.config (tracked cp.heap cp.by_id) P keeps reply.0 reply.1
      (keeps.keeps_list (text "app=lean-sandbox") w p)
