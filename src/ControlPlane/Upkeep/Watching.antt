-- ===== src/ControlPlane/Upkeep/Watching.antt =====
-- The handlers of pod events as runs of the critical sections.
use lean_sandbox.Common.{Bool, true, false, Option, none, some, if◌then◌else◌}
use lean_sandbox.Api.{SandboxId}
use lean_sandbox.Kube.{Pod, pod_ready, Cluster}
use lean_sandbox.ControlPlane.{ControlPlane, drop_tracked}
use lean_sandbox.ControlPlane.Invariant.{System, Inv}
use lean_sandbox.ControlPlane.Interleaving.{here}
use lean_sandbox.ControlPlane.Pods.{State}
use lean_sandbox.ControlPlane.Upkeep.{
  sandbox_id_by_pod_name, drop_unready, on_pod_event, Deleted, deleted_pod, drop_deleted, drop_pod,
  on_pod_delete,
}
use lean_sandbox.ControlPlane.Upkeep.Refine.{Ids, AllGiven, Reached, Reached-later}
use lean_sandbox.ControlPlane.Upkeep.Reconcile.{Reach, drop_tracked-Reach}

module _ (k : Cluster) (d : Ids k) (s : System) where
  drop_unready-Reach :
      (pod : Pod) (o : Option SandboxId) (t : State k)
      → Reach k d s s.pending t
      → Reach k d s s.pending (drop_unready k pod o t)
  drop_unready-Reach pod none t r = r
  drop_unready-Reach pod (some id) (cp, w) r =
      Reached-later k d s s.pending (drop_tracked cp id).1 w _
        (λ i g. d.by_delete pod.namespace pod.name i w g)
        (drop_tracked-Reach k d s s.pending id cp w r)

  if_ready-Reach :
      (b : Bool) (t u : State k)
      → Reach k d s s.pending t
      → Reach k d s s.pending u
      → Reach k d s s.pending (if b then t else u)
  if_ready-Reach true t u r h = r
  if_ready-Reach false t u r h = h

  drop_deleted-Reach :
      (o : Option SandboxId) (cp : ControlPlane) (w : k.World)
      → Reach k d s s.pending (cp, w)
      → Reach k d s s.pending (drop_deleted o cp, w)
  drop_deleted-Reach none cp w r = r
  drop_deleted-Reach (some id) cp w r = drop_tracked-Reach k d s s.pending id cp w r

  drop_pod-Reach :
      (o : Option Pod) (cp : ControlPlane) (w : k.World)
      → Reach k d s s.pending (cp, w)
      → Reach k d s s.pending (drop_pod o cp, w)
  drop_pod-Reach none cp w r = r
  drop_pod-Reach (some pod) cp w r =
      drop_deleted-Reach (sandbox_id_by_pod_name cp.heap cp.by_id pod.name) cp w r

-- The deletion alone.
pub on_pod_delete-Reached :
    (k : Cluster) (d : Ids k) (s : System) (obj : Deleted) (w : k.World)
    → Inv s
    → AllGiven k d s.heap w
    → Reached k d s s.pending (on_pod_delete obj s.cp) w
unfolding on_pod_delete
on_pod_delete-Reached k d s obj w v g =
    drop_pod-Reach k d s (deleted_pod obj) s.cp w (record { run = here; inv = v; given = g })

-- Where the maps and the heap agree, and the cluster gave out the identifier of every sandbox and
-- never gives one out twice, the handlers of a pod's event and of its deletion are runs of the
-- critical sections that hand no sandbox to a client and keep that so, whatever the pod is.
pub on_pod_event-Reached :
    (k : Cluster) (d : Ids k) (s : System) (pod : Pod) (obj : Deleted) (w : k.World)
    → Inv s
    → AllGiven k d s.heap w
    → (let after = on_pod_event k pod (s.cp, w) in Reached k d s s.pending after.0 after.1)
      × Reached k d s s.pending (on_pod_delete obj s.cp) w
unfolding on_pod_event
on_pod_event-Reached k d s pod obj w v g =
    let start : Reached k d s s.pending s.cp w = record { run = here; inv = v; given = g } in
    let id = sandbox_id_by_pod_name s.cp.heap s.cp.by_id pod.name in
    (
      if_ready-Reach k d s (pod_ready pod) (s.cp, w) (drop_unready k pod id (s.cp, w)) start
          (drop_unready-Reach k d s pod id (s.cp, w) start),
      on_pod_delete-Reached k d s obj w v g,
    )
