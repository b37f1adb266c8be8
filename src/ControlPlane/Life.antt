-- ===== src/ControlPlane/Life.antt =====
-- internal/controlplane/controlplane.go, `Run`, and watch.go, `watchPods`: what happens to a control
-- plane that runs, one thing behind the other.
pub mod Given
pub mod Served
pub mod Told
pub mod Lived
use lean_sandbox.Common.{List, [], ◌∷◌, ◌++◌}
use lean_sandbox.Common.Paths.{split_slash}
use lean_sandbox.Api.{SandboxId}
use lean_sandbox.Common.Text.{Bytes}
use lean_sandbox.Config.{SandboxSpec}
use lean_sandbox.Kube.{Pod}
use lean_sandbox.Http.{Request}
use lean_sandbox.ControlPlane.Pods.{State}
use lean_sandbox.ControlPlane.Upkeep.{
  Deleted, on_pod_event, on_pod_delete, refill_warm_pool, reconcile,
}
use lean_sandbox.ControlPlane.Server.{
  Answer, shown, refused, listed, emptied, healthy, panicked, unrouted, Backend, Route, healthz,
  create, list, nothing, one, keepalive, remove, route, handle,
}

pub data Happening : Type 0 where
  -- `case <-ticker.C`
  ticks : Happening
  -- `AddFunc` and `UpdateFunc` of the informer, and its `DeleteFunc`
  changes : Pod → Happening
  goes : Deleted → Happening
  -- a request to the API
  asks : Request → Happening
  -- the refill in the background that a deletion has started
  refills : SandboxSpec → Happening

-- the end of `on_pod_delete`, with the world as it was
abbrev pub gone : (b : Backend) → Deleted → State b.k → State b.k
gone b obj (cp, w) = (on_pod_delete obj cp, w)

-- The identifiers of the sandboxes that an answer shows.
abbrev pub shown_ids : Answer → List SandboxId
shown_ids (shown v) = v.id ∷ []
shown_ids (refused code e) = []
shown_ids (listed vs) = []
shown_ids emptied = []
shown_ids healthy = []
shown_ids panicked = []
shown_ids unrouted = []

-- The identifiers that a client is shown who asked for a new sandbox.
abbrev pub new_ids : Route → Answer → List SandboxId
new_ids create a = shown_ids a
new_ids healthz a = []
new_ids list a = []
new_ids nothing a = []
new_ids (one id) a = []
new_ids (keepalive id) a = []
new_ids (remove id) a = []

abbrev pub told_ids : Request → Answer → List SandboxId
told_ids r a = new_ids (route r.method (split_slash r.path)) a

-- What happens, with the identifiers that it tells to a client who asked for a new sandbox.
unfoldable pub happen : (b : Backend) → Bytes → Happening → State b.k → List SandboxId × State b.k
unfolding reconcile refill_warm_pool on_pod_event on_pod_delete handle
happen b key ticks t = ([], (reconcile b.k t).1)
happen b key (changes pod) t = ([], on_pod_event b.k pod t)
happen b key (goes obj) t = ([], gone b obj t)
happen b key (asks r) t = let sv = handle b key r t in (told_ids r sv.answer, sv.state)
happen b key (refills spec) t = ([], (refill_warm_pool b.k spec spec.pool_size_warm t).1)

-- The first of the list happens first; of the identifiers that were told, the latest comes first.
unfoldable pub live :
    (b : Backend) → Bytes → List Happening → List SandboxId → State b.k → List SandboxId × State b.k
unfolding happen
live b key [] told t = (told, t)
live b key (h ∷ hs) told t = let made = happen b key h t in live b key hs (made.0 ++ told) made.1
