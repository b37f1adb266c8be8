-- ===== src/ControlPlane/Life/Lived.antt =====
-- Whatever happens to a control plane is a run of the critical sections.
use lean_sandbox.Common.{ℕ, ◌≡◌, true, List, []}
use lean_sandbox.Common.Text.{Bytes}
use lean_sandbox.Api.{SandboxId}
use lean_sandbox.Config.{Config}
use lean_sandbox.Kube.{Cluster}
use lean_sandbox.ControlPlane.{Sandbox, ControlPlane}
use lean_sandbox.ControlPlane.Heap.{Has, Distinct}
use lean_sandbox.ControlPlane.Invariant.{System, Inv}
use lean_sandbox.ControlPlane.Interleaving.{Stands, Run}
use lean_sandbox.ControlPlane.Pods.{State}
use lean_sandbox.ControlPlane.Upkeep.Refine.{Ids, AllGiven}
use lean_sandbox.ControlPlane.Server.{Backend}

-- Nothing is pending between the operations.
abbrev at_rest : ControlPlane → System
at_rest cp = record { cp = cp; pending = [] }

-- A claimed sandbox with this identifier stands at the address.
abbrev pub ClaimedAs : List Sandbox → SandboxId → ℕ → Type 0
ClaimedAs heap i = Stands (λ sb. (sb.claimed ≡ true) × (sb.id ≡ i)) heap

-- The control plane got here from `s` by critical sections, which handed out what they handed out;
-- and clients were told these identifiers.
pub record Lived (k : Cluster) (d : Ids k) (s : System) (told : List SandboxId) (cp : ControlPlane)
    (w : k.World) : Type 0 where
  pub handed : List ℕ
  pub run : Run s (record { cp = cp; pending = [] }) handed
  pub inv : Inv (record { cp = cp; pending = [] })
  pub given : AllGiven k d cp.heap w
  pub once : Distinct told
  pub in_use : (i : SandboxId) → Has i told → (a : ℕ) × ClaimedAs cp.heap i a

module _ (b : Backend) (d : Ids b.k) (key : Bytes) (s : System) where
  abbrev Lives : List SandboxId → State b.k → Type 0
  Lives told (cp, w) = Lived b.k d s told cp w
