-- ===== src/ControlPlane.antt =====
-- internal/controlplane/controlplane.go: the records of the control plane, and its critical
-- sections, the stretches of code that run under `cp.mu`.
-- Go shares `*Sandbox` between the two maps and with callers, so the objects stand in a heap: an
-- address is a position in `heap`, and an object is never freed.
pub mod Heap
pub mod Invariant
pub mod Interleaving
pub mod Pods
pub mod Upkeep
pub mod Town
pub mod Server
pub mod Life
mod Samples
use lean_sandbox.Common.{
  ℕ, zero, suc, Bool, true, false, Option, none, some, List, [], ◌∷◌, ◌++◌, map, length, get_elem?,
  ◌==◌, if◌then◌else◌,
}
use lean_sandbox.Common.Int.{ℤ, ltb_ℤ}
use lean_sandbox.Common.Text.{Bytes}
use lean_sandbox.Common.Dict.{Dict, nat_eq, bytes_eq, get, put, delete}
use lean_sandbox.Api.{SandboxId}
use lean_sandbox.Config.{Config}
use mathlib.Core.Option

pub record Sandbox : Type 0 where
  pub id : SandboxId
  pub image : Bytes
  pub pod_name : Bytes
  pub namespace : Bytes
  pub endpoint : Bytes
  pub created_at : ℤ
  pub last_seen : ℤ
  pub claimed : Bool

-- `kube` and `mu` have no field: the cluster is an argument of the operations that call it, and
-- the mutex is what makes a section one step. The signing key is an argument where tokens are made.
pub record ControlPlane : Type 0 where
  pub config : Config
  pub heap : List Sandbox
  pub by_id : Dict SandboxId ℕ
  pub by_image : Dict Bytes (List ℕ)
  pub pub_key_b64 : Bytes

-- the maps that `New` makes
abbrev pub initial : Config → Bytes → ControlPlane
initial config key = record {
  config = config;
  heap = [];
  by_id = [];
  by_image = [];
  pub_key_b64 = key;
}

-- A write through a pointer.
unfoldable pub modify : List Sandbox → ℕ → (Sandbox → Sandbox) → List Sandbox
modify [] i f = []
modify (x ∷ xs) zero f = f x ∷ xs
modify (x ∷ xs) (suc i) f = x ∷ modify xs i f

-- `cp.byImage[image]`, which is nil for a missing key
abbrev pub or_nil : Option (List ℕ) → List ℕ
or_nil none = []
or_nil (some l) = l

abbrev pub warm_refs : ControlPlane → Bytes → List ℕ
warm_refs cp image = or_nil (get image cp.by_image)

-- `warm[:len(warm)-1]` and `warm[len(warm)-1]`
unfoldable pub split_last : List ℕ → Option (List ℕ × ℕ)
split_last [] = none
split_last (a ∷ rest) = elim (split_last rest) [
  | none ↦ some ([], a)
  | some (front, last) ↦ some (a ∷ front, last)
]

abbrev pub claim_at : ℤ → Sandbox → Sandbox
claim_at now sb = record sb { claimed = true; last_seen = now }

-- The first section of `NewSandbox`: the last warm sandbox of the image, if there is one.
unfoldable pub claim_warm : ControlPlane → Bytes → ℤ → Option (ℕ × ControlPlane)
unfolding modify split_last
claim_warm cp image now = elim (split_last (warm_refs cp image)) [
  | none ↦ none
  | some (rest, a) ↦ some (
    a,
    record cp { by_image = put image rest cp.by_image; heap = modify cp.heap a (claim_at now) },
  )
]

-- `func (cp *ControlPlane) register(sb *Sandbox)`. The object becomes visible to others here; its
-- address is the first one that is free.
unfoldable pub register : ControlPlane → Sandbox → ControlPlane
register cp sb = record cp {
  heap = cp.heap ++ sb ∷ [];
  by_id = put sb.id (length cp.heap) cp.by_id;
}

-- The last section of `refillWarmPool`: `cp.byImage[spec.Image] = append(…, sb)`.
unfoldable pub append_warm : ControlPlane → Bytes → ℕ → ControlPlane
append_warm cp image a = record cp {
  by_image = put image (warm_refs cp image ++ a ∷ []) cp.by_image;
}

abbrev pub has_id : List Sandbox → SandboxId → ℕ → Bool
has_id heap id a = elim (get_elem? heap a) [ none ↦ false | some sb ↦ sb.id == id ]

-- The loop of `removeWarmRef`: the list without the first sandbox of this id, if there is one.
unfoldable pub remove_ref : List Sandbox → SandboxId → List ℕ → Option (List ℕ)
remove_ref heap id [] = none
remove_ref heap id (a ∷ rest) =
    if has_id heap id a then some rest else Option.map (◌∷◌ a) (remove_ref heap id rest)

-- `func (cp *ControlPlane) removeWarmRef(sb *Sandbox)`, on the object that `sb` points to
unfoldable pub remove_warm_ref : ControlPlane → Sandbox → ControlPlane
unfolding remove_ref
remove_warm_ref cp sb =
    if sb.claimed then cp else elim (remove_ref cp.heap sb.id (warm_refs cp sb.image)) [
      | none ↦ cp
      | some rest ↦ record cp { by_image = put sb.image rest cp.by_image }
    ]

-- `sb, ok := cp.byID[id]`, with the object
abbrev pub deref : ControlPlane → Option ℕ → Option (ℕ × Sandbox)
deref cp none = none
deref cp (some a) = Option.map (λ sb. (a, sb)) (get_elem? cp.heap a)

unfoldable pub find : ControlPlane → SandboxId → Option (ℕ × Sandbox)
find cp id = deref cp (get id cp.by_id)

-- `dropTracked`, and the section of `DeleteSandbox`: the sandbox taken out, if it was there.
unfoldable pub drop_tracked : ControlPlane → SandboxId → Option Sandbox × ControlPlane
unfolding remove_warm_ref
drop_tracked cp id = elim (find cp id) [
  | none ↦ (none, cp)
  | some (a, sb) ↦ (some sb, remove_warm_ref (record cp { by_id = delete id cp.by_id }) sb)
]

-- `KeepAlive`, with `none` for `ErrSandboxExpired`
unfoldable pub keep_alive : ControlPlane → SandboxId → ℤ → Option ℕ × ControlPlane
unfolding modify
keep_alive cp id now = elim (find cp id) [
  | none ↦ (none, cp)
  | some (a, sb) ↦
      (some a, record cp { heap = modify cp.heap a (λ s. record s { last_seen = now }) })
]

-- `GetSandbox`, with `none` for the error
unfoldable pub get_sandbox : ControlPlane → SandboxId → Option Sandbox
get_sandbox cp id = elim (find cp id) [ none ↦ none | some (a, sb) ↦ some sb ]

-- the sandboxes that `range cp.byID` visits
unfoldable pub tracked : List Sandbox → Dict SandboxId ℕ → List Sandbox
tracked heap [] = []
tracked heap ((id, a) ∷ rest) = elim (get_elem? heap a) [
  | none ↦ tracked heap rest
  | some sb ↦ sb ∷ tracked heap rest
]

insert_by_age : Sandbox → List Sandbox → List Sandbox
insert_by_age sb [] = sb ∷ []
insert_by_age sb (x ∷ xs) =
    if ltb_ℤ x.created_at sb.created_at then x ∷ insert_by_age sb xs else sb ∷ x ∷ xs

-- `sort.Slice(out, …CreatedAt.Before…)`
sort_by_age : List Sandbox → List Sandbox
unfolding insert_by_age
sort_by_age [] = []
sort_by_age (x ∷ xs) = insert_by_age x (sort_by_age xs)

-- `ListSandboxes`
unfoldable pub list_sandboxes : ControlPlane → List Sandbox
unfolding sort_by_age tracked
list_sandboxes cp = sort_by_age (tracked cp.heap cp.by_id)

-- `WarmStatus`
unfoldable pub warm_status : ControlPlane → Dict Bytes ℕ
warm_status cp = map (λ e. (e.0, length e.1)) cp.by_image
