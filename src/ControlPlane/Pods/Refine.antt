-- ===== src/ControlPlane/Pods/Refine.antt =====
-- `NewSandbox` as a step of the critical sections.
use lean_sandbox.Common.{
  ℕ, ◌≡◌, refl, sym, ap, ◌∙◌, true, inl, inr, Option, none, some, [], ◌∷◌, arith, length,
}
use mathlib.Core.Path.{subst}
use lean_sandbox.Common.{get_elem?, get_elem?-append_new, ==_refl}
use lean_sandbox.Common.Int.{ℤ}
use lean_sandbox.Common.Text.{Bytes}
use lean_sandbox.Api.{SandboxId}
use lean_sandbox.Config.{SandboxSpec, sandbox_spec}
use lean_sandbox.Config.Layers.{image-sandbox_spec}
use lean_sandbox.Kube.{Pod, Reply, answer, not_found, failure, Cluster}
use lean_sandbox.ControlPlane.{Sandbox, ControlPlane, claim_warm, claim_at, register}
use lean_sandbox.ControlPlane.Heap.{Has-append, get_elem?-modify}
use lean_sandbox.ControlPlane.Invariant.{System, Inv, claim_warm-eq_some}
use lean_sandbox.ControlPlane.Invariant.Sections.{IsFresh}
use lean_sandbox.ControlPlane.Interleaving.{Step, claims, registers}
use lean_sandbox.ControlPlane.Pods.{
  Error, not_configured, Result, ok, error, State, created, create_pod, wait_pod_ready, claim_cold,
  await_cold, warm_or, cold_start, new_for, new_with, new_sandbox,
}
use lean_sandbox.ControlPlane.Pods.Readiness.{wait_pod_ready_ok}

-- The sandbox is as `createPod` makes it for a specification.
pub record Made (id : SandboxId) (spec : SandboxSpec) (sb : Sandbox) : Type 0 where
  pub its_id : sb.id ≡ id
  pub its_image : sb.image ≡ spec.image

created-Made :
    (k : Cluster) (spec : SandboxSpec) (id : SandboxId) (reply : Reply Pod) (w : k.World)
    (sb : Sandbox)
    → (created k spec id reply w).0 ≡ ok sb
    → Made id spec sb
created-Made k spec id (not_found e) w sb p = absurd (cc p)
created-Made k spec id (failure e) w sb p = absurd (cc p)
created-Made k spec id (answer pod) w sb p = record { its_id = cc p; its_image = cc p }

pub create_pod-Made :
    (k : Cluster) (cp : ControlPlane) (spec : SandboxSpec) (w : k.World) (sb : Sandbox)
    → (create_pod k cp spec w).0 ≡ ok sb
    → Made (k.new_id w).0 spec sb
unfolding create_pod
create_pod-Made k cp spec w sb p = created-Made k spec _ _ _ sb p

pub wait_pod_ready-Made :
    (k : Cluster) (cp : ControlPlane) (id : SandboxId) (spec : SandboxSpec) (sb r : Sandbox)
    (w : k.World)
    → Made id spec sb
    → (wait_pod_ready k cp sb w).0 ≡ ok r
    → Made id spec r
wait_pod_ready-Made k cp id spec sb r w m p =
    let (v, pod, a, serves) = wait_pod_ready_ok k cp sb r w p in
    record {
      its_id = ap (λ x. x.id) serves.same ∙ m.its_id;
      its_image = ap (λ x. x.image) serves.same ∙ m.its_image;
    }

-- What `NewSandbox` makes of a system: it hands out a claimed sandbox of the image in one step, or
-- it returns an error and leaves the control plane as it was.
pub data Effect (s : System) (image : Bytes) : Result ℕ → ControlPlane → Type 0 where
  hands :
      (a : ℕ) (cp : ControlPlane) (sb : Sandbox)
      → Step s (record s { cp = cp }) (some a)
      → get_elem? cp.heap a ≡ some sb
      → sb.claimed ≡ true
      → sb.image ≡ image
      → Effect s image (ok a) cp
  refuses : (e : Error) → Effect s image (error e) s.cp

module _ (k : Cluster) (s : System) (image : Bytes) where
  claim_cold-Effect :
      (spec : SandboxSpec) (sb : Sandbox) (ready : Result Sandbox) (id : SandboxId) (w : k.World)
      → IsFresh s.heap id
      → spec.image ≡ image
      → ((r : Sandbox) → ready ≡ ok r → Made id spec r)
      → Effect s image (claim_cold k s.cp sb ready w).0 (claim_cold k s.cp sb ready w).1.0
  unfolding claim_cold
  claim_cold-Effect spec sb (error e) id w f q made = refuses e
  claim_cold-Effect spec sb (ok r) id w f q made =
      let m = made r refl in
      let claimed : Sandbox = record r { claimed = true; last_seen = (k.now w).0 } in
      hands (length s.heap) (register s.cp claimed) claimed
        (registers s claimed (subst (IsFresh s.heap) (sym m.its_id) f) refl)
        (unfold register in get_elem?-append_new s.heap claimed) refl (m.its_image ∙ q)

  await_cold-Effect :
      (spec : SandboxSpec) (made : Result Sandbox) (id : SandboxId) (w : k.World)
      → IsFresh s.heap id
      → spec.image ≡ image
      → ((sb : Sandbox) → made ≡ ok sb → Made id spec sb)
      → Effect s image (await_cold k s.cp made w).0 (await_cold k s.cp made w).1.0
  unfolding await_cold
  await_cold-Effect spec (error e) id w f q made = refuses e
  await_cold-Effect spec (ok sb) id w f q made =
      claim_cold-Effect spec sb _ id _ f q
        (λ r p. wait_pod_ready-Made k s.cp id spec sb r w (made sb refl) p)

  claim_warm-Effect :
      (a : ℕ) (cp : ControlPlane) (now : ℤ)
      → Inv s
      → claim_warm s.cp image now ≡ some (a, cp)
      → Effect s image (ok a) cp
  claim_warm-Effect a cp now v e =
      let (rest, w, c) = claim_warm-eq_some s.cp image now e in
      let (x, f, i, u) = v.warm image a (rw w ((Has-append a rest (a ∷ [])).1 (inr (inl refl)))) in
      hands a cp (claim_at now x) (claims s image now a cp e)
        (ap (λ z. get_elem? z.heap a) c
          ∙ ground (arith, get_elem?-modify s.heap a a (claim_at now), ==_refl a))
        refl i

  warm_or-Effect :
      (o : Option (ℕ × ControlPlane)) (w : k.World) (cold : Result ℕ × State k)
      → ((a : ℕ) (cp : ControlPlane) → o ≡ some (a, cp) → Effect s image (ok a) cp)
      → Effect s image cold.0 cold.1.0
      → Effect s image (warm_or k o w cold).0 (warm_or k o w cold).1.0
  warm_or-Effect none w cold warm rest = rest
  warm_or-Effect (some (a, cp)) w cold warm rest = warm a cp refl

  new_for-Effect :
      (spec : SandboxSpec) (w : k.World)
      → Inv s
      → IsFresh s.heap (k.new_id w).0
      → spec.image ≡ image
      → Effect s image (new_for k s.cp spec w).0 (new_for k s.cp spec w).1.0
  unfolding new_for
  new_for-Effect spec w v f q =
      warm_or-Effect (claim_warm s.cp spec.image (k.now w).0) (k.now w).1 (cold_start k s.cp spec w)
        (λ a cp e.
          claim_warm-Effect a cp (k.now w).0 v
            (subst (λ t. claim_warm s.cp t (k.now w).0 ≡ some (a, cp)) q e))
        (await_cold-Effect spec _ (k.new_id w).0 _ f q (create_pod-Made k s.cp spec w))

  new_with-Effect :
      (o : Option SandboxSpec) (w : k.World)
      → Inv s
      → IsFresh s.heap (k.new_id w).0
      → ((spec : SandboxSpec) → o ≡ some spec → spec.image ≡ image)
      → Effect s image (new_with k s.cp image o w).0 (new_with k s.cp image o w).1.0
  unfolding new_with
  new_with-Effect none w v f q = refuses (not_configured image)
  new_with-Effect (some spec) w v f q = new_for-Effect spec w v f (q spec refl)

-- Where the maps and the heap agree, and the next identifier is of no sandbox yet, `NewSandbox` hands
-- out a sandbox of the image that was asked for, claimed, by one of the critical sections, or it
-- returns an error and leaves the control plane as it was.
pub new_sandbox-Effect :
    (k : Cluster) (s : System) (image : Bytes) (w : k.World)
    → Inv s
    → IsFresh s.heap (k.new_id w).0
    → Effect s image (new_sandbox k s.cp image w).0 (new_sandbox k s.cp image w).1.0
unfolding new_sandbox
new_sandbox-Effect k s image w v f =
    new_with-Effect k s image (sandbox_spec s.cp.config image) w v f
      (image-sandbox_spec s.cp.config image)
