-- ===== src/ControlPlane/Life/Given.antt =====
-- A request to the API keeps it so that the cluster gave out the identifier of every sandbox.
use lean_sandbox.Common.{
  ℕ, ◌≡◌, refl, sym, ap, ◌∙◌, inl, inr, Option, none, some, List, arith, get_elem?, ◌==◌,
  Bool-cases, Option-cases,
}
use mathlib.Core.Path.{subst}
use lean_sandbox.Common.Int.{ℤ}
use lean_sandbox.Common.Text.{Bytes}
use lean_sandbox.Api.{SandboxId}
use lean_sandbox.Config.{SandboxSpec, sandbox_spec}
use lean_sandbox.Kube.{Cluster}
use lean_sandbox.ControlPlane.{
  Sandbox, ControlPlane, modify, claim_at, claim_warm, register, keep_alive, find, drop_tracked,
}
use lean_sandbox.ControlPlane.Heap.{get_elem?-modify}
use lean_sandbox.ControlPlane.Invariant.{claim_warm-eq_some}
use lean_sandbox.ControlPlane.Invariant.Sections.{new_or_old, keep_alive_missing, keep_alive_found}
use lean_sandbox.ControlPlane.Interleaving.{heap-drop_tracked}
use lean_sandbox.ControlPlane.Pods.{
  Result, ok, error, State, create_pod, delete_pod_of, claim_cold, await_cold, warm_or, cold_start,
  new_for, new_with, new_sandbox,
}
use lean_sandbox.ControlPlane.Pods.Refine.{Made, create_pod-Made, wait_pod_ready-Made}
use lean_sandbox.ControlPlane.Upkeep.{delete_taken, delete_sandbox}
use lean_sandbox.ControlPlane.Upkeep.Refine.{Ids, AllGiven, create_pod-Given, wait_pod_ready-Given}

module _ (k : Cluster) (d : Ids k) where
  -- what is to be kept
  abbrev pub Gives : State k → Type 0
  Gives (cp, w) = AllGiven k d cp.heap w

  pub Gives-later :
      (cp : ControlPlane) (w v : k.World)
      → ((i : SandboxId) → d.Given w i → d.Given v i)
      → Gives (cp, w)
      → Gives (cp, v)
  Gives-later cp w v keep g = λ a x e. keep x.id (g a x e)

  pub Gives-modify :
      (heap : List Sandbox) (w : k.World) (a : ℕ) (f : Sandbox → Sandbox)
      → ((x : Sandbox) → (f x).id ≡ x.id)
      → AllGiven k d heap w
      → AllGiven k d (modify heap a f) w
  Gives-modify heap w a f same g = λ b x e. elim (Bool-cases (a == b)) [
    | inl h ↦ elim (Option-cases (get_elem? heap b)) [
      | inl n ↦ absurd (ground (arith, get_elem?-modify heap a b f))
      | inr (y, k) ↦
          let q : f y ≡ x = ground (arith, get_elem?-modify heap a b f) in
          subst (d.Given w) (sym (same y) ∙ ap (λ (z : Sandbox). z.id) q) (g b y k)
    ]
    | inr h ↦ g b x (ground (arith, get_elem?-modify heap a b f))
  ]

  pub Gives-register :
      (cp : ControlPlane) (w : k.World) (sb : Sandbox)
      → d.Given w sb.id
      → Gives (cp, w)
      → Gives (register cp sb, w)
  unfolding register
  Gives-register cp w sb h g = λ a x e. elim (new_or_old cp.heap sb a {x = x} e) [
    | inl o ↦ g a x o
    | inr (p, q) ↦ subst (d.Given w) (sym (ap (λ (z : Sandbox). z.id) q)) h
  ]

  delete_pod_of-Gives :
      (cp : ControlPlane) (sb : Sandbox) (w : k.World)
      → Gives (cp, w)
      → Gives (cp, (delete_pod_of k sb w).1)
  unfolding delete_pod_of
  delete_pod_of-Gives cp sb w g = Gives-later cp w _ (λ i h. d.by_delete _ _ i w h) g

  claim_cold-Gives :
      (cp : ControlPlane) (sb : Sandbox) (ready : Result Sandbox) (id : SandboxId) (w : k.World)
      → Gives (cp, w)
      → d.Given w id
      → ((r : Sandbox) → ready ≡ ok r → r.id ≡ id)
      → Gives (claim_cold k cp sb ready w).1
  unfolding claim_cold
  claim_cold-Gives cp sb (error e) id w g h m = delete_pod_of-Gives cp sb w g
  claim_cold-Gives cp sb (ok ready) id w g h m =
      Gives-register cp (k.now w).1 _
        (subst (d.Given (k.now w).1) (sym (m ready refl)) (d.by_now id w h))
        (Gives-later cp w _ (λ i h. d.by_now i w h) g)

  await_cold-Gives :
      (cp : ControlPlane) (spec : SandboxSpec) (made : Result Sandbox) (id : SandboxId)
      (w : k.World)
      → Gives (cp, w)
      → d.Given w id
      → ((sb : Sandbox) → made ≡ ok sb → Made id spec sb)
      → Gives (await_cold k cp made w).1
  unfolding await_cold
  await_cold-Gives cp spec (error e) id w g h m = g
  await_cold-Gives cp spec (ok sb) id w g h m =
      let keep = wait_pod_ready-Given k d cp sb w in
      claim_cold-Gives cp sb _ id _ (Gives-later cp w _ keep g) (keep id h)
        (λ x p. (wait_pod_ready-Made k cp id spec sb x w (m sb refl) p).its_id)

  warm_or-Gives :
      (cp : ControlPlane) (image : Bytes) (now : ℤ) (w : k.World) (cold : Result ℕ × State k)
      → Gives (cp, w)
      → Gives cold.1
      → (o : Option (ℕ × ControlPlane)) → claim_warm cp image now ≡ o
      → Gives (warm_or k o w cold).1
  warm_or-Gives cp image now w cold g h none e = h
  warm_or-Gives cp image now w cold g h (some (a, after)) e =
      let (rest, refs, same) = claim_warm-eq_some cp image now e in
      subst (λ (c : ControlPlane). AllGiven k d c.heap w) (sym same)
        (Gives-modify cp.heap w a (claim_at now) (λ x. refl) g)

  new_for-Gives :
      (cp : ControlPlane) (spec : SandboxSpec) (w : k.World)
      → Gives (cp, w)
      → Gives (new_for k cp spec w).1
  unfolding new_for
  new_for-Gives cp spec w g =
      let id = (k.new_id w).0 in
      let keep : (i : SandboxId) → d.Given w i → d.Given (create_pod k cp spec w).1 i =
        λ i h. create_pod-Given k d cp spec w i (d.by_new i w h) in
      let cold =
        await_cold-Gives cp spec _ id _ (Gives-later cp w _ keep g)
          (create_pod-Given k d cp spec w id (d.gives w)) (create_pod-Made k cp spec w) in
      warm_or-Gives cp spec.image (k.now w).0 (k.now w).1 (cold_start k cp spec w)
        (Gives-later cp w _ (λ i h. d.by_now i w h) g) cold (claim_warm cp spec.image (k.now w).0)
        refl

  new_with-Gives :
      (cp : ControlPlane) (image : Bytes) (o : Option SandboxSpec) (w : k.World)
      → Gives (cp, w)
      → Gives (new_with k cp image o w).1
  unfolding new_with
  new_with-Gives cp image none w g = g
  new_with-Gives cp image (some spec) w g = new_for-Gives cp spec w g

  pub new_sandbox-Gives :
      (cp : ControlPlane) (image : Bytes) (w : k.World)
      → Gives (cp, w)
      → Gives (new_sandbox k cp image w).1
  unfolding new_sandbox
  new_sandbox-Gives cp image w g = new_with-Gives cp image (sandbox_spec cp.config image) w g

  pub keep_alive-Gives :
      (cp : ControlPlane) (id : SandboxId) (now : ℤ) (w : k.World)
      → Gives (cp, w)
      → Gives ((keep_alive cp id now).1, w)
  keep_alive-Gives cp id now w g = elim (Option-cases (find cp id)) [
    | inl n ↦ rw (keep_alive_missing cp id now n) g
    | inr ((a, sb), e) ↦
        rw (keep_alive_found cp id now e)
          (Gives-modify cp.heap w a (λ x. record x { last_seen = now }) (λ x. refl) g)
  ]

  delete_taken-Gives :
      (id : SandboxId) (o : Option Sandbox) (t : State k)
      → Gives t
      → Gives (delete_taken k id o t).1
  unfolding delete_taken
  delete_taken-Gives id none t g = g
  delete_taken-Gives id (some sb) (cp, w) g = delete_pod_of-Gives cp sb w g

  pub delete_sandbox-Gives :
      (id : SandboxId) (t : State k) → Gives t → Gives (delete_sandbox k id t).1
  unfolding delete_sandbox
  delete_sandbox-Gives id (cp, w) g =
      delete_taken-Gives id _ ((drop_tracked cp id).1, w)
        (λ a x e. g a x (rw (heap-drop_tracked cp id) at e))
