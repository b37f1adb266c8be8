-- ===== src/ControlPlane/Upkeep/Filling.antt =====
-- How many sandboxes a refill leaves in the warm pool.
use lean_sandbox.Common.{
  ℕ, zero, suc, ◌+◌, ◌-◌, ◌≡◌, refl, ap, ◌∙◌, Bool, true, false, [], ◌∷◌, ◌++◌, length,
  length-append, arith, if◌then◌else◌,
}
use lean_sandbox.Common.Int.{ℤ, pos, negsuc, leb_ℤ, pos_part}
use lean_sandbox.Common.Text.{Bytes}
use lean_sandbox.Common.Text.Laws.{str_eq_refl}
use lean_sandbox.Config.{SandboxSpec}
use lean_sandbox.Kube.{Cluster}
use lean_sandbox.ControlPlane.{Sandbox, ControlPlane, warm_refs, register, append_warm}
use lean_sandbox.ControlPlane.Invariant.{warm_refs-put}
use lean_sandbox.ControlPlane.Pods.{Result, ok, error, State, create_pod, wait_pod_ready}
use lean_sandbox.ControlPlane.Upkeep.{
  stock, warm_ready, warm_made, warm_one, go_on, refill_loop, refill_warm_pool,
}

-- the size of the pool of an image
abbrev pub pool_size : ControlPlane → Bytes → ℕ
pool_size cp image = length (warm_refs cp image)

pool_size-stock :
    (cp : ControlPlane) (spec : SandboxSpec) (r : Sandbox)
    → pool_size (stock cp spec r) spec.image ≡ suc (pool_size cp spec.image)
unfolding register append_warm
pool_size-stock cp spec r = ground (
  arith,
  warm_refs-put cp spec.image spec.image (warm_refs cp spec.image ++ length cp.heap ∷ []),
  str_eq_refl spec.image,
  length-append (warm_refs cp spec.image) (length cp.heap ∷ []),
)

module _ (k : Cluster) (spec : SandboxSpec) where
  warm_ready-pool_size :
      (cp : ControlPlane) (sb : Sandbox) (ready : Result Sandbox) (w : k.World)
      → (warm_ready k cp spec sb ready w).0 ≡ ok tt
      → pool_size (warm_ready k cp spec sb ready w).1.0 spec.image ≡ suc (pool_size cp spec.image)
  unfolding warm_ready
  warm_ready-pool_size cp sb (error e) w p = absurd (cc p)
  warm_ready-pool_size cp sb (ok r) w p = pool_size-stock cp spec r

  warm_made-pool_size :
      (cp : ControlPlane) (made : Result Sandbox) (w : k.World)
      → (warm_made k cp spec made w).0 ≡ ok tt
      → pool_size (warm_made k cp spec made w).1.0 spec.image ≡ suc (pool_size cp spec.image)
  unfolding warm_made
  warm_made-pool_size cp (error e) w p = absurd (cc p)
  warm_made-pool_size cp (ok sb) w p =
      warm_ready-pool_size cp sb (wait_pod_ready k cp sb w).0 (wait_pod_ready k cp sb w).1 p

  warm_one-pool_size :
      (t : State k)
      → (warm_one k spec t).0 ≡ ok tt
      → pool_size (warm_one k spec t).1.0 spec.image ≡ suc (pool_size t.0 spec.image)
  unfolding warm_one
  warm_one-pool_size (cp, w) p =
      warm_made-pool_size cp (create_pod k cp spec w).0 (create_pod k cp spec w).1 p

  go_on_ok :
      (round rest : Result (Unit {0}) × State k)
      → (go_on k round rest).0 ≡ ok tt
      → (round.0 ≡ ok tt) × (rest.0 ≡ ok tt) × (go_on k round rest ≡ rest)
  go_on_ok (error e, t) rest p = absurd (cc p)
  go_on_ok (ok u, t) rest p = (refl, p, refl)

  refill_loop-pool_size :
      (n : ℕ) (t : State k)
      → (refill_loop k spec n t).0 ≡ ok tt
      → pool_size (refill_loop k spec n t).1.0 spec.image ≡ pool_size t.0 spec.image + n
  unfolding refill_loop
  refill_loop-pool_size zero t p = omega arith
  refill_loop-pool_size (suc n) t p =
      let round = warm_one k spec t in
      let rest = refill_loop k spec n round.1 in
      let (h, i, q) = go_on_ok round rest p in
      ap (λ z. pool_size z.1.0 spec.image) q
      ∙ omega (arith, warm_one-pool_size t h, refill_loop-pool_size n round.1 i)

  fill_unless :
      (b : Bool) (t : State k) (n : ℕ) (rest : Result (Unit {0}) × State k)
      → (b ≡ true → n ≡ 0)
      → (rest.0 ≡ ok tt → pool_size rest.1.0 spec.image ≡ pool_size t.0 spec.image + n)
      → (if b then (ok tt, t) else rest).0 ≡ ok tt
      → pool_size (if b then (ok tt, t) else rest).1.0 spec.image ≡ pool_size t.0 spec.image + n
  fill_unless true t n rest z f p = omega (arith, z refl)
  fill_unless false t n rest z f p = f p

enough : (min : ℤ) (have : ℕ) → leb_ℤ min (pos have) ≡ true → pos_part min - have ≡ 0
enough (pos m) have h = ground arith
enough (negsuc m) have h = ground arith

-- A refill that returns no error leaves in the pool of the image the larger of what it held and the
-- minimum, where a negative minimum counts as 0.
pub refill_warm_pool-pool_size :
    (k : Cluster) (spec : SandboxSpec) (min : ℤ) (t : State k)
    → (refill_warm_pool k spec min t).0 ≡ ok tt
    → pool_size (refill_warm_pool k spec min t).1.0 spec.image
      ≡ pool_size t.0 spec.image + (pos_part min - pool_size t.0 spec.image)
unfolding refill_warm_pool
refill_warm_pool-pool_size k spec min t p =
    let have = pool_size t.0 spec.image in
    fill_unless k spec (leb_ℤ min (pos have)) t (pos_part min - have)
      (refill_loop k spec (pos_part min - have) t) (enough min have)
      (refill_loop-pool_size k spec (pos_part min - have) t) p
