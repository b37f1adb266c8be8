-- ===== src/ControlPlane/Upkeep/Reconcile.antt =====
-- `reconcile`, and the refills and deletions it makes, as runs of the critical sections.
use lean_sandbox.Common.{
  ℕ, zero, suc, ◌≡◌, refl, Bool, true, false, Option, none, some, List, [], ◌∷◌, length,
  if◌then◌else◌,
}
use mathlib.Core.Path.{subst}
use lean_sandbox.Common.Int.{ℤ, pos, leb_ℤ}
use lean_sandbox.Api.{SandboxId}
use lean_sandbox.Config.{Config, SandboxSpec}
use lean_sandbox.Kube.{Cluster}
use lean_sandbox.ControlPlane.{Sandbox, ControlPlane, drop_tracked, tracked, warm_refs}
use lean_sandbox.ControlPlane.Invariant.{System, Inv}
use lean_sandbox.ControlPlane.Invariant.Sections.{IsFresh}
use lean_sandbox.ControlPlane.Interleaving.{drops, here, next, Step-Inv, heap-drop_tracked}
use lean_sandbox.ControlPlane.Pods.{Result, ok, error, create_pod, delete_pod_of, State}
use lean_sandbox.ControlPlane.Pods.Refine.{Made, create_pod-Made, wait_pod_ready-Made}
use lean_sandbox.ControlPlane.Upkeep.{
  warm_ready, warm_made, warm_one, go_on, refill_loop, refill_warm_pool, delete_taken,
  delete_sandbox, delete_each, expired_ids, delete_expired, reap_orphans, refill_all, reconcile,
}
use lean_sandbox.ControlPlane.Upkeep.Reaping.{Keeps, reap_orphans_keeps}
use lean_sandbox.ControlPlane.Upkeep.Refine.{
  Ids, AllGiven, Reached, Reached-later, stock-Reached, create_pod-Given, wait_pod_ready-Given,
}

module _ (k : Cluster) (d : Ids k) (s : System) (pending : List ℕ) where
  abbrev pub Reach : State k → Type 0
  Reach (cp, w) = Reached k d s pending cp w

  delete_pod_of-Reach :
      (cp : ControlPlane) (sb : Sandbox) (w : k.World)
      → Reach (cp, w)
      → Reach (cp, (delete_pod_of k sb w).1)
  unfolding delete_pod_of
  delete_pod_of-Reach cp sb w r =
      Reached-later k d s pending cp w _ (λ i g. d.by_delete _ _ i w g) r

  warm_ready-Reach :
      (cp : ControlPlane) (spec : SandboxSpec) (sb : Sandbox) (ready : Result Sandbox)
      (id : SandboxId) (w : k.World)
      → Reach (cp, w)
      → IsFresh cp.heap id
      → d.Given w id
      → ((r : Sandbox) → ready ≡ ok r → Made id spec r)
      → Reach (warm_ready k cp spec sb ready w).1
  unfolding warm_ready
  warm_ready-Reach cp spec sb (error e) id w r f g m = delete_pod_of-Reach cp sb w r
  warm_ready-Reach cp spec sb (ok ready) id w r f g m =
      stock-Reached k d s pending cp spec ready id w r f g (m ready refl)

  warm_made-Reach :
      (cp : ControlPlane) (spec : SandboxSpec) (made : Result Sandbox) (id : SandboxId)
      (w : k.World)
      → Reach (cp, w)
      → IsFresh cp.heap id
      → d.Given w id
      → ((sb : Sandbox) → made ≡ ok sb → Made id spec sb)
      → Reach (warm_made k cp spec made w).1
  unfolding warm_made
  warm_made-Reach cp spec (error e) id w r f g m = r
  warm_made-Reach cp spec (ok sb) id w r f g m =
      let keep = wait_pod_ready-Given k d cp sb w in
      warm_ready-Reach cp spec sb _ id _ (Reached-later k d s pending cp w _ keep r) f (keep id g)
        (λ x p. wait_pod_ready-Made k cp id spec sb x w (m sb refl) p)

  warm_one-Reach : (spec : SandboxSpec) (t : State k) → Reach t → Reach (warm_one k spec t).1
  unfolding warm_one
  warm_one-Reach spec (cp, w) r =
      let keep : (i : SandboxId) → d.Given w i → d.Given (create_pod k cp spec w).1 i =
        λ i g. create_pod-Given k d cp spec w i (d.by_new i w g) in
      let id = (k.new_id w).0 in
      let fresh : IsFresh cp.heap id = λ a x e p. d.new w (subst (d.Given w) p (r.given a x e)) in
      warm_made-Reach cp spec _ id _ (Reached-later k d s pending cp w _ keep r) fresh
        (create_pod-Given k d cp spec w id (d.gives w)) (create_pod-Made k cp spec w)

  go_on-Reach :
      (round rest : Result (Unit {0}) × State k)
      → Reach round.1
      → Reach rest.1
      → Reach (go_on k round rest).1
  go_on-Reach (error e, t) rest r h = r
  go_on-Reach (ok u, t) rest r h = h

  refill_loop-Reach :
      (spec : SandboxSpec) (n : ℕ) (t : State k) → Reach t → Reach (refill_loop k spec n t).1
  unfolding refill_loop
  refill_loop-Reach spec zero t r = r
  refill_loop-Reach spec (suc n) t r =
      let round = warm_one k spec t in
      let h = warm_one-Reach spec t r in
      go_on-Reach round (refill_loop k spec n round.1) h (refill_loop-Reach spec n round.1 h)

  unless :
      (b : Bool) (t : State k) (rest : Result (Unit {0}) × State k)
      → Reach t
      → Reach rest.1
      → Reach (if b then (ok tt, t) else rest).1
  unless true t rest r h = r
  unless false t rest r h = h

  pub refill_warm_pool-Reach :
      (spec : SandboxSpec) (min : ℤ) (t : State k)
      → Reach t
      → Reach (refill_warm_pool k spec min t).1
  unfolding refill_warm_pool
  refill_warm_pool-Reach spec min t r =
      unless (leb_ℤ min (pos (length (warm_refs t.0 spec.image)))) t _ r
        (refill_loop-Reach spec _ t r)

  delete_taken-Reach :
      (id : SandboxId) (o : Option Sandbox) (t : State k)
      → Reach t
      → Reach (delete_taken k id o t).1
  unfolding delete_taken
  delete_taken-Reach id none t r = r
  delete_taken-Reach id (some sb) (cp, w) r = delete_pod_of-Reach cp sb w r

  pub drop_tracked-Reach :
      (id : SandboxId) (cp : ControlPlane) (w : k.World)
      → Reach (cp, w)
      → Reach ((drop_tracked cp id).1, w)
  drop_tracked-Reach id cp w r =
      let step = drops (record { cp = cp; pending = pending }) id in
      record {
        run = next r.run step;
        inv = Step-Inv step r.inv;
        given = λ a x e. r.given a x (rw (heap-drop_tracked cp id) at e);
      }

  delete_sandbox-Reach : (id : SandboxId) (t : State k) → Reach t → Reach (delete_sandbox k id t).1
  unfolding delete_sandbox
  delete_sandbox-Reach id (cp, w) r =
      delete_taken-Reach id _ ((drop_tracked cp id).1, w) (drop_tracked-Reach id cp w r)

  delete_each-Reach : (ids : List SandboxId) (t : State k) → Reach t → Reach (delete_each k ids t).1
  unfolding delete_each
  delete_each-Reach [] t r = r
  delete_each-Reach (id ∷ ids) t r =
      delete_each-Reach ids (delete_sandbox k id t).1 (delete_sandbox-Reach id t r)

  delete_expired-Reach : (t : State k) → Reach t → Reach (delete_expired k t).1
  unfolding delete_expired
  delete_expired-Reach (cp, w) r =
      delete_each-Reach (expired_ids cp.config (k.now w).0 (tracked cp.heap cp.by_id))
        (cp, (k.now w).1) (Reached-later k d s pending cp w _ (λ i g. d.by_now i w g) r)

  refill_all-Reach :
      (specs : List SandboxSpec) (t : State k) → Reach t → Reach (refill_all k specs t)
  unfolding refill_all
  refill_all-Reach [] t r = r
  refill_all-Reach (spec ∷ specs) t r =
      refill_all-Reach specs _ (refill_warm_pool-Reach spec spec.pool_size_warm t r)

-- The identifiers that were given out, as what the deletion of orphans keeps.
given_Keeps :
    (k : Cluster) (d : Ids k) (config : Config) (known : List Sandbox) (i : SandboxId)
    → Keeps k config known (λ w. d.Given w i)
given_Keeps k d config known i = record {
  keeps_now = λ w g. d.by_now i w g;
  keeps_list = λ l w g. d.by_list config.namespace l i w g;
  keeps_delete = λ pod w o g. d.by_delete config.namespace pod.name i (k.now w).1 g;
}

-- Where the maps and the heap agree, and the cluster gave out the identifier of every sandbox and
-- never gives one out twice, the janitor's round, with its deletions of expired sandboxes and its
-- refills of every image, whether or not they fail, is a run of the critical sections that hands no
-- sandbox to a client, leaves nothing pending that was not, and keeps the maps and the heap in
-- agreement.
pub reconcile-Reached :
    (k : Cluster) (d : Ids k) (s : System) (w : k.World)
    → Inv s
    → AllGiven k d s.heap w
    → (let after = (reconcile k (s.cp, w)).1 in Reached k d s s.pending after.0 after.1)
unfolding reconcile
reconcile-Reached k d s w v g =
    let start : Reached k d s s.pending s.cp w = record { run = here; inv = v; given = g } in
    let expired = delete_expired k (s.cp, w) in
    let cp = expired.1.0 in
    let one = delete_expired-Reach k d s s.pending (s.cp, w) start in
    let two =
      Reached-later k d s s.pending cp expired.1.1 (reap_orphans k cp expired.1.1)
        (λ i.
          reap_orphans_keeps k cp expired.1.1 (λ u. d.Given u i) (given_Keeps k d cp.config _ i))
        one in
    refill_all-Reach k d s s.pending s.cp.config.sandboxes (cp, reap_orphans k cp expired.1.1) two
