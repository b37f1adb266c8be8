-- ===== src/ControlPlane/Upkeep/Refine.antt =====
-- `reconcile` as a run of the critical sections.
use lean_sandbox.Common.{
  ℕ, zero, suc, ◌≡◌, refl, sym, ap, ◌∙◌, false, inl, inr, Option, none, some, List, [], ◌∷◌, ◌++◌,
  arith, length, get_elem?, ◌==◌, ==_refl, Bool-cases, lt-length_of_get_elem?, get_elem?-append_new,
}
use mathlib.Core.Path.{subst}
use lean_sandbox.Common.Text.{Bytes}
use lean_sandbox.Api.{SandboxId}
use lean_sandbox.Config.{SandboxSpec}
use lean_sandbox.Kube.{Pod, PodSpec, Reply, answer, not_found, failure, Ending, Cluster}
use lean_sandbox.ControlPlane.{Sandbox, ControlPlane, register, append_warm}
use lean_sandbox.ControlPlane.Heap.{Has, Has-append}
use lean_sandbox.ControlPlane.Invariant.{System, Inv}
use lean_sandbox.ControlPlane.Invariant.Sections.{IsFresh, new_or_old}
use lean_sandbox.ControlPlane.Interleaving.{warms, appends, Run, next, Step-Inv, without}
use lean_sandbox.ControlPlane.Pods.{Result, settle, wait_ticks, wait_pod_ready, created, create_pod}
use lean_sandbox.ControlPlane.Pods.Refine.{Made}
use lean_sandbox.ControlPlane.Upkeep.{stock}

-- The identifiers that were given out in a world. A new one is none of them, and no call forgets
-- one.
pub record Ids (k : Cluster) : Type 1 where
  pub Given : k.World → SandboxId → Type 0
  pub new : (w : k.World) → ¬ Given w (k.new_id w).0
  pub gives : (w : k.World) → Given (k.new_id w).1 (k.new_id w).0
  pub by_new : (i : SandboxId) (w : k.World) → Given w i → Given (k.new_id w).1 i
  pub by_create :
      (spec : PodSpec) (i : SandboxId) (w : k.World) → Given w i → Given (k.create spec w).1 i
  pub by_get : (n p : Bytes) (i : SandboxId) (w : k.World) → Given w i → Given (k.get_pod n p w).1 i
  pub by_delete :
      (n p : Bytes) (i : SandboxId) (w : k.World) → Given w i → Given (k.delete_pod n p w).1 i
  pub by_list :
      (n l : Bytes) (i : SandboxId) (w : k.World) → Given w i → Given (k.list_pods n l w).1 i
  pub by_now : (i : SandboxId) (w : k.World) → Given w i → Given (k.now w).1 i
  pub by_wait : (i : SandboxId) (w : k.World) → Given w i → Given (k.wait w).1 i

module _ (k : Cluster) (d : Ids k) where
  settle-Given :
      (o : Option (Result Sandbox)) (w : k.World) (rest : Result Sandbox × k.World) (i : SandboxId)
      → d.Given w i
      → d.Given rest.1 i
      → d.Given (settle k o w rest).1 i
  settle-Given none w rest i g h = h
  settle-Given (some r) w rest i g h = g

  wait_ticks-Given :
      (cp : ControlPlane) (sb : Sandbox) (n : ℕ) (ending : Ending) (w : k.World) (i : SandboxId)
      → d.Given w i
      → d.Given (wait_ticks k cp sb n ending w).1 i
  unfolding wait_ticks
  wait_ticks-Given cp sb zero ending w i g = g
  wait_ticks-Given cp sb (suc n) ending w i g =
      let reply = k.get_pod sb.namespace sb.pod_name w in
      let h = d.by_get sb.namespace sb.pod_name i w g in
      settle-Given _ reply.1 (wait_ticks k cp sb n ending reply.1) i h
        (wait_ticks-Given cp sb n ending reply.1 i h)

  pub wait_pod_ready-Given :
      (cp : ControlPlane) (sb : Sandbox) (w : k.World) (i : SandboxId)
      → d.Given w i
      → d.Given (wait_pod_ready k cp sb w).1 i
  unfolding wait_pod_ready
  wait_pod_ready-Given cp sb w i g = wait_ticks-Given cp sb _ _ _ i (d.by_wait i w g)

  created-Given :
      (spec : SandboxSpec) (id : SandboxId) (reply : Reply Pod) (w : k.World) (i : SandboxId)
      → d.Given w i
      → d.Given (created k spec id reply w).1 i
  created-Given spec id (not_found e) w i g = g
  created-Given spec id (failure e) w i g = g
  created-Given spec id (answer pod) w i g = d.by_now i _ (d.by_now i w g)

  pub create_pod-Given :
      (cp : ControlPlane) (spec : SandboxSpec) (w : k.World) (i : SandboxId)
      → d.Given (k.new_id w).1 i
      → d.Given (create_pod k cp spec w).1 i
  unfolding create_pod
  create_pod-Given cp spec w i g = created-Given spec _ _ _ i (d.by_create _ i _ g)

-- The identifier of every sandbox in the heap was given out.
abbrev pub AllGiven : (k : Cluster) → Ids k → List Sandbox → k.World → Type 0
AllGiven k d heap w = (a : ℕ) (x : Sandbox) → get_elem? heap a ≡ some x → d.Given w x.id

-- What a run from `s` that handed out nothing has made of the control plane and the world.
pub record Reached (k : Cluster) (d : Ids k) (s : System) (pending : List ℕ) (cp : ControlPlane)
    (w : k.World) : Type 0 where
  pub run : Run s (record { cp = cp; pending = pending }) []
  pub inv : Inv (record { cp = cp; pending = pending })
  pub given : AllGiven k d cp.heap w

without-append : (a : ℕ) (xs : List ℕ) → ¬ Has a xs → without a (xs ++ a ∷ []) ≡ xs
unfolding without
without-append a [] n = ground (arith, ==_refl a)
without-append a (x ∷ xs) n = elim (Bool-cases (x == a)) [
  | inl e ↦ absurd (n (inl (ground arith)))
  | inr e ↦ rw (e, without-append a xs (λ h. n (inr h))) refl
]

module _ (k : Cluster) (d : Ids k) (s : System) (pending : List ℕ) where
  -- The calls of the cluster keep what was reached.
  pub Reached-later :
      (cp : ControlPlane) (w v : k.World)
      → ((i : SandboxId) → d.Given w i → d.Given v i)
      → Reached k d s pending cp w
      → Reached k d s pending cp v
  Reached-later cp w v keep r = record {
    run = r.run;
    inv = r.inv;
    given = λ a x e. keep x.id (r.given a x e);
  }

  pub stock-Reached :
      (cp : ControlPlane) (spec : SandboxSpec) (r : Sandbox) (id : SandboxId) (w : k.World)
      → Reached k d s pending cp w
      → IsFresh cp.heap id
      → d.Given w id
      → Made id spec r
      → Reached k d s pending (stock cp spec r) w
  stock-Reached cp spec r id w reached fresh g m =
      let sb : Sandbox = record r { claimed = false } in
      let here : System = record { cp = cp; pending = pending } in
      let a = length cp.heap in
      let first = warms here sb (subst (IsFresh cp.heap) (sym m.its_id) fresh) refl in
      let there : System = record { cp = register cp sb; pending = pending ++ a ∷ [] } in
      let e : get_elem? there.heap a ≡ some sb =
        unfold register in get_elem?-append_new cp.heap sb in
      let second = appends there a sb ((Has-append a pending (a ∷ [])).1 (inr (inl refl))) e in
      let absent : ¬ Has a pending = λ h.
        let ((img, (x, f, i, c)), n) = reached.inv.waiting a h in
        omega (arith, lt-length_of_get_elem? cp.heap a f) in
      let end : System = record {
        cp = append_warm (register cp sb) sb.image a;
        pending = without a (pending ++ a ∷ []);
      } in
      let same : end ≡ record { cp = stock cp spec r; pending = pending } =
        ap
          (λ im. record {
            cp = append_warm (register cp sb) im a;
            pending = without a (pending ++ a ∷ []);
          })
          m.its_image
        ∙ ap (λ ps. record { cp = stock cp spec r; pending = ps })
            (without-append a pending absent) in
      record {
        run = subst (λ t. Run s t []) same (next (next reached.run first) second);
        inv = subst Inv same (Step-Inv second (Step-Inv first reached.inv));
        given = λ b x e. elim (new_or_old cp.heap sb b {x = x} (unfold register append_warm in e)) [
          | inl o ↦ reached.given b x o
          | inr (p, q) ↦ subst (d.Given w) (sym (ap (λ y. y.id) q ∙ m.its_id)) g
        ];
      }
