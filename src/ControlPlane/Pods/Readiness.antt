-- ===== src/ControlPlane/Pods/Readiness.antt =====
-- What `waitPodReady` answers.
use lean_sandbox.Common.{
  ℕ, ◌<◌, zero, suc, ◌≡◌, refl, ap, ◌∙◌, true, false, ◌⊎◌, inl, inr, Option, none, some, [], arith,
  Bool-cases,
}
use lean_sandbox.Common.Text.{is_empty}
use lean_sandbox.Kube.{Pod, pod_ready, Reply, answer, not_found, failure, Ending, Cluster}
use lean_sandbox.ControlPlane.{Sandbox, ControlPlane}
use lean_sandbox.ControlPlane.Pods.{
  Result, ok, tick, settle, wait_ticks, wait_pod_ready, endpoint_of,
}

-- The pod is ready, has an address, and gives the sandbox its endpoint.
pub record Serves (cp : ControlPlane) (sb r : Sandbox) (pod : Pod) : Type 0 where
  pub ready : pod_ready pod ≡ true
  pub has_ip : is_empty pod.pod_ip ≡ false
  pub same : r ≡ record sb { endpoint = endpoint_of cp pod }

tick_ok :
    (cp : ControlPlane) (sb r : Sandbox) (reply : Reply Pod)
    → tick cp sb reply ≡ some (ok r)
    → (pod : Pod) × (reply ≡ answer pod) × Serves cp sb r pod
unfolding tick
tick_ok cp sb r (not_found e) p = absurd (cc p)
tick_ok cp sb r (failure e) p = absurd (cc p)
tick_ok cp sb r (answer pod) p = elim (Bool-cases (pod_ready pod)) [
  | inr h ↦ absurd (cc (rw h at p))
  | inl h ↦ elim (Bool-cases (is_empty pod.pod_ip)) [
    | inl i ↦ absurd (cc (rw (h, i) at p))
    | inr i ↦ (pod, refl, record { ready = h; has_ip = i; same = cc (rw (h, i) at p) })
  ]
]

-- Some poll of the cluster was answered with a pod that serves the sandbox.
abbrev pub Polled : (k : Cluster) → ControlPlane → Sandbox → Sandbox → Type 0
Polled k cp sb r =
    (w : k.World) × (pod : Pod) × ((k.get_pod sb.namespace sb.pod_name w).0 ≡ answer pod)
    × Serves cp sb r pod

settle_ok :
    (k : Cluster) (o : Option (Result Sandbox)) (w : k.World) (rest : Result Sandbox × k.World)
    (r : Sandbox)
    → (settle k o w rest).0 ≡ ok r
    → (rest.0 ≡ ok r) ⊎ (o ≡ some (ok r))
settle_ok k none w rest r p = inl p
settle_ok k (some x) w rest r p = inr (ap some p)

wait_ticks_ok :
    (k : Cluster) (cp : ControlPlane) (sb r : Sandbox) (n : ℕ) (ending : Ending) (w : k.World)
    → (wait_ticks k cp sb n ending w).0 ≡ ok r
    → Polled k cp sb r
unfolding wait_ticks
wait_ticks_ok k cp sb r zero ending w p = absurd (cc p)
wait_ticks_ok k cp sb r (suc n) ending w p =
    let reply = k.get_pod sb.namespace sb.pod_name w in
    let rest = wait_ticks k cp sb n ending reply.1 in
    elim (settle_ok k (tick cp sb reply.0) reply.1 rest r p) [
      | inl q ↦ wait_ticks_ok k cp sb r n ending reply.1 q
      | inr h ↦ let (pod, a, v) = tick_ok cp sb r reply.0 h in (w, pod, a, v)
    ]

-- If the wait succeeds, the cluster has answered a poll with a pod that is ready and has an
-- address; the sandbox has that address and the agent's port as its endpoint, and is else the same.
pub wait_pod_ready_ok :
    (k : Cluster) (cp : ControlPlane) (sb r : Sandbox) (w : k.World)
    → (wait_pod_ready k cp sb w).0 ≡ ok r
    → Polled k cp sb r
unfolding wait_pod_ready
wait_pod_ready_ok k cp sb r w p =
    wait_ticks_ok k cp sb r (k.wait w).0.0 (k.wait w).0.1 (k.wait w).1 p

-- the world after so many polls
unfoldable pub after_polls : (k : Cluster) → Sandbox → ℕ → k.World → k.World
after_polls k sb zero w = w
after_polls k sb (suc m) w = after_polls k sb m (k.get_pod sb.namespace sb.pod_name w).1

-- The pod does not serve yet: it is not ready, or has no address.
abbrev pub Waits : Reply Pod → Type 0
Waits reply = (pod : Pod) × (reply ≡ answer pod) × ((pod_ready pod ≡ false) ⊎ (pod.pod_ip ≡ []))

-- The first `m` polls are answered with pods that are not ready or have no address.
abbrev pub NotYet : (k : Cluster) → Sandbox → ℕ → k.World → Type 0
NotYet k sb zero w = Unit {0}
NotYet k sb (suc m) w =
    let reply = k.get_pod sb.namespace sb.pod_name w in Waits reply.0 × NotYet k sb m reply.1

tick-Waits :
    (cp : ControlPlane) (sb : Sandbox) (reply : Reply Pod) → Waits reply → tick cp sb reply ≡ none
unfolding tick
tick-Waits cp sb reply (pod, e, inl n) = rw (e, n) refl
tick-Waits cp sb reply (pod, e, inr i) =
    rw e (elim (Bool-cases (pod_ready pod)) [ inl r ↦ rw (r, i) refl | inr n ↦ rw n refl ])

tick-Serves :
    (cp : ControlPlane) (sb r : Sandbox) (reply : Reply Pod) (pod : Pod)
    → reply ≡ answer pod
    → Serves cp sb r pod
    → tick cp sb reply ≡ some (ok r)
unfolding tick
tick-Serves cp sb r reply pod e v = rw (e, v.ready, v.has_ip, v.same) refl

wait_ticks-Serves :
    (k : Cluster) (cp : ControlPlane) (sb r : Sandbox) (n m : ℕ) (ending : Ending) (w : k.World)
    (pod : Pod)
    → m < n
    → NotYet k sb m w
    → (k.get_pod sb.namespace sb.pod_name (after_polls k sb m w)).0 ≡ answer pod
    → Serves cp sb r pod
    → (wait_ticks k cp sb n ending w).0 ≡ ok r
unfolding wait_ticks after_polls
wait_ticks-Serves k cp sb r zero m ending w pod l y e v = absurd (omega arith)
wait_ticks-Serves k cp sb r (suc n) zero ending w pod l y e v =
    let reply = k.get_pod sb.namespace sb.pod_name w in
    let rest = wait_ticks k cp sb n ending reply.1 in
    ap (λ o. (settle k o reply.1 rest).0) (tick-Serves cp sb r reply.0 pod e v)
wait_ticks-Serves k cp sb r (suc n) (suc m) ending w pod l y e v =
    let reply = k.get_pod sb.namespace sb.pod_name w in
    let rest = wait_ticks k cp sb n ending reply.1 in
    ap (λ o. (settle k o reply.1 rest).0) (tick-Waits cp sb reply.0 y.0)
    ∙ wait_ticks-Serves k cp sb r n m ending reply.1 pod (omega arith) y.1 e v

-- If there is a tick at which the cluster answers with a pod that is ready and has an address, and
-- it answers every tick before it with a pod that is not or has none, the wait succeeds with the
-- endpoint of that pod.
pub wait_pod_ready-Serves :
    (k : Cluster) (cp : ControlPlane) (sb r : Sandbox) (m : ℕ) (w : k.World) (pod : Pod)
    → m < (k.wait w).0.0
    → NotYet k sb m (k.wait w).1
    → (k.get_pod sb.namespace sb.pod_name (after_polls k sb m (k.wait w).1)).0 ≡ answer pod
    → Serves cp sb r pod
    → (wait_pod_ready k cp sb w).0 ≡ ok r
unfolding wait_pod_ready
wait_pod_ready-Serves k cp sb r m w pod l y e v =
    wait_ticks-Serves k cp sb r (k.wait w).0.0 m (k.wait w).0.1 (k.wait w).1 pod l y e v
