-- ===== src/ControlPlane/Pods/Samples.antt =====
-- The theorems about the operations on pods in a small cluster.
use lean_sandbox.Common.{ℕ, suc, ltb, if◌then◌else◌, ◌≡◌, refl, inl, inr, [], arith}
use lean_sandbox.Common.Text.{text, str_eq}
use lean_sandbox.Common.Dict.{bytes_eq}
use lean_sandbox.Common.Decimal.{decimal}
use lean_sandbox.Kube.{pod_ready, ready_condition, Pod, Reply, answer, not_found, failure, Cluster}
use lean_sandbox.ControlPlane.Interleaving.{start-Inv}
use lean_sandbox.ControlPlane.Pods.{ok, wait_pod_ready, new_sandbox}
use lean_sandbox.ControlPlane.Pods.Readiness.{Serves, after_polls, wait_pod_ready-Serves}
use lean_sandbox.ControlPlane.Pods.Refine.{Effect, new_sandbox-Effect}
use lean_sandbox.ControlPlane.Town.{
  town, look_up, settings, quiet, morning, noon, pod_7, made, served,
}

new_sandbox-Effect_example :
    Effect quiet
      (text "ubuntu")
      (new_sandbox town quiet.cp (text "ubuntu") morning).0
      (new_sandbox town quiet.cp (text "ubuntu") morning).1.0
new_sandbox-Effect_example =
    new_sandbox-Effect town quiet (text "ubuntu") morning (start-Inv settings []) (λ a x e p. cc e)

pod_7-Serves : Serves quiet.cp made served pod_7
unfolding pod_ready ready_condition str_eq decimal
pod_7-Serves = record { ready = refl; has_ip = refl; same = refl }

-- The cluster in which a pod starts slowly: it is not ready before the time 21, and has no
-- address before 22.
abbrev starting : ℕ → Pod → Pod
starting clock pod =
    if ltb clock 21
    then record pod { conditions = []; pod_ip = [] }
    else (if ltb clock 22 then record pod { pod_ip = [] } else pod)

abbrev started : ℕ → Reply Pod → Reply Pod
started clock (answer pod) = answer (starting clock pod)
started clock (not_found e) = not_found e
started clock (failure e) = failure e

abbrev slow_town : Cluster
slow_town = record town {
  get_pod =
      λ namespace name w. (started w.clock (look_up name w.pods), record w { clock = suc w.clock });
}

-- The third of three ticks finds the pod: the first finds it not ready, and the second finds it with
-- no address.
wait_pod_ready-Serves_example : (wait_pod_ready slow_town quiet.cp made noon).0 ≡ ok served
unfolding after_polls str_eq pod_ready ready_condition
wait_pod_ready-Serves_example =
    wait_pod_ready-Serves slow_town quiet.cp made served 2 noon pod_7 (omega arith)
      ((_, refl, inl refl), ((_, refl, inr refl), tt)) refl pod_7-Serves

wait_made : (wait_pod_ready town quiet.cp made noon).0 ≡ ok served
unfolding wait_pod_ready pod_ready ready_condition str_eq decimal
wait_made = refl
