-- ===== src/ControlPlane/Upkeep/Samples.antt =====
-- The theorems about the background work in a small cluster.
use lean_sandbox.Common.{some}
use lean_sandbox.Common.{◌<◌, ◌≡◌, refl, ◌∙◌, false, List, [], ◌∷◌, arith}
use lean_sandbox.Common.Text.{Bytes, text, str_eq}
use lean_sandbox.Common.Text.Laws.{str_eq_iff}
use lean_sandbox.Common.{◌+◌, ◌-◌}
use lean_sandbox.Common.Dict.{get, put}
use lean_sandbox.Config.{SandboxSpec, sandbox_spec}
use lean_sandbox.Common.Int.{pos}
use lean_sandbox.Common.Decimal.{decimal}
use lean_sandbox.Kube.{Pod, answer, pod_ready, ready_condition, pod_spec}
use lean_sandbox.ControlPlane.Pods.{ok, create_pod, wait_pod_ready, new_sandbox}
use lean_sandbox.ControlPlane.Upkeep.Filling.{pool_size, refill_warm_pool-pool_size}
use lean_sandbox.ControlPlane.{
  ControlPlane, tracked, append_warm, register, claim_warm, drop_tracked, find,
}
use lean_sandbox.ControlPlane.Town.{
  town, Town, pod_7, look_up, remove, served, settings, quiet, morning,
}
use lean_sandbox.ControlPlane.Upkeep.{
  is_tracked, reap_orphans, reconcile, refill_warm_pool, on_pod_delete, tombstone,
}
use lean_sandbox.Http.{Request}
use lean_sandbox.ControlPlane.{initial}
use lean_sandbox.Common.Paths.{split_slash}
use lean_sandbox.ControlPlane.Server.{handle}
use lean_sandbox.ControlPlane.Server.Toy.{office}
use lean_sandbox.ControlPlane.Life.{ticks, goes, asks, Happening, happen, live}
use lean_sandbox.ControlPlane.Interleaving.{start-Inv}
use lean_sandbox.ControlPlane.Upkeep.Refine.{Ids, Reached}
use lean_sandbox.ControlPlane.Upkeep.Reconcile.{reconcile-Reached}
use lean_sandbox.ControlPlane.Upkeep.Reaping.{Keeps, reap_orphans_keeps}

look_up-remove :
    (name other : Bytes) (ps : List Pod)
    → str_eq other name ≡ false
    → look_up name (remove other ps) ≡ look_up name ps
look_up-remove name other [] n = refl
look_up-remove name other (p ∷ ps) n = ground (
  arith,
  look_up-remove name other ps n,
  str_eq_iff p.name other,
  str_eq_iff p.name name,
  str_eq_iff other name,
)

abbrev serving : ControlPlane
serving = record quiet.cp { heap = served ∷ []; by_id = (7, 0) ∷ [] }

abbrev evening : Town
evening = record {
  clock = 1000;
  next_id = 8;
  pods = record pod_7 { name = text "lean-sbx-3" } ∷ pod_7 ∷ [];
}

-- the pod of the sandbox that is in use
abbrev Standing : Town → Type 0
Standing w = look_up (text "lean-sbx-7") w.pods ≡ answer pod_7

Standing-kept : Keeps town settings (tracked serving.heap serving.by_id) Standing
unfolding is_tracked tracked
Standing-kept = record {
  keeps_now = λ w p. p;
  keeps_list = λ selector w p. p;
  keeps_delete = λ pod w o p.
      look_up-remove (text "lean-sbx-7") pod.name w.pods (
        ground (
          arith,
          o.untracked,
          str_eq_iff pod.name (text "lean-sbx-7"),
          str_eq_iff (text "lean-sbx-7") pod.name,
        ))
      ∙ p;
}

reap_orphans_keeps_example : Standing (reap_orphans town serving evening)
reap_orphans_keeps_example =
    reap_orphans_keeps town serving evening Standing Standing-kept (unfold str_eq in refl)

town_Ids : Ids town
town_Ids = record {
  Given = λ w i. i < w.next_id;
  new = λ w h. omega arith;
  gives = λ w. omega arith;
  by_new = λ i w g. omega arith;
  by_create = λ spec i w g. g;
  by_get = λ n p i w g. g;
  by_delete = λ n p i w g. g;
  by_list = λ n l i w g. g;
  by_now = λ i w g. g;
  by_wait = λ i w g. g;
}

reconcile-Reached_example :
    (let after = (reconcile town (quiet.cp, morning)).1 in
      Reached town town_Ids quiet [] after.0 after.1)
reconcile-Reached_example =
    reconcile-Reached town town_Ids quiet morning (start-Inv settings []) (λ a x e. absurd (cc e))

abbrev ubuntu : SandboxSpec
ubuntu = record {
  image = text "ubuntu";
  pool_size_warm = pos 2;
  resources = record { requests = []; limits = [] };
  disk_limit_mib = pos 0;
  service_account_name = [];
}

refill_two : (refill_warm_pool town ubuntu (pos 2) (quiet.cp, morning)).0 ≡ ok tt
unfolding refill_warm_pool create_pod wait_pod_ready pod_ready ready_condition str_eq pod_spec get
    decimal
refill_two = refl

refill_warm_pool-pool_size_example :
    (let after = (refill_warm_pool town ubuntu (pos 2) (quiet.cp, morning)).1.0 in
      pool_size after (text "ubuntu")
      ≡ pool_size quiet.cp (text "ubuntu") + (2 - pool_size quiet.cp (text "ubuntu")))
refill_warm_pool-pool_size_example =
    refill_warm_pool-pool_size town ubuntu (pos 2) (quiet.cp, morning) refill_two

-- a creation
abbrev asked : Request
asked = record {
  method = text "POST";
  path = text "/v1/sandboxes";
  query = [];
  header = [];
  body = text "ubuntu";
}

-- a round of the janitor, a client, the end of a pod, and another client
abbrev day : List Happening
day = ticks ∷ asks asked ∷ goes (tombstone (some pod_7)) ∷ asks asked ∷ []

-- The janitor's round has created the sandboxes 7 and 8. The first client is told of 8; then 7 is
-- dropped, and the second client is told of 9, which is created for it.
told_day : (live office [] day [] (initial settings (text "key"), morning)).0 ≡ 9 ∷ 8 ∷ []
unfolding live happen refill_warm_pool create_pod wait_pod_ready pod_ready ready_condition str_eq
    pod_spec get decimal reconcile on_pod_delete handle split_slash new_sandbox sandbox_spec tracked
    append_warm register claim_warm put drop_tracked find
told_day = refl
