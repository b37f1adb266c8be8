-- ===== src/ControlPlane/Town.antt =====
-- A small cluster, as an instance of the interface that the control plane's operations take: a
-- clock, the next identifier, and the pods, which run at once.
use lean_sandbox.Common.{ℕ, suc, false, List, [], ◌∷◌, if◌then◌else◌}
use lean_sandbox.Common.Int.{pos}
use lean_sandbox.Common.Text.{Bytes, text, str_eq}
use lean_sandbox.Common.Dict.{bytes_eq}
use lean_sandbox.Common.Decimal.{decimal}
use lean_sandbox.Config.{Config}
use lean_sandbox.Kube.{Pod, PodSpec, Reply, answer, not_found, timed_out, Cluster}
use lean_sandbox.ControlPlane.{Sandbox}
use lean_sandbox.ControlPlane.Invariant.{System}
use lean_sandbox.ControlPlane.Interleaving.{start}

pub record Town : Type 0 where
  pub clock : ℕ
  pub next_id : ℕ
  pub pods : List Pod

abbrev pub running_pod : PodSpec → Pod
running_pod spec = record {
  name = spec.name;
  namespace = spec.namespace;
  created_at = pos 0;
  phase = text "Running";
  conditions = record { type = text "Ready"; status = text "True" } ∷ [];
  pod_ip = text "10.0.0.1";
}

abbrev pub look_up : Bytes → List Pod → Reply Pod
look_up name [] = not_found (text "no such pod")
look_up name (p ∷ ps) = if str_eq p.name name then answer p else look_up name ps

abbrev pub remove : Bytes → List Pod → List Pod
remove name [] = []
remove name (p ∷ ps) = if str_eq p.name name then remove name ps else p ∷ remove name ps

abbrev pub town : Cluster
town = record {
  World = Town;
  create = λ spec w. (answer (running_pod spec), record w { pods = running_pod spec ∷ w.pods });
  get_pod = λ namespace name w. (look_up name w.pods, w);
  delete_pod = λ namespace name w. (answer tt, record w { pods = remove name w.pods });
  list_pods = λ namespace selector w. (answer w.pods, w);
  now = λ w. (pos w.clock, record w { clock = suc w.clock });
  new_id = λ w. (w.next_id, record w { next_id = suc w.next_id });
  id_string = decimal;
  wait = λ w. ((3, timed_out), w);
}

abbrev pub settings : Config
settings = record {
  sandboxes =
      record {
        image = text "ubuntu";
        pool_size_warm = pos 2;
        resources = record { requests = []; limits = [] };
        disk_limit_mib = pos 0;
        service_account_name = [];
      }
      ∷ [];
  namespace = text "sandbox";
  agent_port = pos 9090;
  agent_image = text "agent";
  lease_ttl = pos 900;
  reconcile_every = pos 30;
  token_ttl = pos 900;
  wait_pod_ready_timeout = pos 180;
  wait_pod_ready_poll_interval = pos 2;
  pod_provision_grace = pos 300;
  host_aliases = [];
}

abbrev pub quiet : System
quiet = start settings []

abbrev pub morning : Town
morning = record { clock = 10; next_id = 7; pods = [] }

abbrev pub pod_7 : Pod
pod_7 = record {
  name = text "lean-sbx-7";
  namespace = text "sandbox";
  created_at = pos 0;
  phase = text "Running";
  conditions = record { type = text "Ready"; status = text "True" } ∷ [];
  pod_ip = text "10.0.0.1";
}

abbrev pub noon : Town
noon = record { clock = 20; next_id = 8; pods = pod_7 ∷ [] }

abbrev pub made : Sandbox
made = record {
  id = 7;
  image = text "ubuntu";
  pod_name = text "lean-sbx-7";
  namespace = text "sandbox";
  endpoint = [];
  created_at = pos 10;
  last_seen = pos 11;
  claimed = false;
}

abbrev pub served : Sandbox
served = record made { endpoint = text "http://10.0.0.1:9090" }
