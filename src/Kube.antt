-- ===== src/Kube.antt =====
-- internal/controlplane/kube.go and watch.go: the pods of sandboxes, and the cluster that holds
-- them. The Kubernetes API is code outside the repository: a `Cluster` is what the control plane
-- calls of it, with the clock, the identifiers and the waits that it takes from Go's library.
pub mod Ready
pub mod Flags
mod Samples
use lean_sandbox.Common.{
  ℕ, Bool, true, false, Option, none, some, List, [], ◌∷◌, ◌++◌, ◌*◌, ◌-◌, ◌%◌, suc, ltb,
  if◌then◌else◌,
}
use lean_sandbox.Common.Int.{ℤ, pos, negsuc, is_zero}
use lean_sandbox.Common.Text.{Bytes, text, str_eq, is_empty}
use lean_sandbox.Common.Decimal.{decimal}
use lean_sandbox.Common.Dict.{Dict, bytes_eq, put}
use lean_sandbox.Api.{SandboxId}
use lean_sandbox.Config.{Config, SandboxSpec, HostAlias, Quantity, parsed, binary_si, Resources}

-- `corev1.PodCondition`
pub record Condition : Type 0 where
  pub type : Bytes
  pub status : Bytes

-- `corev1.Pod`, as far as the control plane reads it
pub record Pod : Type 0 where
  pub name : Bytes
  pub namespace : Bytes
  pub created_at : ℤ
  pub phase : Bytes
  pub conditions : List Condition
  pub pod_ip : Bytes

-- the loop of `podReady`
unfoldable pub ready_condition : List Condition → Bool
unfolding str_eq
ready_condition [] = false
ready_condition (c ∷ rest) =
    let others = ready_condition rest in
    if str_eq c.type (text "Ready") then str_eq c.status (text "True") else others

-- `func podReady(pod *corev1.Pod) bool`
unfoldable pub pod_ready : Pod → Bool
unfolding ready_condition
pod_ready pod = if str_eq pod.phase (text "Running") then ready_condition pod.conditions else false

-- `strconv.Itoa`
abbrev pub itoa : ℤ → Bytes
itoa (pos n) = decimal n
itoa (negsuc n) = b'-' ∷ decimal (suc n)

-- `int32(n)`
unfoldable pub to_int32 : ℤ → ℤ
to_int32 n =
    let word : ℕ = elim n [ pos k ↦ k % 4294967296 | negsuc k ↦ 4294967295 - k % 4294967296 ] in
    if ltb word 2147483648 then pos word else negsuc (4294967295 - word)

pub record VolumeMount : Type 0 where
  pub name : Bytes
  pub mount_path : Bytes
  pub read_only : Bool

-- `corev1.SecurityContext`; every container sets each of these fields
pub record SecurityContext : Type 0 where
  pub allow_privilege_escalation : Bool
  pub drop : List Bytes
  pub run_as_non_root : Bool
  pub run_as_user : ℕ
  pub run_as_group : ℕ
  pub read_only_root_filesystem : Bool
  pub seccomp_profile : Bytes

pub record Probe : Type 0 where
  pub path : Bytes
  pub port : ℤ
  pub initial_delay_seconds : ℕ
  pub period_seconds : ℕ
  pub timeout_seconds : ℕ
  pub failure_threshold : ℕ

pub record Container : Type 0 where
  pub name : Bytes
  pub image : Bytes
  pub command : List Bytes
  pub args : List Bytes
  pub ports : List ℤ
  pub readiness_probe : Option Probe
  pub volume_mounts : List VolumeMount
  pub security_context : SecurityContext
  pub resources : Resources

-- an `emptyDir` volume with its size limit
pub record Volume : Type 0 where
  pub name : Bytes
  pub size_limit : Quantity

-- what `podSpec` asks the cluster to create
pub record PodSpec : Type 0 where
  pub name : Bytes
  pub namespace : Bytes
  pub labels : Dict Bytes Bytes
  pub restart_policy : Bytes
  pub service_account_name : Bytes
  pub host_aliases : List HostAlias
  pub init_containers : List Container
  pub containers : List Container
  pub volumes : List Volume

abbrev pub agent_mount_path : Bytes
agent_mount_path = text "/opt/lean-sandbox"

abbrev pub agent_bin_path : Bytes
agent_bin_path = agent_mount_path ++ text "/agent"

abbrev pub agent_bin_limit_mib : ℤ
agent_bin_limit_mib = pos 32

-- the value of an `int64` product
unfoldable pub to_int64 : ℤ → ℤ
to_int64 n =
    let word : ℕ = elim n [
      | pos k ↦ k % 18446744073709551616
      | negsuc k ↦ 18446744073709551615 - k % 18446744073709551616
    ] in
    if ltb word 9223372036854775808 then pos word else negsuc (18446744073709551615 - word)

abbrev times_mib : ℤ → ℤ
times_mib (pos n) = pos (n * 1048576)
times_mib (negsuc n) = negsuc (suc n * 1048576 - 1)

-- `func miB(mib int64) *resource.Quantity`
unfoldable pub mib : ℤ → Quantity
unfolding to_int64
mib n = binary_si (to_int64 (times_mib n))

-- `func agentArgs(port int, sandboxID, pubKeyB64 string) []string`
unfoldable pub agent_args : ℤ → Bytes → Bytes → List Bytes
agent_args port sandbox_id pub_key =
    let listen = text "-listen" ∷ (b':' ∷ itoa port) ∷ [] in
    let id = if is_empty sandbox_id then [] else text "-sandbox-id" ∷ sandbox_id ∷ [] in
    let key = if is_empty pub_key then [] else text "-controlplane-public-key" ∷ pub_key ∷ [] in
    listen ++ (id ++ key)

-- `func defaultResources() corev1.ResourceRequirements`
abbrev pub default_resources : Resources
default_resources = record {
  requests = (text "cpu", parsed (text "10m")) ∷ (text "memory", parsed (text "32Mi")) ∷ [];
  limits =
      (text "cpu", parsed (text "500m"))
      ∷ (text "memory", parsed (text "256Mi"))
      ∷ (text "ephemeral-storage", parsed (text "256Mi"))
      ∷ [];
}

-- `maps.Copy(dst, src)`
unfoldable pub copy : Dict Bytes Quantity → Dict Bytes Quantity → Dict Bytes Quantity
copy dst [] = dst
copy dst ((k, v) ∷ src) = copy (put k v dst) src

-- `func resourcesFor(spec SandboxSpec) corev1.ResourceRequirements`
unfoldable pub resources_for : SandboxSpec → Resources
unfolding copy
resources_for spec = record {
  requests = copy default_resources.requests spec.resources.requests;
  limits = copy default_resources.limits spec.resources.limits;
}

abbrev pub no_resources : Resources
no_resources = record { requests = []; limits = [] }

-- the security context that both containers have
abbrev pub restricted : SecurityContext
restricted = record {
  allow_privilege_escalation = false;
  drop = text "ALL" ∷ [];
  run_as_non_root = true;
  run_as_user = 1000;
  run_as_group = 1000;
  read_only_root_filesystem = true;
  seccomp_profile = text "RuntimeDefault";
}

-- `podSpec(spec, id, pubKeyB64)`, where `id` is `id.String()`
unfoldable pub pod_spec : Config → SandboxSpec → Bytes → Bytes → PodSpec
unfolding agent_args resources_for to_int32 mib
pod_spec config spec id pub_key = record {
  name = text "lean-sbx-" ++ id;
  namespace = config.namespace;
  labels = (text "app", text "lean-sandbox") ∷ (text "lean-sandbox.ndx.one/id", id) ∷ [];
  restart_policy = text "Never";
  service_account_name = spec.service_account_name;
  host_aliases = config.host_aliases;
  init_containers =
      record {
        name = text "agent-inject";
        image = config.agent_image;
        command = text "/agent" ∷ text "-install-to" ∷ agent_bin_path ∷ [];
        args = [];
        ports = [];
        readiness_probe = none;
        volume_mounts =
            record { name = text "agent-bin"; mount_path = agent_mount_path; read_only = false }
            ∷ [];
        security_context = restricted;
        resources = no_resources;
      }
      ∷ [];
  containers =
      record {
        name = text "sandbox";
        image = spec.image;
        command = agent_bin_path ∷ [];
        args = agent_args config.agent_port id pub_key;
        ports = to_int32 config.agent_port ∷ [];
        readiness_probe = some (record {
          path = text "/healthz";
          port = config.agent_port;
          initial_delay_seconds = 2;
          period_seconds = 5;
          timeout_seconds = 3;
          failure_threshold = 5;
        });
        volume_mounts =
            record { name = text "agent-bin"; mount_path = agent_mount_path; read_only = true }
            ∷ record { name = text "tmp"; mount_path = text "/tmp"; read_only = false }
            ∷ [];
        security_context = restricted;
        resources = resources_for spec;
      }
      ∷ [];
  volumes =
      record { name = text "agent-bin"; size_limit = mib agent_bin_limit_mib }
      ∷ record { name = text "tmp"; size_limit = mib spec.disk_limit_mib }
      ∷ [];
}

-- What a call of the cluster returns: an answer, an error for which `apierrors.IsNotFound` holds,
-- or another error.
pub data Reply (A : Type 0) : Type 0 where
  answer : A → Reply A
  not_found : Bytes → Reply A
  failure : Bytes → Reply A

-- How a wait ends: `ctx.Done()` with its error, or the timeout.
pub data Ending : Type 0 where
  context_done : Bytes → Ending
  timed_out : Ending

-- The world outside the control plane. `wait` says how many ticks a wait sees, and how it ends if
-- no tick ends it.
pub record Cluster : Type 1 where
  pub World : Type 0
  pub create : PodSpec → World → Reply Pod × World
  pub get_pod : Bytes → Bytes → World → Reply Pod × World
  pub delete_pod : Bytes → Bytes → World → Reply (Unit {0}) × World
  pub list_pods : Bytes → Bytes → World → Reply (List Pod) × World
  pub now : World → ℤ × World
  pub new_id : World → SandboxId × World
  pub id_string : SandboxId → Bytes
  pub wait : World → (ℕ × Ending) × World
