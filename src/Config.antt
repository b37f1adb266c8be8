-- ===== src/Config.antt =====
-- internal/controlplane/config.go: the settings of the control plane. Durations are numbers of
-- nanoseconds.
pub mod Layers
mod Samples
use lean_sandbox.Common.{
  ℕ, Bool, true, false, not, Option, none, some, List, [], ◌∷◌, map, ◌*◌, if◌then◌else◌,
}
use lean_sandbox.Common.Int.{ℤ, pos, is_zero}
use lean_sandbox.Common.Text.{Bytes, text, str_eq, is_empty}
use lean_sandbox.Common.Dict.{Dict}

-- `resource.Quantity`, by the two ways in which the program makes one: `resource.MustParse` and
-- `resource.NewQuantity(v, resource.BinarySI)`.
pub data Quantity : Type 0 where
  parsed : Bytes → Quantity
  binary_si : ℤ → Quantity

-- `corev1.ResourceRequirements`, as far as the program reads it
pub record Resources : Type 0 where
  pub requests : Dict Bytes Quantity
  pub limits : Dict Bytes Quantity

-- `corev1.HostAlias`
pub record HostAlias : Type 0 where
  pub ip : Bytes
  pub hostnames : List Bytes

pub record SandboxSpec : Type 0 where
  pub image : Bytes
  pub pool_size_warm : ℤ
  pub resources : Resources
  pub disk_limit_mib : ℤ
  pub service_account_name : Bytes

pub record Config : Type 0 where
  pub sandboxes : List SandboxSpec
  pub namespace : Bytes
  pub agent_port : ℤ
  pub agent_image : Bytes
  pub lease_ttl : ℤ
  pub reconcile_every : ℤ
  pub token_ttl : ℤ
  pub wait_pod_ready_timeout : ℤ
  pub wait_pod_ready_poll_interval : ℤ
  pub pod_provision_grace : ℤ
  pub host_aliases : List HostAlias

abbrev pub second : ℕ
second = 1000000000

abbrev pub minute : ℕ
minute = 60 * second

-- `if s.X == 0 { s.X = d }`
abbrev pub or_default : ℤ → ℕ → ℤ
or_default x d = if is_zero x then pos d else x

-- `func (s SandboxSpec) WithDefaults() SandboxSpec`
unfoldable pub spec_with_defaults : SandboxSpec → SandboxSpec
spec_with_defaults s = record s { disk_limit_mib = or_default s.disk_limit_mib 256 }

-- `func (s Config) WithDefaults() Config`
unfoldable pub with_defaults : Config → Config
with_defaults s = record s {
  namespace = if is_empty s.namespace then text "sandbox" else s.namespace;
  agent_port = or_default s.agent_port 9090;
  reconcile_every = or_default s.reconcile_every (30 * second);
  lease_ttl = or_default s.lease_ttl (15 * minute);
  token_ttl = or_default s.token_ttl (15 * minute);
  wait_pod_ready_timeout = or_default s.wait_pod_ready_timeout (3 * minute);
  wait_pod_ready_poll_interval = or_default s.wait_pod_ready_poll_interval (2 * second);
  pod_provision_grace = or_default s.pod_provision_grace (5 * minute);
  sandboxes = map spec_with_defaults s.sandboxes;
}

-- `if other.X != 0 { c.X = other.X }`, and the same for a string and a list
abbrev pub over : ℤ → ℤ → ℤ
over c other = if is_zero other then c else other

abbrev pub over_text : Bytes → Bytes → Bytes
over_text c other = if is_empty other then c else other

abbrev pub over_list : {A : Type 0} → List A → List A → List A
over_list c [] = c
over_list c (x ∷ xs) = x ∷ xs

-- `func (c Config) Merge(other Config) Config`
unfoldable pub merge : Config → Config → Config
merge c other = record {
  namespace = over_text c.namespace other.namespace;
  agent_port = over c.agent_port other.agent_port;
  agent_image = over_text c.agent_image other.agent_image;
  lease_ttl = over c.lease_ttl other.lease_ttl;
  reconcile_every = over c.reconcile_every other.reconcile_every;
  token_ttl = over c.token_ttl other.token_ttl;
  wait_pod_ready_timeout = over c.wait_pod_ready_timeout other.wait_pod_ready_timeout;
  wait_pod_ready_poll_interval =
      over c.wait_pod_ready_poll_interval other.wait_pod_ready_poll_interval;
  pod_provision_grace = over c.pod_provision_grace other.pod_provision_grace;
  sandboxes = over_list c.sandboxes other.sandboxes;
  host_aliases = over_list c.host_aliases other.host_aliases;
}

find_spec : List SandboxSpec → Bytes → Option SandboxSpec
unfolding spec_with_defaults str_eq
find_spec [] image = none
find_spec (s ∷ rest) image =
    if str_eq s.image image then some (spec_with_defaults s) else find_spec rest image

-- `func (c Config) SandboxSpec(image string) (spec SandboxSpec, ok bool)`
unfoldable pub sandbox_spec : Config → Bytes → Option SandboxSpec
unfolding find_spec
sandbox_spec c = find_spec c.sandboxes
