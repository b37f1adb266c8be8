-- ===== src/Config/Samples.antt =====
-- The settings of a file over those of the flags.
use lean_sandbox.Common.{◌≡◌, refl, [], ◌∷◌, ◌*◌}
use lean_sandbox.Common.Int.{pos}
use lean_sandbox.Common.Text.{text}
use lean_sandbox.Config.{Config, SandboxSpec, merge, minute}

abbrev ubuntu : SandboxSpec
ubuntu = record {
  image = text "ubuntu";
  pool_size_warm = pos 2;
  resources = record { requests = []; limits = [] };
  disk_limit_mib = pos 0;
  service_account_name = [];
}

-- no setting given
abbrev unset : Config
unset = record {
  sandboxes = [];
  namespace = [];
  agent_port = pos 0;
  agent_image = [];
  lease_ttl = pos 0;
  reconcile_every = pos 0;
  token_ttl = pos 0;
  wait_pod_ready_timeout = pos 0;
  wait_pod_ready_poll_interval = pos 0;
  pod_provision_grace = pos 0;
  host_aliases = [];
}

-- what the flags give
abbrev flags : Config
flags = record unset {
  namespace = text "opensandbox";
  agent_port = pos 9090;
  lease_ttl = pos (15 * minute);
}

-- what a file gives
abbrev file : Config
file = record unset { sandboxes = ubuntu ∷ []; agent_port = pos 80 }

merged_port : (merge flags file).agent_port ≡ pos 80
unfolding merge
merged_port = refl
