-- ===== src/Start/Samples.antt =====
-- The pod of the sandbox 7, with small keys.
use lean_sandbox.Common.{◌≡◌, refl, none, some, List, [], ◌∷◌, inl, inr, if◌then◌else◌, ◌*◌}
use lean_sandbox.Common.Int.{pos}
use lean_sandbox.Common.Text.{Bytes, text, str_eq}
use lean_sandbox.Common.Dict.{bytes_eq}
use lean_sandbox.Config.{Config, SandboxSpec, minute, merge, with_defaults}
use lean_sandbox.Jwt.Toy.{toy}
use lean_sandbox.Jwt.Keys.{Spki, no_key, rsa_key, KeyCoder, generate_key}
use lean_sandbox.ControlPlane.Server.Toy.{office}
use lean_sandbox.Agent.Handler.Guarded.{agent_of}
use lean_sandbox.Agent.Handler.Toy.{agent}
use lean_sandbox.Start.{AgentProcess}
use lean_sandbox.Start.Plane.{
  Surroundings, Plane, flag_config, plane_listens, plane_main, parse_plane_flags, set_plane_flag,
  settings_of, load_config, new_plane, build_out_of_cluster_config,
}
use lean_sandbox.Start.Settings.{Running, plane_main-Running}
use lean_sandbox.ControlPlane.{initial}

abbrev first : Bytes → Spki toy.PublicKey
first [] = no_key (text "no data")
first (k ∷ rest) = rsa_key k

abbrev keys : KeyCoder toy
keys = record { encode = λ b. b; decode = λ b. inr b; marshal = λ k. inr (k ∷ []); parse = first }

abbrev process : AgentProcess (agent_of office [] agent)
process = record {
  keys = keys;
  executable = λ w. inr (text "/agent");
  open_source = λ path w. inr (record { bytes = text "ELF"; read_error = none });
  create_executable = λ path w. (none, w);
  parse_id = λ t. some t;
  zero_id = text "0";
}

abbrev ubuntu : SandboxSpec
ubuntu = record {
  image = text "ubuntu";
  pool_size_warm = pos 2;
  resources = record { requests = []; limits = [] };
  disk_limit_mib = pos 0;
  service_account_name = [];
}

abbrev settings : Config
settings = record {
  sandboxes = ubuntu ∷ [];
  namespace = text "opensandbox";
  agent_port = pos 9090;
  agent_image = text "agent";
  lease_ttl = pos 900000000000;
  reconcile_every = pos 0;
  token_ttl = pos 900000000000;
  wait_pod_ready_timeout = pos 0;
  wait_pod_ready_poll_interval = pos 0;
  pod_provision_grace = pos 0;
  host_aliases = [];
}

-- A file at `/c`, a cluster that can be reached, and no environment.
abbrev town_hall : Surroundings
town_hall = record {
  c = toy;
  keys = keys;
  Access = Bytes;
  Client = Bytes;
  getenv = λ name. [];
  home_dir = inr (text "/root");
  join_path = λ parts. text "/root/.kube/config";
  parse_int = λ t. none;
  parse_duration = λ t. if str_eq t (text "20m") then some (pos (20 * minute)) else none;
  read_file = λ path. if str_eq path (text "/c") then inr [] else inl (text "no such file");
  unmarshal = λ b. inr settings;
  in_cluster_config = inl (text "not in a cluster");
  build_config = λ master path. inr path;
  new_for_config = λ a. inr a;
  new_key = inr 5;
}

abbrev plane_args : List Bytes
plane_args =
    text "-ttl" ∷ text "20m" ∷ text "-api-key" ∷ text "secret" ∷ text "-config" ∷ text "/c" ∷ []

abbrev town_plane : Plane town_hall
town_plane = record {
  cp =
      initial
        (with_defaults (merge (record flag_config { lease_ttl = pos (20 * minute) }) settings))
        (5 ∷ []);
  signing_key = 5;
  client = text "/root/.kube/config";
}

town_starts :
    plane_main town_hall plane_args ≡ plane_listens (text ":8080") (text "secret") town_plane
unfolding plane_main parse_plane_flags set_plane_flag settings_of load_config new_plane
    build_out_of_cluster_config generate_key str_eq
town_starts = refl

plane_main-Running_example : Running town_hall plane_args (text ":8080") (text "secret") town_plane
plane_main-Running_example =
    plane_main-Running town_hall plane_args (text ":8080") (text "secret") town_plane town_starts
