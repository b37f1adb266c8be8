-- ===== src/Start/Plane.antt =====
-- cmd/controlplane/main.go, `LoadConfig` of internal/controlplane/config.go, `New` of
-- internal/controlplane/controlplane.go and `buildOutOfClusterConfig` of kube.go: what the process of
-- the control plane does up to listening.
use lean_sandbox.Common.{Option, none, some, List, [], ◌∷◌, ◌++◌, ◌*◌, ◌⊎◌, inl, inr, if◌then◌else◌}
use lean_sandbox.Common.Int.{ℤ, pos}
use lean_sandbox.Common.Text.{Bytes, text, str_eq, is_empty}
use lean_sandbox.Config.{Config, minute, merge, with_defaults}
use lean_sandbox.Jwt.{Crypto}
use lean_sandbox.Jwt.Keys.{KeyCoder, generate_key}
use lean_sandbox.ControlPlane.{ControlPlane, initial}

-- the variables of `main`
pub record PlaneFlags : Type 0 where
  pub addr : Bytes
  pub api_key : Bytes
  pub config_path : Bytes
  pub config : Config

-- What `main` calls of Go's packages and of those for Kubernetes: an error is its text. `Client` is
-- the `kubernetes.Interface`, and `Access` the `rest.Config`.
pub record Surroundings : Type 1 where
  pub c : Crypto
  pub keys : KeyCoder c
  pub Access : Type 0
  pub Client : Type 0
  -- `os.Getenv`, for "CONFIG_PATH" and "KUBECONFIG", and `os.UserHomeDir()`
  pub getenv : Bytes → Bytes
  pub home_dir : Bytes ⊎ Bytes
  -- `filepath.Join`
  pub join_path : List Bytes → Bytes
  -- `strconv.ParseInt` of `flag.IntVar`, and `time.ParseDuration`
  pub parse_int : Bytes → Option ℤ
  pub parse_duration : Bytes → Option ℤ
  -- `os.Open` with what the file holds, and `json.UnmarshalRead`
  pub read_file : Bytes → Bytes ⊎ Bytes
  pub unmarshal : Bytes → Bytes ⊎ Config
  pub in_cluster_config : Bytes ⊎ Access
  -- `clientcmd.BuildConfigFromFlags`
  pub build_config : Bytes → Bytes → Bytes ⊎ Access
  -- `kubernetes.NewForConfig`
  pub new_for_config : Access → Bytes ⊎ Client
  -- `rsa.GenerateKey(rand.Reader, 2048)`
  pub new_key : Bytes ⊎ c.PrivateKey

-- the zero value of a `Config`, with the defaults of the flags
abbrev pub flag_config : Config
flag_config = record {
  sandboxes = [];
  namespace = text "opensandbox";
  agent_port = pos 9090;
  agent_image = [];
  lease_ttl = pos (15 * minute);
  reconcile_every = pos 0;
  token_ttl = pos 0;
  wait_pod_ready_timeout = pos 0;
  wait_pod_ready_poll_interval = pos 0;
  pod_provision_grace = pos 0;
  host_aliases = [];
}

-- What `New` returns: the maps, with the key that signs and the client.
pub record Plane (u : Surroundings) : Type 0 where
  pub cp : ControlPlane
  pub signing_key : u.c.PrivateKey
  pub client : u.Client

-- How the process goes on: it exits with an error of the flags, or with another, or it listens on an
-- address, with the key that requests have to carry.
pub data PlaneCourse (u : Surroundings) : Type 0 where
  bad_plane_flags : PlaneCourse u
  fails : Bytes → PlaneCourse u
  plane_listens : Bytes → Bytes → Plane u → PlaneCourse u

module _ (u : Surroundings) where
  abbrev pub plane_defaults : PlaneFlags
  plane_defaults = record {
    addr = text ":8080";
    api_key = [];
    config_path = u.getenv (text "CONFIG_PATH");
    config = flag_config;
  }

  abbrev set_port : PlaneFlags → Option ℤ → Option PlaneFlags
  set_port f none = none
  set_port f (some n) = some (record f { config = record (f.config) { agent_port = n } })

  abbrev set_ttl : PlaneFlags → Option ℤ → Option PlaneFlags
  set_ttl f none = none
  set_ttl f (some n) = some (record f { config = record (f.config) { lease_ttl = n } })

  unfoldable pub set_plane_flag : Bytes → Bytes → PlaneFlags → Option PlaneFlags
  set_plane_flag name value f =
      if str_eq name (text "-listen")
      then some (record f { addr = value })
      else if str_eq name (text "-api-key")
      then some (record f { api_key = value })
      else if str_eq name (text "-namespace")
      then some (record f { config = record (f.config) { namespace = value } })
      else if str_eq name (text "-agent-port")
      then set_port f (u.parse_int value)
      else if str_eq name (text "-agent-image")
      then some (record f { config = record (f.config) { agent_image = value } })
      else if str_eq name (text "-ttl")
      then set_ttl f (u.parse_duration value)
      else if str_eq name (text "-config")
      then some (record f { config_path = value })
      else none

  -- `flag.Parse()`, for arguments that are pairs of a flag and its value
  unfoldable pub parse_plane_flags : PlaneFlags → List Bytes → Option PlaneFlags
  parse_plane_flags f [] = some f
  parse_plane_flags f (name ∷ []) = none
  parse_plane_flags f (name ∷ value ∷ rest) = elim (set_plane_flag name value f) [
    | none ↦ none
    | some g ↦ parse_plane_flags g rest
  ]

  abbrev read_config : Bytes ⊎ Bytes → Bytes ⊎ Config
  read_config (inl e) = inl e
  read_config (inr b) = u.unmarshal b

  -- `func LoadConfig(path string) (Config, error)`
  unfoldable pub load_config : Bytes → Bytes ⊎ Config
  load_config path = read_config (u.read_file path)

  abbrev pub laid_over : PlaneFlags → Bytes ⊎ Config → Bytes ⊎ Config
  laid_over f (inl e) = inl (text "load config " ++ (f.config_path ++ (text ": " ++ e)))
  laid_over f (inr c) = inr (with_defaults (merge f.config c))

  -- the configuration that `main` hands to `New`
  unfoldable pub settings_of : PlaneFlags → Bytes ⊎ Config
  settings_of f =
      if is_empty f.config_path
      then inr (with_defaults f.config)
      else laid_over f (load_config f.config_path)

  abbrev below_home : Bytes ⊎ Bytes → Bytes ⊎ u.Access
  below_home (inl e) = inl e
  below_home (inr home) = u.build_config [] (u.join_path (home ∷ text ".kube" ∷ text "config" ∷ []))

  -- `func buildOutOfClusterConfig() (*rest.Config, error)`
  unfoldable pub build_out_of_cluster_config : Bytes ⊎ u.Access
  build_out_of_cluster_config =
      let kubeconfig = u.getenv (text "KUBECONFIG") in
      if is_empty kubeconfig then below_home u.home_dir else u.build_config [] kubeconfig

  abbrev pub access : Bytes ⊎ u.Access → Bytes ⊎ u.Access
  access (inr a) = inr a
  access (inl e) = build_out_of_cluster_config

  abbrev pub keyed : Config → u.Client → Bytes ⊎ (u.c.PrivateKey × Bytes) → Bytes ⊎ Plane u
  keyed config client (inl e) = inl (text "generate signing key: " ++ e)
  keyed config client (inr (key, b64)) =
      inr (record { cp = initial config b64; signing_key = key; client = client })

  abbrev pub connected : Config → Bytes ⊎ u.Client → Bytes ⊎ Plane u
  connected config (inl e) = inl (text "kubernetes client: " ++ e)
  connected config (inr client) = keyed config client (generate_key u.keys u.new_key)

  abbrev pub accessed : Config → Bytes ⊎ u.Access → Bytes ⊎ Plane u
  accessed config (inl e) = inl (text "kubernetes config: " ++ e)
  accessed config (inr a) = connected config (u.new_for_config a)

  -- `func New(config Config) (*ControlPlane, error)`
  unfoldable pub new_plane : Config → Bytes ⊎ Plane u
  new_plane config = accessed config (access u.in_cluster_config)

  abbrev pub over_plane : PlaneFlags → Bytes ⊎ Plane u → PlaneCourse u
  over_plane f (inl e) = fails e
  over_plane f (inr p) = plane_listens f.addr f.api_key p

  abbrev pub over_settings : PlaneFlags → Bytes ⊎ Config → PlaneCourse u
  over_settings f (inl e) = fails e
  over_settings f (inr config) = over_plane f (new_plane config)

  abbrev pub over_flags : Option PlaneFlags → PlaneCourse u
  over_flags none = bad_plane_flags
  over_flags (some f) = over_settings f (settings_of f)

  -- `func main()`, with the arguments of the process
  unfoldable pub plane_main : List Bytes → PlaneCourse u
  plane_main args = over_flags (parse_plane_flags plane_defaults args)
