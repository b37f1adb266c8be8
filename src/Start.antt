-- ===== src/Start.antt =====
-- cmd/agent/main.go and `NewServer` of internal/agent/server.go: what the agent's process does up to
-- listening. The server that listens is the machine of Agent/Handler.antt, with its identifier and
-- its key.
pub mod Pod
pub mod Plane
pub mod Layers
pub mod Settings
mod Samples
use lean_sandbox.Common.{
  Bool, true, false, Option, none, some, List, [], ◌∷◌, ◌++◌, ◌⊎◌, inl, inr, if◌then◌else◌,
}
use lean_sandbox.Common.Text.{Bytes, text, is_empty}
use lean_sandbox.Files.{Source, FileSystem}
use lean_sandbox.Jwt.Keys.{KeyCoder, parse_public_key}
use lean_sandbox.Kube.Flags.{AgentFlags, agent_defaults, parse_flags}
use lean_sandbox.Agent.Handler.{Machine}

-- What `main` calls besides: of `os`, of the packages for keys, and of the package for UUIDs.
pub record AgentProcess (m : Machine) : Type 0 where
  pub keys : KeyCoder m.c
  -- `os.Executable()`, and `os.Open`: an error or what there is
  pub executable : m.fs.World → Bytes ⊎ Bytes
  pub open_source : Bytes → m.fs.World → Bytes ⊎ Source
  -- `os.OpenFile(dst, os.O_CREATE|os.O_WRONLY|os.O_TRUNC, 0o755)`
  pub create_executable : Bytes → m.fs.World → Option Bytes × m.fs.World
  -- `sandboxID.UnmarshalText`, as the text of the identifier; and the text of the zero identifier
  pub parse_id : Bytes → Option Bytes
  pub zero_id : Bytes

-- How the process goes on: it exits with an error of the flags, of `installSelf` or of `NewServer`,
-- it has installed itself, or it listens on an address.
pub data Course : Type 1 where
  bad_flags : Course
  install_failed : Bytes → Course
  installed : Course
  server_failed : Bytes → Course
  listens : Bytes → Machine → Course

module _ (m : Machine) (p : AgentProcess m) where
  abbrev copied_to : Bytes → Source → Option Bytes × m.fs.World → Option Bytes × m.fs.World
  copied_to dst src (some e, w) = (some e, w)
  copied_to dst src (none, w) = m.fs.write dst src w

  abbrev parent_made : Bytes → Source → Option Bytes × m.fs.World → Option Bytes × m.fs.World
  parent_made dst src (some e, w) = (some e, w)
  parent_made dst src (none, w) = copied_to dst src (p.create_executable dst w)

  abbrev opened : Bytes → Bytes ⊎ Source → m.fs.World → Option Bytes × m.fs.World
  opened dst (inl e) w = (some e, w)
  opened dst (inr src) w = parent_made dst src (m.fs.mkdir_dir dst w)

  abbrev found : Bytes → Bytes ⊎ Bytes → m.fs.World → Option Bytes × m.fs.World
  found dst (inl e) w = (some e, w)
  found dst (inr exe) w = opened dst (p.open_source exe w) w

  -- `func installSelf(dst string) error`
  unfoldable pub install_self : Bytes → m.fs.World → Option Bytes × m.fs.World
  install_self dst w = found dst (p.executable w) w

  abbrev with_key : Bytes → Bytes ⊎ m.c.PublicKey → Bytes ⊎ Machine
  with_key id (inl e) = inl e
  with_key id (inr key) = inr (record m { id = id; pub_key = some key })

  -- `func NewServer(sandboxID api.SandboxID, publicKeyB64 string) (*Server, error)`
  unfoldable pub new_server : Bytes → Bytes → Bytes ⊎ Machine
  new_server id b64 =
      if is_empty b64
      then inr (record m { id = id; pub_key = none })
      else with_key id (parse_public_key p.keys b64)

  -- `flag.TextVar(&sandboxID, "sandbox-id", …)`, for a flag that is not empty where it is given
  abbrev id_of : Bytes → Option Bytes
  id_of [] = some p.zero_id
  id_of (b ∷ bs) = p.parse_id (b ∷ bs)

  abbrev pub after_install : Option Bytes × m.fs.World → Course × m.fs.World
  after_install (some e, w) = (install_failed (text "install: " ++ e), w)
  after_install (none, w) = (installed, w)

  abbrev pub serving : Bytes → Bytes ⊎ Machine → m.fs.World → Course × m.fs.World
  serving addr (inl e) w = (server_failed (text "agent server: " ++ e), w)
  serving addr (inr a) w = (listens addr a, w)

  abbrev pub identified : AgentFlags → Option Bytes → m.fs.World → Course × m.fs.World
  identified f none w = (bad_flags, w)
  identified f (some id) w =
      if is_empty f.install_to
      then serving f.addr (new_server id f.control_plane_pub) w
      else after_install (install_self f.install_to w)

  abbrev pub with_flags : Option AgentFlags → m.fs.World → Course × m.fs.World
  with_flags none w = (bad_flags, w)
  with_flags (some f) w = identified f (id_of f.sandbox_id) w

  -- `func main()`, with the arguments of the process
  unfoldable pub agent_main : List Bytes → m.fs.World → Course × m.fs.World
  agent_main args w = with_flags (parse_flags agent_defaults args) w
