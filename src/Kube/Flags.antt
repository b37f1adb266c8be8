-- ===== src/Kube/Flags.antt =====
-- cmd/agent/main.go: the flags of the agent, read as Go's package `flag` documents it: `-name value`
-- sets a flag, and the first argument that is no flag ends the flags.
use lean_sandbox.Common.{◌≡◌, refl, Option, none, some, List, [], ◌∷◌, if◌then◌else◌}
use lean_sandbox.Common.Int.{ℤ}
use lean_sandbox.Common.Text.{Bytes, text, str_eq}
use lean_sandbox.Kube.{itoa, agent_args}

-- the variables of `main`; the identifier is the text that `flag.TextVar` hands to the UUID
pub record AgentFlags : Type 0 where
  pub addr : Bytes
  pub sandbox_id : Bytes
  pub control_plane_pub : Bytes
  pub install_to : Bytes

abbrev pub agent_defaults : AgentFlags
agent_defaults = record {
  addr = text ":9090";
  sandbox_id = [];
  control_plane_pub = [];
  install_to = [];
}

set_flag : Bytes → Bytes → AgentFlags → Option AgentFlags
unfolding str_eq
set_flag name value f =
    if str_eq name (text "-listen")
    then some (record f { addr = value })
    else if str_eq name (text "-sandbox-id")
    then some (record f { sandbox_id = value })
    else if str_eq name (text "-controlplane-public-key")
    then some (record f { control_plane_pub = value })
    else if str_eq name (text "-install-to")
    then some (record f { install_to = value })
    else none

-- `flag.Parse()`, for arguments that are pairs of a name and a value
unfoldable pub parse_flags : AgentFlags → List Bytes → Option AgentFlags
unfolding set_flag
parse_flags f [] = some f
parse_flags f (name ∷ []) = none
parse_flags f (name ∷ value ∷ rest) = elim (set_flag name value f) [
  | none ↦ none
  | some g ↦ parse_flags g rest
]

-- The arguments that the control plane gives to the agent of a sandbox are read by the agent as
-- the port to listen on, the identifier of the sandbox and the control plane's public key; it is
-- not asked to install itself.
pub parse_flags-agent_args :
    (port : ℤ) (id key : Bytes)
    → parse_flags agent_defaults (agent_args port id key)
      ≡ some (record {
        addr = b':' ∷ itoa port;
        sandbox_id = id;
        control_plane_pub = key;
        install_to = [];
      })
unfolding parse_flags agent_args
parse_flags-agent_args port [] [] = refl
parse_flags-agent_args port [] (k ∷ key) = refl
parse_flags-agent_args port (c ∷ id) [] = refl
parse_flags-agent_args port (c ∷ id) (k ∷ key) = refl
