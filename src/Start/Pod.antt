-- ===== src/Start/Pod.antt =====
-- What the containers of a sandbox's pod come to: the agent that they start, and the requests that it
-- serves.
use lean_sandbox.Common.{List, [], ◌∷◌, ◌++◌}
use lean_sandbox.Common.Text.{Bytes}
use lean_sandbox.Config.{Config}
use lean_sandbox.Kube.{Container}

-- `os.Args[1:]` of the process that a container starts: its command with its arguments behind it
abbrev pub behind_first : List Bytes → List Bytes
behind_first [] = []
behind_first (name ∷ args) = args

abbrev pub process_args : Container → List Bytes
process_args c = behind_first (c.command ++ c.args)
