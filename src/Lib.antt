-- ===== src/Lib.antt =====
-- lean-sandbox: sandboxes on Kubernetes, with a control plane that keeps a pool of pods and an
-- agent in each pod that runs commands in a bash session.
--
-- The control plane (internal/controlplane) hands pods to clients, renews their leases and removes
-- them; the agent (internal/agent) runs a command by a bash script that restores the session's
-- environment and directory and prints them again at its end, and reads and writes files; the
-- client (sdk) calls the HTTP APIs of both.
--
-- Common: byte strings, integers, decimal numbers, Go maps, paths, and lemmas on lists.
-- Http, Files: what the program uses of Go's `net/http`, `encoding/json`, `os` and `path/filepath`;
-- JSON is a `Coder`, and the file system a `FileSystem` over an unknown world.
-- Api: api/api.go.
-- Config: internal/controlplane/config.go (`WithDefaults`, `Merge`, `SandboxSpec`; `LoadConfig` is
-- in `Start`).
-- ControlPlane: internal/controlplane/controlplane.go. The maps `byID` and `byImage` hold addresses
-- into a heap of sandboxes, since Go shares `*Sandbox`; each function is one stretch of code under
-- `cp.mu` (`claim_warm` of `NewSandbox`, `register`, `append_warm` of `refillWarmPool`,
-- `drop_tracked`, `keep_alive`). Interleaving has their orders as a step relation. `Pods` and
-- `Upkeep` are the operations that call the cluster (`NewSandbox`, `DeleteSandbox`, `reconcile`),
-- and the handlers of internal/controlplane/watch.go; `Town` is a small cluster for examples.
-- `Life` is `Run` and `watchPods`: a list of ticks, pod events and requests, one operation behind
-- the other, with the identifiers that requests for a new sandbox are answered with (`Told`).
-- `Server` is internal/controlplane/server.go with `mintJWT` of jwt.go: `handle` takes a
-- request and the state to an answer, the refills that it starts in the background, and the state
-- behind it.
-- Kube: internal/controlplane/kube.go, `podReady` of watch.go, and the flags of cmd/agent/main.go.
-- The Kubernetes API is the record `Cluster`, an argument of the operations. A loop that waits runs
-- for as many ticks as the cluster says come before the end of the wait.
-- Jwt: internal/jwt/jwt.go (`Sign`, `Verify`, and `GenerateKey` and `ParsePublicKey` in `Keys`).
-- Base64, JSON, SHA-256 and RSA are the record `Crypto`, and the coding of keys is a `KeyCoder`.
-- Agent: internal/agent/session.go and server.go. `Output` is the capped capture of a stream,
-- `Script` is `buildScript`, `Export` is `parseExportLine`, `Pump` is the loops over the streams,
-- `Session` is `RunRequest` with `stream` and the end of `pump`. `Relay` is a run as it goes on:
-- the two goroutines that read, `runGroup`, the end of `pump`, and the receiver of the channel of
-- 64 events take turns in any order, under a context that may end at any time (`Step`, `Run`);
-- `Feeding`, `Reading`, `Flow` and `Shuffle` are the invariant, `Ends` bounds the turns,
-- `Sequential`, `Idle` and `Settled` lead back to `RunRequest`, and `Blocked` and `LongLine` are where
-- nobody gets further. `Server` is `getOrCreate`, `handleRun` and `handleDeleteSession`, `Transfer`
-- the handlers of files, `Frames` the loop that writes events, and `Handler` the routes with
-- `authMiddleware`.
-- Tarx: internal/tarx/tarx.go. A stream is the list of what `tar.Reader.Next` returns.
-- Sdk: sdk/sandbox.go, sdk/controlplane.go and sdk/errors.go. `Planes` and `Boxes` are the calls,
-- over a `Transport`; `Events` reads the frames of a run. `Wired`, `Transfers` and `Contents` put
-- the servers in the place of the transport. A renewal that a call starts in the background is
-- returned as the identifier to renew.
-- Start: cmd/agent/main.go and cmd/controlplane/main.go up to listening, with `NewServer` of the
-- agent, `New` of the control plane, `LoadConfig` and `buildOutOfClusterConfig`; `Pod` is what the
-- containers of a pod start, and `Layers` which setting is in force. What Go's packages and those for Kubernetes answer are the records
-- `AgentProcess` and `Surroundings`. Signals, the shutdown and the serving of connections are not
-- modelled.
-- The modules `Toy` and `Town` are small instances for examples, and `Samples` has the examples.
--
-- Strings are lists of bytes, and white space is ASCII. Integers do not overflow, but where the
-- code converts or multiplies them for a pod. Times and durations are integers. The digits of a
-- number are made on fuel that is one more than the number, which is enough. The file system,
-- the operating system and time answer through arguments of the functions. The lines of a
-- script's streams are those that `bufio.Scanner` returns, and in `Relay` those that are
-- written, each ended by a line break alone. A command ends by itself once what it has still to
-- say, but for the 16 MiB that the scanner's buffer takes off each pipe, fits into the pipes,
-- and is killed once its context has ended. How bash prints a variable is an argument, with how
-- it quotes printable ASCII as a hypothesis. Children that outlive it and hold its
-- pipes open are not modelled, nor are runs of one session at the same time, logging, and
-- closing files. What `ServeMux` answers where no pattern matches, the coding of JSON and tar,
-- `uuid.Parse` and the verb `%q` are parameters; requests for a range of a file, and the
-- escaping of queries, are not modelled. Two requests are not interleaved in the model of the
-- agent.
pub mod Common
pub mod Api
pub mod Config
pub mod Kube
pub mod ControlPlane
pub mod Agent
pub mod Jwt
pub mod Http
pub mod Files
pub mod Tarx
pub mod Sdk
pub mod Start
