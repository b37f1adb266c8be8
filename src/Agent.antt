-- ===== src/Agent.antt =====
-- internal/agent: the in-pod agent. `Output` models the capped capture of a stream, `Script` the
-- bash script of a run, `Export` the reading of `export -p`, `Pump` and
-- `Session` the runs of a session, `Server` the handler that serves them.
pub mod Output
pub mod Script
pub mod Export
pub mod Pump
pub mod Relay
pub mod Session
pub mod Server
pub mod Transfer
pub mod Frames
pub mod Handler
mod Samples
