-- ===== src/Api.antt =====
-- api/api.go: the types on the wire. A `SandboxID` is a UUID, as the number of its 128 bits.
use lean_sandbox.Common.{ℕ, Bool, ◌==◌}
use lean_sandbox.Common.Int.{ℤ}
use lean_sandbox.Common.Text.{Bytes}

abbrev pub SandboxId : Type 0
SandboxId = ℕ

-- `func (s SandboxID) IsZero() bool`
abbrev pub is_zero : SandboxId → Bool
is_zero s = s == 0

pub record RunRequest : Type 0 where
  pub command : Bytes
  pub max_stdout : ℤ
  pub max_stderr : ℤ

pub record RunResponse : Type 0 where
  pub stdout : Bytes
  pub stderr : Bytes
  pub exit_code : ℤ
  pub stdout_path : Bytes
  pub stderr_path : Bytes

pub data EventType : Type 0 where
  stdout stderr done : EventType

-- `chunk` is the field `Data`.
pub record StreamEvent : Type 0 where
  pub type : EventType
  pub chunk : Bytes
  pub exit_code : ℤ
  pub error : Bytes

pub record SandboxRequest : Type 0 where
  pub image : Bytes
  pub timeout_seconds : ℤ

-- `api.Sandbox`
pub record SandboxView : Type 0 where
  pub id : SandboxId
  pub image : Bytes
  pub status : Bytes
  pub endpoint : Bytes
  pub access_token : Bytes
