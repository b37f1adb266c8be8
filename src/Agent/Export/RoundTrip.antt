-- ===== src/Agent/Export/RoundTrip.antt =====
-- `parseExportLine` and a shell that prints its variables as `export -p` of bash does: the round trip,
-- and the values that it loses.
use lean_sandbox.Common.{ℕ, ◌≤◌, ◌≡◌, All}
use lean_sandbox.Common.Text.{Bytes}
use lean_sandbox.Agent.Export.Quoted.{declare_line}

-- A printable ASCII byte.
abbrev pub IsPrintable : ℕ → Type 0
IsPrintable c = (32 ≤ c) × (c ≤ 126)

-- What is known of a shell that prints a variable with this name and this value.
abbrev pub Prints : (Bytes → Bytes → Bytes) → Type 0
Prints shell = (k v : Bytes) → All IsPrintable v → shell k v ≡ declare_line k v
