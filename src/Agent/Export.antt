-- ===== src/Agent/Export.antt =====
-- internal/agent/session.go, `parseExportLine` and `snapshotEnv`: reading back an environment.
pub mod Quoted
pub mod RoundTrip
use lean_sandbox.Common.{
  ℕ, Bool, true, false, Option, none, some, List, [], ◌∷◌, ◌++◌, ◌==◌, if◌then◌else◌,
}
use lean_sandbox.Common.Text.{
  Bytes, text, str_eq, is_empty, trim_prefix, cut, trim, trim_left, trim_right, trim_space,
}
use lean_sandbox.Agent.Script.{Env}

-- What `strings.NewReplacer(`\n`, "\n", `\t`, "\t", `\\`, `\`, `\"`, `"`)` writes for one byte. The
-- flag says that a backslash stands before it that is not yet written.
abbrev unescape_byte : Bool → ℕ → Bytes
unescape_byte false c = if c == b'\\' then [] else c ∷ []
unescape_byte true c =
    if c == b'n'
    then b'\n' ∷ []
    else if c == b't'
    then b'\t' ∷ []
    else if c == b'\\'
    then b'\\' ∷ []
    else if c == 34
    then 34 ∷ []
    else b'\\' ∷ c ∷ []

abbrev pending : Bool → ℕ → Bool
pending false c = c == b'\\'
pending true c = false

unescape_from : Bool → Bytes → Bytes
unescape_from false [] = []
unescape_from true [] = b'\\' ∷ []
unescape_from p (c ∷ s) = unescape_byte p c ++ unescape_from (pending p c) s

unfoldable pub unescape : Bytes → Bytes
unfolding unescape_from
unescape = unescape_from false

abbrev pub is_quote : ℕ → Bool
is_quote c = c == 34

-- the end of `parseExportLine`, from the test of `strings.Cut`
parse_binding : Option (Bytes × Bytes) → Option (Bytes × Bytes)
unfolding unescape trim_left trim_right
parse_binding none = none
parse_binding (some (k, v)) =
    let name = trim_space k in
    if is_empty name then none else some (name, unescape (trim is_quote v))

-- `parseExportLine(line)`, with `none` for `ok == false`.
unfoldable pub parse_export_line : Bytes → Option (Bytes × Bytes)
unfolding parse_binding cut
parse_export_line line =
    let trimmed = trim_space line in
    let undeclared = trim_prefix (text "declare -x ") trimmed in
    let bare = trim_prefix (text "export ") undeclared in parse_binding (cut b'=' bare)

-- m[k] = v
unfoldable pub insert : Bytes → Bytes → Env → Env
unfolding str_eq
insert k v [] = (k, v) ∷ []
insert k v ((j, w) ∷ m) = if str_eq j k then (k, v) ∷ m else (j, w) ∷ insert k v m

unfoldable pub lookup : Bytes → Env → Option Bytes
unfolding str_eq
lookup k [] = none
lookup k ((j, w) ∷ m) = if str_eq j k then some w else lookup k m

snapshot_onto : Env → List Bytes → Env
unfolding insert cut
snapshot_onto m [] = m
snapshot_onto m (kv ∷ rest) =
    snapshot_onto (elim (cut b'=' kv) [ none ↦ m | some (k, v) ↦ insert k v m ]) rest

-- `snapshotEnv(environ)`
unfoldable pub snapshot_env : List Bytes → Env
unfolding snapshot_onto
snapshot_env = snapshot_onto []
