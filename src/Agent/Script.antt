-- ===== src/Agent/Script.antt =====
-- internal/agent/session.go, `buildScript` and `shellEscape`: the script that a run hands to bash.
-- An environment is a list of bindings, in the order in which Go's `range` visits the map.
pub mod Quoting
use lean_sandbox.Common.{ℕ, Bool, true, false, ◌||◌, List, [], ◌∷◌, ◌++◌, ◌==◌, if◌then◌else◌}
use lean_sandbox.Common.Text.{Bytes, text, str_eq, is_empty, has_suffix}

abbrev pub Env : Type 0
Env = List (Bytes × Bytes)

abbrev pub marker_env_start : Bytes
marker_env_start = text "__LEAN_ENV_START__"

abbrev pub marker_env_end : Bytes
marker_env_end = text "__LEAN_ENV_END__"

abbrev pub marker_pwd_prefix : Bytes
marker_pwd_prefix = text "__LEAN_PWD__:"

abbrev pub marker_exit_pref : Bytes
marker_exit_pref = text "__LEAN_EXIT__:"

-- `sessionVarsNeverPersist[k]`
unfoldable pub session_vars_never_persist : Bytes → Bool
unfolding str_eq
session_vars_never_persist k =
    str_eq k (text "PS1")
    || str_eq k (text "PS2")
    || str_eq k (text "PS3")
    || str_eq k (text "PS4")
    || str_eq k (text "PROMPT_COMMAND")
    || str_eq k (text "_")
    || str_eq k (text "SHLVL")

-- `strings.ReplaceAll(s, "'", "'\\''")`
unfoldable pub replace_quotes : Bytes → Bytes
replace_quotes [] = []
replace_quotes (c ∷ s) = (if c == 39 then text "'\\''" else c ∷ []) ++ replace_quotes s

unfoldable pub shell_escape : Bytes → Bytes
unfolding replace_quotes
shell_escape s = 39 ∷ (replace_quotes s ++ 39 ∷ [])

-- the body of the loop over the environment, in front of what follows
unfoldable pub export_line : Bytes → Bytes → Bytes → Bytes
unfolding shell_escape
export_line k v rest =
    text "export " ++ (shell_escape k ++ (b'=' ∷ (shell_escape v ++ (b'\n' ∷ rest))))

unfoldable pub export_lines : Env → Bytes → Bytes
export_lines [] rest = rest
export_lines ((k, v) ∷ env) rest =
    let others = export_lines env rest in
    if session_vars_never_persist k then others else export_line k v others

unfoldable pub cd_line : Bytes → Bytes → Bytes
unfolding shell_escape
cd_line cwd rest = if is_empty cwd then rest else text "cd " ++ (shell_escape cwd ++ (b'\n' ∷ rest))

-- what follows the command: the exit code, the environment and the directory between markers
abbrev pub epilogue : Bytes
epilogue =
    text "__lean_exit=$?\n"
    ++ (text "printf '%s\\n' \""
        ++ (marker_env_start
            ++ (text "\"\n"
                ++ (text "export -p\n"
                    ++ (text "printf '%s\\n' \""
                        ++ (marker_env_end
                            ++ (text "\"\n"
                                ++ (text "printf '"
                                    ++ (marker_pwd_prefix
                                        ++ (text "%s\\n' \"$(pwd)\"\n"
                                            ++ (text "printf '"
                                                ++ (marker_exit_pref
                                                    ++ (text "%s\\n' \"$__lean_exit\"\n"
                                                        ++ text "exit $__lean_exit\n")))))))))))))

-- the command and the epilogue
unfoldable pub command_lines : Bytes → Bytes
command_lines command =
    command ++ ((if has_suffix (text "\n") command then [] else text "\n") ++ epilogue)

unfoldable pub build_script : Bytes → Env → Bytes → Bytes
unfolding export_lines export_line session_vars_never_persist cd_line command_lines
build_script command env cwd =
    text "#!/bin/bash\n" ++ export_lines env (cd_line cwd (command_lines command))
