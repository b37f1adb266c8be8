-- ===== src/Agent/Script/Quoting.antt =====
-- The prologue of a script, read back by an independent description of how a POSIX shell reads
-- words: single quotes keep every byte, a backslash keeps the next one, and a blank or a newline
-- ends a word.
use lean_sandbox.Common.{
  ℕ, zero, suc, ◌≡◌, refl, ◌∙◌, Bool, false, Option, none, some, List, [], ◌∷◌, length, ◌++◌, arith,
  ◌==◌, if◌then◌else◌, Bool-cases, ◌||◌, inl, inr,
}
use mathlib.Core.Option
use mathlib.Core.List.{append_assoc, append-nil}
use lean_sandbox.Common.Text.{Bytes, text, is_empty, cut_prefix}
use lean_sandbox.Common.Text.Laws.{cut_prefix-append}
use lean_sandbox.Agent.Script.{
  Env, session_vars_never_persist, replace_quotes, shell_escape, export_line, export_lines, cd_line,
  command_lines, build_script,
}

-- How the shell stands inside a word.
pub data Quote : Type 0 where
  bare quoted escaped : Quote

-- The shell's next state, and the bytes that one byte adds to the word.
next_quote : Quote → ℕ → Quote
next_quote bare c = if c == 39 then quoted else if c == 92 then escaped else bare
next_quote quoted c = if c == 39 then bare else quoted
next_quote escaped c = bare

word_bytes : Quote → ℕ → Bytes
word_bytes bare c = if c == 39 || c == 92 then [] else c ∷ []
word_bytes quoted c = if c == 39 then [] else c ∷ []
word_bytes escaped c = c ∷ []

ends_word : Quote → ℕ → Bool
ends_word bare c = c == 32 || c == 10
ends_word quoted c = false
ends_word escaped c = false

-- The word that begins here, and the text from the byte that ends it.
read_word_from : Quote → Bytes → Option (Bytes × Bytes)
unfolding next_quote word_bytes ends_word
read_word_from q [] = none
read_word_from q (c ∷ s) =
    let rest = Option.map (λ r. (word_bytes q c ++ r.0, r.1)) (read_word_from (next_quote q c) s) in
    if ends_word q c then some ([], c ∷ s) else rest

pub read_word : Bytes → Option (Bytes × Bytes)
unfolding read_word_from
read_word = read_word_from bare

abbrev prepend : Bytes → Option (Bytes × Bytes) → Option (Bytes × Bytes)
prepend w = Option.map (λ r. (w ++ r.0, r.1))

prepend-prepend :
    (v w : Bytes) (o : Option (Bytes × Bytes)) → prepend v (prepend w o) ≡ prepend (v ++ w) o
prepend-prepend v w none = refl
prepend-prepend v w (some r) = ground (arith, append_assoc v w r.0)

-- Inside quotes the escaped text adds the text itself, and the quote behind it closes.
read_replaced :
    (s rest : Bytes)
    → read_word_from quoted (replace_quotes s ++ 39 ∷ rest) ≡ prepend s (read_word_from bare rest)
unfolding replace_quotes read_word_from
read_replaced [] rest = refl
read_replaced (c ∷ s) rest = ground (arith, read_replaced s rest)

-- A word that holds an escaped text, and goes on with `rest`.
read_word_from-shell_escape :
    (s rest : Bytes)
    → read_word_from bare (shell_escape s ++ rest) ≡ prepend s (read_word_from bare rest)
unfolding shell_escape read_word_from
read_word_from-shell_escape s rest =
    rw (append_assoc (replace_quotes s) (39 ∷ []) rest) (ground (arith, read_replaced s rest))

-- The shell reads an escaped text, whatever bytes it holds, as one word that is the text.
pub read_word-shell_escape :
    (s rest : Bytes) → read_word (shell_escape s ++ (b'\n' ∷ rest)) ≡ some (s, b'\n' ∷ rest)
unfolding read_word
read_word-shell_escape s rest =
    read_word_from-shell_escape s (b'\n' ∷ rest) ∙ ground (arith, append-nil s)

read_word-assignment :
    (k v rest : Bytes)
    → read_word (shell_escape k ++ (b'=' ∷ (shell_escape v ++ (b'\n' ∷ rest))))
      ≡ some (k ++ b'=' ∷ v, b'\n' ∷ rest)
unfolding read_word
read_word-assignment k v rest =
    read_word_from-shell_escape k (b'=' ∷ (shell_escape v ++ (b'\n' ∷ rest)))
    ∙ ground (arith, read_word_from-shell_escape v (b'\n' ∷ rest), append-nil v)

-- A line of the prologue, as the shell reads it.
pub data Line : Type 0 where
  exports changes_to : Bytes → Line

-- A line of one command and one word.
read_command : (Bytes → Line) → Bytes → Bytes → Option (Line × Bytes)
unfolding read_word cut_prefix
read_command f name s = elim (cut_prefix name s) [
  | none ↦ none
  | some args ↦ elim (read_word args) [
    | none ↦ none
    | some (w, after) ↦ Option.map (λ rest. (f w, rest)) (cut_prefix (text "\n") after)
  ]
]

-- The lines at the front of a text that export a word or change the directory, in a row, at most
-- `fuel` many, and the text behind them.
pub read_lines : ℕ → Bytes → List Line × Bytes
unfolding read_command
read_lines zero s = ([], s)
read_lines (suc fuel) s = elim (read_command exports (text "export ") s) [
  | some (l, rest) ↦ let r = read_lines fuel rest in (l ∷ r.0, r.1)
  | none ↦ elim (read_command changes_to (text "cd ") s) [
    | some (l, rest) ↦ let r = read_lines fuel rest in (l ∷ r.0, r.1)
    | none ↦ ([], s)
  ]
]

read_command-export_line :
    (k v rest : Bytes)
    → read_command exports (text "export ") (export_line k v rest)
      ≡ some (exports (k ++ b'=' ∷ v), rest)
unfolding read_command export_line
read_command-export_line k v rest = ground (
  arith,
  cut_prefix-append (text "export ")
      (shell_escape k ++ (b'=' ∷ (shell_escape v ++ (b'\n' ∷ rest)))),
  read_word-assignment k v rest,
)

read_command-cd_line :
    (cwd rest : Bytes)
    → is_empty cwd ≡ false
    → (read_command exports (text "export ") (cd_line cwd rest) ≡ none)
      × (read_command changes_to (text "cd ") (cd_line cwd rest) ≡ some (changes_to cwd, rest))
unfolding read_command cd_line
read_command-cd_line cwd rest h = (
  ground (arith, h),
  ground (
    arith,
    cut_prefix-append (text "cd ") (shell_escape cwd ++ (b'\n' ∷ rest)),
    read_word-shell_escape cwd rest,
  ),
)

-- What a script must restore: each variable that persists, then the directory, if one is known.
abbrev pub restores_cwd : Bytes → List Line
restores_cwd cwd = if is_empty cwd then [] else changes_to cwd ∷ []

abbrev pub restores : Env → Bytes → List Line
restores [] cwd = restores_cwd cwd
restores ((k, v) ∷ env) cwd =
    if session_vars_never_persist k
    then restores env cwd
    else exports (k ++ b'=' ∷ v) ∷ restores env cwd

read_lines-cd_line :
    (cwd rest : Bytes)
    → read_lines (length (restores_cwd cwd)) (cd_line cwd rest) ≡ (restores_cwd cwd, rest)
unfolding read_lines
read_lines-cd_line cwd rest = elim (Bool-cases (is_empty cwd)) [
  | inl e ↦ unfold cd_line in ground (arith, e)
  | inr e ↦ ground (arith, e, read_command-cd_line cwd rest e)
]

read_lines-export_lines :
    (env : Env) (cwd rest : Bytes)
    → read_lines (length (restores env cwd)) (export_lines env (cd_line cwd rest))
      ≡ (restores env cwd, rest)
unfolding read_lines export_lines
read_lines-export_lines [] cwd rest = read_lines-cd_line cwd rest
read_lines-export_lines ((k, v) ∷ env) cwd rest = elim (Bool-cases (session_vars_never_persist k)) [
  | inl e ↦ rw e (read_lines-export_lines env cwd rest)
  | inr e ↦ rw e (
      ground (
        arith,
        read_command-export_line k v (export_lines env (cd_line cwd rest)),
        read_lines-export_lines env cwd rest,
      ))
]

-- Behind the first line of a script the shell finds, in this order, an export of every variable of
-- the session that persists, with its value whatever bytes that holds, and a change to its
-- directory; then comes the command as it was given, and the epilogue.
pub read_lines-build_script :
    (command : Bytes) (env : Env) (cwd : Bytes)
    → (body : Bytes) × (build_script command env cwd ≡ text "#!/bin/bash\n" ++ body)
      × (read_lines (length (restores env cwd)) body ≡ (restores env cwd, command_lines command))
unfolding build_script
read_lines-build_script command env cwd = (
  export_lines env (cd_line cwd (command_lines command)),
  refl,
  read_lines-export_lines env cwd (command_lines command),
)
