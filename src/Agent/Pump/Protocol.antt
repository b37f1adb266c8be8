-- ===== src/Agent/Pump/Protocol.antt =====
-- What the loop over stdout makes of the output of a script: lines of the command, the marker of
-- the environment, the output of `export -p`, its end, the directory and the exit code.
use lean_sandbox.Common.{
  ℕ, ◌≡◌, refl, ap, ◌∙◌, Bool, true, false, none, some, List, [], ◌∷◌, ◌++◌, map, arith,
  if◌then◌else◌, Bool-cases, All, length, length-append, inl, inr,
}
use lean_sandbox.Common.Text.{Bytes, is_empty, str_eq, cut_prefix, cut_suffix}
use lean_sandbox.Common.Text.Laws.{str_eq_iff, str_eq_refl, cut_prefix-append}
use lean_sandbox.Api.{EventType}
use lean_sandbox.Agent.Output.{Output, Disk, fresh, add, add_all}
use lean_sandbox.Agent.Script.{
  Env, marker_env_start, marker_env_end, marker_pwd_prefix, marker_exit_pref,
}
use lean_sandbox.Agent.Pump.{
  Arrival, Sink, Scan, forward, start_scan, export_into, scan_line, scan_stdout,
}

longer-ne : (c : ℕ) (p s : Bytes) → str_eq (c ∷ p ++ s) s ≡ false
longer-ne c p s = elim (Bool-cases (str_eq (c ∷ p ++ s) s)) [
  | inl e ↦ absurd (omega (arith, ap length ((str_eq_iff (c ∷ p ++ s) s).0 e), length-append p s))
  | inr e ↦ e
]

cut_suffix-append : (s p : Bytes) → cut_suffix s (p ++ s) ≡ some p
unfolding cut_suffix
cut_suffix-append [] [] = refl
cut_suffix-append (d ∷ s) [] = rw (str_eq_refl (d ∷ s))
cut_suffix-append s (c ∷ p) = rw (longer-ne c p s, cut_suffix-append s p)

-- A line that neither begins nor ends the environment.
abbrev pub IsInner : Arrival → Type 0
IsInner a = (cut_suffix marker_env_start a.line ≡ none) × (str_eq a.line marker_env_end ≡ false)

-- A line of the command's own output: it is none of the markers, and its event is delivered.
abbrev pub IsOutput : Arrival → Type 0
IsOutput a =
    (cut_suffix marker_env_start a.line ≡ none)
    × (str_eq a.line marker_env_end ≡ false)
    × (cut_prefix marker_pwd_prefix a.line ≡ none)
    × (cut_prefix marker_exit_pref a.line ≡ none)
    × (a.delivered ≡ true)

abbrev pub captured : List Arrival → List (Disk × Bytes)
captured = map λ a. (a.disk, a.line)

abbrev pub read_env : Env → List Arrival → Env
read_env m [] = m
read_env m (a ∷ rest) = read_env (export_into m a.line) rest

-- Where the loop stands.
pub record At (s : Scan) (in_env : Bool) (env : Env) (pwd : Bytes) (out : Output) : Type 0 where
  pub at_env : s.in_env ≡ in_env
  pub has_env : s.env_out ≡ env
  pub has_pwd : s.pwd_out ≡ pwd
  pub has_out : s.sink.out ≡ out
  pub goes_on : s.sink.cancelled ≡ false

forward-out :
    (t : EventType) (a : Arrival) (l : Bytes) (s : Sink)
    → (forward t a l s).out ≡ add a.disk s.out l
unfolding forward
forward-out t a l s = ground arith

forward-cancelled :
    (t : EventType) (a : Arrival) (l : Bytes) (s : Sink)
    → a.delivered ≡ true
    → (forward t a l s).cancelled ≡ s.cancelled
unfolding forward
forward-cancelled t a l s h = ground arith

pwd-ne-end : (dir : Bytes) → str_eq (marker_pwd_prefix ++ dir) marker_env_end ≡ false
unfolding str_eq
pwd-ne-end dir = refl

exit-ne-end : (exit : Bytes) → str_eq (marker_exit_pref ++ exit) marker_env_end ≡ false
unfolding str_eq
exit-ne-end exit = refl

exit-ne-pwd : (exit : Bytes) → cut_prefix marker_pwd_prefix (marker_exit_pref ++ exit) ≡ none
unfolding cut_prefix
exit-ne-pwd exit = refl

scan_stdout_cancelled :
    (s : Scan) (xs : List Arrival) → s.sink.cancelled ≡ true → s ≡ scan_stdout s xs
unfolding scan_stdout
scan_stdout_cancelled s [] e = refl
scan_stdout_cancelled s (a ∷ xs) e = rw e

module _ {s : Scan} {b : Bool} {env : Env} {pwd : Bytes} {out : Output} (h : At s b env pwd out)
    (a : Arrival) where
  scan_line_output :
      b ≡ false → IsOutput a → At (scan_line s a) false env pwd (add a.disk out a.line)
  unfolding scan_line
  scan_line_output e o = ground (
    arith,
    h,
    o,
    forward-out EventType.stdout a a.line s.sink,
    forward-cancelled EventType.stdout a a.line s.sink,
  )

  scan_line_inner : b ≡ true → IsInner a → At (scan_line s a) true (export_into env a.line) pwd out
  unfolding scan_line
  scan_line_inner e o = ground (arith, h, o)

  scan_line_start :
      (p : Bytes)
      → a.line ≡ p ++ marker_env_start
      → a.delivered ≡ true
      → At (scan_line s a) true env pwd (if is_empty p then out else add a.disk out p)
  unfolding scan_line
  scan_line_start p e d = ground (
    arith,
    h,
    cut_suffix-append marker_env_start p,
    forward-out EventType.stdout a p s.sink,
    forward-cancelled EventType.stdout a p s.sink,
  )

  scan_line_end : a.line ≡ marker_env_end → At (scan_line s a) false env pwd out
  unfolding scan_line cut_suffix str_eq
  scan_line_end e = rw e (ground (arith, h))

  scan_line_pwd :
      (dir : Bytes)
      → b ≡ false
      → a.line ≡ marker_pwd_prefix ++ dir
      → cut_suffix marker_env_start a.line ≡ none
      → At (scan_line s a) false env dir out
  unfolding scan_line
  scan_line_pwd dir f e n =
      ground (arith, h, n, pwd-ne-end dir, cut_prefix-append marker_pwd_prefix dir)

  scan_line_exit :
      (exit : Bytes)
      → b ≡ false
      → a.line ≡ marker_exit_pref ++ exit
      → cut_suffix marker_env_start a.line ≡ none
      → At (scan_line s a) false env pwd out
  unfolding scan_line
  scan_line_exit exit f e n =
      ground
        (arith, h, n, exit-ne-end exit, exit-ne-pwd exit, cut_prefix-append marker_exit_pref exit)

scan_stdout-append :
    (s : Scan) (xs ys : List Arrival) → scan_stdout s (xs ++ ys) ≡ scan_stdout (scan_stdout s xs) ys
unfolding scan_stdout
scan_stdout-append s [] ys = refl
scan_stdout-append s (a ∷ xs) ys = elim (Bool-cases s.sink.cancelled) [
  | inl e ↦ simp e (scan_stdout_cancelled s ys e)
  | inr e ↦ simp e (scan_stdout-append (scan_line s a) xs ys)
]

scan_stdout-cons :
    (s : Scan) (a : Arrival) (xs : List Arrival)
    → s.sink.cancelled ≡ false
    → scan_stdout s (a ∷ xs) ≡ scan_stdout (scan_line s a) xs
unfolding scan_stdout
scan_stdout-cons s a xs e = rw e

scan_stdout_output :
    {env : Env} {pwd : Bytes} (s : Scan) (out : Output) (xs : List Arrival)
    → At s false env pwd out
    → All IsOutput xs
    → At (scan_stdout s xs) false env pwd (add_all out (captured xs))
unfolding add_all
scan_stdout_output s out [] h o = unfold scan_stdout in h
scan_stdout_output s out (a ∷ xs) h o = rw (scan_stdout-cons s a xs h.goes_on) (
    scan_stdout_output (scan_line s a) (add a.disk out a.line) xs (scan_line_output h a refl o.0)
      o.1)

scan_stdout_inner :
    {pwd : Bytes} {out : Output} (s : Scan) (env : Env) (xs : List Arrival)
    → At s true env pwd out
    → All IsInner xs
    → At (scan_stdout s xs) true (read_env env xs) pwd out
scan_stdout_inner s env [] h o = unfold scan_stdout in h
scan_stdout_inner s env (a ∷ xs) h o = rw (scan_stdout-cons s a xs h.goes_on) (
    scan_stdout_inner (scan_line s a) (export_into env a.line) xs (scan_line_inner h a refl o.0)
      o.1)

start-At : (max : ℕ) → At (start_scan max) false [] [] (fresh max)
start-At max = record {
  at_env = refl;
  has_env = refl;
  has_pwd = refl;
  has_out = refl;
  goes_on = refl;
}

-- The output of a script, as the lines of its parts.
pub record Transcript : Type 0 where
  -- what the command writes, but for a last line with no newline
  pub output : List Arrival
  pub last_line : Bytes
  pub starts : Arrival
  pub exported : List Arrival
  pub ends : Arrival
  pub directory : Arrival
  pub exit : Arrival

abbrev pub lines : Transcript → List Arrival
lines t = t.output ++ (t.starts ∷ (t.exported ++ (t.ends ∷ t.directory ∷ t.exit ∷ [])))

-- The lines are those that the epilogue of the script prints, for the directory `dir` and the exit
-- code `code`, and the markers stand nowhere else.
pub record IsTranscript (t : Transcript) (dir code : Bytes) : Type 0 where
  pub output_plain : All IsOutput t.output
  pub starts_line : t.starts.line ≡ t.last_line ++ marker_env_start
  pub starts_sent : t.starts.delivered ≡ true
  pub exported_plain : All IsInner t.exported
  pub ends_line : t.ends.line ≡ marker_env_end
  pub directory_line : t.directory.line ≡ marker_pwd_prefix ++ dir
  pub directory_plain : cut_suffix marker_env_start t.directory.line ≡ none
  pub exit_line : t.exit.line ≡ marker_exit_pref ++ code
  pub exit_plain : cut_suffix marker_env_start t.exit.line ≡ none

-- The command's own lines: those in front of the marker, and the one that shares its line with it.
abbrev pub own_lines : Transcript → List (Disk × Bytes)
own_lines t =
    captured t.output ++ (if is_empty t.last_line then [] else (t.starts.disk, t.last_line) ∷ [])

add_all-append :
    (o : Output) (xs ys : List (Disk × Bytes)) → add_all o (xs ++ ys) ≡ add_all (add_all o xs) ys
unfolding add_all
add_all-append o [] ys = refl
add_all-append o ((d, l) ∷ xs) ys = add_all-append (add d o l) xs ys

add_all_last :
    (o : Output) (d : Disk) (p : Bytes)
    → (if is_empty p then o else add d o p) ≡ add_all o (if is_empty p then [] else (d, p) ∷ [])
unfolding add_all
add_all_last o d [] = refl
add_all_last o d (c ∷ p) = refl

scan_stdout-nil : (s : Scan) → scan_stdout s [] ≡ s
unfolding scan_stdout
scan_stdout-nil s = refl

-- On the output of a script, where no line of the command is the end marker of the environment, ends
-- in its start marker, or begins with the marker of the directory or of the exit code, no line of the
-- environment is one of its markers or ends in the first, the directory does not end in it either, and
-- every event of a line of the command is delivered: the loop captures the command's own lines, reads
-- every line of the environment and the directory, keeps markers out of the capture, and runs to the
-- end.
pub scan_stdout-lines :
    (max : ℕ) (t : Transcript) (dir code : Bytes)
    → IsTranscript t dir code
    → At
        (scan_stdout (start_scan max) (lines t))
        false
        (read_env [] t.exported)
        dir
        (add_all (fresh max) (own_lines t))
scan_stdout-lines max t dir code h =
    let s₁ = scan_stdout (start_scan max) t.output in
    let h₁ =
      scan_stdout_output (start_scan max) (fresh max) t.output (start-At max) h.output_plain in
    let s₂ = scan_line s₁ t.starts in
    let h₂ = scan_line_start h₁ t.starts t.last_line h.starts_line h.starts_sent in
    let s₃ = scan_stdout s₂ t.exported in
    let h₃ = scan_stdout_inner s₂ [] t.exported h₂ h.exported_plain in
    let h₄ = scan_line_end h₃ t.ends h.ends_line in
    let h₅ = scan_line_pwd h₄ t.directory dir refl h.directory_line h.directory_plain in
    let h₆ = scan_line_exit h₅ t.exit code refl h.exit_line h.exit_plain in
    let e : scan_stdout (start_scan max) (lines t)
        ≡ scan_line (scan_line (scan_line s₃ t.ends) t.directory) t.exit =
      scan_stdout-append (start_scan max) t.output _
      ∙ scan_stdout-cons s₁ t.starts _ h₁.goes_on
      ∙ scan_stdout-append s₂ t.exported _
      ∙ scan_stdout-cons s₃ t.ends _ h₃.goes_on
      ∙ scan_stdout-cons _ t.directory _ h₄.goes_on
      ∙ scan_stdout-cons _ t.exit [] h₅.goes_on
      ∙ scan_stdout-nil _ in
    rw
      (
        e,
        add_all-append (fresh max) (captured t.output),
        ← add_all_last (add_all (fresh max) (captured t.output)) t.starts.disk t.last_line,
      )
      h₆
