-- ===== src/Agent/Relay/LongLine.antt =====
-- A line that the scanner's buffer does not hold: what becomes of the run of its command.
use lean_sandbox.Common.{
  ℕ, ◌+◌, ◌≤◌, ◌<◌, ◌≡◌, refl, Bool, true, false, none, List, [], ◌∷◌, length, inl, inr, ◌⊎◌, arith,
}
use mathlib.Core.Path.{subst}
use lean_sandbox.Common.Text.{Bytes}
use lean_sandbox.Api.{StreamEvent}
use lean_sandbox.Agent.Pump.{Arrival, Sink, scan_line}
use lean_sandbox.Agent.Session.{Session}
use lean_sandbox.Agent.Relay.{
  feed_stderr, same_sink, scan_limit, Line, Reader, Turn, reads, gives_up, stops, scan_sink,
  size_of, in_pipe, Relay, Step, stdout_turns, stderr_turns, cancels, exits, concludes, ends,
  receives, leaves, begin, Run, here, next,
}

-- One of the lines is too long for the scanner's buffer, and with what follows it it is longer than
-- the buffer and the pipe together.
abbrev pub HasLong : ℕ → List Line → Type 0
HasLong pipe [] = ⊥
HasLong pipe (x ∷ rest) =
    ((scan_limit ≤ length x.0) × (scan_limit + pipe < size_of (x ∷ rest))) ⊎ HasLong pipe rest

HasLong-in_pipe : (pipe : ℕ) (xs : List Line) → HasLong pipe xs → pipe < in_pipe xs
HasLong-in_pipe pipe [] h = elim h [ ]
HasLong-in_pipe pipe (x ∷ xs) (inl (l, m)) = omega arith
HasLong-in_pipe pipe (x ∷ xs) (inr h) = let k = HasLong-in_pipe pipe xs h in omega arith

HasLong-read :
    (pipe : ℕ) (x : Line) (rest old : List Line)
    → old ≡ x ∷ rest
    → length x.0 < scan_limit
    → HasLong pipe old
    → HasLong pipe rest
HasLong-read pipe x rest old e f h = elim (subst (HasLong pipe) e h) [
  | inl l ↦ absurd (let k = l.0 in omega arith)
  | inr k ↦ k
]

-- No reader reads past a line that is too long.
Turn-HasLong :
    {R : Type 0} (feed : R → Arrival → R) (sink : R → Sink) (room pipe : ℕ) (c : Bool)
    {r t : Reader R} {sent : List StreamEvent}
    → Turn feed sink room c r sent t
    → HasLong pipe r.rest
    → HasLong pipe t.rest
Turn-HasLong feed sink room pipe c (reads r x rest sent g e l says few) h =
    HasLong-read pipe x rest r.rest e l h
Turn-HasLong feed sink room pipe c (gives_up r x rest g e l k stop) h =
    HasLong-read pipe x rest r.rest e l h
Turn-HasLong feed sink room pipe c (stops r g end) h = h

-- The command is still running, and `pump` with it.
abbrev pub Hangs : Relay → Type 0
Hangs t = (t.wait ≡ none) × (t.last ≡ none) × (t.ended ≡ false)

module _ (e : Bytes) (pipe : ℕ) where
  -- a line that is too long is not read yet
  abbrev Waiting : Relay → Type 0
  Waiting s = HasLong pipe s.stdout.rest ⊎ HasLong pipe s.stderr.rest

  Waiting-full :
      (s : Relay) → Waiting s → in_pipe s.stdout.rest ≤ pipe → in_pipe s.stderr.rest ≤ pipe → ⊥
  Waiting-full s (inl h) o r = let k = HasLong-in_pipe pipe s.stdout.rest h in absurd (omega arith)
  Waiting-full s (inr h) o r = let k = HasLong-in_pipe pipe s.stderr.rest h in absurd (omega arith)

  Step-Waiting : {s t : Relay} → Step e pipe s t → Waiting s → Waiting t
  Step-Waiting (stdout_turns s room sent r l t) (inl h) =
      inl (Turn-HasLong scan_line scan_sink room pipe s.cancelled t h)
  Step-Waiting (stdout_turns s room sent r l t) (inr h) = inr h
  Step-Waiting (stderr_turns s room sent r l t) (inl h) = inl h
  Step-Waiting (stderr_turns s room sent r l t) (inr h) =
      inr (Turn-HasLong feed_stderr same_sink room pipe s.cancelled t h)
  Step-Waiting (cancels s n) h = h
  Step-Waiting (exits s v n can) h = h
  Step-Waiting (concludes s v has o r n) h = h
  Step-Waiting (ends s v l n room) h = h
  Step-Waiting (receives s v rest l c) h = h
  Step-Waiting (leaves s l) h = h

  Step-Hangs :
      {s t : Relay}
      → Step e pipe s t
      → Waiting s
      → (s.cancelled ≡ true) ⊎ Hangs s
      → (t.cancelled ≡ true) ⊎ Hangs t
  Step-Hangs (stdout_turns s room sent r l t) h w = w
  Step-Hangs (stderr_turns s room sent r l t) h w = w
  Step-Hangs (cancels s n) h w = inl refl
  Step-Hangs (exits s v n (inl k)) h w = inl k
  Step-Hangs (exits s v n (inr (o, r))) h w = elim (Waiting-full s h o r) [ ]
  Step-Hangs (concludes s v has o r n) h (inl k) = inl k
  Step-Hangs (concludes s v has o r n) h (inr k) = absurd (let m = k.0 in cc (m, has))
  Step-Hangs (ends s v l n room) h (inl k) = inl k
  Step-Hangs (ends s v l n room) h (inr k) = absurd (let m = k.1 in cc (m, l))
  Step-Hangs (receives s v rest l c) h w = w
  Step-Hangs (leaves s l) h w = w

  Run-Waiting :
      {s t : Relay} {n : ℕ}
      → Run e pipe s t n
      → Waiting s
      → (s.cancelled ≡ true) ⊎ Hangs s
      → Waiting t × ((t.cancelled ≡ true) ⊎ Hangs t)
  Run-Waiting here h w = (h, w)
  Run-Waiting (next r step) h w =
      let (k, v) = Run-Waiting r h w in (Step-Waiting step k, Step-Hangs step k v)

-- A command that prints, on stdout or stderr, a line that the scanner's buffer does not hold, and
-- that is, with what follows it, longer than the buffer and the pipe together, has, after any turns,
-- either lost its context or not ended: `runGroup` has not returned, and `pump` has not sent its last
-- event.
pub Run-Hangs :
    (e : Bytes) (pipe : ℕ) (session : Session) (max_out max_err : ℕ) (out err : List Line)
    (t : Relay) (n : ℕ)
    → HasLong pipe out ⊎ HasLong pipe err
    → Run e pipe (begin session max_out max_err out err) t n
    → (t.cancelled ≡ true) ⊎ Hangs t
Run-Hangs e pipe session max_out max_err out err t n h r =
    (Run-Waiting e pipe r h (inr (refl, refl, refl))).1
