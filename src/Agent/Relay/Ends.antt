-- ===== src/Agent/Relay/Ends.antt =====
-- The turns of the goroutines of `pump` come to an end, and what a run leaves behind.
use lean_sandbox.Common.{
  ℕ, ◌+◌, ◌*◌, ◌≤◌, ◌<◌, sym, ap, ◌∙◌, Bool, true, false, not, Option, none, some, List, [], ◌∷◌,
  length, length-append, arith,
}
use lean_sandbox.Common.Text.{Bytes}
use lean_sandbox.Api.{StreamEvent}
use lean_sandbox.Agent.Pump.{Arrival, Sink, scan_line}
use lean_sandbox.Agent.Session.{Session}
use lean_sandbox.Agent.Relay.{
  Line, Reader, Turn, reads, gives_up, stops, feed_stderr, scan_sink, same_sink, Relay, Step,
  stdout_turns, stderr_turns, cancels, exits, concludes, ends, receives, leaves, begin, Run, here,
  next,
}
use lean_sandbox.Agent.Relay.Feeding.{Feeds, stdout-Feeds, stderr-Feeds}

abbrev flag : Bool → ℕ
flag true = 1
flag false = 0

abbrev unset : {A : Type 0} → Option A → ℕ
unset none = 1
unset (some a) = 0

abbrev to_read : {R : Type 0} → Reader R → ℕ
to_read r = 3 * length r.rest + flag r.going

-- Each turn of a goroutine makes this smaller.
abbrev work : Relay → ℕ
work s =
    to_read s.stdout
    + to_read s.stderr
    + flag (not s.cancelled)
    + flag s.listening
    + unset s.wait
    + unset s.last
    + 2 * flag (not s.ended)
    + length s.channel

Turn-work :
    {R : Type 0} (feed : R → Arrival → R) (sink : R → Sink) (laws : Feeds feed sink) (room : ℕ)
    (c : Bool) {r t : Reader R} {sent : List StreamEvent}
    → Turn feed sink room c r sent t
    → to_read t + length sent < to_read r
Turn-work feed sink laws room c (reads r x rest sent g e l says few) =
    let (one, says_one, at_most) = laws.says r.at x in
    let same = ap length (sym says ∙ says_one) in
    let sum = length-append (sink r.at).events sent in
    let sum_one = length-append (sink r.at).events one in
    omega (arith, same, sum, sum_one, at_most, ap length e, ap flag g)
Turn-work feed sink laws room c (gives_up r x rest g e l k stop) =
    omega (arith, ap length e, ap flag g)
Turn-work feed sink laws room c (stops r g end) = omega (arith, ap flag g)

module _ (e : Bytes) (pipe : ℕ) where
  Step-work : {s t : Relay} → Step e pipe s t → work t < work s
  Step-work (stdout_turns s room sent r l t) = omega (
    arith,
    Turn-work scan_line scan_sink stdout-Feeds room s.cancelled t,
    length-append s.channel sent,
  )
  Step-work (stderr_turns s room sent r l t) = omega (
    arith,
    Turn-work feed_stderr same_sink stderr-Feeds room s.cancelled t,
    length-append s.channel sent,
  )
  Step-work (cancels s n) = omega (arith, ap (λ b. flag (not b)) n)
  Step-work (exits s w n can) = omega (arith, ap unset n)
  Step-work (concludes s w has o r n) = omega (arith, ap unset n)
  Step-work (ends s v l n room) =
      omega (arith, ap (λ b. flag (not b)) n, length-append s.channel (v ∷ []))
  Step-work (receives s v rest l h) = omega (arith, ap length h)
  Step-work (leaves s l) = omega (arith, ap flag l)

  Run-work : {s t : Relay} {n : ℕ} → Run e pipe s t n → n + work t ≤ work s
  Run-work here = omega arith
  Run-work (next r step) = omega (arith, Run-work r, Step-work step)

  -- Whatever turns the goroutines, the command and the receiver take, and in whatever order, a run
  -- has no more turns than three for each line and eight.
  pub Run-length :
      (session : Session) (max_out max_err : ℕ) (out err : List Line) (t : Relay) (n : ℕ)
      → Run e pipe (begin session max_out max_err out err) t n
      → n ≤ 3 * (length out + length err) + 8
  Run-length session max_out max_err out err t n r = omega (arith, Run-work r)
