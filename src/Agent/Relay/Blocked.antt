-- ===== src/Agent/Relay/Blocked.antt =====
-- Where the goroutines of `pump` get no further: behind a full channel that nobody receives from,
-- and behind a line that the scanner's buffer does not hold.
use lean_sandbox.Common.{
  ℕ, ◌+◌, ◌-◌, ◌≤◌, ◌≡◌, refl, sym, ap, true, false, some, List, [], ◌∷◌, ◌++◌, length,
  length-append, inl, arith, All,
}
use mathlib.Core.Path.{subst}
use lean_sandbox.Common.Text.{Bytes}
use lean_sandbox.Api.{StreamEvent}
use lean_sandbox.Agent.Pump.{Scan, start_scan, scan_line}
use lean_sandbox.Agent.Session.{Session, Wait, success}
use lean_sandbox.Agent.Relay.{
  capacity, Line, arrival, Reader, AtEnd, reads, stops, feed_stderr, scan_sink, same_sink, Relay,
  Step, stdout_turns, stderr_turns, cancels, exits, concludes, ends, receives, leaves, begin, Run,
  here, next,
}
use lean_sandbox.Agent.Relay.Flow.{Turn-going}
use lean_sandbox.Agent.Relay.Plain.{Plain, Uncapped, event_of, scan_line-grown, grown-Uncapped}

-- `pump` waits for room in the channel to send its last event, and nobody receives from it.
pub record Stuck (t : Relay) : Type 0 where
  pub left : t.listening ≡ false
  pub full : length t.channel ≡ capacity
  pub was_cancelled : t.cancelled ≡ true
  pub has_waited : (w : Wait) × (t.wait ≡ some w)
  pub out_shut : t.stdout.going ≡ false
  pub err_shut : t.stderr.going ≡ false
  pub has_last : (v : StreamEvent) × (t.last ≡ some v)
  pub not_ended : t.ended ≡ false

pub Stuck-halted : (e : Bytes) (pipe : ℕ) {t u : Relay} → Step e pipe t u → Stuck t → ⊥
Stuck-halted e pipe (stdout_turns s room sent r l t) k =
    absurd (cc (Turn-going scan_line scan_sink room s.cancelled t, k.out_shut))
Stuck-halted e pipe (stderr_turns s room sent r l t) k =
    absurd (cc (Turn-going feed_stderr same_sink room s.cancelled t, k.err_shut))
Stuck-halted e pipe (cancels s n) k = absurd (cc (n, k.was_cancelled))
Stuck-halted e pipe (exits s w n can) k = absurd (cc (n, k.has_waited.1))
Stuck-halted e pipe (concludes s w has o r n) k = absurd (cc (n, k.has_last.1))
Stuck-halted e pipe (ends s v l n room) k = absurd (let f = k.full in omega arith)
Stuck-halted e pipe (receives s v rest l h) k = absurd (cc (l, k.left))
Stuck-halted e pipe (leaves s l) k = absurd (cc (l, k.left))

module _ (e : Bytes) (pipe : ℕ) (b : Relay) where
  -- The reader of stdout reads its lines to the last, and nobody else has a turn.
  reads_through :
      (xs : List Line) (s : Relay) (n : ℕ)
      → All Plain xs
      → Run e pipe b s n
      → s.stdout.going ≡ true
      → s.stdout.rest ≡ xs
      → Uncapped s.stdout.at
      → length s.channel + length xs ≤ capacity
      → (r : Reader Scan) × (c : List StreamEvent) × (m : ℕ) × Run e pipe b
          (record s { stdout = r; channel = c })
          m
        × (r.going ≡ true)
        × (r.rest ≡ [])
        × (length c ≡ length s.channel + length xs)
  reads_through [] s n p run g h u l = (s.stdout, s.channel, n, run, g, h, omega arith)
  reads_through (x ∷ xs) s n p run g h u l =
      let same = scan_line-grown s.stdout.at x p.0 u in
      let room : (room : ℕ) × (length s.channel + 1 + room ≡ capacity) =
        (capacity - (length s.channel + 1), omega arith) in
      let one : Reader Scan = record {
        at = scan_line s.stdout.at (arrival x true);
        rest = xs;
        going = true;
      } in
      let turn =
        reads s.stdout x xs (event_of x ∷ []) g h p.0.fits (ap (λ k. k.sink.events) same)
          (omega arith) in
      let (r, c, m, further, going, done, sum) =
        reads_through xs (record s { stdout = one; channel = s.channel ++ event_of x ∷ [] }) (n + 1)
          p.1
          (next run
            (stdout_turns s (room.0 + 1) (event_of x ∷ []) one (omega (arith, room.1)) turn))
          refl refl (subst Uncapped (sym same) (grown-Uncapped s.stdout.at x u))
          (omega (arith, length-append s.channel (event_of x ∷ []))) in
      (r, c, m, further, going, done, omega (arith, sum, length-append s.channel (event_of x ∷ [])))

-- The turns behind the last line: the receiver returns, the context ends, both readers stop, the
-- group is killed, and `pump` comes to its last event.
winds_up :
    (e : Bytes) (pipe : ℕ) (session : Session) (xs : List Line) (r : Reader Scan)
    (c : List StreamEvent) (n : ℕ)
    → Run e pipe
        (begin session 0 0 xs [])
        (record (begin session 0 0 xs []) { stdout = r; channel = c })
        n
    → r.going ≡ true
    → r.rest ≡ []
    → length c ≡ capacity
    → (t : Relay) × (m : ℕ) × Run e pipe (begin session 0 0 xs []) t m × Stuck t
winds_up e pipe session xs r c n run going done full =
    let s0 : Relay = record (begin session 0 0 xs []) { stdout = r; channel = c } in
    let s1 : Relay = record s0 { listening = false } in
    let s2 : Relay = record s1 { cancelled = true } in
    let s3 : Relay = record s2 { stdout = record r { going = false }; channel = c ++ [] } in
    let s4 : Relay = record s3 {
      stderr = record (s3.stderr) { going = false };
      channel = (c ++ []) ++ [];
    } in
    let s5 : Relay = record s4 { wait = some success } in
    let same : length ((c ++ []) ++ []) ≡ capacity =
      omega (arith, length-append (c ++ []) [], length-append c []) in
    let t1 = next (next run (leaves s0 refl)) (cancels s1 refl) in
    let t2 =
      next t1 (stdout_turns s2 0 [] _ (omega arith) (stops r going (subst AtEnd (sym done) tt))) in
    let t3 =
      next t2
        (stderr_turns s3 0 [] _ (omega (arith, length-append c [])) (stops (s3.stderr) refl tt)) in
    let t4 = next t3 (exits s4 success refl (inl refl)) in
    (
      _,
      _,
      next t4 (concludes s5 success refl refl refl refl),
      record {
        left = refl;
        full = same;
        was_cancelled = refl;
        has_waited = (success, refl);
        out_shut = refl;
        err_shut = refl;
        has_last = (_, refl);
        not_ended = refl;
      },
    )

-- However many bytes a pipe holds, 64 lines under no cap can leave `pump` with a full channel:
-- there is a run, in which the receiver returns and the context ends, to a state where `pump` has
-- not sent its last event and in which nobody has a turn left.
pub begin-Stuck :
    (e : Bytes) (pipe : ℕ) (session : Session) (xs : List Line)
    → All Plain xs
    → length xs ≡ capacity
    → (t : Relay) × (n : ℕ) × Run e pipe (begin session 0 0 xs []) t n
      × Stuck t
      × ((u : Relay) → ¬ Step e pipe t u)
begin-Stuck e pipe session xs p l =
    let b = begin session 0 0 xs [] in
    let start : Uncapped (start_scan 0) = record {
      outside = refl;
      no_cap = refl;
      in_memory = refl;
    } in
    let (r, c, m, run, going, done, sum) =
      reads_through e pipe b xs b 0 p here refl refl start (omega arith) in
    let (t, n, to_end, stuck) =
      winds_up e pipe session xs r c m run going done (omega (arith, sum)) in
    (t, n, to_end, stuck, λ u step. Stuck-halted e pipe step stuck)
