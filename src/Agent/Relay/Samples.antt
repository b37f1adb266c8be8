-- ===== src/Agent/Relay/Samples.antt =====
-- Small runs of the goroutines of `pump`, and its theorems at inputs that meet their hypotheses.
use lean_sandbox.Common.{
  ℕ, zero, suc, ◌+◌, ◌*◌, ◌≤◌, ◌≡◌, refl, sym, ap, true, false, not, none, some, List, [], ◌∷◌,
  length, inl, inr, ◌⊎◌, arith, All,
}
use lean_sandbox.Common.Int.{pos}
use lean_sandbox.Common.Text.{Bytes, text, cut_suffix, cut_prefix}
use lean_sandbox.Api.{StreamEvent, EventType, RunRequest}
use lean_sandbox.Agent.Output.{Disk, add, store_line}
use lean_sandbox.Agent.Pump.{start_scan, scan_line, forward}
use lean_sandbox.Agent.Session.{Session, Wait, success, conclude}
use lean_sandbox.Agent.Relay.{
  capacity, scan_limit, Line, arrival, reads, stops, feed_stderr, scan_sink, same_sink, Relay, Step,
  stdout_turns, stderr_turns, cancels, exits, concludes, ends, receives, leaves, begin, Run, here,
  next,
}
use lean_sandbox.Agent.Relay.Ends.{Run-length}
use lean_sandbox.Agent.Relay.Sequential.{Sequential, Run-Sequential}
use lean_sandbox.Agent.Relay.Settled.{Settled, Run-Settled, Run-ended}
use lean_sandbox.Agent.Relay.Idle.{Idle}
use lean_sandbox.Agent.Relay.Plain.{Plain}
use lean_sandbox.Agent.Relay.Blocked.{Stuck, begin-Stuck}
use lean_sandbox.Agent.Relay.Flow.{Turn-going}
use lean_sandbox.Agent.Relay.LongLine.{Hangs, Run-Hangs}

abbrev working : Disk
working = record { mkdir_all = true; create_temp = some (text "/tmp/o.log"); write_error = none }

abbrev echo : Line
echo = (text "a", working)

abbrev at_home : Session
at_home = record { env = []; cwd = text "/home" }

abbrev request : RunRequest
request = record { command = text "echo a"; max_stdout = pos 0; max_stderr = pos 0 }

-- `pump` has ended, and the receiver has every event.
record Over (t : Relay) : Type 0 where
  none_left : t.channel ≡ []
  out_shut : t.stdout.going ≡ false
  err_shut : t.stderr.going ≡ false
  has_waited : (w : Wait) × (t.wait ≡ some w)
  has_last : (v : StreamEvent) × (t.last ≡ some v)
  has_ended : t.ended ≡ true

Over-Idle :
    (e : Bytes) (pipe : ℕ) {t : Relay} (u : Relay)
    → Step e pipe t u
    → Over t
    → (u.cancelled ≡ not t.cancelled) ⊎ (u.listening ≡ not t.listening)
Over-Idle e pipe u (stdout_turns s room sent r l t) o =
    absurd (let k = o.out_shut in cc (k, Turn-going scan_line scan_sink room s.cancelled t))
Over-Idle e pipe u (stderr_turns s room sent r l t) o =
    absurd (let k = o.err_shut in cc (k, Turn-going feed_stderr same_sink room s.cancelled t))
Over-Idle e pipe u (cancels s n) o = inl (sym (ap not n))
Over-Idle e pipe u (exits s w n can) o = absurd (let k = o.has_waited.1 in cc (k, n))
Over-Idle e pipe u (concludes s w has out err n) o = absurd (let k = o.has_last.1 in cc (k, n))
Over-Idle e pipe u (ends s v l n room) o = absurd (let k = o.has_ended in cc (k, n))
Over-Idle e pipe u (receives s v rest l h) o = absurd (let k = o.none_left in cc (k, h))
Over-Idle e pipe u (leaves s l) o = inr (sym (ap not l))

abbrev s0 : Relay
s0 = begin at_home 0 0 (echo ∷ []) []

abbrev line_event : StreamEvent
line_event = record { type = EventType.stdout; chunk = text "a\n"; exit_code = pos 0; error = [] }

abbrev s1 : Relay
s1 = record s0 {
  stdout = record { at = scan_line (start_scan 0) (arrival echo true); rest = []; going = true };
  channel = line_event ∷ [];
}

abbrev s2 : Relay
s2 = record s1 { stdout = record (s1.stdout) { going = false } }

abbrev s3 : Relay
s3 = record s2 { stderr = record (s2.stderr) { going = false } }

abbrev s4 : Relay
s4 = record s3 { wait = some success }

abbrev end : Session × StreamEvent
end = conclude at_home s4.stdout.at none success

abbrev s5 : Relay
s5 = record s4 { session = end.0; last = some end.1 }

abbrev s6 : Relay
s6 = record s5 { ended = true; channel = line_event ∷ end.1 ∷ [] }

abbrev s8 : Relay
s8 = record s6 { channel = []; received = line_event ∷ end.1 ∷ [] }

-- `echo a`, turn by turn, and in the end the session and the events with the receiver.
echo_run : Run (text "context canceled") 65536 s0 s8 8
unfolding scan_line forward add store_line cut_suffix cut_prefix
echo_run =
    let t1 = next here (
      stdout_turns s0 64 (line_event ∷ []) _ refl
        (reads (s0.stdout) echo [] (line_event ∷ []) refl refl (omega arith) refl (omega arith))) in
    let t2 = next t1 (stdout_turns s1 63 [] _ refl (stops (s1.stdout) refl tt)) in
    let t3 = next t2 (stderr_turns s2 63 [] _ refl (stops (s2.stderr) refl tt)) in
    let t4 = next t3 (exits s3 success refl (inr (omega arith, omega arith))) in
    let t5 = next t4 (concludes s4 success refl refl refl refl) in
    let t6 = next t5 (ends s5 end.1 refl refl (omega arith)) in
    let t7 = next t6 (receives s6 line_event (end.1 ∷ []) refl refl) in
    next t7
      (receives (record s6 { channel = end.1 ∷ []; received = line_event ∷ [] }) end.1 [] refl refl)

s8-Idle : Idle (text "context canceled") 65536 s8
s8-Idle u step = Over-Idle _ _ u step (record {
  none_left = refl;
  out_shut = refl;
  err_shut = refl;
  has_waited = (success, refl);
  has_last = (end.1, refl);
  has_ended = refl;
})

Run-length_example : 8 ≤ 3 * (1 + 0) + 8
Run-length_example =
    Run-length (text "context canceled") 65536 at_home 0 0 (echo ∷ []) [] s8 8 echo_run

Run-Sequential_example :
    Sequential (text "context canceled") at_home request (echo ∷ []) [] s8 end.1
Run-Sequential_example =
    Run-Sequential (text "context canceled") 65536 at_home request (echo ∷ []) [] s8 8 end.1
      echo_run refl

Run-Settled_example : Settled (text "context canceled") at_home request (echo ∷ []) [] s8
Run-Settled_example =
    Run-Settled (text "context canceled") 65536 at_home request (echo ∷ []) [] s8 8 echo_run s8-Idle
      refl (omega arith, tt) tt

Run-ended_example : (s8.ended ≡ true) ⊎ ((s8.listening ≡ false) × (length s8.channel ≡ capacity))
Run-ended_example =
    Run-ended (text "context canceled") 65536 at_home 0 0 (echo ∷ []) [] s8 8 echo_run s8-Idle
      (omega arith, tt) tt

echos : ℕ → List Line
echos zero = []
echos (suc n) = echo ∷ echos n

length-echos : (n : ℕ) → length (echos n) ≡ n
unfolding echos
length-echos zero = refl
length-echos (suc n) = let h = length-echos n in omega arith

echo-Plain : Plain echo
unfolding cut_suffix cut_prefix
echo-Plain = record {
  no_start = refl;
  no_end = refl;
  no_pwd = refl;
  no_exit = refl;
  fits = omega arith;
}

echos-Plain : (n : ℕ) → All Plain (echos n)
unfolding echos
echos-Plain zero = tt
echos-Plain (suc n) = (echo-Plain, echos-Plain n)

begin-Stuck_example :
    (t : Relay) × (n : ℕ) × Run
      (text "context canceled")
      65536
      (begin at_home 0 0 (echos 64) [])
      t
      n
    × Stuck t
    × ((u : Relay) → ¬ Step (text "context canceled") 65536 t u)
begin-Stuck_example =
    begin-Stuck (text "context canceled") 65536 at_home (echos 64) (echos-Plain 64)
      (length-echos 64)

-- so many bytes without a newline
dashes : ℕ → Bytes
dashes zero = []
dashes (suc n) = b'-' ∷ dashes n

length-dashes : (n : ℕ) → length (dashes n) ≡ n
unfolding dashes
length-dashes zero = refl
length-dashes (suc n) = let h = length-dashes n in omega arith

abbrev long : Line
long = (dashes (scan_limit + 65536), working)

long-size : length (dashes (scan_limit + 65536)) ≡ scan_limit + 65536
long-size = length-dashes (scan_limit + 65536)

abbrev l0 : Relay
l0 = begin at_home 0 0 (long ∷ []) []

abbrev l1 : Relay
l1 = record l0 { stdout = record (l0.stdout) { going = false } }

long_run : Run (text "context canceled") 65536 l0 l1 1
long_run =
    next here (stdout_turns l0 64 [] _ refl (stops (l0.stdout) refl (omega (arith, long-size))))

Run-Hangs_example : (l1.cancelled ≡ true) ⊎ Hangs l1
Run-Hangs_example =
    Run-Hangs (text "context canceled") 65536 at_home 0 0 (long ∷ []) [] l1 1
      (inl (inl (omega (arith, long-size), omega (arith, long-size)))) long_run
