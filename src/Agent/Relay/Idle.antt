-- ===== src/Agent/Relay/Idle.antt =====
-- What is left where nobody has a turn: with room in the channel, `pump` has ended.
use lean_sandbox.Common.{
  ℕ, ◌+◌, ◌<◌, ◌≡◌, refl, sym, ap, ◌∙◌, Bool, true, false, not, some, List, [], ◌∷◌, ◌++◌, length,
  inl, inr, ◌⊎◌, arith, Bool-cases, Option-cases, All,
}
use mathlib.Core.Path.{subst}
use lean_sandbox.Common.Text.{Bytes}
use lean_sandbox.Api.{StreamEvent}
use lean_sandbox.Agent.Pump.{Arrival, Sink, scan_line}
use lean_sandbox.Agent.Session.{Session, Wait, success}
use lean_sandbox.Agent.Relay.{
  capacity, scan_limit, Line, Reader, AtEnd, size_of, Turn, reads, stops, feed_stderr, scan_sink,
  same_sink, Relay, CanExit, Step, stdout_turns, stderr_turns, exits, concludes, ends, receives,
}
use lean_sandbox.Agent.Relay.Feeding.{Feeds, stdout-Feeds, stderr-Feeds}
use lean_sandbox.Agent.Relay.Reading.{taken}
use lean_sandbox.Agent.Relay.Flow.{Flow}

-- A line that the scanner's buffer holds.
abbrev pub Fits : Line → Type 0
Fits x = length x.0 < scan_limit

All-suffix : (xs ys : List Line) → All Fits (xs ++ ys) → All Fits ys
All-suffix [] ys h = h
All-suffix (x ∷ xs) ys h = All-suffix xs ys h.1

end-Fits : (rest : List Line) → AtEnd rest → All Fits rest → rest ≡ []
end-Fits [] a h = refl
end-Fits (x ∷ rest) a h = absurd (let k = h.0 in omega arith)

Turn-can :
    {R : Type 0} (feed : R → Arrival → R) (sink : R → Sink) (laws : Feeds feed sink) (room : ℕ)
    (c : Bool) (r : Reader R) (rest : List Line)
    → r.going ≡ true
    → r.rest ≡ rest
    → All Fits rest
    → (sent : List StreamEvent) × (t : Reader R) × Turn feed sink (room + 1) c r sent t
Turn-can feed sink laws room c r [] g h f = ([], _, stops r g (subst AtEnd (sym h) tt))
Turn-can feed sink laws room c r (x ∷ rest) g h f =
    let (sent, says, few) = laws.says r.at x in
    (sent, _, reads r x rest sent g h f.0 says (omega arith))

-- Nobody has a turn left but the context, which may end, and the receiver, which may return.
abbrev pub Idle : Bytes → ℕ → Relay → Type 0
Idle e pipe t =
    (u : Relay)
    → Step e pipe t u
    → (u.cancelled ≡ not t.cancelled) ⊎ (u.listening ≡ not t.listening)

differs : (b : Bool) → ¬ (b ≡ not b)
differs true h = absurd (cc h)
differs false h = absurd (cc h)

Idle-halted :
    (e : Bytes) (pipe : ℕ) (t : Relay)
    → Idle e pipe t
    → (u : Relay) → u.cancelled ≡ t.cancelled
    → u.listening ≡ t.listening
    → ¬ Step e pipe t u
Idle-halted e pipe t idle u c l step = elim (idle u step) [
  | inl k ↦ differs t.cancelled (sym c ∙ k)
  | inr k ↦ differs t.listening (sym l ∙ k)
]

module _ (e : Bytes) (pipe : ℕ) (t : Relay) (idle : Idle e pipe t) where
  pub none_in_channel :
      t.listening ≡ true → (channel : List StreamEvent) → t.channel ≡ channel → channel ≡ []
  none_in_channel l [] h = refl
  none_in_channel l (v ∷ rest) h =
      absurd (Idle-halted e pipe t idle _ refl refl (receives t v rest l h))

  stdout_shut :
      (room : ℕ)
      → length t.channel + (room + 1) ≡ capacity
      → All Fits t.stdout.rest
      → t.stdout.going ≡ false
  stdout_shut room h f = elim (Bool-cases t.stdout.going) [
    | inr n ↦ n
    | inl g ↦
        let (sent, r, turn) =
          Turn-can scan_line scan_sink stdout-Feeds room t.cancelled t.stdout t.stdout.rest g refl
            f in
        absurd (Idle-halted e pipe t idle _ refl refl (stdout_turns t (room + 1) sent r h turn))
  ]

  stderr_shut :
      (room : ℕ)
      → length t.channel + (room + 1) ≡ capacity
      → All Fits t.stderr.rest
      → t.stderr.going ≡ false
  stderr_shut room h f = elim (Bool-cases t.stderr.going) [
    | inr n ↦ n
    | inl g ↦
        let (sent, r, turn) =
          Turn-can feed_stderr same_sink stderr-Feeds room t.cancelled t.stderr t.stderr.rest g refl
            f in
        absurd (Idle-halted e pipe t idle _ refl refl (stderr_turns t (room + 1) sent r h turn))
  ]

  has_exited : CanExit pipe t → (w : Wait) × (t.wait ≡ some w)
  has_exited can = elim (Option-cases t.wait) [
    | inl n ↦ absurd (Idle-halted e pipe t idle _ refl refl (exits t success n can))
    | inr k ↦ k
  ]

  has_concluded :
      (w : Wait)
      → t.wait ≡ some w
      → t.stdout.going ≡ false
      → t.stderr.going ≡ false
      → (v : StreamEvent) × (t.last ≡ some v)
  has_concluded w h o r = elim (Option-cases t.last) [
    | inl n ↦ absurd (Idle-halted e pipe t idle _ refl refl (concludes t w h o r n))
    | inr k ↦ k
  ]

  is_ended : (v : StreamEvent) → t.last ≡ some v → length t.channel < capacity → t.ended ≡ true
  is_ended v l h = elim (Bool-cases t.ended) [
    | inl y ↦ y
    | inr n ↦ absurd (Idle-halted e pipe t idle _ refl refl (ends t v l n h))
  ]

lines_read :
    {c : Bool} {out err : List Line}
    → (c ≡ true) ⊎ AtEnd out
    → (c ≡ true) ⊎ AtEnd err
    → All Fits out
    → All Fits err
    → (c ≡ true) ⊎ ((out ≡ []) × (err ≡ []))
lines_read (inl k) r f g = inl k
lines_read (inr a) (inl k) f g = inl k
lines_read (inr a) (inr b) f g = inr (end-Fits _ a f, end-Fits _ b g)

can_exit :
    (pipe : ℕ) (t : Relay)
    → (t.cancelled ≡ true) ⊎ ((t.stdout.rest ≡ []) × (t.stderr.rest ≡ []))
    → CanExit pipe t
can_exit pipe t (inl k) = inl k
can_exit pipe t (inr (o, r)) = inr (omega (arith, ap size_of o), omega (arith, ap size_of r))

-- `pump` has ended, and unless the context has, every line was read.
pub record Over (t : Relay) : Type 0 where
  pub has_ended : t.ended ≡ true
  pub last_event : StreamEvent
  pub its_last : t.last ≡ some last_event
  pub has_read : (t.cancelled ≡ true) ⊎ ((t.stdout.rest ≡ []) × (t.stderr.rest ≡ []))

-- Where the channel has room, and nobody has a turn left, `pump` has ended.
pub room-Over :
    {e : Bytes} {session : Session} {max_out max_err : ℕ} {out err : List Line} {t : Relay}
    (pipe room : ℕ)
    → Flow e session max_out max_err out err t
    → Idle e pipe t
    → length t.channel + (room + 1) ≡ capacity
    → All Fits out
    → All Fits err
    → Over t
room-Over {e} {t} pipe room f idle h fo fe =
    let fo_rest =
      All-suffix (taken f.out_read.past) t.stdout.rest (subst (All Fits) f.out_read.split fo) in
    let fe_rest =
      All-suffix (taken f.err_read.past) t.stderr.rest (subst (All Fits) f.err_read.split fe) in
    let o = stdout_shut e pipe t idle room h fo_rest in
    let s = stderr_shut e pipe t idle room h fe_rest in
    let read = lines_read (f.out_read.shut o) (f.err_read.shut s) fo_rest fe_rest in
    let (w, waited) = has_exited e pipe t idle (can_exit pipe t read) in
    let (v, last) = has_concluded e pipe t idle w waited o s in
    record {
      has_ended = is_ended e pipe t idle v last (omega (arith, h));
      last_event = v;
      its_last = last;
      has_read = read;
    }
