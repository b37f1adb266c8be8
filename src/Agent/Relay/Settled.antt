-- ===== src/Agent/Relay/Settled.antt =====
-- What a run of the goroutines of `pump` leaves behind when nobody has a turn left: every event is
-- with the receiver.
use lean_sandbox.Common.{
  leb, ◌-◌, ℕ, ◌+◌, ◌≡◌, refl, sym, ap, ◌∙◌, true, false, List, [], ◌∷◌, ◌++◌, length, inl, inr,
  ◌⊎◌, arith, Bool-cases, All,
}
use mathlib.Core.List.{append-nil}
use lean_sandbox.Common.Text.{Bytes}
use lean_sandbox.Api.{StreamEvent, RunRequest}
use lean_sandbox.Agent.Session.{Session, clamp}
use lean_sandbox.Agent.Relay.{capacity, Line, Relay, begin, Run}
use lean_sandbox.Agent.Relay.Shuffle.{Shuffle}
use lean_sandbox.Agent.Relay.Flow.{finale}
use lean_sandbox.Agent.Relay.Sequential.{Sequential, Run-Sequential}
use lean_sandbox.Agent.Relay.Flow.Steps.{Run-Flow}
use lean_sandbox.Agent.Relay.Idle.{Fits, Idle, none_in_channel, room-Over}

-- The run is over: `pump` has ended, and the receiver has every event of both streams, those of each
-- in their order, and the last event behind them.
pub record Settled (e : Bytes) (session : Session) (req : RunRequest) (out err : List Line)
    (t : Relay) : Type 0 where
  pub has_ended : t.ended ≡ true
  pub merged : List StreamEvent
  pub last_event : StreamEvent
  pub mixes : Shuffle t.stdout.at.sink.events t.stderr.at.events merged
  pub has_received : t.received ≡ merged ++ last_event ∷ []
  pub has_read : (t.cancelled ≡ true) ⊎ ((t.stdout.rest ≡ []) × (t.stderr.rest ≡ []))
  pub sequential : Sequential e session req out err t last_event

-- A run of lines that the scanner's buffer holds, whose receiver has not returned, and in which
-- nobody has a turn left but the context, which may end, and the receiver, which may return, is
-- over: `pump` has ended, and the receiver has every event of both streams, those of each in their
-- order, and the last event behind them; unless the context has ended, every line was read; and the
-- result is what `RunRequest` makes of the lines one behind the other.
pub Run-Settled :
    (e : Bytes) (pipe : ℕ) (session : Session) (req : RunRequest) (out err : List Line) (t : Relay)
    (n : ℕ)
    → Run e pipe (begin session (clamp req.max_stdout) (clamp req.max_stderr) out err) t n
    → Idle e pipe t
    → t.listening ≡ true
    → All Fits out
    → All Fits err
    → Settled e session req out err t
Run-Settled e pipe session req out err t n r idle l fo fe =
    let f = Run-Flow e pipe session (clamp req.max_stdout) (clamp req.max_stderr) out err r in
    let empty = none_in_channel e pipe t idle l t.channel refl in
    let over = room-Over pipe 63 f idle (ap (λ c. length c + capacity) empty) fo fe in
    record {
      has_ended = over.has_ended;
      merged = f.merged;
      last_event = over.last_event;
      mixes = f.mixes;
      has_received =
          sym (append-nil t.received)
          ∙ ap (λ c. t.received ++ c) (sym empty)
          ∙ f.in_order
          ∙ ap (λ b. f.merged ++ finale b t.last) over.has_ended
          ∙ ap (λ x. f.merged ++ finale true x) over.its_last;
      has_read = over.has_read;
      sequential = Run-Sequential e pipe session req out err t n over.last_event r over.its_last;
    }

-- Of lines that the scanner's buffer holds: where nobody has a turn left but the context, which may
-- end, and the receiver, which may return, `pump` has ended, or else its receiver has returned and
-- the channel is full.
pub Run-ended :
    (e : Bytes) (pipe : ℕ) (session : Session) (max_out max_err : ℕ) (out err : List Line)
    (t : Relay) (n : ℕ)
    → Run e pipe (begin session max_out max_err out err) t n
    → Idle e pipe t
    → All Fits out
    → All Fits err
    → (t.ended ≡ true) ⊎ ((t.listening ≡ false) × (length t.channel ≡ capacity))
Run-ended e pipe session max_out max_err out err t n r idle fo fe =
    let f = Run-Flow e pipe session max_out max_err out err r in
    let bounded = f.bounded in
    elim (Bool-cases (leb capacity (length t.channel))) [
      | inl full ↦ elim (Bool-cases t.listening) [
        | inl l ↦
            let empty = ap length (none_in_channel e pipe t idle l t.channel refl) in
            absurd (ground arith)
        | inr l ↦ inr (l, ground arith)
      ]
      | inr free ↦
          let room : (m : ℕ) × (length t.channel + (m + 1) ≡ capacity) =
            (63 - length t.channel, ground arith) in
          inl (room-Over pipe room.0 f idle room.1 fo fe).has_ended
    ]
