-- ===== src/Agent/Relay/Flow.antt =====
-- What holds between the turns of the goroutines of `pump`: the events arrive in order, within the
-- capacity of the channel, and the end of `pump` comes behind both readers.
pub mod Steps
use lean_sandbox.Common.{
  ℕ, ◌+◌, ◌≤◌, ◌<◌, ◌≡◌, refl, sym, ap, ◌∙◌, Bool, true, false, Option, none, some, List, [], ◌∷◌,
  ◌++◌, length, length-append, inl, inr, ◌⊎◌, arith, if◌then◌else◌, Bool-cases, Option-cases,
}
use mathlib.Core.Path.{subst}
use mathlib.Core.List.{append_assoc, append-nil}
use lean_sandbox.Common.Text.{Bytes}
use lean_sandbox.Api.{StreamEvent}
use lean_sandbox.Agent.Pump.{Arrival, Sink, Scan, start_sink, start_scan, scan_line}
use lean_sandbox.Agent.Session.{Session, Wait, conclude}
use lean_sandbox.Agent.Relay.{
  capacity, Line, Reader, Turn, reads, gives_up, stops, feed_stderr, scan_sink, same_sink, Relay,
  context_error, Step, stdout_turns, stderr_turns, cancels, exits, concludes, ends, receives,
  leaves, begin, Run, here, next,
}
use lean_sandbox.Agent.Relay.Shuffle.{Shuffle, neither, Shuffle-left, Shuffle-right}
use lean_sandbox.Agent.Relay.Feeding.{stdout-Feeds, stderr-Feeds}
use lean_sandbox.Agent.Relay.Reading.{Read, Read-begin, Read-cancelled, Turn-Read, Turn-events}

-- the last event, if it is sent
abbrev pub finale : Bool → Option StreamEvent → List StreamEvent
finale false last = []
finale true none = []
finale true (some v) = v ∷ []

-- `pump` has come to its end with this event.
pub record Concluded (e : Bytes) (session : Session) (s : Relay) (v : StreamEvent) : Type 0 where
  pub at_cancel : Bool
  pub waited : Wait
  pub has_waited : s.wait ≡ some waited
  pub out_shut : s.stdout.going ≡ false
  pub err_shut : s.stderr.going ≡ false
  pub end : conclude session s.stdout.at (context_error e at_cancel) waited ≡ (s.session, v)
  pub was_cancelled : at_cancel ≡ true → s.cancelled ≡ true

pub record Flow (e : Bytes) (session : Session) (max_out max_err : ℕ) (out err : List Line)
    (s : Relay) : Type 0 where
  pub out_read : Read scan_line scan_sink (start_scan max_out) out s.cancelled s.stdout
  pub err_read : Read feed_stderr same_sink (start_sink max_err) err s.cancelled s.stderr
  pub merged : List StreamEvent
  pub mixes : Shuffle s.stdout.at.sink.events s.stderr.at.events merged
  pub in_order : s.received ++ s.channel ≡ merged ++ finale s.ended s.last
  pub bounded : length s.channel ≤ capacity
  pub not_yet : s.last ≡ none → (s.ended ≡ false) × (s.session ≡ session)
  pub over : (v : StreamEvent) → s.last ≡ some v → Concluded e session s v

pub Turn-going :
    {R : Type 0} (feed : R → Arrival → R) (sink : R → Sink) (room : ℕ) (c : Bool) {r t : Reader R}
    {sent : List StreamEvent}
    → Turn feed sink room c r sent t
    → r.going ≡ true
Turn-going feed sink room c (reads r x rest sent g e l says few) = g
Turn-going feed sink room c (gives_up r x rest g e l k stop) = g
Turn-going feed sink room c (stops r g end) = g

module _ (e : Bytes) (session : Session) (max_out max_err : ℕ) (out err : List Line) where
  abbrev Flows : Relay → Type 0
  Flows = Flow e session max_out max_err out err

  pub begin-Flow : Flows (begin session max_out max_err out err)
  begin-Flow = record {
    out_read = Read-begin scan_line scan_sink (start_scan max_out) out refl;
    err_read = Read-begin feed_stderr same_sink (start_sink max_err) err refl;
    merged = [];
    mixes = neither;
    in_order = refl;
    bounded = omega arith;
    not_yet = λ _. (refl, refl);
    over = λ v k. absurd (cc k);
  }

  -- A reader that goes on has `pump` in front of its end.
  pub still_open :
      (s : Relay) → Flows s → (s.stdout.going ≡ true) ⊎ (s.stderr.going ≡ true) → s.last ≡ none
  still_open s f g = elim (Option-cases s.last) [
    | inl n ↦ n
    | inr (v, l) ↦
        let c = f.over v l in
        elim g [ inl k ↦ absurd (cc (k, c.out_shut)) | inr k ↦ absurd (cc (k, c.err_shut)) ]
  ]

  -- What is sent while `pump` has not ended comes last.
  pub append_order :
      (s : Relay) (sent : List StreamEvent) (f : Flows s)
      → s.last ≡ none
      → s.received ++ (s.channel ++ sent) ≡ (f.merged ++ sent) ++ finale s.ended s.last
  append_order s sent f n =
      let none_yet : finale s.ended s.last ≡ [] = ap (λ b. finale b s.last) (f.not_yet n).0 in
      sym (append_assoc s.received s.channel sent)
      ∙ ap (λ t. t ++ sent) (f.in_order ∙ ap (λ t. f.merged ++ t) none_yet ∙ append-nil f.merged)
      ∙ sym (ap (λ t. (f.merged ++ sent) ++ t) none_yet ∙ append-nil (f.merged ++ sent))

  pub append_bound :
      (s : Relay) (sent : List StreamEvent) (room : ℕ)
      → length s.channel + room ≡ capacity
      → length sent ≤ room
      → length (s.channel ++ sent) ≤ capacity
  append_bound s sent room r l = omega (arith, length-append s.channel sent)
