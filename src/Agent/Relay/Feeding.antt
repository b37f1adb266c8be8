-- ===== src/Agent/Relay/Feeding.antt =====
-- The bodies of the two loops of `pump`: what one line adds to the events.
use lean_sandbox.Common.{
  ◌≤◌, ◌≡◌, refl, sym, ap, ◌∙◌, Bool, true, false, List, [], ◌∷◌, ◌++◌, length, inl, inr, ◌⊎◌,
  arith, Bool-cases, Option-cases,
}
use mathlib.Core.List.{append-nil}
use lean_sandbox.Common.Text.{Bytes, is_empty, str_eq, cut_suffix, cut_prefix, has_prefix}
use lean_sandbox.Common.Int.{pos}
use lean_sandbox.Api.{StreamEvent, EventType}
use lean_sandbox.Agent.Output.{add}
use lean_sandbox.Agent.Pump.{Arrival, Sink, Scan, scan_line, forward}
use lean_sandbox.Agent.Script.{
  marker_env_start, marker_env_end, marker_pwd_prefix, marker_exit_pref,
}
use lean_sandbox.Agent.Relay.{Line, arrival, feed_stderr, scan_sink, same_sink}

-- What a reader relies on of the body of its loop: a delivered line adds at most one event and
-- does not end the loop, and a line that ends it adds none.
pub record Feeds {R : Type 0} (feed : R → Arrival → R) (sink : R → Sink) : Type 0 where
  pub says :
      (r : R) (x : Line)
      → (sent : List StreamEvent) × ((sink (feed r (arrival x true))).events
          ≡ (sink r).events ++ sent)
        × (length sent ≤ 1)
  pub goes_on :
      (r : R) (x : Line)
      → (sink r).cancelled ≡ false
      → (sink (feed r (arrival x true))).cancelled ≡ false
  pub silent :
      (r : R) (x : Line)
      → (sink r).cancelled ≡ false
      → (sink (feed r (arrival x false))).cancelled ≡ true
      → (sink (feed r (arrival x false))).events ≡ (sink r).events

forward_says :
    (t : EventType) (x : Line) (l : Bytes) (s : Sink)
    → (sent : List StreamEvent) × ((forward t (arrival x true) l s).events ≡ s.events ++ sent)
      × (length sent ≤ 1)
unfolding forward
forward_says t x l s = elim (Bool-cases (add x.1 s.out l).spilled) [
  | inl e ↦ ([], ground (arith, append-nil s.events), omega arith)
  | inr e ↦ (
    record { type = t; chunk = l ++ b'\n' ∷ []; exit_code = pos 0; error = [] } ∷ [],
    rw e refl,
    omega arith,
  )
]

forward_goes_on :
    (t : EventType) (x : Line) (l : Bytes) (s : Sink)
    → s.cancelled ≡ false
    → (forward t (arrival x true) l s).cancelled ≡ false
unfolding forward
forward_goes_on t x l s e = ground arith

forward_silent :
    (t : EventType) (x : Line) (l : Bytes) (s : Sink)
    → s.cancelled ≡ false
    → (forward t (arrival x false) l s).cancelled ≡ true
    → (forward t (arrival x false) l s).events ≡ s.events
unfolding forward
forward_silent t x l s e f = ground arith

pub stderr-Feeds : Feeds feed_stderr same_sink
stderr-Feeds = record {
  says = λ s x. forward_says EventType.stderr x x.0 s;
  goes_on = λ s x. forward_goes_on EventType.stderr x x.0 s;
  silent = λ s x. forward_silent EventType.stderr x x.0 s;
}

-- A line of stdout is forwarded, in whole or up to the marker, or leaves the sink as it was.
forwards :
    (s : Scan) (x : Line)
    → ((l : Bytes) × ((b : Bool)
          → (scan_line s (arrival x b)).sink ≡ forward EventType.stdout (arrival x b) l s.sink))
      ⊎ ((b : Bool) → (scan_line s (arrival x b)).sink ≡ s.sink)
unfolding scan_line
forwards s x = elim (Option-cases (cut_suffix marker_env_start x.0)) [
  | inr (prefix, e) ↦ elim (Bool-cases (is_empty prefix)) [
    | inl f ↦ inr (λ b. ground arith)
    | inr f ↦ inl (prefix, λ b. ground arith)
  ]
  | inl e ↦ elim (Bool-cases (str_eq x.0 marker_env_end)) [
    | inl f ↦ inr (λ b. ground arith)
    | inr f ↦ elim (Bool-cases s.in_env) [
      | inl g ↦ inr (λ b. ground arith)
      | inr g ↦ elim (Option-cases (cut_prefix marker_pwd_prefix x.0)) [
        | inr (after, h) ↦ inr (λ b. ground arith)
        | inl h ↦ elim (Bool-cases (has_prefix marker_exit_pref x.0)) [
          | inl k ↦ inr (λ b. ground arith)
          | inr k ↦ inl (x.0, λ b. ground arith)
        ]
      ]
    ]
  ]
]

pub stdout-Feeds : Feeds scan_line scan_sink
stdout-Feeds = record {
  says = λ s x. elim (forwards s x) [
    | inl (l, e) ↦
        let (sent, says, few) = forward_says EventType.stdout x l s.sink in
        (sent, ap (λ t. t.events) (e true) ∙ says, few)
    | inr e ↦ ([], ap (λ t. t.events) (e true) ∙ sym (append-nil s.sink.events), omega arith)
  ];
  goes_on = λ s x o. elim (forwards s x) [
    | inl (l, e) ↦ ap (λ t. t.cancelled) (e true) ∙ forward_goes_on EventType.stdout x l s.sink o
    | inr e ↦ ap (λ t. t.cancelled) (e true) ∙ o
  ];
  silent = λ s x o c. elim (forwards s x) [
    | inl (l, e) ↦
        ap (λ t. t.events) (e false)
        ∙ forward_silent EventType.stdout x l s.sink o (sym (ap (λ t. t.cancelled) (e false)) ∙ c)
    | inr e ↦ ap (λ t. t.events) (e false)
  ];
}
