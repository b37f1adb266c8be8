-- ===== src/Agent/Relay/Reading.antt =====
-- What one reading goroutine has made of its lines, whatever the turns of the others.
use lean_sandbox.Common.{
  ℕ, ◌≤◌, ◌≡◌, refl, sym, ap, ◌∙◌, Bool, true, false, List, [], ◌∷◌, ◌++◌, length, inl, inr, ◌⊎◌,
  arith, if◌then◌else◌, Bool-cases,
}
use mathlib.Core.List.{append_assoc, append-nil}
use lean_sandbox.Api.{StreamEvent}
use lean_sandbox.Agent.Pump.{Arrival, Sink, Scan, scan_line, scan_stdout, scan_stderr}
use lean_sandbox.Agent.Relay.{
  Line, arrival, Reader, AtEnd, Turn, reads, gives_up, stops, feed_stderr, scan_sink, same_sink,
}
use lean_sandbox.Agent.Relay.Feeding.{Feeds}

-- the lines of what was read
abbrev pub taken : List Arrival → List Line
taken [] = []
taken (a ∷ past) = (a.line, a.disk) ∷ taken past

taken-append : (xs ys : List Arrival) → taken (xs ++ ys) ≡ taken xs ++ taken ys
taken-append [] ys = refl
taken-append (a ∷ xs) ys = ap (◌∷◌ (a.line, a.disk)) (taken-append xs ys)

module _ {R : Type 0} (feed : R → Arrival → R) (sink : R → Sink) where
  -- The loop, for any body.
  unfoldable pub feed_all : R → List Arrival → R
  feed_all r [] = r
  feed_all r (a ∷ past) =
      let more = feed_all (feed r a) past in if (sink r).cancelled then r else more

  feed_all-append :
      (r : R) (past : List Arrival) (a : Arrival)
      → (sink (feed_all r past)).cancelled ≡ false
      → feed_all r (past ++ a ∷ []) ≡ feed (feed_all r past) a
  unfolding feed_all
  feed_all-append r [] a o = rw o refl
  feed_all-append r (b ∷ past) a o = elim (Bool-cases (sink r).cancelled) [
    | inl e ↦ absurd (ground arith)
    | inr e ↦ rw (e, feed_all) (feed_all-append (feed r b) past a (rw (e, feed_all) at o))
  ]

  -- What a reader has made of the lines that it was given.
  pub record Read (start : R) (lines : List Line) (cancelled : Bool) (r : Reader R) : Type 0 where
    pub past : List Arrival
    pub fed : r.at ≡ feed_all start past
    pub split : lines ≡ taken past ++ r.rest
    pub open_lem : r.going ≡ true → (sink r.at).cancelled ≡ false
    pub shut : r.going ≡ false → (cancelled ≡ true) ⊎ AtEnd r.rest

  pub Read-begin :
      (start : R) (lines : List Line)
      → (sink start).cancelled ≡ false
      → Read start lines false (record { at = start; rest = lines; going = true })
  unfolding feed_all
  Read-begin start lines o = record {
    past = [];
    fed = refl;
    split = refl;
    open_lem = λ _. o;
    shut = λ e. absurd (cc e);
  }

  pub Read-cancelled :
      (start : R) (lines : List Line) (c : Bool) (r : Reader R)
      → Read start lines c r
      → Read start lines true r
  Read-cancelled start lines c r v = record {
    past = v.past;
    fed = v.fed;
    split = v.split;
    open_lem = v.open_lem;
    shut = λ _. inl refl;
  }

  taken-past :
      (lines : List Line) (past : List Arrival) (x : Line) (rest old : List Line) (b : Bool)
      → lines ≡ taken past ++ old
      → old ≡ x ∷ rest
      → lines ≡ taken (past ++ arrival x b ∷ []) ++ rest
  taken-past lines past x rest old b e f =
      e
      ∙ ap (◌++◌ (taken past)) f
      ∙ sym (
          ap (λ t. t ++ rest) (taken-append past (arrival x b ∷ []))
          ∙ append_assoc (taken past) (x ∷ []) rest)

  module _ (laws : Feeds feed sink) where
    pub Turn-Read :
        (room : ℕ) (c : Bool) (start : R) (lines : List Line) {r t : Reader R}
        {sent : List StreamEvent}
        → Turn feed sink room c r sent t
        → Read start lines c r
        → Read start lines c t
    Turn-Read room c start lines (reads r x rest sent g e l says few) v =
        let o = v.open_lem g in
        record {
          past = v.past ++ arrival x true ∷ [];
          fed =
              ap (λ s. feed s (arrival x true)) v.fed
              ∙ sym (
                  feed_all-append start v.past (arrival x true)
                    (sym (ap (λ s. (sink s).cancelled) v.fed) ∙ o));
          split = taken-past lines v.past x rest r.rest true v.split e;
          open_lem = λ _. laws.goes_on r.at x o;
          shut = λ k. absurd (cc k);
        }
    Turn-Read room c start lines (gives_up r x rest g e l k stop) v =
        let o = v.open_lem g in
        record {
          past = v.past ++ arrival x false ∷ [];
          fed =
              ap (λ s. feed s (arrival x false)) v.fed
              ∙ sym (
                  feed_all-append start v.past (arrival x false)
                    (sym (ap (λ s. (sink s).cancelled) v.fed) ∙ o));
          split = taken-past lines v.past x rest r.rest false v.split e;
          open_lem = λ k. absurd (cc k);
          shut = λ _. inl k;
        }
    Turn-Read room c start lines (stops r g end) v = record {
      past = v.past;
      fed = v.fed;
      split = v.split;
      open_lem = λ k. absurd (cc k);
      shut = λ _. inr end;
    }

    -- What a turn sends is what it adds to the events.
    pub Turn-events :
        (room : ℕ) (c : Bool) (start : R) (lines : List Line) {r t : Reader R}
        {sent : List StreamEvent}
        → Turn feed sink room c r sent t
        → Read start lines c r
        → ((sink t.at).events ≡ (sink r.at).events ++ sent) × (length sent ≤ room)
    Turn-events room c start lines (reads r x rest sent g e l says few) v = (says, few)
    Turn-events room c start lines (gives_up r x rest g e l k stop) v =
        (laws.silent r.at x (v.open_lem g) stop ∙ sym (append-nil (sink r.at).events), omega arith)
    Turn-events room c start lines (stops r g end) v =
        (sym (append-nil (sink r.at).events), omega arith)

pub scan_stdout-feed_all :
    (s : Scan) (past : List Arrival) → feed_all scan_line scan_sink s past ≡ scan_stdout s past
unfolding feed_all scan_stdout
scan_stdout-feed_all s [] = refl
scan_stdout-feed_all s (a ∷ past) =
    ap (λ t. if s.sink.cancelled then s else t) (scan_stdout-feed_all (scan_line s a) past)

pub scan_stderr-feed_all :
    (s : Sink) (past : List Arrival) → feed_all feed_stderr same_sink s past ≡ scan_stderr s past
unfolding feed_all scan_stderr
scan_stderr-feed_all s [] = refl
scan_stderr-feed_all s (a ∷ past) =
    ap (λ t. if s.cancelled then s else t) (scan_stderr-feed_all (feed_stderr s a) past)
