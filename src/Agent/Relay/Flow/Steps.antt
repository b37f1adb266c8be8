-- ===== src/Agent/Relay/Flow/Steps.antt =====
-- Every turn of a goroutine of `pump` keeps what holds between the turns.
use lean_sandbox.Common.{
  ℕ, ◌+◌, ◌<◌, ◌≡◌, refl, sym, ap, ◌∙◌, true, false, none, some, List, [], ◌∷◌, ◌++◌, length,
  length-append, inl, inr, arith,
}
use mathlib.Core.Path.{subst}
use mathlib.Core.List.{append_assoc, append-nil}
use lean_sandbox.Common.Text.{Bytes}
use lean_sandbox.Api.{StreamEvent}
use lean_sandbox.Agent.Pump.{Sink, Scan, start_sink, start_scan, scan_line}
use lean_sandbox.Agent.Session.{Session, Wait, conclude}
use lean_sandbox.Agent.Relay.{
  capacity, Line, Reader, Turn, feed_stderr, scan_sink, same_sink, Relay, context_error, Step,
  stdout_turns, stderr_turns, cancels, exits, concludes, ends, receives, leaves, begin, Run, here,
  next,
}
use lean_sandbox.Agent.Relay.Shuffle.{Shuffle, Shuffle-left, Shuffle-right}
use lean_sandbox.Agent.Relay.Feeding.{stdout-Feeds, stderr-Feeds}
use lean_sandbox.Agent.Relay.Reading.{Read-cancelled, Turn-Read, Turn-events}
use lean_sandbox.Agent.Relay.Flow.{
  finale, Concluded, Flow, Turn-going, begin-Flow, still_open, append_order, append_bound,
}

module _ (e : Bytes) (pipe : ℕ) (session : Session) (max_out max_err : ℕ)
    (out err : List Line) where
  abbrev Flows : Relay → Type 0
  Flows = Flow e session max_out max_err out err

  stdout-Flow :
      (s : Relay) (room : ℕ) (sent : List StreamEvent) (r : Reader Scan)
      → length s.channel + room ≡ capacity
      → Turn scan_line scan_sink room s.cancelled s.stdout sent r
      → Flows s
      → Flows (record s { stdout = r; channel = s.channel ++ sent })
  stdout-Flow s room sent r room_left t f =
      let n =
        still_open e session max_out max_err out err s f
          (inl (Turn-going scan_line scan_sink room s.cancelled t)) in
      let (says, few) =
        Turn-events scan_line scan_sink stdout-Feeds room s.cancelled (start_scan max_out) out t
          f.out_read in
      record {
        out_read =
            Turn-Read scan_line scan_sink stdout-Feeds room s.cancelled (start_scan max_out) out t
              f.out_read;
        err_read = f.err_read;
        merged = f.merged ++ sent;
        mixes =
            subst (λ xs. Shuffle xs s.stderr.at.events (f.merged ++ sent)) (sym says)
              (Shuffle-left sent f.mixes);
        in_order = append_order e session max_out max_err out err s sent f n;
        bounded = append_bound e session max_out max_err out err s sent room room_left few;
        not_yet = f.not_yet;
        over = λ v k. absurd (cc (n, k));
      }

  stderr-Flow :
      (s : Relay) (room : ℕ) (sent : List StreamEvent) (r : Reader Sink)
      → length s.channel + room ≡ capacity
      → Turn feed_stderr same_sink room s.cancelled s.stderr sent r
      → Flows s
      → Flows (record s { stderr = r; channel = s.channel ++ sent })
  stderr-Flow s room sent r room_left t f =
      let n =
        still_open e session max_out max_err out err s f
          (inr (Turn-going feed_stderr same_sink room s.cancelled t)) in
      let (says, few) =
        Turn-events feed_stderr same_sink stderr-Feeds room s.cancelled (start_sink max_err) err t
          f.err_read in
      record {
        out_read = f.out_read;
        err_read =
            Turn-Read feed_stderr same_sink stderr-Feeds room s.cancelled (start_sink max_err) err t
              f.err_read;
        merged = f.merged ++ sent;
        mixes =
            subst (λ ys. Shuffle s.stdout.at.sink.events ys (f.merged ++ sent)) (sym says)
              (Shuffle-right sent f.mixes);
        in_order = append_order e session max_out max_err out err s sent f n;
        bounded = append_bound e session max_out max_err out err s sent room room_left few;
        not_yet = f.not_yet;
        over = λ v k. absurd (cc (n, k));
      }

  cancels-Flow : (s : Relay) → Flows s → Flows (record s { cancelled = true })
  cancels-Flow s f = record {
    out_read =
        Read-cancelled scan_line scan_sink (start_scan max_out) out s.cancelled s.stdout f.out_read;
    err_read =
        Read-cancelled feed_stderr same_sink (start_sink max_err) err s.cancelled s.stderr
          f.err_read;
    merged = f.merged;
    mixes = f.mixes;
    in_order = f.in_order;
    bounded = f.bounded;
    not_yet = f.not_yet;
    over = λ v k.
        let c = f.over v k in
        record {
          at_cancel = c.at_cancel;
          waited = c.waited;
          has_waited = c.has_waited;
          out_shut = c.out_shut;
          err_shut = c.err_shut;
          end = c.end;
          was_cancelled = λ _. refl;
        };
  }

  exits-Flow : (s : Relay) (w : Wait) → s.wait ≡ none → Flows s → Flows (record s { wait = some w })
  exits-Flow s w n f = record {
    out_read = f.out_read;
    err_read = f.err_read;
    merged = f.merged;
    mixes = f.mixes;
    in_order = f.in_order;
    bounded = f.bounded;
    not_yet = f.not_yet;
    over = λ v k. absurd (cc (n, (f.over v k).has_waited));
  }

  concludes-Flow :
      (s : Relay) (w : Wait)
      → s.wait ≡ some w
      → s.stdout.going ≡ false
      → s.stderr.going ≡ false
      → s.last ≡ none
      → Flows s
      → Flows (
          let end = conclude s.session s.stdout.at (context_error e s.cancelled) w in
          record s { session = end.0; last = some end.1 })
  concludes-Flow s w has o r n f =
      let end = conclude s.session s.stdout.at (context_error e s.cancelled) w in
      let no_end : finale s.ended s.last ≡ [] = ap (λ b. finale b s.last) (f.not_yet n).0 in
      let still_none : finale s.ended (some end.1) ≡ [] =
        ap (λ b. finale b (some end.1)) (f.not_yet n).0 in
      record {
        out_read = f.out_read;
        err_read = f.err_read;
        merged = f.merged;
        mixes = f.mixes;
        in_order = f.in_order ∙ ap (λ t. f.merged ++ t) (no_end ∙ sym still_none);
        bounded = f.bounded;
        not_yet = λ k. absurd (cc k);
        over = λ v k. record {
          at_cancel = s.cancelled;
          waited = w;
          has_waited = has;
          out_shut = o;
          err_shut = r;
          end =
              ap (λ t. conclude t s.stdout.at (context_error e s.cancelled) w) (sym (f.not_yet n).1)
              ∙ ap (λ t. (end.0, t)) (cc k);
          was_cancelled = λ h. h;
        };
      }

  over_kept :
      (s t : Relay)
      → t.wait ≡ s.wait
      → t.stdout ≡ s.stdout
      → t.stderr ≡ s.stderr
      → t.session ≡ s.session
      → t.cancelled ≡ s.cancelled
      → t.last ≡ s.last
      → (v : StreamEvent) → Concluded e session s v
      → Concluded e session t v
  over_kept s t w o r n c l v k = record {
    at_cancel = k.at_cancel;
    waited = k.waited;
    has_waited = w ∙ k.has_waited;
    out_shut = ap (λ x. x.going) o ∙ k.out_shut;
    err_shut = ap (λ x. x.going) r ∙ k.err_shut;
    end =
        ap (λ x. conclude session x.at (context_error e k.at_cancel) k.waited) o
        ∙ k.end
        ∙ ap (λ x. (x, v)) (sym n);
    was_cancelled = λ h. c ∙ k.was_cancelled h;
  }

  ends-Flow :
      (s : Relay) (v : StreamEvent)
      → s.last ≡ some v
      → s.ended ≡ false
      → length s.channel < capacity
      → Flows s
      → Flows (record s { channel = s.channel ++ v ∷ []; ended = true })
  ends-Flow s v l n room f =
      let no_end : finale s.ended s.last ≡ [] = ap (λ b. finale b s.last) n in
      record {
        out_read = f.out_read;
        err_read = f.err_read;
        merged = f.merged;
        mixes = f.mixes;
        in_order =
            sym (append_assoc s.received s.channel (v ∷ []))
            ∙ ap (λ t. t ++ v ∷ [])
                (f.in_order ∙ ap (λ t. f.merged ++ t) no_end ∙ append-nil f.merged)
            ∙ ap (λ o. f.merged ++ finale true o) (sym l);
        bounded = omega (arith, length-append s.channel (v ∷ []));
        not_yet = λ k. absurd (cc (k, l));
        over = λ u k. over_kept s _ refl refl refl refl refl refl u (f.over u k);
      }

  receives-Flow :
      (s : Relay) (v : StreamEvent) (rest : List StreamEvent)
      → s.channel ≡ v ∷ rest
      → Flows s
      → Flows (record s { channel = rest; received = s.received ++ v ∷ [] })
  receives-Flow s v rest h f = record {
    out_read = f.out_read;
    err_read = f.err_read;
    merged = f.merged;
    mixes = f.mixes;
    in_order =
        append_assoc s.received (v ∷ []) rest ∙ ap (λ t. s.received ++ t) (sym h) ∙ f.in_order;
    bounded = let b = f.bounded in omega (arith, b, ap length h);
    not_yet = f.not_yet;
    over = λ u k. over_kept s _ refl refl refl refl refl refl u (f.over u k);
  }

  leaves-Flow : (s : Relay) → Flows s → Flows (record s { listening = false })
  leaves-Flow s f = record {
    out_read = f.out_read;
    err_read = f.err_read;
    merged = f.merged;
    mixes = f.mixes;
    in_order = f.in_order;
    bounded = f.bounded;
    not_yet = f.not_yet;
    over = λ u k. over_kept s _ refl refl refl refl refl refl u (f.over u k);
  }

  Step-Flow : {s t : Relay} → Step e pipe s t → Flows s → Flows t
  Step-Flow (stdout_turns s room sent r l t) f = stdout-Flow s room sent r l t f
  Step-Flow (stderr_turns s room sent r l t) f = stderr-Flow s room sent r l t f
  Step-Flow (cancels s n) f = cancels-Flow s f
  Step-Flow (exits s w n can) f = exits-Flow s w n f
  Step-Flow (concludes s w has o r n) f = concludes-Flow s w has o r n f
  Step-Flow (ends s v l n room) f = ends-Flow s v l n room f
  Step-Flow (receives s v rest l h) f = receives-Flow s v rest h f
  Step-Flow (leaves s l) f = leaves-Flow s f

  pub Run-Flow :
      {t : Relay} {n : ℕ} → Run e pipe (begin session max_out max_err out err) t n → Flows t
  Run-Flow here = begin-Flow e session max_out max_err out err
  Run-Flow (next r step) = Step-Flow step (Run-Flow r)
