-- ===== src/Agent/Relay/Plain.antt =====
-- Lines that hold no marker, under no cap: the reader of stdout sends each as it is.
use lean_sandbox.Common.{◌<◌, ◌≡◌, ap, ◌∙◌, true, false, none, [], ◌∷◌, ◌++◌, length, arith}
use lean_sandbox.Common.Int.{pos}
use lean_sandbox.Common.Text.{Bytes, str_eq, cut_suffix, cut_prefix, has_prefix}
use lean_sandbox.Api.{StreamEvent, EventType}
use lean_sandbox.Agent.Output.{Disk, Output, add, store_line}
use lean_sandbox.Agent.Pump.{Sink, Scan, scan_line, forward}
use lean_sandbox.Agent.Script.{
  marker_env_start, marker_env_end, marker_pwd_prefix, marker_exit_pref,
}
use lean_sandbox.Agent.Relay.{scan_limit, Line, arrival}

-- A line that is none of the markers and that the scanner's buffer holds.
pub record Plain (x : Line) : Type 0 where
  pub no_start : cut_suffix marker_env_start x.0 ≡ none
  pub no_end : str_eq x.0 marker_env_end ≡ false
  pub no_pwd : cut_prefix marker_pwd_prefix x.0 ≡ none
  pub no_exit : has_prefix marker_exit_pref x.0 ≡ false
  pub fits : length x.0 < scan_limit

-- The reader of stdout under no cap, outside the markers of the environment.
pub record Uncapped (s : Scan) : Type 0 where
  pub outside : s.in_env ≡ false
  pub no_cap : s.sink.out.max ≡ 0
  pub in_memory : s.sink.out.spilled ≡ false

abbrev pub event_of : Line → StreamEvent
event_of x = record {
  type = EventType.stdout;
  chunk = x.0 ++ b'\n' ∷ [];
  exit_code = pos 0;
  error = [];
}

add-uncapped : (d : Disk) (o : Output) (line : Bytes) → o.max ≡ 0 → add d o line ≡ store_line o line
unfolding add store_line
add-uncapped d o line m = ground arith

forward-uncapped :
    (x : Line) (s : Sink)
    → s.out.max ≡ 0
    → s.out.spilled ≡ false
    → forward EventType.stdout (arrival x true) x.0 s
      ≡ record s { out = store_line s.out x.0; events = s.events ++ event_of x ∷ [] }
unfolding forward store_line
forward-uncapped x s m n = let h = add-uncapped x.1 s.out x.0 m in ground arith

scan_line-Plain :
    (s : Scan) (x : Line)
    → Plain x
    → s.in_env ≡ false
    → scan_line s (arrival x true)
      ≡ record s { sink = forward EventType.stdout (arrival x true) x.0 s.sink }
unfolding scan_line
scan_line-Plain s x p o =
    let a = p.no_start in let b = p.no_end in let c = p.no_pwd in let d = p.no_exit in ground arith

abbrev pub grown : Scan → Line → Scan
grown s x = record s {
  sink = record (s.sink) {
    out = store_line s.sink.out x.0;
    events = s.sink.events ++ event_of x ∷ [];
  };
}

pub scan_line-grown :
    (s : Scan) (x : Line) → Plain x → Uncapped s → scan_line s (arrival x true) ≡ grown s x
scan_line-grown s x p u =
    scan_line-Plain s x p u.outside
    ∙ ap (λ t. record s { sink = t }) (forward-uncapped x s.sink u.no_cap u.in_memory)

pub grown-Uncapped : (s : Scan) (x : Line) → Uncapped s → Uncapped (grown s x)
unfolding store_line
grown-Uncapped s x u = record { outside = u.outside; no_cap = u.no_cap; in_memory = u.in_memory }
