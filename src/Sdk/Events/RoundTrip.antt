-- ===== src/Sdk/Events/RoundTrip.antt =====
-- What the client reads of the frames of a run.
use lean_sandbox.Common.{
  ℕ, ◌+◌, ◌<◌, ◌≡◌, ◌≢◌, refl, ap, ◌∙◌, false, inl, inr, Option, none, some, List, [], ◌∷◌, ◌++◌,
  All, All-append, arith, length, ◌==◌, leb, if◌then◌else◌, Bool-cases,
}
use mathlib.Core.List.{append_assoc}
use lean_sandbox.Common.Text.{Bytes, text, cut_prefix}
use lean_sandbox.Api.{StreamEvent, EventType}
use lean_sandbox.Http.{Coder, IsLawful}
use lean_sandbox.Agent.Frames.{Tick, gone, ping, event, unless_done, event_frame, frame, frames}
use lean_sandbox.Sdk.Events.{
  raw_lines, drop_cr, max_line, failed_event, event_of, read_line, read_events,
}

-- A byte that stays inside a line.
abbrev pub InLine : Bytes → Type 0
InLine = All (λ c. (c ≢ b'\n') × (c ≢ 13))

-- What JSON is relied on for: it reads back what it wrote, writes no line break and no carriage
-- return, and reads nothing from an empty text.
pub record OneLine (c : Coder StreamEvent) : Type 0 where
  pub lawful : IsLawful c
  pub in_line : (e : StreamEvent) (b : Bytes) → c.marshal e ≡ some b → InLine b
  pub empty_fails : (t : Bytes) × ((c.unmarshal []).1 ≡ some t)

-- The event fits the client's buffer.
abbrev pub Fits : Coder StreamEvent → Tick → Type 0
Fits c gone = Unit {0}
Fits c ping = Unit {0}
Fits c (event e) = (b : Bytes) → c.marshal e ≡ some b → 6 + length b < max_line

abbrev pub until_done : EventType → List StreamEvent → List StreamEvent
until_done EventType.done rest = []
until_done EventType.stdout rest = rest
until_done EventType.stderr rest = rest

abbrev pub if_marshalled : Option Bytes → List StreamEvent → List StreamEvent
if_marshalled none es = []
if_marshalled (some b) es = es

-- The events up to the first one that ends the run, up to the end of the request, and up to the
-- first that cannot be marshalled.
abbrev pub sent : Coder StreamEvent → List Tick → List StreamEvent
sent c [] = []
sent c (gone ∷ ticks) = []
sent c (ping ∷ ticks) = sent c ticks
sent c (event e ∷ ticks) = if_marshalled (c.marshal e) (e ∷ until_done e.type (sent c ticks))

raw_lines_next : (l rest : Bytes) → InLine l → raw_lines (l ++ b'\n' ∷ rest) ≡ l ∷ raw_lines rest
unfolding raw_lines
raw_lines_next [] rest n = refl
raw_lines_next (c ∷ l) rest n = elim (Bool-cases (c == b'\n')) [
  | inl e ↦ absurd (n.0.0 (ground arith))
  | inr e ↦ rw (e, raw_lines_next l rest n.1) refl
]

drop_cr_lem : (l : Bytes) → InLine l → drop_cr l ≡ l
unfolding drop_cr
drop_cr_lem [] n = refl
drop_cr_lem (c ∷ []) n = elim (Bool-cases (c == 13)) [
  | inl e ↦ absurd (n.0.1 (ground arith))
  | inr e ↦ rw e refl
]
drop_cr_lem (c ∷ d ∷ l) n = ap (◌∷◌ c) (drop_cr_lem (d ∷ l) n.1)

fits : (n : ℕ) → n < max_line → leb max_line n ≡ false
fits n l = ground arith

data_InLine : InLine (text "data: ")
data_InLine = omega arith

raw_lines_data : raw_lines (text "data: ") ≡ text "data: " ∷ []
unfolding raw_lines
raw_lines_data = refl

frames_ping :
    (c : Coder StreamEvent) (ticks : List Tick)
    → frames c (ping ∷ ticks) ≡ text ": ping\n\n" ++ frames c ticks
unfolding frames
frames_ping c ticks = refl

frames_event :
    (c : Coder StreamEvent) (e : StreamEvent) (ticks : List Tick)
    → frames c (event e ∷ ticks) ≡ event_frame (c.marshal e) e.type (frames c ticks)
unfolding frames
frames_event c e ticks = refl

module _ (c : Coder StreamEvent) where
  read_next :
      (line : Bytes) (lines : List Bytes)
      → InLine line
      → length line < max_line
      → read_events c none (line ∷ lines) ≡ read_line c line ++ read_events c none lines
  unfolding read_events
  read_next line lines n l =
      ap
        (λ t.
          if t
          then failed_event (text "bufio.Scanner: token too long") ∷ []
          else read_line c (drop_cr line) ++ read_events c none lines)
        (fits (length line) l)
      ∙ ap (λ t. read_line c t ++ read_events c none lines) (drop_cr_lem line n)

  read_blank : (lines : List Bytes) → read_events c none ([] ∷ lines) ≡ read_events c none lines
  read_blank lines = read_next [] lines tt (omega arith) ∙ (unfold read_line cut_prefix in refl)

  read_ping :
      (rest : Bytes)
      → read_events c none (raw_lines (text ": ping\n\n" ++ rest))
        ≡ read_events c none (raw_lines rest)
  read_ping rest =
      ap (read_events c none) (
        raw_lines_next (text ": ping") (b'\n' ∷ rest) (omega arith)
        ∙ ap (◌∷◌ (text ": ping")) (raw_lines_next [] rest tt))
      ∙ read_next (text ": ping") ([] ∷ raw_lines rest) (omega arith) (omega arith)
      ∙ (unfold read_line cut_prefix in read_blank (raw_lines rest))

  read_data : (b : Bytes) → read_line c (text "data: " ++ b) ≡ event_of (c.unmarshal b)
  unfolding read_line cut_prefix
  read_data b = refl

  read_frame :
      (b rest : Bytes)
      → InLine b
      → 6 + length b < max_line
      → read_events c none (raw_lines (frame b ++ rest))
        ≡ event_of (c.unmarshal b) ++ read_events c none (raw_lines rest)
  read_frame b rest n l =
      let line = text "data: " ++ b in
      let k = All-append (λ c. (c ≢ b'\n') × (c ≢ 13)) (text "data: ") b data_InLine n in
      ap (λ t. read_events c none (raw_lines (text "data: " ++ t)))
        (append_assoc b (text "\n\n") rest)
      ∙ ap (read_events c none)
          (raw_lines_next line (b'\n' ∷ rest) k ∙ ap (◌∷◌ line) (raw_lines_next [] rest tt))
      ∙ read_next line ([] ∷ raw_lines rest) k (omega arith)
      ∙ ap (λ t. read_line c line ++ t) (read_blank (raw_lines rest))
      ∙ ap (λ t. t ++ read_events c none (raw_lines rest)) (read_data b)

  module _ (law : OneLine c) where
    read_nothing : read_events c none (raw_lines (text "data: ")) ≡ []
    read_nothing =
        let (t, e) = law.empty_fails in
        ap (read_events c none) raw_lines_data
        ∙ read_next (text "data: ") [] data_InLine (omega arith)
        ∙ ap (λ x. x ++ read_events c none []) (read_data [] ∙ lost (c.unmarshal []) t e)
        ∙ (unfold read_events in refl)
      where
        lost : (d : StreamEvent × Option Bytes) (t : Bytes) → d.1 ≡ some t → event_of d ≡ []
        lost (e, none) t p = absurd (cc p)
        lost (e, some u) t p = refl

    read_event :
        (e : StreamEvent) (o : Option Bytes) (rest : Bytes) (es : List StreamEvent)
        → c.marshal e ≡ o
        → ((b : Bytes) → c.marshal e ≡ some b → 6 + length b < max_line)
        → read_events c none (raw_lines rest) ≡ es
        → read_events c none (raw_lines (event_frame o e.type rest))
          ≡ if_marshalled o (e ∷ until_done e.type es)
    read_event e none rest es m l h = read_nothing
    read_event e (some b) rest es m l h =
        read_frame b (unless_done e.type rest) (law.in_line e b m) (l b m)
        ∙ ap (λ d. event_of d ++ read_events c none (raw_lines (unless_done e.type rest)))
            (law.lawful.unmarshal_marshal e b m)
        ∙ ap (◌∷◌ e) (go e.type)
      where
        go : (t : EventType) → read_events c none (raw_lines (unless_done t rest)) ≡ until_done t es
        go EventType.done = unfold read_events raw_lines in refl
        go EventType.stdout = h
        go EventType.stderr = h

-- Whatever pings come between the events, the client reads from the frames of a run the events that
-- the agent was given, each once and in their order, up to and with the one that ends the run, or up
-- to the first that cannot be marshalled, if every event's frame fits the client's buffer.
pub read_events-frames :
    (c : Coder StreamEvent) (ticks : List Tick)
    → OneLine c
    → All (Fits c) ticks
    → read_events c none (raw_lines (frames c ticks)) ≡ sent c ticks
read_events-frames c [] law f = unfold read_events raw_lines frames in refl
read_events-frames c (gone ∷ ticks) law f = unfold read_events raw_lines frames in refl
read_events-frames c (ping ∷ ticks) law f =
    ap (λ t. read_events c none (raw_lines t)) (frames_ping c ticks)
    ∙ read_ping c (frames c ticks)
    ∙ read_events-frames c ticks law f.1
read_events-frames c (event e ∷ ticks) law f =
    ap (λ t. read_events c none (raw_lines t)) (frames_event c e ticks)
    ∙ read_event c law e (c.marshal e) (frames c ticks) (sent c ticks) refl f.0
        (read_events-frames c ticks law f.1)
