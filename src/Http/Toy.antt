-- ===== src/Http/Toy.antt =====
-- A coding of lists of texts, as an instance of what JSON is relied on for.
use lean_sandbox.Common.{
  ℕ, ◌+◌, ◌-◌, ◌≡◌, ◌≢◌, refl, sym, ap, ◌∙◌, zero, suc, false, Option, none, some, List, [], ◌∷◌,
  ◌++◌, All, All-append, arith, ◌==◌, if◌then◌else◌,
}
use mathlib.Core.Path.{subst}
use lean_sandbox.Common.Int.{pos}
use lean_sandbox.Common.Text.{Bytes, text}
use lean_sandbox.Common.Paths.{push_byte}
use lean_sandbox.Api.{EventType, StreamEvent, SandboxView}
use lean_sandbox.Http.{Coder, IsLawful}
use lean_sandbox.Jwt.Toy.{shift, tag, size, number, number-tag}

-- Bytes are shifted past the byte 20, which ends each text.
abbrev pub write_parts : List Bytes → Bytes
write_parts [] = []
write_parts (p ∷ ps) = shift p ++ 20 ∷ write_parts ps

unfoldable pub read_parts : Bytes → List Bytes
read_parts [] = []
read_parts (c ∷ s) =
    let rest = read_parts s in if c == 20 then [] ∷ rest else push_byte (c - 47) rest

read_part : (p s : Bytes) → read_parts (shift p ++ 20 ∷ s) ≡ p ∷ read_parts s
unfolding read_parts
read_part [] s = refl
read_part (c ∷ p) s =
    let e : (c + 47 == 20) ≡ false = ground arith in
    let f : c + 47 - 47 ≡ c = omega arith in rw (e, read_part p s, f) refl

pub read_parts-write_parts : (ps : List Bytes) → read_parts (write_parts ps) ≡ ps
read_parts-write_parts [] = unfold read_parts in refl
read_parts-write_parts (p ∷ ps) =
    read_part p (write_parts ps) ∙ ap (◌∷◌ p) (read_parts-write_parts ps)

abbrev InLine : Bytes → Type 0
InLine = All (λ c. (c ≢ b'\n') × (c ≢ 13))

shift-InLine : (p : Bytes) → InLine (shift p)
shift-InLine [] = tt
shift-InLine (c ∷ p) = (((λ e. absurd (omega arith)), (λ e. absurd (omega arith))), shift-InLine p)

write_parts-InLine : (ps : List Bytes) → InLine (write_parts ps)
write_parts-InLine [] = tt
write_parts-InLine (p ∷ ps) =
    All-append (λ c. (c ≢ b'\n') × (c ≢ 13)) (shift p) (20 ∷ write_parts ps) (shift-InLine p)
      (((λ e. absurd (omega arith)), (λ e. absurd (omega arith))), write_parts-InLine ps)

abbrev value : Option Bytes → Bytes
value none = []
value (some b) = b

abbrev pub coder : {A : Type 0} → (A → List Bytes) → (List Bytes → A × Option Bytes) → Coder A
coder f g = record { marshal = λ a. some (write_parts (f a)); unmarshal = λ b. g (read_parts b) }

pub coder-IsLawful :
    {A : Type 0} (f : A → List Bytes) (g : List Bytes → A × Option Bytes)
    → ((a : A) → g (f a) ≡ (a, none))
    → IsLawful (coder f g)
coder-IsLawful f g h = record {
  unmarshal_marshal = λ a b e.
      ap (λ t. g (read_parts t)) (sym (ap value e)) ∙ ap g (read_parts-write_parts (f a)) ∙ h a;
}

abbrev view_parts : SandboxView → List Bytes
view_parts v = (v.id ∷ []) ∷ v.image ∷ v.status ∷ v.endpoint ∷ v.access_token ∷ []

abbrev view_of : List Bytes → SandboxView × Option Bytes
view_of ((id ∷ []) ∷ image ∷ status ∷ endpoint ∷ token ∷ []) = (
  record { id = id; image = image; status = status; endpoint = endpoint; access_token = token },
  none,
)
view_of _ = (
  record { id = 0; image = []; status = []; endpoint = []; access_token = [] },
  some (text "EOF"),
)

abbrev pub views : Coder SandboxView
views = coder view_parts view_of

pub views-IsLawful : IsLawful views
views-IsLawful = coder-IsLawful view_parts view_of (λ v. refl)

abbrev pub errors : Coder Bytes
errors = record { marshal = λ e. some e; unmarshal = λ b. (b, none) }

pub errors-IsLawful : IsLawful errors
errors-IsLawful = record { unmarshal_marshal = λ a b e. ap (λ t. (value t, none)) (sym e) }

abbrev type_tag : EventType → ℕ
type_tag EventType.stdout = 0
type_tag EventType.stderr = 1
type_tag EventType.done = 2

abbrev type_of : ℕ → EventType
type_of zero = EventType.stdout
type_of (suc zero) = EventType.stderr
type_of (suc (suc n)) = EventType.done

abbrev event_parts : StreamEvent → List Bytes
event_parts e =
    (type_tag e.type ∷ []) ∷ e.chunk ∷ (tag e.exit_code ∷ size e.exit_code ∷ []) ∷ e.error ∷ []

abbrev event_of : List Bytes → StreamEvent × Option Bytes
event_of ((t ∷ []) ∷ chunk ∷ (a ∷ b ∷ []) ∷ error ∷ []) =
    (record { type = type_of t; chunk = chunk; exit_code = number a b; error = error }, none)
event_of _ =
    (record { type = EventType.done; chunk = []; exit_code = pos 0; error = [] }, some (text "EOF"))

abbrev pub events : Coder StreamEvent
events = coder event_parts event_of

type_of-type_tag : (t : EventType) → type_of (type_tag t) ≡ t
type_of-type_tag EventType.stdout = refl
type_of-type_tag EventType.stderr = refl
type_of-type_tag EventType.done = refl

pub events-IsLawful : IsLawful events
events-IsLawful =
    coder-IsLawful event_parts event_of
      (λ e. rw (type_of-type_tag e.type, number-tag e.exit_code) refl)

pub events-InLine : (e : StreamEvent) (b : Bytes) → events.marshal e ≡ some b → InLine b
events-InLine e b m = subst (λ o. InLine (value o)) m (write_parts-InLine (event_parts e))
