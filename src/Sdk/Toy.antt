-- ===== src/Sdk/Toy.antt =====
-- A coding of tar streams, and what a client codes, as instances of what the client relies on.
use lean_sandbox.Common.{◌≡◌, refl, sym, ap, ◌∙◌, Bool, none, some, List, [], ◌∷◌, All}
use lean_sandbox.Common.Int.{pos}
use lean_sandbox.Common.Text.{Bytes, text}
use lean_sandbox.Common.Decimal.{decimal}
use lean_sandbox.Http.{Coder}
use lean_sandbox.Http.Toy.{write_parts, read_parts, read_parts-write_parts, views, errors, events}
use lean_sandbox.Tarx.{Flag, dir, reg, symlink, flag, Next, entry, bad}
use lean_sandbox.Sdk.{Codes}
use lean_sandbox.Sdk.Transfers.{IsWhole}

abbrev flag_part : Flag → Bytes
flag_part dir = []
flag_part reg = 1 ∷ []
flag_part symlink = 1 ∷ 1 ∷ []
flag_part (flag t) = 1 ∷ 1 ∷ 1 ∷ t ∷ []

abbrev flag_of : Bytes → Flag
flag_of [] = dir
flag_of (a ∷ []) = reg
flag_of (a ∷ b ∷ []) = symlink
flag_of (a ∷ b ∷ c ∷ []) = symlink
flag_of (a ∷ b ∷ c ∷ t ∷ rest) = flag t

flag_of-flag_part : (f : Flag) → flag_of (flag_part f) ≡ f
flag_of-flag_part dir = refl
flag_of-flag_part reg = refl
flag_of-flag_part symlink = refl
flag_of-flag_part (flag t) = refl

abbrev entry_parts : List Next → List Bytes
entry_parts [] = []
entry_parts (bad e ∷ entries) = []
entry_parts (entry h source ∷ entries) =
    h.name ∷ flag_part h.flag ∷ h.link ∷ (h.mode ∷ []) ∷ source.bytes ∷ entry_parts entries

abbrev entries_of : List Bytes → List Next
entries_of (name ∷ f ∷ link ∷ (mode ∷ []) ∷ content ∷ rest) =
    entry (record { name = name; flag = flag_of f; link = link; mode = mode })
      (record { bytes = content; read_error = none })
    ∷ entries_of rest
entries_of _ = []

abbrev pub tar : List Next → Bool → Bytes
tar entries closed = write_parts (entry_parts entries)

abbrev pub untar : Bytes → List Next
untar b = entries_of (read_parts b)

entries_of-entry_parts :
    (entries : List Next) → All IsWhole entries → entries_of (entry_parts entries) ≡ entries
entries_of-entry_parts [] h = refl
entries_of-entry_parts (bad e ∷ entries) h = absurd h.0
entries_of-entry_parts (entry h source ∷ entries) w =
    ap
      (λ f.
        entry (record h { flag = f }) (record { bytes = source.bytes; read_error = none })
        ∷ entries_of (entry_parts entries))
      (flag_of-flag_part h.flag)
    ∙ ap
        (λ e.
          entry h (record { bytes = source.bytes; read_error = e })
          ∷ entries_of (entry_parts entries))
        (sym w.0)
    ∙ ap (◌∷◌ (entry h source)) (entries_of-entry_parts entries w.1)

pub untar-tar :
    (entries : List Next) (closed : Bool)
    → All IsWhole entries
    → untar (tar entries closed) ≡ entries
untar-tar entries closed h =
    ap entries_of (read_parts-write_parts (entry_parts entries)) ∙ entries_of-entry_parts entries h

-- A value that is neither written nor read.
abbrev pub uncoded : {A : Type 0} → A → Coder A
uncoded a = record { marshal = λ _. none; unmarshal = λ _. (a, some (text "not coded")) }

abbrev pub codes : Codes
codes = record {
  sandbox_request = uncoded (record { image = []; timeout_seconds = pos 0 });
  view = views;
  list = uncoded [];
  error = errors;
  run_request = uncoded (record { command = []; max_stdout = pos 0; max_stderr = pos 0 });
  run_response =
      uncoded (record {
        stdout = [];
        stderr = [];
        exit_code = pos 0;
        stdout_path = [];
        stderr_path = [];
      });
  event = events;
  tar = tar;
  untar = untar;
  id_string = decimal;
  status_line = decimal;
  status_text = λ _. [];
}
