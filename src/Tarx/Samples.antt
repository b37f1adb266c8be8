-- ===== src/Tarx/Samples.antt =====
-- Unpacking an entry that climbs, in a file system that keeps what is written.
use lean_sandbox.Common.{◌≡◌, refl, none, [], ◌∷◌, List, All}
use lean_sandbox.Common.Text.{Bytes, text, str_eq}
use lean_sandbox.Common.Paths.{clean_parts, split_slash, resolve, resolve_all}
use lean_sandbox.Files.Toy.{drawer}
use lean_sandbox.Tarx.{Next, entry, reg, unpack, unpack_at, mkdir_parent, write_file}
use lean_sandbox.Tarx.Confined.{Inside, Confines, unpack-Confines}

abbrev climbing : List Next
climbing =
    entry (record { name = text "../a/../../b/c"; flag = reg; link = []; mode = 420 })
      (record { bytes = text "x"; read_error = none })
    ∷ []

unpack-climbing :
    unpack drawer (text "/r") climbing [] ≡ (none, (text "b" ∷ text "c" ∷ [], text "x") ∷ [])
unfolding unpack clean_parts split_slash resolve resolve_all str_eq unpack_at mkdir_parent
    write_file
unpack-climbing = refl

-- Every file that is written is inside.
abbrev AllInside : List (List Bytes × Bytes) → Type 0
AllInside = All (λ f. Inside f.0)

drawer-Confines : Confines drawer (text "/r") AllInside
drawer-Confines = record {
  by_mkdir_all = λ w p. p;
  by_open_root = λ w p. p;
  by_mkdir = λ rel w h p. p;
  by_create = λ rel w h p. p;
  by_write = λ rel s w h p. (h, p);
  by_chmod = λ rel m w h p. p;
  by_symlink = λ rel link w h p. p;
  by_remove = λ rel w h p. p;
}

unpack-Confines_example : AllInside (unpack drawer (text "/r") climbing []).1
unpack-Confines_example =
    unpack-Confines drawer (text "/r") climbing [] AllInside drawer-Confines tt
