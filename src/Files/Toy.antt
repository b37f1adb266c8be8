-- ===== src/Files/Toy.antt =====
-- A file system that keeps what is written below a root, by its name, and makes anything.
use lean_sandbox.Common.{none, List, [], ◌∷◌, if◌then◌else◌}
use lean_sandbox.Common.Text.{Bytes, text, str_eq}
use lean_sandbox.Files.{Opened, open_failed, file, FileSystem}

-- the latest of what was written under a path
abbrev pub latest : Bytes → List (List Bytes × Bytes) → Opened
latest path [] = open_failed (text "no such file")
latest path (([], b) ∷ w) = latest path w
latest path ((p ∷ [], b) ∷ w) = let rest = latest path w in if str_eq p path then file b else rest
latest path ((p ∷ q ∷ ps, b) ∷ w) = latest path w

abbrev pub drawer : FileSystem
drawer = record {
  World = List (List Bytes × Bytes);
  open_stat = latest;
  stat = λ path w. none;
  mkdir_all = λ path w. (none, w);
  mkdir_dir = λ path w. (none, w);
  create = λ path w. (none, w);
  write = λ path s w. (none, (path ∷ [], s.bytes) ∷ w);
  remove = λ path w. w;
  open_root = λ path w. (none, w);
  root_mkdir_all = λ root rel w. (none, w);
  root_create = λ root rel w. (none, w);
  root_write = λ root rel s w. (none, (rel, s.bytes) ∷ w);
  root_chmod = λ root rel mode w. (none, w);
  root_symlink = λ root rel link w. (none, w);
  root_remove = λ root rel w. w;
  walk = λ path w. [];
}
