-- ===== src/Tarx.antt =====
-- internal/tarx/tarx.go: packing a directory as a tar stream, and unpacking one under a root. A
-- stream is the list of what `tar.Reader.Next` returns in front of `io.EOF`.
pub mod Names
pub mod Confined
pub mod Copy
mod Samples
use lean_sandbox.Common.{
  ℕ, ◌%◌, Bool, true, false, Option, none, some, List, [], ◌∷◌, ◌++◌, if◌then◌else◌,
}
use lean_sandbox.Common.Text.{Bytes, text, str_eq, is_empty}
use lean_sandbox.Common.Paths.{clean_parts, join_slash}
use lean_sandbox.Files.{
  Source, Found, walk_failed, info_failed, found_dir, found_file, found_link, found_other,
  FileSystem,
}

pub data Flag : Type 0 where
  dir reg symlink : Flag
  flag : ℕ → Flag

-- `tar.Header`, as far as it is read
pub record Header : Type 0 where
  pub name : Bytes
  pub flag : Flag
  pub link : Bytes
  pub mode : ℕ

pub data Next : Type 0 where
  entry : Header → Source → Next
  bad : Bytes → Next

-- the errors of `Unpack`
pub data Fault : Type 0 where
  root_failed tar_failed no_name : Bytes → Fault
  mkdir_failed create_failed write_failed chmod_failed symlink_failed : List Bytes → Bytes → Fault
  unsupported : Bytes → Flag → Fault

-- the parts of `filepath.Dir(rel)`
abbrev pub parent : List Bytes → List Bytes
parent [] = []
parent (p ∷ []) = []
parent (p ∷ q ∷ ps) = p ∷ parent (q ∷ ps)

abbrev pub is_dir : Flag → Bool
is_dir dir = true
is_dir _ = false

-- `dirs` behind an entry
abbrev pub dirs_after : List Bytes → Header → List (List Bytes × ℕ) → List (List Bytes × ℕ)
dirs_after [] h dirs = dirs
dirs_after (p ∷ ps) h dirs = if is_dir h.flag then dirs ++ (p ∷ ps, h.mode % 512) ∷ [] else dirs

module _ (fs : FileSystem) where
  abbrev pub Outcome : Type 0
  Outcome = Option Fault × fs.World

  -- an error with what it is wrapped in
  abbrev pub wrap : (Bytes → Fault) → Option Bytes × fs.World → Outcome
  wrap f (none, w) = (none, w)
  wrap f (some e, w) = (some (f e), w)

  -- `if err != nil { return err }`
  abbrev pub and_then : Outcome → (fs.World → Outcome) → Outcome
  and_then (some e, w) f = (some e, w)
  and_then (none, w) f = f w

  -- `func mkdirParent(rt, rel, dest) error`
  unfoldable pub mkdir_parent : Bytes → List Bytes → fs.World → Outcome
  mkdir_parent root rel w = elim (parent rel) [
    | [] ↦ (none, w)
    | p ∷ ps ↦ wrap (mkdir_failed (p ∷ ps)) (fs.root_mkdir_all root (p ∷ ps) w)
  ]

  -- the end of `writeFile`, behind the copy
  abbrev pub finish_file : Bytes → List Bytes → ℕ → Option Bytes × fs.World → Outcome
  finish_file root rel mode (some e, w) = (some (write_failed rel e), fs.root_remove root rel w)
  finish_file root rel mode (none, w) = wrap (chmod_failed rel) (fs.root_chmod root rel mode w)

  -- `func writeFile(rt, r, rel, dest, mode) error`
  unfoldable pub write_file : Bytes → List Bytes → ℕ → Source → fs.World → Outcome
  write_file root rel mode source w =
      and_then (wrap (create_failed rel) (fs.root_create root rel w))
        (λ v. finish_file root rel mode (fs.root_write root rel source v))

  -- the symbolic link of an entry, in the place of what stood there
  unfoldable pub replace_link : Bytes → List Bytes → Bytes → fs.World → Outcome
  replace_link root rel link w =
      wrap (symlink_failed rel) (fs.root_symlink root rel link (fs.root_remove root rel w))

  -- The `switch` of the loop, for a name that is not empty.
  unfoldable pub unpack_at : Bytes → List Bytes → Header → Source → Flag → fs.World → Outcome
  unfolding mkdir_parent write_file replace_link
  unpack_at root rel h source dir w = wrap (mkdir_failed rel) (fs.root_mkdir_all root rel w)
  unpack_at root rel h source reg w =
      and_then (mkdir_parent root rel w) (λ v. write_file root rel (h.mode % 512) source v)
  unpack_at root rel h source symlink w =
      and_then (mkdir_parent root rel w) (λ v. replace_link root rel h.link v)
  unpack_at root rel h source (flag t) w = (some (unsupported h.name (flag t)), w)

  -- the body of the loop
  unfoldable pub unpack_entry : Bytes → List Bytes → Header → Source → fs.World → Outcome
  unfolding unpack_at
  unpack_entry root [] h source w = if is_dir h.flag then (none, w) else (some (no_name h.name), w)
  unpack_entry root (p ∷ ps) h source w = unpack_at root (p ∷ ps) h source h.flag w

  -- the last loop of `Unpack`
  unfoldable pub chmod_dirs : Bytes → List (List Bytes × ℕ) → fs.World → Outcome
  chmod_dirs root [] w = (none, w)
  chmod_dirs root ((rel, mode) ∷ dirs) w =
      and_then (wrap (chmod_failed rel) (fs.root_chmod root rel mode w))
        (λ v. chmod_dirs root dirs v)

  -- The loop of `Unpack`, and the last loop behind it.
  unfoldable pub unpack_all : Bytes → List Next → List (List Bytes × ℕ) → fs.World → Outcome
  unfolding unpack_entry chmod_dirs
  unpack_all root [] dirs w = chmod_dirs root dirs w
  unpack_all root (bad e ∷ stream) dirs w = (some (tar_failed e), w)
  unpack_all root (entry h source ∷ stream) dirs w =
      and_then (unpack_entry root (clean_parts h.name) h source w)
        (λ v. unpack_all root stream (dirs_after (clean_parts h.name) h dirs) v)

  -- `func Unpack(r, root) error`
  unfoldable pub unpack : Bytes → List Next → fs.World → Outcome
  unfolding unpack_all
  unpack root stream w =
      and_then (wrap root_failed (fs.mkdir_all root w))
        (λ v. and_then (wrap root_failed (fs.open_root root v)) (λ u. unpack_all root stream [] u))

-- `name` of `Pack`, as parts: the prefix itself at the root, and else `filepath.Join(prefix, rel)`,
-- where the prefix is what the callers give: an empty text, or what `filepath.Base` returns
abbrev pub pack_name : Bytes → List Bytes → List Bytes
pack_name [] rel = rel
pack_name (c ∷ prefix) [] = (c ∷ prefix) ∷ []
pack_name (c ∷ prefix) (r ∷ rel) =
    if str_eq (c ∷ prefix) (text ".")
    then r ∷ rel
    else if str_eq (c ∷ prefix) (text "/")
    then [] ∷ r ∷ rel
    else (c ∷ prefix) ∷ r ∷ rel

abbrev pub empty : Source
empty = record { bytes = []; read_error = none }

abbrev pub header : List Bytes → Flag → Bytes → ℕ → Header
header name f link mode = record { name = join_slash name; flag = f; link = link; mode = mode }

-- The entry of a visit and the error that ends the walk behind it. The header of a file is written
-- before the file is read.
abbrev pub pack_entry : List Bytes → Found → List Next × Option Bytes
pack_entry name (walk_failed e) = ([], some e)
pack_entry name (info_failed e) = ([], some e)
pack_entry name (found_dir mode) = (entry (header name dir [] mode) empty ∷ [], none)
pack_entry name (found_file mode source) =
    (entry (header name reg [] mode) source ∷ [], source.read_error)
pack_entry name (found_link mode link) = (entry (header name symlink link mode) empty ∷ [], none)
pack_entry name (found_other t mode) = (entry (header name (flag t) [] mode) empty ∷ [], none)

-- what has no name is no entry
abbrev pub pack_named : List Bytes → Found → List Next × Option Bytes
pack_named [] found = ([], none)
pack_named (p ∷ ps) found = pack_entry (p ∷ ps) found

-- The function that `Pack` gives to `WalkDir`, at one visit. An error of the walk comes first.
abbrev pub pack_visit : Bytes → List Bytes → Found → List Next × Option Bytes
pack_visit prefix rel (walk_failed e) = ([], some e)
pack_visit prefix rel found = pack_named (pack_name prefix rel) found

-- the rest of the walk, behind a visit that has ended without or with an error
abbrev pub go_on : List Next × Option Bytes → List Next × Option Bytes → List Next × Option Bytes
go_on (now, none) rest = (now ++ rest.0, rest.1)
go_on (now, some e) rest = (now, some e)

-- The walk: what is written, and the error that ends it.
unfoldable pub pack_visits : Bytes → List (List Bytes × Found) → List Next × Option Bytes
pack_visits prefix [] = ([], none)
pack_visits prefix ((rel, found) ∷ visits) =
    go_on (pack_visit prefix rel found) (pack_visits prefix visits)

-- `func Pack(w, dir, prefix) error`
unfoldable pub pack : (fs : FileSystem) → Bytes → Bytes → fs.World → List Next × Option Bytes
unfolding pack_visits
pack fs path prefix w = pack_visits prefix (fs.walk path w)
