-- ===== src/Files.antt =====
-- What the program calls of Go's packages `os` and `archive/tar`, over an unknown world. A call that
-- fails returns the text of its error. A name under an `os.Root` is the list of its parts.
pub mod Toy
use lean_sandbox.Common.{ℕ, Option, List}
use lean_sandbox.Common.Text.{Bytes}

-- What `os.Open` and `File.Stat` say of a path.
pub data Opened : Type 0 where
  open_failed stat_failed : Bytes → Opened
  directory : Opened
  file : Bytes → Opened

-- What is copied: the bytes, and the error that ends them, if they do not end by themselves.
pub record Source : Type 0 where
  pub bytes : Bytes
  pub read_error : Option Bytes

-- What `filepath.WalkDir` finds at a visit: an error of the walk, an error of `Readlink`, `Info` or
-- `FileInfoHeader`, or a file with its mode.
pub data Found : Type 0 where
  walk_failed info_failed : Bytes → Found
  found_dir : ℕ → Found
  found_file : ℕ → Source → Found
  found_link : ℕ → Bytes → Found
  found_other : ℕ → ℕ → Found

pub record FileSystem : Type 1 where
  pub World : Type 0
  pub open_stat : Bytes → World → Opened
  -- the error of `os.Stat(path)`
  pub stat : Bytes → World → Option Bytes
  pub mkdir_all : Bytes → World → Option Bytes × World
  -- `os.MkdirAll(filepath.Dir(path), 0o755)`
  pub mkdir_dir : Bytes → World → Option Bytes × World
  -- `os.OpenFile(path, os.O_CREATE|os.O_WRONLY|os.O_TRUNC, 0o644)`
  pub create : Bytes → World → Option Bytes × World
  -- `io.Copy` into the file, and its `Close`: the first error
  pub write : Bytes → Source → World → Option Bytes × World
  pub remove : Bytes → World → World
  -- `os.OpenRoot`, and the methods of the root of a directory
  pub open_root : Bytes → World → Option Bytes × World
  pub root_mkdir_all : Bytes → List Bytes → World → Option Bytes × World
  pub root_create : Bytes → List Bytes → World → Option Bytes × World
  pub root_write : Bytes → List Bytes → Source → World → Option Bytes × World
  pub root_chmod : Bytes → List Bytes → ℕ → World → Option Bytes × World
  pub root_symlink : Bytes → List Bytes → Bytes → World → Option Bytes × World
  pub root_remove : Bytes → List Bytes → World → World
  -- the visits of `filepath.WalkDir` in their order, each with the parts below the directory
  pub walk : Bytes → World → List (List Bytes × Found)
