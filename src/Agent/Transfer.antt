-- ===== src/Agent/Transfer.antt =====
-- internal/agent/server.go: the handlers that read and write a file or a directory.
use lean_sandbox.Common.{true, false, Option, none, some, List, [], ◌++◌, if◌then◌else◌}
use lean_sandbox.Common.Text.{Bytes, text, is_empty}
use lean_sandbox.Files.{Opened, open_failed, stat_failed, directory, file, Source, FileSystem}
use lean_sandbox.Tarx.{
  Flag, Next, Fault, root_failed, tar_failed, no_name, mkdir_failed, create_failed, write_failed,
  chmod_failed, symlink_failed, unsupported, Outcome, unpack, pack,
}
use lean_sandbox.Agent.Server.{Answer, wrote_error, wrote_status, wrote_content, wrote_tar}

-- `filepath.Join(root, rel)`, and the verb `%q` of `fmt` for a name and for a flag
pub record Texts : Type 0 where
  pub dest : Bytes → List Bytes → Bytes
  pub quote : Bytes → Bytes
  pub quote_flag : Flag → Bytes

abbrev about : Bytes → Bytes → Bytes → Bytes
about what name e = what ++ (name ++ (text ": " ++ e))

-- `err.Error()` of an error of `tarx.Unpack`
abbrev pub fault_text : Texts → Bytes → Fault → Bytes
fault_text t root (root_failed e) = e
fault_text t root (tar_failed e) = text "tar: " ++ e
fault_text t root (no_name name) = text "entry " ++ (t.quote name ++ text " has no name")
fault_text t root (mkdir_failed rel e) = about (text "mkdir ") (t.dest root rel) e
fault_text t root (create_failed rel e) = about (text "create ") (t.dest root rel) e
fault_text t root (write_failed rel e) = about (text "write ") (t.dest root rel) e
fault_text t root (chmod_failed rel e) = about (text "chmod ") (t.dest root rel) e
fault_text t root (symlink_failed rel e) = about (text "symlink ") (t.dest root rel) e
fault_text t root (unsupported name f) =
    text "entry " ++ (t.quote name ++ (text " has unsupported type " ++ t.quote_flag f))

-- `handleReadFile` behind the check of the path, for a request without a range
abbrev pub answer_opened : Opened → Answer
answer_opened (open_failed e) = wrote_error 404 (text "open: " ++ e)
answer_opened (stat_failed e) = wrote_error 404 (text "stat: " ++ e)
answer_opened directory = wrote_error 400 (text "path is a directory: use /v1/files")
answer_opened (file content) = wrote_content content

module _ (fs : FileSystem) where
  -- `func (s *Server) handleReadFile(w, r)`
  unfoldable pub handle_read_file : Bytes → fs.World → Answer
  handle_read_file path w =
      if is_empty path
      then wrote_error 400 (text "path query required")
      else answer_opened (fs.open_stat path w)

  -- the end of `handleWriteFile`, behind the copy
  abbrev pub written : Bytes → Option Bytes × fs.World → Answer × fs.World
  written path (some e, w) = (wrote_error 400 (text "write: " ++ e), fs.remove path w)
  written path (none, w) = (wrote_status 204, w)

  abbrev pub created : Bytes → Source → Option Bytes × fs.World → Answer × fs.World
  created path body (some e, w) = (wrote_error 400 (text "create: " ++ e), w)
  created path body (none, w) = written path (fs.write path body w)

  abbrev pub made_dir : Bytes → Source → Option Bytes × fs.World → Answer × fs.World
  made_dir path body (some e, w) = (wrote_error 400 (text "mkdir: " ++ e), w)
  made_dir path body (none, w) = created path body (fs.create path w)

  -- `func (s *Server) handleWriteFile(w, r)`
  unfoldable pub handle_write_file : Bytes → Source → fs.World → Answer × fs.World
  handle_write_file path body w =
      if is_empty path
      then (wrote_error 400 (text "path query required"), w)
      else made_dir path body (fs.mkdir_dir path w)

  abbrev pub unpacked : Texts → Bytes → Outcome fs → Answer × fs.World
  unpacked t root (some f, w) = (wrote_error 400 (text "unpack: " ++ fault_text t root f), w)
  unpacked t root (none, w) = (wrote_status 204, w)

  -- `func (s *Server) handleWriteFiles(w, r)`
  unfoldable pub handle_write_files : Texts → Bytes → List Next → fs.World → Answer × fs.World
  handle_write_files t root stream w =
      if is_empty root
      then (wrote_error 400 (text "root query required"), w)
      else unpacked t root (unpack fs root stream w)

  -- the stream of `tarx.Pack`, which is closed unless it fails; an error is only logged
  abbrev pub packed : List Next × Option Bytes → Answer
  packed (stream, none) = wrote_tar stream true
  packed (stream, some e) = wrote_tar stream false

  abbrev pub pack_answer : Bytes → Option Bytes → fs.World → Answer
  pack_answer root (some e) w = wrote_error 404 (text "stat: " ++ e)
  pack_answer root none w = packed (pack fs root [] w)

  -- `func (s *Server) handleReadFiles(w, r)`
  unfoldable pub handle_read_files : Bytes → fs.World → Answer
  handle_read_files root w =
      if is_empty root
      then wrote_error 400 (text "root query required")
      else pack_answer root (fs.stat root w) w
