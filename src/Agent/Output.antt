-- ===== src/Agent/Output.antt =====
-- internal/agent/session.go, `captures` and `output`: one stream under an optional cap.
-- The file system answers through a `Disk` for each line: what `os.MkdirAll`, `os.CreateTemp` and
-- `File.WriteString` return. The text in the spill file stands beside its handle.
pub mod Spill
pub mod Bounds
use lean_sandbox.Common.{
  ℕ, suc, ◌+◌, Bool, true, false, not, ◌||◌, ◌&&◌, Option, none, some, List, [], ◌∷◌, ◌++◌, length,
  take, ◌==◌, leb, if◌then◌else◌,
}
use lean_sandbox.Common.Text.{Bytes, text}
use lean_sandbox.Common.Decimal.{decimal}

-- `max` is the cap after `stream` has raised a negative one to 0.
pub record Output : Type 0 where
  pub max : ℕ
  pub buf : Bytes
  pub file : Option Bytes
  pub path : Bytes
  pub bytes : ℕ
  pub spilled : Bool

pub record Disk : Type 0 where
  -- `os.MkdirAll(spillDir, 0o755)` succeeds
  pub mkdir_all : Bool
  -- the name that `os.CreateTemp` returns, if it succeeds
  pub create_temp : Option Bytes
  -- where a write fails, the number of bytes written
  pub write_error : Option ℕ

-- `&captures{}` with the cap set
abbrev pub fresh : ℕ → Output
fresh max = record { max = max; buf = []; file = none; path = []; bytes = 0; spilled = false }

-- `func (o *output) open()`
unfoldable pub open_file : Disk → Output → Output
open_file d o =
    if d.mkdir_all
    then (elim d.create_temp [ none ↦ o | some name ↦ record o { file = some []; path = name } ])
    else o

-- `o.file.WriteString(s)`
unfoldable pub write_string : Disk → Bytes → Bytes → Bytes
write_string d written s = elim d.write_error [ none ↦ written ++ s | some n ↦ written ++ take n s ]

-- the end of `add`, from `if o.file == nil`
unfoldable pub flush : Disk → Output → Output
unfolding write_string
flush d o = elim o.file [
  | none ↦ o
  | some written ↦ record o { file = some (write_string d written o.buf); buf = [] }
]

-- the first three statements of `add`
unfoldable pub store_line : Output → Bytes → Output
store_line o line = record o {
  bytes = o.bytes + (length line + 1);
  buf = o.buf ++ (line ++ b'\n' ∷ []);
}

-- `func (o *output) add(line string)`
unfoldable pub add : Disk → Output → Bytes → Output
unfolding open_file flush store_line
add d o line =
    let grown = store_line o line in
    if grown.max == 0 || leb grown.bytes grown.max
    then grown
    else flush d (if grown.spilled then grown else open_file d (record grown { spilled = true }))

-- The lines of a stream in turn, each with what the file system answers then.
unfoldable pub add_all : Output → List (Disk × Bytes) → Output
unfolding add
add_all o [] = o
add_all o ((d, line) ∷ rest) = add_all (add d o line) rest

-- `func (o *output) content()`
abbrev pub content : Output → Bytes
content o = o.buf

-- `func (o *output) notice()`
unfoldable pub notice : Output → Bytes
notice o =
    text "Output size ("
    ++ (decimal o.bytes
        ++ (text ") exceeds max size ("
            ++ (decimal o.max ++ (text "); output is written to: " ++ o.path))))

-- What `RunRequest` returns for the stream: its text and the path of its file.
unfoldable pub response : Output → Bytes × Bytes
response o = if o.spilled then (notice o, o.path) else (content o, [])
