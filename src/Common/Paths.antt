-- ===== src/Common/Paths.antt =====
-- Paths whose separator is a slash: `strings.Split(path, "/")` and `filepath.Clean` of a path that
-- begins with a slash, on the parts of the path.
pub mod Laws
use lean_sandbox.Common.Tests.{◌==◌, if◌then◌else◌}
use lean_sandbox.Common.Text.{Bytes, text, str_eq, is_empty}
use Prim.Native.Nat.{ℕ}
use mathlib.Core.Bool.{Bool, true, false, not, ◌&&◌, ◌||◌}
use mathlib.Core.List.{List, [], ◌∷◌, ◌++◌, reverse, tail}

-- a byte in front of the first part
abbrev pub push_byte : ℕ → List Bytes → List Bytes
push_byte c [] = (c ∷ []) ∷ []
push_byte c (p ∷ ps) = (c ∷ p) ∷ ps

-- `strings.Split(path, "/")`
unfoldable pub split_slash : Bytes → List Bytes
split_slash [] = [] ∷ []
split_slash (c ∷ s) = let rest = split_slash s in if c == b'/' then [] ∷ rest else push_byte c rest

-- the parts with a slash between two of them
unfoldable pub join_slash : List Bytes → Bytes
join_slash [] = []
join_slash (p ∷ []) = p
join_slash (p ∷ q ∷ ps) = p ++ b'/' ∷ join_slash (q ∷ ps)

-- One part in `filepath.Clean` of a rooted path; the parts that are kept stand in reverse.
unfoldable pub resolve : List Bytes → Bytes → List Bytes
resolve kept part =
    if is_empty part || str_eq part (text ".")
    then kept
    else if str_eq part (text "..")
    then tail kept
    else part ∷ kept

unfoldable pub resolve_all : List Bytes → List Bytes → List Bytes
unfolding resolve
resolve_all kept [] = reverse kept
resolve_all kept (part ∷ parts) = resolve_all (resolve kept part) parts

-- `strings.TrimPrefix(filepath.Clean("/"+name), "/")`, as parts
unfoldable pub clean_parts : Bytes → List Bytes
unfolding resolve_all split_slash
clean_parts name = resolve_all [] (split_slash name)

-- One part in `filepath.Clean` of a path that is not rooted: ".." stays where nothing is in front.
unfoldable pub resolve_relative : List Bytes → Bytes → List Bytes
resolve_relative [] part = if is_empty part || str_eq part (text ".") then [] else part ∷ []
resolve_relative (p ∷ kept) part =
    if is_empty part || str_eq part (text ".")
    then p ∷ kept
    else if str_eq part (text "..") && not (str_eq p (text ".."))
    then kept
    else part ∷ p ∷ kept

unfoldable pub resolve_relative_all : List Bytes → List Bytes → List Bytes
unfolding resolve_relative
resolve_relative_all kept [] = reverse kept
resolve_relative_all kept (part ∷ parts) = resolve_relative_all (resolve_relative kept part) parts

abbrev pub or_dot : List Bytes → Bytes
or_dot [] = text "."
or_dot (p ∷ ps) = join_slash (p ∷ ps)

-- `filepath.Clean(path)`
unfoldable pub clean_path : Bytes → Bytes
unfolding split_slash join_slash resolve_relative_all clean_parts
clean_path [] = text "."
clean_path (c ∷ s) =
    if c == b'/'
    then b'/' ∷ join_slash (clean_parts s)
    else or_dot (resolve_relative_all [] (split_slash (c ∷ s)))

abbrev pub last_part : List Bytes → Bytes
last_part [] = []
last_part (p ∷ []) = p
last_part (p ∷ q ∷ ps) = last_part (q ∷ ps)

-- `filepath.Base(path)`, of a path that is clean
unfoldable pub base_name : Bytes → Bytes
unfolding split_slash
base_name path = let name = last_part (split_slash path) in if is_empty name then text "/" else name
