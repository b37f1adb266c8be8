-- ===== src/Tarx/Copy.antt =====
-- Unpacking what was packed is copying the directory.
use lean_sandbox.Common.{
  ℕ, ◌≡◌, refl, sym, ap, ◌∙◌, ◌%◌, Option, none, some, List, [], ◌∷◌, ◌++◌, All,
}
use mathlib.Core.List.{append-nil}
use lean_sandbox.Common.Text.{Bytes}
use lean_sandbox.Common.Paths.{clean_parts, join_slash}
use lean_sandbox.Files.{
  Source, Found, walk_failed, info_failed, found_dir, found_file, found_link, found_other,
  FileSystem,
}
use lean_sandbox.Tarx.{
  dir, reg, symlink, flag, Header, Next, entry, unsupported, mkdir_failed, Outcome, wrap, and_then,
  mkdir_parent, write_file, replace_link, unpack_at, unpack_entry, dirs_after, chmod_dirs,
  unpack_all, pack_name, pack_named, pack_visit, go_on, pack_visits, header, empty,
}
use lean_sandbox.Tarx.Names.{IsPlain, clean_parts-join_slash}

module _ (fs : FileSystem) where
  -- A file of the directory, made at once under its name below the root.
  abbrev pub copy_one : Bytes → List Bytes → Found → fs.World → Outcome fs
  copy_one root rel (walk_failed e) w = (none, w)
  copy_one root rel (info_failed e) w = (none, w)
  copy_one root rel (found_dir mode) w = wrap fs (mkdir_failed rel) (fs.root_mkdir_all root rel w)
  copy_one root rel (found_file mode source) w =
      and_then fs (mkdir_parent fs root rel w) (λ v. write_file fs root rel (mode % 512) source v)
  copy_one root rel (found_link mode link) w =
      and_then fs (mkdir_parent fs root rel w) (λ v. replace_link fs root rel link v)
  copy_one root rel (found_other t mode) w = (some (unsupported (join_slash rel) (flag t)), w)

  -- the root itself is there already
  abbrev pub copy_named : Bytes → List Bytes → Found → fs.World → Outcome fs
  copy_named root [] found w = (none, w)
  copy_named root (p ∷ ps) found w = copy_one root (p ∷ ps) found w

-- the modes to set at the end
abbrev pub mode_of : List Bytes → Found → List (List Bytes × ℕ)
mode_of (p ∷ ps) (found_dir mode) = (p ∷ ps, mode % 512) ∷ []
mode_of _ _ = []

-- Every file in turn, and then the modes of the directories in turn.
unfoldable pub copy_tree :
    (fs : FileSystem)
    → Bytes
    → Bytes
    → List (List Bytes × Found)
    → List (List Bytes × ℕ)
    → fs.World
    → Outcome fs
copy_tree fs root prefix [] dirs w = chmod_dirs fs root dirs w
copy_tree fs root prefix ((rel, found) ∷ visits) dirs w =
    let name = pack_name prefix rel in
    and_then fs (copy_named fs root name found w)
      (λ v. copy_tree fs root prefix visits (dirs ++ mode_of name found) v)

-- The visit has no error, and its name is made of plain parts.
pub record IsFine (prefix : Bytes) (visit : List Bytes × Found) : Type 0 where
  pub plain : All IsPlain (pack_name prefix visit.0)
  pub no_error : (pack_visit prefix visit.0 visit.1).1 ≡ none

module _ (fs : FileSystem) (root : Bytes) where
  unpack_one :
      (p : Bytes) (ps : List Bytes) (h : Header) (source : Source) (rest : List Next)
      (dirs : List (List Bytes × ℕ)) (w : fs.World)
      → h.name ≡ join_slash (p ∷ ps)
      → All IsPlain (p ∷ ps)
      → unpack_all fs root (entry h source ∷ rest) dirs w
        ≡ and_then fs
            (unpack_at fs root (p ∷ ps) h source h.flag w)
            (λ v. unpack_all fs root rest (dirs_after (p ∷ ps) h dirs) v)
  unfolding unpack_all unpack_entry
  unpack_one p ps h source rest dirs w e k =
      ap
        (λ c.
          and_then fs (unpack_entry fs root c h source w)
            (λ v. unpack_all fs root rest (dirs_after c h dirs) v))
        (ap clean_parts e ∙ clean_parts-join_slash p ps k)

  pub and_then_ext :
      (o : Outcome fs) (f g : fs.World → Outcome fs)
      → ((v : fs.World) → f v ≡ g v)
      → and_then fs o f ≡ and_then fs o g
  and_then_ext (none, w) f g h = h w
  and_then_ext (some e, w) f g h = refl

  same :
      (o : Outcome fs) (rest : List Next) (dirs : List (List Bytes × ℕ))
      → and_then fs o (λ v. unpack_all fs root rest dirs v)
        ≡ and_then fs o (λ v. unpack_all fs root rest (dirs ++ []) v)
  same o rest dirs =
      ap (λ d. and_then fs o (λ v. unpack_all fs root rest d v)) (sym (append-nil dirs))

  -- an entry that is packed for a named visit
  unpack_named :
      (name : List Bytes) (found : Found) (rest : List Next) (dirs : List (List Bytes × ℕ))
      (w : fs.World)
      → All IsPlain name
      → (pack_named name found).1 ≡ none
      → unpack_all fs root ((pack_named name found).0 ++ rest) dirs w
        ≡ and_then fs
            (copy_named fs root name found w)
            (λ v. unpack_all fs root rest (dirs ++ mode_of name found) v)
  unfolding unpack_at
  unpack_named [] found rest dirs w k e =
      ap (λ d. unpack_all fs root rest d w) (sym (append-nil dirs))
  unpack_named (p ∷ ps) (walk_failed t) rest dirs w k e = absurd (cc e)
  unpack_named (p ∷ ps) (info_failed t) rest dirs w k e = absurd (cc e)
  unpack_named (p ∷ ps) (found_dir m) rest dirs w k e =
      unpack_one p ps (header (p ∷ ps) dir [] m) empty rest dirs w refl k ∙ refl
  unpack_named (p ∷ ps) (found_file m s) rest dirs w k e =
      unpack_one p ps (header (p ∷ ps) reg [] m) s rest dirs w refl k
      ∙ same
          (and_then fs (mkdir_parent fs root (p ∷ ps) w)
            (λ v. write_file fs root (p ∷ ps) (m % 512) s v))
          rest dirs
  unpack_named (p ∷ ps) (found_link m l) rest dirs w k e =
      unpack_one p ps (header (p ∷ ps) symlink l m) empty rest dirs w refl k
      ∙ same
          (and_then fs (mkdir_parent fs root (p ∷ ps) w) (λ v. replace_link fs root (p ∷ ps) l v))
          rest dirs
  unpack_named (p ∷ ps) (found_other t m) rest dirs w k e =
      unpack_one p ps (header (p ∷ ps) (flag t) [] m) empty rest dirs w refl k ∙ refl

  pack_visit_named :
      (prefix : Bytes) (rel : List Bytes) (found : Found)
      → (pack_visit prefix rel found).1 ≡ none
      → pack_visit prefix rel found ≡ pack_named (pack_name prefix rel) found
  pack_visit_named prefix rel (walk_failed t) e = absurd (cc e)
  pack_visit_named prefix rel (info_failed t) e = refl
  pack_visit_named prefix rel (found_dir m) e = refl
  pack_visit_named prefix rel (found_file m s) e = refl
  pack_visit_named prefix rel (found_link m l) e = refl
  pack_visit_named prefix rel (found_other t m) e = refl

go_on-none :
    (now rest : List Next × Option Bytes)
    → now.1 ≡ none
    → go_on now rest ≡ (now.0 ++ rest.0, rest.1)
go_on-none (now, none) rest e = refl
go_on-none (now, some t) rest e = absurd (cc e)

-- Where every visit of a walk is without error and has a name of plain parts, unpacking the stream
-- that `Pack` writes does what copying the files one by one does, and then sets the modes of the
-- directories, whatever the file system answers.
pub unpack_all-pack_visits :
    (fs : FileSystem) (root prefix : Bytes) (visits : List (List Bytes × Found))
    (dirs : List (List Bytes × ℕ)) (w : fs.World)
    → All (IsFine prefix) visits
    → (unpack_all fs root (pack_visits prefix visits).0 dirs w
        ≡ copy_tree fs root prefix visits dirs w)
      × ((pack_visits prefix visits).1 ≡ none)
unfolding pack_visits copy_tree
unpack_all-pack_visits fs root prefix [] dirs w h = (unfold unpack_all in refl, refl)
unpack_all-pack_visits fs root prefix ((rel, found) ∷ visits) dirs w h =
    let name = pack_name prefix rel in
    let q = pack_visit_named fs root prefix rel found h.0.no_error in
    let rest = pack_visits prefix visits in
    let step = go_on-none (pack_visit prefix rel found) rest h.0.no_error in
    let named : (pack_named name found).1 ≡ none = sym (ap (λ t. t.1) q) ∙ h.0.no_error in
    (
      ap (λ t. unpack_all fs root t.0 dirs w) step
          ∙ ap (λ t. unpack_all fs root (t.0 ++ rest.0) dirs w) q
          ∙ unpack_named fs root name found rest.0 dirs w h.0.plain named
          ∙ and_then_ext fs root (copy_named fs root name found w) _ _ (λ v.
            (unpack_all-pack_visits fs root prefix visits (dirs ++ mode_of name found) v h.1).0),
      ap (λ t. t.1) step ∙ (unpack_all-pack_visits fs root prefix visits dirs w h.1).1,
    )

-- What is packed of a walk that fails behind fine visits is what is packed of these visits alone.
pub pack_visits_failed :
    (prefix : Bytes) (visits : List (List Bytes × Found)) (rel : List Bytes) (e : Bytes)
    (rest : List (List Bytes × Found))
    → All (IsFine prefix) visits
    → pack_visits prefix (visits ++ (rel, walk_failed e) ∷ rest)
      ≡ ((pack_visits prefix visits).0, some e)
unfolding pack_visits
pack_visits_failed prefix [] rel e rest h = refl
pack_visits_failed prefix ((r, found) ∷ visits) rel e rest h =
    let now = pack_visit prefix r found in
    go_on-none now (pack_visits prefix (visits ++ (rel, walk_failed e) ∷ rest)) h.0.no_error
    ∙ ap (λ t. (now.0 ++ t.0, t.1)) (pack_visits_failed prefix visits rel e rest h.1)
    ∙ ap (λ t. (t.0, some e)) (sym (go_on-none now (pack_visits prefix visits) h.0.no_error))
