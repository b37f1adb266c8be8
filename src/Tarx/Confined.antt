-- ===== src/Tarx/Confined.antt =====
-- What `Unpack` can reach.
use lean_sandbox.Common.{
  ℕ, ◌%◌, Bool, true, false, Option, none, some, List, [], ◌∷◌, ◌++◌, All, All-append,
  if◌then◌else◌,
}
use lean_sandbox.Common.Text.{Bytes}
use lean_sandbox.Common.Paths.{clean_parts}
use lean_sandbox.Files.{Source, FileSystem}
use lean_sandbox.Tarx.{
  Flag, dir, reg, symlink, flag, Header, Next, entry, bad, Fault, Outcome, wrap, and_then, parent,
  mkdir_failed, create_failed, chmod_failed, symlink_failed, root_failed, mkdir_parent, finish_file,
  write_file, replace_link, unpack_at, is_dir, unpack_entry, dirs_after, chmod_dirs, unpack_all,
  unpack,
}
use lean_sandbox.Tarx.Names.{IsPlain, clean_parts-IsPlain}

-- A name below the root that cannot leave it by its own parts.
abbrev pub Inside : List Bytes → Type 0
Inside [] = ⊥
Inside (p ∷ ps) = All IsPlain (p ∷ ps)

-- `P` is kept by making and opening the root, and by its methods at names inside.
pub record Confines (fs : FileSystem) (root : Bytes) (P : fs.World → Type 0) : Type 0 where
  pub by_mkdir_all : (w : fs.World) → P w → P (fs.mkdir_all root w).1
  pub by_open_root : (w : fs.World) → P w → P (fs.open_root root w).1
  pub by_mkdir :
      (rel : List Bytes) (w : fs.World) → Inside rel → P w → P (fs.root_mkdir_all root rel w).1
  pub by_create :
      (rel : List Bytes) (w : fs.World) → Inside rel → P w → P (fs.root_create root rel w).1
  pub by_write :
      (rel : List Bytes) (s : Source) (w : fs.World)
      → Inside rel
      → P w
      → P (fs.root_write root rel s w).1
  pub by_chmod :
      (rel : List Bytes) (m : ℕ) (w : fs.World)
      → Inside rel
      → P w
      → P (fs.root_chmod root rel m w).1
  pub by_symlink :
      (rel : List Bytes) (link : Bytes) (w : fs.World)
      → Inside rel
      → P w
      → P (fs.root_symlink root rel link w).1
  pub by_remove :
      (rel : List Bytes) (w : fs.World) → Inside rel → P w → P (fs.root_remove root rel w)

parent-IsPlain : (rel : List Bytes) → All IsPlain rel → All IsPlain (parent rel)
parent-IsPlain [] h = tt
parent-IsPlain (p ∷ []) h = tt
parent-IsPlain (p ∷ q ∷ ps) h = (h.0, parent-IsPlain (q ∷ ps) h.1)

module _ (fs : FileSystem) (root : Bytes) (P : fs.World → Type 0) (keeps : Confines fs root P) where
  wrap-keeps : (f : Bytes → Fault) (o : Option Bytes × fs.World) → P o.1 → P (wrap fs f o).1
  wrap-keeps f (none, w) p = p
  wrap-keeps f (some e, w) p = p

  and_then-keeps :
      (o : Outcome fs) (f : fs.World → Outcome fs)
      → P o.1
      → ((w : fs.World) → P w → P (f w).1)
      → P (and_then fs o f).1
  and_then-keeps (some e, w) f p h = p
  and_then-keeps (none, w) f p h = h w p

  mkdir_parent-keeps :
      (rel : List Bytes) (w : fs.World) → All IsPlain rel → P w → P (mkdir_parent fs root rel w).1
  unfolding mkdir_parent
  mkdir_parent-keeps rel w h p = go (parent rel) (parent-IsPlain rel h)
    where
      go :
          (dirs : List Bytes)
          → All IsPlain dirs
          → P
              (elim dirs as (λ _. Outcome fs) [
                | [] ↦ (none, w)
                | q ∷ qs ↦ wrap fs (mkdir_failed (q ∷ qs)) (fs.root_mkdir_all root (q ∷ qs) w)
              ]).1
      go [] k = p
      go (q ∷ qs) k = wrap-keeps (mkdir_failed (q ∷ qs)) _ (keeps.by_mkdir (q ∷ qs) w k p)

  finish_file-keeps :
      (rel : List Bytes) (mode : ℕ) (o : Option Bytes × fs.World)
      → Inside rel
      → P o.1
      → P (finish_file fs root rel mode o).1
  finish_file-keeps rel mode (some e, w) h p = keeps.by_remove rel w h p
  finish_file-keeps rel mode (none, w) h p =
      wrap-keeps (chmod_failed rel) _ (keeps.by_chmod rel mode w h p)

  write_file-keeps :
      (rel : List Bytes) (mode : ℕ) (s : Source) (w : fs.World)
      → Inside rel
      → P w
      → P (write_file fs root rel mode s w).1
  unfolding write_file
  write_file-keeps rel mode s w h p =
      and_then-keeps (wrap fs (create_failed rel) (fs.root_create root rel w)) _
        (wrap-keeps (create_failed rel) _ (keeps.by_create rel w h p))
        (λ v q.
          finish_file-keeps rel mode (fs.root_write root rel s v) h (keeps.by_write rel s v h q))

  replace_link-keeps :
      (rel : List Bytes) (link : Bytes) (w : fs.World)
      → Inside rel
      → P w
      → P (replace_link fs root rel link w).1
  unfolding replace_link
  replace_link-keeps rel link w h p =
      wrap-keeps (symlink_failed rel) _ (keeps.by_symlink rel link _ h (keeps.by_remove rel w h p))

  unpack_at-keeps :
      (p : Bytes) (ps : List Bytes) (h : Header) (s : Source) (f : Flag) (w : fs.World)
      → All IsPlain (p ∷ ps)
      → P w
      → P (unpack_at fs root (p ∷ ps) h s f w).1
  unfolding unpack_at
  unpack_at-keeps p ps h s dir w k q =
      wrap-keeps (mkdir_failed (p ∷ ps)) _ (keeps.by_mkdir (p ∷ ps) w k q)
  unpack_at-keeps p ps h s reg w k q =
      and_then-keeps (mkdir_parent fs root (p ∷ ps) w) _ (mkdir_parent-keeps (p ∷ ps) w k q)
        (λ v r. write_file-keeps (p ∷ ps) (h.mode % 512) s v k r)
  unpack_at-keeps p ps h s symlink w k q =
      and_then-keeps (mkdir_parent fs root (p ∷ ps) w) _ (mkdir_parent-keeps (p ∷ ps) w k q)
        (λ v r. replace_link-keeps (p ∷ ps) h.link v k r)
  unpack_at-keeps p ps h s (flag t) w k q = q

  if_dir-keeps :
      (b : Bool) (w : fs.World) (e : Fault)
      → P w
      → P (let o : Outcome fs = if b then (none, w) else (some e, w) in o.1)
  if_dir-keeps true w e p = p
  if_dir-keeps false w e p = p

  unpack_entry-keeps :
      (rel : List Bytes) (h : Header) (s : Source) (w : fs.World)
      → All IsPlain rel
      → P w
      → P (unpack_entry fs root rel h s w).1
  unfolding unpack_entry
  unpack_entry-keeps [] h s w k p = if_dir-keeps (is_dir h.flag) w _ p
  unpack_entry-keeps (q ∷ qs) h s w k p = unpack_at-keeps q qs h s h.flag w k p

  abbrev AllInside : List (List Bytes × ℕ) → Type 0
  AllInside = All (λ d. Inside d.0)

  if_append-Inside :
      (b : Bool) (q : Bytes) (qs : List Bytes) (m : ℕ) (dirs : List (List Bytes × ℕ))
      → All IsPlain (q ∷ qs)
      → AllInside dirs
      → AllInside (if b then dirs ++ (q ∷ qs, m) ∷ [] else dirs)
  if_append-Inside true q qs m dirs k a =
      All-append (λ d. Inside d.0) dirs ((q ∷ qs, m) ∷ []) a (k, tt)
  if_append-Inside false q qs m dirs k a = a

  dirs_after-Inside :
      (rel : List Bytes) (h : Header) (dirs : List (List Bytes × ℕ))
      → All IsPlain rel
      → AllInside dirs
      → AllInside (dirs_after rel h dirs)
  dirs_after-Inside [] h dirs k a = a
  dirs_after-Inside (q ∷ qs) h dirs k a =
      if_append-Inside (is_dir h.flag) q qs (h.mode % 512) dirs k a

  chmod_dirs-keeps :
      (dirs : List (List Bytes × ℕ)) (w : fs.World)
      → AllInside dirs
      → P w
      → P (chmod_dirs fs root dirs w).1
  unfolding chmod_dirs
  chmod_dirs-keeps [] w a p = p
  chmod_dirs-keeps ((rel, m) ∷ dirs) w a p =
      and_then-keeps (wrap fs (chmod_failed rel) (fs.root_chmod root rel m w)) _
        (wrap-keeps (chmod_failed rel) _ (keeps.by_chmod rel m w a.0 p))
        (λ v q. chmod_dirs-keeps dirs v a.1 q)

  unpack_all-keeps :
      (stream : List Next) (dirs : List (List Bytes × ℕ)) (w : fs.World)
      → AllInside dirs
      → P w
      → P (unpack_all fs root stream dirs w).1
  unfolding unpack_all
  unpack_all-keeps [] dirs w a p = chmod_dirs-keeps dirs w a p
  unpack_all-keeps (bad e ∷ stream) dirs w a p = p
  unpack_all-keeps (entry h s ∷ stream) dirs w a p =
      let rel = clean_parts h.name in
      let k = clean_parts-IsPlain h.name in
      and_then-keeps (unpack_entry fs root rel h s w) _ (unpack_entry-keeps rel h s w k p) (λ v q.
        unpack_all-keeps stream (dirs_after rel h dirs) v (dirs_after-Inside rel h dirs k a) q)

-- Whatever the stream, `Unpack` makes and opens its root, and calls the root's methods only at names
-- whose parts are neither empty nor "." nor ".." and hold no slash: what these calls keep, it keeps,
-- whether or not it fails.
pub unpack-Confines :
    (fs : FileSystem) (root : Bytes) (stream : List Next) (w : fs.World) (P : fs.World → Type 0)
    → Confines fs root P
    → P w
    → P (unpack fs root stream w).1
unfolding unpack
unpack-Confines fs root stream w P keeps p =
    and_then-keeps fs root P keeps (wrap fs root_failed (fs.mkdir_all root w)) _
      (wrap-keeps fs root P keeps root_failed _ (keeps.by_mkdir_all w p))
      (λ v q.
        and_then-keeps fs root P keeps (wrap fs root_failed (fs.open_root root v)) _
          (wrap-keeps fs root P keeps root_failed _ (keeps.by_open_root v q))
          (λ u r. unpack_all-keeps fs root P keeps stream [] u tt r))
