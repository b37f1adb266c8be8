-- ===== src/Tarx/Names.antt =====
-- The names of entries: what a name is resolved to, and that a packed name is resolved to itself.
use lean_sandbox.Common.{
  ℕ, ◌≡◌, ◌≢◌, refl, sym, ap, ◌∙◌, inl, inr, List, [], ◌∷◌, ◌++◌, All, arith, ◌==◌, Bool-cases,
}
use mathlib.Core.Path.{subst}
use mathlib.Core.List.{reverse, tail, reverse-cons, append_assoc, append-nil}
use lean_sandbox.Common.Text.{Bytes, text, str_eq}
use lean_sandbox.Common.Text.Laws.{str_eq_iff}
use lean_sandbox.Common.Paths.Laws.{NoSlash, split_slash_plain, split_slash_next}
use lean_sandbox.Common.Paths.{
  push_byte, split_slash, join_slash, resolve, resolve_all, clean_parts,
}

-- A part that names something inside a directory, and nothing else.
pub record IsPlain (part : Bytes) : Type 0 where
  pub not_empty : part ≢ []
  pub not_dot : part ≢ text "."
  pub not_dots : part ≢ text ".."
  pub no_slash : NoSlash part

push_byte-NoSlash :
    (c : ℕ) (ps : List Bytes) → c ≢ b'/' → All NoSlash ps → All NoSlash (push_byte c ps)
push_byte-NoSlash c [] n h = ((n, tt), tt)
push_byte-NoSlash c (p ∷ ps) n h = ((n, h.0), h.1)

split_slash-NoSlash : (s : Bytes) → All NoSlash (split_slash s)
unfolding split_slash
split_slash-NoSlash [] = (tt, tt)
split_slash-NoSlash (c ∷ s) = elim (Bool-cases (c == b'/')) [
  | inl e ↦ rw e (tt, split_slash-NoSlash s)
  | inr e ↦ rw e (push_byte-NoSlash c (split_slash s) (λ p. ground arith) (split_slash-NoSlash s))
]

All-tail : (xs : List Bytes) → All IsPlain xs → All IsPlain (tail xs)
All-tail [] h = tt
All-tail (x ∷ xs) h = h.1

resolve-IsPlain :
    (kept : List Bytes) (part : Bytes)
    → All IsPlain kept
    → NoSlash part
    → All IsPlain (resolve kept part)
unfolding resolve
resolve-IsPlain kept [] h n = h
resolve-IsPlain kept (c ∷ part) h n = elim (Bool-cases (str_eq (c ∷ part) (text "."))) [
  | inl e ↦ rw e h
  | inr e ↦ elim (Bool-cases (str_eq (c ∷ part) (text ".."))) [
    | inl f ↦ rw (e, f) (All-tail kept h)
    | inr f ↦
        rw (e, f)
          (
            record {
              not_empty = λ p. cc;
              not_dot = λ p. ground (arith, (str_eq_iff (c ∷ part) (text ".")).1 p);
              not_dots = λ p. ground (arith, (str_eq_iff (c ∷ part) (text "..")).1 p);
              no_slash = n;
            },
            h,
          )
  ]
]

All-reverse_onto :
    (xs ys : List Bytes) → All IsPlain xs → All IsPlain ys → All IsPlain (reverse xs ++ ys)
All-reverse_onto [] ys h k = k
All-reverse_onto (x ∷ xs) ys h k =
    subst (All IsPlain)
      (sym (ap (λ t. t ++ ys) (reverse-cons x xs) ∙ append_assoc (reverse xs) (x ∷ []) ys))
      (All-reverse_onto xs (x ∷ ys) h.1 (h.0, k))

resolve_all-IsPlain :
    (kept parts : List Bytes)
    → All IsPlain kept
    → All NoSlash parts
    → All IsPlain (resolve_all kept parts)
unfolding resolve_all
resolve_all-IsPlain kept [] h n =
    subst (All IsPlain) (append-nil (reverse kept)) (All-reverse_onto kept [] h tt)
resolve_all-IsPlain kept (part ∷ parts) h n =
    resolve_all-IsPlain (resolve kept part) parts (resolve-IsPlain kept part h n.0) n.1

-- Whatever the name of an entry, the parts it is resolved to are neither empty nor "." nor "..",
-- and hold no slash.
pub clean_parts-IsPlain : (name : Bytes) → All IsPlain (clean_parts name)
unfolding clean_parts
clean_parts-IsPlain name = resolve_all-IsPlain [] (split_slash name) tt (split_slash-NoSlash name)

resolve_of_IsPlain :
    (kept : List Bytes) (part : Bytes) → IsPlain part → resolve kept part ≡ part ∷ kept
unfolding resolve
resolve_of_IsPlain kept [] h = absurd (h.not_empty refl)
resolve_of_IsPlain kept (c ∷ part) h = elim (Bool-cases (str_eq (c ∷ part) (text "."))) [
  | inl e ↦ absurd (h.not_dot ((str_eq_iff (c ∷ part) (text ".")).0 e))
  | inr e ↦ elim (Bool-cases (str_eq (c ∷ part) (text ".."))) [
    | inl f ↦ absurd (h.not_dots ((str_eq_iff (c ∷ part) (text "..")).0 f))
    | inr f ↦ rw (e, f) refl
  ]
]

resolve_all_of_IsPlain :
    (kept parts : List Bytes) → All IsPlain parts → resolve_all kept parts ≡ reverse kept ++ parts
unfolding resolve_all
resolve_all_of_IsPlain kept [] h = sym (append-nil (reverse kept))
resolve_all_of_IsPlain kept (part ∷ parts) h =
    ap (λ t. resolve_all t parts) (resolve_of_IsPlain kept part h.0)
    ∙ resolve_all_of_IsPlain (part ∷ kept) parts h.1
    ∙ ap (λ t. t ++ parts) (reverse-cons part kept)
    ∙ append_assoc (reverse kept) (part ∷ []) parts

split_slash-join_slash :
    (p : Bytes) (ps : List Bytes)
    → All IsPlain (p ∷ ps)
    → split_slash (join_slash (p ∷ ps)) ≡ p ∷ ps
unfolding join_slash
split_slash-join_slash p [] h = split_slash_plain p h.0.no_slash
split_slash-join_slash p (q ∷ ps) h =
    split_slash_next p (join_slash (q ∷ ps)) h.0.no_slash
    ∙ ap (◌∷◌ p) (split_slash-join_slash q ps h.1)

-- A name that is made of plain parts is resolved to these parts.
pub clean_parts-join_slash :
    (p : Bytes) (ps : List Bytes)
    → All IsPlain (p ∷ ps)
    → clean_parts (join_slash (p ∷ ps)) ≡ p ∷ ps
unfolding clean_parts
clean_parts-join_slash p ps h =
    ap (resolve_all []) (split_slash-join_slash p ps h) ∙ resolve_all_of_IsPlain [] (p ∷ ps) h
