-- ===== src/Common/Text/Laws.antt =====
-- Laws of the byte-string functions.

use lean_sandbox.Common.Lists.{All}
use lean_sandbox.Common.Text.{Bytes, is_empty, str_eq, cut_prefix, cut, trim_left, trim_right}
use Prim.Native.Nat.{ℕ}
use mathlib.Core.Path.{◌≡◌, refl, sym}
use mathlib.Core.Logic.{◌↔◌, ◌≢◌}
use mathlib.Core.Bool.{Bool, true, false, false≢true}
use mathlib.Core.Option.{some}
use mathlib.Core.List.{[], ◌∷◌, ◌++◌}
use native.Mathlib.Omega.{arith}

pub str_eq_iff : (a b : Bytes) → (str_eq a b ≡ true) ↔ (a ≡ b)
unfolding str_eq
str_eq_iff [] [] = ground arith
str_eq_iff (x ∷ a) (y ∷ b) = ground (arith, str_eq_iff a b)
str_eq_iff [] (y ∷ b) = ground arith
str_eq_iff (x ∷ a) [] = ground arith

pub str_eq_refl : (a : Bytes) → str_eq a a ≡ true
str_eq_refl a = (str_eq_iff a a).1 refl

pub cut_prefix-append : (p s : Bytes) → cut_prefix p (p ++ s) ≡ some s
unfolding cut_prefix
cut_prefix-append [] s = refl
cut_prefix-append (c ∷ p) s = ground (arith, cut_prefix-append p s)

-- What `CutPrefix` returns is the rest of the string.
pub cut_prefix-eq_some : (p s : Bytes) {r : Bytes} → cut_prefix p s ≡ some r → s ≡ p ++ r
unfolding cut_prefix
cut_prefix-eq_some [] s e = ground arith
cut_prefix-eq_some (c ∷ p) [] e = cc
cut_prefix-eq_some (c ∷ p) (d ∷ s) {r} e = ground (arith, cut_prefix-eq_some p s {r = r})

-- A separator is found behind a part that does not hold it.
pub cut-append :
    (sep : ℕ) (k v : Bytes) → All (λ c. c ≢ sep) k → cut sep (k ++ sep ∷ v) ≡ some (k, v)
unfolding cut
cut-append sep [] v h = ground arith
cut-append sep (c ∷ k) v h = ground (arith, cut-append sep k v h.1)

-- Nothing is trimmed behind a byte that stays.
pub trim_right-concat :
    (p : ℕ → Bool) (s : Bytes) (c : ℕ) → p c ≡ false → trim_right p (s ++ c ∷ []) ≡ s ++ c ∷ []
unfolding trim_right
trim_right-concat p [] c h = ground arith
trim_right-concat p (d ∷ []) c h = ground arith
trim_right-concat p (d ∷ e ∷ s) c h = rw (trim_right-concat p (e ∷ s) c h, trim_right)

pub trim_right-drop :
    (p : ℕ → Bool) (s : Bytes) (c : ℕ) → p c ≡ true → trim_right p (s ++ c ∷ []) ≡ trim_right p s
unfolding trim_right
trim_right-drop p [] c h = ground arith
trim_right-drop p (d ∷ s) c h = ground (arith, trim_right-drop p s c h)

trim_right-append_cons :
    (p : ℕ → Bool) (x : Bytes) (c : ℕ) (s : Bytes)
    → trim_right p (c ∷ s) ≡ c ∷ s
    → trim_right p (x ++ c ∷ s) ≡ x ++ c ∷ s
unfolding trim_right
trim_right-append_cons p [] c s h = h
trim_right-append_cons p (d ∷ []) c s h = ground (arith, h)
trim_right-append_cons p (d ∷ e ∷ x) c s h = ground (arith, trim_right-append_cons p (e ∷ x) c s h)

-- Where nothing is trimmed from a string that is not empty, nothing is behind any string.
pub trim_right-append :
    (p : ℕ → Bool) (x s : Bytes)
    → is_empty s ≡ false
    → trim_right p s ≡ s
    → trim_right p (x ++ s) ≡ x ++ s
trim_right-append p x [] ne h = absurd (false≢true (sym ne))
trim_right-append p x (c ∷ s) ne h = trim_right-append_cons p x c s h

pub trim_right_none : (p : ℕ → Bool) (s : Bytes) → All (λ c. p c ≡ false) s → trim_right p s ≡ s
unfolding trim_right
trim_right_none p [] h = refl
trim_right_none p (c ∷ s) h = ground (arith, trim_right_none p s h.1)

pub trim_left_none : (p : ℕ → Bool) (s : Bytes) → All (λ c. p c ≡ false) s → trim_left p s ≡ s
unfolding trim_left
trim_left_none p [] h = refl
trim_left_none p (c ∷ s) h = ground arith
