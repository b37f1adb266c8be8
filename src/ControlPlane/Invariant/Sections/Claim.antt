-- ===== src/ControlPlane/Invariant/Sections/Claim.antt =====
-- The claim of a warm sandbox, of `NewSandbox`, keeps the invariant.
use lean_sandbox.Common.{ℕ, ◌≡◌, refl, sym, ◌∙◌, ◌≢◌, inl, inr, some, List, [], ◌∷◌, ◌++◌, arith}
use mathlib.Core.Path.{subst}
use lean_sandbox.Common.Int.{ℤ}
use lean_sandbox.Common.Text.{Bytes}
use lean_sandbox.Common.Dict.{nat_eq, bytes_eq, get, put}
use lean_sandbox.ControlPlane.{ControlPlane, warm_refs, claim_at, or_nil, claim_warm}
use lean_sandbox.ControlPlane.Heap.{Has, Distinct, Has-append}
use lean_sandbox.ControlPlane.Invariant.{
  System, Inv, put_induction, Idle-modify, before_modify, after_modify, Distinct-front, claimed_cp,
  claim_warm-eq_some,
}

module _ (s : System) (v : Inv s) (image : Bytes) (rest : List ℕ) (a : ℕ) (now : ℤ)
    (w : warm_refs s.cp image ≡ rest ++ a ∷ []) where
  last-Has : Has a (warm_refs s.cp image)
  last-Has = rw w ((Has-append a rest (a ∷ [])).1 (inr (inl refl)))

  front-Has : (b : ℕ) → Has b rest → Has b (warm_refs s.cp image)
  front-Has b h = rw w ((Has-append b rest (a ∷ [])).1 (inl h))

  split-Distinct : Distinct rest × ¬ Has a rest
  split-Distinct = Distinct-front rest a (rw w at (v.once image))

  -- Another list does not hold the claimed address.
  other_image : (img : Bytes) → Has a (warm_refs s.cp img) → img ≡ image
  other_image img h =
      let (x, e, i, _) = v.warm img a h in
      let (y, f, j, _) = v.warm image a last-Has in ground arith

  claimed-warm :
      (img : Bytes) (b : ℕ)
      → Has b (or_nil (get img (put image rest s.by_image)))
      → Has b (warm_refs s.cp img) × (b ≢ a)
  claimed-warm img b =
      put_induction (λ i xs. Has b xs → Has b (warm_refs s.cp i) × (b ≢ a)) s.cp image img rest
        (λ h. (front-Has b h, λ e. split-Distinct.1 (subst (λ t. Has t rest) e h)))
        (λ n h. (h, λ e. n (sym (other_image img (subst (λ t. Has t (warm_refs s.cp img)) e h)))))

  claimed-Inv : Inv (record s { cp = claimed_cp s.cp image rest a now })
  claimed-Inv = record {
    ids = λ i b e.
        let (x, h, j) = v.ids i b e in
        let (y, k, l) = after_modify s.heap a b (claim_at now) x (λ _. refl) h in (y, k, l ∙ j);
    warm = λ img b h.
        let (k, n) = claimed-warm img b h in
        Idle-modify s.heap img a b (claim_at now) n (v.warm img b k);
    once = λ img.
        put_induction (λ _ xs. Distinct xs) s.cp image img rest split-Distinct.0 (λ _. v.once img);
    unique = λ b c x y e f p.
        let (x', e', p') = before_modify s.heap a b (claim_at now) x (λ _. refl) e in
        let (y', f', q') = before_modify s.heap a c (claim_at now) y (λ _. refl) f in
        v.unique b c x' y' e' f' (p' ∙ p ∙ sym q');
    waiting = λ b h.
        let ((img, idle), n) = v.waiting b h in
        (
          (img, Idle-modify s.heap img a b (claim_at now) (λ e. n image (rw e last-Has)) idle),
          λ i k. n i (claimed-warm i b k).0,
        );
    waits_once = v.waits_once;
  }

-- Claiming a warm sandbox keeps the invariant.
pub claim_warm-Inv :
    (s : System) (image : Bytes) (now : ℤ) {a : ℕ} {cp' : ControlPlane}
    → Inv s
    → claim_warm s.cp image now ≡ some (a, cp')
    → Inv (record s { cp = cp' })
claim_warm-Inv s image now {a} v e =
    let (rest, w, c) = claim_warm-eq_some s.cp image now e in
    rw c (claimed-Inv s v image rest a now w)
