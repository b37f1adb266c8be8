-- ===== src/ControlPlane/Invariant/Sections/Register.antt =====
-- `register`, and the append to a warm list, keep the invariant.
use lean_sandbox.Common.{
  ℕ, zero, suc, ◌≡◌, refl, sym, ap, ◌∙◌, ◌≢◌, false, ◌⊎◌, inl, inr, some, List, [], ◌∷◌, ◌++◌,
  arith, length, get_elem?, ◌==◌, Bool-cases, lt-length_of_get_elem?, get_elem?-append_left,
  get_elem?-append_new,
}
use mathlib.Core.Path.{subst}
use lean_sandbox.Common.Text.{Bytes}
use lean_sandbox.Common.Dict.{nat_eq, bytes_eq, get, get-put}
use lean_sandbox.Api.{SandboxId}
use lean_sandbox.ControlPlane.{Sandbox, warm_refs, register, append_warm}
use lean_sandbox.ControlPlane.Heap.{Has, Distinct, Has-append, Distinct-concat}
use lean_sandbox.ControlPlane.Invariant.{System, Idle, Inv, put_induction}

-- The id of no sandbox so far.
abbrev pub IsFresh : List Sandbox → SandboxId → Type 0
IsFresh heap id = (a : ℕ) (x : Sandbox) → get_elem? heap a ≡ some x → x.id ≢ id

pub new_or_old :
    (heap : List Sandbox) (sb : Sandbox) (a : ℕ) {x : Sandbox}
    → get_elem? (heap ++ sb ∷ []) a ≡ some x
    → (get_elem? heap a ≡ some x) ⊎ ((a ≡ length heap) × (x ≡ sb))
new_or_old [] sb zero e = inr (refl, ground arith)
new_or_old [] sb (suc a) e = cc
new_or_old (y ∷ heap) sb zero e = inl e
new_or_old (y ∷ heap) sb (suc a) e = elim (new_or_old heap sb a e) [
  | inl h ↦ inl h
  | inr (p, q) ↦ inr (ap suc p, q)
]

pub old :
    (heap : List Sandbox) (sb : Sandbox) (a : ℕ) {x : Sandbox}
    → get_elem? heap a ≡ some x
    → get_elem? (heap ++ sb ∷ []) a ≡ some x
old heap sb a e = get_elem?-append_left heap (sb ∷ []) a (lt-length_of_get_elem? heap a e) ∙ e

Idle-old :
    (heap : List Sandbox) (sb : Sandbox) (image : Bytes) (a : ℕ)
    → Idle heap image a
    → Idle (heap ++ sb ∷ []) image a
Idle-old heap sb image a (x, e, i, c) = (x, old heap sb a e, i, c)

not-Idle_new : (heap : List Sandbox) (image : Bytes) (a : ℕ) → a ≡ length heap → ¬ Idle heap image a
not-Idle_new heap image a p (x, e, _, _) = omega (arith, lt-length_of_get_elem? heap a e)

module _ (s : System) (v : Inv s) (sb : Sandbox) (fresh : IsFresh s.heap sb.id) where
  register-ids :
      (i a : ℕ)
      → get i (register s.cp sb).by_id ≡ some a
      → (x : Sandbox) × (get_elem? (register s.cp sb).heap a ≡ some x) × (x.id ≡ i)
  unfolding register
  register-ids i a e = elim (Bool-cases (sb.id == i)) [
    | inl h ↦ (
      sb,
      ground (arith, get-put sb.id i (length s.heap) s.by_id, get_elem?-append_new s.heap sb),
      ground arith,
    )
    | inr h ↦
        let (x, f, p) = v.ids i a (ground (arith, get-put sb.id i (length s.heap) s.by_id)) in
        (x, old s.heap sb a f, p)
  ]

  register_unique :
      (a b : ℕ) (x y : Sandbox)
      → get_elem? (register s.cp sb).heap a ≡ some x
      → get_elem? (register s.cp sb).heap b ≡ some y
      → x.id ≡ y.id
      → a ≡ b
  unfolding register
  register_unique a b x y e f p = elim (new_or_old s.heap sb a e) [
    | inl h ↦ elim (new_or_old s.heap sb b f) [
      | inl k ↦ v.unique a b x y h k p
      | inr (k, q) ↦ absurd (fresh a x h (p ∙ ap (λ (z : Sandbox). z.id) q))
    ]
    | inr (h, q) ↦ elim (new_or_old s.heap sb b f) [
      | inl k ↦ absurd (fresh b y k (sym p ∙ ap (λ (z : Sandbox). z.id) q))
      | inr (k, r) ↦ h ∙ sym k
    ]
  ]

  register-warm :
      (image : Bytes) (a : ℕ)
      → Has a (warm_refs (register s.cp sb) image)
      → Idle (register s.cp sb).heap image a
  unfolding register
  register-warm image a h = Idle-old s.heap sb image a (v.warm image a h)

  -- Registering a sandbox of a fresh id keeps the invariant.
  pub register-Inv : Inv (record s { cp = register s.cp sb })
  unfolding register
  register-Inv = record {
    ids = register-ids;
    warm = register-warm;
    once = v.once;
    unique = register_unique;
    waiting =
        λ a h. let ((img, idle), n) = v.waiting a h in ((img, Idle-old s.heap sb img a idle), n);
    waits_once = v.waits_once;
  }

  -- So does registering one that a refill will append.
  pub register_pending-Inv :
      sb.claimed ≡ false
      → Inv (record { cp = register s.cp sb; pending = s.pending ++ length s.heap ∷ [] })
  unfolding register
  register_pending-Inv c = record {
    ids = register-ids;
    warm = register-warm;
    once = v.once;
    unique = register_unique;
    waiting = λ a h. elim ((Has-append a s.pending (length s.heap ∷ [])).0 h) [
      | inl k ↦ let ((img, idle), n) = v.waiting a k in ((img, Idle-old s.heap sb img a idle), n)
      | inr k ↦ elim k [
        | inl p ↦ (
          (sb.image, (sb, new_elem a p, refl, c)),
          λ i m. not-Idle_new s.heap i a p (v.warm i a m),
        )
        | inr f ↦ absurd f
      ]
    ];
    waits_once = Distinct-concat s.pending (length s.heap) v.waits_once (λ k.
        let ((img, idle), _) = v.waiting (length s.heap) k in
        not-Idle_new s.heap img (length s.heap) refl idle);
  }
    where
      new_elem : (a : ℕ) → a ≡ length s.heap → get_elem? (s.heap ++ sb ∷ []) a ≡ some sb
      new_elem a p = rw p (get_elem?-append_new s.heap sb)

pub append_warm-Inv :
    (s : System) (image : Bytes) (a : ℕ) (others : List ℕ)
    → Inv s
    → Idle s.heap image a
    → ((img : Bytes) → ¬ Has a (warm_refs s.cp img))
    → Distinct others
    → ¬ Has a others
    → ((b : ℕ) → Has b others → Has b s.pending)
    → Inv (record { cp = append_warm s.cp image a; pending = others })
unfolding append_warm
append_warm-Inv s image a others v idle out d n sub = record {
  ids = v.ids;
  warm = λ img b.
      put_induction (λ i xs. Has b xs → Idle s.heap i b) s.cp image img _
        (λ h. elim ((Has-append b (warm_refs s.cp image) (a ∷ [])).0 h) [
          | inl k ↦ v.warm image b k
          | inr k ↦ elim k [ inl p ↦ subst (Idle s.heap image) (sym p) idle | inr f ↦ absurd f ]
        ])
        (λ _. v.warm img b);
  once = λ img.
      put_induction (λ _ xs. Distinct xs) s.cp image img _
        (Distinct-concat (warm_refs s.cp image) a (v.once image) (out image)) (λ _. v.once img);
  unique = v.unique;
  waiting = λ b h.
      let (i, k) = v.waiting b (sub b h) in
      (
        i,
        λ img.
            put_induction (λ _ xs. ¬ Has b xs) s.cp image img _
              (λ m. elim ((Has-append b (warm_refs s.cp image) (a ∷ [])).0 m) [
                | inl p ↦ k image p
                | inr p ↦ elim p [ inl q ↦ n (subst (λ t. Has t others) q h) | inr f ↦ absurd f ]
              ])
              (λ _. k img),
      );
  waits_once = d;
}
