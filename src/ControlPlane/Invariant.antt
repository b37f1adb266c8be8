-- ===== src/ControlPlane/Invariant.antt =====
-- The invariant of the two maps and the heap, under every critical section. A `System` is the
-- control plane with the sandboxes that some `refillWarmPool` has registered and not yet appended:
-- between these two sections the mutex is free.
pub mod Sections
use lean_sandbox.Common.{
  ℕ, ◌+◌, ◌<◌, ◌≡◌, refl, sym, ap, ◌∙◌, ◌≢◌, Bool, true, false, ◌⊎◌, inl, inr, Option, none, some,
  List, [], ◌∷◌, ◌++◌, arith, length, get_elem?, ◌==◌, if◌then◌else◌, ==_iff, Bool-cases,
  Option-cases, lt-length_of_get_elem?, get_elem?-append_left, get_elem?-append_new,
}
use mathlib.Core.Option
use lean_sandbox.Common.Int.{ℤ}
use lean_sandbox.Common.Text.{Bytes, str_eq}
use lean_sandbox.Common.Text.Laws.{str_eq_iff}
use lean_sandbox.Common.Dict.{nat_eq, bytes_eq, get, put, delete, get-put, get-delete}
use lean_sandbox.Api.{SandboxId}
use lean_sandbox.ControlPlane.{
  Sandbox, ControlPlane, modify, warm_refs, claim_at, split_last, or_nil, claim_warm, register,
  append_warm, has_id, remove_ref, remove_warm_ref, find, drop_tracked, keep_alive,
}
use lean_sandbox.ControlPlane.Heap.{
  Has, Distinct, Has-append, Distinct-concat, Splits, split_last-Splits, get_elem?-modify, Removes,
  remove_ref-Removes,
}

pub record System : Type 0 where
  pub cp : ControlPlane
  pub open cp use *
  pub pending : List ℕ

-- The address is that of a sandbox of this image which is not claimed.
abbrev pub Idle : List Sandbox → Bytes → ℕ → Type 0
Idle heap image a =
    (sb : Sandbox) × (get_elem? heap a ≡ some sb) × (sb.image ≡ image) × (sb.claimed ≡ false)

pub record Inv (s : System) : Type 0 where
  -- `byID` maps an id to the sandbox of that id
  pub ids :
      (i a : ℕ)
      → get i s.by_id ≡ some a
      → (sb : Sandbox) × (get_elem? s.heap a ≡ some sb) × (sb.id ≡ i)
  -- `byImage` lists sandboxes of the image that are not claimed, each once
  pub warm : (image : Bytes) (a : ℕ) → Has a (warm_refs s.cp image) → Idle s.heap image a
  pub once : (image : Bytes) → Distinct (warm_refs s.cp image)
  -- no two sandboxes have one id
  pub unique :
      (a b : ℕ) (x y : Sandbox)
      → get_elem? s.heap a ≡ some x
      → get_elem? s.heap b ≡ some y
      → x.id ≡ y.id
      → a ≡ b
  -- a sandbox that waits to be appended is not claimed, and in no list
  pub waiting :
      (a : ℕ)
      → Has a s.pending
      → ((image : Bytes) × Idle s.heap image a) × ((image : Bytes) → ¬ Has a (warm_refs s.cp image))
  pub waits_once : Distinct s.pending

pub warm_refs-put :
    (cp : ControlPlane) (image img : Bytes) (xs : List ℕ)
    → or_nil (get img (put image xs cp.by_image))
      ≡ (if str_eq image img then xs else warm_refs cp img)
warm_refs-put cp image img xs = ground (arith, get-put image img xs cp.by_image)

-- A list written to one image, where each list satisfies `P` before.
pub put_induction :
    (P : Bytes → List ℕ → Type 0) (cp : ControlPlane) (image img : Bytes) (xs : List ℕ)
    → P image xs
    → (image ≢ img → P img (warm_refs cp img))
    → P img (or_nil (get img (put image xs cp.by_image)))
put_induction P cp image img xs h k =
    rw (warm_refs-put cp image img xs) (go (Bool-cases (str_eq image img)))
  where
    go :
        ((str_eq image img ≡ true) ⊎ (str_eq image img ≡ false))
        → P img (if str_eq image img then xs else warm_refs cp img)
    go (inl e) = rw e (rw ((str_eq_iff image img).0 e) at h)
    go (inr e) = rw e (k (λ p. ground (arith, str_eq_iff image img)))

Idle-modify :
    (heap : List Sandbox) (image : Bytes) (a b : ℕ) (f : Sandbox → Sandbox)
    → b ≢ a
    → Idle heap image b
    → Idle (modify heap a f) image b
Idle-modify heap image a b f n (sb, e, i, c) =
    (sb, ground (arith, get_elem?-modify heap a b f), i, c)

-- A write that keeps the id: what stands behind an address afterwards had the id before.
before_modify :
    (heap : List Sandbox) (a b : ℕ) (f : Sandbox → Sandbox) (y : Sandbox)
    → ((x : Sandbox) → (f x).id ≡ x.id)
    → get_elem? (modify heap a f) b ≡ some y
    → (x : Sandbox) × (get_elem? heap b ≡ some x) × (x.id ≡ y.id)
before_modify heap a b f y same e = elim (Option-cases (get_elem? heap b)) [
  | inl n ↦ absurd (ground (arith, get_elem?-modify heap a b f))
  | inr (x, h) ↦ (x, h, ground (arith, get_elem?-modify heap a b f, same x))
]

after_modify :
    (heap : List Sandbox) (a b : ℕ) (f : Sandbox → Sandbox) (x : Sandbox)
    → ((x : Sandbox) → (f x).id ≡ x.id)
    → get_elem? heap b ≡ some x
    → (y : Sandbox) × (get_elem? (modify heap a f) b ≡ some y) × (y.id ≡ x.id)
after_modify heap a b f x same e = elim (Bool-cases (a == b)) [
  | inl h ↦ (f x, ground (arith, get_elem?-modify heap a b f), same x)
  | inr h ↦ (x, ground (arith, get_elem?-modify heap a b f), refl)
]

Distinct-front : (xs : List ℕ) (a : ℕ) → Distinct (xs ++ a ∷ []) → Distinct xs × ¬ Has a xs
Distinct-front [] a d = (tt, λ h. h)
Distinct-front (x ∷ xs) a d =
    let ih = Distinct-front xs a d.1 in
    let app = Has-append x xs (a ∷ []) in
    (
      (ground (arith, app), ih.0),
      λ h. elim h [ inl p ↦ d.0 (app.1 (inr (inl (sym p)))) | inr k ↦ ih.1 k ],
    )

-- What a claim that succeeds found and did.
abbrev pub claimed_cp : ControlPlane → Bytes → List ℕ → ℕ → ℤ → ControlPlane
claimed_cp cp image rest a now = record cp {
  by_image = put image rest cp.by_image;
  heap = modify cp.heap a (claim_at now);
}

pub claim_warm-eq_some :
    (cp : ControlPlane) (image : Bytes) (now : ℤ) {a : ℕ} {cp' : ControlPlane}
    → claim_warm cp image now ≡ some (a, cp')
    → (rest : List ℕ) × (warm_refs cp image ≡ rest ++ a ∷ [])
      × (cp' ≡ claimed_cp cp image rest a now)
unfolding claim_warm
claim_warm-eq_some cp image now {a} {cp'} e = elim (split_last-Splits (warm_refs cp image)) [
  | inl (n, s) ↦ absurd (ground arith)
  | inr (rest, b, w, s) ↦ (rest, ground arith, ground arith)
]
