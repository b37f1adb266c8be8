-- ===== src/ControlPlane/Heap.antt =====
-- Lists of addresses, and writes through a pointer.
use lean_sandbox.Common.{
  ℕ, zero, suc, ◌≡◌, refl, ap, ◌≢◌, true, false, ◌⊎◌, inl, inr, none, some, List, [], ◌∷◌, ◌++◌,
  arith, length, get_elem?, ◌==◌, if◌then◌else◌, Bool-cases, ◌↔◌,
}
use mathlib.Core.Option
use lean_sandbox.Api.{SandboxId}
use lean_sandbox.ControlPlane.{Sandbox, modify, split_last, has_id, remove_ref}

-- The address stands in the list.
abbrev pub Has : ℕ → List ℕ → Type 0
Has a [] = ⊥
Has a (x ∷ xs) = (a ≡ x) ⊎ Has a xs

-- No address stands in the list twice.
abbrev pub Distinct : List ℕ → Type 0
Distinct [] = Unit {0}
Distinct (x ∷ xs) = ¬ Has x xs × Distinct xs

pub Has-append : (a : ℕ) (xs ys : List ℕ) → Has a (xs ++ ys) ↔ (Has a xs ⊎ Has a ys)
Has-append a [] ys = (inr, λ h. elim h [ inl f ↦ absurd f | inr g ↦ g ])
Has-append a (x ∷ xs) ys = let ih = Has-append a xs ys in ground (arith, ih)

pub Distinct-concat : (xs : List ℕ) (a : ℕ) → Distinct xs → ¬ Has a xs → Distinct (xs ++ a ∷ [])
Distinct-concat [] a d n = (λ h. h, tt)
Distinct-concat (x ∷ xs) a d n =
    let h = Has-append x xs (a ∷ []) in
    (ground (arith, h), Distinct-concat xs a d.1 (λ h. n (inr h)))

-- `split_last` fails on the empty list alone, and otherwise splits off the last address.
abbrev pub Splits : List ℕ → Type 0
Splits xs =
    ((xs ≡ []) × (split_last xs ≡ none))
    ⊎ ((rest : List ℕ) × (a : ℕ) × (xs ≡ rest ++ a ∷ []) × (split_last xs ≡ some (rest, a)))

pub split_last-Splits : (xs : List ℕ) → Splits xs
unfolding split_last
split_last-Splits [] = inl (refl, refl)
split_last-Splits (x ∷ xs) = elim (split_last-Splits xs) [
  | inl (e, s) ↦ inr ([], x, ground arith, ground arith)
  | inr (rest, a, e, s) ↦ inr (x ∷ rest, a, ground arith, ground arith)
]

pub split_last-concat : (xs : List ℕ) (a : ℕ) → split_last (xs ++ a ∷ []) ≡ some (xs, a)
unfolding split_last
split_last-concat [] a = refl
split_last-concat (x ∷ xs) a = ground (arith, split_last-concat xs a)

pub get_elem?-modify :
    (xs : List Sandbox) (i j : ℕ) (f : Sandbox → Sandbox)
    → get_elem? (modify xs i f) j
      ≡ (if i == j then Option.map f (get_elem? xs j) else get_elem? xs j)
unfolding modify
get_elem?-modify [] i j f = ground arith
get_elem?-modify (x ∷ xs) zero zero f = ground arith
get_elem?-modify (x ∷ xs) zero (suc j) f = ground arith
get_elem?-modify (x ∷ xs) (suc i) zero f = ground arith
get_elem?-modify (x ∷ xs) (suc i) (suc j) f = ground (arith, get_elem?-modify xs i j f)

pub length-modify :
    (xs : List Sandbox) (i : ℕ) (f : Sandbox → Sandbox) → length (modify xs i f) ≡ length xs
unfolding modify
length-modify [] i f = refl
length-modify (x ∷ xs) zero f = refl
length-modify (x ∷ xs) (suc i) f = ap suc (length-modify xs i f)

-- What `remove_ref` does to a list without repetition: nothing, if no address in it has the id;
-- otherwise one address with the id is out, all others stay.
abbrev pub Removes : List Sandbox → SandboxId → List ℕ → Type 0
Removes heap id xs =
    ((remove_ref heap id xs ≡ none) × ((b : ℕ) → Has b xs → has_id heap id b ≡ false))
    ⊎ ((rest : List ℕ) × (a : ℕ) × (remove_ref heap id xs ≡ some rest)
        × (has_id heap id a ≡ true)
        × Has a xs
        × ¬ Has a rest
        × ((b : ℕ) → Has b rest → Has b xs)
        × ((b : ℕ) → b ≢ a → Has b xs → Has b rest)
        × Distinct rest)

pub remove_ref-Removes :
    (heap : List Sandbox) (id : SandboxId) (xs : List ℕ) → Distinct xs → Removes heap id xs
unfolding remove_ref
remove_ref-Removes heap id [] d = inl (refl, λ b h. absurd h)
remove_ref-Removes heap id (x ∷ xs) d = elim (Bool-cases (has_id heap id x)) [
  | inl e ↦ inr (
    xs,
    x,
    rw e,
    e,
    inl refl,
    d.0,
    (λ b h. inr h),
    (λ b n h. elim h [ inl p ↦ absurd (n p) | inr k ↦ k ]),
    d.1,
  )
  | inr e ↦ elim (remove_ref-Removes heap id xs d.1) [
    | inl (r, f) ↦ inl (rw (e, r), λ b h. elim h [ inl p ↦ rw p e | inr k ↦ f b k ])
    | inr (rest, a, r, i, h, n, sub, keep, dr) ↦ inr (
      x ∷ rest,
      a,
      rw (e, r),
      i,
      inr h,
      (λ k. elim k [ inl p ↦ absurd (cc) | inr m ↦ n m ]),
      (λ b k. elim k [ inl p ↦ inl p | inr m ↦ inr (sub b m) ]),
      (λ b m k. elim k [ inl p ↦ inl p | inr q ↦ inr (keep b m q) ]),
      ((λ k. d.0 (sub x k)), dr),
    )
  ]
]
