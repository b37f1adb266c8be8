-- ===== src/ControlPlane/Invariant/Sections/Drop.antt =====
-- `dropTracked` keeps the invariant.
use lean_sandbox.Common.{ℕ, ◌≡◌, inl, inr, none, some, arith, get_elem?, Bool-cases, Option-cases}
use lean_sandbox.Common.Dict.{nat_eq, bytes_eq, get, delete, get-delete}
use lean_sandbox.Api.{SandboxId}
use lean_sandbox.ControlPlane.{
  Sandbox, ControlPlane, warm_refs, remove_warm_ref, find, drop_tracked,
}
use lean_sandbox.ControlPlane.Heap.{Has, Distinct, remove_ref-Removes}
use lean_sandbox.ControlPlane.Invariant.{System, Idle, Inv, put_induction}

pub find-eq_some :
    (cp : ControlPlane) (id : SandboxId) {a : ℕ} {sb : Sandbox}
    → find cp id ≡ some (a, sb)
    → (get id cp.by_id ≡ some a) × (get_elem? cp.heap a ≡ some sb)
unfolding find
find-eq_some cp id {a} {sb} e = elim (Option-cases (get id cp.by_id)) [
  | inl n ↦ absurd (ground arith)
  | inr (b, h) ↦ (ground arith, ground arith)
]

-- The control plane without the entry of an id.
abbrev pub forget : ControlPlane → SandboxId → ControlPlane
forget cp id = record cp { by_id = delete id cp.by_id }

forget-Inv : (s : System) (id : SandboxId) → Inv s → Inv (record s { cp = forget s.cp id })
forget-Inv s id v = record {
  ids = λ i a e. v.ids i a (ground (arith, get-delete id i s.by_id));
  warm = v.warm;
  once = v.once;
  unique = v.unique;
  waiting = v.waiting;
  waits_once = v.waits_once;
}

remove_warm_ref-Inv :
    (s : System) (sb : Sandbox) → Inv s → Inv (record s { cp = remove_warm_ref s.cp sb })
unfolding remove_warm_ref
remove_warm_ref-Inv s sb v = elim (Bool-cases sb.claimed) [
  | inl c ↦ simp c v
  | inr c ↦ elim (remove_ref-Removes s.heap sb.id (warm_refs s.cp sb.image) (v.once sb.image)) [
    | inl (e, _) ↦ simp (c, e) v
    | inr (rest, a, e, i, h, n, sub, keep, d) ↦
        simp (c, e)
          (record {
            ids = v.ids;
            warm = λ img b.
                put_induction (λ i xs. Has b xs → Idle s.heap i b) s.cp sb.image img rest
                  (λ k. v.warm sb.image b (sub b k)) (λ _. v.warm img b);
            once = λ img.
                put_induction (λ _ xs. Distinct xs) s.cp sb.image img rest d (λ _. v.once img);
            unique = v.unique;
            waiting = λ b k.
                let (idle, m) = v.waiting b k in
                (
                  idle,
                  λ img.
                      put_induction (λ _ xs. ¬ Has b xs) s.cp sb.image img rest
                        (λ p. m sb.image (sub b p)) (λ _. m img),
                );
            waits_once = v.waits_once;
          })
  ]
]

pub drop_tracked_missing :
    (cp : ControlPlane) (id : SandboxId) → find cp id ≡ none → drop_tracked cp id ≡ (none, cp)
unfolding drop_tracked
drop_tracked_missing cp id e = rw (e, drop_tracked)

pub drop_tracked_found :
    (cp : ControlPlane) (id : SandboxId) {a : ℕ} {sb : Sandbox}
    → find cp id ≡ some (a, sb)
    → drop_tracked cp id ≡ (some sb, remove_warm_ref (forget cp id) sb)
unfolding drop_tracked
drop_tracked_found cp id e = rw (e, drop_tracked)

-- Taking a sandbox out of both maps keeps the invariant.
pub drop_tracked-Inv :
    (s : System) (id : SandboxId) → Inv s → Inv (record s { cp = (drop_tracked s.cp id).1 })
drop_tracked-Inv s id v = elim (Option-cases (find s.cp id)) [
  | inl n ↦ rw (drop_tracked_missing s.cp id n) v
  | inr ((a, sb), e) ↦
      rw (drop_tracked_found s.cp id e)
        (remove_warm_ref-Inv (record s { cp = forget s.cp id }) sb (forget-Inv s id v))
]
