-- ===== src/ControlPlane/Invariant/Sections/Renew.antt =====
-- `KeepAlive` keeps the invariant.
use lean_sandbox.Common.{
  ℕ, ◌≡◌, refl, sym, ◌∙◌, inl, inr, none, some, List, arith, ◌==◌, Bool-cases, Option-cases,
}
use lean_sandbox.Common.Int.{ℤ}
use lean_sandbox.Common.Text.{Bytes}
use lean_sandbox.Common.Dict.{nat_eq, bytes_eq}
use lean_sandbox.Api.{SandboxId}
use lean_sandbox.ControlPlane.{Sandbox, ControlPlane, modify, find, keep_alive}
use lean_sandbox.ControlPlane.Heap.{get_elem?-modify}
use lean_sandbox.ControlPlane.Invariant.{System, Idle, Inv, before_modify, after_modify}

pub keep_alive_missing :
    (cp : ControlPlane) (id : SandboxId) (now : ℤ)
    → find cp id ≡ none
    → keep_alive cp id now ≡ (none, cp)
unfolding keep_alive
keep_alive_missing cp id now e = rw (e, keep_alive)

-- The control plane after a lease is renewed.
abbrev pub renewed : ControlPlane → ℕ → ℤ → ControlPlane
renewed cp a now = record cp { heap = modify cp.heap a (λ x. record x { last_seen = now }) }

pub keep_alive_found :
    (cp : ControlPlane) (id : SandboxId) (now : ℤ) {a : ℕ} {sb : Sandbox}
    → find cp id ≡ some (a, sb)
    → keep_alive cp id now ≡ (some a, renewed cp a now)
unfolding keep_alive
keep_alive_found cp id now e = rw (e, keep_alive)

Idle-renew :
    (heap : List Sandbox) (image : Bytes) (a b : ℕ) (now : ℤ)
    → Idle heap image b
    → Idle (modify heap a (λ s. record s { last_seen = now })) image b
Idle-renew heap image a b now (x, e, i, c) = elim (Bool-cases (a == b)) [
  | inl h ↦ (
    record x { last_seen = now },
    ground (arith, get_elem?-modify heap a b (λ s. record s { last_seen = now })),
    i,
    c,
  )
  | inr h ↦ (x, ground (arith, get_elem?-modify heap a b (λ s. record s { last_seen = now })), i, c)
]

renewed-Inv :
    (s : System) (a : ℕ) (now : ℤ)
    → Inv s
    → Inv (record s {
      cp = record s.cp { heap = modify s.heap a (λ x. record x { last_seen = now }) };
    })
renewed-Inv s a now v =
    let f : Sandbox → Sandbox = λ x. record x { last_seen = now } in
    record {
      ids = λ i b e.
          let (x, h, j) = v.ids i b e in
          let (y, k, l) = after_modify s.heap a b f x (λ _. refl) h in (y, k, l ∙ j);
      warm = λ img b h. Idle-renew s.heap img a b now (v.warm img b h);
      once = v.once;
      unique = λ b c x y e g p.
          let (x', e', p') = before_modify s.heap a b f x (λ _. refl) e in
          let (y', g', q') = before_modify s.heap a c f y (λ _. refl) g in
          v.unique b c x' y' e' g' (p' ∙ p ∙ sym q');
      waiting = λ b h.
          let ((img, idle), n) = v.waiting b h in ((img, Idle-renew s.heap img a b now idle), n);
      waits_once = v.waits_once;
    }

-- Renewing a lease keeps the invariant.
pub keep_alive-Inv :
    (s : System) (id : SandboxId) (now : ℤ)
    → Inv s
    → Inv (record s { cp = (keep_alive s.cp id now).1 })
keep_alive-Inv s id now v = elim (Option-cases (find s.cp id)) [
  | inl n ↦ rw (keep_alive_missing s.cp id now n) v
  | inr ((a, sb), e) ↦ rw (keep_alive_found s.cp id now e) (renewed-Inv s a now v)
]
