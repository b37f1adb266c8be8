-- ===== src/ControlPlane/Interleaving/Race.antt =====
-- The two sections of a refill with a deletion between them.
use lean_sandbox.Common.{
  ℕ, ◌≡◌, refl, ap, ◌∙◌, true, false, ==_refl, inl, inr, Option, none, some, List, [], ◌∷◌, ◌++◌,
  arith, length, get_elem?, get_elem?-append_new,
}
use lean_sandbox.Common.Int.{ℤ}
use lean_sandbox.Common.Text.{Bytes}
use lean_sandbox.Common.Dict.{nat_eq, bytes_eq, get, get-put_self, get-delete_self}
use lean_sandbox.Api.{SandboxId}
use lean_sandbox.ControlPlane.{
  Sandbox, ControlPlane, warm_refs, split_last, or_nil, claim_at, claim_warm, register, append_warm,
  drop_tracked, keep_alive, find, remove_warm_ref,
}
use lean_sandbox.ControlPlane.Heap.{Has, Has-append, get_elem?-modify, split_last-concat}
use lean_sandbox.ControlPlane.Invariant.{System, claimed_cp}
use lean_sandbox.ControlPlane.Invariant.Sections.{
  IsFresh, forget, drop_tracked_found, keep_alive_missing,
}
use lean_sandbox.ControlPlane.Interleaving.{Step, warms, appends, drops, without, heap-drop_tracked}

by_id-remove_warm_ref :
    (cp : ControlPlane) (sb : Sandbox) → (remove_warm_ref cp sb).by_id ≡ cp.by_id
unfolding remove_warm_ref
by_id-remove_warm_ref cp sb = ground arith

find-register :
    (cp : ControlPlane) (sb : Sandbox) → find (register cp sb) sb.id ≡ some (length cp.heap, sb)
unfolding find register
find-register cp sb =
    rw (get-put_self sb.id (length cp.heap) cp.by_id, get_elem?-append_new cp.heap sb)

-- After a sandbox is dropped its id is unknown.
pub get-drop_tracked :
    (cp : ControlPlane) (id : SandboxId) {a : ℕ} {sb : Sandbox}
    → find cp id ≡ some (a, sb)
    → get id (drop_tracked cp id).1.by_id ≡ none
get-drop_tracked cp id {a} {sb} e =
    rw (drop_tracked_found cp id e, by_id-remove_warm_ref (forget cp id) sb)
      (get-delete_self id cp.by_id)

pub claim_warm_split :
    (cp : ControlPlane) (image : Bytes) (now : ℤ) (rest : List ℕ) (a : ℕ)
    → split_last (warm_refs cp image) ≡ some (rest, a)
    → claim_warm cp image now ≡ some (a, claimed_cp cp image rest a now)
unfolding claim_warm
claim_warm_split cp image now rest a e = rw (e, claim_warm)

warm_refs-append_warm :
    (cp : ControlPlane) (image : Bytes) (a : ℕ)
    → warm_refs (append_warm cp image a) image ≡ warm_refs cp image ++ a ∷ []
unfolding append_warm
warm_refs-append_warm cp image a =
    ap or_nil (get-put_self image (warm_refs cp image ++ a ∷ []) cp.by_image)

claim_warm-append_warm :
    (cp : ControlPlane) (image : Bytes) (a : ℕ) (now : ℤ)
    → claim_warm (append_warm cp image a) image now
      ≡ some (a, claimed_cp (append_warm cp image a) image (warm_refs cp image) a now)
claim_warm-append_warm cp image a now =
    claim_warm_split (append_warm cp image a) image now (warm_refs cp image) a
      (ap split_last (warm_refs-append_warm cp image a) ∙ split_last-concat (warm_refs cp image) a)

find-none : (cp : ControlPlane) (id : SandboxId) → get id cp.by_id ≡ none → find cp id ≡ none
unfolding find
find-none cp id e = rw e

-- The three sections of a refill and a deletion: the refill has registered the sandbox, the sandbox
-- is dropped, and the refill has appended it.
abbrev pub after_register : System → Sandbox → System
after_register s sb = record { cp = register s.cp sb; pending = s.pending ++ length s.heap ∷ [] }

abbrev pub after_drop : System → Sandbox → System
after_drop s sb = let t = after_register s sb in record t { cp = (drop_tracked t.cp sb.id).1 }

abbrev pub after_append : System → Sandbox → System
after_append s sb =
    let t = after_drop s sb in
    record {
      cp = append_warm t.cp sb.image (length s.heap);
      pending = without (length s.heap) t.pending;
    }

drop_tracked-found :
    (cp : ControlPlane) (id : SandboxId) {a : ℕ} {sb : Sandbox}
    → find cp id ≡ some (a, sb)
    → (drop_tracked cp id).0 ≡ some sb
drop_tracked-found cp id e =
    ap (λ (r : Option Sandbox × ControlPlane). r.0) (drop_tracked_found cp id e)

-- From any state of the control plane, and for any sandbox that a refill makes: the refill registers
-- it, the watcher or a deletion finds and drops it, and the refill appends it, each in one critical
-- section; behind them no sandbox is known by its id, and the next client of its image is given the
-- address at which that sandbox stands, claimed; and the client's first renewal is answered that the
-- lease has expired.
pub refill_race :
    (s : System) (sb : Sandbox) (now later : ℤ)
    → IsFresh s.heap sb.id
    → sb.claimed ≡ false
    → Step s (after_register s sb) none
      × Step (after_register s sb) (after_drop s sb) none
      × Step (after_drop s sb) (after_append s sb) none
      × ((drop_tracked (after_register s sb).cp sb.id).0 ≡ some sb)
      × (get sb.id (after_append s sb).cp.by_id ≡ none)
      × ((cp : ControlPlane) × (claim_warm (after_append s sb).cp sb.image now
            ≡ some (length s.heap, cp))
          × (get_elem? cp.heap (length s.heap)
              ≡ some (record sb { claimed = true; last_seen = now }))
          × ((keep_alive cp sb.id later).0 ≡ none))
refill_race s sb now later fresh unclaimed =
    let a = length s.heap in
    let s₁ = after_register s sb in
    let s₂ = after_drop s sb in
    let waits : Has a s₂.pending = (Has-append a s.pending (a ∷ [])).1 (inr (inl refl)) in
    let known = find-register s.cp sb in
    let there : get_elem? s₂.heap a ≡ some sb =
      rw (heap-drop_tracked s₁.cp sb.id) (unfold register in get_elem?-append_new s.heap sb) in
    let gone = get-drop_tracked s₁.cp sb.id known in
    let cp = claimed_cp (after_append s sb).cp sb.image (warm_refs s₂.cp sb.image) a now in
    (
      warms s sb fresh unclaimed,
      drops s₁ sb.id,
      appends s₂ a sb waits there,
      drop_tracked-found s₁.cp sb.id known,
      unfold append_warm in gone,
      (
        cp,
        claim_warm-append_warm s₂.cp sb.image a now,
        unfold append_warm in
            ground (arith, get_elem?-modify s₂.cp.heap a a (claim_at now), ==_refl a, there),
        ap (λ (r : Option ℕ × ControlPlane). r.0)
            (keep_alive_missing cp sb.id later (find-none cp sb.id (unfold append_warm in gone))),
      ),
    )
