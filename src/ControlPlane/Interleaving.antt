-- ===== src/ControlPlane/Interleaving.antt =====
-- The critical sections of any number of requests, refills and watchers, in any order: each is one
-- step, labelled with the address of the sandbox that it hands to a client, if it hands one.
pub mod Race
use lean_sandbox.Common.{
  ℕ, zero, suc, ◌+◌, ◌<◌, ◌≡◌, refl, sym, ap, ◌∙◌, ◌≢◌, Bool, true, false, ◌⊎◌, inl, inr, Option,
  none, some, List, [], ◌∷◌, ◌++◌, arith, length, get_elem?, ◌==◌, if◌then◌else◌, ==_iff, ==_refl,
  Bool-cases, Option-cases, lt-length_of_get_elem?, get_elem?-append_left, get_elem?-append_new,
}
use mathlib.Core.Path.{subst}
use lean_sandbox.Common.Int.{ℤ}
use lean_sandbox.Common.Text.{Bytes}
use lean_sandbox.Api.{SandboxId}
use lean_sandbox.Config.{Config}
use lean_sandbox.Common.Dict.{get}
use lean_sandbox.ControlPlane.{
  Sandbox, ControlPlane, initial, modify, warm_refs, claim_at, claim_warm, register, append_warm,
  drop_tracked, keep_alive, find, remove_warm_ref,
}
use lean_sandbox.ControlPlane.Heap.{Has, Distinct, get_elem?-modify, Has-append}
use lean_sandbox.ControlPlane.Invariant.{System, Idle, Inv, claim_warm-eq_some}
use lean_sandbox.ControlPlane.Invariant.Sections.{
  IsFresh, claim_warm-Inv, register-Inv, register_pending-Inv, append_warm-Inv, drop_tracked-Inv,
  keep_alive-Inv, old, drop_tracked_missing, drop_tracked_found, keep_alive_missing,
  keep_alive_found,
}

-- The refill's sandboxes without the one that it appends.
unfoldable pub without : ℕ → List ℕ → List ℕ
without a [] = []
without a (x ∷ xs) = let rest = without a xs in if x == a then rest else x ∷ rest

pub without-Has : (a b : ℕ) (xs : List ℕ) → Has b (without a xs) → Has b xs × (b ≢ a)
unfolding without
without-Has a b [] h = absurd h
without-Has a b (x ∷ xs) h = elim (Bool-cases (x == a)) [
  | inl e ↦ let (k, n) = without-Has a b xs (rw e at h) in (inr k, n)
  | inr e ↦ elim (rw e at h) [
    | inl p ↦ (inl p, λ q. absurd (ground arith))
    | inr k ↦ let (m, n) = without-Has a b xs k in (inr m, n)
  ]
]

without-Distinct : (a : ℕ) (xs : List ℕ) → Distinct xs → Distinct (without a xs)
unfolding without
without-Distinct a [] d = tt
without-Distinct a (x ∷ xs) d = elim (Bool-cases (x == a)) [
  | inl e ↦ rw e (without-Distinct a xs d.1)
  | inr e ↦ rw e ((λ h. d.0 (without-Has a x xs h).0), without-Distinct a xs d.1)
]

pub data Step : System → System → Option ℕ → Type 0 where
  -- `NewSandbox` finds a warm sandbox
  claims :
      (s : System) (image : Bytes) (now : ℤ) (a : ℕ) (cp : ControlPlane)
      → claim_warm s.cp image now ≡ some (a, cp)
      → Step s (record s { cp = cp }) (some a)
  -- `NewSandbox` registers a sandbox that it has created
  registers :
      (s : System) (sb : Sandbox)
      → IsFresh s.heap sb.id
      → sb.claimed ≡ true
      → Step s (record s { cp = register s.cp sb }) (some (length s.heap))
  -- `refillWarmPool` registers a sandbox that it has created
  warms :
      (s : System) (sb : Sandbox)
      → IsFresh s.heap sb.id
      → sb.claimed ≡ false
      → Step s (record { cp = register s.cp sb; pending = s.pending ++ length s.heap ∷ [] }) none
  -- and appends it to the list of its image
  appends :
      (s : System) (a : ℕ) (sb : Sandbox)
      → Has a s.pending
      → get_elem? s.heap a ≡ some sb
      → Step s (record { cp = append_warm s.cp sb.image a; pending = without a s.pending }) none
  -- `DeleteSandbox`, and `dropTracked` of the watcher
  drops : (s : System) (id : SandboxId) → Step s (record s { cp = (drop_tracked s.cp id).1 }) none
  renews :
      (s : System) (id : SandboxId) (now : ℤ)
      → Step s (record s { cp = (keep_alive s.cp id now).1 }) none

pub Step-Inv : {s t : System} {l : Option ℕ} → Step s t l → Inv s → Inv t
Step-Inv (claims s image now a cp e) v = claim_warm-Inv s image now v e
Step-Inv (registers s sb f c) v = register-Inv s v sb f
Step-Inv (warms s sb f c) v = register_pending-Inv s v sb f c
Step-Inv (appends s a sb h e) v =
    let ((img, (x, f, i, c)), n) = v.waiting a h in
    append_warm-Inv s sb.image a (without a s.pending) v (sb, e, refl, ground arith) n
      (without-Distinct a s.pending v.waits_once) (λ k. (without-Has a a s.pending k).1 refl)
      (λ b k. (without-Has a b s.pending k).0)
Step-Inv (drops s id) v = drop_tracked-Inv s id v
Step-Inv (renews s id now) v = keep_alive-Inv s id now v

-- A sandbox of which `P` holds stands at the address.
abbrev pub Stands : (Sandbox → Type 0) → List Sandbox → ℕ → Type 0
Stands P heap a = (sb : Sandbox) × (get_elem? heap a ≡ some sb) × P sb

abbrev pub IsClaimed : List Sandbox → ℕ → Type 0
IsClaimed heap a = Stands (λ sb. sb.claimed ≡ true) heap a

pub heap-drop_tracked : (cp : ControlPlane) (id : SandboxId) → (drop_tracked cp id).1.heap ≡ cp.heap
heap-drop_tracked cp id = elim (Option-cases (find cp id)) [
  | inl n ↦ rw (drop_tracked_missing cp id n)
  | inr ((a, sb), e) ↦ rw (drop_tracked_found cp id e) (unfold remove_warm_ref in ground arith)
]

-- What a claim and a renewal keep of a sandbox.
module _ (P : Sandbox → Type 0) (by_claim : (now : ℤ) (x : Sandbox) → P x → P (claim_at now x))
    (by_renewal : (now : ℤ) (x : Sandbox) → P x → P (record x { last_seen = now })) where
  Stands-modify :
      (heap : List Sandbox) (a b : ℕ) (f : Sandbox → Sandbox)
      → ((x : Sandbox) → P x → P (f x))
      → Stands P heap b
      → Stands P (modify heap a f) b
  Stands-modify heap a b f keep (x, e, c) = elim (Bool-cases (a == b)) [
    | inl h ↦ (f x, ground (arith, get_elem?-modify heap a b f), keep x c)
    | inr h ↦ (x, ground (arith, get_elem?-modify heap a b f), c)
  ]

  Stands-register :
      (cp : ControlPlane) (sb : Sandbox) (b : ℕ)
      → Stands P cp.heap b
      → Stands P (register cp sb).heap b
  unfolding register
  Stands-register cp sb b (x, e, k) = (x, old cp.heap sb b e, k)

  Stands-keep_alive :
      (cp : ControlPlane) (id : SandboxId) (now : ℤ) (b : ℕ)
      → Stands P cp.heap b
      → Stands P (keep_alive cp id now).1.heap b
  Stands-keep_alive cp id now b h = elim (Option-cases (find cp id)) [
    | inl n ↦ rw (keep_alive_missing cp id now n) h
    | inr ((a, sb), e) ↦
        rw (keep_alive_found cp id now e)
          (Stands-modify cp.heap a b (λ x. record x { last_seen = now }) (by_renewal now) h)
  ]

  pub Step-Stands :
      {s t : System} {l : Option ℕ} (b : ℕ) → Step s t l → Stands P s.heap b → Stands P t.heap b
  Step-Stands b (claims s image now a cp e) h =
      let (rest, w, c) = claim_warm-eq_some s.cp image now e in
      rw c (Stands-modify s.heap a b (claim_at now) (by_claim now) h)
  Step-Stands b (registers s sb f c) h = Stands-register s.cp sb b h
  Step-Stands b (warms s sb f c) h = Stands-register s.cp sb b h
  Step-Stands b (appends s a sb m e) h = unfold append_warm in h
  Step-Stands b (drops s id) h = rw (heap-drop_tracked s.cp id) h
  Step-Stands b (renews s id now) h = Stands-keep_alive s.cp id now b h

-- A sandbox that is claimed stays claimed.
Step-IsClaimed :
    {s t : System} {l : Option ℕ} (b : ℕ) → Step s t l → IsClaimed s.heap b → IsClaimed t.heap b
Step-IsClaimed b step h =
    Step-Stands (λ sb. sb.claimed ≡ true) (λ now x c. refl) (λ now x c. c) b step h

-- What a step hands out was not claimed before it, and is after it.
pub Step-hands :
    {s t : System} {l : Option ℕ} (a : ℕ)
    → Step s t l
    → Inv s
    → l ≡ some a
    → ¬ IsClaimed s.heap a × IsClaimed t.heap a
Step-hands a (claims s image now b cp e) v p =
    let (rest, w, c) = claim_warm-eq_some s.cp image now e in
    let (x, f, i, k) = v.warm image b (rw w ((Has-append b rest (b ∷ [])).1 (inr (inl refl)))) in
    let q : b ≡ a = ground arith in
    subst (λ t. ¬ IsClaimed s.heap t × IsClaimed cp.heap t) q
      (
        (λ (y, g, m). absurd (ground arith)),
        rw c (
          claim_at now x,
          ground (arith, get_elem?-modify s.heap b b (claim_at now), ==_refl b),
          refl,
        ),
      )
Step-hands a (registers s sb f c) v p =
    let q : length s.heap ≡ a = ground arith in
    subst (λ t. ¬ IsClaimed s.heap t × IsClaimed (register s.cp sb).heap t) q
      (
        (λ (y, g, m). omega (arith, lt-length_of_get_elem? s.heap (length s.heap) g)),
        (sb, unfold register in get_elem?-append_new s.heap sb, c),
      )
Step-hands a (warms s sb f c) v p = absurd (cc)
Step-hands a (appends s b sb m e) v p = absurd (cc)
Step-hands a (drops s id) v p = absurd (cc)
Step-hands a (renews s id now) v p = absurd (cc)

-- The addresses handed to clients, the latest first.
abbrev pub hand : Option ℕ → List ℕ → List ℕ
hand none hs = hs
hand (some a) hs = a ∷ hs

pub data Run (s : System) : System → List ℕ → Type 0 where
  here : Run s s []
  next : {t u : System} {l : Option ℕ} {hs : List ℕ} → Run s t hs → Step t u l → Run s u (hand l hs)

pub Run-Stands :
    (P : Sandbox → Type 0)
    → ((now : ℤ) (x : Sandbox) → P x → P (claim_at now x))
    → ((now : ℤ) (x : Sandbox) → P x → P (record x { last_seen = now }))
    → {s t : System} {hs : List ℕ} (b : ℕ) → Run s t hs
    → Stands P s.heap b
    → Stands P t.heap b
Run-Stands P c r b here h = h
Run-Stands P c r b (next run step) h = Step-Stands P c r b step (Run-Stands P c r b run h)

abbrev AllClaimed : System → List ℕ → Type 0
AllClaimed t hs = (a : ℕ) → Has a hs → IsClaimed t.heap a

hand-Distinct :
    {s t : System} (l : Option ℕ) (hs : List ℕ)
    → Step s t l
    → Inv s
    → AllClaimed s hs
    → Distinct hs
    → Distinct (hand l hs) × AllClaimed t (hand l hs)
hand-Distinct none hs st v k d = (d, λ a h. Step-IsClaimed a st (k a h))
hand-Distinct {s} {t} (some a) hs st v k d =
    let (before, after) = Step-hands a st v refl in
    (
      ((λ h. before (k a h)), d),
      λ b h. elim h [
        | inl p ↦ subst (IsClaimed t.heap) (sym p) after
        | inr m ↦ Step-IsClaimed b st (k b m)
      ],
    )

Run-Inv : {s t : System} {hs : List ℕ} → Run s t hs → Inv s → Inv t
Run-Inv here v = v
Run-Inv (next r st) v = Step-Inv st (Run-Inv r v)

Run-Distinct : {s t : System} {hs : List ℕ} → Run s t hs → Inv s → Distinct hs × AllClaimed t hs
Run-Distinct here v = (tt, λ a h. absurd h)
Run-Distinct (next {l} {hs} r st) v =
    let (d, k) = Run-Distinct r v in hand-Distinct l hs st (Run-Inv r v) k d

abbrev pub start : Config → Bytes → System
start config key = record { cp = initial config key; pending = [] }

pub start-Inv : (config : Config) (key : Bytes) → Inv (start config key)
start-Inv config key = record {
  ids = λ i a e. unfold get in cc e;
  warm = λ image a h. unfold get in absurd h;
  once = λ image. unfold get in tt;
  unique = λ a b x y e f p. absurd (cc e);
  waiting = λ a h. absurd h;
  waits_once = tt;
}

-- From an empty control plane, in every interleaving of the critical sections of requests, refills,
-- deletions, watchers and renewals, the maps and the heap agree, and no sandbox is handed to two
-- clients.
pub Run-exclusive :
    (config : Config) (key : Bytes) (t : System) (hs : List ℕ)
    → Run (start config key) t hs
    → Inv t × Distinct hs
Run-exclusive config key t hs r =
    let v = start-Inv config key in (Run-Inv r v, (Run-Distinct r v).0)
