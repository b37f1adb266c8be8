-- ===== src/Config/Layers.antt =====
-- How settings from flags, from a file and from the defaults lie over one another.
use lean_sandbox.Common.{
  ap, sym, ◌∙◌, ℕ, ◌<◌, ◌*◌, sym, ◌≡◌, refl, ◌≢◌, true, false, none, some, List, [], ◌∷◌, map,
  arith, ◌⊎◌, inl, inr, All, if◌then◌else◌, Bool-cases, Option-cases,
}
use lean_sandbox.Common.Int.{ℤ, pos, is_zero}
use lean_sandbox.Common.Text.{Bytes, text, str_eq, is_empty}
use lean_sandbox.Common.Text.Laws.{str_eq_iff}
use lean_sandbox.Config.{
  second, minute, SandboxSpec, Config, or_default, spec_with_defaults, with_defaults, merge, over,
  over_list, over_text, find_spec, sandbox_spec,
}

-- A default that is not 0 fills a setting once.
or_default_idem : (x : ℤ) (d : ℕ) → 0 < d → or_default (or_default x d) d ≡ or_default x d
or_default_idem x d h = ground arith

or_default_ne : (x : ℤ) (d : ℕ) → 0 < d → is_zero (or_default x d) ≡ false
or_default_ne x d h = ground arith

spec_with_defaults_idem :
    (s : SandboxSpec) → spec_with_defaults (spec_with_defaults s) ≡ spec_with_defaults s
unfolding spec_with_defaults
spec_with_defaults_idem s =
    λ i. record s { disk_limit_mib = or_default_idem s.disk_limit_mib 256 (omega arith) i }

map-spec_with_defaults_idem :
    (xs : List SandboxSpec)
    → map spec_with_defaults (map spec_with_defaults xs) ≡ map spec_with_defaults xs
map-spec_with_defaults_idem [] = refl
map-spec_with_defaults_idem (x ∷ xs) =
    cc (spec_with_defaults_idem x, map-spec_with_defaults_idem xs)

namespace_idem :
    (n : Bytes)
    → (if is_empty (if is_empty n then text "sandbox" else n)
        then text "sandbox"
        else (if is_empty n then text "sandbox" else n))
      ≡ (if is_empty n then text "sandbox" else n)
namespace_idem [] = refl
namespace_idem (c ∷ n) = refl

-- Filling in the defaults twice is filling them in once.
with_defaults_idem : (c : Config) → with_defaults (with_defaults c) ≡ with_defaults c
unfolding with_defaults
with_defaults_idem c = λ i. record c {
  namespace = namespace_idem c.namespace i;
  agent_port = or_default_idem c.agent_port 9090 (omega arith) i;
  lease_ttl = or_default_idem c.lease_ttl (15 * minute) (omega arith) i;
  reconcile_every = or_default_idem c.reconcile_every (30 * second) (omega arith) i;
  token_ttl = or_default_idem c.token_ttl (15 * minute) (omega arith) i;
  wait_pod_ready_timeout = or_default_idem c.wait_pod_ready_timeout (3 * minute) (omega arith) i;
  wait_pod_ready_poll_interval =
      or_default_idem c.wait_pod_ready_poll_interval (2 * second) (omega arith) i;
  pod_provision_grace = or_default_idem c.pod_provision_grace (5 * minute) (omega arith) i;
  sandboxes = map-spec_with_defaults_idem c.sandboxes i;
}

over_assoc : (a b c : ℤ) → over (over a b) c ≡ over a (over b c)
over_assoc a b c = ground arith

over_text_assoc : (a b c : Bytes) → over_text (over_text a b) c ≡ over_text a (over_text b c)
over_text_assoc a b c = ground arith

over_list_assoc :
    {A : Type 0} (a b c : List A) → over_list (over_list a b) c ≡ over_list a (over_list b c)
over_list_assoc a b [] = refl
over_list_assoc a b (x ∷ c) = refl

-- Laying a third configuration over two is laying over the first what the other two make: field by
-- field, the last layer that sets a field decides it.
pub merge_assoc : (a b c : Config) → merge (merge a b) c ≡ merge a (merge b c)
unfolding merge
merge_assoc a b c = λ i. record {
  namespace = over_text_assoc a.namespace b.namespace c.namespace i;
  agent_image = over_text_assoc a.agent_image b.agent_image c.agent_image i;
  agent_port = over_assoc a.agent_port b.agent_port c.agent_port i;
  lease_ttl = over_assoc a.lease_ttl b.lease_ttl c.lease_ttl i;
  reconcile_every = over_assoc a.reconcile_every b.reconcile_every c.reconcile_every i;
  token_ttl = over_assoc a.token_ttl b.token_ttl c.token_ttl i;
  wait_pod_ready_timeout =
      over_assoc a.wait_pod_ready_timeout b.wait_pod_ready_timeout c.wait_pod_ready_timeout i;
  wait_pod_ready_poll_interval =
      over_assoc a.wait_pod_ready_poll_interval b.wait_pod_ready_poll_interval
        c.wait_pod_ready_poll_interval i;
  pod_provision_grace =
      over_assoc a.pod_provision_grace b.pod_provision_grace c.pod_provision_grace i;
  sandboxes = over_list_assoc a.sandboxes b.sandboxes c.sandboxes i;
  host_aliases = over_list_assoc a.host_aliases b.host_aliases c.host_aliases i;
}

-- The default settings as a layer of their own.
abbrev pub defaults : Config
defaults = record {
  sandboxes = [];
  namespace = text "sandbox";
  agent_image = [];
  agent_port = pos 9090;
  lease_ttl = pos (15 * minute);
  reconcile_every = pos (30 * second);
  token_ttl = pos (15 * minute);
  wait_pod_ready_timeout = pos (3 * minute);
  wait_pod_ready_poll_interval = pos (2 * second);
  pod_provision_grace = pos (5 * minute);
  host_aliases = [];
}

over-or_default : (x : ℤ) (d : ℕ) → over (pos d) x ≡ or_default x d
over-or_default x d = refl

over_list-nil : {A : Type 0} (xs : List A) → over_list [] xs ≡ xs
over_list-nil [] = refl
over_list-nil (x ∷ xs) = refl

over_text-nil : (s : Bytes) → over_text [] s ≡ s
over_text-nil [] = refl
over_text-nil (c ∷ s) = refl

-- Filling in the defaults is laying the configuration over a layer of defaults, and filling in the
-- specifications of the sandboxes.
pub with_defaults-merge :
    (c : Config)
    → with_defaults c ≡ record (merge defaults c) {
      sandboxes = map spec_with_defaults (merge defaults c).sandboxes;
    }
unfolding with_defaults merge
with_defaults-merge c = λ i. record {
  namespace = if is_empty c.namespace then text "sandbox" else c.namespace;
  agent_image = sym (over_text-nil c.agent_image) i;
  agent_port = or_default c.agent_port 9090;
  lease_ttl = or_default c.lease_ttl (15 * minute);
  reconcile_every = or_default c.reconcile_every (30 * second);
  token_ttl = or_default c.token_ttl (15 * minute);
  wait_pod_ready_timeout = or_default c.wait_pod_ready_timeout (3 * minute);
  wait_pod_ready_poll_interval = or_default c.wait_pod_ready_poll_interval (2 * second);
  pod_provision_grace = or_default c.pod_provision_grace (5 * minute);
  sandboxes = map spec_with_defaults (sym (over_list-nil c.sandboxes) i);
  host_aliases = sym (over_list-nil c.host_aliases) i;
}

find_spec-map :
    (xs : List SandboxSpec) (image : Bytes)
    → find_spec (map spec_with_defaults xs) image ≡ find_spec xs image
unfolding find_spec
find_spec-map [] image = refl
find_spec-map (x ∷ xs) image = ground (arith, spec_with_defaults_idem x, find_spec-map xs image)

-- Looking up the specification of an image gives the same before and after the defaults of the
-- whole configuration are filled in.
sandbox_spec-with_defaults :
    (c : Config) (image : Bytes) → sandbox_spec (with_defaults c) image ≡ sandbox_spec c image
unfolding sandbox_spec with_defaults
sandbox_spec-with_defaults c image = find_spec-map c.sandboxes image

-- The image has an entry with this specification, and no entry in front of it is for the image.
data IsFirst (image : Bytes) (s : SandboxSpec) : List SandboxSpec → Type 0 where
  here :
      {x : SandboxSpec} {xs : List SandboxSpec}
      → x.image ≡ image
      → s ≡ spec_with_defaults x
      → IsFirst image s (x ∷ xs)
  later :
      {x : SandboxSpec} {xs : List SandboxSpec}
      → x.image ≢ image
      → IsFirst image s xs
      → IsFirst image s (x ∷ xs)

ne_of_test : (a b : Bytes) → str_eq a b ≡ false → a ≢ b
ne_of_test a b h p = ground (arith, str_eq_iff a b)

find_spec_hit :
    (x : SandboxSpec) (xs : List SandboxSpec) (image : Bytes) {s : SandboxSpec}
    → str_eq x.image image ≡ true
    → find_spec (x ∷ xs) image ≡ some s
    → s ≡ spec_with_defaults x
unfolding find_spec
find_spec_hit x xs image h e = ground arith

find_spec_miss :
    (x : SandboxSpec) (xs : List SandboxSpec) (image : Bytes) {s : SandboxSpec}
    → str_eq x.image image ≡ false
    → find_spec (x ∷ xs) image ≡ some s
    → find_spec xs image ≡ some s
unfolding find_spec
find_spec_miss x xs image h e = ground arith

find_spec-IsFirst :
    (xs : List SandboxSpec) (image : Bytes) {s : SandboxSpec}
    → find_spec xs image ≡ some s
    → IsFirst image s xs
find_spec-IsFirst [] image e = unfold find_spec in cc
find_spec-IsFirst (x ∷ xs) image {s} e = elim (Bool-cases (str_eq x.image image)) [
  | inl same ↦ here ((str_eq_iff x.image image).0 same) (find_spec_hit x xs image same e)
  | inr other ↦
      later (λ p. ne_of_test x.image image other p)
        (find_spec-IsFirst xs image (find_spec_miss x xs image other e))
]

All-other :
    (xs : List SandboxSpec) (image : Bytes)
    → find_spec xs image ≡ none
    → All (λ x. x.image ≢ image) xs
unfolding find_spec
All-other [] image e = tt
All-other (x ∷ xs) image e =
    (ground (arith, str_eq_iff x.image image), All-other xs image (ground arith))

-- What `SandboxSpec` finds for an image is the first entry for it, with its defaults; it finds
-- nothing only if no entry is for the image.
sandbox_spec_found :
    (c : Config) (image : Bytes)
    → ((s : SandboxSpec) × (sandbox_spec c image ≡ some s) × IsFirst image s c.sandboxes)
      ⊎ ((sandbox_spec c image ≡ none) × All (λ x. x.image ≢ image) c.sandboxes)
unfolding sandbox_spec
sandbox_spec_found c image = elim (Option-cases (find_spec c.sandboxes image)) [
  | inl e ↦ inr (e, All-other c.sandboxes image e)
  | inr (s, e) ↦ inl (s, e, find_spec-IsFirst c.sandboxes image e)
]

image-find_spec :
    (xs : List SandboxSpec) (image : Bytes) (s : SandboxSpec)
    → find_spec xs image ≡ some s
    → s.image ≡ image
unfolding find_spec
image-find_spec [] image s e = absurd (cc e)
image-find_spec (x ∷ xs) image s e = elim (Bool-cases (str_eq x.image image)) [
  | inl h ↦
      let q : spec_with_defaults x ≡ s = ground arith in
      ap (λ y. y.image) (sym q) ∙ (unfold spec_with_defaults in (str_eq_iff x.image image).0 h)
  | inr h ↦ image-find_spec xs image s (rw h at e)
]

-- the specification that is found is for the image
pub image-sandbox_spec :
    (c : Config) (image : Bytes) (s : SandboxSpec) → sandbox_spec c image ≡ some s → s.image ≡ image
unfolding sandbox_spec
image-sandbox_spec c image s e = image-find_spec c.sandboxes image s e
