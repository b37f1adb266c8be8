-- ===== src/Start/Layers.antt =====
-- The settings that `main` of cmd/controlplane/main.go makes of the flags, the file and the defaults,
-- setting by setting: the first that is set, of the file, of the flags, and of the defaults.
use lean_sandbox.Common.{
  ◌*◌, ℕ, ◌≡◌, refl, ap, ◌∙◌, false, List, [], ◌∷◌, if◌then◌else◌, map, arith,
}
use lean_sandbox.Common.Int.{ℤ, pos, is_zero}
use lean_sandbox.Common.Text.{Bytes, text, is_empty}
use lean_sandbox.Config.{
  Config, SandboxSpec, second, minute, or_default, over, over_text, over_list, merge, with_defaults,
  spec_with_defaults,
}

-- A number is set if it is not 0, and a text or a list if it is not empty.
abbrev pub first_number : List ℤ → ℤ
first_number [] = pos 0
first_number (x ∷ xs) = if is_zero x then first_number xs else x

abbrev pub first_text : List Bytes → Bytes
first_text [] = []
first_text ([] ∷ rest) = first_text rest
first_text ((b ∷ bs) ∷ rest) = b ∷ bs

abbrev pub first_list : {A : Type 0} → List (List A) → List A
first_list [] = []
first_list ([] ∷ rest) = first_list rest
first_list ((x ∷ xs) ∷ rest) = x ∷ xs

abbrev pub filled : SandboxSpec → SandboxSpec
filled s = record s { disk_limit_mib = first_number (s.disk_limit_mib ∷ pos 256 ∷ []) }

abbrev pub layered : Config → Config → Config
layered flags file = record {
  sandboxes = map filled (first_list (file.sandboxes ∷ flags.sandboxes ∷ []));
  namespace = first_text (file.namespace ∷ flags.namespace ∷ text "sandbox" ∷ []);
  agent_port = first_number (file.agent_port ∷ flags.agent_port ∷ pos 9090 ∷ []);
  agent_image = first_text (file.agent_image ∷ flags.agent_image ∷ []);
  lease_ttl = first_number (file.lease_ttl ∷ flags.lease_ttl ∷ pos (15 * minute) ∷ []);
  reconcile_every =
      first_number (file.reconcile_every ∷ flags.reconcile_every ∷ pos (30 * second) ∷ []);
  token_ttl = first_number (file.token_ttl ∷ flags.token_ttl ∷ pos (15 * minute) ∷ []);
  wait_pod_ready_timeout =
      first_number
        (file.wait_pod_ready_timeout ∷ flags.wait_pod_ready_timeout ∷ pos (3 * minute) ∷ []);
  wait_pod_ready_poll_interval = first_number (
      file.wait_pod_ready_poll_interval
      ∷ flags.wait_pod_ready_poll_interval
      ∷ pos (2 * second)
      ∷ []);
  pod_provision_grace =
      first_number (file.pod_provision_grace ∷ flags.pod_provision_grace ∷ pos (5 * minute) ∷ []);
  host_aliases = first_list (file.host_aliases ∷ flags.host_aliases ∷ []);
}

or_default-over :
    (a b : ℤ) (n : ℕ)
    → is_zero (pos n) ≡ false
    → or_default (over a b) n ≡ first_number (b ∷ a ∷ pos n ∷ [])
or_default-over a b n z = ground arith

text-over :
    (a b : Bytes)
    → (if is_empty (over_text a b) then text "sandbox" else over_text a b)
      ≡ first_text (b ∷ a ∷ text "sandbox" ∷ [])
text-over a (c ∷ b) = refl
text-over [] [] = refl
text-over (c ∷ a) [] = refl

over_text-first : (a b : Bytes) → over_text a b ≡ first_text (b ∷ a ∷ [])
over_text-first a (c ∷ b) = refl
over_text-first [] [] = refl
over_text-first (c ∷ a) [] = refl

over_list-first : {A : Type 0} (a b : List A) → over_list a b ≡ first_list (b ∷ a ∷ [])
over_list-first a (c ∷ b) = refl
over_list-first [] [] = refl
over_list-first (c ∷ a) [] = refl

map-filled : (xs : List SandboxSpec) → map spec_with_defaults xs ≡ map filled xs
unfolding spec_with_defaults
map-filled [] = refl
map-filled (x ∷ xs) = ap (λ t. filled x ∷ t) (map-filled xs)

pub with_defaults-layered :
    (flags file : Config) → with_defaults (merge flags file) ≡ layered flags file
unfolding with_defaults merge
with_defaults-layered a b = λ i. record {
  sandboxes =
      (map-filled (over_list a.sandboxes b.sandboxes)
          ∙ ap (map filled) (over_list-first a.sandboxes b.sandboxes))
        i;
  namespace = text-over a.namespace b.namespace i;
  agent_port = or_default-over a.agent_port b.agent_port 9090 refl i;
  agent_image = over_text-first a.agent_image b.agent_image i;
  lease_ttl = or_default-over a.lease_ttl b.lease_ttl (15 * minute) refl i;
  reconcile_every = or_default-over a.reconcile_every b.reconcile_every (30 * second) refl i;
  token_ttl = or_default-over a.token_ttl b.token_ttl (15 * minute) refl i;
  wait_pod_ready_timeout =
      or_default-over a.wait_pod_ready_timeout b.wait_pod_ready_timeout (3 * minute) refl i;
  wait_pod_ready_poll_interval =
      or_default-over a.wait_pod_ready_poll_interval b.wait_pod_ready_poll_interval (2 * second)
        refl i;
  pod_provision_grace =
      or_default-over a.pod_provision_grace b.pod_provision_grace (5 * minute) refl i;
  host_aliases = over_list-first a.host_aliases b.host_aliases i;
}
