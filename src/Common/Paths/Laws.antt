-- ===== src/Common/Paths/Laws.antt =====
-- Splitting a path at its slashes.

use mathlib.Core.Path.{◌≡◌, refl}
use mathlib.Core.Logic.{◌≢◌, inl, inr}
use mathlib.Core.List.{[], ◌∷◌, ◌++◌}
use native.Mathlib.Omega.{arith}
use lean_sandbox.Common.Tests.{◌==◌, Bool-cases}
use lean_sandbox.Common.Lists.{All}
use lean_sandbox.Common.Text.{Bytes}
use lean_sandbox.Common.Paths.{split_slash}

-- No byte is a slash.
abbrev pub NoSlash : Bytes → Type 0
NoSlash = All (λ c. c ≢ b'/')

pub split_slash_plain : (s : Bytes) → NoSlash s → split_slash s ≡ s ∷ []
unfolding split_slash
split_slash_plain [] n = refl
split_slash_plain (c ∷ s) n = elim (Bool-cases (c == b'/')) [
  | inl e ↦ absurd (n.0 (ground arith))
  | inr e ↦ rw (e, split_slash_plain s n.1) refl
]

pub split_slash_next :
    (s rest : Bytes) → NoSlash s → split_slash (s ++ b'/' ∷ rest) ≡ s ∷ split_slash rest
unfolding split_slash
split_slash_next [] rest n = refl
split_slash_next (c ∷ s) rest n = elim (Bool-cases (c == b'/')) [
  | inl e ↦ absurd (n.0 (ground arith))
  | inr e ↦ rw (e, split_slash_next s rest n.1) refl
]
