-- ===== src/Agent/Output/Bounds.antt =====
-- How much of a captured stream stays in memory.
use lean_sandbox.Common.{
  ℕ, ◌+◌, ◌≤◌, ◌<◌, ◌≡◌, refl, true, false, inl, inr, Bool-cases, ◌≢◌, none, List, [], ◌∷◌, ◌++◌,
  arith, length, length-append, All,
}
use lean_sandbox.Common.Text.{Bytes}
use lean_sandbox.Agent.Output.{Output, Disk, fresh, store_line, add, add_all, content}
use lean_sandbox.Agent.Output.Spill.{Opens}

-- Up to the cap the buffer holds what was counted; past it, a file is there and the buffer is empty.
record Level (m : ℕ) (o : Output) : Type 0 where
  cap : o.max ≡ m
  below : o.spilled ≡ false → ((o.file ≡ none) × (length o.buf ≡ o.bytes)) × (o.bytes ≤ m)
  past : o.spilled ≡ true → ((o.file ≢ none) × (o.buf ≡ [])) × (m < o.bytes)

Level-content : (m : ℕ) (o : Output) → Level m o → length (content o) ≤ m
Level-content m o v = elim (Bool-cases o.spilled) [
  | inl e ↦ rw (v.past e).0.1 (omega arith)
  | inr e ↦ let h = v.below e in omega (arith, h.0.1, h.1)
]

length-store_line :
    (o : Output) (line : Bytes) → length (store_line o line).buf ≡ length o.buf + (length line + 1)
unfolding store_line
length-store_line o line =
    omega (arith, length-append o.buf (line ++ b'\n' ∷ []), length-append line (b'\n' ∷ []))

add-Level :
    (m : ℕ) (p : Bytes) (o : Output) (d : Disk) (line : Bytes)
    → 0 < m
    → Opens p (d, line)
    → Level m o
    → Level m (add d o line)
unfolding add
add-Level m p o d line pos h v = record {
  cap = ground (arith, v.cap);
  below = ground (arith, v.cap, v.below, v.past, length-store_line o line);
  past = ground (arith, v.cap, v.below, v.past);
}

add_all-Level :
    (m : ℕ) (p : Bytes) (o : Output) (xs : List (Disk × Bytes))
    → 0 < m
    → All (Opens p) xs
    → Level m o
    → Level m (add_all o xs)
unfolding add_all
add_all-Level m p o [] pos h v = v
add_all-Level m p o ((d, line) ∷ xs) pos (h, hs) v =
    add_all-Level m p (add d o line) xs pos hs (add-Level m p o d line pos h v)

-- Under a cap above 0, no more than the cap's number of bytes stay in memory behind any number of
-- lines, if the spill file can be created, whether or not the writes to it succeed.
pub length-content_le :
    (m : ℕ) (p : Bytes) (xs : List (Disk × Bytes))
    → 0 < m
    → All (Opens p) xs
    → length (content (add_all (fresh m) xs)) ≤ m
length-content_le m p xs pos h = Level-content m (add_all (fresh m) xs) (
    add_all-Level m p (fresh m) xs pos h
      (record { cap = refl; below = λ _. ((refl, refl), omega arith); past = λ e. absurd (cc e) }))
