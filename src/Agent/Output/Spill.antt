-- ===== src/Agent/Output/Spill.antt =====
-- What a captured stream keeps, for every cap and every answer of the file system.
use lean_sandbox.Common.{
  ℕ, ◌≤◌, ◌<◌, ◌≡◌, refl, true, false, ◌⊎◌, inl, ◌≢◌, none, some, List, [], ◌∷◌, ◌++◌, arith,
  length, length-append, All, ltb, ◌&&◌,
}
use mathlib.Core.List.{append_assoc, append-nil}
use lean_sandbox.Common.Text.{Bytes}
use lean_sandbox.Agent.Output.{
  Output, Disk, fresh, store_line, add, add_all, content, notice, response,
}

-- The stream that the lines make up, each with its newline.
abbrev pub stream_of : List (Disk × Bytes) → Bytes
stream_of [] = []
stream_of ((d, line) ∷ rest) = line ++ (b'\n' ∷ stream_of rest)

abbrev pub in_file : Output → Bytes
in_file o = elim o.file [ none ↦ [] | some written ↦ written ]

-- `o` has captured the text `s`.
pub record Captured (m : ℕ) (s : Bytes) (o : Output) : Type 0 where
  pub cap : o.max ≡ m
  pub counted : o.bytes ≡ length s
  pub nothing_lost : in_file o ++ o.buf ≡ s
  pub spilled_iff : o.spilled ≡ (ltb 0 m && ltb m (length s))
  pub no_file : o.spilled ≡ false → o.file ≡ none
  pub flushed : o.file ≡ none ⊎ o.buf ≡ []

abbrev pub Writes : Disk × Bytes → Type 0
Writes x = x.0.write_error ≡ none

module _ {m : ℕ} {s : Bytes} {o : Output} (c : Captured m s o) (d : Disk) (line : Bytes) where
  abbrev grown : Output
  grown = store_line o line

  store_line-counted : grown.bytes ≡ length (s ++ (line ++ b'\n' ∷ []))
  unfolding store_line
  store_line-counted =
      omega
        (arith, c.counted, length-append s (line ++ b'\n' ∷ []), length-append line (b'\n' ∷ []))

  store_line-nothing_lost : in_file o ++ grown.buf ≡ s ++ (line ++ b'\n' ∷ [])
  unfolding store_line
  store_line-nothing_lost =
      rw (← append_assoc (in_file o) o.buf (line ++ b'\n' ∷ []), c.nothing_lost)

  -- One more line is captured, if the write succeeds where there is a file.
  pub add-Captured : d.write_error ≡ none → Captured m (s ++ (line ++ b'\n' ∷ [])) (add d o line)
  unfolding add
  add-Captured w = record {
    cap = ground (arith, c.cap);
    counted = ground (arith, store_line-counted);
    nothing_lost = ground (arith, store_line-nothing_lost, append-nil (in_file grown ++ grown.buf));
    spilled_iff = ground (arith, store_line-counted, c.spilled_iff, c.counted, c.cap);
    no_file = ground (arith, store_line-counted, c.spilled_iff, c.counted, c.cap, c.no_file);
    flushed = ground (arith, store_line-counted, c.spilled_iff, c.counted, c.cap, c.no_file);
  }

fresh-Captured : (m : ℕ) → Captured m [] (fresh m)
fresh-Captured m = record {
  cap = refl;
  counted = refl;
  nothing_lost = refl;
  spilled_iff = ground arith;
  no_file = λ _. refl;
  flushed = inl refl;
}

add_all-Captured_from :
    (m : ℕ) (s : Bytes) (o : Output) (xs : List (Disk × Bytes))
    → Captured m s o
    → All Writes xs
    → Captured m (s ++ stream_of xs) (add_all o xs)
unfolding add_all
add_all-Captured_from m s o [] c w = rw append-nil c
add_all-Captured_from m s o ((d, line) ∷ xs) c (w, ws) =
    rw
      (
        ← append_assoc line (b'\n' ∷ []) (stream_of xs),
        ← append_assoc s (line ++ b'\n' ∷ []) (stream_of xs),
      )
      (add_all-Captured_from m (s ++ (line ++ b'\n' ∷ [])) (add d o line) xs
        (add-Captured c d line w) ws)

-- Whatever the cap, and whether or not a file can be opened: as long as the writes to an open file
-- succeed, the file followed by the buffer is the whole stream, the byte count is its length, the
-- stream counts as spilled exactly if it is longer than a cap that is not 0, and a stream that is
-- not spilled has no file.
pub add_all-Captured :
    (m : ℕ) (xs : List (Disk × Bytes))
    → All Writes xs
    → Captured m (stream_of xs) (add_all (fresh m) xs)
add_all-Captured m xs w = add_all-Captured_from m [] (fresh m) xs (fresh-Captured m) w

-- A stream that is no longer than its cap, or has the cap 0, is returned in full, and leaves no
-- file behind, whatever the file system would answer.
pub response_in_full :
    (m : ℕ) (xs : List (Disk × Bytes))
    → All Writes xs
    → (m ≡ 0) ⊎ (length (stream_of xs) ≤ m)
    → (response (add_all (fresh m) xs) ≡ (stream_of xs, [])) × ((add_all (fresh m) xs).file ≡ none)
unfolding response
response_in_full m xs w h =
    let c = add_all-Captured m xs w in
    (
      ground (arith, c.nothing_lost, c.no_file, c.spilled_iff),
      ground (arith, c.nothing_lost, c.no_file, c.spilled_iff),
    )

-- A file can be created, under the name `p`.
abbrev pub Opens : Bytes → Disk × Bytes → Type 0
Opens p x = (x.0.mkdir_all ≡ true) × (x.0.create_temp ≡ some p)

-- No file can be created.
abbrev pub CannotOpen : Disk × Bytes → Type 0
CannotOpen x = (x.0.mkdir_all ≡ false) ⊎ (x.0.create_temp ≡ none)

abbrev HasFile : Bytes → Output → Type 0
HasFile p o = o.spilled ≡ true → (o.file ≢ none) × (o.path ≡ p)

add-HasFile :
    (p : Bytes) (o : Output) (d : Disk) (line : Bytes)
    → Opens p (d, line)
    → HasFile p o
    → HasFile p (add d o line)
unfolding add
add-HasFile p o d line h f = ground arith

add-NoFile :
    (o : Output) (d : Disk) (line : Bytes)
    → CannotOpen (d, line)
    → (o.file ≡ none) × (o.path ≡ [])
    → ((add d o line).file ≡ none) × ((add d o line).path ≡ [])
unfolding add
add-NoFile o d line h f = ground arith

add_all-HasFile :
    (p : Bytes) (o : Output) (xs : List (Disk × Bytes))
    → All (Opens p) xs
    → HasFile p o
    → HasFile p (add_all o xs)
unfolding add_all
add_all-HasFile p o [] h f = f
add_all-HasFile p o ((d, line) ∷ xs) (h, hs) f =
    add_all-HasFile p (add d o line) xs hs (add-HasFile p o d line h f)

add_all-NoFile :
    (o : Output) (xs : List (Disk × Bytes))
    → All CannotOpen xs
    → (o.file ≡ none) × (o.path ≡ [])
    → ((add_all o xs).file ≡ none) × ((add_all o xs).path ≡ [])
unfolding add_all
add_all-NoFile o [] h f = f
add_all-NoFile o ((d, line) ∷ xs) (h, hs) f =
    add_all-NoFile (add d o line) xs hs (add-NoFile o d line h f)

file-eq_some :
    (s : Bytes) (o : Output) → in_file o ++ o.buf ≡ s → o.buf ≡ [] → o.file ≢ none → o.file ≡ some s
file-eq_some s o e b f = ground (arith, append-nil (in_file o))

-- A stream that is longer than a cap above 0 is written to the file from its first byte to its
-- last, if the file can be created and written; the response is the notice, with the file's path.
pub response_spilled :
    (m : ℕ) (p : Bytes) (xs : List (Disk × Bytes))
    → All Writes xs
    → All (Opens p) xs
    → 0 < m
    → m < length (stream_of xs)
    → ((add_all (fresh m) xs).file ≡ some (stream_of xs))
      × (response (add_all (fresh m) xs) ≡ (notice (add_all (fresh m) xs), p))
unfolding response
response_spilled m p xs w h pos over =
    let c = add_all-Captured m xs w in
    let f = add_all-HasFile p (fresh m) xs h (λ e. absurd (ground arith)) in
    let spilled : (add_all (fresh m) xs).spilled ≡ true = ground (arith, c.spilled_iff) in
    (
      file-eq_some (stream_of xs) (add_all (fresh m) xs) c.nothing_lost
          (ground (arith, c.flushed, f spilled)) (f spilled).0,
      ground (arith, spilled, f spilled),
    )

-- Where no spill file can be created, the stream past its cap stays in the buffer, and the response
-- does not carry it: it is the notice with an empty path.
pub response_unavailable :
    (m : ℕ) (xs : List (Disk × Bytes))
    → All Writes xs
    → All CannotOpen xs
    → 0 < m
    → m < length (stream_of xs)
    → (content (add_all (fresh m) xs) ≡ stream_of xs)
      × (response (add_all (fresh m) xs) ≡ (notice (add_all (fresh m) xs), []))
unfolding response
response_unavailable m xs w h pos over =
    let c = add_all-Captured m xs w in
    let f = add_all-NoFile (fresh m) xs h (refl, refl) in
    let spilled : (add_all (fresh m) xs).spilled ≡ true = ground (arith, c.spilled_iff) in
    (ground (arith, c.nothing_lost, f), ground (arith, spilled, f))
