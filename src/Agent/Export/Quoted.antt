-- ===== src/Agent/Export/Quoted.antt =====
-- `parseExportLine` against what `export -p` of bash prints: a value of printable ASCII stands between
-- quotation marks, with a backslash before each `"`, backslash, `$` and backquote. Other values, for
-- which bash has other forms (`$'…'`), are left open.
use lean_sandbox.Common.{
  ℕ, ◌≡◌, refl, sym, ◌∙◌, ◌≢◌, Bool, true, false, ◌||◌, none, some, [], ◌∷◌, ◌++◌, arith, ◌==◌,
  if◌then◌else◌, All, not, ◌&&◌,
}
use mathlib.Core.List.{append_assoc, append-nil}
use lean_sandbox.Common.Text.{
  Bytes, text, is_empty, trim_left, trim_right, trim, cut_prefix, is_space, trim_space,
}
use lean_sandbox.Common.Text.Laws.{
  cut_prefix-append, cut-append, trim_right-concat, trim_right-drop, trim_right-append,
  trim_right_none, trim_left_none,
}
use lean_sandbox.Agent.Export.{unescape_from, unescape, is_quote, parse_binding, parse_export_line}

-- How bash prints one byte of a value.
abbrev pub quote_byte : ℕ → Bytes
quote_byte c = if c == 34 || (c == 92 || (c == b'$' || c == 96)) then b'\\' ∷ c ∷ [] else c ∷ []

pub quote_value : Bytes → Bytes
quote_value [] = []
quote_value (c ∷ s) = quote_byte c ++ quote_value s

-- How bash prints a variable whose value is of printable ASCII.
pub declare_line : Bytes → Bytes → Bytes
unfolding quote_value
declare_line k v = text "declare -x " ++ (k ++ (b'=' ∷ 34 ∷ (quote_value v ++ 34 ∷ [])))

-- A byte of a name: no blank, no `=`.
abbrev pub IsNameByte : ℕ → Type 0
IsNameByte c = (is_space c ≡ false) × (c ≢ b'=')

-- A byte that bash prints with no escape, or with one that the parser reads.
abbrev pub IsPlain : ℕ → Type 0
IsPlain c = (c ≢ b'$') × (c ≢ 96)

-- Unescaping undoes the quoting of a value.
unescape-quote_value :
    (v rest : Bytes)
    → All IsPlain v
    → unescape_from false (quote_value v ++ rest) ≡ v ++ unescape_from false rest
unfolding quote_value unescape_from
unescape-quote_value [] rest h = refl
unescape-quote_value (c ∷ v) rest h = ground (arith, unescape-quote_value v rest h.1)

-- A quoted value never begins with a quotation mark.
trim_left-quote_value :
    (v rest : Bytes)
    → trim_left is_quote (quote_value v ++ rest)
      ≡ (if is_empty v then trim_left is_quote rest else quote_value v ++ rest)
unfolding quote_value trim_left
trim_left-quote_value [] rest = refl
trim_left-quote_value (c ∷ v) rest = ground arith

-- The last byte of a value is no quotation mark.
abbrev pub EndsPlain : Bytes → Type 0
EndsPlain [] = Unit {0}
EndsPlain (c ∷ []) = c ≢ 34
EndsPlain (c ∷ d ∷ v) = EndsPlain (d ∷ v)

trim_right-quote_value :
    (v : Bytes) → EndsPlain v → trim_right is_quote (quote_value v) ≡ quote_value v
unfolding quote_value trim_right
trim_right-quote_value [] h = refl
trim_right-quote_value (c ∷ []) h = ground arith
trim_right-quote_value (c ∷ d ∷ v) h =
    trim_right-append is_quote (quote_byte c) (quote_value (d ∷ v)) (ground arith)
      (trim_right-quote_value (d ∷ v) h)

-- The value between its quotation marks, for a value that does not end in one.
trim-quoted :
    (v : Bytes) → EndsPlain v → trim is_quote (34 ∷ (quote_value v ++ 34 ∷ [])) ≡ quote_value v
unfolding trim_left
trim-quoted [] h = unfold trim_right quote_value in refl
trim-quoted (c ∷ v) h = ground (
  arith,
  trim_left-quote_value (c ∷ v) (34 ∷ []),
  trim_right-drop is_quote (quote_value (c ∷ v)) 34 refl,
  trim_right-quote_value (c ∷ v) h,
)

All-no_space : (k : Bytes) → All IsNameByte k → All (λ c. is_space c ≡ false) k
All-no_space [] h = tt
All-no_space (c ∷ k) h = (h.0.0, All-no_space k h.1)

All-no_equals : (k : Bytes) → All IsNameByte k → All (λ c. c ≢ b'=') k
All-no_equals [] h = tt
All-no_equals (c ∷ k) h = (h.0.1, All-no_equals k h.1)

trim_space-name : (k : Bytes) → All IsNameByte k → trim_space k ≡ k
trim_space-name k h =
    rw (trim_left_none is_space k (All-no_space k h))
      (trim_right_none is_space k (All-no_space k h))

parse_binding-quoted :
    (k v : Bytes)
    → k ≢ []
    → All IsNameByte k
    → parse_binding (some (k, 34 ∷ (quote_value v ++ 34 ∷ [])))
      ≡ some (k, unescape (trim is_quote (34 ∷ (quote_value v ++ 34 ∷ []))))
unfolding parse_binding
parse_binding-quoted [] v ne h = absurd (ne refl)
parse_binding-quoted (c ∷ k) v ne h = rw (trim_space-name (c ∷ k) h)

-- A name is no word followed by a blank.
cut_prefix-name :
    (p k rest : Bytes)
    → All (λ c. c ≢ b'=') p
    → All IsNameByte k
    → cut_prefix (p ++ 32 ∷ []) (k ++ b'=' ∷ rest) ≡ none
unfolding cut_prefix
cut_prefix-name [] [] rest hp hk = refl
cut_prefix-name [] (c ∷ k) rest hp hk = ground arith
cut_prefix-name (d ∷ p) [] rest hp hk = ground arith
cut_prefix-name (d ∷ p) (c ∷ k) rest hp hk = ground (arith, cut_prefix-name p k rest hp.1 hk.1)

declare_line-concat :
    (k v : Bytes)
    → declare_line k v ≡ (text "declare -x " ++ (k ++ (b'=' ∷ 34 ∷ quote_value v))) ++ 34 ∷ []
unfolding declare_line
declare_line-concat k v = simp append_assoc

no_equals_test : Bytes → Bool
no_equals_test [] = true
no_equals_test (c ∷ s) = not (c == b'=') && no_equals_test s

no_equals : (s : Bytes) → no_equals_test s ≡ true → All (λ c. c ≢ b'=') s
unfolding no_equals_test
no_equals [] e = tt
no_equals (c ∷ s) e = (ground arith, no_equals s (ground arith))

trim_space-declare_line : (k v : Bytes) → trim_space (declare_line k v) ≡ declare_line k v
unfolding declare_line trim_left
trim_space-declare_line k v =
    rw (declare_line-concat k v) (
      trim_right-concat is_space (text "declare -x " ++ (k ++ (b'=' ∷ 34 ∷ quote_value v))) 34 refl)

parse_export_line-declare_line_cut :
    (k v : Bytes)
    → k ≢ []
    → All IsNameByte k
    → parse_export_line (declare_line k v)
      ≡ some (k, unescape (trim is_quote (34 ∷ (quote_value v ++ 34 ∷ []))))
unfolding parse_export_line declare_line no_equals_test
parse_export_line-declare_line_cut k v ne h =
    let value = 34 ∷ (quote_value v ++ 34 ∷ []) in
    ground (
      arith,
      trim_space-declare_line k v,
      cut_prefix-append (text "declare -x ") (k ++ (b'=' ∷ value)),
      cut_prefix-name (text "export") k value (no_equals (text "export") refl) h,
      cut-append b'=' k value (All-no_equals k h),
      parse_binding-quoted k v ne h,
    )

pub parse_export_line-quoted :
    (k v : Bytes)
    → k ≢ []
    → All IsNameByte k
    → All IsPlain v
    → EndsPlain v
    → parse_export_line (declare_line k v) ≡ some (k, v)
unfolding unescape
parse_export_line-quoted k v ne h plain ends =
    parse_export_line-declare_line_cut k v ne h
    ∙ rw (trim-quoted v ends, ← append-nil (quote_value v), unescape-quote_value v [] plain)
        (unfold unescape_from in rw append-nil)

quote_value-concat : (v : Bytes) → quote_value (v ++ 34 ∷ []) ≡ quote_value v ++ 92 ∷ 34 ∷ []
unfolding quote_value
quote_value-concat [] = refl
quote_value-concat (c ∷ v) =
    rw (quote_value-concat v) (sym (append_assoc (quote_byte c) (quote_value v) (92 ∷ 34 ∷ [])))

is_empty-concat : (v : Bytes) (c : ℕ) → is_empty (v ++ c ∷ []) ≡ false
is_empty-concat [] c = refl
is_empty-concat (d ∷ v) c = refl

trim-quoted_final :
    (v : Bytes)
    → trim is_quote (34 ∷ (quote_value (v ++ 34 ∷ []) ++ 34 ∷ [])) ≡ quote_value v ++ 92 ∷ []
unfolding trim_left
trim-quoted_final v =
    let escaped = quote_value v ++ 92 ∷ [] in
    rw
      (
        trim_left-quote_value (v ++ 34 ∷ []) (34 ∷ []),
        is_empty-concat v 34,
        quote_value-concat v,
        ← append_assoc (quote_value v) (92 ∷ []) (34 ∷ []),
      )
      (trim_right-drop is_quote (escaped ++ 34 ∷ []) 34 refl
        ∙ trim_right-drop is_quote escaped 34 refl
        ∙ trim_right-concat is_quote (quote_value v) 92 refl)

pub parse_export_line_ends_quoted :
    (k v : Bytes)
    → k ≢ []
    → All IsNameByte k
    → All IsPlain v
    → parse_export_line (declare_line k (v ++ 34 ∷ [])) ≡ some (k, v ++ b'\\' ∷ [])
unfolding unescape
parse_export_line_ends_quoted k v ne h plain =
    parse_export_line-declare_line_cut k (v ++ 34 ∷ []) ne h
    ∙ rw (trim-quoted_final v, unescape-quote_value v (b'\\' ∷ []) plain)
        (unfold unescape_from in refl)
