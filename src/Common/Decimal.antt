-- ===== src/Common/Decimal.antt =====
-- `strconv.Itoa` and the verb `%d` at a number that is not negative.
use lean_sandbox.Common.Tests.{◌==◌, if◌then◌else◌}
use lean_sandbox.Common.Text.{Bytes}
use Prim.Native.Nat.{ℕ, zero, suc, ◌+◌, ◌-◌, ◌*◌, ◌/◌, ◌%◌, ◌<◌}
use mathlib.Core.Path.{◌≡◌}
use mathlib.Core.List.{[], ◌∷◌}
use native.Mathlib.Omega.{arith}

-- The digits of `n` in front of `rest`. The fuel is more than the number of digits.
decimal_onto : ℕ → ℕ → Bytes → Bytes
decimal_onto zero n rest = rest
decimal_onto (suc f) n rest =
    let shown = (48 + n % 10) ∷ rest in
    let more = decimal_onto f (n / 10) shown in if n / 10 == 0 then shown else more

unfoldable pub decimal : ℕ → Bytes
unfolding decimal_onto
decimal n = decimal_onto (suc n) n []

-- The number that a string of digits stands for, read behind the digits of `n`.
abbrev pub value_from : ℕ → Bytes → ℕ
value_from n [] = n
value_from n (c ∷ s) = value_from (n * 10 + (c - 48)) s

value_from-decimal_onto :
    (f n : ℕ) (rest : Bytes) → n < f → value_from 0 (decimal_onto f n rest) ≡ value_from n rest
unfolding decimal_onto
value_from-decimal_onto zero n rest h = elim h [ ]
value_from-decimal_onto (suc f) n rest h =
    ground (arith, value_from-decimal_onto f (n / 10) ((48 + n % 10) ∷ rest))

-- The digits denote the number, for every number: the fuel is enough.
pub value_from-decimal : (n : ℕ) → value_from 0 (decimal n) ≡ n
unfolding decimal
value_from-decimal n = value_from-decimal_onto (suc n) n [] (omega arith)
