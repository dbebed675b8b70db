-- ===== src/Decimal/Columns.antt =====
-- Columns of scale 18, NUMERIC(38, 18) and NUMERIC(78, 18), as integers of units of 10^-18.
use lemon_ledger.Prelude.{
  ℕ, ◌+◌, ◌-◌, ◌*◌, ◌/◌, ◌^◌, ℤ, pos, ◌+ℤ◌, ◌-ℤ◌, if◌then◌else◌, ltb, magnitude, signed, ok, err,
  List, [], ◌∷◌,
}
use lemon_ledger.Models.{Try, invalid_operation}
use lemon_ledger.Decimal.Rounding.{limit, fix_ℕ, half_even, Decimal}

-- The value of a column of dollars, and of a column of quantities.
abbrev pub usd : ℤ → Decimal
usd a = record { coef = a; places = 18 }

abbrev pub units : ℕ → Decimal
units q = record { coef = pos q; places = 18 }

-- A sum or a difference in the context.
unfoldable pub fix : ℤ → ℤ
unfolding fix_ℕ
fix a = signed a (fix_ℕ (magnitude a))

unfoldable pub add : ℤ → ℤ → ℤ
unfolding fix
add a b = fix (a +ℤ b)

unfoldable pub sub : ℤ → ℤ → ℤ
unfolding fix
sub a b = fix (a -ℤ b)

-- The same on quantities. The engine subtracts only what is not greater.
unfoldable pub add_qty : ℕ → ℕ → ℕ
unfolding fix_ℕ
add_qty a b = fix_ℕ (a + b)

unfoldable pub sub_qty : ℕ → ℕ → ℕ
unfolding fix_ℕ
sub_qty a b = fix_ℕ (a - b)

-- `sum(xs)` adds from the left, from zero.
unfoldable pub sum_from : ℤ → List ℤ → ℤ
unfolding add
sum_from acc [] = acc
sum_from acc (x ∷ xs) = sum_from (add acc x) xs

-- `d.quantize(Decimal("1e-18"), rounding=...)`: a result of more than 28 digits raises
-- InvalidOperation.
unfoldable pub checked : ℤ → ℕ → Try ℤ
checked sign n = if ltb n limit then ok (signed sign n) else err invalid_operation

unfoldable pub quantize_half_even : Decimal → Try ℤ
quantize_half_even d = checked d.coef (half_even (magnitude d.coef * 10 ^ 18) (10 ^ d.places))

unfoldable pub quantize_down : Decimal → Try ℤ
quantize_down d = checked d.coef (magnitude d.coef * 10 ^ 18 / 10 ^ d.places)
