-- ===== src/Decimal/Rounding.antt =====
-- Rounding of numbers and of ratios to 28 significant digits.
use lemon_ledger.Prelude.{
  ℕ, zero, suc, ◌+◌, ◌-◌, ◌*◌, ◌/◌, ◌%◌, ◌^◌, ℤ, pos, negsuc, if◌then◌else◌, ltb, ◌==◌, magnitude,
  signed, ok, err,
}
use lemon_ledger.Models.{Try, invalid_operation, division_by_zero}

-- The number of decimal digits of `n`; `n` itself is fuel enough.
unfoldable pub digits_below : ℕ → ℕ → ℕ
digits_below zero n = 0
digits_below (suc f) n = let rest = suc (digits_below f (n / 10)) in if n == 0 then 0 else rest

unfoldable pub digits : ℕ → ℕ
unfolding digits_below
digits n = digits_below n n

-- n / d, rounded to the nearest integer, ties to the even one.
unfoldable pub half_even : ℕ → ℕ → ℕ
half_even n d =
    let q = n / d in
    let twice = 2 * (n % d) in
    if ltb twice d then q else if ltb d twice then q + 1 else if q % 2 == 0 then q else q + 1

-- The precision of the context, as the first number that has more digits.
abbrev pub limit : ℕ
limit = 10 ^ 28

-- A sum or a difference of two columns: their scale is 18, and so is that of the result, unless
-- it has more than 28 digits. Then the last of them are rounded to zeros.
unfoldable pub fix_ℕ : ℕ → ℕ
unfolding digits half_even
fix_ℕ n = let unit = 10 ^ (digits n - 28) in if ltb n limit then n else half_even n unit * unit

-- coef * 10 ^ (- places)
pub record Decimal : Type 0 where
  pub coef : ℤ
  pub places : ℕ

-- The ratio num / den rounded at `up` places behind the point, or at `down` places before it.
abbrev pub ratio_at : ℕ → ℕ → ℕ → ℕ → ℤ → Decimal
ratio_at num den up down sign = record {
  coef = signed sign (half_even (num * 10 ^ up) (den * 10 ^ down) * 10 ^ down);
  places = up;
}

-- The ratio num / den with the sign of `sign`, rounded to 28 significant digits.
unfoldable pub round_ratio : ℤ → ℕ → ℕ → Decimal
unfolding digits half_even
round_ratio sign num den =
    let up = 28 + digits den - digits num in
    let down = digits num - (28 + digits den) in
    let next = ratio_at num den (up - 1) (if up == 0 then down + 1 else down) sign in
    let here = ratio_at num den up down sign in
    if num == 0
    then record { coef = pos 0; places = 0 }
    else if ltb (num * 10 ^ up / (den * 10 ^ down)) limit
    then here
    else next

-- The sign of a product or of a quotient: an integer of that sign.
abbrev pub sign_of : ℤ → ℤ → ℤ
sign_of a (pos _) = a
sign_of (pos n) (negsuc _) = negsuc n
sign_of (negsuc n) (negsuc _) = pos n

-- `a * b`
unfoldable pub mul : Decimal → Decimal → Decimal
mul a b =
    round_ratio (sign_of a.coef b.coef) (magnitude a.coef * magnitude b.coef)
      (10 ^ (a.places + b.places))

-- `a / b` for a `b` that is not zero.
unfoldable pub quotient : Decimal → Decimal → Decimal
quotient a b =
    round_ratio (sign_of a.coef b.coef) (magnitude a.coef * 10 ^ b.places)
      (magnitude b.coef * 10 ^ a.places)

-- `a / b`: 0 / 0 raises InvalidOperation, and any other division by 0 DivisionByZero.
unfoldable pub div : Decimal → Decimal → Try Decimal
unfolding quotient
div a b =
    if magnitude b.coef == 0
    then err (if magnitude a.coef == 0 then invalid_operation else division_by_zero)
    else ok (quotient a b)

-- `a.to_integral_value()`, as an int
unfoldable pub to_integral : Decimal → ℤ
to_integral a = signed a.coef (half_even (magnitude a.coef) (10 ^ a.places))
