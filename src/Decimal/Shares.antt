-- ===== src/Decimal/Shares.antt =====
-- A part of a column: a factor of at most 1, times the column, quantised.
use lemon_ledger.Prelude.{
  ℕ, ◌+◌, ◌*◌, ◌/◌, ◌^◌, ◌≤◌, ◌<◌, ◌≡◌, ap, arith, ℤ, pos, magnitude, signed, magnitude-signed,
  lt→ltb, ◌==◌, false, ok,
}
use native.Mathlib.Nat.{le_refl, div-le_of_le-mul, mul-le-mul_right, mul-lt-mul_of_pos_left}
use lemon_ledger.Decimal.Rounding.{digits, limit, round_ratio, Decimal, mul, div, sign_of}
use lemon_ledger.Decimal.Columns.{usd, units, quantize_down, checked}
use lemon_ledger.Decimal.Digits.{pow-add, pow_pos, digits-le, digits_mono, lt-digits_of_le}
use lemon_ledger.Decimal.Bounds.{round_ratio-le}

abbrev pub IsPart : Decimal → Type 0
IsPart c = magnitude c.coef ≤ 10 ^ c.places

pub div-IsPart :
    (q total : ℕ)
    → 0 < total
    → q ≤ total
    → (c : Decimal) × (div (units q) (units total) ≡ ok c) × IsPart c
unfolding div
div-IsPart q total p h =
    let positive : (total == 0) ≡ false = ground arith in
    let scaled : q * 10 ^ 18 ≤ total * 10 ^ 18 = omega arith in
    (
      round_ratio (pos q) (q * 10 ^ 18) (total * 10 ^ 18),
      rw positive,
      omega (
        arith,
        round_ratio-le (pos q) (q * 10 ^ 18) (total * 10 ^ 18) 1 0 (omega arith)
            (omega (arith, digits_mono _ _ scaled)) (omega arith),
      ),
    )

mul-le :
    (c : Decimal) (a : ℤ)
    → IsPart c
    → magnitude a < limit
    → let r = mul c (usd a) in magnitude r.coef * 10 ^ 18 ≤ magnitude a * 10 ^ r.places
unfolding mul
mul-le c a h small =
    let n : ℕ = magnitude c.coef * magnitude a in
    let few : digits n ≤ c.places + 28 = digits-le n (c.places + 28) (
      omega (
        arith,
        mul-le-mul_right (magnitude a) h,
        mul-lt-mul_of_pos_left small (pow_pos c.places),
        pow-add c.places 28,
      )) in
    let many : c.places + 18 < digits (10 ^ (c.places + 18)) =
      lt-digits_of_le (10 ^ (c.places + 18)) (c.places + 18) (le_refl (10 ^ (c.places + 18))) in
    round_ratio-le (sign_of c.coef a) n (10 ^ (c.places + 18)) (magnitude a) 18
      (pow_pos (c.places + 18)) (omega arith)
      (omega (
        arith,
        ap (λ (t : ℕ). magnitude a * t) (pow-add c.places 18),
        mul-le-mul_right (magnitude a * 10 ^ 18) h,
      ))

checked-signed : (sign : ℤ) (n : ℕ) → n < limit → checked sign n ≡ ok (signed sign n)
unfolding checked
checked-signed sign n h = rw (lt→ltb n limit h)

-- Rounding down keeps a part of `a` within `a`, and does not raise.
pub quantize_down-le :
    (c : Decimal) (a : ℤ)
    → IsPart c
    → magnitude a < limit
    → (x : ℤ) × (quantize_down (mul c (usd a)) ≡ ok x) × (magnitude x ≤ magnitude a)
unfolding quantize_down
quantize_down-le c a h small =
    let r : Decimal = mul c (usd a) in
    let n : ℕ = magnitude r.coef * 10 ^ 18 / 10 ^ r.places in
    let bound : n ≤ magnitude a =
      div-le_of_le-mul (10 ^ r.places) (omega (arith, mul-le c a h small)) in
    (signed r.coef n, checked-signed r.coef n (omega arith), rw (magnitude-signed r.coef n) bound)
