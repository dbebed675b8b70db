-- ===== src/Decimal/Digits.antt =====
-- The number of digits of a number, and powers of ten.
use lemon_ledger.Prelude.{
  ℕ, zero, suc, ◌+◌, ◌*◌, ◌/◌, ◌^◌, ◌≤◌, ◌<◌, ◌≡◌, inl, inr, arith, Bool-cases, ◌==◌,
}
use native.Mathlib.Nat.{pow-zero, pow-suc, add-zero, add-suc, mul-one, mul_assoc, pow-le-pow_right}
use native.Mathlib.Decide.{dec_lt}
use lemon_ledger.Decimal.Rounding.{digits_below, digits}

pub pow-add : (a b : ℕ) → 10 ^ (a + b) ≡ 10 ^ a * 10 ^ b
pow-add a zero = rw (add-zero, pow-zero, mul-one)
pow-add a (suc b) = rw (add-suc, pow-suc, pow-suc, pow-add a b, mul_assoc)

pub pow_pos : (a : ℕ) → 1 ≤ 10 ^ a
pow_pos zero = omega arith
pow_pos (suc a) = rw pow-suc (omega (arith, pow_pos a))

pub pow_suc_le : (a : ℕ) → 10 ^ suc a ≡ 10 * 10 ^ a
pow_suc_le a = rw pow-suc (omega arith)

digits_below-le : (f n k : ℕ) → n < 10 ^ k → digits_below f n ≤ k
unfolding digits_below
digits_below-le zero n k h = omega arith
digits_below-le (suc f) n zero h = ground arith
digits_below-le (suc f) n (suc k) h = ground (arith, pow_suc_le k, digits_below-le f (n / 10) k)

digits_below-lt : (f n : ℕ) → n ≤ f → n < 10 ^ digits_below f n
unfolding digits_below
digits_below-lt zero n h = omega arith
digits_below-lt (suc f) n h = elim (Bool-cases (n == 0)) [
  | inl none ↦ rw none (ground arith)
  | inr some ↦ rw some (
      omega
        (arith, pow_suc_le (digits_below f (n / 10)), digits_below-lt f (n / 10) (ground arith)))
]

-- A number below 10 ^ k has at most k digits, and has fewer than 10 ^ digits units.
pub digits-le : (n k : ℕ) → n < 10 ^ k → digits n ≤ k
unfolding digits
digits-le n k h = digits_below-le n n k h

pub lt-digits : (n : ℕ) → n < 10 ^ digits n
unfolding digits
lt-digits n = digits_below-lt n n (omega arith)

pub digits_mono : (m n : ℕ) → m ≤ n → digits m ≤ digits n
digits_mono m n h = digits-le m (digits n) (omega (arith, lt-digits n))

-- A number of at least 10 ^ k has more than k digits.
pub lt-digits_of_le : (n k : ℕ) → 10 ^ k ≤ n → k < digits n
lt-digits_of_le n k h = elim (dec_lt k (digits n)) [
  | yes p ↦ p
  | no p ↦ absurd (
      omega (
        arith,
        lt-digits n,
        pow-le-pow_right {n = 10} (omega arith) {i = digits n} {j = k} (omega arith),
      ))
]
