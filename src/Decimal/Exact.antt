-- ===== src/Decimal/Exact.antt =====
-- Sums and differences are exact while the result has at most 28 digits.
use lemon_ledger.Prelude.{
  ℕ, ◌+◌, ◌-◌, ◌<◌, ◌≡◌, arith, ℤ, ◌+ℤ◌, ◌-ℤ◌, magnitude, signed-magnitude, magnitude-add-le,
  magnitude-sub-le, lt→ltb,
}
use lemon_ledger.Decimal.Rounding.{limit, fix_ℕ}
use lemon_ledger.Decimal.Columns.{fix, add, sub, add_qty, sub_qty}

pub fix_ℕ_exact : (n : ℕ) → n < limit → fix_ℕ n ≡ n
unfolding fix_ℕ
fix_ℕ_exact n h = rw (lt→ltb n limit h)

pub fix_exact : (a : ℤ) → magnitude a < limit → fix a ≡ a
unfolding fix
fix_exact a h = rw (fix_ℕ_exact (magnitude a) h) (signed-magnitude a)

pub add_exact : (a b : ℤ) → magnitude a + magnitude b < limit → add a b ≡ a +ℤ b
unfolding add
add_exact a b h = fix_exact (a +ℤ b) (omega (arith, magnitude-add-le a b))

pub sub_exact : (a b : ℤ) → magnitude a + magnitude b < limit → sub a b ≡ a -ℤ b
unfolding sub
sub_exact a b h = fix_exact (a -ℤ b) (omega (arith, magnitude-sub-le a b))

pub add_qty_exact : (a b : ℕ) → a + b < limit → add_qty a b ≡ a + b
unfolding add_qty
add_qty_exact a b h = fix_ℕ_exact (a + b) h

pub sub_qty_exact : (a b : ℕ) → a < limit → sub_qty a b ≡ a - b
unfolding sub_qty
sub_qty_exact a b h = fix_ℕ_exact (a - b) (omega arith)
