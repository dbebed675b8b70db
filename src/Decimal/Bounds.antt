-- ===== src/Decimal/Bounds.antt =====
-- What rounding to 28 digits keeps: a bound that itself has at most 28 digits.
use lemon_ledger.Prelude.{
  ℕ, ◌+◌, ◌-◌, ◌*◌, ◌/◌, ◌%◌, ◌^◌, ◌≤◌, ◌<◌, ◌≡◌, ap, inl, inr, ◌⊎◌, arith, lt→ltb, Bool-cases,
  ◌==◌, ltb, ℤ, magnitude, magnitude-signed, pos, false,
}
use native.Mathlib.Nat.{div-add-mod, div-le_of_le-mul, mul_comm, mul-le-mul_right, add-mul, mod-lt}
use native.Mathlib.Decide.{dec_lt}
use lemon_ledger.Decimal.Rounding.{half_even, digits, limit, ratio_at, round_ratio}
use lemon_ledger.Decimal.Digits.{pow-add}

exact_rest : (n d m : ℕ) → n ≤ m * d → n / d ≡ m → n % d ≡ 0
exact_rest n d m h e = omega (arith, div-add-mod n d, mul_comm d m, ap (λ (t : ℕ). d * t) e)

half_even_round : (n d : ℕ) → n % d ≡ 0 → 0 < d → half_even n d ≡ n / d
unfolding half_even
half_even_round n d h p = rw (h, lt→ltb 0 d p)

-- Down, with a rest of at most half a unit, or up, with one of at least half a unit.
half_even-cases :
    (n d : ℕ)
    → (half_even n d ≡ n / d) × (2 * (n % d) ≤ d) ⊎ (half_even n d ≡ n / d + 1) × (d ≤ 2 * (n % d))
unfolding half_even
half_even-cases n d = elim (Bool-cases (ltb (2 * (n % d)) d)) [
  | inl e ↦ inl (rw e, ground arith)
  | inr e ↦ elim (Bool-cases (ltb d (2 * (n % d)))) [
    | inl f ↦ inr (rw (e, f), ground arith)
    | inr f ↦ elim (Bool-cases (n / d % 2 == 0)) [
      | inl g ↦ inl (rw (e, f, g), ground arith)
      | inr g ↦ inr (rw (e, f, g), ground arith)
    ]
  ]
]

half_even-le-suc : (n d : ℕ) → half_even n d ≤ n / d + 1
half_even-le-suc n d = elim (half_even-cases n d) [
  | inl (e, _) ↦ rw e (omega arith)
  | inr (e, _) ↦ rw e (omega arith)
]

pub half_even-le : (n d m : ℕ) → 0 < d → n ≤ m * d → half_even n d ≤ m
half_even-le n d m p h =
    let below : n / d ≤ m = div-le_of_le-mul d (rw (mul_comm d m) h) in
    elim (dec_lt (n / d) m) [
      | yes q ↦ omega (arith, half_even-le-suc n d)
      | no q ↦
          let e : n / d ≡ m = omega arith in
          rw (half_even_round n d (exact_rest n d m h e) p) (omega arith)
    ]

-- The rounded value is within half a unit of the exact one.
pub half_even_error :
    (n d : ℕ)
    → 0 < d
    → (2 * (half_even n d * d) ≤ 2 * n + d) × (2 * n ≤ 2 * (half_even n d * d) + d)
half_even_error n d p = elim (half_even-cases n d) [
  | inl (e, small) ↦ rw e (omega (arith, div-add-mod n d, mul_comm d (n / d)))
  | inr (e, large) ↦
      rw e (omega (arith, div-add-mod n d, mul_comm d (n / d), add-mul (n / d) 1 d, mod-lt n p))
]

-- A ratio of at most M / 10 ^ s, rounded at s + k places, is at most that.
ratio-le :
    (num den m s k : ℕ)
    → 0 < den
    → num * 10 ^ s ≤ m * den
    → half_even (num * 10 ^ (s + k)) (den * 1) * 1 * 10 ^ s ≤ m * 10 ^ (s + k)
ratio-le num den m s k p h =
    let bound : half_even (num * 10 ^ (s + k)) (den * 1) ≤ m * 10 ^ k =
      half_even-le _ _ (m * 10 ^ k) (omega arith)
        (rw (pow-add s k) (omega (arith, mul-le-mul_right (10 ^ k) h))) in
    omega (arith, ap (λ (t : ℕ). m * t) (pow-add s k), mul-le-mul_right (10 ^ s) bound)

ratio_at-le :
    (sign : ℤ) (num den m s u : ℕ)
    → 0 < den
    → s ≤ u
    → num * 10 ^ s ≤ m * den
    → magnitude (ratio_at num den u 0 sign).coef * 10 ^ s ≤ m * 10 ^ u
ratio_at-le sign num den m s u p q h =
    let e : u ≡ s + (u - s) = omega arith in
    rw (magnitude-signed sign, e) (ratio-le num den m s (u - s) p h)

-- Where the ratio is not large, it is rounded at one of two places behind the point.
pub round_ratio-cases :
    (sign : ℤ) (num den : ℕ)
    → digits num < 28 + digits den
    → let up = 28 + digits den - digits num in
      (round_ratio sign num den ≡ record { coef = pos 0; places = 0 })
      ⊎ (round_ratio sign num den ≡ ratio_at num den up 0 sign)
      ⊎ (round_ratio sign num den ≡ ratio_at num den (up - 1) 0 sign)
unfolding round_ratio
round_ratio-cases sign num den few =
    let up : ℕ = 28 + digits den - digits num in
    let flat : digits num - (28 + digits den) ≡ 0 = omega arith in
    let some_up : (up == 0) ≡ false = ground arith in
    elim (Bool-cases (num == 0)) [
      | inl e ↦ inl (rw e)
      | inr e ↦ elim (Bool-cases (ltb (num * 10 ^ up / (den * 10 ^ 0)) limit)) [
        | inl f ↦ inr (inl (rw (e, flat, f)))
        | inr f ↦ inr (inr (rw (e, flat, f, some_up)))
      ]
    ]

-- A ratio of at most m / 10 ^ s stays so when it is rounded to 28 digits, if s is less than the
-- number of places.
pub round_ratio-le :
    (sign : ℤ) (num den m s : ℕ)
    → 0 < den
    → digits num + s < 28 + digits den
    → num * 10 ^ s ≤ m * den
    → let r = round_ratio sign num den in magnitude r.coef * 10 ^ s ≤ m * 10 ^ r.places
round_ratio-le sign num den m s p few h = elim (round_ratio-cases sign num den (omega arith)) [
  | inl e ↦ rw e (omega arith)
  | inr (inl e) ↦ rw e (ratio_at-le sign num den m s _ p (omega arith) h)
  | inr (inr e) ↦ rw e (ratio_at-le sign num den m s _ p (omega arith) h)
]
