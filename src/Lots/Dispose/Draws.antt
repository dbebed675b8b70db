-- ===== src/Lots/Dispose/Draws.antt =====
-- What is left of the lots after quantities are drawn from some of them.
use lemon_ledger.Prelude.{
  ℕ, ◌+◌, ◌-◌, ◌≤◌, ◌<◌, ◌≡◌, refl, arith, Bool-cases, true, false, ◌==◌, inl, inr, if◌then◌else◌,
  List, [], ◌∷◌, update, sum_of, All, All-update,
}
use lemon_ledger.Models.{TaxLot}
use lemon_ledger.Decimal.{limit}
use lemon_ledger.Decimal.Exact.{sub_qty_exact}
use lemon_ledger.Lots.Consume.Totals.{remaining}
use lemon_ledger.Lots.Dispose.{decrement}

-- What the lots with a key count.
abbrev pub at : ℕ → (TaxLot → ℕ) → TaxLot → ℕ
at k f l = if l.id == k then f l else 0

abbrev pub count : ℕ → List TaxLot → ℕ
count k lots = sum_of (at k (λ _. 1)) lots

abbrev pub remaining_at : ℕ → List TaxLot → ℕ
remaining_at k lots = sum_of (at k remaining) lots

abbrev pub IsSmall : TaxLot → Type 0
IsSmall l = l.quantity_remaining < limit

-- A key, and how much of its lot is drawn.
abbrev pub drawn_from : ℕ × ℕ → List TaxLot → List TaxLot
drawn_from (k, c) lots = update (λ l. l.id == k) (decrement c) lots

abbrev pub draw : List (ℕ × ℕ) → List TaxLot → List TaxLot
draw [] lots = lots
draw (d ∷ ds) lots = draw ds (drawn_from d lots)

pub decrement_lem :
    (c : ℕ) (l : TaxLot) → IsSmall l → (decrement c l).quantity_remaining ≡ l.quantity_remaining - c
unfolding decrement
decrement_lem c l h = sub_qty_exact l.quantity_remaining c h

pub decrement-id : (c : ℕ) (l : TaxLot) → (decrement c l).id ≡ l.id
unfolding decrement
decrement-id c l = refl

pub absent : (k : ℕ) (lots : List TaxLot) → count k lots ≡ 0 → remaining_at k lots ≡ 0
absent k [] h = refl
absent k (l ∷ lots) h = elim (Bool-cases (l.id == k)) [
  | inl same ↦ absurd_count (rw same at h)
  | inr differ ↦ rw differ (omega (arith, absent k lots (omega (arith, rw differ at h))))
]
  where
    absurd_count : 1 + count k lots ≡ 0 → remaining_at k (l ∷ lots) ≡ 0
    absurd_count e = omega arith

untouched :
    (k c : ℕ) (lots : List TaxLot)
    → count k lots ≡ 0
    → sum_of remaining (drawn_from (k, c) lots) ≡ sum_of remaining lots
untouched k c [] h = refl
untouched k c (l ∷ lots) h = elim (Bool-cases (l.id == k)) [
  | inl same ↦ never (rw same at h)
  | inr differ ↦ rw differ (omega (arith, untouched k c lots (omega (arith, rw differ at h))))
]
  where
    never :
        1 + count k lots ≡ 0
        → sum_of remaining (drawn_from (k, c) (l ∷ lots)) ≡ sum_of remaining (l ∷ lots)
    never e = omega arith

-- One draw takes its quantity from the total.
taken :
    (k c : ℕ) (lots : List TaxLot)
    → count k lots ≤ 1
    → c ≤ remaining_at k lots
    → All IsSmall lots
    → sum_of remaining (drawn_from (k, c) lots) + c ≡ sum_of remaining lots
taken k c [] one enough small = omega arith
taken k c (l ∷ lots) one enough (small, rest) = elim (Bool-cases (l.id == k)) [
  | inl same ↦ rw same (head (rw same at one) (rw same at enough))
  | inr differ ↦ rw differ (
      omega (
        arith,
        taken k c lots (omega (arith, rw differ at one)) (omega (arith, rw differ at enough)) rest,
      ))
]
  where
    head :
        1 + count k lots ≤ 1
        → c ≤ l.quantity_remaining + remaining_at k lots
        → (decrement c l).quantity_remaining + sum_of remaining (drawn_from (k, c) lots) + c
          ≡ l.quantity_remaining + sum_of remaining lots
    head e f = omega (
      arith,
      decrement_lem c l small,
      absent k lots (omega arith),
      untouched k c lots (omega arith),
    )

-- A draw changes no key, and nothing at another key.
pub count-drawn : (j k c : ℕ) (lots : List TaxLot) → count j (drawn_from (k, c) lots) ≡ count j lots
count-drawn j k c [] = refl
count-drawn j k c (l ∷ lots) = elim (Bool-cases (l.id == k)) [
  | inl same ↦ rw (same, decrement-id c l) (omega (arith, count-drawn j k c lots))
  | inr differ ↦ rw differ (omega (arith, count-drawn j k c lots))
]

remaining_at-drawn :
    (j k c : ℕ) (lots : List TaxLot)
    → j == k ≡ false
    → remaining_at j (drawn_from (k, c) lots) ≡ remaining_at j lots
remaining_at-drawn j k c [] other = refl
remaining_at-drawn j k c (l ∷ lots) other = elim (Bool-cases (l.id == k)) [
  | inl same ↦
      rw (same, decrement-id c l, not_at l.id j k same other)
        (omega (arith, remaining_at-drawn j k c lots other))
  | inr differ ↦ rw differ (omega (arith, remaining_at-drawn j k c lots other))
]
  where
    not_at : (i j k : ℕ) → i == k ≡ true → j == k ≡ false → i == j ≡ false
    not_at i j k e f = ground arith

drawn_from-IsSmall :
    (k c : ℕ) (lots : List TaxLot) → All IsSmall lots → All IsSmall (drawn_from (k, c) lots)
drawn_from-IsSmall k c lots = All-update IsSmall (λ l. l.id == k) (decrement c) keep lots
  where
    keep : (l : TaxLot) → IsSmall l → IsSmall (decrement c l)
    keep l h = omega (arith, decrement_lem c l h)

-- The keys of the draws differ, and there is enough for each.
abbrev pub Distinct : List (ℕ × ℕ) → Type 0
Distinct [] = Unit
Distinct (d ∷ ds) = All (λ e. e.0 == d.0 ≡ false) ds × Distinct ds

abbrev pub Covered : List TaxLot → List (ℕ × ℕ) → Type 0
Covered lots ds = All (λ d. d.1 ≤ remaining_at d.0 lots) ds

pub still_Covered :
    (d : ℕ × ℕ) (lots : List TaxLot) (ds : List (ℕ × ℕ))
    → All (λ e. e.0 == d.0 ≡ false) ds
    → Covered lots ds
    → Covered (drawn_from d lots) ds
still_Covered d lots [] others enough = tt
still_Covered d lots (e ∷ ds) (other, others) (enough, rest) =
    (omega (arith, remaining_at-drawn e.0 d.0 d.1 lots other), still_Covered d lots ds others rest)

-- Draws with different keys, each covered, take their sum from the total.
pub draw-sum :
    (ds : List (ℕ × ℕ)) (lots : List TaxLot)
    → ((k : ℕ) → count k lots ≤ 1)
    → All IsSmall lots
    → Distinct ds
    → Covered lots ds
    → sum_of remaining (draw ds lots) + sum_of (λ d. d.1) ds ≡ sum_of remaining lots
draw-sum [] lots unique small distinct enough = omega arith
draw-sum (d ∷ ds) lots unique small (others, distinct) (enough, rest) = omega (
  arith,
  taken d.0 d.1 lots (unique d.0) enough small,
  draw-sum ds (drawn_from d lots) (λ k. omega (arith, count-drawn k d.0 d.1 lots, unique k))
      (drawn_from-IsSmall d.0 d.1 lots small) distinct (still_Covered d lots ds others rest),
)
