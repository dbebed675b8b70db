-- ===== src/Lots/Lines/Proceeds.antt =====
-- On the proceeds that `build_lines` of domain/lots/engine.py divides among its lines.
use lemon_ledger.Prelude.{
  ℕ, suc, ◌+◌, ◌*◌, ◌≤◌, ◌<◌, ◌≡◌, refl, ap, ◌∙◌, arith, ℤ, pos, ◌+ℤ◌, int_laws, magnitude, sum_ℤ,
  magnitude-add-le, List, [], ◌∷◌, map, length, sum_of, ok,
}
use native.Mathlib.Nat.{zero-add}
use lemon_ledger.Models.{Runtime, SelectionStrategy}
use lemon_ledger.Decimal.{limit, add, sub}
use lemon_ledger.Decimal.Exact.{add_exact, sub_exact, add_qty_exact}
use lemon_ledger.Decimal.Shares.{div-IsPart, quantize_down-le}
use lemon_ledger.Lots.Consume.{ConsumptionSlice}
use lemon_ledger.Lots.Lines.{DisposalLine, total_qty_from, share, line_of, lines_from, build_lines}

abbrev pub qty : ConsumptionSlice → ℕ
qty s = s.quantity_consumed

abbrev pub line_qty : DisposalLine → ℕ
line_qty l = l.quantity_consumed

abbrev pub line_proceeds : DisposalLine → ℤ
line_proceeds l = l.proceeds_usd

pub total_qty_from_exact :
    (acc : ℕ) (slices : List ConsumptionSlice)
    → acc + sum_of qty slices < limit
    → total_qty_from acc slices ≡ acc + sum_of qty slices
unfolding total_qty_from
total_qty_from_exact acc [] h = omega arith
total_qty_from_exact acc (s ∷ slices) h =
    rw (add_qty_exact acc (qty s) (omega arith))
      (omega (arith, total_qty_from_exact (acc + qty s) slices (omega arith)))

-- The share of a slice does not raise, and is within the total.
share-le :
    (q total : ℕ) (p : ℤ)
    → 0 < total
    → q ≤ total
    → magnitude p < limit
    → (x : ℤ) × (share q total p ≡ ok x) × (magnitude x ≤ magnitude p)
unfolding share
share-le q total p h k small =
    let (c, divided, part) = div-IsPart q total h k in
    let (x, quantised, bound) = quantize_down-le c p part small in
    (x, rw (divided, quantised), bound)

regroup : (x sum allocated : ℤ) {p : ℤ} → sum +ℤ (allocated +ℤ x) ≡ p → x +ℤ sum +ℤ allocated ≡ p
regroup x sum allocated h = omega int_laws ∙ h

add_zero : (a : ℤ) {p : ℤ} → a +ℤ pos 0 ≡ p → a ≡ p
add_zero a h = omega int_laws ∙ h

module _ (runtime : Runtime) (p : ℤ) (at : ℕ) (strategy : SelectionStrategy) (total : ℕ)
    (total_pos : 0 < total) where
  abbrev Divides : ℤ → List ConsumptionSlice → Type 0
  Divides allocated slices =
      (lines : List DisposalLine) × (lines_from runtime p at strategy total allocated slices
        ≡ ok lines)
      × (sum_ℤ line_proceeds lines +ℤ allocated ≡ p)
      × (map line_qty lines ≡ map qty slices)

  cons-Divides :
      (allocated x : ℤ) (s t : ConsumptionSlice) (slices : List ConsumptionSlice)
      → share (qty s) total p ≡ ok x
      → add allocated x ≡ allocated +ℤ x
      → Divides (allocated +ℤ x) (t ∷ slices)
      → Divides allocated (s ∷ t ∷ slices)
  unfolding lines_from line_of
  cons-Divides allocated x s t slices shared exact (lines, rest, sum, same) = (
    line_of runtime p at strategy total s x ∷ lines,
    rw (shared, exact, rest),
    regroup x (sum_ℤ line_proceeds lines) allocated sum,
    ap (◌∷◌ (qty s)) same,
  )

  lines_from-Divides :
      (allocated : ℤ) (s : ConsumptionSlice) (slices : List ConsumptionSlice)
      → qty s + sum_of qty slices ≤ total
      → magnitude allocated + suc (length slices) * magnitude p < limit
      → Divides allocated (s ∷ slices)
  unfolding lines_from line_of
  lines_from-Divides allocated s [] h small = (
    line_of runtime p at strategy total s (sub p allocated) ∷ [],
    refl,
    rw (sub_exact p allocated (omega arith)) (omega int_laws),
    refl,
  )
  lines_from-Divides allocated s (t ∷ slices) h small =
      let (x, shared, bound) = share-le (qty s) total p total_pos (omega arith) (omega arith) in
      cons-Divides allocated x s t slices shared (add_exact allocated x (omega arith)) (
        lines_from-Divides (allocated +ℤ x) t slices (omega arith)
          (omega (arith, magnitude-add-le allocated x)))

build_lines_lem :
    (runtime : Runtime) (slices : List ConsumptionSlice) (p : ℤ) (at : ℕ)
    (strategy : SelectionStrategy)
    → build_lines runtime slices p at strategy
      ≡ lines_from runtime p at strategy (total_qty_from 0 slices) (pos 0) slices
unfolding build_lines
build_lines_lem runtime slices p at strategy = refl

-- Let the slices be not empty, the first of positive quantity, with quantities of fewer than 29 digits in sum, and let
-- the number of slices times the total proceeds have fewer than 29 digits. Then `build_lines`
-- does not raise, the proceeds of its lines add up to the total exactly, and each line has the
-- quantity of its slice.
pub build_lines-proceeds :
    (runtime : Runtime) (s : ConsumptionSlice) (slices : List ConsumptionSlice) (p : ℤ) (at : ℕ)
    (strategy : SelectionStrategy)
    → 0 < qty s
    → sum_of qty (s ∷ slices) < limit
    → suc (length slices) * magnitude p < limit
    → (lines : List DisposalLine) × (build_lines runtime (s ∷ slices) p at strategy ≡ ok lines)
      × (sum_ℤ line_proceeds lines ≡ p)
      × (map line_qty lines ≡ map qty (s ∷ slices))
build_lines-proceeds runtime s slices p at strategy positive few small =
    finish (total_qty_from_exact 0 (s ∷ slices) (omega arith)) (
      lines_from-Divides runtime p at strategy (sum_of qty (s ∷ slices)) (omega arith) (pos 0) s
        slices (omega arith) (omega arith))
  where
    finish :
        total_qty_from 0 (s ∷ slices) ≡ 0 + sum_of qty (s ∷ slices)
        → Divides runtime p at strategy (sum_of qty (s ∷ slices)) (omega arith) (pos 0) (s ∷ slices)
        → (lines : List DisposalLine) × (build_lines runtime (s ∷ slices) p at strategy ≡ ok lines)
          × (sum_ℤ line_proceeds lines ≡ p)
          × (map line_qty lines ≡ map qty (s ∷ slices))
    finish exact (lines, built, sum, same) = (
      lines,
      rw (build_lines_lem, exact, zero-add) built,
      add_zero (sum_ℤ line_proceeds lines) sum,
      same,
    )
