-- ===== src/Lots/Consume/Totals.antt =====
-- On the totals of `consume` in domain/lots/engine.py.
use lemon_ledger.Prelude.{
  ℕ, ◌+◌, ◌-◌, ◌≤◌, ◌<◌, ◌≡◌, arith, ℤ, signed, min, List, [], ◌∷◌, sum_of, All, ok, err, ◌>>=◌,
  ltb, ◌==◌, Bool-cases, inl, inr, if◌then◌else◌,
}
use lemon_ledger.Models.{TaxLot, Try, insufficient_lots, invalid_operation, division_by_zero}
use lemon_ledger.Decimal.{Decimal, limit, usd, units, div, checked, quantize_half_even}
use lemon_ledger.Decimal.Exact.{sub_qty_exact}
use lemon_ledger.Lots.Methods.{LotMethod, order}
use lemon_ledger.Lots.Methods.Orders.{
  NotShort, NotShort-bind, NotShort-if, div-NotShort, Rearranges, order-Rearranges,
}
use lemon_ledger.Lots.Consume.{consume, ConsumptionSlice, basis_of, consume_from}

abbrev pub qty : ConsumptionSlice → ℕ
qty s = s.quantity_consumed

abbrev pub remaining : TaxLot → ℕ
remaining l = l.quantity_remaining

abbrev pub HasSome : TaxLot → Type 0
HasSome l = 0 < l.quantity_remaining

-- A slice takes something, and no more than its lot has.
abbrev pub IsWithin : ConsumptionSlice → Type 0
IsWithin s = (0 < s.quantity_consumed) × (s.quantity_consumed ≤ s.lot.quantity_remaining)

-- What a walk over the lots that ends in `slices` and `left` has done.
abbrev Walks : List TaxLot → ℕ → List ConsumptionSlice → ℕ → Type 0
Walks lots outstanding slices left =
    (sum_of qty slices + left ≡ outstanding)
    × (left ≡ outstanding - sum_of remaining lots)
    × All IsWithin slices

abbrev WalkResult : List TaxLot → ℕ → Try (List ConsumptionSlice × ℕ) → Type 0
WalkResult lots outstanding (ok (slices, left)) = Walks lots outstanding slices left
WalkResult lots outstanding (err (insufficient_lots _)) = ⊥
WalkResult lots outstanding (err _) = Unit

checked-NotShort : (sign : ℤ) (n : ℕ) → NotShort (checked sign n)
unfolding checked
checked-NotShort sign n =
    NotShort-if (ltb n limit) (ok (signed sign n)) (err invalid_operation) tt tt

quantize-NotShort : (d : Decimal) → NotShort (quantize_half_even d)
unfolding quantize_half_even
quantize-NotShort d = checked-NotShort d.coef _

basis_of-NotShort : (lot : TaxLot) (take : ℕ) → NotShort (basis_of lot take)
unfolding basis_of
basis_of-NotShort lot take =
    NotShort-bind (div (usd lot.cost_basis_usd) (units lot.quantity)) _ (div-NotShort _ _) λ unit.
      NotShort-if (take == lot.quantity_remaining) _ _
        (NotShort-bind (div _ _) quantize_half_even (div-NotShort _ _) quantize-NotShort)
        (quantize-NotShort _)

-- A round of the loop, with the basis of its lot and what the rest of the loop has done.
walk_step :
    (lot : TaxLot) (lots : List TaxLot) (outstanding : ℕ)
    → 0 < lot.quantity_remaining
    → 0 < outstanding
    → (basis : Try ℤ) → NotShort basis
    → (rest : Try (List ConsumptionSlice × ℕ))
    → WalkResult lots (outstanding - min lot.quantity_remaining outstanding) rest
    → WalkResult (lot ∷ lots) outstanding (
        basis >>= λ b. rest >>= λ (slices, left). ok (
          record {
            lot = lot;
            quantity_consumed = min lot.quantity_remaining outstanding;
            basis_consumed_usd = b;
          }
              ∷ slices,
          left,
        ))
walk_step lot lots outstanding p q (ok b) n (ok (slices, left)) (total, rest, within) =
    (omega arith, omega arith, ((omega arith, omega arith), within))
walk_step lot lots outstanding p q (ok b) n (err (insufficient_lots u)) w = w
walk_step lot lots outstanding p q (ok b) n (err invalid_operation) w = tt
walk_step lot lots outstanding p q (ok b) n (err division_by_zero) w = tt
walk_step lot lots outstanding p q (err (insufficient_lots u)) n rest w = n
walk_step lot lots outstanding p q (err invalid_operation) n rest w = tt
walk_step lot lots outstanding p q (err division_by_zero) n rest w = tt

consume_from-Walks :
    (lots : List TaxLot) (outstanding : ℕ)
    → outstanding < limit
    → All HasSome lots
    → WalkResult lots outstanding (consume_from lots outstanding)
unfolding consume_from
consume_from-Walks [] outstanding h ps = (omega arith, omega arith, tt)
consume_from-Walks (lot ∷ lots) outstanding h (p, ps) = elim (Bool-cases (outstanding == 0)) [
  | inl none_left ↦ rw none_left (ground arith, ground arith, tt)
  | inr some_left ↦
      rw (some_left, sub_qty_exact outstanding (min lot.quantity_remaining outstanding) h)
        (walk_step lot lots outstanding p (ground arith)
          (basis_of lot (min lot.quantity_remaining outstanding)) (basis_of-NotShort lot _)
          (consume_from lots _)
          (consume_from-Walks lots (outstanding - min lot.quantity_remaining outstanding)
            (omega arith) ps))
]

-- How `consume` can end.
abbrev pub Consumes : List TaxLot → ℕ → Try (List ConsumptionSlice) → Type 0
Consumes lots quantity (ok slices) =
    (sum_of qty slices ≡ quantity) × All IsWithin slices × (quantity ≤ sum_of remaining lots)
Consumes lots quantity (err (insufficient_lots unmatched)) =
    (0 < unmatched) × (unmatched + sum_of remaining lots ≡ quantity)
Consumes lots quantity (err _) = Unit

abbrev finish : List ConsumptionSlice × ℕ → Try (List ConsumptionSlice)
finish (slices, left) = if ltb 0 left then err (insufficient_lots left) else ok slices

finish-Consumes :
    (lots ordered : List TaxLot) (quantity : ℕ)
    → sum_of remaining ordered ≡ sum_of remaining lots
    → (walk : Try (List ConsumptionSlice × ℕ)) → WalkResult ordered quantity walk
    → Consumes lots quantity (walk >>= finish)
finish-Consumes lots ordered quantity same (ok (slices, left)) (total, rest, within) =
    elim (Bool-cases (ltb 0 left)) [
      | inl short ↦ rw short (ground arith, ground arith)
      | inr enough ↦ rw enough (ground arith, within, ground arith)
    ]
finish-Consumes lots ordered quantity same (err (insufficient_lots _)) w = absurd w
finish-Consumes lots ordered quantity same (err invalid_operation) w = tt
finish-Consumes lots ordered quantity same (err division_by_zero) w = tt

order-Consumes :
    (lots : List TaxLot) (quantity : ℕ)
    → quantity < limit
    → All HasSome lots
    → (r : Try (List TaxLot)) → Rearranges remaining HasSome lots r
    → Consumes lots quantity (r >>= λ ordered. consume_from ordered quantity >>= finish)
order-Consumes lots quantity h ps (ok ordered) (sums, all) =
    finish-Consumes lots ordered quantity sums (consume_from ordered quantity)
      (consume_from-Walks ordered quantity h (all ps))
order-Consumes lots quantity h ps (err (insufficient_lots _)) w = absurd w
order-Consumes lots quantity h ps (err invalid_operation) w = tt
order-Consumes lots quantity h ps (err division_by_zero) w = tt

-- Let the quantity have fewer than 29 digits, and let every lot have something left. By any
-- method, if `consume` returns, its slices add up to the quantity, each takes something and no
-- more than its lot has left, and the lots had enough. If it raises InsufficientLotsError, the
-- unmatched quantity is positive and is what the lots lack.
pub consume-Consumes :
    (method : LotMethod) (lots : List TaxLot) (quantity : ℕ)
    → quantity < limit
    → All HasSome lots
    → Consumes lots quantity (consume method lots quantity)
unfolding consume
consume-Consumes method lots quantity h ps =
    order-Consumes lots quantity h ps (order method lots)
      (order-Rearranges remaining HasSome method lots)
