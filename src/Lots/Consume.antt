-- ===== src/Lots/Consume.antt =====
-- `consume` of domain/lots/engine.py: the walk over the ordered lots.
pub mod Totals
pub mod Exhausts
pub mod Picks
pub mod OldestFirst
use lemon_ledger.Prelude.{ℕ, ℤ, ltb, ◌==◌, if◌then◌else◌, List, [], ◌∷◌, min, ok, err, ◌>>=◌}
use lemon_ledger.Models.{TaxLot, Try, insufficient_lots}
use lemon_ledger.Decimal.{usd, units, mul, div, quantize_half_even, sub_qty}
use lemon_ledger.Lots.Methods.{LotMethod, order}

pub record ConsumptionSlice : Type 0 where
  pub lot : TaxLot
  pub quantity_consumed : ℕ
  pub basis_consumed_usd : ℤ

-- The basis of `take` units of the lot. The unit basis is computed on both branches, and a
-- division by zero raises there.
unfoldable pub basis_of : TaxLot → ℕ → Try ℤ
basis_of lot take = do
  unit_basis ← div (usd lot.cost_basis_usd) (units lot.quantity)
  if take == lot.quantity_remaining
      then div (mul (usd lot.cost_basis_usd) (units lot.quantity_remaining)) (units lot.quantity)
        >>= quantize_half_even
      else quantize_half_even (mul unit_basis (units take))

-- The loop: the slices, and what is outstanding after it.
unfoldable pub consume_from : List TaxLot → ℕ → Try (List ConsumptionSlice × ℕ)
consume_from [] outstanding = ok ([], outstanding)
consume_from (lot ∷ lots) outstanding =
    let take = min lot.quantity_remaining outstanding in
    let rest = consume_from lots (sub_qty outstanding take) in
    if outstanding == 0 then ok ([], outstanding) else do
      basis ← basis_of lot take
      (slices, left) ← rest
      ok (record { lot = lot; quantity_consumed = take; basis_consumed_usd = basis } ∷ slices, left)

unfoldable pub consume : LotMethod → List TaxLot → ℕ → Try (List ConsumptionSlice)
consume method lots quantity = do
  ordered ← order method lots
  (slices, outstanding) ← consume_from ordered quantity
  if ltb 0 outstanding then err (insufficient_lots outstanding) else ok slices
