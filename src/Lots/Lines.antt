-- ===== src/Lots/Lines.antt =====
-- `build_lines` and `_holding_period` of domain/lots/engine.py.
pub mod Proceeds
use lemon_ledger.Prelude.{ℕ, ℤ, pos, ltb, if◌then◌else◌, List, [], ◌∷◌, ok, ◌>>=◌}
use lemon_ledger.Models.{
  TaxLot, Try, Runtime, date, HoldingPeriod, short, long, AssetClass, SelectionStrategy,
}
use lemon_ledger.Decimal.{usd, units, mul, div, quantize_down, add, sub, add_qty}
use lemon_ledger.Lots.Consume.{ConsumptionSlice}

pub record DisposalLine : Type 0 where
  pub lot : TaxLot
  pub quantity_consumed : ℕ
  pub proceeds_usd : ℤ
  pub basis_consumed_usd : ℤ
  pub gain_loss_usd : ℤ
  pub holding_period : HoldingPeriod
  pub asset_class : AssetClass
  pub selection_strategy : SelectionStrategy
  pub selected_at : ℕ

unfoldable pub holding_period : Runtime → ℕ → ℕ → HoldingPeriod
holding_period runtime acquired_at disposed_at =
    let anniversary = runtime.plus_one_year (date acquired_at) in
    if ltb anniversary (date disposed_at) then long else short

-- `sum(s.quantity_consumed for s in slices)`, from `acc`.
unfoldable pub total_qty_from : ℕ → List ConsumptionSlice → ℕ
unfolding add_qty
total_qty_from acc [] = acc
total_qty_from acc (s ∷ slices) = total_qty_from (add_qty acc s.quantity_consumed) slices

-- The proceeds of a slice that is not the last.
unfoldable pub share : ℕ → ℕ → ℤ → Try ℤ
unfolding mul div quantize_down
share quantity_consumed total_qty total_proceeds_usd = do
  ratio ← div (units quantity_consumed) (units total_qty)
  quantize_down (mul ratio (usd total_proceeds_usd))

module _ (runtime : Runtime) (total_proceeds_usd : ℤ) (disposed_at : ℕ)
    (selection_strategy : SelectionStrategy) (total_qty : ℕ) where
  unfoldable pub line_of : ConsumptionSlice → ℤ → DisposalLine
  unfolding holding_period sub
  line_of s slice_proceeds = record {
    lot = s.lot;
    quantity_consumed = s.quantity_consumed;
    proceeds_usd = slice_proceeds;
    basis_consumed_usd = s.basis_consumed_usd;
    gain_loss_usd = sub slice_proceeds s.basis_consumed_usd;
    holding_period = holding_period runtime s.lot.acquired_at disposed_at;
    asset_class = s.lot.asset_class;
    selection_strategy = selection_strategy;
    selected_at = runtime.now;
  }

  -- The loop; `allocated` is `allocated_proceeds`.
  unfoldable pub lines_from : ℤ → List ConsumptionSlice → Try (List DisposalLine)
  unfolding line_of share add
  lines_from allocated [] = ok []
  lines_from allocated (s ∷ []) = ok (line_of s (sub total_proceeds_usd allocated) ∷ [])
  lines_from allocated (s ∷ t ∷ slices) = do
    slice_proceeds ← share s.quantity_consumed total_qty total_proceeds_usd
    lines ← lines_from (add allocated slice_proceeds) (t ∷ slices)
    ok (line_of s slice_proceeds ∷ lines)

unfoldable pub build_lines :
    Runtime → List ConsumptionSlice → ℤ → ℕ → SelectionStrategy → Try (List DisposalLine)
unfolding lines_from total_qty_from
build_lines runtime slices total_proceeds_usd disposed_at selection_strategy =
    lines_from runtime total_proceeds_usd disposed_at selection_strategy (total_qty_from 0 slices)
      (pos 0) slices
