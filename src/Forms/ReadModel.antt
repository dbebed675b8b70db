-- ===== src/Forms/ReadModel.antt =====
-- domain/forms/read_model.py: the rows that the forms are made of.
use lemon_ledger.Prelude.{
  ℕ, ℤ, pos, ltb, ◌==◌, get_or, if◌then◌else◌, Bool, true, false, ◌&&◌, ◌||◌, Option, none, some,
  String, List, [], ◌∷◌, find, filter, sorted, sum_ℤ,
}
use lemon_ledger.Models.{
  Session, LotDisposal, TaxLot, TokenRegistry, AdjustmentCode, HoldingPeriod, CoveredStatus,
  AssetClass, AcquisitionType, rewarded, date, get_token,
}
use lemon_ledger.Decimal.{add, sub}

-- `description` is the text of a quantity and of a symbol: here the two.
pub record DisposalRow : Type 0 where
  pub lot_id : ℕ
  pub disposal_tx_id : ℕ
  pub description : ℕ × String
  pub acquired_at : ℕ
  pub disposed_at : ℕ
  pub proceeds_usd : ℤ
  pub cost_basis_usd : ℤ
  pub adjustment_code : Option AdjustmentCode
  pub adjustment_usd : Option ℤ
  pub holding_period : HoldingPeriod
  pub covered_status : CoveredStatus
  pub asset_class : AssetClass
  pub entity_id : ℕ

unfoldable pub gain_loss_net : DisposalRow → ℤ
gain_loss_net row =
    add (sub row.proceeds_usd row.cost_basis_usd) (get_or row.adjustment_usd (pos 0))

abbrev pub by_date : LotDisposal → LotDisposal → Bool
by_date a b =
    ltb a.disposed_at b.disposed_at || (a.disposed_at == b.disposed_at && ltb a.lot_id b.lot_id)

unfoldable pub disposal_row : LotDisposal → TaxLot → TokenRegistry → DisposalRow
disposal_row d lot token = record {
  lot_id = d.lot_id;
  disposal_tx_id = d.disposal_tx_id;
  description = (d.quantity_consumed, token.symbol);
  acquired_at = date lot.acquired_at;
  disposed_at = date d.disposed_at;
  proceeds_usd = d.proceeds_usd;
  cost_basis_usd = d.basis_consumed_usd;
  adjustment_code = d.adjustment_code;
  adjustment_usd = d.adjustment_usd;
  holding_period = d.holding_period;
  covered_status = d.covered_status;
  asset_class = d.asset_class;
  entity_id = lot.entity_id;
}

abbrev pub get_lot : Session → ℕ → Option TaxLot
get_lot s k = find (λ l. l.id == k) s.lots

-- The joins are on primary keys, so a disposal has one row of the result at most.
unfoldable pub joined : Session → LotDisposal → Option (TaxLot × TokenRegistry)
joined s d = elim (get_lot s d.lot_id) [
  | none ↦ none
  | some lot ↦ elim (get_token s lot.acquired_token_id) [
    | none ↦ none
    | some token ↦ some (lot, token)
  ]
]

-- The rows of the result, with the conditions of its `where`.
unfoldable pub selected_row : Session → ℕ → ℕ → LotDisposal → Option DisposalRow
selected_row s entity_id tax_year d = elim (joined s d) [
  | none ↦ none
  | some (lot, token) ↦
      if lot.entity_id == entity_id && s.runtime.year_of d.disposed_at == tax_year
      then some (disposal_row d lot token)
      else none
]

unfoldable pub selected_rows : Session → ℕ → ℕ → List LotDisposal → List DisposalRow
selected_rows s entity_id tax_year [] = []
selected_rows s entity_id tax_year (d ∷ ds) = elim (selected_row s entity_id tax_year d) [
  | none ↦ selected_rows s entity_id tax_year ds
  | some row ↦ row ∷ selected_rows s entity_id tax_year ds
]

unfoldable pub fetch_disposal_rows : Session → ℕ → ℕ → List DisposalRow
fetch_disposal_rows s entity_id tax_year =
    selected_rows s entity_id tax_year (sorted by_date s.disposals)

pub record RewardIncomeRow : Type 0 where
  pub entity_id : ℕ
  pub tax_year : ℕ
  pub total_income_usd : ℤ

abbrev pub is_reward : AcquisitionType → Bool
is_reward rewarded = true
is_reward _ = false

-- The database adds NUMERICs exactly.
unfoldable pub fetch_reward_income : Session → ℕ → ℕ → RewardIncomeRow
fetch_reward_income s entity_id tax_year = record {
  entity_id = entity_id;
  tax_year = tax_year;
  total_income_usd =
      sum_ℤ (λ l. l.cost_basis_usd)
        (filter
          (λ l.
            l.entity_id == entity_id
            && (is_reward l.acquisition_type && s.runtime.year_of l.acquired_at == tax_year))
          s.lots);
}
