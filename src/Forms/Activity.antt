-- ===== src/Forms/Activity.antt =====
-- domain/forms/activity_report.py without its CSV text, and the acquisition rows of read_model.py.
use lemon_ledger.Prelude.{
  ℕ, ℤ, pos, ltb, ◌==◌, Bool, ◌&&◌, ◌||◌, none, some, String, List, [], ◌∷◌, map, sorted, filter,
}
use lemon_ledger.Models.{
  Session, TaxLot, TokenRegistry, AcquisitionType, AssetClass, date, get_token,
}
use lemon_ledger.Decimal.{sum_from}
use lemon_ledger.Forms.ReadModel.{DisposalRow, RewardIncomeRow, gain_loss_net}

-- `description` is the text of a quantity and of a symbol: here the two.
pub record AcquisitionRow : Type 0 where
  pub entity_id : ℕ
  pub acquired_at : ℕ
  pub description : ℕ × String
  pub quantity : ℕ
  pub cost_basis_usd : ℤ
  pub acquisition_type : AcquisitionType
  pub asset_class : AssetClass

unfoldable pub acquisition_row : TaxLot → TokenRegistry → AcquisitionRow
acquisition_row lot token = record {
  entity_id = lot.entity_id;
  acquired_at = date lot.acquired_at;
  description = (lot.quantity, token.symbol);
  quantity = lot.quantity;
  cost_basis_usd = lot.cost_basis_usd;
  acquisition_type = lot.acquisition_type;
  asset_class = lot.asset_class;
}

abbrev pub by_acquisition : TaxLot → TaxLot → Bool
by_acquisition a b =
    ltb a.acquired_at b.acquired_at || (a.acquired_at == b.acquired_at && ltb a.id b.id)

-- The join with the registry drops a lot whose token it lacks.
unfoldable pub acquisition_rows : Session → List TaxLot → List AcquisitionRow
acquisition_rows s [] = []
acquisition_rows s (lot ∷ lots) =
    let rest = acquisition_rows s lots in
    elim (get_token s lot.acquired_token_id) [
      | none ↦ rest
      | some token ↦ acquisition_row lot token ∷ rest
    ]

unfoldable pub fetch_acquisition_rows : Session → ℕ → ℕ → List AcquisitionRow
fetch_acquisition_rows s entity_id tax_year = acquisition_rows s (
    sorted by_acquisition (
      filter (λ l. l.entity_id == entity_id && s.runtime.year_of l.acquired_at == tax_year) s.lots))

pub record ActivityReport : Type 0 where
  pub entity_id : ℕ
  pub tax_year : ℕ
  pub acquisitions : List AcquisitionRow
  pub disposals : List DisposalRow
  pub total_proceeds : ℤ
  pub total_cost_basis_disposed : ℤ
  pub total_gain_loss : ℤ
  pub total_reward_income : ℤ
  pub is_draft : Bool
  pub generated_at : ℕ

-- `now` is what `datetime.utcnow()` reads.
unfoldable pub build_activity_report :
    List AcquisitionRow → List DisposalRow → RewardIncomeRow → ℕ → ℕ → Bool → ℕ → ActivityReport
build_activity_report acquisitions disposals reward_income entity_id tax_year is_draft now =
    record {
      entity_id = entity_id;
      tax_year = tax_year;
      acquisitions = acquisitions;
      disposals = disposals;
      total_proceeds = sum_from (pos 0) (map (λ r. r.proceeds_usd) disposals);
      total_cost_basis_disposed = sum_from (pos 0) (map (λ r. r.cost_basis_usd) disposals);
      total_gain_loss = sum_from (pos 0) (map gain_loss_net disposals);
      total_reward_income = reward_income.total_income_usd;
      is_draft = is_draft;
      generated_at = now;
    }
