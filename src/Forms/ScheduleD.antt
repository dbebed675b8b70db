-- ===== src/Forms/ScheduleD.antt =====
-- domain/forms/schedule_d.py and schedule_1.py.
pub mod Totals
use lemon_ledger.Prelude.{ℕ, ℤ, Bool, Option, get_or}
use lemon_ledger.Decimal.{add}
use lemon_ledger.Forms.ReadModel.{RewardIncomeRow}
use lemon_ledger.Forms.Form8949.{Form8949Result, short_term_net, long_term_net}

pub record ScheduleDResult : Type 0 where
  pub entity_id : ℕ
  pub tax_year : ℕ
  pub short_term_net : ℤ
  pub long_term_net : ℤ
  pub total_net : ℤ
  pub is_draft : Bool
  pub generated_at : ℕ

unfoldable pub build_schedule_d : Form8949Result → ScheduleDResult
build_schedule_d form = record {
  entity_id = form.entity_id;
  tax_year = form.tax_year;
  short_term_net = short_term_net form;
  long_term_net = long_term_net form;
  total_net = add (short_term_net form) (long_term_net form);
  is_draft = form.is_draft;
  generated_at = form.generated_at;
}

pub record Schedule1Result : Type 0 where
  pub entity_id : ℕ
  pub tax_year : ℕ
  pub line_8z_income : ℤ
  pub is_draft : Bool
  pub generated_at : ℕ

unfoldable pub build_schedule_1 : RewardIncomeRow → Bool → Option ℕ → ℕ → Schedule1Result
build_schedule_1 reward_income is_draft generated_at now = record {
  entity_id = reward_income.entity_id;
  tax_year = reward_income.tax_year;
  line_8z_income = reward_income.total_income_usd;
  is_draft = is_draft;
  generated_at = get_or generated_at now;
}
