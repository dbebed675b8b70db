-- ===== src/Forms/Form8949.antt =====
-- domain/forms/form_8949.py: the rows divided into the boxes A to F, with subtotals.
pub mod Totals
pub mod Filed
use lemon_ledger.Prelude.{ℕ, ℤ, pos, get_or, Bool, true, false, List, [], ◌∷◌, map, filter}
use lemon_ledger.Models.{
  HoldingPeriod, short, long, CoveredStatus, no_1099_da, covered_basis_reported,
  covered_basis_not_reported,
}
use lemon_ledger.Decimal.{sum_from}
use lemon_ledger.Forms.ReadModel.{DisposalRow, gain_loss_net}

pub data Box : Type 0 where
  box_a box_b box_c box_d box_e box_f : Box

-- `_SHORT_BOX` and `_LONG_BOX`
abbrev pub short_box : CoveredStatus → Box
short_box covered_basis_reported = box_a
short_box covered_basis_not_reported = box_b
short_box no_1099_da = box_c

abbrev pub long_box : CoveredStatus → Box
long_box covered_basis_reported = box_d
long_box covered_basis_not_reported = box_e
long_box no_1099_da = box_f

abbrev box_by : HoldingPeriod → CoveredStatus → Box
box_by short status = short_box status
box_by long status = long_box status

unfoldable pub box_for : DisposalRow → Box
box_for row = box_by row.holding_period row.covered_status

abbrev pub box_eq : Box → Box → Bool
box_eq box_a box_a = true
box_eq box_b box_b = true
box_eq box_c box_c = true
box_eq box_d box_d = true
box_eq box_e box_e = true
box_eq box_f box_f = true
box_eq _ _ = false

-- `k in ("A", "B", "C")`
abbrev pub is_short : Box → Bool
is_short box_a = true
is_short box_b = true
is_short box_c = true
is_short _ = false

-- `k in ("D", "E", "F")`
abbrev pub is_long : Box → Bool
is_long box_d = true
is_long box_e = true
is_long box_f = true
is_long _ = false

-- The dict `holding`.
abbrev pub holding : Box → HoldingPeriod
holding box_a = short
holding box_b = short
holding box_c = short
holding box_d = long
holding box_e = long
holding box_f = long

pub record BoxSubtotals : Type 0 where
  pub box : Box
  pub holding_period : HoldingPeriod
  pub total_proceeds : ℤ
  pub total_basis : ℤ
  pub total_adjustment : ℤ
  pub total_gain_loss_net : ℤ
  pub rows : List DisposalRow

-- `boxes` is a dict: its values in insertion order, each with its key in `box`.
pub record Form8949Result : Type 0 where
  pub entity_id : ℕ
  pub tax_year : ℕ
  pub boxes : List BoxSubtotals
  pub is_draft : Bool
  pub generated_at : ℕ

abbrev pub box_net : BoxSubtotals → ℤ
box_net b = b.total_gain_loss_net

unfoldable pub total_gain_loss_net : Form8949Result → ℤ
total_gain_loss_net form = sum_from (pos 0) (map box_net form.boxes)

unfoldable pub short_term_net : Form8949Result → ℤ
short_term_net form = sum_from (pos 0) (map box_net (filter (λ b. is_short b.box) form.boxes))

unfoldable pub long_term_net : Form8949Result → ℤ
long_term_net form = sum_from (pos 0) (map box_net (filter (λ b. is_long b.box) form.boxes))

-- `by_box[box]`: the rows that the loop has appended to it.
unfoldable pub rows_in : Box → List DisposalRow → List DisposalRow
rows_in box rows = filter (λ r. box_eq (box_for r) box) rows

unfoldable pub subtotals : Box → List DisposalRow → BoxSubtotals
subtotals box box_rows = record {
  box = box;
  holding_period = holding box;
  total_proceeds = sum_from (pos 0) (map (λ r. r.proceeds_usd) box_rows);
  total_basis = sum_from (pos 0) (map (λ r. r.cost_basis_usd) box_rows);
  total_adjustment = sum_from (pos 0) (map (λ r. get_or r.adjustment_usd (pos 0)) box_rows);
  total_gain_loss_net = sum_from (pos 0) (map gain_loss_net box_rows);
  rows = box_rows;
}

abbrev pub all_boxes : List Box
all_boxes = box_a ∷ box_b ∷ box_c ∷ box_d ∷ box_e ∷ box_f ∷ []

-- `now` is what `datetime.utcnow()` reads.
unfoldable pub build_8949 : List DisposalRow → ℕ → ℕ → Bool → ℕ → Form8949Result
build_8949 rows entity_id tax_year is_draft now = record {
  entity_id = entity_id;
  tax_year = tax_year;
  boxes = map (λ box. subtotals box (rows_in box rows)) all_boxes;
  is_draft = is_draft;
  generated_at = now;
}
