-- ===== src/Forms/Reconcile.antt =====
-- domain/forms/reconcile.py: the comparison of the forms with figures computed by hand.
use lemon_ledger.Prelude.{
  ℕ, ℤ, pos, ◌*◌, ◌^◌, leb, magnitude, if◌then◌else◌, Bool, true, false, ◌&&◌, not, Option, none,
  some, String, List, [], ◌∷◌, ◌++◌, find, length,
}
use lemon_ledger.Models.{Session}
use lemon_ledger.Decimal.{sub}
use lemon_ledger.Forms.ReadModel.{fetch_disposal_rows, fetch_reward_income}
use lemon_ledger.Forms.Form8949.{Box, box_eq, BoxSubtotals, Form8949Result, build_8949}
use lemon_ledger.Forms.ScheduleD.{
  ScheduleDResult, Schedule1Result, build_schedule_d, build_schedule_1,
}
use lemon_ledger.Forms.Gate.{check_gate}

pub record BoxExpected : Type 0 where
  pub box : Box
  pub rows : ℕ
  pub proceeds : ℤ
  pub basis : ℤ
  pub gain_loss_net : ℤ

-- `boxes` is a dict: its values in insertion order, each with its key in `box`. The text
-- `description` is left out.
pub record FixtureExpected : Type 0 where
  pub fixture_id : String
  pub boxes : List BoxExpected
  pub short_term_net : ℤ
  pub long_term_net : ℤ
  pub total_net : ℤ
  pub line_8z : ℤ
  pub gate_held : Bool

-- The names "box_C_rows" and so on.
pub data Figure : Type 0 where
  box_rows box_proceeds box_basis box_gain_loss_net : Box → Figure
  short_term_net_figure long_term_net_figure total_net_figure line_8z_figure : Figure

pub record FigureDiff : Type 0 where
  pub name : Figure
  pub expected : ℤ
  pub actual : ℤ

-- Five dollars, or five rows.
abbrev pub tolerance : ℕ
tolerance = 5 * 10 ^ 18

unfoldable pub delta : FigureDiff → ℕ
delta d = magnitude (sub d.actual d.expected)

unfoldable pub within_tolerance : FigureDiff → Bool
within_tolerance d = leb (delta d) tolerance

pub record ReconcileResult : Type 0 where
  pub fixture_id : String
  pub gate_verdict : Bool
  pub diffs : List FigureDiff

abbrev pub all_within : List FigureDiff → Bool
all_within [] = true
all_within (d ∷ ds) = within_tolerance d && all_within ds

unfoldable pub passed : ReconcileResult → Bool
passed result = result.gate_verdict && all_within result.diffs

-- `Decimal(n)` for a count.
abbrev pub count_figure : ℕ → ℤ
count_figure n = pos (n * 10 ^ 18)

-- The four figures of a box.
abbrev pub box_diffs : BoxExpected → ℕ → ℤ → ℤ → ℤ → List FigureDiff
box_diffs e rows proceeds basis gl =
    record { name = box_rows e.box; expected = count_figure e.rows; actual = count_figure rows }
    ∷ record { name = box_proceeds e.box; expected = e.proceeds; actual = proceeds }
    ∷ record { name = box_basis e.box; expected = e.basis; actual = basis }
    ∷ record { name = box_gain_loss_net e.box; expected = e.gain_loss_net; actual = gl }
    ∷ []

-- `form.boxes.get(box_id)`
abbrev pub get_box : Form8949Result → Box → Option BoxSubtotals
get_box form box = find (λ b. box_eq b.box box) form.boxes

unfoldable pub diffs_of_box : Form8949Result → BoxExpected → List FigureDiff
diffs_of_box form e = elim (get_box form e.box) [
  | none ↦ box_diffs e 0 (pos 0) (pos 0) (pos 0)
  | some b ↦ box_diffs e (length b.rows) b.total_proceeds b.total_basis b.total_gain_loss_net
]

unfoldable pub diffs_of_boxes : Form8949Result → List BoxExpected → List FigureDiff
diffs_of_boxes form [] = []
diffs_of_boxes form (e ∷ es) = diffs_of_box form e ++ diffs_of_boxes form es

unfoldable pub total_diffs : FixtureExpected → ScheduleDResult → Schedule1Result → List FigureDiff
total_diffs expected sched_d sched_1 =
    record {
      name = short_term_net_figure;
      expected = expected.short_term_net;
      actual = sched_d.short_term_net;
    }
    ∷ record {
      name = long_term_net_figure;
      expected = expected.long_term_net;
      actual = sched_d.long_term_net;
    }
    ∷ record { name = total_net_figure; expected = expected.total_net; actual = sched_d.total_net }
    ∷ record { name = line_8z_figure; expected = expected.line_8z; actual = sched_1.line_8z_income }
    ∷ []

-- The figures of an entity's year, once the gate lets them be computed.
unfoldable pub figures : Session → ℕ → ℕ → FixtureExpected → Bool → List FigureDiff
figures s entity_id tax_year expected is_draft =
    let form =
      build_8949 (fetch_disposal_rows s entity_id tax_year) entity_id tax_year is_draft
        s.runtime.now in
    let sched_1 =
      build_schedule_1 (fetch_reward_income s entity_id tax_year) is_draft none s.runtime.now in
    diffs_of_boxes form expected.boxes ++ total_diffs expected (build_schedule_d form) sched_1

unfoldable pub run_reconcile : Session → ℕ → ℕ → FixtureExpected → Bool → ReconcileResult
run_reconcile s entity_id tax_year expected is_draft =
    let gate = check_gate s entity_id tax_year in
    if expected.gate_held
    then record { fixture_id = expected.fixture_id; gate_verdict = gate.is_held; diffs = [] }
    else if gate.is_held && not is_draft
    then record { fixture_id = expected.fixture_id; gate_verdict = false; diffs = [] }
    else record {
      fixture_id = expected.fixture_id;
      gate_verdict = true;
      diffs = figures s entity_id tax_year expected (gate.is_held && is_draft);
    }
