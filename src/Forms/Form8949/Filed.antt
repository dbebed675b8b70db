-- ===== src/Forms/Form8949/Filed.antt =====
-- On the boxes that domain/forms/form_8949.py files the rows in.
use lemon_ledger.Prelude.{
  ℕ, ◌≡◌, refl, arith, Bool, Bool-cases, true, inl, inr, List, [], ◌∷◌, map, sum_of, All, All-map,
  subst,
}
use lemon_ledger.Models.{
  HoldingPeriod, short, long, CoveredStatus, no_1099_da, covered_basis_reported,
  covered_basis_not_reported,
}
use lemon_ledger.Forms.ReadModel.{DisposalRow}
use lemon_ledger.Forms.Form8949.{
  Box, box_a, box_b, box_c, box_d, box_e, box_f, box_for, box_eq, rows_in, subtotals, build_8949,
  BoxSubtotals, all_boxes, holding,
}
use lemon_ledger.Forms.Form8949.Totals.{rows_in-sum_of}

-- The form: part I is short-term, part II long-term, and in each part the boxes are for rows with
-- a 1099 that reports the basis, for rows with a 1099 that does not, and for rows without.
pub data IsFiledIn : HoldingPeriod → CoveredStatus → Box → Type 0 where
  part_1_a : IsFiledIn short covered_basis_reported box_a
  part_1_b : IsFiledIn short covered_basis_not_reported box_b
  part_1_c : IsFiledIn short no_1099_da box_c
  part_2_d : IsFiledIn long covered_basis_reported box_d
  part_2_e : IsFiledIn long covered_basis_not_reported box_e
  part_2_f : IsFiledIn long no_1099_da box_f

abbrev pub IsFiled : Box → DisposalRow → Type 0
IsFiled box row = IsFiledIn row.holding_period row.covered_status box

box_for-IsFiled : (row : DisposalRow) → IsFiled (box_for row) row
unfolding box_for
box_for-IsFiled row = go row.holding_period row.covered_status
  where
    go :
        (h : HoldingPeriod) (c : CoveredStatus)
        → IsFiledIn h c (box_for (record row { holding_period = h; covered_status = c }))
    go short covered_basis_reported = part_1_a
    go short covered_basis_not_reported = part_1_b
    go short no_1099_da = part_1_c
    go long covered_basis_reported = part_2_d
    go long covered_basis_not_reported = part_2_e
    go long no_1099_da = part_2_f

box_eq→≡ : (a b : Box) → box_eq a b ≡ true → a ≡ b
box_eq→≡ a b h = ground arith

rows_in-IsFiled : (box : Box) (rows : List DisposalRow) → All (IsFiled box) (rows_in box rows)
unfolding rows_in
rows_in-IsFiled box [] = tt
rows_in-IsFiled box (row ∷ rows) = elim (Bool-cases (box_eq (box_for row) box)) [
  | inl fit ↦ rw fit (
    subst (λ b. IsFiled b row) (box_eq→≡ (box_for row) box fit) (box_for-IsFiled row),
    rows_in-IsFiled box rows,
  )
  | inr unfit ↦ rw unfit (rows_in-IsFiled box rows)
]

-- A box of the form has only rows of its part and its column, and says its part.
abbrev pub IsProper : BoxSubtotals → Type 0
IsProper b = All (λ row. IsFiled b.box row × (b.holding_period ≡ row.holding_period)) b.rows

period_of : {h : HoldingPeriod} {c : CoveredStatus} {b : Box} → IsFiledIn h c b → holding b ≡ h
period_of part_1_a = refl
period_of part_1_b = refl
period_of part_1_c = refl
period_of part_2_d = refl
period_of part_2_e = refl
period_of part_2_f = refl

subtotals-IsProper :
    (box : Box) (rows : List DisposalRow) → IsProper (subtotals box (rows_in box rows))
unfolding subtotals
subtotals-IsProper box rows =
    All-map (IsFiled box) (λ row. IsFiled box row × (holding box ≡ row.holding_period))
      (λ row h. (h, period_of h)) (rows_in box rows) (rows_in-IsFiled box rows)

-- Form 8949 files every row once and in its place: the rows of each box are those of its part,
-- short-term or long-term, and of its kind of 1099, the box says the part of its rows, and whatever
-- is counted, over all boxes together there is exactly as much of it as over the given rows.
pub build_8949-IsFiled :
    (rows : List DisposalRow) (entity_id tax_year : ℕ) (is_draft : Bool) (now : ℕ)
    → All IsProper (build_8949 rows entity_id tax_year is_draft now).boxes
      × ((count : DisposalRow → ℕ)
          → sum_of
              (λ b. sum_of count b.rows)
              (build_8949 rows entity_id tax_year is_draft now).boxes
            ≡ sum_of count rows)
unfolding build_8949 subtotals
build_8949-IsFiled rows entity_id tax_year is_draft now = (
  (
    subtotals-IsProper box_a rows,
    (
      subtotals-IsProper box_b rows,
      (
        subtotals-IsProper box_c rows,
        (
          subtotals-IsProper box_d rows,
          (subtotals-IsProper box_e rows, (subtotals-IsProper box_f rows, tt)),
        ),
      ),
    ),
  ),
  λ count. counted count,
)
  where
    counted :
        (count : DisposalRow → ℕ)
        → sum_of
            (λ b. sum_of count b.rows)
            (map (λ box. subtotals box (rows_in box rows)) all_boxes)
          ≡ sum_of count rows
    counted count = omega (arith, rows_in-sum_of count rows)
