-- ===== src/Forms/Form8949/Totals.antt =====
-- On the totals of the boxes in domain/forms/form_8949.py.
use lemon_ledger.Prelude.{
  ℕ, ◌+◌, ◌≤◌, ◌<◌, ◌≡◌, arith, ℤ, pos, ◌+ℤ◌, magnitude, magnitude-add-le, int_laws, ap, ◌∙◌, sum_ℤ,
  List, [], ◌∷◌, map, filter, sum_of, Bool, if◌then◌else◌, refl,
}
use lemon_ledger.Decimal.{limit, add, sum_from}
use lemon_ledger.Decimal.Exact.{add_exact}
use lemon_ledger.Models.{
  HoldingPeriod, short, long, CoveredStatus, no_1099_da, covered_basis_reported,
  covered_basis_not_reported,
}
use lemon_ledger.Forms.ReadModel.{DisposalRow, gain_loss_net}
use lemon_ledger.Forms.Form8949.{
  Box, box_a, box_b, box_c, box_d, box_e, box_f, box_for, box_eq, all_boxes, rows_in, build_8949,
  subtotals, total_gain_loss_net,
}

pub sum_from_exact :
    {A : Type 0} (f : A → ℤ) (acc : ℤ) (xs : List A)
    → magnitude acc + sum_of (λ x. magnitude (f x)) xs < limit
    → sum_from acc (map f xs) ≡ acc +ℤ sum_ℤ f xs
unfolding sum_from
sum_from_exact f acc [] h = omega int_laws
sum_from_exact f acc (x ∷ xs) h =
    step (add acc (f x)) (add_exact acc (f x) (omega arith))
      (sum_from_exact f (acc +ℤ f x) xs (omega (arith, magnitude-add-le acc (f x))))
  where
    step :
        (a : ℤ)
        → a ≡ acc +ℤ f x
        → sum_from (acc +ℤ f x) (map f xs) ≡ (acc +ℤ f x) +ℤ sum_ℤ f xs
        → sum_from a (map f xs) ≡ acc +ℤ (f x +ℤ sum_ℤ f xs)
    step a e rest = rw (e, rest) (omega int_laws)

pub magnitude-sum_ℤ :
    {A : Type 0} (f : A → ℤ) (xs : List A)
    → magnitude (sum_ℤ f xs) ≤ sum_of (λ x. magnitude (f x)) xs
magnitude-sum_ℤ f [] = omega arith
magnitude-sum_ℤ f (x ∷ xs) =
    omega (arith, magnitude-add-le (f x) (sum_ℤ f xs), magnitude-sum_ℤ f xs)

-- The same over the boxes, of numbers and of integers.
abbrev pub over_boxes : (Box → ℕ) → ℕ
over_boxes f = f box_a + (f box_b + (f box_c + (f box_d + (f box_e + f box_f))))

pub rows_in-sum_of :
    (g : DisposalRow → ℕ) (rows : List DisposalRow)
    → over_boxes (λ box. sum_of g (rows_in box rows)) ≡ sum_of g rows
unfolding rows_in box_for
rows_in-sum_of g [] = refl
rows_in-sum_of g (row ∷ rows) = go row.holding_period row.covered_status (rows_in-sum_of g rows)
  where
    go :
        (h : HoldingPeriod) (c : CoveredStatus)
        → over_boxes (λ box. sum_of g (filter (λ r. box_eq (box_for r) box) rows)) ≡ sum_of g rows
        → over_boxes (λ box. sum_of g (
            if box_eq (box_for (record row { holding_period = h; covered_status = c })) box
            then row ∷ filter (λ r. box_eq (box_for r) box) rows
            else filter (λ r. box_eq (box_for r) box) rows))
          ≡ g row + sum_of g rows
    go short covered_basis_reported ih = omega arith
    go short covered_basis_not_reported ih = omega arith
    go short no_1099_da ih = omega arith
    go long covered_basis_reported ih = omega arith
    go long covered_basis_not_reported ih = omega arith
    go long no_1099_da ih = omega arith

abbrev pub net_over_boxes : (Box → ℤ) → ℤ
net_over_boxes f = f box_a +ℤ (f box_b +ℤ (f box_c +ℤ (f box_d +ℤ (f box_e +ℤ f box_f))))

pub left_comm : (a b c : ℤ) → a +ℤ (b +ℤ c) ≡ b +ℤ (a +ℤ c)
left_comm a b c = omega int_laws

pub +ℤ_assoc : (a b c : ℤ) → (a +ℤ b) +ℤ c ≡ a +ℤ (b +ℤ c)
+ℤ_assoc a b c = omega int_laws

-- One more in the rest of a sum is one more in the sum.
pub push : (x a r q : ℤ) → q ≡ x +ℤ r → a +ℤ q ≡ x +ℤ (a +ℤ r)
push x a r q e = ap (λ z. a +ℤ z) e ∙ left_comm a x r

abbrev rest : (DisposalRow → ℤ) → List DisposalRow → Box → ℤ
rest g rows box = sum_ℤ g (filter (λ r. box_eq (box_for r) box) rows)

rows_in-sum_ℤ :
    (g : DisposalRow → ℤ) (rows : List DisposalRow)
    → net_over_boxes (λ box. sum_ℤ g (rows_in box rows)) ≡ sum_ℤ g rows
unfolding rows_in box_for ◌+ℤ◌
rows_in-sum_ℤ g [] = refl
rows_in-sum_ℤ g (row ∷ rows) =
    go row.holding_period row.covered_status ∙ ap (λ z. g row +ℤ z) (rows_in-sum_ℤ g rows)
  where
    go :
        (h : HoldingPeriod) (c : CoveredStatus)
        → net_over_boxes (λ box. sum_ℤ g (
            if box_eq (box_for (record row { holding_period = h; covered_status = c })) box
            then row ∷ filter (λ r. box_eq (box_for r) box) rows
            else filter (λ r. box_eq (box_for r) box) rows))
          ≡ g row +ℤ net_over_boxes (rest g rows)
    go short covered_basis_reported = +ℤ_assoc (g row) (rest g rows box_a) _
    go short covered_basis_not_reported =
        push (g row) _ _ _ (+ℤ_assoc (g row) (rest g rows box_b) _)
    go short no_1099_da =
        push (g row) _ _ _ (push (g row) _ _ _ (+ℤ_assoc (g row) (rest g rows box_c) _))
    go long covered_basis_reported =
        push (g row) _ _ _
          (push (g row) _ _ _ (push (g row) _ _ _ (+ℤ_assoc (g row) (rest g rows box_d) _)))
    go long covered_basis_not_reported = push (g row) _ _ _ (
        push (g row) _ _ _
          (push (g row) _ _ _ (push (g row) _ _ _ (+ℤ_assoc (g row) (rest g rows box_e) _))))
    go long no_1099_da =
        push (g row) _ _ _
          (push (g row) _ _ _ (push (g row) _ _ _ (push (g row) _ _ _ (push (g row) _ _ _ refl))))

-- The net of the rows of a box is exact, if that of all rows in magnitude is.
abbrev pub gross : List DisposalRow → ℕ
gross rows = sum_of (λ r. magnitude (gain_loss_net r)) rows

box_net-exact :
    (box : Box) (rows : List DisposalRow)
    → gross (rows_in box rows) < limit
    → (subtotals box (rows_in box rows)).total_gain_loss_net
      ≡ sum_ℤ gain_loss_net (rows_in box rows)
unfolding subtotals
box_net-exact box rows h =
    sum_from_exact gain_loss_net (pos 0) (rows_in box rows) (omega arith) ∙ omega int_laws

-- The nets of the six boxes, exact and bounded.
abbrev pub box_sum : List DisposalRow → Box → ℤ
box_sum rows box = sum_ℤ gain_loss_net (rows_in box rows)

abbrev pub box_total : List DisposalRow → Box → ℤ
box_total rows box = (subtotals box (rows_in box rows)).total_gain_loss_net

pub gross-rows_in : (box : Box) (rows : List DisposalRow) → gross (rows_in box rows) ≤ gross rows
gross-rows_in box rows = go box (rows_in-sum_of (λ r. magnitude (gain_loss_net r)) rows)
  where
    go :
        (box : Box)
        → over_boxes (λ box. gross (rows_in box rows)) ≡ gross rows
        → gross (rows_in box rows) ≤ gross rows
    go box_a h = omega arith
    go box_b h = omega arith
    go box_c h = omega arith
    go box_d h = omega arith
    go box_e h = omega arith
    go box_f h = omega arith

module _ (rows : List DisposalRow) (small : gross rows < limit) where
  pub box_total-exact : (box : Box) → box_total rows box ≡ box_sum rows box
  box_total-exact box = box_net-exact box rows (omega (arith, gross-rows_in box rows))

  pub box_total-le : (box : Box) → magnitude (box_total rows box) ≤ gross (rows_in box rows)
  box_total-le box = rw (box_total-exact box) (magnitude-sum_ℤ gain_loss_net (rows_in box rows))

  -- The nets of all boxes, in magnitude.
  pub boxes-small : over_boxes (λ box. magnitude (box_total rows box)) < limit
  boxes-small = omega (
    arith,
    box_total-le box_a,
    box_total-le box_b,
    box_total-le box_c,
    box_total-le box_d,
    box_total-le box_e,
    box_total-le box_f,
    rows_in-sum_of (λ r. magnitude (gain_loss_net r)) rows,
  )

  pub boxes-net : net_over_boxes (box_total rows) ≡ sum_ℤ gain_loss_net rows
  boxes-net =
      (λ i. net_over_boxes (λ box. box_total-exact box i)) ∙ rows_in-sum_ℤ gain_loss_net rows

pub zero-add : (x : ℤ) → pos 0 +ℤ x ≡ x
zero-add x = omega int_laws

pub add-zero : (x : ℤ) → x +ℤ pos 0 ≡ x
add-zero x = omega int_laws

-- If the gains of the rows have fewer than 29 digits in sum of their magnitudes, the total of
-- Form 8949 is the exact sum of the gains of all its rows.
pub build_8949-total :
    (rows : List DisposalRow) (entity_id tax_year : ℕ) (is_draft : Bool) (now : ℕ)
    → gross rows < limit
    → total_gain_loss_net (build_8949 rows entity_id tax_year is_draft now)
      ≡ sum_ℤ gain_loss_net rows
unfolding total_gain_loss_net build_8949
build_8949-total rows entity_id tax_year is_draft now small =
    sum_from_exact (box_total rows) (pos 0) all_boxes (omega (arith, boxes-small rows small))
    ∙ zero-add _
    ∙ rw (add-zero (box_total rows box_f)) (boxes-net rows small)
