-- ===== src/Forms/ScheduleD/Totals.antt =====
-- On Schedule D, Form 8949 and the rows of the year.
use lemon_ledger.Prelude.{
  ℕ, ◌+◌, ◌<◌, ◌≡◌, refl, sym, ap, ◌∙◌, arith, ℤ, pos, ◌+ℤ◌, magnitude, magnitude-add-le, sum_ℤ,
  List, [], ◌∷◌, Bool,
}
use lemon_ledger.Decimal.{limit, add, sum_from}
use lemon_ledger.Decimal.Exact.{add_exact}
use lemon_ledger.Forms.ReadModel.{DisposalRow, gain_loss_net}
use lemon_ledger.Forms.Form8949.{
  box_a, box_b, box_c, box_d, box_e, box_f, build_8949, subtotals, short_term_net, long_term_net,
  total_gain_loss_net,
}
use lemon_ledger.Forms.Form8949.Totals.{
  sum_from_exact, gross, box_total, boxes-small, zero-add, add-zero, +ℤ_assoc, boxes-net,
  build_8949-total,
}
use lemon_ledger.Forms.ScheduleD.{build_schedule_d}

module _ (rows : List DisposalRow) (small : gross rows < limit) (entity_id tax_year : ℕ)
    (is_draft : Bool) (now : ℕ) where
  abbrev net : ℤ × ℤ
  net = (
    box_total rows box_a +ℤ (box_total rows box_b +ℤ box_total rows box_c),
    box_total rows box_d +ℤ (box_total rows box_e +ℤ box_total rows box_f),
  )

  short_net : short_term_net (build_8949 rows entity_id tax_year is_draft now) ≡ net.0
  unfolding short_term_net build_8949 subtotals sum_from
  short_net =
      sum_from_exact (box_total rows) (pos 0) (box_a ∷ box_b ∷ box_c ∷ [])
        (omega (arith, boxes-small rows small))
      ∙ zero-add _
      ∙ rw (add-zero (box_total rows box_c)) refl

  long_net : long_term_net (build_8949 rows entity_id tax_year is_draft now) ≡ net.1
  unfolding long_term_net build_8949 subtotals sum_from
  long_net =
      sum_from_exact (box_total rows) (pos 0) (box_d ∷ box_e ∷ box_f ∷ [])
        (omega (arith, boxes-small rows small))
      ∙ zero-add _
      ∙ rw (add-zero (box_total rows box_f)) refl

  net_small : magnitude net.0 + magnitude net.1 < limit
  net_small = omega (
    arith,
    boxes-small rows small,
    magnitude-add-le (box_total rows box_a) (box_total rows box_b +ℤ box_total rows box_c),
    magnitude-add-le (box_total rows box_b) (box_total rows box_c),
    magnitude-add-le (box_total rows box_d) (box_total rows box_e +ℤ box_total rows box_f),
    magnitude-add-le (box_total rows box_e) (box_total rows box_f),
  )

  net_total : net.0 +ℤ net.1 ≡ sum_ℤ gain_loss_net rows
  net_total =
      +ℤ_assoc _ _ _ ∙ ap (λ z. box_total rows box_a +ℤ z) (+ℤ_assoc _ _ _) ∙ boxes-net rows small

-- If the gains of the rows have fewer than 29 digits in sum of their magnitudes, Schedule D does
-- not drift from Form 8949: its total is the exact sum of its two parts, which is the exact sum of
-- the gains of all rows, which is the total of Form 8949.
pub build_schedule_d-total :
    (rows : List DisposalRow)
    → gross rows < limit
    → (entity_id tax_year : ℕ) (is_draft : Bool) (now : ℕ)
    → let form = build_8949 rows entity_id tax_year is_draft now in
      ((build_schedule_d form).total_net
        ≡ (build_schedule_d form).short_term_net +ℤ (build_schedule_d form).long_term_net)
      × ((build_schedule_d form).total_net ≡ sum_ℤ gain_loss_net rows)
      × ((build_schedule_d form).total_net ≡ total_gain_loss_net form)
unfolding build_schedule_d
build_schedule_d-total rows small k y d now = (
  rw (short_net rows small k y d now, long_net rows small k y d now) exact,
  total,
  total ∙ sym (build_8949-total rows k y d now small),
)
  where
    exact :
        add (net rows small k y d now).0 (net rows small k y d now).1
        ≡ (net rows small k y d now).0 +ℤ (net rows small k y d now).1
    exact = add_exact _ _ (net_small rows small k y d now)

    total : (build_schedule_d (build_8949 rows k y d now)).total_net ≡ sum_ℤ gain_loss_net rows
    total =
        rw (short_net rows small k y d now, long_net rows small k y d now)
          (exact ∙ net_total rows small k y d now)
