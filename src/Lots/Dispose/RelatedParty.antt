-- ===== src/Lots/Dispose/RelatedParty.antt =====
-- On the adjustment for related parties in `_apply_dispose` of domain/lots/engine.py, and the forms.
use lemon_ledger.Prelude.{
  ℕ, ◌+◌, ◌*◌, ◌<◌, ◌≡◌, ap, ◌∙◌, arith, ℤ, pos, ◌+ℤ◌, ◌-ℤ◌, ltb_ℤ, magnitude, magnitude-sub-le,
  int_laws, Bool, Bool-cases, true, false, ◌&&◌, if◌then◌else◌, inl, inr, get_or, some, none,
}
use lemon_ledger.Models.{Runtime, ClassifiedTransaction, TaxLot, TokenRegistry, SelectionStrategy}
use lemon_ledger.Decimal.{limit, add, fix}
use lemon_ledger.Decimal.Exact.{add_exact, sub_exact, fix_exact}
use lemon_ledger.Lots.Consume.{ConsumptionSlice}
use lemon_ledger.Lots.Lines.{DisposalLine, line_of}
use lemon_ledger.Lots.Dispose.{disposal_of, is_disallowed, is_related_party}
use lemon_ledger.Forms.ReadModel.{disposal_row, gain_loss_net}

cancel : (x : ℤ) → ltb_ℤ x (pos 0) ≡ true → x +ℤ pos (magnitude x) ≡ pos 0
unfolding ◌+ℤ◌
cancel x h = ground arith

zero : (x : ℤ) → x +ℤ pos 0 ≡ x
zero x = omega int_laws

abbrev net : Bool → ℤ → ℤ
net related gain = add gain (
    get_or (if related && ltb_ℤ gain (pos 0) then some (fix (pos (magnitude gain))) else none)
      (pos 0))

-- Exact, a loss between related parties being cancelled.
net-exact :
    (related : Bool) (gain : ℤ)
    → magnitude gain + magnitude gain < limit
    → net related gain ≡ (if related && ltb_ℤ gain (pos 0) then pos 0 else gain)
net-exact false gain h = add_exact gain (pos 0) (omega arith) ∙ zero gain
net-exact true gain h = elim (Bool-cases (ltb_ℤ gain (pos 0))) [
  | inl loss ↦
      rw (loss, fix_exact (pos (magnitude gain)) (omega arith))
        (add_exact gain (pos (magnitude gain)) (omega arith) ∙ cancel gain loss)
  | inr gained ↦ rw gained (add_exact gain (pos 0) (omega arith) ∙ zero gain)
]

-- What the row of a disposal adds to the forms.
abbrev pub reported : ClassifiedTransaction → DisposalLine → TaxLot → TokenRegistry → ℤ
reported event line lot token = gain_loss_net (disposal_row (disposal_of event line) lot token)

-- Let twice the proceeds and twice the basis of a line have fewer than 29 digits in sum. Its row
-- adds to the forms the exact difference of the two, but nothing if that is a loss and the sender
-- and the receiver are related.
pub disposal_of-reported :
    (event : ClassifiedTransaction) (runtime : Runtime) (p : ℤ) (at : ℕ)
    (strategy : SelectionStrategy) (total : ℕ) (s : ConsumptionSlice) (x : ℤ) (lot : TaxLot)
    (token : TokenRegistry)
    → 2 * (magnitude x + magnitude s.basis_consumed_usd) < limit
    → reported event (line_of runtime p at strategy total s x) lot token ≡ (
        if is_related_party event.transfer_resolution && ltb_ℤ (x -ℤ s.basis_consumed_usd) (pos 0)
        then pos 0
        else x -ℤ s.basis_consumed_usd)
unfolding gain_loss_net disposal_row disposal_of is_disallowed line_of
disposal_of-reported event runtime p at strategy total s x lot token small =
    ap (net (is_related_party event.transfer_resolution))
      (sub_exact x s.basis_consumed_usd (omega arith))
    ∙ net-exact (is_related_party event.transfer_resolution) (x -ℤ s.basis_consumed_usd)
        (omega (arith, magnitude-sub-le x s.basis_consumed_usd))
