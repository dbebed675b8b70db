-- ===== src/Lots/Dispose.antt =====
-- `_apply_dispose` and `_apply_gift_out` of domain/lots/engine.py.
pub mod Supply
pub mod Draws
pub mod Conservation
pub mod Gifts
pub mod RelatedParty
use lemon_ledger.Prelude.{
  ℕ, ℤ, pos, ◌==◌, is_some, get_or, ltb_ℤ, magnitude, if◌then◌else◌, Bool, true, false, ◌&&◌, none,
  some, List, [], ◌∷◌, find, ok, err, ◌>>=◌,
}
use lemon_ledger.Models.{
  Session, Try, insufficient_lots, ClassifiedTransaction, ClassificationKind, burn, TaxLot,
  LotDisposal, TransferResolution, disposal_related_party, no_1099_da, code_l,
  insufficient_lots_reason, missing_basis, insufficient, no_token_id_on_classified_tx, by_gift,
  set_lot, set_event, needs_review, add_disposal, add_relocation,
}
use mathlib.Core.Option.{Option}
use lemon_ledger.Decimal.{fix, sub_qty}
use lemon_ledger.Lots.Methods.{method_for}
use lemon_ledger.Lots.Consume.{ConsumptionSlice, consume}
use lemon_ledger.Lots.Lines.{DisposalLine, build_lines}
use lemon_ledger.Lots.Pools.{open_lots, resolve_basis_method}
use lemon_ledger.Lots.Acquire.{record_exception}

abbrev pub is_burn : ClassificationKind → Bool
is_burn burn = true
is_burn _ = false

abbrev pub is_related_party : Option TransferResolution → Bool
is_related_party (some disposal_related_party) = true
is_related_party _ = false

abbrev pub disposal_proceeds : ClassifiedTransaction → ℤ
disposal_proceeds event =
    if is_burn event.classification then pos 0 else get_or event.value_usd_at_event (pos 0)

-- `line.lot.quantity_remaining -= line.quantity_consumed`. Numbers stop at 0 where the column could
-- fall below it; a disposal that took more than its lot has would show in the disposals' sum.
unfoldable pub decrement : ℕ → TaxLot → TaxLot
decrement consumed lot = record lot { quantity_remaining = sub_qty lot.quantity_remaining consumed }

-- The loss that is disallowed between related parties.
unfoldable pub is_disallowed : ClassifiedTransaction → DisposalLine → Bool
is_disallowed event line =
    is_related_party event.transfer_resolution && ltb_ℤ line.gain_loss_usd (pos 0)

unfoldable pub disposal_of : ClassifiedTransaction → DisposalLine → LotDisposal
disposal_of event line = record {
  lot_id = line.lot.id;
  disposal_tx_id = event.id;
  quantity_consumed = line.quantity_consumed;
  proceeds_usd = line.proceeds_usd;
  basis_consumed_usd = line.basis_consumed_usd;
  gain_loss_usd = line.gain_loss_usd;
  holding_period = line.holding_period;
  asset_class = line.asset_class;
  selection_strategy = line.selection_strategy;
  selected_at = line.selected_at;
  disposed_at = event.occurred_at;
  covered_status = no_1099_da;
  adjustment_code = if is_disallowed event line then some code_l else none;
  adjustment_usd =
      if is_disallowed event line then some (fix (pos (magnitude line.gain_loss_usd))) else none;
}

unfoldable pub write_disposals : ClassifiedTransaction → List DisposalLine → Session → Session
write_disposals event [] s = s
write_disposals event (line ∷ lines) s = write_disposals event lines (
    add_disposal (disposal_of event line)
      (set_lot line.lot.id (decrement line.quantity_consumed) s))

-- The `try` around `consume`: an InsufficientLotsError becomes an exception row.
unfoldable pub or_record :
    Session
    → ClassifiedTransaction
    → Try (List ConsumptionSlice)
    → (List ConsumptionSlice → Try Session)
    → Try Session
or_record s event (ok slices) k = k slices
or_record s event (err (insufficient_lots quantity_unmatched)) k = ok (
    record_exception s event insufficient_lots_reason (insufficient event.classification)
      (some quantity_unmatched))
or_record s event (err e) k = err e

-- The lots that the event consumes, by the method of the entity.
unfoldable pub consumed : Session → ClassifiedTransaction → ℕ → Try (List ConsumptionSlice)
consumed s event token_id =
    consume (method_for (resolve_basis_method s event).0) (open_lots s event.wallet_id token_id)
      event.amount

-- `_apply_dispose` where the event has a token.
unfoldable pub dispose_token : Session → ClassifiedTransaction → ℕ → Try Session
dispose_token s event token_id = or_record s event (consumed s event token_id) (λ slices.
    build_lines s.runtime slices (disposal_proceeds event) event.occurred_at
      (resolve_basis_method s event).1
    >>= λ lines. ok (write_disposals event lines s))

unfoldable pub apply_dispose : Session → ClassifiedTransaction → Try Session
apply_dispose s event =
    if is_some (find (λ d. d.disposal_tx_id == event.id) s.disposals)
    then ok s
    else elim event.token_id [
      | none ↦ ok (record_exception s event missing_basis no_token_id_on_classified_tx none)
      | some token_id ↦ dispose_token s event token_id
    ]

-- The loop of `_apply_gift_out`; the row from the wallet to itself marks the event as applied.
unfoldable pub write_gifts : ClassifiedTransaction → List ConsumptionSlice → Session → Session
write_gifts event [] s = s
write_gifts event (slice ∷ slices) s = write_gifts event slices (
    add_relocation
      (record {
        lot_id = slice.lot.id;
        from_wallet_id = event.wallet_id;
        to_wallet_id = event.wallet_id;
        reason = by_gift;
        classified_tx_id = event.id;
        occurred_at = event.occurred_at;
      })
      (set_lot slice.lot.id (decrement slice.quantity_consumed) s))

unfoldable pub apply_gift_out : Session → ClassifiedTransaction → Try Session
apply_gift_out s event =
    if is_some (find (λ r. r.classified_tx_id == event.id) s.relocations)
    then ok s
    else elim event.token_id [
      | none ↦ ok (record_exception s event missing_basis no_token_id_on_classified_tx none)
      | some token_id ↦
          or_record s event (consumed s event token_id)
            (λ slices. ok (set_event event.id needs_review (write_gifts event slices s)))
    ]
