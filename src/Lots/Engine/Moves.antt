-- ===== src/Lots/Engine/Moves.antt =====
-- On the gifts and the relocations of domain/lots/engine.py, and the rows of tax_lots.
use lemon_ledger.Prelude.{
  ℕ, ◌≡◌, refl, arith, Bool, true, false, Option, none, some, List, [], ◌∷◌, ok, err, ◌>>=◌,
}
use lemon_ledger.Models.{
  Session, Try, ClassifiedTransaction, LotRelocation, RelocationReason, AcquisitionType, TaxLot,
  set_event, needs_review, missing_basis, no_token_id_on_classified_tx, RelocationPath,
  missing_relocation_source, outflow_event_not_found, get_event,
}
use lemon_ledger.Lots.Methods.{fifo_order}
use lemon_ledger.Lots.Pools.{resolve_entity_for_wallet, open_lots}
use lemon_ledger.Lots.Consume.{ConsumptionSlice, consume}
use lemon_ledger.Lots.Acquire.{record_exception}
use lemon_ledger.Lots.Dispose.{decrement, or_record, write_gifts, apply_gift_out, consumed}
use lemon_ledger.Lots.Relocate.{
  move_lot, write_relocations, apply_relocation, with_outflow, finish_relocation, retype, flag_gift,
  relocation_acq_type, is_relocated_gift, set_acquisition_types, apply_bridge_relocation,
  apply_cross_entity_relocation,
}
use lemon_ledger.Lots.Engine.Ledger.{IsLedger, Lessens, set_lot-IsLedger, decrement-Lessens}
use lemon_ledger.Lots.Engine.Keeps.{
  Keeps, add_relocation-IsLedger, record_exception-IsLedger, set_event-IsLedger, or_record-Keeps,
  Keeps-bind, Keeps-if,
}

pub move_lot-Lessens : (w : ℕ) (e : Option ℕ) (lot : TaxLot) → Lessens (move_lot w e) lot
unfolding move_lot
move_lot-Lessens w none lot = record { same_id = refl; same_quantity = refl; no_more = omega arith }
move_lot-Lessens w (some e) lot = record {
  same_id = refl;
  same_quantity = refl;
  no_more = omega arith;
}

pub decrement-id : (c : ℕ) (lot : TaxLot) → (decrement c lot).id ≡ lot.id
unfolding decrement
decrement-id c lot = refl

pub write_gifts-IsLedger :
    (event : ClassifiedTransaction) (slices : List ConsumptionSlice) (s : Session)
    → IsLedger s
    → IsLedger (write_gifts event slices s)
unfolding write_gifts
write_gifts-IsLedger event [] s h = h
write_gifts-IsLedger event (slice ∷ slices) s h = write_gifts-IsLedger event slices _ (
    add_relocation-IsLedger _
      (set_lot-IsLedger slice.lot.id (decrement slice.quantity_consumed) s
        (decrement-id slice.quantity_consumed) (decrement-Lessens slice.quantity_consumed) h)
      _)

pub write_relocations-IsLedger :
    (event : ClassifiedTransaction) (from_wallet to_wallet : ℕ) (reason : RelocationReason)
    (dest : Option ℕ) (slices : List ConsumptionSlice) (s : Session)
    → IsLedger s
    → IsLedger (write_relocations event from_wallet to_wallet reason dest slices s)
unfolding write_relocations
write_relocations-IsLedger event from_wallet to_wallet reason dest [] s h = h
write_relocations-IsLedger event from_wallet to_wallet reason dest (slice ∷ slices) s h =
    write_relocations-IsLedger event from_wallet to_wallet reason dest slices _ (
      add_relocation-IsLedger _
        (set_lot-IsLedger slice.lot.id (move_lot to_wallet dest) s
          (λ l. (move_lot-Lessens to_wallet dest l).same_id)
          (λ l small. move_lot-Lessens to_wallet dest l) h)
        _)

pub set_acquisition_types-IsLedger :
    (t : AcquisitionType) (rs : List LotRelocation) (s : Session)
    → IsLedger s
    → IsLedger (set_acquisition_types t rs s)
unfolding set_acquisition_types
set_acquisition_types-IsLedger t [] s h = h
set_acquisition_types-IsLedger t (r ∷ rs) s h = set_acquisition_types-IsLedger t rs _ (
    set_lot-IsLedger r.lot_id (λ lot. record lot { acquisition_type = t }) s (λ l. refl)
      (λ l small. record { same_id = refl; same_quantity = refl; no_more = omega arith }) h)

pub apply_gift_out-Keeps :
    (s : Session) (event : ClassifiedTransaction) → IsLedger s → Keeps (apply_gift_out s event)
unfolding apply_gift_out
apply_gift_out-Keeps s event h = Keeps-if _ (ok s) _ h (go event.token_id)
  where
    go :
        (token : Option ℕ)
        → Keeps (elim token [
          | none ↦ ok (record_exception s event missing_basis no_token_id_on_classified_tx none)
          | some token_id ↦
              or_record s event
                (consumed s event token_id)
                (λ slices. ok (set_event event.id needs_review (write_gifts event slices s)))
        ])
    go none = record_exception-IsLedger s h event _ _ _
    go (some token_id) = or_record-Keeps s event (consumed s event token_id) _ h λ slices _.
        set_event-IsLedger _ (write_gifts-IsLedger event slices s h) event.id needs_review

pub apply_relocation-Keeps :
    (event : ClassifiedTransaction) (from_wallet to_wallet : ℕ) (reason : RelocationReason)
    (s : Session)
    → IsLedger s
    → Keeps (apply_relocation event from_wallet to_wallet reason s)
unfolding apply_relocation
apply_relocation-Keeps event from_wallet to_wallet reason s h = go event.token_id
  where
    go :
        (token : Option ℕ)
        → Keeps (elim token [
          | none ↦ ok s
          | some token_id ↦
              consume fifo_order (open_lots s from_wallet token_id) event.amount >>= λ slices. ok (
                write_relocations event from_wallet to_wallet reason
                  (resolve_entity_for_wallet s to_wallet event.occurred_at)
                  slices
                  s)
        ])
    go none = h
    go (some token_id) =
        Keeps-bind (consume _ _ _) _
          λ slices. write_relocations-IsLedger event from_wallet to_wallet reason _ slices s h

pub with_outflow-Keeps :
    (path : RelocationPath) (s : Session) (event : ClassifiedTransaction)
    (move : ClassifiedTransaction → Try Session)
    → IsLedger s
    → ((out : ClassifiedTransaction) → Keeps (move out))
    → Keeps (with_outflow path s event move)
unfolding with_outflow
with_outflow-Keeps path s event move h k =
    Keeps-if _ (ok s) _ h (go event.relocation_source_event_id)
  where
    found :
        (k : ℕ) (o : Option ClassifiedTransaction)
        → Keeps (elim o [
          | none ↦ ok (record_exception s event missing_basis (outflow_event_not_found path k) none)
          | some outflow_event ↦ move outflow_event
        ])
    found j none = record_exception-IsLedger s h event _ _ _
    found j (some out) = k out

    go :
        (source : Option ℕ)
        → Keeps (elim source [
          | none ↦ ok (record_exception s event missing_basis (missing_relocation_source path) none)
          | some source_event_id ↦ elim (get_event s source_event_id) [
            | none ↦ ok (
                record_exception s event missing_basis
                  (outflow_event_not_found path source_event_id)
                  none)
            | some outflow_event ↦ move outflow_event
          ]
        ])
    go none = record_exception-IsLedger s h event _ _ _
    go (some j) = found j (get_event s j)

pub retype-IsLedger :
    (t : Option AcquisitionType) (event : ClassifiedTransaction) (s : Session)
    → IsLedger s
    → IsLedger (retype t event s)
unfolding retype
retype-IsLedger none event s h = h
retype-IsLedger (some t) event s h = set_acquisition_types-IsLedger t _ s h

pub flag_gift-IsLedger :
    (b : Bool) (event : ClassifiedTransaction) (s : Session)
    → IsLedger s
    → IsLedger (flag_gift b event s)
unfolding flag_gift
flag_gift-IsLedger true event s h = set_event-IsLedger s h event.id needs_review
flag_gift-IsLedger false event s h = h

pub apply_cross_entity_relocation-Keeps :
    (s : Session) (event : ClassifiedTransaction)
    → IsLedger s
    → Keeps (apply_cross_entity_relocation s event)
unfolding apply_cross_entity_relocation finish_relocation
apply_cross_entity_relocation-Keeps s event h = with_outflow-Keeps _ s event _ h λ out.
    finish (apply_relocation event out.wallet_id event.wallet_id _ s)
      (apply_relocation-Keeps event out.wallet_id event.wallet_id _ s h)
  where
    finish :
        (m : Try Session)
        → Keeps m
        → Keeps (
            m >>= λ moved. ok (
              flag_gift
                (is_relocated_gift event.transfer_resolution)
                event
                (retype (relocation_acq_type event.transfer_resolution) event moved)))
    finish (ok moved) k = flag_gift-IsLedger _ event _ (retype-IsLedger _ event moved k)
    finish (err e) k = tt

pub apply_bridge_relocation-Keeps :
    (s : Session) (event : ClassifiedTransaction)
    → IsLedger s
    → Keeps (apply_bridge_relocation s event)
unfolding apply_bridge_relocation
apply_bridge_relocation-Keeps s event h =
    with_outflow-Keeps _ s event _ h
      λ out. apply_relocation-Keeps event out.wallet_id event.wallet_id _ s h
