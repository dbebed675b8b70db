-- ===== src/Lots/Engine/Invariant.antt =====
-- On the rows of tax_lots and lot_disposals under the events of domain/lots/engine.py.
use native.Mathlib.Nat.{le_refl}
use lemon_ledger.Prelude.{
  ℕ, ◌<◌, ◌≡◌, refl, sym, subst, arith, ℤ, Bool, true, false, Option, none, some, List, map, All,
  ok, err, ◌>>=◌, if◌then◌else◌, is_some, find, ◌==◌,
}
use lemon_ledger.Models.{
  Session, Try, ClassifiedTransaction, needs_review, missing_basis, no_token_id_on_classified_tx,
  LotTreatment, acquire, dispose, relocate, gift_out_treatment, no_op_loan_treatment, no_treatment,
  pending,
}
use lemon_ledger.Decimal.{limit}
use lemon_ledger.Lots.Pools.{resolve_entity_id, open_lots}
use lemon_ledger.Lots.Consume.{ConsumptionSlice}
use lemon_ledger.Lots.Consume.Totals.{IsWithin, Consumes}
use lemon_ledger.Lots.Consume.Picks.{IsPicked, PicksAll}
use lemon_ledger.Lots.Lines.{DisposalLine, build_lines}
use lemon_ledger.Lots.Acquire.{
  record_exception, acquisition_basis, acquire_with, acquire_new, acquired_lot, apply_acquire,
}
use lemon_ledger.Lots.Dispose.{write_disposals, dispose_token, apply_dispose, consumed}
use lemon_ledger.Lots.Dispose.Supply.{consumed-Consumes}
use lemon_ledger.Lots.Dispose.Draws.{at, Distinct, Covered}
use lemon_ledger.Lots.Dispose.Conservation.{
  of_slice, of_line, Draws, build_lines-Draws, slices-Distinct, slices-Covered, open_lots-le,
  consumed-Picks,
}
use lemon_ledger.Lots.Treatment.{derive_treatment}
use lemon_ledger.Lots.Engine.{dispatch, apply_event}
use lemon_ledger.Lots.Engine.Ledger.{IsLedger}
use lemon_ledger.Lots.Engine.Ledger.Writes.{write_disposals-IsLedger, add_lot-IsLedger}
use lemon_ledger.Lots.Engine.Keeps.{
  Keeps, record_exception-IsLedger, set_event-IsLedger, or_record-Keeps, Keeps-if,
}
use lemon_ledger.Lots.Engine.Moves.{
  apply_gift_out-Keeps, apply_cross_entity_relocation-Keeps, apply_bridge_relocation-Keeps,
}

-- The lines of a disposal take no more than their lots have, each lot once.
lines-IsLedger :
    (s : Session) (event : ClassifiedTransaction) (token_id : ℕ) (slices : List ConsumptionSlice)
    (lines : List DisposalLine)
    → event.amount < limit
    → IsLedger s
    → consumed s event token_id ≡ ok slices
    → map of_line lines ≡ map of_slice slices
    → IsLedger (write_disposals event lines s)
lines-IsLedger s event token_id slices lines small h e same =
    write_disposals-IsLedger event lines s
      (subst Distinct (sym same)
        (slices-Distinct slices λ k. omega (arith, all (at k (λ _. 1)), h.unique k)))
      (subst (Covered s.lots) (sym same) (slices-Covered s.lots slices all within)) h
  where
    picked : IsPicked (open_lots s event.wallet_id token_id) slices
    picked =
        subst (PicksAll (open_lots s event.wallet_id token_id)) e (consumed-Picks s event token_id)

    all : IsPicked s.lots slices
    all f = omega (arith, picked f, open_lots-le f s event.wallet_id token_id)

    within : All IsWithin slices
    within =
        (subst (Consumes (open_lots s event.wallet_id token_id) event.amount) e
          (consumed-Consumes s event token_id small)).1

built-Keeps :
    (s : Session) (event : ClassifiedTransaction) (token_id : ℕ) (slices : List ConsumptionSlice)
    → event.amount < limit
    → IsLedger s
    → consumed s event token_id ≡ ok slices
    → (built : Try (List DisposalLine)) → Draws slices built
    → Keeps (built >>= λ lines. ok (write_disposals event lines s))
built-Keeps s event token_id slices small h e (ok lines) same =
    lines-IsLedger s event token_id slices lines small h e same
built-Keeps s event token_id slices small h e (err x) same = tt

apply_dispose-Keeps :
    (s : Session) (event : ClassifiedTransaction)
    → event.amount < limit
    → IsLedger s
    → Keeps (apply_dispose s event)
unfolding apply_dispose dispose_token
apply_dispose-Keeps s event small h = Keeps-if _ (ok s) _ h (go event.token_id)
  where
    go :
        (token : Option ℕ)
        → Keeps (elim token [
          | none ↦ ok (record_exception s event missing_basis no_token_id_on_classified_tx none)
          | some token_id ↦ dispose_token s event token_id
        ])
    go none = record_exception-IsLedger s h event _ _ _
    go (some token_id) = or_record-Keeps s event (consumed s event token_id) _ h λ slices e.
        built-Keeps s event token_id slices small h e (build_lines _ slices _ _ _)
          (build_lines-Draws _ slices _ _ _)

acquire_new-IsLedger :
    (s : Session) (event : ClassifiedTransaction)
    → event.amount < limit
    → IsLedger s
    → IsLedger (acquire_new s event)
unfolding acquire_new acquire_with acquired_lot
acquire_new-IsLedger s event small h =
    go (acquisition_basis s event) (resolve_entity_id s event) event.token_id
  where
    go :
        (basis : Option ℤ) (entity token : Option ℕ)
        → IsLedger (acquire_with s event basis entity token)
    go none entity token = record_exception-IsLedger s h event _ _ _
    go (some b) none token = record_exception-IsLedger s h event _ _ _
    go (some b) (some e) none = record_exception-IsLedger s h event _ _ _
    go (some b) (some e) (some t) =
        add_lot-IsLedger (acquired_lot s event e t b) s refl (le_refl event.amount) small h

dispatch-Keeps :
    (s : Session) (event : ClassifiedTransaction) (t : LotTreatment)
    → event.amount < limit
    → IsLedger s
    → Keeps (dispatch s event t)
unfolding dispatch apply_acquire
dispatch-Keeps s event acquire small h =
    Keeps-acquire (is_some (find (λ l. l.source_classified_tx_id == event.id) s.lots))
  where
    Keeps-acquire : (b : Bool) → IsLedger (if b then s else acquire_new s event)
    Keeps-acquire true = h
    Keeps-acquire false = acquire_new-IsLedger s event small h
dispatch-Keeps s event dispose small h = apply_dispose-Keeps s event small h
dispatch-Keeps s event relocate small h =
    Keeps-if (is_some event.transfer_resolution) _ _ (apply_cross_entity_relocation-Keeps s event h)
      (apply_bridge_relocation-Keeps s event h)
dispatch-Keeps s event gift_out_treatment small h = apply_gift_out-Keeps s event h
dispatch-Keeps s event no_op_loan_treatment small h = set_event-IsLedger s h event.id needs_review
dispatch-Keeps s event no_treatment small h = h
dispatch-Keeps s event pending small h = h

pub apply_event-Keeps :
    (s : Session) (event : ClassifiedTransaction)
    → event.amount < limit
    → IsLedger s
    → Keeps (apply_event s event)
unfolding apply_event
apply_event-Keeps s event small h = dispatch-Keeps s event (derive_treatment event) small h
