-- ===== src/Lots/Relocate/Basis.antt =====
-- On the lots that `apply_relocation` and its callers in domain/lots/engine.py move.
use lemon_ledger.Prelude.{
  ℕ, ℤ, ◌≡◌, refl, ◌∙◌, Bool, true, false, Option, none, some, List, [], ◌∷◌, map, update, ok, err,
  ◌>>=◌, if◌then◌else◌, is_some, find, ◌==◌,
}
use lemon_ledger.Models.{
  Session, Try, ClassifiedTransaction, TaxLot, LotRelocation, RelocationReason, AcquisitionType,
  set_lot, set_event, add_exception, add_relocation, missing_basis, missing_relocation_source,
  RelocationPath, outflow_event_not_found, get_event,
}
use lemon_ledger.Lots.Acquire.{record_exception}
use lemon_ledger.Lots.Consume.{ConsumptionSlice, consume}
use lemon_ledger.Lots.Methods.{fifo_order}
use lemon_ledger.Lots.Pools.{open_lots, resolve_entity_for_wallet}
use lemon_ledger.Lots.Relocate.{
  move_lot, write_relocations, apply_relocation, with_outflow, retype, flag_gift,
  set_acquisition_types, finish_relocation, relocation_acq_type, is_relocated_gift,
  apply_cross_entity_relocation,
}

-- What a relocation must not change: the key, the quantities, the basis and the date from which
-- the holding period counts.
pub record Holding : Type 0 where
  pub id : ℕ
  pub quantity : ℕ
  pub quantity_remaining : ℕ
  pub cost_basis_usd : ℤ
  pub acquired_at : ℕ

abbrev pub holding_of : TaxLot → Holding
holding_of l = record {
  id = l.id;
  quantity = l.quantity;
  quantity_remaining = l.quantity_remaining;
  cost_basis_usd = l.cost_basis_usd;
  acquired_at = l.acquired_at;
}

abbrev pub holdings : Session → List Holding
holdings s = map holding_of s.lots

abbrev pub Preserves : Session → Try Session → Type 0
Preserves s (ok t) = holdings t ≡ holdings s
Preserves s (err _) = Unit

update-holding_of :
    (k : ℕ) (f : TaxLot → TaxLot)
    → ((l : TaxLot) → holding_of (f l) ≡ holding_of l)
    → (lots : List TaxLot) → map holding_of (update (λ l. l.id == k) f lots) ≡ map holding_of lots
update-holding_of k f same [] = refl
update-holding_of k f same (l ∷ lots) = go (l.id == k) (update-holding_of k f same lots)
  where
    go :
        (b : Bool)
        → map holding_of (update (λ l. l.id == k) f lots) ≡ map holding_of lots
        → holding_of (if b then f l else l) ∷ map holding_of (update (λ l. l.id == k) f lots)
          ≡ holding_of l ∷ map holding_of lots
    go true h = λ i. same l i ∷ h i
    go false h = λ i. holding_of l ∷ h i

set_lot-holdings :
    (k : ℕ) (f : TaxLot → TaxLot) (s : Session)
    → ((l : TaxLot) → holding_of (f l) ≡ holding_of l)
    → holdings (set_lot k f s) ≡ holdings s
unfolding set_lot
set_lot-holdings k f s same = update-holding_of k f same s.lots

move_lot-holding_of :
    (w : ℕ) (e : Option ℕ) (l : TaxLot) → holding_of (move_lot w e l) ≡ holding_of l
unfolding move_lot
move_lot-holding_of w none l = refl
move_lot-holding_of w (some e) l = refl

write_relocations-holdings :
    (event : ClassifiedTransaction) (from_wallet to_wallet : ℕ) (reason : RelocationReason)
    (dest : Option ℕ) (slices : List ConsumptionSlice) (s : Session)
    → holdings (write_relocations event from_wallet to_wallet reason dest slices s) ≡ holdings s
unfolding write_relocations add_relocation
write_relocations-holdings event from_wallet to_wallet reason dest [] s = refl
write_relocations-holdings event from_wallet to_wallet reason dest (slice ∷ slices) s =
    write_relocations-holdings event from_wallet to_wallet reason dest slices _
    ∙ set_lot-holdings slice.lot.id (move_lot to_wallet dest) s (move_lot-holding_of to_wallet dest)

set_acquisition_types-holdings :
    (t : AcquisitionType) (rs : List LotRelocation) (s : Session)
    → holdings (set_acquisition_types t rs s) ≡ holdings s
unfolding set_acquisition_types
set_acquisition_types-holdings t [] s = refl
set_acquisition_types-holdings t (r ∷ rs) s =
    set_acquisition_types-holdings t rs _ ∙ set_lot-holdings r.lot_id _ s (λ l. refl)

retype-holdings :
    (t : Option AcquisitionType) (event : ClassifiedTransaction) (s : Session)
    → holdings (retype t event s) ≡ holdings s
unfolding retype
retype-holdings none event s = refl
retype-holdings (some t) event s = set_acquisition_types-holdings t _ s

flag_gift-holdings :
    (b : Bool) (event : ClassifiedTransaction) (s : Session)
    → holdings (flag_gift b event s) ≡ holdings s
unfolding flag_gift set_event
flag_gift-holdings true event s = refl
flag_gift-holdings false event s = refl

apply_relocation-Preserves :
    (event : ClassifiedTransaction) (from_wallet to_wallet : ℕ) (reason : RelocationReason)
    (s : Session)
    → Preserves s (apply_relocation event from_wallet to_wallet reason s)
unfolding apply_relocation
apply_relocation-Preserves event from_wallet to_wallet reason s = go event.token_id
  where
    moved :
        (r : Try (List ConsumptionSlice)) (dest : Option ℕ)
        → Preserves s (
            r >>= λ slices. ok (write_relocations event from_wallet to_wallet reason dest slices s))
    moved (ok slices) dest =
        write_relocations-holdings event from_wallet to_wallet reason dest slices s
    moved (err e) dest = tt

    go :
        (token : Option ℕ)
        → Preserves s (elim token [
          | none ↦ ok s
          | some token_id ↦
              consume fifo_order (open_lots s from_wallet token_id) event.amount >>= λ slices. ok (
                write_relocations event from_wallet to_wallet reason
                  (resolve_entity_for_wallet s to_wallet event.occurred_at)
                  slices
                  s)
        ])
    go none = refl
    go (some token_id) = moved _ _

with_outflow-Preserves :
    (path : RelocationPath) (s : Session) (event : ClassifiedTransaction)
    (move : ClassifiedTransaction → Try Session)
    → ((out : ClassifiedTransaction) → Preserves s (move out))
    → Preserves s (with_outflow path s event move)
unfolding with_outflow record_exception add_exception
with_outflow-Preserves path s event move k =
    first (is_some (find (λ r. r.classified_tx_id == event.id) s.relocations))
  where
    found :
        (j : ℕ) (o : Option ClassifiedTransaction)
        → Preserves s (elim o [
          | none ↦ ok (record_exception s event missing_basis (outflow_event_not_found path j) none)
          | some outflow_event ↦ move outflow_event
        ])
    found j none = refl
    found j (some out) = k out

    go :
        (source : Option ℕ)
        → Preserves s (elim source [
          | none ↦ ok (record_exception s event missing_basis (missing_relocation_source path) none)
          | some source_event_id ↦ elim (get_event s source_event_id) [
            | none ↦ ok (
                record_exception s event missing_basis
                  (outflow_event_not_found path source_event_id)
                  none)
            | some outflow_event ↦ move outflow_event
          ]
        ])
    go none = refl
    go (some j) = found j (get_event s j)

    first :
        (b : Bool)
        → Preserves s (
            if b then ok s else elim event.relocation_source_event_id [
              | none ↦
                  ok (record_exception s event missing_basis (missing_relocation_source path) none)
              | some source_event_id ↦ elim (get_event s source_event_id) [
                | none ↦ ok (
                    record_exception s event missing_basis
                      (outflow_event_not_found path source_event_id)
                      none)
                | some outflow_event ↦ move outflow_event
              ]
            ])
    first true = refl
    first false = go event.relocation_source_event_id

-- A relocation between wallets of the owners that returns leaves every lot with its key, its
-- quantities, its basis and its date of acquisition, whatever its reason.
pub apply_cross_entity_relocation-Preserves :
    (s : Session) (event : ClassifiedTransaction)
    → Preserves s (apply_cross_entity_relocation s event)
unfolding apply_cross_entity_relocation finish_relocation
apply_cross_entity_relocation-Preserves s event = with_outflow-Preserves _ s event _ λ out.
    finish (apply_relocation event out.wallet_id event.wallet_id _ s)
      (apply_relocation-Preserves event out.wallet_id event.wallet_id _ s)
  where
    finish :
        (m : Try Session)
        → Preserves s m
        → Preserves s (
            m >>= λ moved. ok (
              flag_gift
                (is_relocated_gift event.transfer_resolution)
                event
                (retype (relocation_acq_type event.transfer_resolution) event moved)))
    finish (ok moved) h = flag_gift-holdings _ event _ ∙ retype-holdings _ event moved ∙ h
    finish (err e) h = tt
