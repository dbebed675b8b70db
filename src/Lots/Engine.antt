-- ===== src/Lots/Engine.antt =====
-- `apply_event` and `rebuild_wallet` of domain/lots/engine.py, `process_wallet_lots` of
-- domain/lots/service.py.
pub mod Ledger
pub mod Keeps
pub mod Moves
pub mod Invariant
use lemon_ledger.Prelude.{
  ℕ, ltb, ◌==◌, is_some, if◌then◌else◌, Bool, ◌&&◌, ◌||◌, not, List, [], ◌∷◌, length, filter, any,
  sorted, ok, ◌>>=◌,
}
use lemon_ledger.Models.{
  Session, Try, ClassifiedTransaction, LotTreatment, acquire, dispose, relocate, gift_out_treatment,
  no_op_loan_treatment, no_treatment, pending, set_event, needs_review,
}
use lemon_ledger.Lots.Treatment.{derive_treatment}
use lemon_ledger.Lots.Acquire.{apply_acquire}
use lemon_ledger.Lots.Dispose.{apply_dispose, apply_gift_out}
use lemon_ledger.Lots.Relocate.{apply_bridge_relocation, apply_cross_entity_relocation}

unfoldable pub dispatch : Session → ClassifiedTransaction → LotTreatment → Try Session
dispatch s event acquire = ok (apply_acquire s event)
dispatch s event dispose = apply_dispose s event
dispatch s event relocate =
    if is_some event.transfer_resolution
    then apply_cross_entity_relocation s event
    else apply_bridge_relocation s event
dispatch s event gift_out_treatment = apply_gift_out s event
dispatch s event no_op_loan_treatment = ok (set_event event.id needs_review s)
dispatch s event no_treatment = ok s
dispatch s event pending = ok s

unfoldable pub apply_event : Session → ClassifiedTransaction → Try Session
apply_event s event = dispatch s event (derive_treatment event)

-- Canonical order: occurred_at, block_number, event_seq, id.
abbrev pub canonical_order : ClassifiedTransaction → ClassifiedTransaction → Bool
canonical_order a b =
    ltb a.occurred_at b.occurred_at
    || (a.occurred_at == b.occurred_at
        && (ltb a.block_number b.block_number
            || (a.block_number == b.block_number
                && (ltb a.event_seq b.event_seq || (a.event_seq == b.event_seq && ltb a.id b.id)))))

unfoldable pub events_of : Session → ℕ → List ClassifiedTransaction
events_of s wallet_id = sorted canonical_order (filter (λ e. e.wallet_id == wallet_id) s.events)

unfoldable pub apply_events : List ClassifiedTransaction → Session → Try Session
apply_events [] s = ok s
apply_events (event ∷ events) s = apply_event s event >>= λ applied. apply_events events applied

-- The session after the commit, and `events_processed`.
unfoldable pub process_wallet_lots : Session → ℕ → Try (Session × ℕ)
process_wallet_lots s wallet_id =
    apply_events (events_of s wallet_id) s >>= λ done. ok (done, length (events_of s wallet_id))

-- The rows of the wallet are deleted, those of its lots first.
unfoldable pub wipe_wallet : Session → ℕ → Session
wipe_wallet s wallet_id =
    let is_lot = λ (k : ℕ). any (λ l. l.wallet_id == wallet_id && l.id == k) s.lots in
    let is_event = λ (k : ℕ). any (λ e. e.wallet_id == wallet_id && e.id == k) s.events in
    record s {
      disposals = filter (λ d. not (is_lot d.lot_id)) s.disposals;
      relocations = filter (λ r. not (is_lot r.lot_id)) s.relocations;
      exceptions = filter (λ x. not (is_event x.classified_tx_id)) s.exceptions;
      lots = filter (λ l. not (l.wallet_id == wallet_id)) s.lots;
    }

unfoldable pub rebuild_wallet : Session → ℕ → Try Session
rebuild_wallet s wallet_id =
    let wiped = wipe_wallet s wallet_id in apply_events (events_of wiped wallet_id) wiped
