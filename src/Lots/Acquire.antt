-- ===== src/Lots/Acquire.antt =====
-- `_record_exception`, `_apply_acquire` and `_thread_scdt_value` of domain/lots/engine.py.
pub mod Again
pub mod Cases
pub mod Credits
use lemon_ledger.Prelude.{
  ℕ, ℤ, ◌==◌, is_some, if◌then◌else◌, Bool, true, false, ◌&&◌, Option, none, some, find,
}
use lemon_ledger.Models.{
  Session, ClassifiedTransaction, ClassificationKind, swap_credit_redemption, TaxLot,
  LotExceptionReason, missing_basis, LotProcessingException, ExceptionDetail, unvalued,
  no_wallet_entity_assignment, no_token_id_on_classified_tx, add_lot, add_exception,
}
use lemon_ledger.Lots.Pools.{PoolKey, logical, canonical_pool_key, resolve_entity_id}
use lemon_ledger.Lots.Treatment.{notes_start, acquisition_type_of, asset_class}

abbrev pub exception_row :
    ClassifiedTransaction → LotExceptionReason → ExceptionDetail → Option ℕ → LotProcessingException
exception_row event reason detail quantity_unmatched = record {
  classified_tx_id = event.id;
  reason = reason;
  detail = detail;
  quantity_unmatched = quantity_unmatched;
}

unfoldable pub record_exception :
    Session → ClassifiedTransaction → LotExceptionReason → ExceptionDetail → Option ℕ → Session
record_exception s event reason detail quantity_unmatched =
    add_exception (exception_row event reason detail quantity_unmatched) s

abbrev pub is_redemption : ClassificationKind → Bool
is_redemption swap_credit_redemption = true
is_redemption _ = false

-- The credit leg of the transaction: `notes LIKE 'scdt-out:%'`, which no NULL matches.
abbrev pub is_credit_leg : ClassifiedTransaction → ClassifiedTransaction → Bool
is_credit_leg nft_event e =
    e.wallet_id == nft_event.wallet_id
    && (e.tx_hash == nft_event.tx_hash
        && (is_redemption e.classification && (is_some e.notes && notes_start "scdt-out:" e)))

unfoldable pub thread_scdt_value : Session → ClassifiedTransaction → Option ℤ
thread_scdt_value s nft_event = elim (find (is_credit_leg nft_event) s.events) [
  | none ↦ none
  | some sc_leg ↦ sc_leg.value_usd_at_event
]

-- The basis: the value of the event, or for an NFT leg that of the credit leg.
unfoldable pub acquisition_basis : Session → ClassifiedTransaction → Option ℤ
acquisition_basis s event = elim event.value_usd_at_event [
  | some value ↦ some value
  | none ↦
      if is_redemption event.classification && notes_start "l2-nft-in:" event
      then thread_scdt_value s event
      else none
]

abbrev pub logical_part : PoolKey → Option ℕ
logical_part (logical pool_id) = some pool_id
logical_part _ = none

unfoldable pub acquired_lot : Session → ClassifiedTransaction → ℕ → ℕ → ℤ → TaxLot
acquired_lot s event entity_id token_id basis_usd = record {
  id = s.runtime.uuid7 s.drawn;
  wallet_id = event.wallet_id;
  acquired_token_id = token_id;
  logical_asset_id = logical_part (canonical_pool_key s token_id);
  entity_id = entity_id;
  acquired_at = event.occurred_at;
  acquisition_type = acquisition_type_of event.classification;
  asset_class = asset_class s event;
  quantity = event.amount;
  quantity_remaining = event.amount;
  cost_basis_usd = basis_usd;
  source_classified_tx_id = event.id;
}

-- `_apply_acquire` after its first test, on the basis, the entity and the token.
unfoldable pub acquire_with :
    Session → ClassifiedTransaction → Option ℤ → Option ℕ → Option ℕ → Session
acquire_with s event none _ _ =
    record_exception s event missing_basis (unvalued event.classification event.notes) none
acquire_with s event (some _) none _ =
    record_exception s event missing_basis no_wallet_entity_assignment none
acquire_with s event (some _) (some _) none =
    record_exception s event missing_basis no_token_id_on_classified_tx none
acquire_with s event (some basis_usd) (some entity_id) (some token_id) =
    add_lot (acquired_lot s event entity_id token_id basis_usd) s

unfoldable pub acquire_new : Session → ClassifiedTransaction → Session
acquire_new s event =
    acquire_with s event (acquisition_basis s event) (resolve_entity_id s event) event.token_id

unfoldable pub apply_acquire : Session → ClassifiedTransaction → Session
apply_acquire s event =
    if is_some (find (λ l. l.source_classified_tx_id == event.id) s.lots)
    then s
    else acquire_new s event
