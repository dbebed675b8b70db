-- ===== src/Lots/Relocate.antt =====
-- `apply_relocation` and its two callers in domain/lots/engine.py.
pub mod Basis
use lemon_ledger.Prelude.{
  ℕ, ◌==◌, is_some, if◌then◌else◌, Bool, true, false, Option, none, some, List, [], ◌∷◌, find,
  filter, ok, ◌>>=◌,
}
use lemon_ledger.Models.{
  Session, Try, ClassifiedTransaction, TaxLot, LotRelocation, RelocationReason, by_bridge,
  by_internal, by_cap_contribution, by_gift, by_reassignment, TransferResolution, relocate_internal,
  relocate_contribution, relocate_gift, relocate_reassignment, AcquisitionType, cap_contribution,
  gifted, RelocationPath, over_bridge, across_entities, missing_basis, missing_relocation_source,
  outflow_event_not_found, get_event, set_lot, set_event, needs_review, add_relocation,
}
use lemon_ledger.Lots.Methods.{fifo_order}
use lemon_ledger.Lots.Consume.{ConsumptionSlice, consume}
use lemon_ledger.Lots.Pools.{open_lots, resolve_entity_for_wallet}
use lemon_ledger.Lots.Acquire.{record_exception}

-- The assignments to a lot that moves: its wallet, and its entity where the destination has one.
unfoldable pub move_lot : ℕ → Option ℕ → TaxLot → TaxLot
move_lot to_wallet_id dest_entity_id lot = elim dest_entity_id [
  | none ↦ record lot { wallet_id = to_wallet_id }
  | some entity_id ↦ record lot { wallet_id = to_wallet_id; entity_id = entity_id }
]

module _ (event : ClassifiedTransaction) (from_wallet_id to_wallet_id : ℕ)
    (reason : RelocationReason) where
  -- The loop over the slices: of a slice only the lot is used.
  unfoldable pub write_relocations : Option ℕ → List ConsumptionSlice → Session → Session
  write_relocations dest_entity_id [] s = s
  write_relocations dest_entity_id (slice ∷ slices) s = write_relocations dest_entity_id slices (
      add_relocation
        (record {
          lot_id = slice.lot.id;
          from_wallet_id = from_wallet_id;
          to_wallet_id = to_wallet_id;
          reason = reason;
          classified_tx_id = event.id;
          occurred_at = event.occurred_at;
        })
        (set_lot slice.lot.id (move_lot to_wallet_id dest_entity_id) s))

  -- An InsufficientLotsError is not caught here.
  unfoldable pub apply_relocation : Session → Try Session
  apply_relocation s = elim event.token_id [
    | none ↦ ok s
    | some token_id ↦
        consume fifo_order (open_lots s from_wallet_id token_id) event.amount >>= λ slices.
        ok (write_relocations (resolve_entity_for_wallet s to_wallet_id event.occurred_at) slices s)
  ]

-- Both callers begin alike: the event is skipped if it has a relocation, and its source is
-- looked up; `move` is the rest.
unfoldable pub with_outflow :
    RelocationPath
    → Session
    → ClassifiedTransaction
    → (ClassifiedTransaction → Try Session)
    → Try Session
with_outflow path s event move =
    if is_some (find (λ r. r.classified_tx_id == event.id) s.relocations)
    then ok s
    else elim event.relocation_source_event_id [
      | none ↦ ok (record_exception s event missing_basis (missing_relocation_source path) none)
      | some source_event_id ↦ elim (get_event s source_event_id) [
        | none ↦ ok (
            record_exception s event missing_basis (outflow_event_not_found path source_event_id)
              none)
        | some outflow_event ↦ move outflow_event
      ]
    ]

unfoldable pub apply_bridge_relocation : Session → ClassifiedTransaction → Try Session
apply_bridge_relocation s event =
    with_outflow over_bridge s event
      (λ outflow_event. apply_relocation event outflow_event.wallet_id event.wallet_id by_bridge s)

-- `_RELOCATION_REASON.get(res, "bridge")`
abbrev pub relocation_reason : Option TransferResolution → RelocationReason
relocation_reason (some relocate_internal) = by_internal
relocation_reason (some relocate_contribution) = by_cap_contribution
relocation_reason (some relocate_gift) = by_gift
relocation_reason (some relocate_reassignment) = by_reassignment
relocation_reason _ = by_bridge

-- `_RELOCATION_ACQ_TYPE.get(res)`
abbrev pub relocation_acq_type : Option TransferResolution → Option AcquisitionType
relocation_acq_type (some relocate_contribution) = some cap_contribution
relocation_acq_type (some relocate_gift) = some gifted
relocation_acq_type _ = none

abbrev pub is_relocated_gift : Option TransferResolution → Bool
is_relocated_gift (some relocate_gift) = true
is_relocated_gift _ = false

unfoldable pub set_acquisition_types : AcquisitionType → List LotRelocation → Session → Session
set_acquisition_types t [] s = s
set_acquisition_types t (r ∷ relocations) s =
    set_acquisition_types t relocations
      (set_lot r.lot_id (λ lot. record lot { acquisition_type = t }) s)

-- `if new_acq_type is not None`: the lots that this event has relocated get the type.
unfoldable pub retype : Option AcquisitionType → ClassifiedTransaction → Session → Session
retype none event s = s
retype (some t) event s =
    set_acquisition_types t (filter (λ r. r.classified_tx_id == event.id) s.relocations) s

unfoldable pub flag_gift : Bool → ClassifiedTransaction → Session → Session
flag_gift true event s = set_event event.id needs_review s
flag_gift false event s = s

-- What follows `apply_relocation` in `_apply_cross_entity_relocation`.
unfoldable pub finish_relocation : ClassifiedTransaction → Session → Session
finish_relocation event s =
    flag_gift (is_relocated_gift event.transfer_resolution) event
      (retype (relocation_acq_type event.transfer_resolution) event s)

unfoldable pub apply_cross_entity_relocation : Session → ClassifiedTransaction → Try Session
apply_cross_entity_relocation s event = with_outflow across_entities s event (λ outflow_event.
    apply_relocation event outflow_event.wallet_id event.wallet_id
      (relocation_reason event.transfer_resolution) s
    >>= λ moved. ok (finish_relocation event moved))
