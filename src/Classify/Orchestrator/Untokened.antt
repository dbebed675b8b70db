-- ===== src/Classify/Orchestrator/Untokened.antt =====
-- What the lot engine does with the rows that `common_transfer_events` of classify/orchestrator.py
-- makes: they carry no token.
use lemon_ledger.Prelude.{ℕ, ◌==◌, ◌≡◌, refl, Bool-cases, is_some, find, none, inl, inr, ok}
use lemon_ledger.Models.{
  Session, ClassificationKind, transfer_in, transfer_out, burn, add_exception, missing_basis,
  unvalued, no_token_id_on_classified_tx,
}
use lemon_ledger.Lots.Engine.{apply_event, dispatch}
use lemon_ledger.Lots.Treatment.{derive_treatment, treatment_from_kind}
use lemon_ledger.Lots.Acquire.{
  apply_acquire, acquire_new, acquire_with, acquisition_basis, record_exception,
}
use lemon_ledger.Lots.Dispose.{apply_dispose}
use lemon_ledger.Classify.Types.{TxBundle, Hint}
use lemon_ledger.Classify.Orchestrator.{row_of, common_event}

-- The kinds of the common layer.
pub data CommonKind : ClassificationKind → Type 0 where
  common_in : CommonKind transfer_in
  common_out : CommonKind transfer_out
  common_burn : CommonKind burn

-- The event is applied without an error, and neither a lot nor a disposal comes of it.
pub record LeavesLots (s : Session) (b : TxBundle) (seq : ℕ) (kind : ClassificationKind)
    (contract amount : ℕ) (hint : Hint) (x : Session) : Type 0 where
  pub after : Session
  pub result : apply_event x (row_of s b seq (common_event kind contract amount hint)) ≡ ok after
  pub lots : after.lots ≡ x.lots
  pub disposals : after.disposals ≡ x.disposals

-- A row of the common layer, a transfer in or out or a burn of any token and amount, makes the
-- engine write no lot, change no lot and write no disposal, in whatever session it is applied,
-- since the row has no token.
pub apply_event-LeavesLots :
    (s : Session) (b : TxBundle) (seq contract amount : ℕ) (hint : Hint) (x : Session)
    (kind : ClassificationKind)
    → CommonKind kind
    → LeavesLots s b seq kind contract amount hint x
unfolding apply_event dispatch derive_treatment treatment_from_kind row_of apply_acquire acquire_new
    acquire_with acquisition_basis record_exception apply_dispose add_exception
apply_event-LeavesLots s b seq contract amount hint x kind common_in =
    let row = row_of s b seq (common_event transfer_in contract amount hint) in
    elim (Bool-cases (is_some (find (λ l. l.source_classified_tx_id == row.id) x.lots))) [
      | inl seen ↦ record { after = x; result = rw seen refl; lots = refl; disposals = refl }
      | inr new ↦ record {
        after = record_exception x row missing_basis (unvalued row.classification row.notes) none;
        result = rw new refl;
        lots = refl;
        disposals = refl;
      }
    ]
apply_event-LeavesLots s b seq contract amount hint x kind common_out =
    let row = row_of s b seq (common_event transfer_out contract amount hint) in
    elim (Bool-cases (is_some (find (λ d. d.disposal_tx_id == row.id) x.disposals))) [
      | inl seen ↦ record { after = x; result = rw seen refl; lots = refl; disposals = refl }
      | inr new ↦ record {
        after = record_exception x row missing_basis no_token_id_on_classified_tx none;
        result = rw new refl;
        lots = refl;
        disposals = refl;
      }
    ]
apply_event-LeavesLots s b seq contract amount hint x kind common_burn =
    let row = row_of s b seq (common_event burn contract amount hint) in
    elim (Bool-cases (is_some (find (λ d. d.disposal_tx_id == row.id) x.disposals))) [
      | inl seen ↦ record { after = x; result = rw seen refl; lots = refl; disposals = refl }
      | inr new ↦ record {
        after = record_exception x row missing_basis no_token_id_on_classified_tx none;
        result = rw new refl;
        lots = refl;
        disposals = refl;
      }
    ]
