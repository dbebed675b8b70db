-- ===== src/Forms/Gate.antt =====
-- domain/forms/gate.py, and the view `v_lot_gate` that it reads, as the migration
-- apps/api/migrations/versions/20260625_1900_e2f3a4b5c6d7_vlotgate_bridge_wallet_key.py leaves it.
pub mod Clear
use lemon_ledger.Prelude.{
  ℕ, ◌+◌, ltb, leb, ◌==◌, is_some, if◌then◌else◌, Bool, true, false, ◌&&◌, ◌||◌, not, Option, none,
  some, List, [], ◌∷◌, ◌++◌, map, find, filter, any, sorted, length, ok, ◌>>=◌,
}
use lemon_ledger.Models.{
  Session, Try, ClassifiedTransaction, ClassificationKind, pending_kind, get_event,
  LotProcessingException, LotExceptionReason, BridgeCorrelation, BridgeStatus, needs_confirmation,
  unmatched, PendingClassification, PendingClassificationState, needs_classification,
}
use lemon_ledger.Lots.Engine.{events_of, apply_events}

-- The texts of the column `reason`.
pub data GateReason : Type 0 where
  by_kind : ClassificationKind → GateReason
  by_exception : LotExceptionReason → GateReason
  bridge_needs_confirmation bridge_aged_unmatched transfer_needs_classification : GateReason

pub record GateRow : Type 0 where
  pub classified_tx_id : Option ℕ
  pub wallet_id : Option ℕ
  pub reason : GateReason
  pub occurred_at : Option ℕ
  pub blocking : Bool

abbrev pub is_pending_kind : ClassificationKind → Bool
is_pending_kind pending_kind = true
is_pending_kind _ = false

abbrev pub awaits_confirmation : BridgeStatus → Bool
awaits_confirmation needs_confirmation = true
awaits_confirmation _ = false

abbrev pub has_no_match : BridgeStatus → Bool
has_no_match unmatched = true
has_no_match _ = false

abbrev pub awaits_classification : PendingClassificationState → Bool
awaits_classification needs_classification = true
awaits_classification _ = false

abbrev pub row_at : ClassifiedTransaction → GateReason → ℕ → GateRow
row_at ct reason occurred_at = record {
  classified_tx_id = some ct.id;
  wallet_id = some ct.wallet_id;
  reason = reason;
  occurred_at = some occurred_at;
  blocking = true;
}

-- (a)
abbrev pub is_held_event : ClassifiedTransaction → Bool
is_held_event ct = is_pending_kind ct.classification || ct.needs_review

unfoldable pub event_rows : List ClassifiedTransaction → List GateRow
event_rows events =
    map (λ ct. row_at ct (by_kind ct.classification) ct.occurred_at) (filter is_held_event events)

-- (b): nothing in the repository sets `resolved_at` of an exception.
unfoldable pub exception_rows : Session → List LotProcessingException → List GateRow
exception_rows s [] = []
exception_rows s (x ∷ xs) =
    let rest = exception_rows s xs in
    elim (get_event s x.classified_tx_id) [
      | none ↦ rest
      | some ct ↦ row_at ct (by_exception x.reason) ct.occurred_at ∷ rest
    ]

abbrev pub event_of : Session → Option ℕ → Option ClassifiedTransaction
event_of s none = none
event_of s (some k) = get_event s k

-- (c)
unfoldable pub confirmation_rows : Session → List BridgeCorrelation → List GateRow
confirmation_rows s [] = []
confirmation_rows s (bc ∷ bcs) =
    let rest = confirmation_rows s bcs in
    if awaits_confirmation bc.status
    then elim (event_of s bc.outflow_classified_event_id) [
      | none ↦ rest
      | some ct ↦ row_at ct bridge_needs_confirmation ct.occurred_at ∷ rest
    ]
    else rest

-- SQL's COALESCE of two values.
abbrev pub coalesce {ℓ} : {A : Type ℓ} → Option A → Option A → Option A
coalesce (some a) b = some a
coalesce none b = b

abbrev pub wallet_of : Option ClassifiedTransaction → Option ℕ
wallet_of none = none
wallet_of (some ct) = some ct.wallet_id

abbrev pub time_of : Option ClassifiedTransaction → Option ℕ
time_of none = none
time_of (some ct) = some ct.occurred_at

-- (d)
unfoldable pub aged_rows : Session → List BridgeCorrelation → List GateRow
aged_rows s bcs =
    map
      (λ bc. record {
        classified_tx_id = coalesce bc.outflow_classified_event_id bc.inflow_classified_event_id;
        wallet_id =
            coalesce (wallet_of (event_of s bc.outflow_classified_event_id))
              (wallet_of (event_of s bc.inflow_classified_event_id));
        reason = bridge_aged_unmatched;
        occurred_at =
            coalesce (time_of (event_of s bc.outflow_classified_event_id))
              (time_of (event_of s bc.inflow_classified_event_id));
        blocking = false;
      })
      (filter (λ bc. has_no_match bc.status && not (is_some bc.user_resolution)) bcs)

abbrev pub is_leg_of : PendingClassification → ClassifiedTransaction → Bool
is_leg_of pc ct =
    ct.wallet_id == pc.from_wallet_id
    && (ct.tx_hash == pc.tx_hash && ct.event_seq == pc.transfer_index)

-- (e)
unfoldable pub transfer_rows : Session → List PendingClassification → List GateRow
transfer_rows s [] = []
transfer_rows s (pc ∷ pcs) =
    let rest = transfer_rows s pcs in
    if awaits_classification pc.state
    then map (λ ct. row_at ct transfer_needs_classification pc.detected_at)
        (filter (is_leg_of pc) s.events)
      ++ rest
    else rest

unfoldable pub v_lot_gate : Session → List GateRow
v_lot_gate s =
    event_rows s.events
    ++ (exception_rows s s.exceptions
        ++ (confirmation_rows s s.correlations
            ++ (aged_rows s s.correlations ++ transfer_rows s s.pendings)))

pub record GateResult : Type 0 where
  pub is_held : Bool
  pub blocker_rows : List GateRow
  pub entity_wallet_ids : List ℕ

unfoldable pub get_entity_wallet_ids : Session → ℕ → List ℕ
get_entity_wallet_ids s entity_id =
    map (λ a. a.wallet_id) (filter (λ a. a.entity_id == entity_id) s.assignments)

abbrev pub is_one_of : List ℕ → Option ℕ → Bool
is_one_of wallet_ids none = false
is_one_of wallet_ids (some k) = any (λ j. j == k) wallet_ids

abbrev pub is_by : Session → ℕ → Option ℕ → Bool
is_by s tax_year none = false
is_by s tax_year (some moment) = leb (s.runtime.year_of moment) tax_year

-- The WHERE clause of the query.
unfoldable pub blocks : Session → List ℕ → ℕ → GateRow → Bool
blocks s wallet_ids tax_year row =
    is_one_of wallet_ids row.wallet_id && (row.blocking && is_by s tax_year row.occurred_at)

abbrev pub earlier : GateRow → GateRow → Bool
earlier a b = elim a.occurred_at [
  | none ↦ false
  | some x ↦ elim b.occurred_at [ none ↦ true | some y ↦ ltb x y ]
]

abbrev pub is_filled {ℓ} : {A : Type ℓ} → List A → Bool
is_filled [] = false
is_filled (x ∷ xs) = true

unfoldable pub blocker_rows : Session → List ℕ → ℕ → List GateRow
blocker_rows s wallet_ids tax_year =
    sorted earlier (filter (blocks s wallet_ids tax_year) (v_lot_gate s))

unfoldable pub check_gate : Session → ℕ → ℕ → GateResult
check_gate s entity_id tax_year =
    let wallet_ids = get_entity_wallet_ids s entity_id in
    if is_filled wallet_ids
    then record {
      is_held = is_filled (blocker_rows s wallet_ids tax_year);
      blocker_rows = blocker_rows s wallet_ids tax_year;
      entity_wallet_ids = wallet_ids;
    }
    else record { is_held = false; blocker_rows = []; entity_wallet_ids = [] }

-- The year is not used.
unfoldable pub recompute_from : List ℕ → Session → ℕ → Try (Session × ℕ)
recompute_from [] s processed = ok (s, processed)
recompute_from (wallet_id ∷ wallet_ids) s processed =
    apply_events (events_of s wallet_id) s >>= λ applied.
    recompute_from wallet_ids applied (processed + length (events_of s wallet_id))

unfoldable pub recompute_lots : Session → List ℕ → ℕ → Try (Session × ℕ)
recompute_lots s wallet_ids tax_year = recompute_from wallet_ids s 0
