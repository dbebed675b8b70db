-- ===== src/Bridge/Signals.antt =====
-- `_get_entity_bridge_treatment` and `set_classification_signal` of domain/bridge/workflow.py.
pub mod Treatments
use lemon_ledger.Prelude.{
  ℕ, ltb, leb, ◌==◌, if◌then◌else◌, Bool, ◌&&◌, Option, none, some, List, [], ◌∷◌, filter, sorted,
}
use lemon_ledger.Models.{
  Session, ClassifiedTransaction, transfer_in, transfer_out, bridge_in, bridge_out,
  WalletEntityAssignment, get_entity, get_event, set_event, date, BridgeTreatment, relocation,
  disposition, BridgeCorrelation,
}

abbrev pub first {ℓ} : {A : Type ℓ} → List A → Option A
first [] = none
first (x ∷ xs) = some x

-- `order_by(effective_from.desc()).limit(1)`
unfoldable pub latest_assignment : Session → ℕ → ℕ → Option WalletEntityAssignment
latest_assignment s wallet_id day = first (
    sorted (λ a b. ltb b.effective_from a.effective_from)
      (filter (λ a. a.wallet_id == wallet_id && leb a.effective_from day) s.assignments))

unfoldable pub get_entity_bridge_treatment : Session → ℕ → ℕ → BridgeTreatment
get_entity_bridge_treatment s wallet_id at = elim (latest_assignment s wallet_id (date at)) [
  | none ↦ relocation
  | some assignment ↦ elim (get_entity s assignment.entity_id) [
    | none ↦ relocation
    | some entity ↦ entity.bridge_treatment
  ]
]

-- The assignments to the event of a leg, where the leg and the event exist.
abbrev pub set_leg : Option ℕ → (ClassifiedTransaction → ClassifiedTransaction) → Session → Session
set_leg none f s = s
set_leg (some event_id) f s = set_event event_id f s

abbrev pub taxable_outflow : ClassifiedTransaction → ClassifiedTransaction
taxable_outflow ct = record ct { classification = transfer_out; bridge_correlation_id = none }

abbrev pub taxable_inflow : ClassifiedTransaction → ClassifiedTransaction
taxable_inflow ct = record ct {
  classification = transfer_in;
  relocation_source_event_id = none;
  bridge_correlation_id = none;
}

abbrev pub bridged_outflow : BridgeCorrelation → ClassifiedTransaction → ClassifiedTransaction
bridged_outflow corr ct = record ct {
  classification = bridge_out;
  bridge_correlation_id = some corr.id;
}

abbrev pub bridged_inflow : BridgeCorrelation → ClassifiedTransaction → ClassifiedTransaction
bridged_inflow corr ct = record ct {
  classification = bridge_in;
  bridge_correlation_id = some corr.id;
  relocation_source_event_id = corr.outflow_classified_event_id;
}

abbrev pub linked : BridgeCorrelation → ClassifiedTransaction → ClassifiedTransaction
linked corr ct = record ct { bridge_correlation_id = some corr.id }

-- The event of a leg, if there is one.
abbrev pub leg_event : Session → Option ℕ → Option ClassifiedTransaction
leg_event s none = none
leg_event s (some event_id) = get_event s event_id

-- The treatment of the entity that owns the outflow's wallet.
unfoldable pub pair_treatment : Session → BridgeCorrelation → BridgeTreatment
pair_treatment s corr = elim (leg_event s corr.outflow_classified_event_id) [
  | none ↦ relocation
  | some ct ↦ get_entity_bridge_treatment s ct.wallet_id ct.occurred_at
]

unfoldable pub signal_confirmed : BridgeTreatment → BridgeCorrelation → Session → Session
signal_confirmed relocation corr s =
    set_leg corr.inflow_classified_event_id (bridged_inflow corr)
      (set_leg corr.outflow_classified_event_id (bridged_outflow corr) s)
signal_confirmed disposition corr s =
    set_leg corr.inflow_classified_event_id (linked corr)
      (set_leg corr.outflow_classified_event_id (linked corr) s)

unfoldable pub signal_taxable : BridgeCorrelation → Session → Session
signal_taxable corr s =
    set_leg corr.inflow_classified_event_id taxable_inflow
      (set_leg corr.outflow_classified_event_id taxable_outflow s)

unfoldable pub set_classification_signal : Session → BridgeCorrelation → Bool → Session
set_classification_signal s corr confirmed =
    if confirmed then signal_confirmed (pair_treatment s corr) corr s else signal_taxable corr s
