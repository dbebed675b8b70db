-- ===== src/Tests/Bridge.antt =====
-- A pair of events on two chains, and the theorems on domain/bridge applied to it.
use lemon_ledger.Prelude.{sorted, ◌+◌, ◌==◌, ◌≡◌, refl, arith, none, some, [], ◌∷◌, true}
use lemon_ledger.Models.{
  Session, ClassifiedTransaction, transfer_in, bsc, lemonchain, BridgeCorrelation, rejected,
  needs_confirmation, user, relocate, no_treatment, recognized, curated, third_party,
  CustodyAddress, Wallet,
}
use lemon_ledger.Tests.{start, sale_event, runtime}
use lemon_ledger.Bridge.Signals.{
  set_classification_signal, pair_treatment, get_entity_bridge_treatment, latest_assignment,
}
use lemon_ledger.Bridge.Signals.Treatments.{Derives, set_classification_signal-treatments}
use lemon_ledger.Bridge.Workflow.{confirm}
use lemon_ledger.Bridge.Workflow.Unmatched.{Disposes, resolve_unmatched-Disposes}
use lemon_ledger.Bridge.Workflow.Decisions.{Resolves, resolve_pair-Resolves}
use lemon_ledger.Bridge.Custody.{strongest_custody}
use lemon_ledger.Bridge.Custody.Strongest.{strongest_custody-max, stronger, of_leg}
use lemon_ledger.Bridge.Pass.{correlate}
use lemon_ledger.Bridge.Pass.UserRows.{user_rows}
use lemon_ledger.Bridge.Pass.Kept.{correlate-user_rows}

-- What arrives on the other chain ten minutes after the outflow.
abbrev arrived : ClassifiedTransaction
arrived = record sale_event {
  id = 61;
  wallet_id = 8;
  chain = bsc;
  classification = transfer_in;
  occurred_at = 600_000_009;
}

abbrev pair : BridgeCorrelation
pair = record {
  id = 400;
  user_id = 1;
  logical_asset_id = 2;
  outflow_classified_event_id = some 60;
  inflow_classified_event_id = some 61;
  status = needs_confirmation;
  confidence_level = none;
  confidence_score = none;
  matched_custody_address = some 4;
  custody_recognition = none;
  time_delta_seconds = none;
  amount_delta_bps = none;
  user_resolution = none;
  resolved_at = none;
  resolved_by = none;
  created_at = 0;
}

-- A pair that a user rejected.
abbrev users_pair : BridgeCorrelation
users_pair = record pair {
  id = 500;
  outflow_classified_event_id = some 90;
  inflow_classified_event_id = some 91;
  status = rejected;
  resolved_by = some user;
}

abbrev wallet : Wallet
wallet = record {
  id = 7;
  user_id = 1;
  chain = lemonchain;
  address = 77;
  last_synced_at = none;
  last_synced_block = none;
  last_classified_block = none;
  is_active = true;
}

abbrev custodian : CustodyAddress
custodian = record {
  chain = lemonchain;
  address = 4;
  recognition = recognized;
  source = curated;
  confirmed_pair_count = 0;
  unique_user_count = 0;
  promoted_at = none;
}

abbrev bridged : Session
bridged = record start {
  runtime = record runtime { uuid7 = λ n. 1_000 + n };
  events = sale_event ∷ arrived ∷ [];
  memberships = record { token_id = 3; logical_asset_id = 2 } ∷ [];
  wallets = wallet ∷ record wallet { id = 8; chain = bsc } ∷ [];
  custody = custodian ∷ [];
  correlations = users_pair ∷ pair ∷ [];
}

set_classification_signal-treatments_example :
    Derives (set_classification_signal bridged pair true) 60 no_treatment
    × Derives (set_classification_signal bridged pair true) 61 relocate
unfolding pair_treatment get_entity_bridge_treatment latest_assignment sorted
set_classification_signal-treatments_example =
    set_classification_signal-treatments bridged pair true 60 61 sale_event arrived refl refl
      (λ e. ground (arith, e)) refl refl refl refl

resolve_pair-Resolves_example : Resolves bridged 400 confirm "ann"
resolve_pair-Resolves_example = resolve_pair-Resolves bridged 400 pair confirm "ann" refl

strongest_custody-max_example :
    strongest_custody bridged (some 5) (some 4) bsc lemonchain
    ≡ stronger (of_leg bridged (some 5) bsc) (of_leg bridged (some 4) lemonchain)
strongest_custody-max_example = strongest_custody-max bridged (some 5) (some 4) bsc lemonchain

correlate-user_rows_example :
    user_rows (correlate bridged 1 none).session.correlations ≡ users_pair ∷ []
correlate-user_rows_example =
    correlate-user_rows (λ k. k == 500) bridged 1 none (refl, (refl, tt)) (λ n. ground arith)

-- The outflow on its own.
abbrev alone : BridgeCorrelation
alone = record pair { id = 401; inflow_classified_event_id = none }

abbrev lonely : Session
lonely = record bridged { correlations = alone ∷ [] }

resolve_unmatched-Disposes_example : Disposes lonely 401 third_party "ann" sale_event
resolve_unmatched-Disposes_example =
    resolve_unmatched-Disposes lonely 401 alone "ann" sale_event refl refl refl refl third_party
      refl
