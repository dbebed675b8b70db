-- ===== src/Tests/Transfers.antt =====
-- Transfers between wallets, and the theorems on domain/cross_entity/detection.py applied to them.
use lemon_ledger.Prelude.{sorted, ℕ, ◌≡◌, refl, arith, none, [], ◌∷◌, true}
use lemon_ledger.Models.{
  Session, ClassifiedTransaction, transfer_in, lemonchain, Wallet, WalletEntityAssignment, relocate,
  no_treatment,
}
use lemon_ledger.Tests.{start, sale_event}
use lemon_ledger.CrossEntity.Detection.{
  find_own_inflow, resolve_entity_at, Detected, detect_for_user, detect_one,
}
use lemon_ledger.CrossEntity.Detection.Pendings.{Adds, detect_for_user-Adds}
use lemon_ledger.CrossEntity.Detection.Stamps.{detect_one-internal}
use lemon_ledger.Bridge.Signals.Treatments.{Derives}

abbrev received : ClassifiedTransaction
received = record sale_event { id = 61; wallet_id = 8; classification = transfer_in }

abbrev assigned : ℕ → ℕ → WalletEntityAssignment
assigned wallet_id entity_id = record {
  wallet_id = wallet_id;
  entity_id = entity_id;
  effective_from = 0;
  effective_to = none;
}

abbrev own_wallet : ℕ → ℕ → Wallet
own_wallet id address = record {
  id = id;
  user_id = 1;
  chain = lemonchain;
  address = address;
  last_synced_at = none;
  last_synced_block = none;
  last_classified_block = none;
  is_active = true;
}

abbrev two_wallets : Session
two_wallets = record start {
  events = sale_event ∷ received ∷ [];
  wallets = own_wallet 7 77 ∷ own_wallet 8 88 ∷ [];
  assignments = assigned 7 9 ∷ assigned 8 9 ∷ [];
  pendings = [];
}

abbrev begin : Session → Detected
begin s = record { session = s; auto_resolved = 0; pending_created = 0 }

detect_for_user-Adds_example : Adds (begin two_wallets) (detect_for_user two_wallets 1 none)
detect_for_user-Adds_example = detect_for_user-Adds two_wallets 1 none (λ k. omega arith)

detect_one-internal_example :
    Derives (detect_one 1 (7 ∷ 8 ∷ []) [] sale_event (begin two_wallets)).session 60 no_treatment
    × Derives (detect_one 1 (7 ∷ 8 ∷ []) [] sale_event (begin two_wallets)).session 61 relocate
    × ((detect_one 1 (7 ∷ 8 ∷ []) [] sale_event (begin two_wallets)).session.pendings ≡ [])
unfolding find_own_inflow resolve_entity_at sorted
detect_one-internal_example =
    detect_one-internal 1 (7 ∷ 8 ∷ []) [] sale_event received (begin two_wallets) (assigned 7 9)
      (assigned 8 9) refl refl refl refl (λ e. ground (arith, e)) refl refl refl
