-- ===== src/CrossEntity/Detection/Stamps.antt =====
-- What the lot engine derives from the stamps of domain/cross_entity/detection.py.
use lemon_ledger.Prelude.{ℕ, ◌==◌, ◌≡◌, ◌≢◌, refl, true, none, some, List, ok}
use lemon_ledger.Models.{
  ClassifiedTransaction, get_event, set_event, WalletEntityAssignment, relocate, no_treatment,
}
use lemon_ledger.CrossEntity.Detection.{
  Detected, find_own_inflow, resolve_entity_at, detect_one, own_branch, own_transfer, stamp_outflow,
  stamp_own_inflow,
}
use lemon_ledger.Bridge.Signals.Treatments.{Derives, both}
use lemon_ledger.Lots.Treatment.{derive_treatment, treatment_from_resolution}

module _ (user_id : ℕ) (wallet_ids own : List ℕ) (ct inf : ClassifiedTransaction) (d : Detected)
    (from_asgn to_asgn : WalletEntityAssignment) where
  -- An outflow with an own inflow, where both wallets belong to one entity at the outflow's time:
  -- the pass stamps the two events, so that the engine leaves the outflow alone and relocates the
  -- lots at the inflow, and it writes no pending row. The two events are different rows of the
  -- session, and the outflow has no relocation source of its own.
  pub detect_one-internal :
      find_own_inflow d.session ct wallet_ids ≡ some inf
      → resolve_entity_at d.session ct.wallet_id ct.occurred_at ≡ ok from_asgn
      → resolve_entity_at d.session inf.wallet_id ct.occurred_at ≡ ok to_asgn
      → ((from_asgn.entity_id == to_asgn.entity_id) ≡ true)
      → ct.id ≢ inf.id
      → get_event d.session ct.id ≡ some ct
      → get_event d.session inf.id ≡ some inf
      → ct.relocation_source_event_id ≡ none
      → Derives (detect_one user_id wallet_ids own ct d).session ct.id no_treatment
        × Derives (detect_one user_id wallet_ids own ct d).session inf.id relocate
        × ((detect_one user_id wallet_ids own ct d).session.pendings ≡ d.session.pendings)
  unfolding detect_one own_branch own_transfer derive_treatment treatment_from_resolution set_event
  detect_one-internal found from_ok to_ok one apart here there plain =
      let (found_o, found_i) =
        both d.session stamp_outflow (stamp_own_inflow ct.id) (λ _. refl) (λ _. refl) ct.id inf.id
          ct inf apart here there in
      rw (detect_one, found, own_branch, from_ok, to_ok, own_transfer, one)
        (
          (stamp_outflow ct, found_o, rw plain refl),
          (stamp_own_inflow ct.id inf, found_i, refl),
          refl,
        )
