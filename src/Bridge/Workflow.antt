-- ===== src/Bridge/Workflow.antt =====
-- The decisions of users and the nightly surfacing: `resolve_pair`, `resolve_unmatched` and
-- `surface_aged_unmatched` of domain/bridge/workflow.py.
pub mod Decisions
pub mod Unmatched
use lemon_ledger.Prelude.{
  ℕ, ◌+◌, ltb, leb, ◌==◌, is_some, if◌then◌else◌, Bool, true, false, ◌&&◌, not, Option, none, some,
  List, [], ◌∷◌, ◌++◌, find, filter, update, String, Result, ok, err,
}
use lemon_ledger.Models.{
  Session, ClassifiedTransaction, get_event, set_event, needs_review, BridgeCorrelation,
  BridgeStatus, confirmed, rejected, unmatched, user, UserResolution, sold, third_party,
  bridge_pending, CorrSnapshot, BridgeAction, confirm_action, reject_action, unmatched_action,
  surface_action,
}
use lemon_ledger.Bridge.Pairing.{is_user, is_unmatched, is_rejected}
use lemon_ledger.Bridge.Custody.{is_confirmed}
use lemon_ledger.Bridge.Signals.{set_classification_signal}

pub data Decision : Type 0 where
  confirm reject : Decision

-- The ValueError that the two resolving calls raise.
pub data BridgeError : Type 0 where
  correlation_not_found : ℕ → BridgeError

abbrev pub get_correlation : Session → ℕ → Option BridgeCorrelation
get_correlation s k = find (λ c. c.id == k) s.correlations

-- An assignment to the attributes of the correlation with the key `k`.
unfoldable pub set_correlation : ℕ → (BridgeCorrelation → BridgeCorrelation) → Session → Session
set_correlation k f s = record s { correlations = update (λ c. c.id == k) f s.correlations }

-- A score of zero is falsy.
abbrev pub shown_score : Option ℕ → Option ℕ
shown_score none = none
shown_score (some score) = if score == 0 then none else some score

unfoldable pub corr_snapshot : BridgeCorrelation → CorrSnapshot
corr_snapshot corr = record {
  status = corr.status;
  confidence_level = corr.confidence_level;
  confidence_score = shown_score corr.confidence_score;
  resolved_by = corr.resolved_by;
  resolved_at = corr.resolved_at;
  user_resolution = corr.user_resolution;
}

unfoldable pub write_audit :
    ℕ → String → BridgeAction → Option CorrSnapshot → Option CorrSnapshot → Session → Session
write_audit corr_id actor action before after s = record s {
  bridge_audit =
      s.bridge_audit
      ++ (record {
        correlation_id = corr_id;
        actor = actor;
        action = action;
        before_state = before;
        after_state = after;
      }
          ∷ []);
}

abbrev pub status_of : Decision → BridgeStatus
status_of confirm = confirmed
status_of reject = rejected

abbrev pub action_of : Decision → BridgeAction
action_of confirm = confirm_action
action_of reject = reject_action

abbrev pub is_confirm : Decision → Bool
is_confirm confirm = true
is_confirm reject = false

abbrev pub same_outcome : Decision → BridgeStatus → Bool
same_outcome confirm status = is_confirmed status
same_outcome reject status = is_rejected status

abbrev pub decided : ℕ → Decision → BridgeCorrelation → BridgeCorrelation
decided now decision corr = record corr {
  status = status_of decision;
  resolved_by = some user;
  resolved_at = some now;
}

-- The statements of `resolve_pair` after its guards.
unfoldable pub decide_pair : Session → ℕ → BridgeCorrelation → Decision → String → Session
decide_pair s corr_id corr decision actor =
    let after = decided s.runtime.now decision corr in
    write_audit corr_id actor (action_of decision) (some (corr_snapshot corr))
      (some (corr_snapshot after))
      (set_classification_signal (set_correlation corr_id (λ _. after) s) after
        (is_confirm decision))

unfoldable pub resolve_pair : Session → ℕ → Decision → String → Result BridgeError Session
resolve_pair s corr_id decision actor = elim (get_correlation s corr_id) [
  | none ↦ err (correlation_not_found corr_id)
  | some corr ↦
      if is_user corr.resolved_by && same_outcome decision corr.status
      then ok s
      else ok (decide_pair s corr_id corr decision actor)
]

abbrev pub is_sale : UserResolution → Bool
is_sale sold = true
is_sale third_party = true
is_sale _ = false

abbrev pub is_bridge_pending : UserResolution → Bool
is_bridge_pending bridge_pending = true
is_bridge_pending _ = false

abbrev pub disposed : ℕ → UserResolution → BridgeCorrelation → BridgeCorrelation
disposed now user_resolution corr = record corr {
  user_resolution = some user_resolution;
  resolved_by = some user;
  resolved_at = some now;
  status = if is_sale user_resolution then rejected else unmatched;
}

-- `corr.outflow_classified_event_id or corr.inflow_classified_event_id`
abbrev pub leg_id : BridgeCorrelation → Option ℕ
leg_id corr = elim corr.outflow_classified_event_id [
  | none ↦ corr.inflow_classified_event_id
  | some event_id ↦ some event_id
]

abbrev pub review_leg : Option ℕ → Session → Session
review_leg none s = s
review_leg (some event_id) s = set_event event_id needs_review s

-- The effect of the user's resolution on the events.
unfoldable pub dispose_legs : UserResolution → BridgeCorrelation → Session → Session
dispose_legs user_resolution corr s =
    if is_sale user_resolution
    then set_classification_signal s corr false
    else if is_bridge_pending user_resolution
    then s
    else review_leg (leg_id corr) s

unfoldable pub resolve_unmatched :
    Session → ℕ → UserResolution → String → Result BridgeError Session
resolve_unmatched s corr_id user_resolution actor = elim (get_correlation s corr_id) [
  | none ↦ err (correlation_not_found corr_id)
  | some corr ↦
      let after = disposed s.runtime.now user_resolution corr in
      ok (
        write_audit corr_id actor (unmatched_action user_resolution) (some (corr_snapshot corr))
          (some (corr_snapshot after))
          (dispose_legs user_resolution after (set_correlation corr_id (λ _. after) s)))
]

-- Microseconds in seven days, and in 24 hours.
abbrev pub aged_unmatched_window : ℕ
aged_unmatched_window = 604_800_000_000

abbrev pub sync_watermark_buffer : ℕ
sync_watermark_buffer = 86_400_000_000

unfoldable pub wallet_synced_past : Session → ℕ → ℕ → Bool
wallet_synced_past s wallet_id ts = elim (find (λ w. w.id == wallet_id) s.wallets) [
  | none ↦ false
  | some w ↦ elim w.last_synced_at [
    | none ↦ false
    | some synced ↦ leb (ts + sync_watermark_buffer) synced
  ]
]

-- `created_at < now - 7 days`, with the window on the other side.
unfoldable pub is_aged : ℕ → BridgeCorrelation → Bool
is_aged now c =
    is_unmatched c.status
    && (not (is_some c.resolved_by) && ltb (c.created_at + aged_unmatched_window) now)

-- The event of the correlation's leg, if the loop gets past its three tests.
unfoldable pub surfaced_event : Session → BridgeCorrelation → Option ClassifiedTransaction
surfaced_event s corr = elim (leg_id corr) [
  | none ↦ none
  | some event_id ↦ elim (get_event s event_id) [
    | none ↦ none
    | some ct ↦ if wallet_synced_past s ct.wallet_id ct.occurred_at then some ct else none
  ]
]

-- One round of the loop, and the loop with the list `surfaced`.
unfoldable pub surface_one : Session → BridgeCorrelation → ClassifiedTransaction → Session
surface_one s corr ct =
    write_audit corr.id "system" surface_action (some (corr_snapshot corr)) none
      (set_event ct.id needs_review (set_classification_signal s corr false))

unfoldable pub surface_loop :
    List BridgeCorrelation → Session → List BridgeCorrelation → Session × List BridgeCorrelation
surface_loop [] s surfaced = (s, surfaced)
surface_loop (corr ∷ aged) s surfaced = elim (surfaced_event s corr) [
  | none ↦ surface_loop aged s surfaced
  | some ct ↦ surface_loop aged (surface_one s corr ct) (surfaced ++ (corr ∷ []))
]

unfoldable pub surface_aged_unmatched : Session → Session × List BridgeCorrelation
surface_aged_unmatched s = surface_loop (filter (is_aged s.runtime.now) s.correlations) s []
