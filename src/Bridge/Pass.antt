-- ===== src/Bridge/Pass.antt =====
-- `_run_bridge_pass_inner` of domain/bridge/tasks.py: find the legs, pair them, score the pairs,
-- set the signals, and rebuild the lots of the wallets concerned.
pub mod UserRows
pub mod Kept
use lemon_ledger.Prelude.{
  ℕ, pos, ◌+◌, get_or, if◌then◌else◌, Bool, true, false, ◌&&◌, ◌||◌, Option, none, some, List, [],
  ◌∷◌, ◌++◌, ok, ◌>>=◌,
}
use lemon_ledger.Models.{
  Session, Try, ClassifiedTransaction, ClassificationKind, transfer_out, bridge_out, get_event,
  BridgeCorrelation, auto, CustodyRecognition, ConfidenceLevel,
}
use lemon_ledger.Bridge.Legs.{outflow, inflow, CandidateLeg, PairHypothesis}
use lemon_ledger.Bridge.Candidates.{find_candidate_legs, default_materiality}
use lemon_ledger.Bridge.Pairing.{is_user, is_rejected, contains, pair_and_persist}
use lemon_ledger.Bridge.Confidence.{score_pair, status_for_level}
use lemon_ledger.Bridge.Custody.{is_confirmed, strongest_custody}
use lemon_ledger.Bridge.Signals.{set_classification_signal}
use lemon_ledger.Bridge.Workflow.{get_correlation, set_correlation}
use lemon_ledger.Lots.Engine.{rebuild_wallet}

abbrev pub is_out : ClassificationKind → Bool
is_out transfer_out = true
is_out bridge_out = true
is_out _ = false

-- `_ct_to_leg`, where 0 stands for the key `uuid.UUID(int=0)`.
unfoldable pub ct_to_leg : ClassifiedTransaction → ℕ → CandidateLeg
ct_to_leg ct user_id = record {
  classified_event_id = ct.id;
  direction = if is_out ct.classification then outflow else inflow;
  wallet_id = ct.wallet_id;
  user_id = user_id;
  chain = ct.chain;
  logical_asset_id = 0;
  token_id = get_or ct.token_id 0;
  amount = ct.amount;
  value_usd = ct.value_usd_at_event;
  occurred_at = ct.occurred_at;
  contract_address = ct.contract_address;
}

unfoldable pub hypothesis_of :
    ℕ → BridgeCorrelation → ClassifiedTransaction → ClassifiedTransaction → PairHypothesis
hypothesis_of user_id corr out_ct in_ct = record {
  outflow_leg = ct_to_leg out_ct user_id;
  inflow_leg = ct_to_leg in_ct user_id;
  time_delta_seconds = get_or corr.time_delta_seconds (pos 0);
  amount_delta_bps = get_or corr.amount_delta_bps (pos 0);
}

-- The two events of a pair that is to be scored.
unfoldable pub scorable :
    Session → BridgeCorrelation → Option (ClassifiedTransaction × ClassifiedTransaction)
scorable s corr =
    if (is_confirmed corr.status || is_rejected corr.status) && is_user corr.resolved_by
    then none
    else elim corr.outflow_classified_event_id [
      | none ↦ none
      | some out_id ↦ elim corr.inflow_classified_event_id [
        | none ↦ none
        | some in_id ↦ elim (get_event s out_id) [
          | none ↦ none
          | some out_ct ↦ elim (get_event s in_id) [
            | none ↦ none
            | some in_ct ↦ some (out_ct, in_ct)
          ]
        ]
      ]
    ]

-- The assignments to the correlation.
abbrev pub scored_row :
    ℕ → ConfidenceLevel × ℕ → CustodyRecognition × Option ℕ → BridgeCorrelation → BridgeCorrelation
scored_row now (level, score) (custody, winning_addr) corr =
    let is_final = is_confirmed (status_for_level level) in
    record corr {
      confidence_level = some level;
      confidence_score = some score;
      custody_recognition = some custody;
      matched_custody_address = winning_addr;
      status = status_for_level level;
      resolved_by = if is_final then some auto else none;
      resolved_at = if is_final then some now else corr.resolved_at;
    }

unfoldable pub scored :
    Session
    → ℕ
    → BridgeCorrelation
    → ClassifiedTransaction
    → ClassifiedTransaction
    → BridgeCorrelation
scored s user_id corr out_ct in_ct =
    let custody =
      strongest_custody s (some out_ct.contract_address) (some in_ct.contract_address) out_ct.chain
        in_ct.chain in
    scored_row s.runtime.now (score_pair (hypothesis_of user_id corr out_ct in_ct) custody.0)
      custody corr

-- The state of the loop: the session, `scored`, and the set `affected_wallets`.
pub record Scoring : Type 0 where
  pub session : Session
  pub count : ℕ
  pub affected : List ℕ

abbrev pub with_wallet : ℕ → List ℕ → List ℕ
with_wallet k ks = if contains k ks then ks else ks ++ (k ∷ [])

-- One round. The objects of the list are rows of the session, so the row is read by its key.
unfoldable pub score_one : ℕ → ℕ → Scoring → Scoring
score_one user_id corr_id state = elim (get_correlation state.session corr_id) [
  | none ↦ state
  | some corr ↦ elim (scorable state.session corr) [
    | none ↦ state
    | some (out_ct, in_ct) ↦
        let s = state.session in
        let after = scored s user_id corr out_ct in_ct in
        record {
          session =
              set_classification_signal (set_correlation corr.id (λ _. after) s) after
                (is_confirmed after.status);
          count = state.count + 1;
          affected = with_wallet in_ct.wallet_id (with_wallet out_ct.wallet_id state.affected);
        }
  ]
]

unfoldable pub score_loop : ℕ → List BridgeCorrelation → Scoring → Scoring
score_loop user_id [] state = state
score_loop user_id (corr ∷ pairs) state = score_loop user_id pairs (score_one user_id corr.id state)

-- The pass up to its first commit.
unfoldable pub correlate : Session → ℕ → Option ℕ → Scoring
correlate s user_id since =
    let legs = find_candidate_legs s user_id since default_materiality in
    let (paired, pairs) = pair_and_persist s legs user_id in
    score_loop user_id pairs (record { session = paired; count = 0; affected = [] })

unfoldable pub rebuild_all : List ℕ → Session → Try Session
rebuild_all [] s = ok s
rebuild_all (wallet_id ∷ wallets) s =
    rebuild_wallet s wallet_id >>= λ rebuilt. rebuild_all wallets rebuilt

-- `iteration` is the order in which Python walks through a set of keys.
unfoldable pub run_bridge_pass : (List ℕ → List ℕ) → Session → ℕ → Option ℕ → Try Session
run_bridge_pass iteration s user_id since =
    let done = correlate s user_id since in rebuild_all (iteration done.affected) done.session
