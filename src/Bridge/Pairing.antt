-- ===== src/Bridge/Pairing.antt =====
-- `pair_and_persist` of domain/bridge/pairing.py: the greedy assignment and the rows it writes.
use lemon_ledger.Prelude.{
  ℕ, ◌+◌, ◌==◌, opt_eq, is_some, if◌then◌else◌, Bool, true, false, ◌&&◌, ◌||◌, not, Option, none,
  some, List, [], ◌∷◌, ◌++◌, find, filter, update, any,
}
use lemon_ledger.Models.{
  Session, BridgeCorrelation, BridgeStatus, needs_confirmation, rejected, unmatched,
  BridgeResolvedBy, user,
}
use lemon_ledger.Bridge.Legs.{
  LegDirection, outflow, inflow, CandidateLeg, PairHypothesis, build_hypotheses,
}

abbrev pub is_user : Option BridgeResolvedBy → Bool
is_user (some user) = true
is_user _ = false

abbrev pub is_unmatched : BridgeStatus → Bool
is_unmatched unmatched = true
is_unmatched _ = false

abbrev pub is_rejected : BridgeStatus → Bool
is_rejected rejected = true
is_rejected _ = false

-- The column of the direction, and the other one.
abbrev pub leg_col : LegDirection → BridgeCorrelation → Option ℕ
leg_col outflow c = c.outflow_classified_event_id
leg_col inflow c = c.inflow_classified_event_id

abbrev pub other_col : LegDirection → BridgeCorrelation → Option ℕ
other_col outflow c = c.inflow_classified_event_id
other_col inflow c = c.outflow_classified_event_id

unfoldable pub is_user_resolved : Session → ℕ → LegDirection → Bool
is_user_resolved s event_id direction = is_some (
    find (λ c. opt_eq (leg_col direction c) (some event_id) && is_user c.resolved_by)
      s.correlations)

unfoldable pub existing_singleton : Session → ℕ → LegDirection → Option BridgeCorrelation
existing_singleton s event_id direction =
    find
      (λ c.
        opt_eq (leg_col direction c) (some event_id)
        && (not (is_some (other_col direction c))
            && (is_unmatched c.status && not (is_some c.resolved_by))))
      s.correlations

unfoldable pub existing_pair : Session → PairHypothesis → Option BridgeCorrelation
existing_pair s hyp =
    find
      (λ c.
        opt_eq c.outflow_classified_event_id (some hyp.outflow_leg.classified_event_id)
        && (opt_eq c.inflow_classified_event_id (some hyp.inflow_leg.classified_event_id)
            && not (is_rejected c.status)))
      s.correlations

abbrev with_deltas : PairHypothesis → BridgeCorrelation → BridgeCorrelation
with_deltas hyp c = record c {
  time_delta_seconds = some hyp.time_delta_seconds;
  amount_delta_bps = some hyp.amount_delta_bps;
}

abbrev set_correlation :
    ℕ → (BridgeCorrelation → BridgeCorrelation) → List BridgeCorrelation → List BridgeCorrelation
set_correlation k f cs = update (λ c. c.id == k) f cs

-- The assignments to a singleton of the outflow leg, and to one of the inflow leg. The status is
-- not assigned.
abbrev pub add_inflow : PairHypothesis → BridgeCorrelation → BridgeCorrelation
add_inflow hyp c =
    with_deltas hyp
      (record c { inflow_classified_event_id = some hyp.inflow_leg.classified_event_id })

abbrev pub add_outflow : PairHypothesis → BridgeCorrelation → BridgeCorrelation
add_outflow hyp c =
    with_deltas hyp
      (record c { outflow_classified_event_id = some hyp.outflow_leg.classified_event_id })

abbrev pub new_pair : Session → ℕ → PairHypothesis → BridgeCorrelation
new_pair s user_id hyp = record {
  id = s.runtime.uuid7 s.drawn;
  user_id = user_id;
  logical_asset_id = hyp.outflow_leg.logical_asset_id;
  outflow_classified_event_id = some hyp.outflow_leg.classified_event_id;
  inflow_classified_event_id = some hyp.inflow_leg.classified_event_id;
  status = needs_confirmation;
  confidence_level = none;
  confidence_score = none;
  matched_custody_address = none;
  custody_recognition = none;
  time_delta_seconds = some hyp.time_delta_seconds;
  amount_delta_bps = some hyp.amount_delta_bps;
  user_resolution = none;
  resolved_at = none;
  resolved_by = none;
  created_at = s.runtime.now;
}

abbrev pub add_correlation : BridgeCorrelation → Session → Session
add_correlation c s = record s { correlations = s.correlations ++ (c ∷ []); drawn = s.drawn + 1 }

-- The row of a new pair: singletons are upgraded in place, the inflow's deleted if both exist.
unfoldable pub write_pair :
    Session
    → ℕ
    → PairHypothesis
    → Option BridgeCorrelation
    → Option BridgeCorrelation
    → Session × BridgeCorrelation
write_pair s user_id hyp (some out) (some inf) = (
  record s {
    correlations =
        filter (λ c. not (c.id == inf.id)) (set_correlation out.id (add_inflow hyp) s.correlations);
  },
  add_inflow hyp out,
)
write_pair s user_id hyp (some out) none = (
  record s { correlations = set_correlation out.id (add_inflow hyp) s.correlations },
  add_inflow hyp out,
)
write_pair s user_id hyp none (some inf) = (
  record s { correlations = set_correlation inf.id (add_outflow hyp) s.correlations },
  add_outflow hyp inf,
)
write_pair s user_id hyp none none = let c = new_pair s user_id hyp in (add_correlation c s, c)

-- The state of the loops: the session, the set `used` and the list `written`.
pub record Pass : Type 0 where
  pub session : Session
  pub used : List ℕ
  pub written : List BridgeCorrelation

abbrev pub contains : ℕ → List ℕ → Bool
contains k used = any (λ j. j == k) used

-- One round of the loop over the hypotheses.
unfoldable pub pair_step : ℕ → PairHypothesis → Pass → Pass
pair_step user_id hyp pass =
    let s = pass.session in
    let out_id = hyp.outflow_leg.classified_event_id in
    let in_id = hyp.inflow_leg.classified_event_id in
    if contains out_id pass.used || contains in_id pass.used
    then pass
    else if is_user_resolved s out_id outflow
    then record pass { used = out_id ∷ pass.used }
    else if is_user_resolved s in_id inflow
    then record pass { used = in_id ∷ pass.used }
    else elim (existing_pair s hyp) [
      | some c ↦ record pass {
        used = in_id ∷ out_id ∷ pass.used;
        written = pass.written ++ (c ∷ []);
      }
      | none ↦
          let (s', c) =
            write_pair s user_id hyp (existing_singleton s out_id outflow)
              (existing_singleton s in_id inflow) in
          record {
            session = s';
            used = in_id ∷ out_id ∷ pass.used;
            written = pass.written ++ (c ∷ []);
          }
    ]

abbrev pub outflow_part : CandidateLeg → Option ℕ
outflow_part leg = elim leg.direction [ outflow ↦ some leg.classified_event_id | inflow ↦ none ]

abbrev pub inflow_part : CandidateLeg → Option ℕ
inflow_part leg = elim leg.direction [ outflow ↦ none | inflow ↦ some leg.classified_event_id ]

abbrev pub new_singleton : Session → ℕ → CandidateLeg → BridgeCorrelation
new_singleton s user_id leg = record {
  id = s.runtime.uuid7 s.drawn;
  user_id = user_id;
  logical_asset_id = leg.logical_asset_id;
  outflow_classified_event_id = outflow_part leg;
  inflow_classified_event_id = inflow_part leg;
  status = unmatched;
  confidence_level = none;
  confidence_score = none;
  matched_custody_address = none;
  custody_recognition = none;
  time_delta_seconds = none;
  amount_delta_bps = none;
  user_resolution = none;
  resolved_at = none;
  resolved_by = none;
  created_at = s.runtime.now;
}

-- One round of the loop over the legs that are left.
unfoldable pub leg_step : ℕ → CandidateLeg → Pass → Pass
leg_step user_id leg pass =
    let s = pass.session in
    let leg_id = leg.classified_event_id in
    if contains leg_id pass.used
    then pass
    else if is_user_resolved s leg_id leg.direction
    then pass
    else elim (existing_singleton s leg_id leg.direction) [
      | some c ↦ record pass { written = pass.written ++ (c ∷ []) }
      | none ↦
          let c = new_singleton s user_id leg in
          record pass { session = add_correlation c s; written = pass.written ++ (c ∷ []) }
    ]

unfoldable pub pair_loop : ℕ → List PairHypothesis → Pass → Pass
pair_loop user_id [] pass = pass
pair_loop user_id (hyp ∷ hyps) pass = pair_loop user_id hyps (pair_step user_id hyp pass)

unfoldable pub leg_loop : ℕ → List CandidateLeg → Pass → Pass
leg_loop user_id [] pass = pass
leg_loop user_id (leg ∷ legs) pass = leg_loop user_id legs (leg_step user_id leg pass)

unfoldable pub pair_and_persist : Session → List CandidateLeg → ℕ → Session × List BridgeCorrelation
pair_and_persist s legs user_id =
    let start : Pass = record { session = s; used = []; written = [] } in
    let paired = pair_loop user_id (build_hypotheses legs) start in
    let done = leg_loop user_id legs paired in (done.session, done.written)
