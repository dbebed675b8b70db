-- ===== src/Bridge/Confidence.antt =====
-- domain/bridge/confidence.py: the tier of a pair. Scores are in units of 10^-4, the scale of
-- their column.
pub mod Tiers
use lemon_ledger.Prelude.{ℕ, leb, if◌then◌else◌, magnitude, Bool, true, false, ◌&&◌}
use lemon_ledger.Models.{
  BridgeStatus, confirmed, needs_confirmation, ConfidenceLevel, high, medium, low,
  CustodyRecognition, recognized, unknown,
}
use lemon_ledger.Bridge.Legs.{PairHypothesis}

abbrev pub is_recognized : CustodyRecognition → Bool
is_recognized recognized = true
is_recognized _ = false

-- `custody in (RECOGNIZED, INFERRED)`
abbrev pub is_known : CustodyRecognition → Bool
is_known unknown = false
is_known _ = true

unfoldable pub score_pair : PairHypothesis → CustodyRecognition → ConfidenceLevel × ℕ
score_pair hyp custody =
    let abs_bps = magnitude hyp.amount_delta_bps in
    let abs_dt = magnitude hyp.time_delta_seconds in
    if leb abs_bps 50 && (leb abs_dt 1_800 && is_recognized custody)
    then (high, 9_500)
    else if leb abs_bps 200 && (leb abs_dt 7_200 && is_known custody)
    then (medium, 6_500)
    else if leb abs_bps 500 && leb abs_dt 14_400
    then (low, 3_500)
    else (low, 1_000)

unfoldable pub status_for_level : ConfidenceLevel → BridgeStatus
status_for_level high = confirmed
status_for_level _ = needs_confirmation
