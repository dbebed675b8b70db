-- ===== src/Bridge/Confidence/Tiers.antt =====
-- On the tiers of domain/bridge/confidence.py.
use lemon_ledger.Prelude.{ℕ, ◌≤◌, magnitude}
use lemon_ledger.Models.{
  CustodyRecognition, recognized, inferred, unknown, ConfidenceLevel, high, medium, low,
}
use lemon_ledger.Bridge.Legs.{PairHypothesis}

-- How much is known of a custody address, and how sure a level is.
abbrev pub trust : CustodyRecognition → ℕ
trust unknown = 0
trust inferred = 1
trust recognized = 2

abbrev pub sureness : ConfidenceLevel → ℕ
sureness low = 0
sureness medium = 1
sureness high = 2

-- The second pair has no greater differences of amount and time, and no less trusted an address.
pub record IsBetter (worse better : PairHypothesis) (known known' : CustodyRecognition)
    : Type 0 where
  pub amounts : magnitude better.amount_delta_bps ≤ magnitude worse.amount_delta_bps
  pub times : magnitude better.time_delta_seconds ≤ magnitude worse.time_delta_seconds
  pub addresses : trust known ≤ trust known'
