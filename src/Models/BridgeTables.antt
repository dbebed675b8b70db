-- ===== src/Models/BridgeTables.antt =====
-- The tables of models/bridge.py, with the columns that domain/bridge reads or writes.
use lemon_ledger.Prelude.{ℕ, ℤ, String, Option}
use lemon_ledger.Models.Enums.{
  Chain, BridgeStatus, BridgeResolvedBy, ConfidenceLevel, CustodyRecognition, UserResolution,
  CustodySource,
}

-- A score is a number of units of 10^-4, the scale of its column.
pub record BridgeCorrelation : Type 0 where
  pub id : ℕ
  pub user_id : ℕ
  pub logical_asset_id : ℕ
  pub outflow_classified_event_id : Option ℕ
  pub inflow_classified_event_id : Option ℕ
  pub status : BridgeStatus
  pub confidence_level : Option ConfidenceLevel
  pub confidence_score : Option ℕ
  pub matched_custody_address : Option ℕ
  pub custody_recognition : Option CustodyRecognition
  pub time_delta_seconds : Option ℤ
  pub amount_delta_bps : Option ℤ
  pub user_resolution : Option UserResolution
  pub resolved_at : Option ℕ
  pub resolved_by : Option BridgeResolvedBy
  pub created_at : ℕ

-- `custody_addresses`: addresses are stored in lower case.
pub record CustodyAddress : Type 0 where
  pub chain : Chain
  pub address : ℕ
  pub recognition : CustodyRecognition
  pub source : CustodySource
  pub confirmed_pair_count : ℕ
  pub unique_user_count : ℕ
  pub promoted_at : Option ℕ

-- `_corr_snapshot` of domain/bridge/workflow.py
pub record CorrSnapshot : Type 0 where
  pub status : BridgeStatus
  pub confidence_level : Option ConfidenceLevel
  pub confidence_score : Option ℕ
  pub resolved_by : Option BridgeResolvedBy
  pub resolved_at : Option ℕ
  pub user_resolution : Option UserResolution

-- The texts "confirm", "reject", "resolve_unmatched:..." and "surface_aged_unmatched".
pub data BridgeAction : Type 0 where
  confirm_action reject_action surface_action : BridgeAction
  unmatched_action : UserResolution → BridgeAction

pub record BridgeAuditLog : Type 0 where
  pub correlation_id : ℕ
  pub actor : String
  pub action : BridgeAction
  pub before_state : Option CorrSnapshot
  pub after_state : Option CorrSnapshot
