-- ===== src/Models/Tables.antt =====
-- Rows of the tables. Keys, addresses and hashes are only compared and ordered, so they are
-- numbers. A moment is a number of microseconds and a date a number of days, in UTC. A quantity
-- of a token is a number of units of 10^-18, the scale of its column; an amount of dollars is an
-- integer of units of 10^-18. Quantities are never negative: `ck_tax_lots_quantity_remaining`
-- keeps those of a lot so, and an event's amount comes from an unsigned 256-bit transfer.
use lemon_ledger.Prelude.{ℕ, ℤ, Bool, String, Option}
use lemon_ledger.Models.Enums.{
  Chain, ClassificationKind, AssetClass, HoldingPeriod, AcquisitionType, BasisMethod,
  SelectionStrategy, LotExceptionReason, TransferResolution, CoveredStatus, AdjustmentCode,
  RelocationReason, AssetKind, PendingClassificationKind, PendingClassificationState,
  ChosenClassification, ResolvedBy, BridgeTreatment,
}

-- The columns of classified_transactions that the engine, the resolve service and the bridge
-- module read or write; `related_lots` is used by none of them.
pub record ClassifiedTransaction : Type 0 where
  pub id : ℕ
  pub wallet_id : ℕ
  pub chain : Chain
  pub tx_hash : ℕ
  pub event_seq : ℕ
  pub block_number : ℕ
  pub occurred_at : ℕ
  pub classification : ClassificationKind
  pub token_id : Option ℕ
  pub contract_address : ℕ
  pub amount : ℕ
  pub value_usd_at_event : Option ℤ
  pub needs_review : Bool
  pub manual_override : Bool
  pub bridge_correlation_id : Option ℕ
  pub relocation_source_event_id : Option ℕ
  pub transfer_resolution : Option TransferResolution
  pub notes : Option String

pub record TaxLot : Type 0 where
  pub id : ℕ
  pub wallet_id : ℕ
  pub acquired_token_id : ℕ
  pub logical_asset_id : Option ℕ
  pub entity_id : ℕ
  pub acquired_at : ℕ
  pub acquisition_type : AcquisitionType
  pub asset_class : AssetClass
  pub quantity : ℕ
  pub quantity_remaining : ℕ
  pub cost_basis_usd : ℤ
  pub source_classified_tx_id : ℕ

-- Nothing reads the key of a disposal, a relocation or an exception, so these have none.
pub record LotDisposal : Type 0 where
  pub lot_id : ℕ
  pub disposal_tx_id : ℕ
  pub quantity_consumed : ℕ
  pub proceeds_usd : ℤ
  pub basis_consumed_usd : ℤ
  pub gain_loss_usd : ℤ
  pub holding_period : HoldingPeriod
  pub asset_class : AssetClass
  pub selection_strategy : SelectionStrategy
  pub selected_at : ℕ
  pub disposed_at : ℕ
  pub covered_status : CoveredStatus
  pub adjustment_code : Option AdjustmentCode
  pub adjustment_usd : Option ℤ

pub record LotRelocation : Type 0 where
  pub lot_id : ℕ
  pub from_wallet_id : ℕ
  pub to_wallet_id : ℕ
  pub reason : RelocationReason
  pub classified_tx_id : ℕ
  pub occurred_at : ℕ

-- The two functions that relocate word the details of their exceptions differently.
pub data RelocationPath : Type 0 where
  over_bridge across_entities : RelocationPath

-- The JSON objects that the engine writes to `detail`, one constructor for each set of keys.
pub data ExceptionDetail : Type 0 where
  unvalued : ClassificationKind → Option String → ExceptionDetail
  no_wallet_entity_assignment no_token_id_on_classified_tx : ExceptionDetail
  insufficient : ClassificationKind → ExceptionDetail
  missing_relocation_source : RelocationPath → ExceptionDetail
  outflow_event_not_found : RelocationPath → ℕ → ExceptionDetail

pub record LotProcessingException : Type 0 where
  pub classified_tx_id : ℕ
  pub reason : LotExceptionReason
  pub detail : ExceptionDetail
  pub quantity_unmatched : Option ℕ

pub record TokenAssetMembership : Type 0 where
  pub token_id : ℕ
  pub logical_asset_id : ℕ

pub record LogicalAsset : Type 0 where
  pub id : ℕ
  pub symbol : String
  pub asset_kind : AssetKind

pub record TokenRegistry : Type 0 where
  pub id : ℕ
  pub chain : Chain
  pub contract_address : Option ℕ
  pub symbol : String
  pub decimals : ℕ

pub record WalletEntityAssignment : Type 0 where
  pub wallet_id : ℕ
  pub entity_id : ℕ
  pub effective_from : ℕ
  pub effective_to : Option ℕ

pub record Entity : Type 0 where
  pub id : ℕ
  pub default_basis_method : BasisMethod
  pub bridge_treatment : BridgeTreatment

-- The parts of a logical transfer key, which stand in its text between colons.
pub record TransferKey : Type 0 where
  pub chain : Chain
  pub tx_hash : ℕ
  pub wallet_id : ℕ
  pub event_seq : ℕ

-- The columns of pending_classifications that the detection or the resolve service writes.
pub record PendingClassification : Type 0 where
  pub id : ℕ
  pub user_id : ℕ
  pub kind : PendingClassificationKind
  pub logical_transfer_key : TransferKey
  pub chain : Chain
  pub tx_hash : ℕ
  pub transfer_index : ℕ
  pub token_id : ℕ
  pub canonical_asset : String
  pub amount : ℕ
  pub from_wallet_id : ℕ
  pub from_entity_id : ℕ
  pub to_wallet_id : Option ℕ
  pub to_entity_id : Option ℕ
  pub to_address : Option ℕ
  pub state : PendingClassificationState
  pub chosen_classification : Option ChosenClassification
  pub resolved_by : Option ResolvedBy
  pub resolved_rule_id : Option ℕ
  pub dismiss_reason : Option String
  pub note : Option String
  pub detected_at : ℕ
  pub resolved_at : Option ℕ

-- `_snapshot` of domain/cross_entity/resolve.py
pub record PendingSnapshot : Type 0 where
  pub state : PendingClassificationState
  pub chosen_classification : Option ChosenClassification
  pub resolved_by : Option ResolvedBy
  pub resolved_at : Option ℕ
  pub dismiss_reason : Option String
  pub note : Option String

-- The texts "resolve:...", "reclassify:...", "dismiss" and "dismiss:redirect".
pub data AuditAction : Type 0 where
  resolve_action reclassify_action : ChosenClassification → AuditAction
  dismiss_action dismiss_redirect : AuditAction

pub record ClassificationAuditLog : Type 0 where
  pub pending_id : ℕ
  pub actor : String
  pub action : AuditAction
  pub rule_id : Option ℕ
  pub note : Option String
  pub before_state : PendingSnapshot
  pub after_state : PendingSnapshot
