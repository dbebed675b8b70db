-- ===== src/Models/Enums.antt =====
-- The enumerations of models/enums.py. The columns hold their values as text, which a CHECK
-- constraint keeps inside the enumeration.
use lemon_ledger.Prelude.{Bool, true, false}

pub data Chain : Type 0 where
  lemonchain bsc : Chain

pub data ClassificationKind : Type 0 where
  reward mint stake unstake transfer_in transfer_out unclassified pending_kind wrap unwrap
        swap_credit_redemption burn bridge_in bridge_out :
      ClassificationKind

pub data AssetClass : Type 0 where
  fungible collectible : AssetClass

pub data HoldingPeriod : Type 0 where
  short long : HoldingPeriod

-- The members `mint`, `reward`, `bridge-in`, `gift` of AcquisitionType are spelled out, since
-- other enumerations have members of those names.
pub data AcquisitionType : Type 0 where
  bought minted rewarded bridged_in gifted cap_contribution : AcquisitionType

pub data BasisMethod : Type 0 where
  fifo_method specific_id : BasisMethod

pub data SelectionStrategy : Type 0 where
  fifo hifo lifo manual : SelectionStrategy

pub data LotTreatment : Type 0 where
  acquire dispose relocate gift_out_treatment no_op_loan_treatment no_treatment pending :
      LotTreatment

pub data LotExceptionReason : Type 0 where
  insufficient_lots_reason missing_basis unresolved_fee : LotExceptionReason

pub data TransferResolution : Type 0 where
  relocate_internal relocate_contribution relocate_gift relocate_reassignment disposal
        disposal_related_party gift_out no_op_loan :
      TransferResolution

pub data PendingClassificationKind : Type 0 where
  cross_entity external_outflow : PendingClassificationKind

pub data PendingClassificationState : Type 0 where
  needs_classification classified applied dismissed : PendingClassificationState

pub data ChosenClassification : Type 0 where
  capital_contribution sale gift loan reassignment payment : ChosenClassification

pub data CoveredStatus : Type 0 where
  no_1099_da covered_basis_reported covered_basis_not_reported : CoveredStatus

pub data AdjustmentCode : Type 0 where
  code_l code_w code_d code_e code_other : AdjustmentCode

-- The values that the CHECK constraint `ck_lot_relocations_reason` admits.
pub data RelocationReason : Type 0 where
  by_wrap by_unwrap by_bridge by_cap_contribution by_gift by_loan by_internal by_reassignment :
      RelocationReason

pub data AssetKind : Type 0 where
  fungible_kind nft stablecoin : AssetKind

abbrev pub same_chain : Chain → Chain → Bool
same_chain lemonchain lemonchain = true
same_chain bsc bsc = true
same_chain _ _ = false

-- The values of `ck_pending_cls_resolved_by`.
pub data ResolvedBy : Type 0 where
  by_user by_rule : ResolvedBy

-- The enumerations of models/bridge.py.
pub data BridgeStatus : Type 0 where
  confirmed needs_confirmation rejected unmatched : BridgeStatus

pub data ConfidenceLevel : Type 0 where
  high medium low : ConfidenceLevel

pub data CustodyRecognition : Type 0 where
  recognized inferred unknown : CustodyRecognition

pub data BridgeResolvedBy : Type 0 where
  auto user : BridgeResolvedBy

-- `bridge-pending` and `other` of UserResolution.
pub data UserResolution : Type 0 where
  sold third_party bridge_pending another : UserResolution

-- The values of `ck_entities_bridge_treatment`.
pub data BridgeTreatment : Type 0 where
  relocation disposition : BridgeTreatment

-- The values of `ck_custody_source`.
pub data CustodySource : Type 0 where
  curated learned : CustodySource

-- The values of `ck_l2config_nft_status` and `ck_l2config_staking_status`.
pub data ContractStatus : Type 0 where
  status_unknown status_discovered status_confirmed : ContractStatus

-- The values of `ck_burn_addr_confidence`.
pub data BurnConfidence : Type 0 where
  universal discovered_burn confirmed_burn : BurnConfidence
