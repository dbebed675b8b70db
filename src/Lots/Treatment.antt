-- ===== src/Lots/Treatment.antt =====
-- What an event means for the lots: `_derive_treatment`, `_acquisition_type` and `_asset_class`
-- of domain/lots/engine.py.
use text.Mathlib.Text.{starts_with}
use lemon_ledger.Prelude.{
  ℕ, ◌==◌, is_some, get_or, if◌then◌else◌, Bool, true, false, none, some, String, find,
}
use lemon_ledger.Models.{
  Session, ClassifiedTransaction, ClassificationKind, reward, mint, stake, unstake, transfer_in,
  transfer_out, wrap, unwrap, swap_credit_redemption, burn, bridge_in, bridge_out, LotTreatment,
  acquire, dispose, relocate, gift_out_treatment, no_op_loan_treatment, no_treatment, pending,
  TransferResolution, relocate_internal, relocate_contribution, relocate_gift,
  relocate_reassignment, disposal, disposal_related_party, gift_out, no_op_loan, AcquisitionType,
  rewarded, minted, bought, AssetClass, fungible, collectible, AssetKind, nft, get_token, get_asset,
}

-- `_RELOCATE_RESOLUTIONS`
abbrev pub is_relocation : TransferResolution → Bool
is_relocation relocate_internal = true
is_relocation relocate_contribution = true
is_relocation relocate_gift = true
is_relocation relocate_reassignment = true
is_relocation _ = false

-- The tests of `_treatment_from_resolution` after the first.
abbrev pub treatment_of : TransferResolution → LotTreatment
treatment_of disposal = dispose
treatment_of disposal_related_party = dispose
treatment_of gift_out = gift_out_treatment
treatment_of no_op_loan = no_op_loan_treatment
treatment_of _ = pending

unfoldable pub treatment_from_resolution : ClassifiedTransaction → TransferResolution → LotTreatment
treatment_from_resolution event res =
    if is_relocation res
    then if is_some event.relocation_source_event_id then relocate else no_treatment
    else treatment_of res

unfoldable pub notes_start : String → ClassifiedTransaction → Bool
notes_start prefix event = starts_with (get_or event.notes "") prefix

unfoldable pub swap_treatment : ClassifiedTransaction → LotTreatment
unfolding notes_start
swap_treatment event =
    if notes_start "scdt-out:" event
    then dispose
    else if notes_start "l2-nft-in:" event
    then acquire
    else pending

-- The part of `_derive_treatment` that goes by the classification.
unfoldable pub treatment_from_kind : ClassifiedTransaction → ClassificationKind → LotTreatment
unfolding swap_treatment
treatment_from_kind event reward = acquire
treatment_from_kind event mint = acquire
treatment_from_kind event transfer_in = acquire
treatment_from_kind event swap_credit_redemption = swap_treatment event
treatment_from_kind event transfer_out = dispose
treatment_from_kind event burn = dispose
treatment_from_kind event stake = no_treatment
treatment_from_kind event unstake = no_treatment
treatment_from_kind event wrap = no_treatment
treatment_from_kind event unwrap = no_treatment
treatment_from_kind event bridge_in = relocate
treatment_from_kind event bridge_out = no_treatment
treatment_from_kind event _ = pending

unfoldable pub derive_treatment : ClassifiedTransaction → LotTreatment
unfolding treatment_from_resolution treatment_from_kind
derive_treatment event = elim event.transfer_resolution [
  | none ↦ treatment_from_kind event event.classification
  | some res ↦ treatment_from_resolution event res
]

abbrev pub acquisition_type_of : ClassificationKind → AcquisitionType
acquisition_type_of reward = rewarded
acquisition_type_of mint = minted
acquisition_type_of swap_credit_redemption = minted
acquisition_type_of _ = bought

abbrev pub is_nft : AssetKind → Bool
is_nft nft = true
is_nft _ = false

-- `event.classification in ("mint", "swap-credit-redemption")`
abbrev pub may_be_nft : ClassificationKind → Bool
may_be_nft mint = true
may_be_nft swap_credit_redemption = true
may_be_nft _ = false

abbrev is_indivisible : Session → ℕ → Bool
is_indivisible s token_id = elim (get_token s token_id) [
  | none ↦ false
  | some token ↦ token.decimals == 0
]

abbrev is_nft_member : Session → ℕ → Bool
is_nft_member s token_id = elim (find (λ m. m.token_id == token_id) s.memberships) [
  | none ↦ false
  | some membership ↦ elim (get_asset s membership.logical_asset_id) [
    | none ↦ false
    | some asset ↦ is_nft asset.asset_kind
  ]
]

unfoldable pub asset_class : Session → ClassifiedTransaction → AssetClass
asset_class s event = elim event.token_id [
  | none ↦ fungible
  | some token_id ↦
      if may_be_nft event.classification
      then if is_indivisible s token_id
        then collectible
        else if is_nft_member s token_id
        then collectible
        else fungible
      else if is_nft_member s token_id
      then collectible
      else fungible
]
