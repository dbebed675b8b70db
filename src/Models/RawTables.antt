-- ===== src/Models/RawTables.antt =====
-- Wallets, the raw rows of the explorers, and the configuration of the decoders: models/wallet.py,
-- raw.py, burn_address.py and L2DecoderConfig of classified.py. An address is the number that its
-- lower-case text stands for: the columns hold lower-case texts, and the code lowers what it reads
-- from a `raw` object. A key that such an object lacks is `none`.
use lemon_ledger.Prelude.{ℕ, Bool, Option, String}
use lemon_ledger.Models.Enums.{Chain, ContractStatus, BurnConfidence}

pub record Wallet : Type 0 where
  pub id : ℕ
  pub user_id : ℕ
  pub chain : Chain
  pub address : ℕ
  pub last_synced_at : Option ℕ
  pub last_synced_block : Option ℕ
  pub last_classified_block : Option ℕ
  pub is_active : Bool

-- The first ten characters of the call data.
pub data Selector : Type 0 where
  deposit withdraw no_wrap_selector : Selector

-- `value` is that of the `raw` object, in wei.
pub record RawTransaction : Type 0 where
  pub wallet_id : ℕ
  pub block_number : ℕ
  pub tx_hash : ℕ
  pub occurred_at : ℕ
  pub to : Option ℕ
  pub sender : Option ℕ
  pub created_contract : Option ℕ
  pub value : ℕ
  pub gas_used : ℕ
  pub gas_price : ℕ
  pub selector : Selector

-- `has_token_id` is `"tokenID" in raw`; `token_decimal` and `raw_log_index` are keys of `raw`.
pub record RawTokenTransfer : Type 0 where
  pub wallet_id : ℕ
  pub block_number : ℕ
  pub tx_hash : ℕ
  pub occurred_at : ℕ
  pub value : ℕ
  pub log_index : ℕ
  pub contract_address : ℕ
  pub to : Option ℕ
  pub sender : Option ℕ
  pub has_token_id : Bool
  pub token_decimal : Option ℕ
  pub raw_log_index : Option String

pub record RawInternalTx : Type 0 where
  pub wallet_id : ℕ
  pub block_number : ℕ
  pub tx_hash : ℕ
  pub occurred_at : ℕ
  pub trace_id : ℕ
  pub to : Option ℕ
  pub sender : Option ℕ
  pub value : ℕ

-- The name of a decoder class: that of LQST, that of one of the thin subclasses, or a name that
-- no decoder has.
pub data DecoderClass : Type 0 where
  lqst_decoder : DecoderClass
  thin_decoder unregistered_decoder : ℕ → DecoderClass

pub record L2DecoderConfig : Type 0 where
  pub token_id : ℕ
  pub chain : Chain
  pub decoder_class : DecoderClass
  pub nft_contract : Option ℕ
  pub staking_contract : Option ℕ
  pub mint_contract : Option ℕ
  pub nft_contract_status : ContractStatus
  pub staking_contract_status : ContractStatus
  pub mint_fee_wei : Option ℕ
  pub distribution_complete : Bool
  pub deflationary : Bool

pub record BurnAddress : Type 0 where
  pub address : ℕ
  pub confidence : BurnConfidence
