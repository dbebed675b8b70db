-- ===== src/Tests/Classify.antt =====
-- A transaction with one transfer of a token, and the theorems on classify applied to it.
use lemon_ledger.Prelude.{
  ℕ, ◌*◌, ◌≡◌, refl, pos, is_some, Option, none, some, [], ◌∷◌, true, false, ◌⊎◌,
}
use lemon_ledger.Models.{
  Session, Chain, lemonchain, Wallet, RawTokenTransfer, L2DecoderConfig, thin_decoder,
  status_confirmed, status_unknown, transfer_out,
}
use lemon_ledger.Decimal.{Decimal}
use lemon_ledger.Tests.{start, purchase_event, one}
use lemon_ledger.Classify.Types.{TxBundle, Work, index}
use lemon_ledger.Classify.Context.{WalletContext}
use lemon_ledger.Classify.Orchestrator.{replace_classified}
use lemon_ledger.Classify.Orchestrator.Replace.{Replaces, replace_classified-Replaces}
use lemon_ledger.Classify.Orchestrator.Untokened.{LeavesLots, apply_event-LeavesLots, common_out}
use lemon_ledger.Classify.Decoders.{reward_step}
use lemon_ledger.Classify.Decoders.Rewards.{Emits, reward_step-Emits}
use lemon_ledger.Classify.Tasks.{run_classify}
use lemon_ledger.Classify.Tasks.Ends.{run_classify-ends}

-- A dollar for each token, at any time.
abbrev price : Chain → ℕ → ℕ → Option Decimal
price chain token_id moment = some (record { coef = pos 1; places = 0 })

abbrev context : WalletContext
context = record {
  wallet_id = 7;
  chain = lemonchain;
  wallet_address = 77;
  user_addrs = 77 ∷ [];
  price = price;
}

-- From the staking contract 55 of the token 3.
abbrev payout : RawTokenTransfer
payout = record {
  wallet_id = 7;
  block_number = 5;
  tx_hash = 1;
  occurred_at = 9;
  value = 2 * one;
  log_index = 4;
  contract_address = 4;
  to = some 77;
  sender = some 55;
  has_token_id = false;
  token_decimal = some 18;
  raw_log_index = some "4";
}

abbrev config : L2DecoderConfig
config = record {
  token_id = 3;
  chain = lemonchain;
  decoder_class = thin_decoder 1;
  nft_contract = none;
  staking_contract = some 55;
  mint_contract = none;
  nft_contract_status = status_unknown;
  staking_contract_status = status_confirmed;
  mint_fee_wei = none;
  distribution_complete = false;
  deflationary = false;
}

abbrev stored : Wallet
stored = record {
  id = 7;
  user_id = 1;
  chain = lemonchain;
  address = 77;
  last_synced_at = none;
  last_synced_block = some 20_000;
  last_classified_block = none;
  is_active = true;
}

abbrev raw_session : Session
raw_session = record start {
  configs = config ∷ [];
  wallets = stored ∷ [];
  raw_transfers = payout ∷ [];
}

abbrev bundle : TxBundle
bundle = record {
  wallet_id = 7;
  chain = lemonchain;
  tx_hash = 1;
  block_number = 5;
  occurred_at = 9;
  envelope = none;
  transfers = payout ∷ [];
  internals = [];
}

abbrev idle : Work
idle = record { session = raw_session; claims = []; events = [] }

replace_classified-Replaces_example :
    Replaces 7 1 start (purchase_event ∷ []) (replace_classified 7 1 (purchase_event ∷ []) start)
replace_classified-Replaces_example =
    replace_classified-Replaces 7 1 start (purchase_event ∷ []) (refl, tt)

apply_event-LeavesLots_example :
    LeavesLots raw_session bundle 0 transfer_out 4 (2 * one) (index (pos 4)) start
apply_event-LeavesLots_example =
    apply_event-LeavesLots raw_session bundle 0 4 (2 * one) (index (pos 4)) start transfer_out
      common_out

reward_step-Emits_example :
    ((reward_step bundle context 3 payout idle).events ≡ [])
    ⊎ Emits raw_session 3 payout [] (reward_step bundle context 3 payout idle).events
reward_step-Emits_example = reward_step-Emits bundle context 3 payout idle

run_classify-ends_example : is_some (run_classify price 7 raw_session) ≡ true
run_classify-ends_example = run_classify-ends price 7 raw_session
