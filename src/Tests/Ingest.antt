-- ===== src/Tests/Ingest.antt =====
-- An explorer with one transaction, and the theorems on ingestion applied to it.
use lemon_ledger.Prelude.{◌≡◌, arith, if◌then◌else◌, none, some, [], ◌∷◌, true, leb}
use lemon_ledger.Models.{lemonchain, Wallet, RawTransaction, no_wrap_selector}
use lemon_ledger.Tests.{start}
use lemon_ledger.Ingest.Sync.{ChainClient, sync_wallet, fetch}
use lemon_ledger.Ingest.Sync.Upsert.{Stored}
use lemon_ledger.Ingest.Sync.Ends.{has_ended, is_ok, Answers, sync_wallet-ends}
use lemon_ledger.Ingest.Sync.Complete.{Lists, sync_wallet-Stored}

abbrev wallet : Wallet
wallet = record {
  id = 7;
  user_id = 1;
  chain = lemonchain;
  address = 77;
  last_synced_at = none;
  last_synced_block = some 3;
  last_classified_block = none;
  is_active = true;
}

abbrev payment : RawTransaction
payment = record {
  wallet_id = 7;
  block_number = 5;
  tx_hash = 1;
  occurred_at = 9;
  to = some 77;
  sender = some 55;
  created_contract = none;
  value = 10;
  gas_used = 1;
  gas_price = 1;
  selector = no_wrap_selector;
}

-- At most one block in an answer.
abbrev client : ChainClient
client = record {
  latest_block = 12;
  transactions = λ address from to. if leb to from then some (payment ∷ []) else none;
  token_transfers = λ address from to. some [];
  internal_txs = λ address from to. some [];
}

client-Answers : Answers client wallet
unfolding fetch
client-Answers from to one = ground (arith, one)

client-Lists : Lists client wallet payment
client-Lists from to rows low high answer = ground (arith, answer)

sync_wallet-ends_example : has_ended (sync_wallet client wallet 2 4 start).1 ≡ true
sync_wallet-ends_example = sync_wallet-ends client wallet 2 4 start (omega arith)

sync_wallet-Stored_example :
    (is_ok (sync_wallet client wallet 2 4 start).1 ≡ true)
    × Stored payment (sync_wallet client wallet 2 4 start).0.raw_transactions
sync_wallet-Stored_example =
    sync_wallet-Stored client wallet payment 2 4 start client-Answers client-Lists (omega arith)
      (omega arith) (omega arith) (omega arith)
