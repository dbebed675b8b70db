-- ===== src/Classify/Tasks.antt =====
-- `_run_classify` and `_classify_chunk` of classify/tasks.py.
pub mod Ends
use lemon_ledger.Prelude.{
  ℕ, zero, suc, ◌+◌, ◌-◌, min, leb, ltb, ◌==◌, get_or, if◌then◌else◌, Bool, ◌&&◌, not, Option, none,
  some, List, [], ◌∷◌, ◌++◌, map, find, filter, update, any, sorted, length, ok, err, Result, ◌>>=◌,
}
use lemon_ledger.Models.{Session, Chain, Wallet, RawTransaction, RawTokenTransfer, RawInternalTx}
use lemon_ledger.Decimal.{Decimal}
use lemon_ledger.Classify.Types.{TxBundle, ClassifyError, wallet_not_found}
use lemon_ledger.Classify.Context.{WalletContext}
use lemon_ledger.Classify.Orchestrator.{classify_bundle, replace_classified}

-- `_CLASSIFY_CHUNK`
abbrev pub classify_chunk_size : ℕ
classify_chunk_size = 10_000

abbrev pub in_chunk : ℕ → ℕ → ℕ → ℕ → ℕ → Bool
in_chunk wallet_id lo hi row_wallet block =
    row_wallet == wallet_id && (leb lo block && leb block hi)

abbrev pub add_hash : ℕ → List ℕ → List ℕ
add_hash k ks = if any (λ j. j == k) ks then ks else k ∷ ks

unfoldable pub distinct_hashes : List ℕ → List ℕ
distinct_hashes [] = []
distinct_hashes (k ∷ ks) = add_hash k (distinct_hashes ks)

-- `tx_map[tx_hash]`: of two rows the later one stands in the dict, but the key is unique.
unfoldable pub bundle_of :
    Wallet → ℕ → List RawTransaction → List RawTokenTransfer → List RawInternalTx → Option TxBundle
bundle_of wallet tx_hash txs transfers internals =
    let bundle : ℕ → ℕ → Option RawTransaction → TxBundle = λ block occurred envelope. record {
      wallet_id = wallet.id;
      chain = wallet.chain;
      tx_hash = tx_hash;
      block_number = block;
      occurred_at = occurred;
      envelope = envelope;
      transfers = transfers;
      internals = internals;
    } in
    elim txs [
      | envelope ∷ more ↦ some (bundle envelope.block_number envelope.occurred_at (some envelope))
      | [] ↦ elim transfers [
        | t ∷ more ↦ some (bundle t.block_number t.occurred_at none)
        | [] ↦ elim internals [
          | i ∷ more ↦ some (bundle i.block_number i.occurred_at none)
          | [] ↦ none
        ]
      ]
    ]

-- One round of the loop over the hashes: the rows of the wallet with the hash in the block range.
unfoldable pub classify_tx :
    Wallet → WalletContext → ℕ → ℕ → ℕ → Session → Result ClassifyError (Session × ℕ)
classify_tx wallet ctx lo hi tx_hash s =
    elim (bundle_of wallet tx_hash
      (filter (λ r. in_chunk wallet.id lo hi r.wallet_id r.block_number && r.tx_hash == tx_hash)
        s.raw_transactions)
      (filter (λ r. in_chunk wallet.id lo hi r.wallet_id r.block_number && r.tx_hash == tx_hash)
        s.raw_transfers)
      (filter (λ r. in_chunk wallet.id lo hi r.wallet_id r.block_number && r.tx_hash == tx_hash)
        s.raw_internals)) [
          | none ↦ ok (s, 0)
          | some b ↦ classify_bundle b ctx s >>= λ result.
              ok (replace_classified wallet.id tx_hash result.1 result.0, length result.1)
        ]

unfoldable pub classify_txs :
    Wallet → WalletContext → ℕ → ℕ → List ℕ → ℕ → Session → Result ClassifyError (Session × ℕ)
classify_txs wallet ctx lo hi [] total s = ok (s, total)
classify_txs wallet ctx lo hi (tx_hash ∷ hashes) total s =
    classify_tx wallet ctx lo hi tx_hash s >>= λ result.
    classify_txs wallet ctx lo hi hashes (total + result.1) result.0

-- The hashes of the rows of the wallet in the block range, in ascending order.
unfoldable pub chunk_hashes : Session → ℕ → ℕ → ℕ → List ℕ
chunk_hashes s wallet_id lo hi = sorted ltb (
    distinct_hashes (
      map (λ r. r.tx_hash)
        (filter (λ r. in_chunk wallet_id lo hi r.wallet_id r.block_number) s.raw_transactions)
      ++ (map (λ r. r.tx_hash)
            (filter (λ r. in_chunk wallet_id lo hi r.wallet_id r.block_number) s.raw_transfers)
          ++ map (λ r. r.tx_hash)
              (filter (λ r. in_chunk wallet_id lo hi r.wallet_id r.block_number) s.raw_internals))))

unfoldable pub classify_chunk :
    Wallet → WalletContext → ℕ → ℕ → Session → Result ClassifyError (Session × ℕ)
classify_chunk wallet ctx lo hi s =
    classify_txs wallet ctx lo hi (chunk_hashes s wallet.id lo hi) 0 s

unfoldable pub mark_classified : ℕ → ℕ → Session → Session
mark_classified wallet_id hi s = record s {
  wallets =
      update (λ w. w.id == wallet_id) (λ w. record w { last_classified_block = some hi }) s.wallets;
}

-- The loop over the chunks, for any body `chunk`: `none` is a loop that did not end with its fuel.
unfoldable pub chunk_loop :
    (ℕ → ℕ → Session → Result ClassifyError (Session × ℕ))
    → ℕ
    → ℕ
    → ℕ
    → ℕ
    → ℕ
    → Session
    → Option (Result ClassifyError (Session × ℕ))
chunk_loop chunk wallet_id zero lo to_block total s =
    if leb lo to_block then none else some (ok (s, total))
chunk_loop chunk wallet_id (suc fuel) lo to_block total s =
    let hi = min (lo + classify_chunk_size - 1) to_block in
    if leb lo to_block
    then elim (chunk lo hi s) [
      | err raised ↦ some (err raised)
      | ok result ↦
          chunk_loop chunk wallet_id fuel (hi + 1) to_block (total + result.1)
            (mark_classified wallet_id hi result.0)
    ]
    else some (ok (s, total))

abbrev pub context_of : Session → (Chain → ℕ → ℕ → Option Decimal) → Wallet → WalletContext
context_of s price wallet = record {
  wallet_id = wallet.id;
  chain = wallet.chain;
  wallet_address = wallet.address;
  user_addrs =
      map (λ w. w.address) (filter (λ w. w.user_id == wallet.user_id && w.is_active) s.wallets);
  price = price;
}

-- The blocks that are left for the wallet are fuel enough.
unfoldable pub run_classify :
    (Chain → ℕ → ℕ → Option Decimal) → ℕ → Session → Option (Result ClassifyError (Session × ℕ))
run_classify price wallet_id s = elim (find (λ w. w.id == wallet_id) s.wallets) [
  | none ↦ some (err (wallet_not_found wallet_id))
  | some wallet ↦
      let from_block = get_or wallet.last_classified_block 0 + 1 in
      let to_block = get_or wallet.last_synced_block 0 in
      if not wallet.is_active
      then some (err (wallet_not_found wallet_id))
      else chunk_loop (classify_chunk wallet (context_of s price wallet)) wallet_id to_block
          from_block to_block 0 s
]
