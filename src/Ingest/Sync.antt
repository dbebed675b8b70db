-- ===== src/Ingest/Sync.antt =====
-- ingestion/sync.py: the blocks of a wallet are read in chunks, and a chunk that the explorer does
-- not answer at once is halved.
pub mod Upsert
pub mod Ends
pub mod Complete
use lemon_ledger.Prelude.{
  ℕ, zero, suc, ◌+◌, ◌-◌, ◌/◌, min, leb, ◌==◌, get_or, if◌then◌else◌, Bool, true, false, ◌&&◌,
  Option, none, some, List, [], ◌∷◌, ◌++◌, any, update, Result, ok, err, ◌>>=◌,
}
use lemon_ledger.Models.{Session, Wallet, RawTransaction, RawTokenTransfer, RawInternalTx}

-- The explorer, as the mappers give its rows: `none` is a ChainWindowExceeded. The arguments are
-- an address and the first and the last block.
pub record ChainClient : Type 0 where
  pub latest_block : ℕ
  pub transactions : ℕ → ℕ → ℕ → Option (List RawTransaction)
  pub token_transfers : ℕ → ℕ → ℕ → Option (List RawTokenTransfer)
  pub internal_txs : ℕ → ℕ → ℕ → Option (List RawInternalTx)

-- `totals`, and the counts of a SyncResult; its wallet and its blocks are left out.
pub record Counts : Type 0 where
  pub transactions : ℕ
  pub token_transfers : ℕ
  pub internal_txs : ℕ

abbrev pub no_counts : Counts
no_counts = record { transactions = 0; token_transfers = 0; internal_txs = 0 }

abbrev pub add_counts : Counts → Counts → Counts
add_counts a b = record {
  transactions = a.transactions + b.transactions;
  token_transfers = a.token_transfers + b.token_transfers;
  internal_txs = a.internal_txs + b.internal_txs;
}

-- `out_of_fuel` is a recursion or a loop that the model cut off.
pub data SyncError : Type 0 where
  chain_window_exceeded out_of_fuel : SyncError

-- The conflict columns.
abbrev pub same_tx : RawTransaction → RawTransaction → Bool
same_tx a b = a.wallet_id == b.wallet_id && a.tx_hash == b.tx_hash

abbrev pub same_transfer : RawTokenTransfer → RawTokenTransfer → Bool
same_transfer a b =
    a.wallet_id == b.wallet_id && (a.tx_hash == b.tx_hash && a.log_index == b.log_index)

abbrev pub same_internal : RawInternalTx → RawInternalTx → Bool
same_internal a b =
    a.wallet_id == b.wallet_id && (a.tx_hash == b.tx_hash && a.trace_id == b.trace_id)

-- `bulk_upsert`: a row whose key is there already is left out; the count is that of the new rows.
unfoldable pub bulk_upsert : {A : Type 0} → (A → A → Bool) → List A → List A → List A × ℕ
bulk_upsert same [] table = (table, 0)
bulk_upsert same (row ∷ rows) table = elim (any (same row) table) [
  | true ↦ bulk_upsert same rows table
  | false ↦ let (stored, n) = bulk_upsert same rows (table ++ (row ∷ [])) in (stored, n + 1)
]

-- The three answers for a range of blocks.
pub record Answer : Type 0 where
  pub tx_rows : List RawTransaction
  pub tt_rows : List RawTokenTransfer
  pub it_rows : List RawInternalTx

unfoldable pub fetch : ChainClient → Wallet → ℕ → ℕ → Option Answer
fetch client wallet start end = elim (client.transactions wallet.address start end) [
  | none ↦ none
  | some txs ↦ elim (client.token_transfers wallet.address start end) [
    | none ↦ none
    | some transfers ↦ elim (client.internal_txs wallet.address start end) [
      | none ↦ none
      | some internals ↦ some (record { tx_rows = txs; tt_rows = transfers; it_rows = internals })
    ]
  ]
]

unfoldable pub store : Answer → Session → Session × Counts
store answer s =
    let txs = bulk_upsert same_tx answer.tx_rows s.raw_transactions in
    let transfers = bulk_upsert same_transfer answer.tt_rows s.raw_transfers in
    let internals = bulk_upsert same_internal answer.it_rows s.raw_internals in
    (
      record s {
        raw_transactions = txs.0;
        raw_transfers = transfers.0;
        raw_internals = internals.0;
      },
      record { transactions = txs.1; token_transfers = transfers.1; internal_txs = internals.1 },
    )

-- `_ingest_chunk`, on fuel.
unfoldable pub ingest_chunk :
    ChainClient → Wallet → ℕ → ℕ → ℕ → Session → Result SyncError (Session × Counts)
ingest_chunk client wallet zero start end s = err out_of_fuel
ingest_chunk client wallet (suc fuel) start end s = elim (fetch client wallet start end) [
  | some answer ↦ ok (store answer s)
  | none ↦ elim (leb end start) [
    | true ↦ err chain_window_exceeded
    | false ↦ ingest_chunk client wallet fuel start ((start + end) / 2) s >>= λ left.
        ingest_chunk client wallet fuel ((start + end) / 2 + 1) end left.0 >>= λ right.
        ok (right.0, add_counts left.1 right.1)
  ]
]

-- The checkpoint after a chunk.
unfoldable pub checkpoint : ℕ → ℕ → Session → Session
checkpoint wallet_id chunk_end s = record s {
  wallets =
      update (λ w. w.id == wallet_id)
        (λ w. record w { last_synced_block = some chunk_end; last_synced_at = some s.runtime.now })
        s.wallets;
}

-- The loop of `sync_wallet`, on fuel. A chunk that raises leaves the session of the last commit.
unfoldable pub sync_loop :
    ChainClient → Wallet → ℕ → ℕ → ℕ → ℕ → Counts → Session → Session × Result SyncError Counts
sync_loop client wallet chunk_blocks zero chunk_start ceiling totals s =
    elim (leb chunk_start ceiling) [ true ↦ (s, err out_of_fuel) | false ↦ (s, ok totals) ]
sync_loop client wallet chunk_blocks (suc fuel) chunk_start ceiling totals s =
    let chunk_end = min (chunk_start + chunk_blocks - 1) ceiling in
    elim (leb chunk_start ceiling) [
      | false ↦ (s, ok totals)
      | true ↦
          elim (ingest_chunk client wallet (chunk_end - chunk_start + 1) chunk_start chunk_end s) [
            | err raised ↦ (s, err raised)
            | ok chunk ↦
                sync_loop client wallet chunk_blocks fuel (chunk_end + 1) ceiling
                  (add_counts totals chunk.1) (checkpoint wallet.id chunk_end chunk.0)
          ]
    ]

-- `head - confirmations` may be negative, and is then not above the cursor either.
unfoldable pub sync_wallet :
    ChainClient → Wallet → ℕ → ℕ → Session → Session × Result SyncError Counts
sync_wallet client wallet confirmations chunk_blocks s =
    let ceiling = client.latest_block - confirmations in
    let cursor = get_or wallet.last_synced_block 0 in
    if leb ceiling cursor
    then (
      record s {
        wallets =
            update (λ w. w.id == wallet.id) (λ w. record w { last_synced_at = some s.runtime.now })
              s.wallets;
      },
      ok no_counts,
    )
    else sync_loop client wallet chunk_blocks (ceiling + 1) cursor ceiling no_counts s
