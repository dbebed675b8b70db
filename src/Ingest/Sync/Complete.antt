-- ===== src/Ingest/Sync/Complete.antt =====
-- What a sync of ingestion/sync.py has stored when it returns.
use lemon_ledger.Prelude.{
  ℕ, zero, suc, ◌+◌, ◌-◌, ◌/◌, ◌≤◌, ◌<◌, ◌≡◌, arith, min, leb, ◌⊎◌, Bool-cases, Option-cases, some,
  true, false, List, get_or, inl, inr, ok, err, Result, ◌>>=◌,
}
use lemon_ledger.Models.{RawTransaction, Session, Wallet}
use lemon_ledger.Ingest.Sync.{
  ChainClient, Counts, SyncError, Answer, fetch, store, ingest_chunk, add_counts, checkpoint,
  sync_loop, sync_wallet, no_counts,
}
use lemon_ledger.Ingest.Sync.Upsert.{Stored, upsert-keeps, upsert-stores}
use lemon_ledger.Ingest.Sync.Ends.{is_ok, Answers, sync_wallet-is_ok}

-- The explorer gives the transaction in every answer for a range with its block.
abbrev pub Lists : ChainClient → Wallet → RawTransaction → Type 0
Lists client wallet r =
    (start end : ℕ) (rows : List RawTransaction)
    → start ≤ r.block_number
    → r.block_number ≤ end
    → client.transactions wallet.address start end ≡ some rows
    → Stored r rows

-- Stored by a chunk, if it has returned.
abbrev StoredBy : RawTransaction → Result SyncError (Session × Counts) → Type 0
StoredBy r (ok chunk) = Stored r chunk.0.raw_transactions
StoredBy r (err raised) = Unit

bind-StoredBy :
    (r : RawTransaction) (m : Result SyncError (Session × Counts))
    (k : Session × Counts → Result SyncError (Session × Counts))
    → StoredBy r m
    → ((c : Session × Counts) → Stored r c.0.raw_transactions → StoredBy r (k c))
    → StoredBy r (m >>= k)
bind-StoredBy r (ok c) k h hs = hs c h
bind-StoredBy r (err e) k h hs = tt

bind_later :
    (r : RawTransaction) (m : Result SyncError (Session × Counts))
    (k : Session × Counts → Result SyncError (Session × Counts))
    → ((c : Session × Counts) → StoredBy r (k c))
    → StoredBy r (m >>= k)
bind_later r (ok c) k hs = hs c
bind_later r (err e) k hs = tt

fetch-tx_rows :
    (client : ChainClient) (wallet : Wallet) (start end : ℕ) (answer : Answer)
    → fetch client wallet start end ≡ some answer
    → client.transactions wallet.address start end ≡ some answer.tx_rows
unfolding fetch
fetch-tx_rows client wallet start end answer h = ground (arith, h)

-- Due in a range of blocks: stored already, or listed there.
abbrev Due : RawTransaction → ℕ → ℕ → Session → Type 0
Due r start end s = Stored r s.raw_transactions ⊎ (start ≤ r.block_number) × (r.block_number ≤ end)

halves-StoredBy :
    (r : RawTransaction) (start middle end : ℕ) (s : Session)
    (left : Result SyncError (Session × Counts))
    (right : Session × Counts → Result SyncError (Session × Counts))
    → (Due r start middle s → StoredBy r left)
    → ((c : Session × Counts) → Due r (middle + 1) end c.0 → StoredBy r (right c))
    → Due r start end s
    → StoredBy r (left >>= λ l. right l >>= λ x. ok (x.0, add_counts l.1 x.1))
halves-StoredBy r start middle end s left right by_left by_right due =
    elim (Bool-cases (leb r.block_number middle)) [
      | inl low ↦
          bind-StoredBy r left _
            (by_left
              (elim due [ inl h ↦ inl h | inr (from, to) ↦ inr (from, ground (arith, low)) ]))
            (λ c h. bind-StoredBy r (right c) _ (by_right c (inl h)) (λ x k. k))
      | inr high ↦ elim due [
        | inl h ↦
            bind-StoredBy r left _ (by_left (inl h))
              (λ c k. bind-StoredBy r (right c) _ (by_right c (inl k)) (λ x n. n))
        | inr (from, to) ↦ bind_later r left _ (λ c.
            bind-StoredBy r (right c) _ (by_right c (inr (ground (arith, high), to))) (λ x k. k))
      ]
    ]

-- A chunk that is not answered stores nothing, and one that is stores what is listed in it.
ingest_chunk-StoredBy :
    (client : ChainClient) (wallet : Wallet) (r : RawTransaction) (fuel start end : ℕ) (s : Session)
    → Lists client wallet r
    → Due r start end s
    → StoredBy r (ingest_chunk client wallet fuel start end s)
unfolding ingest_chunk store
ingest_chunk-StoredBy client wallet r zero start end s lists due = tt
ingest_chunk-StoredBy client wallet r (suc fuel) start end s lists due =
    elim (Option-cases (fetch client wallet start end)) [
      | inr (answer, answered) ↦
          rw (ingest_chunk, answered)
            (elim due [
              | inl known ↦ upsert-keeps r answer.tx_rows s.raw_transactions known
              | inr (from, to) ↦ upsert-stores r answer.tx_rows s.raw_transactions (
                  lists start end answer.tx_rows from to
                    (fetch-tx_rows client wallet start end answer answered))
            ])
      | inl exceeded ↦ elim (Bool-cases (leb end start)) [
        | inl one ↦ rw (ingest_chunk, exceeded, one) tt
        | inr several ↦
            rw (ingest_chunk, exceeded, several)
              (halves-StoredBy r start ((start + end) / 2) end s _
                (λ c. ingest_chunk client wallet fuel ((start + end) / 2 + 1) end c.0)
                (ingest_chunk-StoredBy client wallet r fuel start ((start + end) / 2) s lists)
                (λ c.
                  ingest_chunk-StoredBy client wallet r fuel ((start + end) / 2 + 1) end c.0 lists)
                due)
      ]
    ]

abbrev StoredAfter : RawTransaction → Session × Result SyncError Counts → Type 0
StoredAfter r (s, ok totals) = Stored r s.raw_transactions
StoredAfter r (s, err raised) = Unit

reached :
    (r : RawTransaction) (chunk_start ceiling : ℕ) (s : Session)
    → r.block_number ≤ ceiling
    → Stored r s.raw_transactions ⊎ (chunk_start ≤ r.block_number)
    → leb chunk_start ceiling ≡ false
    → Stored r s.raw_transactions
reached r chunk_start ceiling s below (inl known) done = known
reached r chunk_start ceiling s below (inr from) done = ground (arith, done)

sync_loop-StoredAfter :
    (client : ChainClient) (wallet : Wallet) (r : RawTransaction)
    (chunk_blocks fuel chunk_start ceiling : ℕ) (totals : Counts) (s : Session)
    → Lists client wallet r
    → r.block_number ≤ ceiling
    → Stored r s.raw_transactions ⊎ (chunk_start ≤ r.block_number)
    → StoredAfter r (sync_loop client wallet chunk_blocks fuel chunk_start ceiling totals s)
unfolding sync_loop checkpoint
sync_loop-StoredAfter client wallet r chunk_blocks zero chunk_start ceiling totals s lists below
      due =
    elim (Bool-cases (leb chunk_start ceiling)) [
      | inl more ↦ rw (sync_loop, more) tt
      | inr done ↦ rw (sync_loop, done) (reached r chunk_start ceiling s below due done)
    ]
sync_loop-StoredAfter client wallet r chunk_blocks (suc fuel) chunk_start ceiling totals s lists
      below due =
    elim (Bool-cases (leb chunk_start ceiling)) [
      | inl more ↦
          rw (sync_loop, more)
            (go (ingest_chunk client wallet (chunk_end - chunk_start + 1) chunk_start chunk_end s)
              (elim (Bool-cases (leb r.block_number chunk_end)) [
                | inl here ↦ inl (
                    ingest_chunk-StoredBy client wallet r _ chunk_start chunk_end s lists
                      (elim due [
                        | inl known ↦ inl known
                        | inr from ↦ inr (from, ground (arith, here))
                      ]))
                | inr later ↦ inr (ground (arith, later))
              ])
              (λ c x.
                sync_loop-StoredAfter client wallet r chunk_blocks fuel (chunk_end + 1) ceiling c x
                  lists below))
      | inr done ↦ rw (sync_loop, done) (reached r chunk_start ceiling s below due done)
    ]
  where
    chunk_end : ℕ
    chunk_end = min (chunk_start + chunk_blocks - 1) ceiling

    go :
        (m : Result SyncError (Session × Counts))
        → StoredBy r m ⊎ (chunk_end + 1 ≤ r.block_number)
        → ((c : Counts) (x : Session)
            → Stored r x.raw_transactions ⊎ (chunk_end + 1 ≤ r.block_number)
            → StoredAfter r (sync_loop client wallet chunk_blocks fuel (chunk_end + 1) ceiling c x))
        → (let out : Session × Result SyncError Counts = elim m [
          | err raised ↦ (s, err raised)
          | ok chunk ↦
              sync_loop client wallet chunk_blocks fuel
                (chunk_end + 1)
                ceiling
                (add_counts totals chunk.1)
                (checkpoint wallet.id chunk_end chunk.0)
        ] in
            StoredAfter r out)
    go (ok chunk) d loop = loop _ _ d
    go (err raised) d loop = tt

sync_wallet-StoredAfter :
    (client : ChainClient) (wallet : Wallet) (r : RawTransaction) (confirmations chunk_blocks : ℕ)
    (s : Session)
    → Lists client wallet r
    → get_or wallet.last_synced_block 0 < client.latest_block - confirmations
    → get_or wallet.last_synced_block 0 ≤ r.block_number
    → r.block_number ≤ client.latest_block - confirmations
    → StoredAfter r (sync_wallet client wallet confirmations chunk_blocks s)
unfolding sync_wallet
sync_wallet-StoredAfter client wallet r confirmations chunk_blocks s lists some_new from below =
    let ceiling = client.latest_block - confirmations in
    let cursor = get_or wallet.last_synced_block 0 in
    elim (Bool-cases (leb ceiling cursor)) [
      | inl none_new ↦ ground (arith, none_new, some_new)
      | inr more ↦
          rw (sync_wallet, more)
            (sync_loop-StoredAfter client wallet r chunk_blocks (ceiling + 1) cursor ceiling
              no_counts s lists below (inr from))
    ]

StoredAfter-Stored :
    (r : RawTransaction) (out : Session × Result SyncError Counts)
    → is_ok out.1 ≡ true
    → StoredAfter r out
    → Stored r out.0.raw_transactions
StoredAfter-Stored r (s, ok totals) fine h = h
StoredAfter-Stored r (s, err raised) fine h = ground (arith, fine)

-- A sync of a wallet with new blocks raises nothing and leaves every transaction that the explorer
-- lists from the last synced block up to the ceiling stored, where the explorer answers for every
-- single block, lists the transaction in all its answers for ranges with its block, and a chunk
-- has at least one block.
pub sync_wallet-Stored :
    (client : ChainClient) (wallet : Wallet) (r : RawTransaction) (confirmations chunk_blocks : ℕ)
    (s : Session)
    → Answers client wallet
    → Lists client wallet r
    → 0 < chunk_blocks
    → get_or wallet.last_synced_block 0 < client.latest_block - confirmations
    → get_or wallet.last_synced_block 0 ≤ r.block_number
    → r.block_number ≤ client.latest_block - confirmations
    → (is_ok (sync_wallet client wallet confirmations chunk_blocks s).1 ≡ true)
      × Stored r (sync_wallet client wallet confirmations chunk_blocks s).0.raw_transactions
sync_wallet-Stored client wallet r confirmations chunk_blocks s answers lists positive some_new from
      below =
    let fine = sync_wallet-is_ok client wallet confirmations chunk_blocks s answers positive in
    (
      fine,
      StoredAfter-Stored r (sync_wallet client wallet confirmations chunk_blocks s) fine (
          sync_wallet-StoredAfter client wallet r confirmations chunk_blocks s lists some_new from
            below),
    )
