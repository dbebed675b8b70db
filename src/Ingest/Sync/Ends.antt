-- ===== src/Ingest/Sync/Ends.antt =====
-- The recursion and the loop of ingestion/sync.py end.
use lemon_ledger.Prelude.{
  ℕ, zero, suc, ◌+◌, ◌-◌, ◌/◌, ◌<◌, ◌≡◌, refl, arith, min, leb, Bool, not, Bool-cases, Option-cases,
  true, false, none, is_some, ok, err, Result, ◌>>=◌, inl, inr, get_or,
}
use lemon_ledger.Models.{Session, Wallet}
use lemon_ledger.Ingest.Sync.{
  ChainClient, Counts, SyncError, out_of_fuel, chain_window_exceeded, fetch, ingest_chunk,
  sync_loop, sync_wallet, add_counts, checkpoint, no_counts,
}

-- A result that is not one of the errors in question.
abbrev pub avoids : {A : Type 0} → (SyncError → Bool) → Result SyncError A → Bool
avoids bad (ok a) = true
avoids bad (err e) = not (bad e)

bind-avoids :
    {A B : Type 0} (bad : SyncError → Bool) (m : Result SyncError A) (k : A → Result SyncError B)
    → avoids bad m ≡ true
    → ((a : A) → avoids bad (k a) ≡ true)
    → avoids bad (m >>= k) ≡ true
bind-avoids bad (ok a) k h hs = hs a
bind-avoids bad (err e) k h hs = h

-- A call that the model did not cut off, and one that raises nothing.
abbrev is_cut : SyncError → Bool
is_cut out_of_fuel = true
is_cut chain_window_exceeded = false

abbrev pub has_ended : {A : Type 0} → Result SyncError A → Bool
has_ended r = avoids is_cut r

abbrev pub is_ok : {A : Type 0} → Result SyncError A → Bool
is_ok r = avoids (λ e. true) r

-- A single block is answered, if an unanswered one is in question.
abbrev Fair : ChainClient → Wallet → (SyncError → Bool) → Type 0
Fair client wallet bad =
    (start end : ℕ)
    → fetch client wallet start end ≡ none
    → leb end start ≡ true
    → not (bad chain_window_exceeded) ≡ true

ingest_chunk-avoids :
    (client : ChainClient) (wallet : Wallet) (bad : SyncError → Bool) (fuel start end : ℕ)
    (s : Session)
    → Fair client wallet bad
    → end < start + fuel
    → 0 < fuel
    → avoids bad (ingest_chunk client wallet fuel start end s) ≡ true
unfolding ingest_chunk
ingest_chunk-avoids client wallet bad zero start end s fair wide some_fuel =
    ground (arith, some_fuel)
ingest_chunk-avoids client wallet bad (suc fuel) start end s fair wide some_fuel =
    elim (Option-cases (fetch client wallet start end)) [
      | inr (answer, answered) ↦ rw (ingest_chunk, answered) refl
      | inl exceeded ↦ elim (Bool-cases (leb end start)) [
        | inl one ↦ rw (ingest_chunk, exceeded, one) (fair start end exceeded one)
        | inr several ↦
            rw (ingest_chunk, exceeded, several)
              (bind-avoids bad _ _
                (ingest_chunk-avoids client wallet bad fuel start ((start + end) / 2) s fair
                  (ground (arith, several, wide)) (ground (arith, several, wide)))
                (λ left.
                  bind-avoids bad _ _
                    (ingest_chunk-avoids client wallet bad fuel ((start + end) / 2 + 1) end left.0
                      fair (ground (arith, several, wide)) (ground (arith, several, wide)))
                    (λ right. refl)))
      ]
    ]

sync_loop-avoids :
    (client : ChainClient) (wallet : Wallet) (bad : SyncError → Bool)
    (chunk_blocks fuel chunk_start ceiling : ℕ) (totals : Counts) (s : Session)
    → Fair client wallet bad
    → 0 < chunk_blocks
    → ceiling < chunk_start + fuel
    → avoids bad (sync_loop client wallet chunk_blocks fuel chunk_start ceiling totals s).1 ≡ true
unfolding sync_loop
sync_loop-avoids client wallet bad chunk_blocks zero chunk_start ceiling totals s fair positive
      enough =
    elim (Bool-cases (leb chunk_start ceiling)) [
      | inl more ↦ ground (arith, more, enough)
      | inr done ↦ rw (sync_loop, done) refl
    ]
sync_loop-avoids client wallet bad chunk_blocks (suc fuel) chunk_start ceiling totals s fair
      positive enough =
    elim (Bool-cases (leb chunk_start ceiling)) [
      | inr done ↦ rw (sync_loop, done) refl
      | inl more ↦
          rw (sync_loop, more)
            (go (ingest_chunk client wallet (chunk_end - chunk_start + 1) chunk_start chunk_end s)
              (ingest_chunk-avoids client wallet bad (chunk_end - chunk_start + 1) chunk_start
                chunk_end s fair (omega arith) (omega arith))
              (λ c x.
                sync_loop-avoids client wallet bad chunk_blocks fuel (chunk_end + 1) ceiling c x
                  fair positive (ground (arith, more, enough, positive))))
    ]
  where
    chunk_end : ℕ
    chunk_end = min (chunk_start + chunk_blocks - 1) ceiling

    go :
        (r : Result SyncError (Session × Counts))
        → avoids bad r ≡ true
        → ((c : Counts) (x : Session)
            → avoids bad (sync_loop client wallet chunk_blocks fuel (chunk_end + 1) ceiling c x).1
              ≡ true)
        → (let out : Session × Result SyncError Counts = elim r [
          | err raised ↦ (s, err raised)
          | ok chunk ↦
              sync_loop client wallet chunk_blocks fuel
                (chunk_end + 1)
                ceiling
                (add_counts totals chunk.1)
                (checkpoint wallet.id chunk_end chunk.0)
        ] in
            avoids bad out.1 ≡ true)
    go (ok chunk) h ends = ends _ _
    go (err raised) h ends = h

sync_wallet-avoids :
    (client : ChainClient) (wallet : Wallet) (bad : SyncError → Bool)
    (confirmations chunk_blocks : ℕ) (s : Session)
    → Fair client wallet bad
    → 0 < chunk_blocks
    → avoids bad (sync_wallet client wallet confirmations chunk_blocks s).1 ≡ true
unfolding sync_wallet
sync_wallet-avoids client wallet bad confirmations chunk_blocks s fair positive =
    let ceiling = client.latest_block - confirmations in
    let cursor = get_or wallet.last_synced_block 0 in
    elim (Bool-cases (leb ceiling cursor)) [
      | inl none_new ↦ rw (sync_wallet, none_new) refl
      | inr some_new ↦
          rw (sync_wallet, some_new)
            (sync_loop-avoids client wallet bad chunk_blocks (ceiling + 1) cursor ceiling no_counts
              s fair positive (omega arith))
    ]

-- A sync of a wallet ends whatever the explorer answers, if a chunk has at least one block: the
-- halving of a chunk ends within its blocks, and the loop over the chunks within the blocks up to
-- the ceiling.
pub sync_wallet-ends :
    (client : ChainClient) (wallet : Wallet) (confirmations chunk_blocks : ℕ) (s : Session)
    → 0 < chunk_blocks
    → has_ended (sync_wallet client wallet confirmations chunk_blocks s).1 ≡ true
sync_wallet-ends client wallet confirmations chunk_blocks s positive =
    sync_wallet-avoids client wallet is_cut confirmations chunk_blocks s (λ _ _ _ _. refl) positive

-- The explorer answers for every single block.
abbrev pub Answers : ChainClient → Wallet → Type 0
Answers client wallet =
    (start end : ℕ) → leb end start ≡ true → is_some (fetch client wallet start end) ≡ true

-- And it raises nothing, if the explorer answers for every single block.
pub sync_wallet-is_ok :
    (client : ChainClient) (wallet : Wallet) (confirmations chunk_blocks : ℕ) (s : Session)
    → Answers client wallet
    → 0 < chunk_blocks
    → is_ok (sync_wallet client wallet confirmations chunk_blocks s).1 ≡ true
sync_wallet-is_ok client wallet confirmations chunk_blocks s answers positive =
    sync_wallet-avoids client wallet (λ e. true) confirmations chunk_blocks s
      (λ start end exceeded one.
        let given : is_some (fetch client wallet start end) ≡ true = answers start end one in
        (rw exceeded at given))
      positive
