-- ===== src/Classify/Tasks/Ends.antt =====
-- On the loop of `_run_classify` in classify/tasks.py.
use lemon_ledger.Prelude.{
  ℕ, zero, suc, ◌+◌, ◌-◌, ◌≤◌, ◌≡◌, refl, arith, min, leb, is_some, Bool-cases, Option-cases, true,
  not, Option, some, find, ok, err, Result, inl, inr, get_or, ◌==◌,
}
use lemon_ledger.Models.{Session, Chain}
use lemon_ledger.Decimal.{Decimal}
use lemon_ledger.Classify.Types.{ClassifyError}
use lemon_ledger.Classify.Tasks.{
  chunk_loop, run_classify, classify_chunk_size, classify_chunk, context_of, mark_classified,
}

chunk_loop-ends :
    (chunk : ℕ → ℕ → Session → Result ClassifyError (Session × ℕ))
    (wallet_id fuel lo to_block total : ℕ) (s : Session)
    → to_block + 1 ≤ lo + fuel
    → is_some (chunk_loop chunk wallet_id fuel lo to_block total s) ≡ true
unfolding chunk_loop
chunk_loop-ends chunk wallet_id zero lo to_block total s enough =
    elim (Bool-cases (leb lo to_block)) [
      | inl more ↦ ground (arith, more, enough)
      | inr done ↦ rw (chunk_loop, done) refl
    ]
chunk_loop-ends chunk wallet_id (suc fuel) lo to_block total s enough =
    elim (Bool-cases (leb lo to_block)) [
      | inl more ↦
          rw (chunk_loop, more)
            (go (chunk lo (min (lo + classify_chunk_size - 1) to_block) s)
              (λ t x. chunk_loop-ends chunk wallet_id fuel _ to_block t x (further more)))
      | inr done ↦ rw (chunk_loop, done) refl
    ]
  where
    further :
        leb lo to_block ≡ true
        → to_block + 1 ≤ min (lo + classify_chunk_size - 1) to_block + 1 + fuel
    further more = ground (arith, more, enough)

    go :
        (r : Result ClassifyError (Session × ℕ))
        → ((t : ℕ) (x : Session)
            → is_some (
                chunk_loop chunk wallet_id fuel
                  (min (lo + classify_chunk_size - 1) to_block + 1)
                  to_block
                  t
                  x)
              ≡ true)
        → is_some (elim r [
          | err raised ↦ some (err raised)
          | ok result ↦
              chunk_loop chunk wallet_id fuel
                (min (lo + classify_chunk_size - 1) to_block + 1)
                to_block
                (total + result.1)
                (mark_classified wallet_id (min (lo + classify_chunk_size - 1) to_block) result.0)
        ])
          ≡ true
    go (err raised) ends = refl
    go (ok result) ends = ends _ _

-- The loop over the chunks ends for every wallet and whatever the chunks give: the number of the
-- last synced block is fuel enough.
pub run_classify-ends :
    (price : Chain → ℕ → ℕ → Option Decimal) (wallet_id : ℕ) (s : Session)
    → is_some (run_classify price wallet_id s) ≡ true
unfolding run_classify
run_classify-ends price wallet_id s =
    elim (Option-cases (find (λ w. w.id == wallet_id) s.wallets)) [
      | inl missing ↦ rw (run_classify, missing) refl
      | inr (wallet, found) ↦ elim (Bool-cases (not wallet.is_active)) [
        | inl idle ↦ rw (run_classify, found, idle) refl
        | inr active ↦
            rw (run_classify, found, active)
              (chunk_loop-ends (classify_chunk wallet (context_of s price wallet)) wallet_id
                (get_or wallet.last_synced_block 0) (get_or wallet.last_classified_block 0 + 1)
                (get_or wallet.last_synced_block 0) 0 s (omega arith))
      ]
    ]
