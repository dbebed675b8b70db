-- ===== src/Classify/Orchestrator/Replace.antt =====
-- On `replace_classified` of classify/orchestrator.py.
use lemon_ledger.Prelude.{
  ℕ, ◌≡◌, refl, ap, arith, Bool, Bool-cases, true, false, ◌&&◌, not, List, [], ◌∷◌, ◌++◌, any,
  filter, All, inl, inr,
}
use lemon_ledger.Models.{Session, ClassifiedTransaction}
use lemon_ledger.Classify.Orchestrator.{replace_classified, is_pinned, is_of_tx}

module _ (wallet_id tx_hash : ℕ) where
  abbrev of_tx : ClassifiedTransaction → Bool
  of_tx e = is_of_tx wallet_id tx_hash e

  -- What the call makes of the rows of the transaction and of the others.
  pub record Replaces (s : Session) (rows : List ClassifiedTransaction) (after : Session)
      : Type 0 where
    pub others : filter (λ e. not (of_tx e)) after.events ≡ filter (λ e. not (of_tx e)) s.events
    pub frozen : is_pinned wallet_id tx_hash s ≡ true → after ≡ s
    pub replaced : is_pinned wallet_id tx_hash s ≡ false → filter of_tx after.events ≡ rows

  filter_every :
      (rows : List ClassifiedTransaction)
      → All (λ e. of_tx e ≡ true) rows
      → filter of_tx rows ≡ rows
  filter_every [] h = refl
  filter_every (e ∷ rows) (h, hs) = rw h (ap (λ r. e ∷ r) (filter_every rows hs))

  filter_others :
      (rows : List ClassifiedTransaction)
      → All (λ e. of_tx e ≡ true) rows
      → filter (λ e. not (of_tx e)) rows ≡ []
  filter_others [] h = refl
  filter_others (e ∷ rows) (h, hs) = rw h (filter_others rows hs)

  -- The deletion, row by row: without a row that is pinned it takes all rows of the transaction.
  kept_others :
      (rows more : List ClassifiedTransaction)
      → All (λ e. of_tx e ≡ true) more
      → filter
          (λ e. not (of_tx e))
          (filter (λ e. not (of_tx e && not e.manual_override)) rows ++ more)
        ≡ filter (λ e. not (of_tx e)) rows
  kept_others [] more h = filter_others more h
  kept_others (e ∷ rows) more h = elim (Bool-cases (of_tx e)) [
    | inr other ↦ simp other (ap (λ r. e ∷ r) (kept_others rows more h))
    | inl own ↦ elim (Bool-cases e.manual_override) [
      | inl manual ↦ simp (own, manual) (kept_others rows more h)
      | inr automatic ↦ simp (own, automatic) (kept_others rows more h)
    ]
  ]

  kept_own :
      (rows more : List ClassifiedTransaction)
      → All (λ e. of_tx e ≡ true) more
      → any (λ e. of_tx e && e.manual_override) rows ≡ false
      → filter of_tx (filter (λ e. not (of_tx e && not e.manual_override)) rows ++ more) ≡ more
  kept_own [] more h free = filter_every more h
  kept_own (e ∷ rows) more h free = elim (Bool-cases (of_tx e)) [
    | inr other ↦ simp other (kept_own rows more h (simp other at free))
    | inl own ↦ elim (Bool-cases e.manual_override) [
      | inl manual ↦ ground (arith, simp (own, manual) at free)
      | inr automatic ↦ simp (own, automatic) (kept_own rows more h (simp (own, automatic) at free))
    ]
  ]

  -- Given rows of the wallet and the transaction, the call leaves the rows of all other
  -- transactions as they are; a transaction with a row that was overridden by hand is frozen as a
  -- whole, and any other has exactly the given rows afterwards.
  pub replace_classified-Replaces :
      (s : Session) (rows : List ClassifiedTransaction)
      → All (λ e. is_of_tx wallet_id tx_hash e ≡ true) rows
      → Replaces s rows (replace_classified wallet_id tx_hash rows s)
  unfolding replace_classified is_pinned
  replace_classified-Replaces s rows h = elim (Bool-cases (is_pinned wallet_id tx_hash s)) [
    | inl pinned ↦
        rw (replace_classified, pinned)
          (record {
            others = refl;
            frozen = λ _. refl;
            replaced = λ free. ground (arith, pinned, free);
          })
    | inr free ↦
        rw (replace_classified, free)
          (record {
            others = kept_others s.events rows h;
            frozen = λ pinned. ground (arith, pinned, free);
            replaced = λ _. kept_own s.events rows h free;
          })
  ]
