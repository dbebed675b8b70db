-- ===== src/Classify/Decoders/Rewards.antt =====
-- On `_detect_reward` of classify/decoders/base.py.
use lemon_ledger.Prelude.{
  ℕ, ◌==◌, ==_iff, ◌≡◌, refl, ap, ◌∙◌, arith, Bool-cases, Option-cases, true, false, not, is_some,
  Option, none, some, List, [], ◌∷◌, ◌++◌, ◌⊎◌, inl, inr,
}
use lemon_ledger.Models.{Session, RawTokenTransfer, L2DecoderConfig, reward, pending_kind}
use lemon_ledger.Decimal.{Decimal}
use lemon_ledger.Classify.Types.{to_column?, TxBundle, ClassifiedEvent, Work, text_of}
use lemon_ledger.Classify.Context.{propose_staking_contract, WalletContext, config_for}
use lemon_ledger.Classify.Decoders.{
  reward_step, reward_of, reward_event, parked_event, may_be_reward, is_confirmed_status,
}

-- The event is a reward from the staking contract that the configuration of the token names, and
-- asks for no review only where the contract is confirmed, the distribution is not complete and
-- the price is known.
pub record IsBacked (s : Session) (token_id : ℕ) (t : RawTokenTransfer) (e : ClassifiedEvent)
    : Type 0 where
  pub config : L2DecoderConfig
  pub found : config_for s token_id ≡ some config
  pub source : config.staking_contract ≡ some (text_of t.sender)
  pub kind : e.classification ≡ reward
  pub settled :
      e.needs_review ≡ false
      → (is_confirmed_status config.staking_contract_status ≡ true)
        × (config.distribution_complete ≡ false)
        × (is_some e.value_usd_at_event ≡ true)

-- The event waits for a review, with no value.
pub record IsParked (e : ClassifiedEvent) : Type 0 where
  pub kind : e.classification ≡ pending_kind
  pub review : e.needs_review ≡ true
  pub unvalued : e.value_usd_at_event ≡ none

-- What one round adds to the events.
pub record Emits (s : Session) (token_id : ℕ) (t : RawTokenTransfer)
    (old new : List ClassifiedEvent) : Type 0 where
  pub event : ClassifiedEvent
  pub appended : new ≡ old ++ (event ∷ [])
  pub of_token : event.token_id ≡ some token_id
  pub reason : IsBacked s token_id t event ⊎ IsParked event

module _ (b : TxBundle) (ctx : WalletContext) (token_id : ℕ) (t : RawTokenTransfer) (w : Work) where
  priced : (fmv : Option Decimal) → not (is_some fmv) ≡ false → is_some (to_column? fmv) ≡ true
  priced none free = ground (arith, free)
  priced (some d) free = refl

  backed :
      (cfg : L2DecoderConfig)
      → config_for w.session token_id ≡ some cfg
      → cfg.staking_contract ≡ some (text_of t.sender)
      → Emits w.session token_id t w.events
          (w.events ++ (reward_event b ctx w.session cfg token_id t ∷ []))
  unfolding reward_event
  backed cfg found source = record {
    event = reward_event b ctx w.session cfg token_id t;
    appended = refl;
    of_token = refl;
    reason = inl (record {
      config = cfg;
      found = found;
      source = source;
      kind = refl;
      settled = λ free. (
        ground (arith, free),
        ground (arith, free),
        priced (ctx.price b.chain token_id b.occurred_at) (ground (arith, free)),
      );
    });
  }

  parked :
      (s : Session)
      → Emits w.session token_id t w.events (w.events ++ (parked_event s token_id t ∷ []))
  unfolding parked_event
  parked s = record {
    event = parked_event s token_id t;
    appended = refl;
    of_token = refl;
    reason = inr (record { kind = refl; review = refl; unvalued = refl });
  }

  -- One round of the reward detector over a transfer emits nothing or one event of the token. The
  -- event is a reward only where the sender is the staking contract that the configuration of the
  -- token names, and then it asks for no review only where the contract is confirmed, the
  -- distribution is not complete, and there is a price. Any other event is pending, has no value
  -- and asks for a review.
  pub reward_step-Emits :
      ((reward_step b ctx token_id t w).events ≡ w.events)
      ⊎ Emits w.session token_id t w.events (reward_step b ctx token_id t w).events
  unfolding reward_step reward_of
  reward_step-Emits = elim (Bool-cases (may_be_reward ctx token_id t w)) [
    | inr other ↦ inl (rw (reward_step, other) refl)
    | inl candidate ↦ elim (Option-cases (config_for w.session token_id)) [
      | inl unknown ↦ inr (rw (reward_step, candidate, unknown) (parked w.session))
      | inr (cfg, found) ↦ elim (Option-cases cfg.staking_contract) [
        | inl unset ↦ inr (
            simp (reward_step, candidate, found, unset)
              (parked (propose_staking_contract token_id (text_of t.sender) w.session)))
        | inr (staking, named) ↦ elim (Bool-cases (staking == text_of t.sender)) [
          | inr stranger ↦ inl (simp (reward_step, candidate, found, named, stranger) refl)
          | inl same ↦ inr (
              simp (reward_step, candidate, found, named, same)
                (backed cfg found
                  (named ∙ ap (λ k. some k) ((==_iff staking (text_of t.sender)).0 same))))
        ]
      ]
    ]
  ]
