-- ===== src/Pricing/Service/Fmv.antt =====
-- The fair market values that pricing/service.py gives for a day.
use lemon_ledger.Prelude.{
  ℕ, ◌==◌, ◌≡◌, refl, Bool-cases, Option-cases, true, false, Option, inl, inr,
}
use lemon_ledger.Models.{Chain, lemonchain, bsc}
use lemon_ledger.Pricing.Sources.{PriceResult}
use lemon_ledger.Pricing.Service.{
  PricingService, sources_for, walk, resolve, get_historical_price, historical_live_fallback,
}

-- The service over a cache with other last-known-good prices.
abbrev pub with_lkg :
    {Cache : Type 0}
    → (Cache → Chain → ℕ → Option PriceResult)
    → PricingService Cache
    → PricingService Cache
with_lkg get_lkg service = record service { cache = record service.cache { get_lkg = get_lkg } }

resolve_fmv :
    {Cache : Type 0} (service : PricingService Cache)
    (get_lkg : Cache → Chain → ℕ → Option PriceResult) (chain : Chain) (token_id : ℕ) (c : Cache)
    → (service.cache.acquire_lock c chain token_id).0 ≡ true
    → resolve (with_lkg get_lkg service) chain token_id false true c
      ≡ resolve service chain token_id false true c
unfolding resolve walk sources_for
resolve_fmv service get_lkg bsc token_id c locked = refl
resolve_fmv service get_lkg lemonchain token_id c locked =
    elim (Option-cases (service.cache.get_fresh c lemonchain token_id)) [
      | inr (fresh, is_fresh) ↦ rw (resolve, is_fresh) refl
      | inl stale ↦ elim (Bool-cases (service.cache.get_negative c lemonchain token_id)) [
        | inl negative ↦ rw (resolve, stale, negative) refl
        | inr unmarked ↦ elim (Option-cases (service.get_by_id token_id)) [
          | inl unknown ↦ rw (resolve, stale, unmarked, unknown) refl
          | inr (token, known) ↦ rw (resolve, stale, unmarked, known, locked) refl
        ]
      ]
    ]

-- A price for a moment does not depend on the last-known-good prices of the cache, where the
-- caller gets the lock of the token.
pub get_historical_price-with_lkg :
    {Cache : Type 0} (service : PricingService Cache)
    (get_lkg : Cache → Chain → ℕ → Option PriceResult) (chain : Chain) (token_id ts : ℕ) (c : Cache)
    → (service.cache.acquire_lock c chain token_id).0 ≡ true
    → get_historical_price (with_lkg get_lkg service) chain token_id ts c
      ≡ get_historical_price service chain token_id ts c
unfolding get_historical_price historical_live_fallback
get_historical_price-with_lkg service get_lkg chain token_id ts c locked =
    elim (Bool-cases (service.day_start ts == service.today)) [
      | inl same_day ↦
          rw (get_historical_price, same_day) (resolve_fmv service get_lkg chain token_id c locked)
      | inr past ↦ rw (get_historical_price, past) refl
    ]
