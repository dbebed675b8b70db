-- ===== src/Pricing/Service.antt =====
-- The cascade of pricing/service.py, over the protocol of pricing/cache.py.
pub mod Fmv
use lemon_ledger.Prelude.{
  ℕ, Bool, true, false, not, ◌||◌, ◌==◌, if◌then◌else◌, Option, none, some, Result, ok, err, List,
  [], ◌∷◌, ◌++◌,
}
use text.Mathlib.Text.{◌==◌ as str_eq}
use lemon_ledger.Models.{Chain, lemonchain, bsc}
use lemon_ledger.Decimal.{Decimal}
use lemon_ledger.Pricing.Sources.{
  PriceResult, TokenRow, Clients, oracle_spot, oracle_daily_avg, lemx_oracle_crossval,
  coingecko_lemon2, cmc_lemon, stable_peg,
}

-- `PriceCacheProtocol`: its functions on the state of the cache. Other callers, and the time to
-- live, are in what they answer.
pub record PriceCacheProtocol (Cache : Type 0) : Type 0 where
  pub get_fresh : Cache → Chain → ℕ → Option PriceResult
  pub get_lkg : Cache → Chain → ℕ → Option PriceResult
  pub set : Cache → Chain → ℕ → PriceResult → Cache
  pub get_negative : Cache → Chain → ℕ → Bool
  pub set_negative : Cache → Chain → ℕ → Cache
  pub acquire_lock : Cache → Chain → ℕ → Bool × Cache
  pub release_lock : Cache → Chain → ℕ → Cache

-- `_NullCache`.
abbrev pub null_cache : {Cache : Type 0} → PriceCacheProtocol Cache
null_cache = record {
  get_fresh = λ c chain token_id. none;
  get_lkg = λ c chain token_id. none;
  set = λ c chain token_id result. c;
  get_negative = λ c chain token_id. false;
  set_negative = λ c chain token_id. c;
  acquire_lock = λ c chain token_id. (true, c);
  release_lock = λ c chain token_id. c;
}

-- The days are those of `date`; `today` is the one on which the call is made.
pub record PricingService (Cache : Type 0) : Type 0 where
  pub clients : Clients
  pub cache : PriceCacheProtocol Cache
  pub get_by_id : ℕ → Option TokenRow
  pub historical_price : Chain → ℕ → ℕ → Option Decimal
  pub historical_fallback : Option (Chain → ℕ → ℕ → Option Decimal)
  pub today : ℕ
  pub day_start : ℕ → ℕ

pub data PricingError : Type 0 where
  not_implemented : PricingError

-- `last_known_good`.
unfoldable pub last_known_good :
    {Cache : Type 0} → PriceCacheProtocol Cache → Cache → TokenRow → Option PriceResult
last_known_good cache c token = cache.get_lkg c token.chain token.token_id

-- WLEMX has the sources of any other token.
unfoldable pub sources_for :
    {Cache : Type 0}
    → PricingService Cache
    → Cache
    → TokenRow
    → Bool
    → Bool
    → List (TokenRow → Option PriceResult)
sources_for service c token allow_stale fmv =
    let oracle_src : TokenRow → Option PriceResult =
      if fmv then oracle_daily_avg service.clients else oracle_spot service.clients in
    let lemx_oracle : TokenRow → Option PriceResult =
      if fmv then oracle_daily_avg service.clients else lemx_oracle_crossval service.clients in
    let tail : List (TokenRow → Option PriceResult) =
      if fmv || not allow_stale then [] else last_known_good service.cache c ∷ [] in
    if str_eq token.symbol "LUSD"
    then stable_peg service.clients ∷ []
    else if str_eq token.symbol "LEMX"
    then lemx_oracle ∷ coingecko_lemon2 service.clients ∷ cmc_lemon service.clients ∷ tail
    else oracle_src ∷ tail

-- The loop over the sources.
unfoldable pub first_result : List (TokenRow → Option PriceResult) → TokenRow → Option PriceResult
first_result [] token = none
first_result (source ∷ sources) token = elim (source token) [
  | none ↦ first_result sources token
  | some result ↦ some result
]

-- The walk under the lock, with the release of the lock.
unfoldable pub walk :
    {Cache : Type 0}
    → PricingService Cache
    → Chain
    → ℕ
    → TokenRow
    → Bool
    → Bool
    → Cache
    → Option Decimal × Cache
walk service chain token_id token allow_stale fmv c =
    elim (first_result (sources_for service c token allow_stale fmv) token) [
      | none ↦ (
        none,
        service.cache.release_lock (service.cache.set_negative c chain token_id) chain token_id,
      )
      | some result ↦
          let written = if result.stale then c else service.cache.set c chain token_id result in
          (some result.price_usd, service.cache.release_lock written chain token_id)
    ]

-- `_resolve`, with the state of the cache after it.
unfoldable pub resolve :
    {Cache : Type 0}
    → PricingService Cache
    → Chain
    → ℕ
    → Bool
    → Bool
    → Cache
    → Result PricingError (Option Decimal × Cache)
resolve service chain token_id allow_stale fmv c = elim (service.cache.get_fresh c chain token_id) [
  | some fresh ↦ ok (some fresh.price_usd, c)
  | none ↦
      if service.cache.get_negative c chain token_id
      then ok (none, c)
      else elim (service.get_by_id token_id) [
        | none ↦ ok (none, c)
        | some token ↦ elim chain [
          | bsc ↦ err not_implemented
          | lemonchain ↦
              let locked = service.cache.acquire_lock c lemonchain token_id in
              if locked.0
              then ok (walk service lemonchain token_id token allow_stale fmv locked.1)
              else elim (service.cache.get_lkg locked.1 lemonchain token_id) [
                | none ↦ ok (none, locked.1)
                | some lkg ↦ ok (some lkg.price_usd, locked.1)
              ]
        ]
      ]
]

unfoldable pub get_current_price :
    {Cache : Type 0}
    → PricingService Cache
    → Chain
    → ℕ
    → Cache
    → Result PricingError (Option Decimal × Cache)
get_current_price service chain token_id c = resolve service chain token_id true false c

unfoldable pub historical_live_fallback :
    {Cache : Type 0} → PricingService Cache → Chain → ℕ → ℕ → Option Decimal
historical_live_fallback service chain token_id day = elim service.historical_fallback [
  | none ↦ none
  | some fetch_day ↦ fetch_day chain token_id day
]

unfoldable pub get_historical_price :
    {Cache : Type 0}
    → PricingService Cache
    → Chain
    → ℕ
    → ℕ
    → Cache
    → Result PricingError (Option Decimal × Cache)
get_historical_price service chain token_id ts c =
    if service.day_start ts == service.today
    then resolve service chain token_id false true c
    else elim (service.historical_price chain token_id (service.day_start ts)) [
      | some db_price ↦ ok (some db_price, c)
      | none ↦ ok (historical_live_fallback service chain token_id (service.day_start ts), c)
    ]
