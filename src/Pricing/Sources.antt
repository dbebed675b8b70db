-- ===== src/Pricing/Sources.antt =====
-- pricing/types.py, and the sources of pricing/sources.py. The clients are a parameter: a function
-- of theirs that raises gives `none`, as a source or `_safe` takes the exception up.
use lemon_ledger.Prelude.{ℕ, Bool, false, pos, Option, none, some, String}
use lemon_ledger.Models.{Chain}
use lemon_ledger.Decimal.{Decimal}

pub data PriceSource : Type 0 where
  oracle coingecko coinmarketcap stable_peg_source last_known_good_source manual : PriceSource

pub record PriceResult : Type 0 where
  pub price_usd : Decimal
  pub source : PriceSource
  pub stale : Bool

-- The fields that the cascade reads.
pub record TokenRow : Type 0 where
  pub token_id : ℕ
  pub symbol : String
  pub chain : Chain

-- `quote_usd` is `none` where no client of CoinMarketCap is configured.
pub record Clients : Type 0 where
  pub get_spot_price : TokenRow → Option Decimal
  pub get_daily_average : TokenRow → Option Decimal
  pub coin_price_usd : String → Option Decimal
  pub quote_usd : Option (ℕ → Option Decimal)

abbrev lemx_coingecko_id : String
lemx_coingecko_id = "lemon-2"

abbrev lemx_cmc_id : Option ℕ
lemx_cmc_id = none

abbrev lusd_peg : Decimal
lusd_peg = record { coef = pos 100; places = 2 }

-- A fresh result of a source.
abbrev priced : PriceSource → Option Decimal → Option PriceResult
priced source none = none
priced source (some price) = some (record { price_usd = price; source = source; stale = false })

unfoldable pub oracle_spot : Clients → TokenRow → Option PriceResult
oracle_spot clients token = priced oracle (clients.get_spot_price token)

unfoldable pub oracle_daily_avg : Clients → TokenRow → Option PriceResult
oracle_daily_avg clients token = priced oracle (clients.get_daily_average token)

-- The comparison with CoinGecko only logs.
unfoldable pub lemx_oracle_crossval : Clients → TokenRow → Option PriceResult
lemx_oracle_crossval clients token = priced oracle (clients.get_spot_price token)

unfoldable pub coingecko_lemon2 : Clients → TokenRow → Option PriceResult
coingecko_lemon2 clients token = priced coingecko (clients.coin_price_usd lemx_coingecko_id)

unfoldable pub cmc_lemon : Clients → TokenRow → Option PriceResult
cmc_lemon clients token = elim clients.quote_usd [
  | none ↦ none
  | some quote_usd ↦ elim lemx_cmc_id [
    | none ↦ none
    | some cmc_id ↦ priced coinmarketcap (quote_usd cmc_id)
  ]
]

-- The comparison with the oracle only logs.
unfoldable pub stable_peg : Clients → TokenRow → Option PriceResult
stable_peg clients token = priced stable_peg_source (some lusd_peg)
