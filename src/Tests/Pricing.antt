-- ===== src/Tests/Pricing.antt =====
-- A cache with one last-known-good price, and the theorem on pricing applied to it.
use lemon_ledger.Prelude.{ℕ, ◌≡◌, refl, true, pos, none, some}
use lemon_ledger.Models.{lemonchain}
use lemon_ledger.Decimal.{Decimal}
use lemon_ledger.Pricing.Sources.{PriceResult, Clients, oracle}
use lemon_ledger.Pricing.Service.{PricingService, null_cache, get_historical_price}
use lemon_ledger.Pricing.Service.Fmv.{with_lkg, get_historical_price-with_lkg}

abbrev two_dollars : Decimal
two_dollars = record { coef = pos 2; places = 0 }

abbrev old_price : PriceResult
old_price = record { price_usd = two_dollars; source = oracle; stale = true }

abbrev clients : Clients
clients = record {
  get_spot_price = λ token. none;
  get_daily_average = λ token. some two_dollars;
  coin_price_usd = λ coin. none;
  quote_usd = none;
}

-- The state is the number of prices written.
abbrev service : PricingService ℕ
service = record {
  clients = clients;
  cache = null_cache;
  get_by_id =
      λ token_id. some (record { token_id = token_id; symbol = "LEMX"; chain = lemonchain });
  historical_price = λ chain token_id day. none;
  historical_fallback = none;
  today = 2;
  day_start = λ ts. ts;
}

get_historical_price-with_lkg_example :
    get_historical_price (with_lkg (λ c chain token_id. some old_price) service) lemonchain 3 2 0
    ≡ get_historical_price service lemonchain 3 2 0
get_historical_price-with_lkg_example =
    get_historical_price-with_lkg service (λ c chain token_id. some old_price) lemonchain 3 2 0 refl
