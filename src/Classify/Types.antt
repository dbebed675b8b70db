-- ===== src/Classify/Types.antt =====
-- classify/types.py: bundles, events and claims, and the amounts of pricing/units.py as their
-- columns hold them.
use lemon_ledger.Prelude.{
  ℕ, ◌+◌, ◌-◌, ◌*◌, ◌/◌, ◌^◌, ℤ, pos, negsuc, magnitude, signed, leb, ◌==◌, if◌then◌else◌, Bool,
  Option, none, some, String, List, [], ◌∷◌, ◌++◌, any,
}
use lemon_ledger.Models.{
  Session, Chain, ClassificationKind, RawTransaction, RawTokenTransfer, RawInternalTx,
}
use lemon_ledger.Decimal.{Decimal, fix_ℕ}

-- The text "" in the place of an address: an address has 160 bits.
abbrev pub no_address : ℕ
no_address = 2 ^ 160

-- `raw.get(key, "").lower()`
abbrev pub text_of : Option ℕ → ℕ
text_of none = no_address
text_of (some address) = address

abbrev pub zero_addr : ℕ
zero_addr = 0

pub record TxBundle : Type 0 where
  pub wallet_id : ℕ
  pub chain : Chain
  pub tx_hash : ℕ
  pub block_number : ℕ
  pub occurred_at : ℕ
  pub envelope : Option RawTransaction
  pub transfers : List RawTokenTransfer
  pub internals : List RawInternalTx

-- `_order_hint` is an int, but the LQST decoder puts the text of `raw["logIndex"]` there.
pub data Hint : Type 0 where
  index : ℤ → Hint
  text : String → Hint

-- `amount` and `value_usd_at_event` are the values that their columns hold.
pub record ClassifiedEvent : Type 0 where
  pub classification : ClassificationKind
  pub contract_address : ℕ
  pub token_id : Option ℕ
  pub amount : ℕ
  pub value_usd_at_event : Option ℤ
  pub needs_review : Bool
  pub notes : Option String
  pub order_hint : Hint

-- What a call of the classifier can raise.
pub data ClassifyError : Type 0 where
  type_error : ClassifyError
  wallet_not_found : ℕ → ClassifyError

-- What the recognizers and decoders change: the session, the claimed log indices (no code claims
-- an internal transaction), and the events so far.
pub record Work : Type 0 where
  pub session : Session
  pub claims : List ℕ
  pub events : List ClassifiedEvent

abbrev pub has : RawTokenTransfer → List ℕ → Bool
has t claims = any (λ k. k == t.log_index) claims

abbrev pub claim : RawTokenTransfer → Work → Work
claim t w = record w { claims = t.log_index ∷ w.claims }

abbrev pub emit : ClassifiedEvent → Work → Work
emit event w = record w { events = w.events ++ (event ∷ []) }

-- n / d rounded to the nearest, ties up, as PostgreSQL rounds a NUMERIC to its scale.
abbrev pub half_up : ℕ → ℕ → ℕ
half_up n d = (n + d / 2) / d

-- `Decimal(raw).scaleb(-decimals)`, which rounds to 28 digits, in a column of scale 18.
unfoldable pub token_units : ℕ → ℕ → ℕ
token_units raw decimals =
    if leb decimals 18
    then fix_ℕ raw * 10 ^ (18 - decimals)
    else half_up (fix_ℕ raw) (10 ^ (decimals - 18))

-- The same number before it is stored.
abbrev pub from_token_units : ℕ → ℕ → Decimal
from_token_units raw decimals = record { coef = pos (fix_ℕ raw); places = decimals }

-- The value of a Decimal in a column of scale 18.
unfoldable pub to_column : Decimal → ℤ
to_column d = signed d.coef (half_up (magnitude d.coef * 10 ^ 18) (10 ^ d.places))

abbrev pub to_column? : Option Decimal → Option ℤ
to_column? none = none
to_column? (some d) = some (to_column d)

-- `Decimal(1)`
abbrev pub one_piece : ℕ
one_piece = 10 ^ 18

-- -1, the hint of native value.
abbrev pub native_hint : Hint
native_hint = index (negsuc 0)
