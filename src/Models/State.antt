-- ===== src/Models/State.antt =====
-- The session: the tables as lists of rows, in the order in which the database yields them where
-- a query asks for none. A `session.add` is a row at the end; a query after it sees the row,
-- since sessions are made with SQLAlchemy's autoflush on.
use lemon_ledger.Prelude.{
  ℕ, ◌+◌, ◌/◌, true, Option, List, [], ◌∷◌, ◌++◌, ◌==◌, find, update, Result,
}
use lemon_ledger.Models.Tables.{
  ClassifiedTransaction, TaxLot, LotDisposal, LotRelocation, LotProcessingException,
  TokenAssetMembership, LogicalAsset, TokenRegistry, WalletEntityAssignment, Entity,
  PendingClassification, ClassificationAuditLog,
}
use lemon_ledger.Models.BridgeTables.{BridgeCorrelation, CustodyAddress, BridgeAuditLog}
use lemon_ledger.Models.RawTables.{
  Wallet, RawTransaction, RawTokenTransfer, RawInternalTx, L2DecoderConfig, BurnAddress,
}

-- What code outside the repository gives: the clock (`datetime.now(UTC)`), the date one calendar
-- year after a date (dateutil's `relativedelta(years=1)`), and the keys of the package uuid7,
-- the n-th that is drawn being `uuid7 n`, and the calendar year of a moment
-- (PostgreSQL's `extract`).
pub record Runtime : Type 0 where
  pub now : ℕ
  pub plus_one_year : ℕ → ℕ
  pub uuid7 : ℕ → ℕ
  pub year_of : ℕ → ℕ

pub record Session : Type 0 where
  pub runtime : Runtime
  pub drawn : ℕ
  pub events : List ClassifiedTransaction
  pub lots : List TaxLot
  pub disposals : List LotDisposal
  pub relocations : List LotRelocation
  pub exceptions : List LotProcessingException
  pub memberships : List TokenAssetMembership
  pub assets : List LogicalAsset
  pub tokens : List TokenRegistry
  pub assignments : List WalletEntityAssignment
  pub entities : List Entity
  pub pendings : List PendingClassification
  pub audit : List ClassificationAuditLog
  pub correlations : List BridgeCorrelation
  pub custody : List CustodyAddress
  pub bridge_audit : List BridgeAuditLog
  pub wallets : List Wallet
  pub raw_transactions : List RawTransaction
  pub raw_transfers : List RawTokenTransfer
  pub raw_internals : List RawInternalTx
  pub configs : List L2DecoderConfig
  pub burns : List BurnAddress

-- `moment.date()`
abbrev pub date : ℕ → ℕ
date moment = moment / 86_400_000_000

-- What a call can raise.
pub data Error : Type 0 where
  insufficient_lots : ℕ → Error
  invalid_operation division_by_zero : Error

abbrev pub Try : Type 0 → Type 0
Try = Result Error

-- An assignment to the attributes of the lot, or of the event, with the key `k`.
unfoldable pub set_lot : ℕ → (TaxLot → TaxLot) → Session → Session
set_lot k f s = record s { lots = update (λ l. l.id == k) f s.lots }

unfoldable pub set_event : ℕ → (ClassifiedTransaction → ClassifiedTransaction) → Session → Session
set_event k f s = record s { events = update (λ e. e.id == k) f s.events }

abbrev pub needs_review : ClassifiedTransaction → ClassifiedTransaction
needs_review e = record e { needs_review = true }

-- `session.get(ClassifiedTransaction, k)` and so on.
abbrev pub get_event : Session → ℕ → Option ClassifiedTransaction
get_event s k = find (λ e. e.id == k) s.events

abbrev pub get_token : Session → ℕ → Option TokenRegistry
get_token s k = find (λ t. t.id == k) s.tokens

abbrev pub get_asset : Session → ℕ → Option LogicalAsset
get_asset s k = find (λ a. a.id == k) s.assets

abbrev pub get_entity : Session → ℕ → Option Entity
get_entity s k = find (λ e. e.id == k) s.entities

unfoldable pub add_lot : TaxLot → Session → Session
add_lot l s = record s { lots = s.lots ++ (l ∷ []); drawn = s.drawn + 1 }

unfoldable pub add_disposal : LotDisposal → Session → Session
add_disposal d s = record s { disposals = s.disposals ++ (d ∷ []) }

unfoldable pub add_relocation : LotRelocation → Session → Session
add_relocation r s = record s { relocations = s.relocations ++ (r ∷ []) }

unfoldable pub add_exception : LotProcessingException → Session → Session
add_exception x s = record s { exceptions = s.exceptions ++ (x ∷ []) }
