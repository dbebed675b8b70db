-- ===== src/Lots/Pools.antt =====
-- Queries of domain/lots/engine.py: the pool of a token, the open lots of a pool, the entity of a
-- wallet at a moment, and the basis method of that entity.
pub mod Open
use lemon_ledger.Prelude.{
  ℕ, ltb, leb, ◌==◌, opt_eq, is_some, Bool, true, ◌&&◌, not, Option, none, some, List, find, filter,
  sorted,
}
use mathlib.Core.Option
use lemon_ledger.Models.{
  Session, ClassifiedTransaction, TaxLot, WalletEntityAssignment, BasisMethod, fifo_method,
  specific_id, SelectionStrategy, fifo, hifo, date, get_entity,
}
use lemon_ledger.Lots.Methods.{oldest_first}

-- ("logical", id) or ("token", id)
pub data PoolKey : Type 0 where
  logical token : ℕ → PoolKey

unfoldable pub canonical_pool_key : Session → ℕ → PoolKey
canonical_pool_key s token_id = elim (find (λ m. m.token_id == token_id) s.memberships) [
  | none ↦ token token_id
  | some membership ↦ logical membership.logical_asset_id
]

abbrev pub in_pool : PoolKey → TaxLot → Bool
in_pool (logical pool_id) lot = opt_eq lot.logical_asset_id (some pool_id)
in_pool (token pool_id) lot = lot.acquired_token_id == pool_id && not (is_some lot.logical_asset_id)

unfoldable pub is_open : ℕ → PoolKey → TaxLot → Bool
is_open wallet_id pool lot =
    lot.wallet_id == wallet_id && (ltb 0 lot.quantity_remaining && in_pool pool lot)

-- Both values of `for_update` give the same rows in the same order; the row locks have no place
-- in a session that is alone.
unfoldable pub open_lots : Session → ℕ → ℕ → List TaxLot
open_lots s wallet_id token_id =
    sorted oldest_first (filter (is_open wallet_id (canonical_pool_key s token_id)) s.lots)

abbrev pub covers : ℕ → ℕ → WalletEntityAssignment → Bool
covers wallet_id day a =
    a.wallet_id == wallet_id
    && (leb a.effective_from day
        && elim a.effective_to [ none ↦ true | some effective_to ↦ leb day effective_to ])

unfoldable pub resolve_entity_for_wallet : Session → ℕ → ℕ → Option ℕ
resolve_entity_for_wallet s wallet_id as_of =
    Option.map (λ a. a.entity_id) (find (covers wallet_id (date as_of)) s.assignments)

unfoldable pub resolve_entity_id : Session → ClassifiedTransaction → Option ℕ
resolve_entity_id s event = resolve_entity_for_wallet s event.wallet_id event.occurred_at

abbrev pub strategy_of : BasisMethod → BasisMethod × SelectionStrategy
strategy_of specific_id = (specific_id, hifo)
strategy_of fifo_method = (fifo_method, fifo)

unfoldable pub resolve_basis_method :
    Session → ClassifiedTransaction → BasisMethod × SelectionStrategy
resolve_basis_method s event = elim (resolve_entity_id s event) [
  | none ↦ (fifo_method, fifo)
  | some entity_id ↦ elim (get_entity s entity_id) [
    | none ↦ (fifo_method, fifo)
    | some entity ↦ strategy_of entity.default_basis_method
  ]
]
