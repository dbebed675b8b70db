-- ===== src/Lots/Acquire/Credits.antt =====
-- On what `_apply_acquire` of domain/lots/engine.py adds to the lots that a wallet can spend.
use lemon_ledger.Prelude.{
  ℕ, ◌+◌, ◌≡◌, refl, sym, ap, ◌∙◌, arith, Bool, Bool-cases, true, ltb, ◌==◌, if◌then◌else◌, ◌&&◌,
  inl, inr, Option, none, some, List, [], ◌∷◌, ◌++◌, find, filter, subst, sum_of, sum_of-sorted, ℤ,
}
use lemon_ledger.Models.{
  Session, ClassifiedTransaction, TaxLot, LotProcessingException, missing_basis, add_lot,
  add_exception,
}
use lemon_ledger.Lots.Methods.{oldest_first}
use lemon_ledger.Lots.Pools.{canonical_pool_key, in_pool, is_open, open_lots, resolve_entity_id}
use lemon_ledger.Lots.Consume.Totals.{remaining}
use lemon_ledger.Lots.Acquire.{
  acquisition_basis, acquired_lot, acquire_new, acquire_with, apply_acquire, record_exception,
  logical_part,
}
use lemon_ledger.Lots.Pools.Open.{asset_of_token, pool_of, canonical_pool_key-pool_of}

-- What the wallet can spend of the token.
abbrev pub supply : Session → ℕ → ℕ → ℕ
supply s wallet_id token_id = sum_of remaining (open_lots s wallet_id token_id)

supply-filter :
    (s : Session) (wallet_id token_id : ℕ)
    → supply s wallet_id token_id
      ≡ sum_of remaining (filter (is_open wallet_id (canonical_pool_key s token_id)) s.lots)
unfolding open_lots
supply-filter s wallet_id token_id = sum_of-sorted oldest_first remaining _

filter-snoc :
    (p : TaxLot → Bool) (lots : List TaxLot) (l : TaxLot)
    → sum_of remaining (filter p (lots ++ (l ∷ [])))
      ≡ sum_of remaining (filter p lots) + (if p l then remaining l else 0)
filter-snoc p [] l = ground arith
filter-snoc p (m ∷ lots) l = elim (Bool-cases (p m)) [
  | inl fit ↦ rw fit (omega (arith, filter-snoc p lots l))
  | inr unfit ↦ rw unfit (filter-snoc p lots l)
]

whole : (w n : ℕ) → (if w == w && (ltb 0 n && true) then n else 0) ≡ n
whole w n = ground arith

pool_lot :
    (o : Option ℕ) (token_id : ℕ) (lot : TaxLot)
    → lot.acquired_token_id ≡ token_id
    → lot.logical_asset_id ≡ logical_part (pool_of o token_id)
    → in_pool (pool_of o token_id) lot ≡ true
pool_lot none token_id lot same asset = rw (same, asset) (ground arith)
pool_lot (some a) token_id lot same asset = rw asset (ground arith)

module _ (s : Session) (event : ClassifiedTransaction) (entity_id token_id : ℕ) (basis : ℤ) where
  in_own_pool :
      in_pool (canonical_pool_key s token_id) (acquired_lot s event entity_id token_id basis) ≡ true
  unfolding acquired_lot
  in_own_pool =
      subst (λ key. in_pool key (acquired_lot s event entity_id token_id basis) ≡ true)
        (sym (canonical_pool_key-pool_of s token_id))
        (pool_lot (asset_of_token s token_id) token_id
          (acquired_lot s event entity_id token_id basis) refl
          (ap logical_part (canonical_pool_key-pool_of s token_id)))

  counted_whole :
      (if is_open event.wallet_id
          (canonical_pool_key s token_id)
          (acquired_lot s event entity_id token_id basis)
        then remaining (acquired_lot s event entity_id token_id basis)
        else 0)
      ≡ event.amount
  unfolding is_open acquired_lot
  counted_whole = tested _ in_own_pool
    where
      tested :
          (b : Bool)
          → b ≡ true
          → (if (acquired_lot s event entity_id token_id basis).wallet_id == event.wallet_id
                && (ltb 0 (remaining (acquired_lot s event entity_id token_id basis)) && b)
              then remaining (acquired_lot s event entity_id token_id basis)
              else 0)
            ≡ event.amount
      tested b e = rw e (whole event.wallet_id event.amount)

  supply-add_lot :
      supply (add_lot (acquired_lot s event entity_id token_id basis) s) event.wallet_id token_id
      ≡ supply s event.wallet_id token_id + event.amount
  unfolding add_lot canonical_pool_key
  supply-add_lot =
      supply-filter (add_lot (acquired_lot s event entity_id token_id basis) s) event.wallet_id
        token_id
      ∙ filter-snoc (is_open event.wallet_id (canonical_pool_key s token_id)) s.lots
          (acquired_lot s event entity_id token_id basis)
      ∙ omega (arith, counted_whole, supply-filter s event.wallet_id token_id)

-- What an acquisition adds to the session: one lot, whole and with its basis.
pub record Credits (s t : Session) (event : ClassifiedTransaction) (basis : ℤ)
    (entity_id token_id : ℕ) : Type 0 where
  pub lot : TaxLot
  pub added : t.lots ≡ s.lots ++ (lot ∷ [])
  pub whole : lot.quantity ≡ event.amount
  pub unspent : lot.quantity_remaining ≡ event.amount
  pub costs : lot.cost_basis_usd ≡ basis
  pub owner : lot.entity_id ≡ entity_id
  pub since : lot.acquired_at ≡ event.occurred_at
  pub source : lot.source_classified_tx_id ≡ event.id
  pub spendable :
      supply t event.wallet_id token_id ≡ supply s event.wallet_id token_id + event.amount
  pub exceptions : t.exceptions ≡ s.exceptions

-- One more exception, for the event, and nothing else.
pub record Excepts (s t : Session) (event : ClassifiedTransaction) : Type 0 where
  pub row : LotProcessingException
  pub only : t ≡ add_exception row s
  pub of_event : row.classified_tx_id ≡ event.id
  pub of_basis : row.reason ≡ missing_basis

-- How an acquisition ends, by the basis, the entity and the token of its event.
abbrev pub Acquires :
    Session → Session → ClassifiedTransaction → Option ℤ → Option ℕ → Option ℕ → Type 0
Acquires s t event (some basis) (some entity_id) (some token_id) =
    Credits s t event basis entity_id token_id
Acquires s t event none _ _ = Excepts s t event
Acquires s t event (some _) none _ = Excepts s t event
Acquires s t event (some _) (some _) none = Excepts s t event

acquire_with-Acquires :
    (s : Session) (event : ClassifiedTransaction) (basis : Option ℤ) (entity : Option ℕ)
    (token : Option ℕ)
    → Acquires s (acquire_with s event basis entity token) event basis entity token
unfolding acquire_with record_exception
acquire_with-Acquires s event none e t = record {
  row = _;
  only = refl;
  of_event = refl;
  of_basis = refl;
}
acquire_with-Acquires s event (some b) none t = record {
  row = _;
  only = refl;
  of_event = refl;
  of_basis = refl;
}
acquire_with-Acquires s event (some b) (some e) none = record {
  row = _;
  only = refl;
  of_event = refl;
  of_basis = refl;
}
acquire_with-Acquires s event (some b) (some e) (some t) =
    unfold add_lot in
    unfold acquired_lot in
    record {
      lot = acquired_lot s event e t b;
      added = refl;
      whole = refl;
      unspent = refl;
      costs = refl;
      owner = refl;
      since = refl;
      source = refl;
      spendable = supply-add_lot s event e t b;
      exceptions = refl;
    }

-- Let no lot come from the event yet. If the event has a basis, an entity and a token, its
-- acquisition adds exactly one lot, from the event, with its whole amount left, the basis as its
-- cost, the entity as its owner and the event's moment as its date, and what the wallet can spend
-- of the token grows by exactly the amount. If one of the three is missing, it adds one exception
-- for the event, of a missing basis, and changes nothing else.
pub apply_acquire-Acquires :
    (s : Session) (event : ClassifiedTransaction)
    → find (λ l. l.source_classified_tx_id == event.id) s.lots ≡ none
    → Acquires s
        (apply_acquire s event)
        event
        (acquisition_basis s event)
        (resolve_entity_id s event)
        event.token_id
unfolding apply_acquire acquire_new
apply_acquire-Acquires s event new = rw new (
    acquire_with-Acquires s event (acquisition_basis s event) (resolve_entity_id s event)
      event.token_id)
