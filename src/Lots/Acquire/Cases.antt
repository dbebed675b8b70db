-- ===== src/Lots/Acquire/Cases.antt =====
-- On the branches of `_apply_acquire` of domain/lots/engine.py.
use lemon_ledger.Prelude.{ℕ, ℤ, ◌≡◌, inl, inr, ◌⊎◌, none, some, Option-cases}
use lemon_ledger.Models.{
  Session, ClassifiedTransaction, LotProcessingException, add_lot, add_exception, missing_basis,
  unvalued, no_wallet_entity_assignment, no_token_id_on_classified_tx,
}
use lemon_ledger.Lots.Pools.{resolve_entity_id}
use lemon_ledger.Lots.Acquire.{
  acquisition_basis, acquired_lot, record_exception, exception_row, acquire_with, acquire_new,
}

-- What a lot needs, and that it is added.
pub record HasLot (s : Session) (event : ClassifiedTransaction) : Type 0 where
  pub basis : ℤ
  pub entity : ℕ
  pub token : ℕ
  pub has_basis : acquisition_basis s event ≡ some basis
  pub has_entity : resolve_entity_id s event ≡ some entity
  pub has_token : event.token_id ≡ some token
  pub adds : acquire_new s event ≡ add_lot (acquired_lot s event entity token basis) s

abbrev pub HasException : Session → ClassifiedTransaction → Type 0
HasException s event = (x : LotProcessingException) × (acquire_new s event ≡ add_exception x s)

-- An acquisition that is not recorded yet either has a basis, an entity and a token, and adds the
-- one lot that they determine, or it adds one exception and nothing else.
pub acquire_new-cases :
    (s : Session) (event : ClassifiedTransaction) → HasLot s event ⊎ HasException s event
unfolding acquire_new acquire_with record_exception
acquire_new-cases s event = elim (Option-cases (acquisition_basis s event)) [
  | inl e ↦ inr (
    exception_row event missing_basis (unvalued event.classification event.notes) none,
    λ i. acquire_with s event (e i) (resolve_entity_id s event) event.token_id,
  )
  | inr (basis, e) ↦ elim (Option-cases (resolve_entity_id s event)) [
    | inl f ↦ inr (
      exception_row event missing_basis no_wallet_entity_assignment none,
      λ i. acquire_with s event (e i) (f i) event.token_id,
    )
    | inr (entity, f) ↦ elim (Option-cases event.token_id) [
      | inl g ↦ inr (
        exception_row event missing_basis no_token_id_on_classified_tx none,
        λ i. acquire_with s event (e i) (f i) (g i),
      )
      | inr (token, g) ↦ inl (record {
        basis = basis;
        entity = entity;
        token = token;
        has_basis = e;
        has_entity = f;
        has_token = g;
        adds = λ i. acquire_with s event (e i) (f i) (g i);
      })
    ]
  ]
]
