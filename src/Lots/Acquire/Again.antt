-- ===== src/Lots/Acquire/Again.antt =====
-- On `_apply_acquire` of domain/lots/engine.py, applied twice.
use lemon_ledger.Prelude.{
  ℕ, ◌==◌, ◌≡◌, refl, sym, ap, ◌∙◌, arith, Bool, Bool-cases, true, false, inl, inr, ◌⊎◌, is_some,
  List, [], ◌∷◌, ◌++◌, find,
}
use lemon_ledger.Models.{
  Session, ClassifiedTransaction, LotProcessingException, add_lot, add_exception,
}
use lemon_ledger.Lots.Acquire.{apply_acquire, acquire_new, acquired_lot}
use lemon_ledger.Lots.Acquire.Cases.{acquire_new-cases, HasLot}

-- A row that fits is found in a table to which it is added.
find-append :
    {A : Type 0} (p : A → Bool) (xs : List A) (x : A)
    → p x ≡ true
    → is_some (find p (xs ++ (x ∷ []))) ≡ true
find-append p [] x fits = rw fits refl
find-append p (y ∷ ys) x fits = elim (Bool-cases (p y)) [
  | inl fit ↦ rw fit refl
  | inr unfit ↦ rw unfit (find-append p ys x fits)
]

==_refl : (k : ℕ) → k == k ≡ true
==_refl k = ground arith

abbrev recorded : Session → ClassifiedTransaction → Bool
recorded s event = is_some (find (λ l. l.source_classified_tx_id == event.id) s.lots)

settled :
    (s : Session) (event : ClassifiedTransaction)
    → recorded s event ≡ true
    → apply_acquire s event ≡ s
unfolding apply_acquire
settled s event h = rw h refl

lot_recorded :
    (s : Session) (event : ClassifiedTransaction) (lot : HasLot s event)
    → recorded (add_lot (acquired_lot s event lot.entity lot.token lot.basis) s) event ≡ true
unfolding add_lot acquired_lot
lot_recorded s event lot =
    find-append (λ l. l.source_classified_tx_id == event.id) s.lots _ (==_refl event.id)

fresh :
    (s : Session) (event : ClassifiedTransaction)
    → recorded s event ≡ false
    → apply_acquire s event ≡ acquire_new s event
unfolding apply_acquire
fresh s event h = rw h refl

-- An acquisition applied once more changes nothing, unless it ended in an exception, which is then
-- all that it added.
pub apply_acquire-again :
    (s : Session) (event : ClassifiedTransaction)
    → (apply_acquire (apply_acquire s event) event ≡ apply_acquire s event)
      ⊎ ((x : LotProcessingException) × (apply_acquire s event ≡ add_exception x s))
apply_acquire-again s event = elim (Bool-cases (recorded s event)) [
  | inl old ↦ inl (ap (λ t. apply_acquire t event) (settled s event old))
  | inr new ↦ elim (acquire_new-cases s event) [
    | inl lot ↦
        let added = fresh s event new ∙ lot.adds in
        inl (
          ap (λ t. apply_acquire t event) added
          ∙ settled _ event (lot_recorded s event lot)
          ∙ sym added)
    | inr (x, e) ↦ inr (x, fresh s event new ∙ e)
  ]
]
