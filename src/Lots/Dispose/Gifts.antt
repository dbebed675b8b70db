-- ===== src/Lots/Dispose/Gifts.antt =====
-- On the quantities of the lots before and after `_apply_gift_out` of domain/lots/engine.py.
use lemon_ledger.Prelude.{
  ℕ, ◌+◌, ◌<◌, ◌≡◌, refl, sym, ap, ◌∙◌, arith, Bool, true, false, inl, inr, ◌⊎◌, if◌then◌else◌,
  is_some, Option, none, some, find, ◌==◌, List, [], ◌∷◌, map, sum_of, sum_of-map, All, ok, err,
}
use lemon_ledger.Models.{
  Session, Try, ClassifiedTransaction, LotProcessingException, insufficient_lots, invalid_operation,
  division_by_zero, set_lot, set_event, needs_review, add_relocation, add_exception, missing_basis,
  no_token_id_on_classified_tx,
}
use lemon_ledger.Decimal.{limit}
use lemon_ledger.Lots.Pools.{open_lots}
use lemon_ledger.Lots.Consume.{ConsumptionSlice}
use lemon_ledger.Lots.Consume.Totals.{remaining, qty, IsWithin, Consumes}
use lemon_ledger.Lots.Consume.Picks.{IsPicked, PicksAll}
use lemon_ledger.Lots.Acquire.{record_exception}
use lemon_ledger.Lots.Dispose.{write_gifts, or_record, consumed, apply_gift_out}
use lemon_ledger.Lots.Dispose.Supply.{consumed-Consumes}
use lemon_ledger.Lots.Dispose.Draws.{at, draw, draw-sum}
use lemon_ledger.Lots.Dispose.Conservation.{
  of_slice, slices-Distinct, slices-Covered, open_lots-le, consumed-Picks, IsSound,
}

write_gifts-lots :
    (event : ClassifiedTransaction) (slices : List ConsumptionSlice) (s : Session)
    → (write_gifts event slices s).lots ≡ draw (map of_slice slices) s.lots
unfolding write_gifts add_relocation set_lot
write_gifts-lots event [] s = refl
write_gifts-lots event (slice ∷ slices) s = write_gifts-lots event slices _

given-sum :
    (s : Session) (event : ClassifiedTransaction) (token_id : ℕ) (slices : List ConsumptionSlice)
    → IsSound s
    → IsPicked (open_lots s event.wallet_id token_id) slices
    → All IsWithin slices
    → sum_of remaining (write_gifts event slices s).lots + sum_of qty slices
      ≡ sum_of remaining s.lots
given-sum s event token_id slices sound picked within =
    rw (write_gifts-lots event slices s, sym (sum_of-map (λ d. d.1) of_slice slices))
      (draw-sum (map of_slice slices) s.lots sound.unique sound.small
        (slices-Distinct slices λ k. omega (arith, all (at k (λ _. 1)), sound.unique k))
        (slices-Covered s.lots slices all within))
  where
    all : IsPicked s.lots slices
    all f = omega (arith, picked f, open_lots-le f s event.wallet_id token_id)

-- A gift that returns has taken the amount from the lots, or has only recorded an exception, or
-- has changed nothing.
abbrev pub Gives : Session → ℕ → Try Session → Type 0
Gives s amount (ok t) =
    (sum_of remaining t.lots + amount ≡ sum_of remaining s.lots)
    ⊎ ((x : LotProcessingException) × (t ≡ add_exception x s))
    ⊎ (t ≡ s)
Gives s amount (err _) = Unit

-- Let no two lots have the same key, and let every quantity be below 10^10 tokens. If
-- `_apply_gift_out` returns, what is left of all lots together is less by exactly the amount of
-- the event, or an exception has been recorded and nothing else changed, or nothing has changed.
pub apply_gift_out-Gives :
    (s : Session) (event : ClassifiedTransaction)
    → IsSound s
    → event.amount < limit
    → Gives s event.amount (apply_gift_out s event)
unfolding apply_gift_out or_record record_exception set_event
apply_gift_out-Gives s event sound small =
    first (is_some (find (λ r. r.classified_tx_id == event.id) s.relocations))
  where
    given :
        (token_id : ℕ) (r : Try (List ConsumptionSlice))
        → Consumes (open_lots s event.wallet_id token_id) event.amount r
        → PicksAll (open_lots s event.wallet_id token_id) r
        → Gives s event.amount (
            or_record s event r
              (λ slices. ok (set_event event.id needs_review (write_gifts event slices s))))
    given token_id (ok slices) (total, within, supply) picked = inl (
        ap (λ n. sum_of remaining (write_gifts event slices s).lots + n) (sym total)
        ∙ given-sum s event token_id slices sound picked within)
    given token_id (err (insufficient_lots u)) c picked = inr (inl (_, refl))
    given token_id (err invalid_operation) c picked = tt
    given token_id (err division_by_zero) c picked = tt

    go :
        (token : Option ℕ)
        → Gives s event.amount (elim token [
          | none ↦ ok (record_exception s event missing_basis no_token_id_on_classified_tx none)
          | some token_id ↦
              or_record s event
                (consumed s event token_id)
                (λ slices. ok (set_event event.id needs_review (write_gifts event slices s)))
        ])
    go none = inr (inl (_, refl))
    go (some token_id) =
        given token_id (consumed s event token_id) (consumed-Consumes s event token_id small)
          (consumed-Picks s event token_id)

    first :
        (b : Bool)
        → Gives s event.amount (
            if b then ok s else elim event.token_id [
              | none ↦ ok (record_exception s event missing_basis no_token_id_on_classified_tx none)
              | some token_id ↦
                  or_record s event
                    (consumed s event token_id)
                    (λ slices. ok (set_event event.id needs_review (write_gifts event slices s)))
            ])
    first true = inr (inr refl)
    first false = go event.token_id
